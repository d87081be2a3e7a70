-- ===== src/Vm/CmpOps/Modes.antt =====
-- What the packed modes of the comparison opcodes stand for.
use tycho_vm.Prelude.{
  ℕ, ◌<◌, ◌≡◌, refl, ◌∙◌, >>=-ok, ◌⊎◌, inl, inr, Bool, true, false, ◌&&◌, not, arith, length, ◌∷◌,
  ok, some, if◌then◌else◌,
}
use tycho_vm.Prelude.Int.{ℤ, pos, negsuc, leb_ℤ, ◌-ℤ◌}
use tycho_vm.Vm.Stack.Values.{StackValue}
use tycho_vm.Vm.Stack.Basic.{Stack, max_depth, make_bool, push_int}
use tycho_vm.Vm.Stack.Typed.{pop_int_or_nan}
use tycho_vm.Vm.StackOps.Loops.{done}
use tycho_vm.Vm.CmpOps.{Ordering, cmp, check_cmp, push_or_nan, compared, exec_cmp}

-- The comparisons by name.
pub data Comparison : Type 0 where
  less_than equal_to at_most more_than unequal at_least : Comparison

-- The modes of `LESS`, `EQUAL`, `LEQ`, `GREATER`, `NEQ` and `GEQ`.
pub mode_of : Comparison → ℕ
mode_of Comparison.less_than = 0x887
mode_of Comparison.equal_to = 0x878
mode_of Comparison.at_most = 0x877
mode_of Comparison.more_than = 0x788
mode_of Comparison.unequal = 0x787
mode_of Comparison.at_least = 0x778

-- A comparison from both directions of the order.
by_order : Comparison → Bool → Bool → Bool
by_order Comparison.less_than below above = not above
by_order Comparison.equal_to below above = below && above
by_order Comparison.at_most below above = below
by_order Comparison.more_than below above = not below
by_order Comparison.unequal below above = not (below && above)
by_order Comparison.at_least below above = above

-- When a comparison holds, by the order of the integers.
pub holds : Comparison → ℤ → ℤ → Bool
holds c x y = by_order c (leb_ℤ x y) (leb_ℤ y x)

abbrev truth : Bool → ℤ
truth value = if value then negsuc 0 else pos 0

-- The digits of the modes: -1 where the comparison holds, and 0 where not.
digits :
    (c : Comparison)
    → (check_cmp Ordering.less (mode_of c) ≡ truth (by_order c true false))
      × (check_cmp Ordering.equal (mode_of c) ≡ truth (by_order c true true))
      × (check_cmp Ordering.greater (mode_of c) ≡ truth (by_order c false true))
unfolding check_cmp mode_of by_order ◌-ℤ◌
digits Comparison.less_than = (refl, refl, refl)
digits Comparison.equal_to = (refl, refl, refl)
digits Comparison.at_most = (refl, refl, refl)
digits Comparison.more_than = (refl, refl, refl)
digits Comparison.unequal = (refl, refl, refl)
digits Comparison.at_least = (refl, refl, refl)

cmp_cases :
    (x y : ℤ)
    → ((cmp x y ≡ Ordering.less) × (leb_ℤ x y ≡ true) × (leb_ℤ y x ≡ false))
      ⊎ ((cmp x y ≡ Ordering.equal) × (leb_ℤ x y ≡ true) × (leb_ℤ y x ≡ true))
      ⊎ ((cmp x y ≡ Ordering.greater) × (leb_ℤ x y ≡ false) × (leb_ℤ y x ≡ true))
unfolding cmp
cmp_cases x y = ground arith

check_cmp-holds : (c : Comparison) (x y : ℤ) → check_cmp (cmp x y) (mode_of c) ≡ truth (holds c x y)
unfolding holds
check_cmp-holds c x y =
    let (less, equal, greater) = digits c in
    elim (cmp_cases x y) [
      | inl (o, below, above) ↦ rw o (rw below (rw above less))
      | inr (inl (o, below, above)) ↦ rw o (rw below (rw above equal))
      | inr (inr (o, below, above)) ↦ rw o (rw below (rw above greater))
    ]

int_truth :
    {O : Type 0} (b : Bool) → ◌≡◌ {A = StackValue O} (StackValue.int (truth b)) (make_bool b)
unfolding make_bool
int_truth true = refl
int_truth false = refl

push_int_room :
    {O : Type 0} (x : ℤ) (s : Stack O)
    → length s < max_depth
    → push_int x s ≡ (ok tt, StackValue.int x ∷ s)
unfolding push_int
push_int_room x s h = ground arith

push_or_nan-some :
    {O : Type 0} (quiet : Bool) (x : ℤ) (s : Stack O)
    → length s < max_depth
    → push_or_nan quiet (some x) s ≡ (ok (pos 0), StackValue.int x ∷ s)
unfolding push_or_nan
push_or_nan-some quiet x s h = >>=-ok (push_int x) (λ _. done) s (push_int_room x s h)

-- `LESS`, `EQUAL`, `LEQ`, `GREATER`, `NEQ` and `GEQ` on integers `x` and `y`, with `y` on top, replace them by the truth
-- value of the comparison, quiet or not.
pub exec_cmp-holds :
    {O : Type 0} (c : Comparison) (quiet : Bool) (x y : ℤ) (s : Stack O)
    → length s < max_depth
    → exec_cmp (mode_of c) quiet (StackValue.int y ∷ StackValue.int x ∷ s)
      ≡ (ok (pos 0), make_bool (holds c x y) ∷ s)
unfolding exec_cmp pop_int_or_nan compared
exec_cmp-holds {O} c quiet x y s h =
    push_or_nan-some quiet (check_cmp (cmp x y) (mode_of c)) s h
    ∙ rw (check_cmp-holds c x y) (rw (int_truth {O = O} (holds c x y)) refl)
