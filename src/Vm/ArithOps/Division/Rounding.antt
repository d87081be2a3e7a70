-- ===== src/Vm/ArithOps/Division/Rounding.antt =====
-- What a quotient and a remainder are in each rounding mode.
use tycho_vm.Prelude.{
  ℕ, ◌^◌, ◌≤◌, ◌<◌, zero, suc, ◌≡◌, refl, sym, arith, Bool, true, false, ◌||◌, if◌then◌else◌,
}
use tycho_vm.Prelude.Int.{ℤ, pos, negsuc, ◌+ℤ◌, ◌-ℤ◌, ◌≤ℤ◌}
use tycho_vm.Prelude.Int.Mul.{
  neg_ℤ, nat_abs, is_zero_ℤ, same_sign, ◌*ℤ◌, next_quotient, previous_quotient,
}
use tycho_vm.Vm.ArithOps.Division.{
  DivOps, RoundMode, floor, nearest, ceiling, nearest_rounding_required, ceil_rounding_required,
  away_from_zero, other_remainder, int_div, int_mod, int_divmod, int_rshift, int_mod_pow2,
  int_rshiftmod,
}

-- The remainder as seen along the divisor: with its sign changed for a negative divisor.
abbrev pub along : ℤ → ℤ → ℤ
along (pos _) r = r
along (negsuc _) r = neg_ℤ r

-- Where the remainder along the divisor is: from zero up to the divisor, from minus a half to a half, or down from zero.
abbrev pub InMode : RoundMode → ℤ → ℤ → Type 0
InMode floor y r = (pos 0 ≤ℤ along y r) × (along y r +ℤ pos 1 ≤ℤ pos (nat_abs y))
InMode nearest y r =
    (pos 0 ≤ℤ along y r +ℤ along y r +ℤ pos (nat_abs y))
    × (along y r +ℤ along y r +ℤ pos 1 ≤ℤ pos (nat_abs y))
InMode ceiling y r = (along y r ≤ℤ pos 0) × (pos 1 ≤ℤ along y r +ℤ pos (nat_abs y))

-- The quotient and the remainder of a division in that mode.
pub record IsRounded (mode : RoundMode) (x y : ℤ) (q r : ℤ) : Type 0 where
  pub divides : x ≡ q *ℤ y +ℤ r
  pub in_mode : InMode mode y r

-- The documented behaviour of the package. `div_rem` rounds towards zero, and its remainder has the sign of the dividend.
pub record DivLaws (d : DivOps) : Type 0 where
  pub div_rem_divides :
      (x y : ℤ) → is_zero_ℤ y ≡ false → x ≡ (d.div_rem x y).0 *ℤ y +ℤ (d.div_rem x y).1
  pub div_rem_small : (x y : ℤ) → is_zero_ℤ y ≡ false → nat_abs (d.div_rem x y).1 < nat_abs y
  pub div_rem_sign :
      (x y : ℤ)
      → is_zero_ℤ y ≡ false
      → is_zero_ℤ (d.div_rem x y).1 || same_sign (d.div_rem x y).1 x ≡ true
  pub div_mod_floor_rounded :
      (x y : ℤ)
      → is_zero_ℤ y ≡ false
      → IsRounded floor x y (d.div_mod_floor x y).0 (d.div_mod_floor x y).1
  pub shift_right_rounded :
      (x : ℤ) (k : ℕ) → IsRounded floor x (pos (2 ^ k)) (d.shift_right x k) (d.low_bits x k)

nearest-InMode :
    (x y r : ℤ)
    → nat_abs r < nat_abs y
    → is_zero_ℤ r || same_sign r x ≡ true
    → InMode nearest y (if nearest_rounding_required r x y then other_remainder r y else r)
unfolding nearest_rounding_required other_remainder ◌+ℤ◌ ◌-ℤ◌
nearest-InMode x y r small signs = ground arith

ceiling-InMode :
    (x y r : ℤ)
    → nat_abs r < nat_abs y
    → InMode ceiling y (if ceil_rounding_required r y then r -ℤ y else r)
unfolding ceil_rounding_required ◌+ℤ◌ ◌-ℤ◌
ceiling-InMode x y r small = ground arith

-- The divisor has the sign of the dividend just when it has that of a remainder other than zero.
same_sign-remainder :
    (x y r : ℤ)
    → is_zero_ℤ r ≡ false
    → is_zero_ℤ r || same_sign r x ≡ true
    → same_sign x y ≡ same_sign r y
same_sign-remainder x y r nonzero signs = ground arith

stepped :
    (b : Bool) (x y q r : ℤ)
    → x ≡ q *ℤ y +ℤ r
    → x ≡ (if b then q +ℤ pos 1 else q -ℤ pos 1) *ℤ y +ℤ (if b then r -ℤ y else r +ℤ y)
stepped true x y q r e = next_quotient x y q r e
stepped false x y q r e = previous_quotient x y q r e

away-divides :
    (x y q r : ℤ)
    → is_zero_ℤ r ≡ false
    → is_zero_ℤ r || same_sign r x ≡ true
    → x ≡ q *ℤ y +ℤ r
    → x ≡ away_from_zero x y q *ℤ y +ℤ other_remainder r y
unfolding away_from_zero other_remainder
away-divides x y q r nonzero signs e =
    rw (same_sign-remainder x y r nonzero signs) (stepped (same_sign r y) x y q r e)

-- A remainder that asks for the other quotient is not zero.
nearest-nonzero : (r x y : ℤ) → nearest_rounding_required r x y ≡ true → is_zero_ℤ r ≡ false
unfolding nearest_rounding_required
nearest-nonzero r x y h = ground arith

ceil-nonzero : (r y : ℤ) → ceil_rounding_required r y ≡ true → is_zero_ℤ r ≡ false
unfolding ceil_rounding_required
ceil-nonzero r y h = ground arith

ceil-other : (r y : ℤ) → ceil_rounding_required r y ≡ true → other_remainder r y ≡ r -ℤ y
unfolding ceil_rounding_required other_remainder
ceil-other r y h = ground arith

nearest-divides :
    (x y q r : ℤ)
    → is_zero_ℤ r || same_sign r x ≡ true
    → x ≡ q *ℤ y +ℤ r
    → (b : Bool) → nearest_rounding_required r x y ≡ b
    → x ≡ (if b then away_from_zero x y q else q) *ℤ y +ℤ (if b then other_remainder r y else r)
nearest-divides x y q r signs e true h = away-divides x y q r (nearest-nonzero r x y h) signs e
nearest-divides x y q r signs e false h = e

ceil-divides :
    (x y q r : ℤ)
    → is_zero_ℤ r || same_sign r x ≡ true
    → x ≡ q *ℤ y +ℤ r
    → (b : Bool) → ceil_rounding_required r y ≡ b
    → x ≡ (if b then away_from_zero x y q else q) *ℤ y +ℤ (if b then r -ℤ y else r)
ceil-divides x y q r signs e true h =
    rw (sym (ceil-other r y h)) (away-divides x y q r (ceil-nonzero r y h) signs e)
ceil-divides x y q r signs e false h = e

-- The pair that a test selects has the parts that the test selects.
selected :
    (b : Bool) (q q' r r' : ℤ)
    → let picked : ℤ × ℤ = if b then (q, r) else (q', r') in
      (picked.0 ≡ (if b then q else q')) × (picked.1 ≡ (if b then r else r'))
selected true q q' r r' = (refl, refl)
selected false q q' r r' = (refl, refl)

div_mod-divmod :
    (d : DivOps) (mode : RoundMode) (x y : ℤ)
    → ((int_divmod d mode x y).0 ≡ int_div d mode x y)
      × ((int_divmod d mode x y).1 ≡ int_mod d mode x y)
unfolding int_div int_mod int_divmod
div_mod-divmod d floor x y = (refl, refl)
div_mod-divmod d nearest x y =
    let (q, r) = d.div_rem x y in
    selected (nearest_rounding_required r x y) (away_from_zero x y q) q (other_remainder r y) r
div_mod-divmod d ceiling x y =
    let (q, r) = d.div_rem x y in
    selected (ceil_rounding_required r y) (away_from_zero x y q) q (r -ℤ y) r

-- The rounding of the separate results, and of the pair.
abbrev pub Rounds : DivOps → RoundMode → ℤ → ℤ → Type 0
Rounds d mode x y =
    IsRounded mode x y (int_div d mode x y) (int_mod d mode x y)
    × IsRounded mode x y (int_divmod d mode x y).0 (int_divmod d mode x y).1

-- From one of them the other.
same_rounding :
    {mode : RoundMode} {x y q q' r r' : ℤ}
    → q' ≡ q
    → r' ≡ r
    → IsRounded mode x y q r
    → IsRounded mode x y q' r'
same_rounding e f h = rw e (rw f h)

-- If the package keeps its laws, the quotient of a division by a divisor other than zero, times the divisor, and the
-- remainder add up to the dividend, and the remainder is where the rounding mode wants it, one by one and together.
pub int_divmod-Rounds :
    (d : DivOps)
    → DivLaws d
    → (mode : RoundMode) (x y : ℤ) → is_zero_ℤ y ≡ false
    → Rounds d mode x y
unfolding int_div int_mod int_divmod
int_divmod-Rounds d laws mode x y nonzero =
    let together = div_mod-divmod d mode x y in
    let parts = separate mode in (parts, same_rounding together.0 together.1 parts)
  where
    q : ℤ
    q = (d.div_rem x y).0

    r : ℤ
    r = (d.div_rem x y).1

    separate : (m : RoundMode) → IsRounded m x y (int_div d m x y) (int_mod d m x y)
    separate floor = laws.div_mod_floor_rounded x y nonzero
    separate nearest = record {
      divides =
          nearest-divides x y q r (laws.div_rem_sign x y nonzero) (laws.div_rem_divides x y nonzero)
            (nearest_rounding_required r x y) refl;
      in_mode =
          nearest-InMode x y r (laws.div_rem_small x y nonzero) (laws.div_rem_sign x y nonzero);
    }
    separate ceiling = record {
      divides =
          ceil-divides x y q r (laws.div_rem_sign x y nonzero) (laws.div_rem_divides x y nonzero)
            (ceil_rounding_required r y) refl;
      in_mode = ceiling-InMode x y r (laws.div_rem_small x y nonzero);
    }

pub pow2_positive : (k : ℕ) → 1 ≤ 2 ^ k
pow2_positive zero = omega arith
pow2_positive (suc k) = omega (arith, pow2_positive k)

pub pow2-nonzero : (n : ℕ) → 1 ≤ n → is_zero_ℤ (pos n) ≡ false
pow2-nonzero (suc _) h = refl
pow2-nonzero zero h = ground arith

-- A shift to the right and the bits that it drops are the quotient and the remainder by the power of two.
pub int_rshiftmod_rounds :
    (d : DivOps)
    → DivLaws d
    → (mode : RoundMode) (x : ℤ) (k : ℕ)
    → IsRounded mode x (pos (2 ^ k)) (int_rshift d mode x k) (int_mod_pow2 d mode x k)
      × IsRounded mode x (pos (2 ^ k)) (int_rshiftmod d mode x k).0 (int_rshiftmod d mode x k).1
unfolding int_rshift int_mod_pow2 int_rshiftmod
int_rshiftmod_rounds d laws floor x k = (laws.shift_right_rounded x k, laws.shift_right_rounded x k)
int_rshiftmod_rounds d laws nearest x k =
    int_divmod-Rounds d laws nearest x (pos (2 ^ k)) (pow2-nonzero (2 ^ k) (pow2_positive k))
int_rshiftmod_rounds d laws ceiling x k =
    int_divmod-Rounds d laws ceiling x (pos (2 ^ k)) (pow2-nonzero (2 ^ k) (pow2_positive k))
