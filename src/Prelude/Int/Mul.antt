-- ===== src/Prelude/Int/Mul.antt =====
-- Products, negation and magnitudes of integers.
use Prim.Native.Nat.{ℕ, zero, suc, ◌+◌, ◌*◌}
use mathlib.Core.Path.{◌≡◌, ap}
use mathlib.Core.Bool.{Bool, true, false}
use native.Mathlib.Omega.{arith}
use tycho_vm.Prelude.Tests.{◌==◌}
use tycho_vm.Prelude.Int.{
  ℤ, pos, negsuc, pos_part, neg_part, ◌+ℤ◌, ◌-ℤ◌, +ℤ_parts, -ℤ_parts, eq_of_parts,
}

abbrev pub neg_ℤ : ℤ → ℤ
neg_ℤ (pos zero) = pos zero
neg_ℤ (pos (suc n)) = negsuc n
neg_ℤ (negsuc n) = pos (suc n)

-- `magnitude()`.
abbrev pub nat_abs : ℤ → ℕ
nat_abs (pos n) = n
nat_abs (negsuc n) = suc n

abbrev pub is_zero_ℤ : ℤ → Bool
is_zero_ℤ (pos zero) = true
is_zero_ℤ _ = false

-- `sign()`: `Minus`, `NoSign` and `Plus` are the numbers from 0.
abbrev pub sign_number : ℤ → ℕ
sign_number (negsuc _) = 0
sign_number (pos zero) = 1
sign_number (pos (suc _)) = 2

abbrev pub same_sign : ℤ → ℤ → Bool
same_sign x y = sign_number x == sign_number y

infixl 70 ◌*ℤ◌
unfoldable pub ◌*ℤ◌ : ℤ → ℤ → ℤ
pos m *ℤ pos n = pos (m * n)
pos m *ℤ negsuc n = neg_ℤ (pos (m * suc n))
negsuc m *ℤ pos n = neg_ℤ (pos (suc m * n))
negsuc m *ℤ negsuc n = pos (suc m * suc n)

pub pos_part-*ℤ : (a b : ℤ) → pos_part (a *ℤ b) ≡ pos_part a * pos_part b + neg_part a * neg_part b
unfolding ◌*ℤ◌
pos_part-*ℤ a b = ground arith

pub neg_part-*ℤ : (a b : ℤ) → neg_part (a *ℤ b) ≡ pos_part a * neg_part b + neg_part a * pos_part b
unfolding ◌*ℤ◌
neg_part-*ℤ a b = ground arith

-- A quotient that is one more or less, with its remainder.
pub next_quotient : (x y q r : ℤ) → x ≡ q *ℤ y +ℤ r → x ≡ (q +ℤ pos 1) *ℤ y +ℤ (r -ℤ y)
next_quotient x y q r e = eq_of_parts x ((q +ℤ pos 1) *ℤ y +ℤ (r -ℤ y)) (
    omega (
      arith,
      ap pos_part e,
      ap neg_part e,
      pos_part-*ℤ q y,
      neg_part-*ℤ q y,
      pos_part-*ℤ (q +ℤ pos 1) y,
      neg_part-*ℤ (q +ℤ pos 1) y,
      +ℤ_parts (q *ℤ y) r,
      +ℤ_parts ((q +ℤ pos 1) *ℤ y) (r -ℤ y),
      -ℤ_parts r y,
      ap (λ (t : ℕ). t * pos_part y) (+ℤ_parts q (pos 1)),
      ap (λ (t : ℕ). t * neg_part y) (+ℤ_parts q (pos 1)),
    ))

pub previous_quotient : (x y q r : ℤ) → x ≡ q *ℤ y +ℤ r → x ≡ (q -ℤ pos 1) *ℤ y +ℤ (r +ℤ y)
previous_quotient x y q r e = eq_of_parts x ((q -ℤ pos 1) *ℤ y +ℤ (r +ℤ y)) (
    omega (
      arith,
      ap pos_part e,
      ap neg_part e,
      pos_part-*ℤ q y,
      neg_part-*ℤ q y,
      pos_part-*ℤ (q -ℤ pos 1) y,
      neg_part-*ℤ (q -ℤ pos 1) y,
      +ℤ_parts (q *ℤ y) r,
      +ℤ_parts ((q -ℤ pos 1) *ℤ y) (r +ℤ y),
      +ℤ_parts r y,
      ap (λ (t : ℕ). t * pos_part y) (-ℤ_parts q (pos 1)),
      ap (λ (t : ℕ). t * neg_part y) (-ℤ_parts q (pos 1)),
    ))
