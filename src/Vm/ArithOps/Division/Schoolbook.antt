-- ===== src/Vm/ArithOps/Division/Schoolbook.antt =====
-- One implementation of the big integer divisions, by way of the magnitudes, in the place of the package.
use tycho_vm.Prelude.{
  ℕ, zero, suc, ◌-◌, ◌/◌, ◌%◌, ◌^◌, ◌≤◌, ◌<◌, ◌≡◌, refl, ap, arith, true, false, ◌||◌,
}
use tycho_vm.Prelude.Int.{ℤ, pos, negsuc, pos_part, neg_part, ◌+ℤ◌, +ℤ_parts, eq_of_parts}
use tycho_vm.Prelude.Int.Mul.{neg_ℤ, nat_abs, is_zero_ℤ, same_sign, ◌*ℤ◌, pos_part-*ℤ, neg_part-*ℤ}
use tycho_vm.Vm.ArithOps.Division.{DivOps, floor}
use tycho_vm.Vm.ArithOps.Division.Rounding.{IsRounded, DivLaws, pow2_positive}
use native.Mathlib.Nat.{div-add-mod', mod-lt}

-- Rounding towards zero: the magnitudes are divided.
unfoldable quotient : ℤ → ℤ → ℤ
quotient (pos m) (pos n) = pos (m / n)
quotient (pos m) (negsuc n) = neg_ℤ (pos (m / suc n))
quotient (negsuc m) (pos n) = neg_ℤ (pos (suc m / n))
quotient (negsuc m) (negsuc n) = pos (suc m / suc n)

unfoldable remainder : ℤ → ℤ → ℤ
remainder (pos m) y = pos (m % nat_abs y)
remainder (negsuc m) y = neg_ℤ (pos (suc m % nat_abs y))

-- Rounding down, by a positive divisor.
unfoldable floor_quotient : ℤ → ℕ → ℤ
floor_quotient (pos m) n = pos (m / n)
floor_quotient (negsuc m) n = negsuc (m / n)

unfoldable floor_remainder : ℤ → ℕ → ℤ
floor_remainder (pos m) n = pos (m % n)
floor_remainder (negsuc m) n = pos (n - 1 - m % n)

unfoldable div_mod_floor : ℤ → ℤ → ℤ × ℤ
unfolding floor_quotient floor_remainder
div_mod_floor x (pos n) = (floor_quotient x n, floor_remainder x n)
div_mod_floor x (negsuc n) =
    (floor_quotient (neg_ℤ x) (suc n), neg_ℤ (floor_remainder (neg_ℤ x) (suc n)))

unfoldable pub schoolbook : DivOps
unfolding quotient remainder div_mod_floor floor_quotient floor_remainder
schoolbook = record {
  div_rem = λ x y. (quotient x y, remainder x y);
  div_mod_floor = div_mod_floor;
  shift_right = λ x k. floor_quotient x (2 ^ k);
  low_bits = λ x k. floor_remainder x (2 ^ k);
}

quotient-divides : (x y : ℤ) → is_zero_ℤ y ≡ false → x ≡ quotient x y *ℤ y +ℤ remainder x y
unfolding quotient remainder ◌*ℤ◌ ◌+ℤ◌
quotient-divides (pos m) (pos n) h = ground (arith, div-add-mod' m n)
quotient-divides (pos m) (negsuc n) h = ground (arith, div-add-mod' m (suc n))
quotient-divides (negsuc m) (pos n) h = ground (arith, div-add-mod' (suc m) n)
quotient-divides (negsuc m) (negsuc n) h = ground (arith, div-add-mod' (suc m) (suc n))

nat_abs_positive : (y : ℤ) → is_zero_ℤ y ≡ false → 0 < nat_abs y
nat_abs_positive y h = ground arith

remainder_small : (x y : ℤ) → is_zero_ℤ y ≡ false → nat_abs (remainder x y) < nat_abs y
unfolding remainder
remainder_small (pos m) y h = ground (arith, mod-lt m (nat_abs_positive y h))
remainder_small (negsuc m) y h = ground (arith, mod-lt (suc m) (nat_abs_positive y h))

remainder_sign : (x y : ℤ) → is_zero_ℤ (remainder x y) || same_sign (remainder x y) x ≡ true
unfolding remainder
remainder_sign x y = ground arith

floor-IsRounded :
    (x : ℤ) (n : ℕ) → 1 ≤ n → IsRounded floor x (pos n) (floor_quotient x n) (floor_remainder x n)
unfolding floor_quotient floor_remainder ◌*ℤ◌ ◌+ℤ◌
floor-IsRounded (pos m) n h = record {
  divides = ground (arith, div-add-mod' m n);
  in_mode = ground (arith, mod-lt m h);
}
floor-IsRounded (negsuc m) n h = record {
  divides = ground (arith, div-add-mod' m n, mod-lt m h);
  in_mode = ground (arith, mod-lt m h);
}

neg_ℤ_parts : (x : ℤ) → (pos_part (neg_ℤ x) ≡ neg_part x) × (neg_part (neg_ℤ x) ≡ pos_part x)
neg_ℤ_parts (pos zero) = (refl, refl)
neg_ℤ_parts (pos (suc n)) = (refl, refl)
neg_ℤ_parts (negsuc n) = (refl, refl)

neg_neg_ℤ : (x : ℤ) → neg_ℤ (neg_ℤ x) ≡ x
neg_neg_ℤ x = ground arith

negated-IsRounded :
    (x q r : ℤ) (n : ℕ)
    → IsRounded floor (neg_ℤ x) (pos (suc n)) q r
    → IsRounded floor x (negsuc n) q (neg_ℤ r)
negated-IsRounded x q r n h = record {
  divides = eq_of_parts x (q *ℤ negsuc n +ℤ neg_ℤ r) (
      omega (
        arith,
        ap pos_part h.divides,
        ap neg_part h.divides,
        neg_ℤ_parts x,
        neg_ℤ_parts r,
        +ℤ_parts (q *ℤ pos (suc n)) r,
        +ℤ_parts (q *ℤ negsuc n) (neg_ℤ r),
        pos_part-*ℤ q (negsuc n),
        neg_part-*ℤ q (negsuc n),
        pos_part-*ℤ q (pos (suc n)),
        neg_part-*ℤ q (pos (suc n)),
      ));
  in_mode = rw (neg_neg_ℤ r) h.in_mode;
}

div_mod_floor-IsRounded :
    (x y : ℤ)
    → is_zero_ℤ y ≡ false
    → IsRounded floor x y (div_mod_floor x y).0 (div_mod_floor x y).1
unfolding div_mod_floor
div_mod_floor-IsRounded x (pos n) h = floor-IsRounded x n (nat_abs_positive (pos n) h)
div_mod_floor-IsRounded x (negsuc n) h =
    let z = neg_ℤ x in
    negated-IsRounded x (floor_quotient z (suc n)) (floor_remainder z (suc n)) n
      (floor-IsRounded z (suc n) (omega arith))

pub schoolbook-DivLaws : DivLaws schoolbook
unfolding schoolbook
schoolbook-DivLaws = record {
  div_rem_divides = quotient-divides;
  div_rem_small = remainder_small;
  div_rem_sign = λ x y h. remainder_sign x y;
  div_mod_floor_rounded = div_mod_floor-IsRounded;
  shift_right_rounded = λ x k. floor-IsRounded x (2 ^ k) (pow2_positive k);
}
