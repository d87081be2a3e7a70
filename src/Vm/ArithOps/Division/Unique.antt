-- ===== src/Vm/ArithOps/Division/Unique.antt =====
-- A division rounded down has one result, so that shifts and masks are divisions by a power of two.
use tycho_vm.Prelude.{ℕ, ◌+◌, ◌*◌, ◌^◌, ◌≤◌, ◌<◌, ◌≡◌, refl, ap, arith}
use tycho_vm.Prelude.Int.{ℤ, pos, pos_part, neg_part, ◌+ℤ◌, ◌≤ℤ◌, +ℤ_parts, eq_of_parts}
use tycho_vm.Prelude.Int.Mul.{◌*ℤ◌, pos_part-*ℤ, neg_part-*ℤ}
use tycho_vm.Vm.ArithOps.Division.{
  DivOps, RoundMode, floor, nearest, ceiling, int_div, int_mod, int_divmod, int_rshift,
  int_mod_pow2, int_rshiftmod,
}
use tycho_vm.Vm.ArithOps.Division.Rounding.{IsRounded, DivLaws, pow2_positive, pow2-nonzero}
use native.Mathlib.Nat.{lt_of_mul-lt-mul_right}

remainder_parts :
    (r : ℤ) (n : ℕ) → pos 0 ≤ℤ r → r +ℤ pos 1 ≤ℤ pos n → (neg_part r ≡ 0) × (pos_part r < n)
unfolding ◌+ℤ◌
remainder_parts r n low high = ground arith

-- The equation of a division by a positive number, in parts.
floor_parts :
    (x q r : ℤ) (n : ℕ)
    → IsRounded floor x (pos n) q r
    → (neg_part r ≡ 0)
      × (pos_part r < n)
      × (pos_part x + neg_part q * n ≡ neg_part x + pos_part q * n + pos_part r)
floor_parts x q r n h =
    let small = remainder_parts r n h.in_mode.0 h.in_mode.1 in
    (
      small.0,
      small.1,
      omega (
        arith,
        ap pos_part h.divides,
        ap neg_part h.divides,
        pos_part-*ℤ q (pos n),
        neg_part-*ℤ q (pos n),
        +ℤ_parts (q *ℤ pos n) r,
        small.0,
      ),
    )

-- Of two quotients the first is not the smaller one.
not_smaller :
    (x q r q' r' : ℤ) (n : ℕ)
    → IsRounded floor x (pos n) q r
    → IsRounded floor x (pos n) q' r'
    → pos_part q' + neg_part q ≤ pos_part q + neg_part q'
not_smaller x q r q' r' n h h' =
    let p = floor_parts x q r n h in
    let p' = floor_parts x q' r' n h' in
    let below : pos_part q' + neg_part q < pos_part q + neg_part q' + 1 =
      lt_of_mul-lt-mul_right n (omega (arith, p.1, p.2, p'.2)) in
    omega (arith, below)

-- The quotient and the remainder of a division rounded down by a positive number are unique.
floor_unique :
    (x q r q' r' : ℤ) (n : ℕ)
    → IsRounded floor x (pos n) q r
    → IsRounded floor x (pos n) q' r'
    → (q ≡ q') × (r ≡ r')
floor_unique x q r q' r' n h h' =
    let same : q ≡ q' =
      eq_of_parts q q'
        (omega (arith, not_smaller x q r q' r' n h h', not_smaller x q' r' q r n h' h)) in
    let p = floor_parts x q r n h in
    let p' = floor_parts x q' r' n h' in
    (
      same,
      eq_of_parts r r' (
          omega (
            arith,
            p.0,
            p'.0,
            p.2,
            p'.2,
            ap (λ z. pos_part z * n) same,
            ap (λ z. neg_part z * n) same,
          )),
    )

-- Shifting and masking give what the division by the power of two gives, in every mode.
pub record ShiftsDivide (d : DivOps) (mode : RoundMode) (x : ℤ) (k : ℕ) : Type 0 where
  pub shifted : int_rshift d mode x k ≡ int_div d mode x (pos (2 ^ k))
  pub masked : int_mod_pow2 d mode x k ≡ int_mod d mode x (pos (2 ^ k))
  pub together : int_rshiftmod d mode x k ≡ int_divmod d mode x (pos (2 ^ k))

pub int_rshiftmod-eq-int_divmod :
    (d : DivOps) → DivLaws d → (mode : RoundMode) (x : ℤ) (k : ℕ) → ShiftsDivide d mode x k
unfolding int_rshift int_mod_pow2 int_rshiftmod int_div int_mod int_divmod
int_rshiftmod-eq-int_divmod d laws floor x k =
    let y = pos (2 ^ k) in
    let nonzero = pow2-nonzero (2 ^ k) (pow2_positive k) in
    let same =
      floor_unique x (d.shift_right x k) (d.low_bits x k) (d.div_mod_floor x y).0
        (d.div_mod_floor x y).1 (2 ^ k) (laws.shift_right_rounded x k)
        (laws.div_mod_floor_rounded x y nonzero) in
    record { shifted = same.0; masked = same.1; together = cc }
int_rshiftmod-eq-int_divmod d laws nearest x k = record {
  shifted = refl;
  masked = refl;
  together = refl;
}
int_rshiftmod-eq-int_divmod d laws ceiling x k = record {
  shifted = refl;
  masked = refl;
  together = refl;
}
