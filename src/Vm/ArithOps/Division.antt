-- ===== src/Vm/ArithOps/Division.antt =====
-- Division with rounding (vm/src/instr/arithops.rs, `int_div` and the functions below it). The operations of the big
-- integer package that the source divides and shifts with are a parameter.
pub mod Rounding
pub mod Schoolbook
pub mod Unique
mod Tests
use tycho_vm.Prelude.{
  ℕ, ◌+◌, ◌*◌, ◌-◌, ◌/◌, ◌%◌, ◌^◌, ◌≤◌, ◌<◌, ◌≡◌, ◌⊎◌, Bool, true, false, not, ◌&&◌, ◌||◌, ltb,
  ◌==◌, if◌then◌else◌, Result, ok, err,
}
use tycho_vm.Prelude.Int.{ℤ, pos, ◌+ℤ◌, ◌-ℤ◌}
use tycho_vm.Prelude.Int.Mul.{nat_abs, is_zero_ℤ, same_sign, ◌*ℤ◌}
use tycho_vm.Vm.Error.{VmError}

-- `div_rem`, `div_mod_floor` (whose parts are `div_floor` and `mod_floor`), `>>`, and `x & ((1 << k) - 1)`.
pub record DivOps : Type 0 where
  pub div_rem : ℤ → ℤ → ℤ × ℤ
  pub div_mod_floor : ℤ → ℤ → ℤ × ℤ
  pub shift_right : ℤ → ℕ → ℤ
  pub low_bits : ℤ → ℕ → ℤ

pub data RoundMode : Type 0 where
  floor nearest ceiling : RoundMode

-- `RoundMode::from_args`.
unfoldable pub round_mode : ℕ → Result VmError RoundMode
round_mode args =
    if args == 0
    then ok floor
    else if args == 1
    then ok nearest
    else if args == 2
    then ok ceiling
    else err VmError.invalid_opcode

unfoldable pub nearest_rounding_required : ℤ → ℤ → ℤ → Bool
nearest_rounding_required r x y =
    if is_zero_ℤ r
    then false
    else ltb (nat_abs y) (nat_abs r * 2) || (nat_abs r * 2 == nat_abs y && same_sign x y)

unfoldable pub ceil_rounding_required : ℤ → ℤ → Bool
ceil_rounding_required r y = not (is_zero_ℤ r) && same_sign r y

-- The quotient one away from zero.
unfoldable pub away_from_zero : ℤ → ℤ → ℤ → ℤ
away_from_zero x y q = if same_sign x y then q +ℤ pos 1 else q -ℤ pos 1

-- The remainder that the mode `Nearest` goes over to.
unfoldable pub other_remainder : ℤ → ℤ → ℤ
other_remainder r y = if same_sign r y then r -ℤ y else r +ℤ y

module _ (d : DivOps) where
  unfoldable pub int_div : RoundMode → ℤ → ℤ → ℤ
  unfolding nearest_rounding_required ceil_rounding_required away_from_zero
  int_div floor x y = (d.div_mod_floor x y).0
  int_div nearest x y =
      let (q, r) = d.div_rem x y in
      if nearest_rounding_required r x y then away_from_zero x y q else q
  int_div ceiling x y =
      let (q, r) = d.div_rem x y in if ceil_rounding_required r y then away_from_zero x y q else q

  unfoldable pub int_mod : RoundMode → ℤ → ℤ → ℤ
  unfolding nearest_rounding_required ceil_rounding_required other_remainder
  int_mod floor x y = (d.div_mod_floor x y).1
  int_mod nearest x y =
      let (q, r) = d.div_rem x y in
      if nearest_rounding_required r x y then other_remainder r y else r
  int_mod ceiling x y =
      let (q, r) = d.div_rem x y in if ceil_rounding_required r y then r -ℤ y else r

  unfoldable pub int_divmod : RoundMode → ℤ → ℤ → ℤ × ℤ
  unfolding nearest_rounding_required ceil_rounding_required away_from_zero other_remainder
  int_divmod floor x y = d.div_mod_floor x y
  int_divmod nearest x y =
      let (q, r) = d.div_rem x y in
      if nearest_rounding_required r x y
      then (away_from_zero x y q, other_remainder r y)
      else (q, r)
  int_divmod ceiling x y =
      let (q, r) = d.div_rem x y in
      if ceil_rounding_required r y then (away_from_zero x y q, r -ℤ y) else (q, r)

  unfoldable pub int_rshift : RoundMode → ℤ → ℕ → ℤ
  unfolding int_div
  int_rshift floor x y = d.shift_right x y
  int_rshift mode x y = int_div mode x (pos (2 ^ y))

  unfoldable pub int_mod_pow2 : RoundMode → ℤ → ℕ → ℤ
  unfolding int_mod
  int_mod_pow2 floor x y = d.low_bits x y
  int_mod_pow2 mode x y = int_mod mode x (pos (2 ^ y))

  unfoldable pub int_rshiftmod : RoundMode → ℤ → ℕ → ℤ × ℤ
  unfolding int_divmod
  int_rshiftmod floor x y = (d.shift_right x y, d.low_bits x y)
  int_rshiftmod mode x y = int_divmod mode x (pos (2 ^ y))
