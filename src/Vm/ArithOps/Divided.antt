-- ===== src/Vm/ArithOps/Divided.antt =====
-- The division instructions (vm/src/instr/arithops.rs).
pub mod Results
use tycho_vm.Prelude.{
  ℕ, ◌+◌, ◌*◌, ◌/◌, ◌%◌, ◌^◌, Bool, true, false, ◌==◌, Option, none, some, if◌then◌else◌, Result,
  ok, err, Action, ◌>>=◌, ◌>>◌, fail, pure, lift,
}
use tycho_vm.Prelude.Int.{ℤ, pos, ◌+ℤ◌}
use tycho_vm.Prelude.Int.Mul.{is_zero_ℤ, ◌*ℤ◌}
use tycho_vm.Vm.Error.{VmError}
use tycho_vm.Vm.Stack.Basic.{Stack, push_raw_int, push_nan}
use tycho_vm.Vm.Stack.Typed.{pop_int_or_nan, pop_smallint_range}
use tycho_vm.Vm.State.{VmVersion, is_ton}
use tycho_vm.Vm.StackOps.Loops.{done}
use tycho_vm.Vm.ArithOps.Division.{
  DivOps, RoundMode, floor, round_mode, int_div, int_mod, int_divmod, int_rshift, int_mod_pow2,
  int_rshiftmod,
}
use tycho_vm.Vm.ArithOps.Simple.{both, on_int, nan_or_overflow}

-- Each handler has an enumeration of its own with these three cases.
pub data Operation : Type 0 where
  div modulo divmod : Operation

-- The operation, and whether a number is added to the dividend.
unfoldable pub operation_of : VmVersion → ℕ → Result VmError (Bool × Operation)
unfolding is_ton
operation_of version m =
    let o = m / 4 % 4 in
    if o == 0
    then (if is_ton 4 version then ok (true, Operation.divmod) else err VmError.invalid_opcode)
    else if o == 1
    then ok (false, Operation.div)
    else if o == 2
    then ok (false, Operation.modulo)
    else ok (false, Operation.divmod)

-- A division by a fixed divisor: the quotient, the remainder, and both.
pub record Divider : Type 0 where
  pub quotient : ℤ → ℤ
  pub rest : ℤ → ℤ
  pub pair : ℤ → ℤ × ℤ

unfoldable pub by_divisor : DivOps → RoundMode → ℤ → Divider
by_divisor d mode y = record {
  quotient = λ x. int_div d mode x y;
  rest = λ x. int_mod d mode x y;
  pair = λ x. int_divmod d mode x y;
}

unfoldable pub by_pow2 : DivOps → RoundMode → ℕ → Divider
by_pow2 d mode y = record {
  quotient = λ x. int_rshift d mode x y;
  rest = λ x. int_mod_pow2 d mode x y;
  pair = λ x. int_rshiftmod d mode x y;
}

-- No divider for a divisor that is zero or `NaN`.
unfoldable pub divider_of : DivOps → RoundMode → Option ℤ → Option Divider
unfolding by_divisor
divider_of d mode (some y) = if is_zero_ℤ y then none else some (by_divisor d mode y)
divider_of d mode none = none

-- A shift by nothing rounds down.
unfoldable pub shift_mode : RoundMode → ℕ → RoundMode
shift_mode mode y = if y == 0 then floor else mode

-- The shift that an opcode with an operand holds, less than the whole.
unfoldable pub shift_of : Bool → ℕ → Option ℕ
shift_of imm m = if imm then some (m % 256 + 1) else none

unfoldable pub mode_bits : Bool → ℕ → ℕ
mode_bits imm m = if imm then m / 256 else m

module _ {O : Type 0} where
  unfoldable pub pop_addend : Bool → Action (Stack O) VmError (Option ℤ)
  pop_addend add = if add then pop_int_or_nan else pure none

  unfoldable pub pop_shift : Option ℕ → Action (Stack O) VmError ℕ
  pop_shift (some y) = pure y
  pop_shift none = pop_smallint_range 0 256

  unfoldable pub push_pair : Bool → ℤ × ℤ → Action (Stack O) VmError ℤ
  push_pair quiet (q, r) = push_raw_int q quiet >> (push_raw_int r quiet >> done)

  -- The operands give no result.
  unfoldable pub no_result : Bool → Operation → Action (Stack O) VmError ℤ
  unfolding nan_or_overflow
  no_result quiet Operation.divmod = nan_or_overflow quiet >> (nan_or_overflow quiet >> done)
  no_result quiet _ = nan_or_overflow quiet >> done

  unfoldable pub push_added : Bool → Bool → Divider → Option ℤ → ℤ → Action (Stack O) VmError ℤ
  unfolding push_pair no_result
  push_added quiet false v w x = push_pair quiet (v.pair x)
  push_added quiet true v (some w) x = push_pair quiet (v.pair (x +ℤ w))
  push_added quiet true v none x = no_result quiet Operation.divmod

  unfoldable pub push_divided :
      Bool → Bool → Operation → Option Divider → Option ℤ → Option ℤ → Action (Stack O) VmError ℤ
  unfolding push_added no_result
  push_divided quiet add Operation.div (some v) w (some x) =
      push_raw_int (v.quotient x) quiet >> done
  push_divided quiet add Operation.modulo (some v) w (some x) =
      push_raw_int (v.rest x) quiet >> done
  push_divided quiet add Operation.divmod (some v) w (some x) = push_added quiet add v w x
  push_divided quiet add op _ w _ = no_result quiet op

  module _ (d : DivOps) (version : VmVersion) where
    unfoldable pub exec_divmod : ℕ → Bool → Action (Stack O) VmError ℤ
    unfolding operation_of divider_of pop_addend push_divided
    exec_divmod m quiet = do
      mode ← lift (round_mode (m % 4))
      (add, op) ← lift (operation_of version m)
      y ← pop_int_or_nan
      w ← pop_addend add
      x ← pop_int_or_nan
      push_divided quiet add op (divider_of d mode y) w x

    unfoldable pub exec_shrmod : ℕ → Bool → Bool → Action (Stack O) VmError ℤ
    unfolding operation_of by_pow2 shift_mode shift_of mode_bits pop_addend pop_shift push_divided
    exec_shrmod m imm quiet = do
      mode ← lift (round_mode (mode_bits imm m % 4))
      (add, op) ← lift (operation_of version (mode_bits imm m))
      y ← pop_shift (shift_of imm m)
      w ← pop_addend add
      x ← pop_int_or_nan
      push_divided quiet add op (some (by_pow2 d (shift_mode mode y) y)) w x

    unfoldable pub exec_muldivmod : ℕ → Bool → Action (Stack O) VmError ℤ
    unfolding operation_of divider_of pop_addend push_divided both
    exec_muldivmod m quiet = do
      mode ← lift (round_mode (m % 4))
      (add, op) ← lift (operation_of version m)
      z ← pop_int_or_nan
      w ← pop_addend add
      y ← pop_int_or_nan
      x ← pop_int_or_nan
      push_divided quiet add op (divider_of d mode z) w (both (λ a b. a *ℤ b) x y)

    unfoldable pub exec_mulshrmod : ℕ → Bool → Bool → Action (Stack O) VmError ℤ
    unfolding operation_of by_pow2 shift_mode shift_of mode_bits pop_addend pop_shift push_divided
        both
    exec_mulshrmod m imm quiet = do
      mode ← lift (round_mode (mode_bits imm m % 4))
      (add, op) ← lift (operation_of version (mode_bits imm m))
      z ← pop_shift (shift_of imm m)
      w ← pop_addend add
      y ← pop_int_or_nan
      x ← pop_int_or_nan
      push_divided quiet add op (some (by_pow2 d (shift_mode mode z) z)) w
          (both (λ a b. a *ℤ b) x y)

    unfoldable pub exec_shldivmod : ℕ → Bool → Bool → Action (Stack O) VmError ℤ
    unfolding operation_of divider_of shift_of mode_bits pop_addend pop_shift push_divided on_int
    exec_shldivmod m imm quiet = do
      mode ← lift (round_mode (mode_bits imm m % 4))
      (add, op) ← lift (operation_of version (mode_bits imm m))
      z ← pop_shift (shift_of imm m)
      y ← pop_int_or_nan
      w ← pop_addend add
      x ← pop_int_or_nan
      push_divided quiet add op (divider_of d mode y) w (on_int (λ a. a *ℤ pos (2 ^ z)) x)
