-- ===== src/Vm/ArithOps/Divided/Results.antt =====
-- What the division instructions leave on the stack (vm/src/instr/arithops.rs).
use tycho_vm.Prelude.{
  ℕ, ◌+◌, ◌*◌, ◌/◌, ◌%◌, ◌^◌, ◌<◌, ◌≡◌, refl, ap, sym, arith, Bool, true, false, Option, none, some,
  ◌∷◌, Result, ok, Action, ◌>>◌,
}
use tycho_vm.Prelude.Int.{ℤ, pos, ◌+ℤ◌}
use tycho_vm.Prelude.Int.Mul.{is_zero_ℤ, ◌*ℤ◌}
use tycho_vm.Vm.Error.{VmError}
use tycho_vm.Vm.Stack.Values.{StackValue}
use tycho_vm.Vm.Stack.Basic.{Stack, push_raw_int, pop}
use tycho_vm.Vm.Stack.Typed.{pop_int_or_nan, int_or_nan}
use tycho_vm.Vm.State.{VmVersion, is_ton}
use tycho_vm.Vm.StackOps.Loops.{done}
use tycho_vm.Vm.ArithOps.Division.{DivOps, RoundMode, round_mode, int_div, int_mod, int_divmod}
use tycho_vm.Vm.ArithOps.Division.Rounding.{
  IsRounded, DivLaws, int_divmod-Rounds, pow2_positive, pow2-nonzero,
}
use tycho_vm.Vm.ArithOps.Division.Unique.{int_rshiftmod-eq-int_divmod}
use tycho_vm.Vm.ArithOps.Divided.{
  Operation, operation_of, by_divisor, by_pow2, divider_of, shift_mode, push_pair, push_added,
  push_divided, exec_divmod, exec_shrmod, exec_muldivmod, exec_mulshrmod,
}

by_pow2-eq-by_divisor :
    (d : DivOps)
    → DivLaws d
    → (mode : RoundMode) (k : ℕ) → by_pow2 d mode k ≡ by_divisor d mode (pos (2 ^ k))
unfolding by_pow2 by_divisor
by_pow2-eq-by_divisor d laws mode k = λ i. record {
  quotient = λ x. (int_rshiftmod-eq-int_divmod d laws mode x k).shifted i;
  rest = λ x. (int_rshiftmod-eq-int_divmod d laws mode x k).masked i;
  pair = λ x. (int_rshiftmod-eq-int_divmod d laws mode x k).together i;
}

divider_of_pow2 :
    (d : DivOps)
    → DivLaws d
    → (mode : RoundMode) (k : ℕ) → divider_of d mode (some (pos (2 ^ k))) ≡ some (by_pow2 d mode k)
unfolding divider_of
divider_of_pow2 d laws mode k =
    rw (pow2-nonzero (2 ^ k) (pow2_positive k))
      (ap some (sym (by_pow2-eq-by_divisor d laws mode k)))

shift_mode_suc : (mode : RoundMode) (k : ℕ) → shift_mode mode (k + 1) ≡ mode
unfolding shift_mode
shift_mode_suc mode k = ground arith

module _ {O : Type 0} where
  -- The shift in an opcode does on every stack what the division does with that power of two on top of it, errors
  -- included, where the rounding mode and the operation of the opcode are valid and the package keeps its laws.
  pub exec_shrmod-eq-exec_divmod :
      (d : DivOps)
      → DivLaws d
      → (version : VmVersion) (m k : ℕ) (quiet : Bool) (s : Stack O) (mode : RoundMode) (add : Bool)
        (op : Operation)
      → k < 256
      → round_mode (m % 4) ≡ ok mode
      → operation_of version m ≡ ok (add, op)
      → exec_shrmod d version (m * 256 + k) true quiet s
        ≡ exec_divmod d version m quiet (StackValue.int (pos (2 ^ (k + 1))) ∷ s)
  unfolding exec_shrmod exec_divmod pop_int_or_nan pop int_or_nan
  exec_shrmod-eq-exec_divmod d laws version m k quiet s mode add op h e f =
      let bits : (m * 256 + k) / 256 ≡ m = omega arith in
      let shift : (m * 256 + k) % 256 ≡ k = omega arith in
      rw bits (
        rw shift (
          rw e (rw f (rw (divider_of_pow2 d laws mode (k + 1)) (rw (shift_mode_suc mode k) refl)))))

  -- The same for the product of two operands.
  pub exec_mulshrmod-eq-exec_muldivmod :
      (d : DivOps)
      → DivLaws d
      → (version : VmVersion) (m k : ℕ) (quiet : Bool) (s : Stack O) (mode : RoundMode) (add : Bool)
        (op : Operation)
      → k < 256
      → round_mode (m % 4) ≡ ok mode
      → operation_of version m ≡ ok (add, op)
      → exec_mulshrmod d version (m * 256 + k) true quiet s
        ≡ exec_muldivmod d version m quiet (StackValue.int (pos (2 ^ (k + 1))) ∷ s)
  unfolding exec_mulshrmod exec_muldivmod pop_int_or_nan pop int_or_nan
  exec_mulshrmod-eq-exec_muldivmod d laws version m k quiet s mode add op h e f =
      let bits : (m * 256 + k) / 256 ≡ m = omega arith in
      let shift : (m * 256 + k) % 256 ≡ k = omega arith in
      rw bits (
        rw shift (
          rw e (rw f (rw (divider_of_pow2 d laws mode (k + 1)) (rw (shift_mode_suc mode k) refl)))))

  -- What an operation pushes of a quotient and a remainder.
  unfoldable pub push_results : Bool → Operation → ℤ → ℤ → Action (Stack O) VmError ℤ
  unfolding push_pair
  push_results quiet Operation.div q r = push_raw_int q quiet >> done
  push_results quiet Operation.modulo q r = push_raw_int r quiet >> done
  push_results quiet Operation.divmod q r = push_pair quiet (q, r)

  -- An addend, if there is one, on a stack and in a sum.
  abbrev pub on_top : Option ℤ → Stack O → Stack O
  on_top (some w) s = StackValue.int w ∷ s
  on_top none s = s

abbrev pub plus : ℤ → Option ℤ → ℤ
plus x (some w) = x +ℤ w
plus x none = x

abbrev pub is_added : Option ℤ → Bool
is_added (some _) = true
is_added none = false

-- An action at a stack pushes, for an operation, the quotient and the remainder of a division in that mode.
pub record PushesDivision {O : Type 0} (mode : RoundMode) (x y : ℤ) (quiet : Bool) (op : Operation)
    (s : Stack O) (result : Result VmError ℤ × Stack O) : Type 0 where
  pub quotient : ℤ
  pub rest : ℤ
  pub rounded : IsRounded mode x y quotient rest
  pub pushed : result ≡ push_results quiet op quotient rest s

-- Only the operation with both results adds.
added_divmod :
    (version : VmVersion) (m : ℕ) (op : Operation)
    → operation_of version m ≡ ok (true, op)
    → op ≡ Operation.divmod
unfolding operation_of is_ton
added_divmod version m op e = ground arith

divided_int :
    {O : Type 0} (d : DivOps)
    → DivLaws d
    → (mode : RoundMode) (version : VmVersion) (m : ℕ) (x y : ℤ) (w : Option ℤ) (quiet : Bool)
      (op : Operation) (s : Stack O)
    → is_zero_ℤ y ≡ false
    → operation_of version m ≡ ok (is_added w, op)
    → PushesDivision mode
        (plus x w)
        y
        quiet
        op
        s
        (push_divided quiet (is_added w) op (divider_of d mode (some y)) w (some x) s)
unfolding divider_of push_divided push_added by_divisor push_results
divided_int d laws mode version m x y none quiet Operation.div s nonzero e = record {
  quotient = int_div d mode x y;
  rest = int_mod d mode x y;
  rounded = (int_divmod-Rounds d laws mode x y nonzero).0;
  pushed = rw nonzero refl;
}
divided_int d laws mode version m x y none quiet Operation.modulo s nonzero e = record {
  quotient = int_div d mode x y;
  rest = int_mod d mode x y;
  rounded = (int_divmod-Rounds d laws mode x y nonzero).0;
  pushed = rw nonzero refl;
}
divided_int d laws mode version m x y none quiet Operation.divmod s nonzero e = record {
  quotient = (int_divmod d mode x y).0;
  rest = (int_divmod d mode x y).1;
  rounded = (int_divmod-Rounds d laws mode x y nonzero).1;
  pushed = rw nonzero refl;
}
divided_int d laws mode version m x y (some w) quiet op s nonzero e =
    let sum = x +ℤ w in
    rw (added_divmod version m op e) record {
      quotient = (int_divmod d mode sum y).0;
      rest = (int_divmod d mode sum y).1;
      rounded = (int_divmod-Rounds d laws mode sum y nonzero).1;
      pushed = rw nonzero refl;
    }

-- The division of a product by a divisor other than zero, with an addend for the opcodes that add, where the rounding mode
-- and the operation of the opcode are valid and the package keeps its laws: what the operation asks for of the
-- rounded quotient and the remainder is pushed, and a result that does not fit is a `NaN` or the error.
pub exec_muldivmod-PushesDivision :
    {O : Type 0} (d : DivOps)
    → DivLaws d
    → (mode : RoundMode) (version : VmVersion) (m : ℕ) (x y z : ℤ) (w : Option ℤ) (quiet : Bool)
      (op : Operation) (s : Stack O)
    → is_zero_ℤ z ≡ false
    → round_mode (m % 4) ≡ ok mode
    → operation_of version m ≡ ok (is_added w, op)
    → PushesDivision mode (plus (x *ℤ y) w) z quiet op s (
        exec_muldivmod d version m quiet
          (StackValue.int z ∷ on_top w (StackValue.int y ∷ StackValue.int x ∷ s)))
unfolding exec_muldivmod pop_int_or_nan pop int_or_nan
exec_muldivmod-PushesDivision d laws mode version m x y z none quiet op s nonzero e f =
    rw e (rw f (divided_int d laws mode version m (x *ℤ y) z none quiet op s nonzero f))
exec_muldivmod-PushesDivision d laws mode version m x y z (some w) quiet op s nonzero e f =
    rw e (rw f (divided_int d laws mode version m (x *ℤ y) z (some w) quiet op s nonzero f))
