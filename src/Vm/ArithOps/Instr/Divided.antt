-- ===== src/Vm/ArithOps/Instr/Divided.antt =====
-- The division instructions, and the size of the integers on the stack.
use tycho_vm.Prelude.{
  ℕ, ◌%◌, ◌^◌, Bool, true, false, Option, none, some, Result, ok, Action, ◌>>=◌, lift,
}
use tycho_vm.Prelude.Int.{ℤ, pos, ◌+ℤ◌}
use tycho_vm.Prelude.Int.Mul.{◌*ℤ◌}
use tycho_vm.Vm.Error.{VmError}
use tycho_vm.Vm.Stack.Basic.{Stack}
use tycho_vm.Vm.Stack.Typed.{pop_int_or_nan}
use tycho_vm.Vm.State.{VmVersion}
use tycho_vm.Vm.ArithOps.Division.{DivOps, RoundMode, round_mode}
use tycho_vm.Vm.ArithOps.Simple.{both, on_int}
use tycho_vm.Vm.ArithOps.Divided.{
  Operation, Divider, operation_of, divider_of, by_pow2, shift_mode, shift_of, mode_bits,
  pop_addend, pop_shift, push_pair, no_result, push_added, push_divided, exec_divmod, exec_shrmod,
  exec_muldivmod, exec_mulshrmod, exec_shldivmod,
}
use tycho_vm.Prelude.Safe.{keeping, bind-Safe, seq-Safe, still-Safe}
use tycho_vm.Vm.ArithOps.Instr.Fits.{
  push_raw_int-Safe, pop_int_or_nan-Safe, pop_smallint_range-Safe,
}
use tycho_vm.Vm.ArithOps.Instr.Simple.{
  Tame, done-Tame, push_raw_int-done-Tame, nan_or_overflow-Tame,
}

module _ {O : Type 0} where
  pub pop_addend-Tame : (add : Bool) → Tame {O = O} (pop_addend add)
  unfolding pop_addend
  pop_addend-Tame true = keeping (pop_int_or_nan-Safe.keeps)
  pop_addend-Tame false = still-Safe (ok none)

  pub pop_shift-Tame : (k : Option ℕ) → Tame {O = O} (pop_shift k)
  unfolding pop_shift
  pop_shift-Tame (some k) = still-Safe (ok k)
  pop_shift-Tame none = pop_smallint_range-Safe 0 256

  pub push_pair-Tame : (quiet : Bool) (p : ℤ × ℤ) → Tame {O = O} (push_pair quiet p)
  unfolding push_pair
  push_pair-Tame quiet (q, r) =
      seq-Safe (push_raw_int-Safe q quiet) (push_raw_int-done-Tame r quiet)

  pub no_result-Tame : (quiet : Bool) (op : Operation) → Tame {O = O} (no_result quiet op)
  unfolding no_result
  no_result-Tame quiet Operation.divmod =
      seq-Safe (nan_or_overflow-Tame quiet) (seq-Safe (nan_or_overflow-Tame quiet) done-Tame)
  no_result-Tame quiet Operation.div = seq-Safe (nan_or_overflow-Tame quiet) done-Tame
  no_result-Tame quiet Operation.modulo = seq-Safe (nan_or_overflow-Tame quiet) done-Tame

  pub push_divided-Tame :
      (quiet add : Bool) (op : Operation) (v : Option Divider) (w x : Option ℤ)
      → Tame {O = O} (push_divided quiet add op v w x)
  unfolding push_divided push_added
  push_divided-Tame quiet add Operation.div (some v) w (some x) =
      push_raw_int-done-Tame (v.quotient x) quiet
  push_divided-Tame quiet add Operation.modulo (some v) w (some x) =
      push_raw_int-done-Tame (v.rest x) quiet
  push_divided-Tame quiet false Operation.divmod (some v) w (some x) =
      push_pair-Tame quiet (v.pair x)
  push_divided-Tame quiet true Operation.divmod (some v) (some w) (some x) =
      push_pair-Tame quiet (v.pair (x +ℤ w))
  push_divided-Tame quiet true Operation.divmod (some v) none (some x) =
      no_result-Tame quiet Operation.divmod
  push_divided-Tame quiet add Operation.div none w x = no_result-Tame quiet Operation.div
  push_divided-Tame quiet add Operation.modulo none w x = no_result-Tame quiet Operation.modulo
  push_divided-Tame quiet add Operation.divmod none w x = no_result-Tame quiet Operation.divmod
  push_divided-Tame quiet add Operation.div (some v) w none = no_result-Tame quiet Operation.div
  push_divided-Tame quiet add Operation.modulo (some v) w none =
      no_result-Tame quiet Operation.modulo
  push_divided-Tame quiet add Operation.divmod (some v) w none =
      no_result-Tame quiet Operation.divmod

  -- The operation is decoded before anything is popped.
  pub decoded-Tame :
      (r : Result VmError RoundMode) (o : Result VmError (Bool × Operation))
      {f : RoundMode → Bool × Operation → Action (Stack O) VmError ℤ}
      → ((mode : RoundMode) (p : Bool × Operation) → Tame {O = O} (f mode p))
      → Tame {O = O} (lift r >>= λ mode. lift o >>= λ p. f mode p)
  decoded-Tame r o h =
      bind-Safe (still-Safe r) (λ mode _. bind-Safe (still-Safe o) (λ p _. h mode p))

  pub popping-Tame :
      {f : Option ℤ → Action (Stack O) VmError ℤ}
      → ((x : Option ℤ) → Tame {O = O} (f x))
      → Tame {O = O} (pop_int_or_nan >>= f)
  popping-Tame h = bind-Safe pop_int_or_nan-Safe (λ x _. h x)

  pub exec_divmod-Tame :
      (d : DivOps) (version : VmVersion) (m : ℕ) (quiet : Bool)
      → Tame {O = O} (exec_divmod d version m quiet)
  unfolding exec_divmod
  exec_divmod-Tame d version m quiet =
      decoded-Tame (round_mode (m % 4)) (operation_of version m) (λ mode (add, op).
        popping-Tame (λ y.
          bind-Safe (pop_addend-Tame add)
            (λ w _. popping-Tame (λ x. push_divided-Tame quiet add op (divider_of d mode y) w x))))

  pub exec_shrmod-Tame :
      (d : DivOps) (version : VmVersion) (m : ℕ) (imm quiet : Bool)
      → Tame {O = O} (exec_shrmod d version m imm quiet)
  unfolding exec_shrmod
  exec_shrmod-Tame d version m imm quiet =
      decoded-Tame (round_mode (mode_bits imm m % 4)) (operation_of version (mode_bits imm m))
        (λ mode (add, op). bind-Safe (pop_shift-Tame (shift_of imm m)) (λ y _.
          bind-Safe (pop_addend-Tame add) (λ w _.
            popping-Tame
              (λ x. push_divided-Tame quiet add op (some (by_pow2 d (shift_mode mode y) y)) w x))))

  pub exec_muldivmod-Tame :
      (d : DivOps) (version : VmVersion) (m : ℕ) (quiet : Bool)
      → Tame {O = O} (exec_muldivmod d version m quiet)
  unfolding exec_muldivmod
  exec_muldivmod-Tame d version m quiet =
      decoded-Tame (round_mode (m % 4)) (operation_of version m) (λ mode (add, op).
        popping-Tame (λ z. bind-Safe (pop_addend-Tame add) (λ w _. popping-Tame (λ y.
          popping-Tame (λ x.
            push_divided-Tame quiet add op (divider_of d mode z) w (both (λ a b. a *ℤ b) x y))))))

  pub exec_mulshrmod-Tame :
      (d : DivOps) (version : VmVersion) (m : ℕ) (imm quiet : Bool)
      → Tame {O = O} (exec_mulshrmod d version m imm quiet)
  unfolding exec_mulshrmod
  exec_mulshrmod-Tame d version m imm quiet =
      decoded-Tame (round_mode (mode_bits imm m % 4)) (operation_of version (mode_bits imm m))
        (λ mode (add, op). bind-Safe (pop_shift-Tame (shift_of imm m)) (λ z _.
          bind-Safe (pop_addend-Tame add) (λ w _. popping-Tame (λ y. popping-Tame (λ x.
            push_divided-Tame quiet add op (some (by_pow2 d (shift_mode mode z) z)) w
              (both (λ a b. a *ℤ b) x y))))))

  pub exec_shldivmod-Tame :
      (d : DivOps) (version : VmVersion) (m : ℕ) (imm quiet : Bool)
      → Tame {O = O} (exec_shldivmod d version m imm quiet)
  unfolding exec_shldivmod
  exec_shldivmod-Tame d version m imm quiet =
      decoded-Tame (round_mode (mode_bits imm m % 4)) (operation_of version (mode_bits imm m))
        (λ mode (add, op). bind-Safe (pop_shift-Tame (shift_of imm m)) (λ z _. popping-Tame (λ y.
          bind-Safe (pop_addend-Tame add) (λ w _. popping-Tame (λ x.
            push_divided-Tame quiet add op (divider_of d mode y) w
              (on_int (λ a. a *ℤ pos (2 ^ z)) x))))))
