-- ===== src/Vm/ArithOps/Tests.antt =====
-- The arithmetic instructions at concrete stacks.
use tycho_vm.Prelude.{
  ℕ, ◌≡◌, refl, true, false, [], ◌∷◌, ok, some, ◌+◌, ◌^◌, arith, Result, ◌*◌, ◌-◌,
}
use tycho_vm.Prelude.Int.{ℤ, pos, negsuc, ◌+ℤ◌}
use tycho_vm.Prelude.Int.Mul.{◌*ℤ◌}
use tycho_vm.Vm.ArithOps.Division.{round_mode, int_divmod, int_rshiftmod}
use tycho_vm.Vm.Stack.Basic.{push_raw_int, push_int}
use tycho_vm.Vm.Stack.Typed.{pop_int_or_nan}
use tycho_vm.Vm.Error.{CellError}
use tycho_vm.Vm.Stack.Values.{StackValue}
use tycho_vm.Vm.State.{ton}
use tycho_vm.Vm.Machine.{CodeView}
use tycho_vm.Vm.Samples.{int, no_more, first_state}
use tycho_vm.Vm.ArithOps.Constants.{exec_push_int}
use tycho_vm.Vm.ArithOps.Division.{RoundMode}
use tycho_vm.Vm.ArithOps.Division.Schoolbook.{schoolbook, schoolbook-DivLaws}
use tycho_vm.Vm.ArithOps.Divided.{Operation, operation_of, exec_divmod, exec_shrmod, exec_muldivmod}
use tycho_vm.Vm.ArithOps.Divided.Results.{
  PushesDivision, exec_shrmod-eq-exec_divmod, exec_muldivmod-PushesDivision,
}
use tycho_vm.Vm.ArithOps.Instr.{ArithInstr, exec}
use tycho_vm.Vm.ArithOps.Instr.Fits.{AllFit, fits}
use tycho_vm.Vm.ArithOps.Instr.Safe.{exec-AllFit}

abbrev minus : ℕ → StackValue ℕ
minus n = StackValue.int (negsuc n)

-- -7 shifted by one, with rounding to the nearest.
exec_shrmod-eq-exec_divmod_example :
    exec_shrmod schoolbook (ton 11) (13 * 256 + 0) true false (minus 6 ∷ [])
    ≡ exec_divmod schoolbook (ton 11) 13 false (StackValue.int (pos (2 ^ (0 + 1))) ∷ minus 6 ∷ [])
unfolding round_mode operation_of
exec_shrmod-eq-exec_divmod_example =
    exec_shrmod-eq-exec_divmod schoolbook schoolbook-DivLaws (ton 11) 13 0 false (minus 6 ∷ [])
      RoundMode.nearest false Operation.divmod (omega arith) refl refl

-- (5 * -7 + 3) / 2 rounded down.
exec_muldivmod-PushesDivision_example :
    PushesDivision RoundMode.floor
      (negsuc 31)
      (pos 2)
      false
      Operation.divmod
      []
      (exec_muldivmod schoolbook (ton 11) 0 false (int 2 ∷ int 3 ∷ minus 6 ∷ int 5 ∷ []))
unfolding ◌*ℤ◌ ◌+ℤ◌ round_mode operation_of
exec_muldivmod-PushesDivision_example =
    exec_muldivmod-PushesDivision schoolbook schoolbook-DivLaws RoundMode.floor (ton 11) 0 (pos 5)
      (negsuc 6) (pos 2) (some (pos 3)) false Operation.divmod [] refl refl refl

exec-AllFit_example :
    AllFit
      (exec schoolbook
        (ton 11)
        (ArithInstr.add true)
        (int 1 ∷ StackValue.int (pos (2 ^ 256 - 1)) ∷ [])).1
unfolding fits
exec-AllFit_example =
    exec-AllFit schoolbook (ton 11) (ArithInstr.add true)
      (int 1 ∷ StackValue.int (pos (2 ^ 256 - 1)) ∷ []) (refl, (refl, tt))

muldivmod_adds :
    exec_muldivmod schoolbook (ton 11) 0 false (int 2 ∷ int 3 ∷ minus 6 ∷ int 5 ∷ [])
    ≡ (ok (pos 0), int 0 ∷ minus 15 ∷ [])
unfolding exec_muldivmod round_mode pop_int_or_nan push_raw_int int_divmod schoolbook ◌+ℤ◌ ◌*ℤ◌
muldivmod_adds = refl

shrmod_nearest :
    exec_shrmod schoolbook (ton 11) (13 * 256 + 0) true false (minus 6 ∷ [])
    ≡ (ok (pos 0), minus 0 ∷ minus 2 ∷ [])
unfolding exec_shrmod round_mode pop_int_or_nan push_raw_int int_divmod schoolbook ◌+ℤ◌ ◌*ℤ◌
    int_rshiftmod
shrmod_nearest = refl

-- A code with a constant of 267 bits.
abbrev with_constant : CodeView ℕ
with_constant = record no_more { has_remaining = λ _ _ _. true }

abbrev load_large : ℕ → ℕ → Result CellError (ℤ × ℕ)
load_large bits c = ok (pos (2 ^ (bits - 1) - 1), c)

-- The long constant is pushed whatever its size, unlike the results of the other instructions.
push_int_large :
    (exec_push_int with_constant load_large 31 13 first_state).1.stack
    ≡ StackValue.int (pos (2 ^ 266 - 1)) ∷ first_state.stack
unfolding exec_push_int push_int
push_int_large = refl
