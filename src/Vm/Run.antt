-- ===== src/Vm/Run.antt =====
-- Running (vm/src/state.rs: `step`, `run_inner`, `run`, `try_commit` and `force_commit`). The dispatch of the next
-- opcode is a parameter.
pub mod Outcome
pub mod Thrown
mod Tests
use tycho_vm.Prelude.{
  ℕ, zero, suc, ◌+◌, ◌^◌, Bool, true, false, not, ◌&&◌, ◌||◌, Option, none, some, List, [], ◌∷◌,
  leb, ◌==◌, if◌then◌else◌, Result, ok, err, Action, ◌>>=◌, ◌>>◌, pure, fail, gets, modify,
}
use tycho_vm.Prelude.Int.{ℤ, pos, negsuc}
use tycho_vm.Vm.Error.{
  VmError, VmException, CellError, as_exception, discriminant, as_exit_code, is_out_of_gas,
}
use tycho_vm.Vm.Gas.{try_consume_implicit_jmpref_gas, try_consume_implicit_ret_gas}
use tycho_vm.Vm.Stack.Values.{StackValue, ControlRegs}
use tycho_vm.Vm.Stack.Basic.{Stack}
use tycho_vm.Vm.State.{VmState, ParentVmState}
use tycho_vm.Vm.Control.{cell_at}
use tycho_vm.Vm.Machine.{CodeView, bit_not, on_gas, set_stack, load_code}
use tycho_vm.Vm.Jump.{jump, ret}
use tycho_vm.Vm.Call.{simple, throw_exception, throw_out_of_gas}
use tycho_vm.Vm.ContOps.Child.{restore_parent}

abbrev pub max_data_depth : ℕ
max_data_depth = 512

-- How an iteration of `run_inner` ends: with a code, zero to go on, or with a return from the loop.
pub data Iteration : Type 0 where
  code returned : ℤ → Iteration

unfoldable pub is_zero : ℤ → Bool
is_zero (pos zero) = true
is_zero _ = false

-- `res | 1 == -1`: the codes that commit are -1 and -2.
unfoldable pub is_commit_code : ℤ → Bool
is_commit_code (pos n) = false
is_commit_code (negsuc n) = leb n 1

module _ {O : Type 0} (cv : CodeView O) where
  unfoldable pub can_commit : O → O → Bool
  can_commit c4 c5 =
      cv.level c4 == 0
      && cv.level c5 == 0
      && leb (cv.repr_depth c4) max_data_depth
      && leb (cv.repr_depth c5) max_data_depth

  unfoldable pub commit_cells : Option O → Option O → VmState O → Bool × VmState O
  unfolding can_commit
  commit_cells (some c4) (some c5) st =
      if can_commit c4 c5
      then (true, record st { committed_state = some (c4, c5) })
      else (false, st)
  commit_cells _ _ st = (false, st)

  unfoldable pub try_commit : VmState O → Bool × VmState O
  unfolding commit_cells cell_at
  try_commit st = commit_cells (cell_at 0 st.cr) (cell_at 1 st.cr) st

  unfoldable pub force_commit : Action (VmState O) CellError (Unit {0})
  unfolding try_commit
  force_commit st =
      let (done, st') = try_commit st in
      if done then (ok tt, st') else (err CellError.cell_overflow, st')

module _ {O : Type 0} (cv : CodeView O) (dispatch : Action (VmState O) VmError ℤ) where
  unfoldable pub count_step : VmState O → VmState O
  count_step st = record st { steps = st.steps + 1 }

  -- The code of a reference; here a missing one is the cell library's error.
  unfoldable pub implicit_jmpref : Action (VmState O) VmError ℤ
  unfolding try_consume_implicit_jmpref_gas load_code simple jump
  implicit_jmpref st = elim (cv.first_reference st.code) [
    | err e ↦ (err (VmError.cell_error e), st)
    | ok next_cell ↦
        (do
          on_gas try_consume_implicit_jmpref_gas
          code' ← load_code cv next_cell
          cp' ← gets (λ s. s.cp)
          jump (simple cv code' cp'))
          st
  ]

  unfoldable pub implicit_ret : Action (VmState O) VmError ℤ
  unfolding try_consume_implicit_ret_gas ret
  implicit_ret = on_gas try_consume_implicit_ret_gas >>= λ _. ret

  unfoldable pub next_op : O → Action (VmState O) VmError ℤ
  unfolding implicit_jmpref implicit_ret
  next_op code' =
      if not (cv.data_empty code')
      then dispatch
      else (if not (cv.refs_empty code') then implicit_jmpref else implicit_ret)

  unfoldable pub step : Action (VmState O) VmError ℤ
  unfolding count_step next_op
  step st = next_op st.code (count_step st)

  unfoldable pub stop_out_of_gas : VmState O → Iteration × VmState O
  unfolding count_step throw_out_of_gas
  stop_out_of_gas st = let (res, st') = throw_out_of_gas cv (count_step st) in (code res, st')

  -- The exception of an error is thrown; an error in that ends the run.
  unfoldable pub handle_error : VmError → VmState O → Iteration × VmState O
  unfolding count_step as_exception discriminant throw_exception is_out_of_gas stop_out_of_gas
      as_exit_code
  handle_error e st =
      let exception = as_exception e in
      let (r, st') = throw_exception cv (pos (discriminant exception)) (count_step st) in
      elim r [
        | ok res ↦ (code res, st')
        | err e' ↦
            if is_out_of_gas e'
            then stop_out_of_gas st'
            else (returned (as_exit_code exception), st')
      ]

  unfoldable pub outcome : Result VmError ℤ → VmState O → Iteration × VmState O
  unfolding is_out_of_gas stop_out_of_gas handle_error
  outcome (ok res) st = (code res, st)
  outcome (err e) st = if is_out_of_gas e then stop_out_of_gas st else handle_error e st

  unfoldable pub iteration : VmState O → Iteration × VmState O
  unfolding step outcome
  iteration st = let (r, st') = step st in outcome r st'

  -- The end of `run_inner`.
  unfoldable pub finish : ℤ → VmState O → ℤ × VmState O
  unfolding is_commit_code try_commit set_stack as_exit_code
  finish res st =
      if is_commit_code res
      then (let (done, st') = try_commit cv st in
          if done then (res, st') else (
            as_exit_code VmException.cell_overflow,
            set_stack (StackValue.int (pos 0) ∷ []) st',
          ))
      else (res, st)

  -- None if the fuel is not enough.
  unfoldable pub run_inner : ℕ → VmState O → Option (ℤ × VmState O)
  unfolding iteration is_zero finish
  run_inner zero st = none
  run_inner (suc fuel) st =
      let (i, st') = iteration st in
      elim i [
        | returned res ↦ some (res, st')
        | code res ↦ elim (is_zero res) [
          | true ↦ run_inner fuel st'
          | false ↦ some (finish res st')
        ]
      ]

  -- One round of `run`: the parent is restored, if there is one, and run on. Out of gas is 13.
  unfoldable pub run_round : ℕ → ℤ → VmState O → Option (ℤ × VmState O)
  unfolding bit_not restore_parent run_inner count_step throw_out_of_gas
  run_round fuel res st =
      let (r, st') = restore_parent (bit_not res) st in
      elim r [ ok _ ↦ run_inner fuel st' | err _ ↦ some (throw_out_of_gas cv (count_step st')) ]

  unfoldable pub run_rounds : ℕ → ℕ → ℤ → VmState O → Option (ℤ × VmState O)
  unfolding run_round
  run_rounds zero fuel res st = none
  run_rounds (suc rounds) fuel res st = elim (run_round fuel res st) [
    | none ↦ none
    | some end ↦
        let (res', st') = end in
        elim st'.parents [ [] ↦ some (res', st') | _ ∷ _ ↦ run_rounds rounds fuel res' st' ]
  ]

  unfoldable pub run : ℕ → ℕ → VmState O → Option (ℤ × VmState O)
  unfolding run_rounds discriminant
  run rounds fuel st =
      if st.throw_on_code_access
      then some (pos (discriminant VmException.fatal), st)
      else run_rounds rounds fuel (pos 0) st
