-- ===== src/Vm/ContOps/Shared.antt =====
-- What the handlers of vm/src/instr/contops.rs share.
use tycho_vm.Prelude.{ℕ, Option, none, some, if◌then◌else◌, ok, err, Action, ◌>>=◌}
use tycho_vm.Prelude.Int.{ℤ, pos, negsuc}
use tycho_vm.Vm.Error.{VmError, CellError}
use tycho_vm.Vm.Stack.Values.{StackValue, Cont, ControlData, OptCont, no_cont, a_cont}
use tycho_vm.Vm.Stack.Basic.{push_raw}
use tycho_vm.Vm.State.{VmState, on_stack}
use tycho_vm.Vm.Control.{no_data}
use tycho_vm.Vm.Machine.{CodeView}
use tycho_vm.Vm.Call.{ref_to_cont}

-- `(n >= 0).then_some(n)`.
unfoldable pub non_negative : ℤ → Option ℕ
non_negative (pos n) = some n
non_negative (negsuc n) = none

module _ {O : Type 0} where
  -- `force_cdata`: the control data of a continuation, which is wrapped if it has none. `with_cdata` puts back what it gave.
  unfoldable pub cdata_of : Cont O → ControlData O
  cdata_of (Cont.arg_ext d ext) = d
  cdata_of (Cont.ord d code) = d
  cdata_of c = no_data

  unfoldable pub with_cdata : ControlData O → Cont O → Cont O
  with_cdata d (Cont.arg_ext _ ext) = Cont.arg_ext d ext
  with_cdata d (Cont.ord _ code) = Cont.ord d code
  with_cdata d c = Cont.arg_ext d c

  unfoldable pub push_cont : Cont O → Action (VmState O) VmError (Unit {0})
  unfolding push_raw
  push_cont c = on_stack (push_raw (StackValue.cont c))

  -- A register that must be set.
  unfoldable pub expect : VmError → OptCont O → Action (VmState O) VmError (Cont O)
  expect e no_cont st = (err e, st)
  expect e (a_cont c) st = (ok c, st)

  -- `exec_cell_prefix`: the first reference of the code, after `bits` bits, both of which are skipped.
  unfoldable pub exec_cell_prefix : CodeView O → ℕ → Action (VmState O) VmError O
  exec_cell_prefix cv bits st =
      if cv.has_remaining bits 1 st.code
      then (let code = cv.skip_first bits 0 st.code in
          elim (cv.first_reference code) [
            | ok cell ↦ (ok cell, record st { code = cv.skip_first 0 1 code })
            | err _ ↦ (err (VmError.cell_error CellError.cell_underflow), record st { code = code })
          ])
      else (err VmError.invalid_opcode, st)

  unfoldable pub exec_ref_prefix : CodeView O → ℕ → Action (VmState O) VmError (Cont O)
  unfolding exec_cell_prefix ref_to_cont
  exec_ref_prefix cv bits = exec_cell_prefix cv bits >>= λ cell. ref_to_cont cv cell
