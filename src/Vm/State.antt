-- ===== src/Vm/State.antt =====
-- The execution state (vm/src/state.rs, `VmState` and `ParentVmState`) and the version (vm/src/smc_info.rs). The debug
-- output and the modifiers that other instructions read are left out.
use tycho_vm.Prelude.{ℕ, Bool, false, Option, List, Result, ok, err, Action, leb, ◌≡◌, ap}
use tycho_vm.Vm.Error.{VmError, CellError}
use tycho_vm.Vm.Gas.{GasConsumer, try_consume}
use tycho_vm.Vm.Gas.Derive.{ParentGasConsumer}
use tycho_vm.Vm.Stack.Values.{Cont, ControlRegs}
use tycho_vm.Vm.Stack.Basic.{Stack}

pub data VmVersion : Type 0 where
  everscale ton : ℕ → VmVersion

-- `version.is_ton(from..)`.
unfoldable pub is_ton : ℕ → VmVersion → Bool
is_ton from (ton version) = leb from version
is_ton from (everscale _) = false

-- What a child VM keeps of its parent; `return_values` is none if the whole stack is returned.
pub record ParentVmState (O : Type 0) : Type 0 where
  pub parent_code : O
  pub parent_stack : Stack O
  pub parent_cr : ControlRegs O
  pub parent_committed : Option (O × O)
  pub parent_steps : ℕ
  pub parent_quit0 : Cont O
  pub parent_quit1 : Cont O
  pub parent_gas : ParentGasConsumer O
  pub parent_cp : ℕ
  pub return_data : Bool
  pub return_actions : Bool
  pub return_gas : Bool
  pub return_values : Option ℕ

-- The parents are a list, the nearest first. The codepage is its number.
pub record VmState (O : Type 0) : Type 0 where
  pub stack : Stack O
  pub gas : GasConsumer O
  pub version : VmVersion
  pub code : O
  pub throw_on_code_access : Bool
  pub cr : ControlRegs O
  pub committed_state : Option (O × O)
  pub steps : ℕ
  pub quit0 : Cont O
  pub quit1 : Cont O
  pub cp : ℕ
  pub stop_on_accept : Bool
  pub parents : List (ParentVmState O)

unfoldable pub consume_result : Result CellError (Unit {0}) → Result VmError (Unit {0})
consume_result (ok u) = ok u
consume_result (err e) = err (VmError.cell_error e)

module _ {O : Type 0} where
  -- A method of the stack, on the stack of the state.
  abbrev pub on_stack : {A : Type 0} → Action (Stack O) VmError A → Action (VmState O) VmError A
  on_stack m st = let (r, s) = m st.stack in (r, record st { stack = s })

  pub on_stack-ok :
      {A : Type 0} (m : Action (Stack O) VmError A) (st : VmState O) {a : A} {s : Stack O}
      → m st.stack ≡ (ok a, s)
      → on_stack m st ≡ (ok a, record st { stack = s })
  on_stack-ok {A} m st e = ap go e
    where
      go : Result VmError A × Stack O → Result VmError A × VmState O
      go (r, s') = (r, record st { stack = s' })

  -- `st.gas.try_consume(amount)?`.
  unfoldable pub consume : ℕ → Action (VmState O) VmError (Unit {0})
  unfolding try_consume consume_result
  consume amount st =
      let (r, g) = try_consume amount st.gas in (consume_result r, record st { gas = g })
