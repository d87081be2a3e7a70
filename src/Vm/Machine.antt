-- ===== src/Vm/Machine.antt =====
-- Small operations on the execution state (vm/src/state.rs), and what the VM needs of code slices and cells, which come
-- from the cell library.
use tycho_vm.Prelude.{
  ℕ, Bool, true, false, Option, none, some, [], ◌==◌, if◌then◌else◌, length, Result, ok, err,
  Action, modify,
}
use tycho_vm.Prelude.Int.{ℤ, pos, negsuc}
use tycho_vm.Vm.Error.{VmError, CellError}
use tycho_vm.Vm.Gas.{GasConsumer}
use tycho_vm.Vm.Gas.Load.{CellView, gas_loader, load_cell_impl}
use tycho_vm.Vm.Stack.Values.{
  Cont, ControlData, ControlRegs, control_data, OptCont, no_cont, a_cont, OptTuple, no_tuple,
  a_tuple, arg_ext, ord,
}
use tycho_vm.Vm.Stack.Basic.{Stack}
use tycho_vm.Vm.State.{VmState, consume_result}
use tycho_vm.Vm.Control.{no_regs, get_c, put_c, merge, preclear, save, saved_stack, nargs}

-- `no_code` is the default slice, `data_empty` and `refs_empty` say whether the range of a slice has bits and references,
-- and `first_reference` is the first of these. `as_code` is the slice over a whole cell. `has_remaining` and
-- `skip_first` take numbers of bits and references.
pub record CodeView (O : Type 0) : Type 0 where
  pub no_code : O
  pub data_empty : O → Bool
  pub refs_empty : O → Bool
  pub first_reference : O → Result CellError O
  pub as_code : O → O
  pub has_remaining : ℕ → ℕ → O → Bool
  pub skip_first : ℕ → ℕ → O → O
  pub empty_cell : O
  pub view : CellView O
  pub level : O → ℕ
  pub repr_depth : O → ℕ

-- `!x` of an `i32`.
unfoldable pub bit_not : ℤ → ℤ
bit_not (pos n) = negsuc n
bit_not (negsuc n) = pos n

-- `Option::unwrap_or`.
unfoldable pub unwrap_or : Option ℕ → ℕ → ℕ
unwrap_or (some n) m = n
unwrap_or none m = m

unfoldable pub is_some : Option ℕ → Bool
is_some (some _) = true
is_some none = false

module _ {O : Type 0} where
  unfoldable pub is_cont : OptCont O → Bool
  is_cont no_cont = false
  is_cont (a_cont _) = true

  unfoldable pub is_tuple : OptTuple O → Bool
  is_tuple no_tuple = false
  is_tuple (a_tuple _) = true

  unfoldable pub get_control_data : Cont O → Option (ControlData O)
  get_control_data (arg_ext data_ _) = some data_
  get_control_data (ord data_ _) = some data_
  get_control_data _ = none

  -- What a continuation without control data has.
  unfoldable pub data_of : Cont O → ControlData O
  unfolding get_control_data
  data_of c = elim (get_control_data c) [
    | some d ↦ d
    | none ↦ control_data none no_tuple no_regs none
  ]

  unfoldable pub has_c0 : Cont O → Bool
  unfolding data_of is_cont get_c save
  has_c0 c = is_cont (get_c 0 (save (data_of c)))

  -- Cont has a stack of its own, or expects a fixed number of arguments.
  unfoldable pub has_args : ControlData O → Bool
  unfolding is_tuple is_some saved_stack nargs
  has_args d = if is_tuple (saved_stack d) then true else is_some (nargs d)

  -- A method of the gas consumer that may fail.
  abbrev pub on_gas :
      Action (GasConsumer O) CellError (Unit {0}) → Action (VmState O) VmError (Unit {0})
  on_gas m st = let (r, g) = m st.gas in (consume_result r, record st { gas = g })

  unfoldable pub depth : VmState O → ℕ
  depth st = length st.stack

  unfoldable pub set_stack : Stack O → VmState O → VmState O
  set_stack s st = record st { stack = s }

  unfoldable pub take_stack : Action (VmState O) VmError (Stack O)
  take_stack st = (ok st.stack, record st { stack = [] })

  unfoldable pub set_reg : ℕ → OptCont O → VmState O → VmState O
  unfolding put_c
  set_reg i c st = record st { cr = put_c i c st.cr }

  abbrev pub set_c0 : Cont O → Action (VmState O) VmError (Unit {0})
  set_c0 c = modify (set_reg 0 (a_cont c))

  unfoldable pub adjust_cr : ControlRegs O → VmState O → VmState O
  unfolding merge
  adjust_cr regs st = record st { cr = merge st.cr regs }

  unfoldable pub preclear_cr : ControlRegs O → VmState O → VmState O
  unfolding preclear
  preclear_cr regs st = record st { cr = preclear st.cr regs }

  -- There is one codepage, 0.
  unfoldable pub force_cp : ℕ → Action (VmState O) VmError (Unit {0})
  force_cp n st = if n == 0 then (ok tt, record st { cp = n }) else (err VmError.invalid_opcode, st)

  unfoldable pub set_code : O → ℕ → Action (VmState O) VmError (Unit {0})
  unfolding force_cp
  set_code code' n st = force_cp n (record st { code = code' })

  unfoldable pub taken : OptCont O → Action (VmState O) VmError (Cont O)
  taken (a_cont c) st = (ok c, st)
  taken no_cont st = (err VmError.invalid_opcode, st)

  -- `cr.c[i].replace(with)`, where the register must have a value.
  unfoldable pub take_reg : ℕ → Cont O → Action (VmState O) VmError (Cont O)
  unfolding get_c set_reg taken
  take_reg i default_ st = taken (get_c i st.cr) (set_reg i (a_cont default_) st)

  unfoldable pub take_c0 : Action (VmState O) VmError (Cont O)
  take_c0 st = take_reg 0 st.quit0 st

  unfoldable pub take_c1 : Action (VmState O) VmError (Cont O)
  take_c1 st = take_reg 1 st.quit1 st

  -- `gas.load_cell_as_slice` in the mode `Full`.
  unfoldable pub load_code : CodeView O → O → Action (VmState O) VmError O
  unfolding load_cell_impl
  load_code cv cell st =
      let (r, g) =
        load_cell_impl cv.view gas_loader (record { use_gas = true; resolve = true }) cell st.gas in
      let st' = record st { gas = g } in
      elim r [ ok c ↦ (ok (cv.as_code c), st') | err e ↦ (err (VmError.cell_error e), st') ]
