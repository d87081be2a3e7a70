-- ===== src/Vm/Samples.antt =====
-- States for the tests. Cells and slices are numbers, and no slice has anything left.
use tycho_vm.Prelude.{ℕ, true, false, none, some, [], ◌∷◌, ok, err}
use tycho_vm.Prelude.Int.{pos}
use tycho_vm.Vm.Error.{CellError}
use tycho_vm.Vm.Gas.{with_libraries, getter}
use tycho_vm.Vm.Gas.Load.{CellType}
use tycho_vm.Vm.Stack.Values.{
  StackValue, Cont, ControlRegs, control_regs, a_cont, no_cont, no_tuple,
}
use tycho_vm.Vm.State.{VmState, ton}
use tycho_vm.Vm.Machine.{CodeView}

abbrev pub no_more : CodeView ℕ
no_more = record {
  no_code = 0;
  data_empty = λ _. true;
  refs_empty = λ _. true;
  first_reference = λ _. err CellError.cell_underflow;
  as_code = λ c. c;
  has_remaining = λ _ _ _. false;
  skip_first = λ _ _ c. c;
  empty_cell = 0;
  view = record {
    repr_hash = λ c. c;
    cell_type = λ _. CellType.ordinary;
    library_hash = λ c. ok c;
  };
  level = λ _. 0;
  repr_depth = λ _. 0;
}

abbrev pub int : ℕ → StackValue ℕ
int n = StackValue.int (pos n)

-- The registers that a VM starts with.
abbrev pub first_regs : ControlRegs ℕ
first_regs =
    control_regs (a_cont (Cont.quit (pos 0))) (a_cont (Cont.quit (pos 1))) (a_cont Cont.exc_quit)
      no_cont (some 4) (some 5) no_tuple

abbrev pub first_state : VmState ℕ
first_state = record {
  stack = int 1 ∷ int 2 ∷ [];
  gas = with_libraries getter (λ _. ok none);
  version = ton 11;
  code = 7;
  throw_on_code_access = false;
  cr = first_regs;
  committed_state = none;
  steps = 0;
  quit0 = Cont.quit (pos 0);
  quit1 = Cont.quit (pos 1);
  cp = 0;
  stop_on_accept = false;
  parents = [];
}
