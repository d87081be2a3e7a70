-- ===== src/Vm/Control/Tests.antt =====
-- The register file at concrete registers.
use tycho_vm.Prelude.{ℕ, ◌≡◌, none, some, ◌&&◌, ◌||◌, if◌then◌else◌, ◌==◌}
use tycho_vm.Vm.Stack.Values.{StackValue}
use tycho_vm.Vm.Control.{no_regs, is_absent, get_as_stack_value, merge, preclear, set, define}
use tycho_vm.Vm.Control.Registers.{succeeds, fits, overridden, registers_refine}
use tycho_vm.Vm.Samples.{first_regs}

registers_refine_example :
    let get = get_as_stack_value {O = ℕ} in
    let v : StackValue ℕ = StackValue.cell 9 in
    let absent = is_absent (get 5 first_regs) in
    (get 5 (merge first_regs no_regs) ≡ overridden (get 5 first_regs) (get 5 no_regs))
    × (get 5 (preclear first_regs no_regs)
        ≡ (if is_absent (get 5 no_regs) then get 5 first_regs else none))
    × (succeeds (set 5 v first_regs).0 ≡ fits 5 v)
    × (get 5 (set 5 v first_regs).1 ≡ (if fits 5 v && (5 == 5) then some v else get 5 first_regs))
    × (succeeds (define 5 v first_regs).0 ≡ (fits 5 v && (absent || (5 == 7))))
    × (get 5 (define 5 v first_regs).1
        ≡ (if fits 5 v && absent && (5 == 5) then some v else get 5 first_regs))
registers_refine_example = registers_refine 5 5 (StackValue.cell 9) first_regs no_regs
