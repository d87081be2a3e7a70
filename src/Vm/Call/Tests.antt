-- ===== src/Vm/Call/Tests.antt =====
-- Calls, loops and transfers of control at concrete states.
use tycho_vm.Prelude.{ℕ, ◌+◌, ◌≡◌, refl, arith, some, true, ok}
use tycho_vm.Prelude.Int.{pos}
use tycho_vm.Vm.Stack.Values.{Cont}
use tycho_vm.Vm.State.{VmState}
use tycho_vm.Vm.Control.{get_c, put_c}
use tycho_vm.Vm.Machine.{is_cont}
use tycho_vm.Vm.Jump.{jump, jump_ext, ret, ret_ext, ret_alt, ret_alt_ext}
use tycho_vm.Vm.Jump.Keeps.{linked, fine}
use tycho_vm.Vm.Call.{
  simple, call, call_ext, extract_cc, throw_exception_with_arg, repeat, save_full,
}
use tycho_vm.Vm.Call.Return.{call-ret}
use tycho_vm.Vm.Call.Loop.{rounds, repeat-ends}
use tycho_vm.Vm.Call.Linked.{transfers_keep_registers}
use tycho_vm.Vm.Samples.{no_more, int, first_state}

call-ret_example :
    let after = (call no_more (simple no_more 8 0) first_state).1 in
    ((call no_more (simple no_more 8 0) first_state).0 ≡ ok (pos 0))
    × (after.code ≡ 8)
    × (after.stack ≡ first_state.stack)
    × (ret after ≡ (
      ok (pos 0),
      record after { code = 7; cp = 0; cr = put_c 0 (get_c 0 first_state.cr) after.cr },
    ))
unfolding get_c
call-ret_example =
    let after = (call no_more (simple no_more 8 0) first_state).1 in
    call-ret no_more 8 (Cont.quit (pos 0)) first_state after refl refl refl

-- A body that only takes a step.
abbrev counts : VmState ℕ → VmState ℕ
counts st = record st { steps = st.steps + 1 }

repeat-ends_example :
    let start = (repeat no_more (simple no_more 8 0) (simple no_more 9 0) 3 first_state).1 in
    ((rounds no_more 8 9 counts 2 start).code ≡ 8) × ((rounds no_more 8 9 counts 3 start).code ≡ 9)
repeat-ends_example = repeat-ends no_more 8 9 counts (λ s. refl) 2 2 first_state (omega arith)

transfers_keep_registers_example :
    let c = simple no_more 8 0 in
    (fine linked (jump c first_state) ≡ true)
    × (fine linked (jump_ext c (some 1) first_state) ≡ true)
    × (fine linked (call no_more c first_state) ≡ true)
    × (fine linked (call_ext no_more c (some 1) (some 2) first_state) ≡ true)
    × (fine linked (ret first_state) ≡ true)
    × (fine linked (ret_ext (some 2) first_state) ≡ true)
    × (fine linked (ret_alt first_state) ≡ true)
    × (fine linked (ret_alt_ext (some 2) first_state) ≡ true)
    × (fine linked (throw_exception_with_arg no_more (pos 5) (int 1) first_state) ≡ true)
    × (fine linked (extract_cc no_more save_full (some 1) (some 2) first_state) ≡ true)
unfolding linked get_c is_cont
transfers_keep_registers_example =
    transfers_keep_registers no_more (simple no_more 8 0) (some 1) (some 2) (pos 5) (int 1)
      save_full first_state refl
