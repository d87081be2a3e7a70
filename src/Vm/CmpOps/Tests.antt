-- ===== src/Vm/CmpOps/Tests.antt =====
-- The comparison instructions at concrete stacks.
use tycho_vm.Prelude.{ℕ, ◌≡◌, true, false, [], ◌∷◌, ok, arith}
use tycho_vm.Prelude.Int.{pos, negsuc}
use tycho_vm.Vm.Stack.Values.{StackValue}
use tycho_vm.Vm.Stack.Basic.{Stack, make_bool}
use tycho_vm.Vm.CmpOps.{exec_cmp, exec_cmp_int}
use tycho_vm.Vm.CmpOps.Modes.{Comparison, mode_of, holds, exec_cmp-holds}
use tycho_vm.Vm.CmpOps.Immediate.{exec_cmp_int-eq-exec_cmp}

abbrev beyond_i64 : Stack ℕ
beyond_i64 = StackValue.int (pos 10000000000000000000) ∷ StackValue.nan ∷ []

exec_cmp-holds_example :
    exec_cmp
      (mode_of Comparison.at_most)
      false
      (StackValue.int (pos 7) ∷ StackValue.int (negsuc 4) ∷ beyond_i64)
    ≡ (ok (pos 0), make_bool (holds Comparison.at_most (negsuc 4) (pos 7)) ∷ beyond_i64)
exec_cmp-holds_example =
    exec_cmp-holds Comparison.at_most false (negsuc 4) (pos 7) beyond_i64 (omega arith)

exec_cmp_int-eq-exec_cmp_example :
    exec_cmp_int (negsuc 0) 0x787 true beyond_i64
    ≡ exec_cmp 0x787 true (StackValue.int (negsuc 0) ∷ beyond_i64)
exec_cmp_int-eq-exec_cmp_example =
    exec_cmp_int-eq-exec_cmp (negsuc 0) 0x787 true beyond_i64 (omega arith) (omega arith)
