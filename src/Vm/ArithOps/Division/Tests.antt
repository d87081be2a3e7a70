-- ===== src/Vm/ArithOps/Division/Tests.antt =====
-- Division with rounding at concrete integers.
use tycho_vm.Prelude.{◌≡◌, refl}
use tycho_vm.Prelude.Int.{pos, negsuc, ◌+ℤ◌, ◌-ℤ◌}
use tycho_vm.Vm.ArithOps.Division.{RoundMode, int_divmod}
use tycho_vm.Vm.ArithOps.Division.Rounding.{Rounds, int_divmod-Rounds}
use tycho_vm.Vm.ArithOps.Division.Schoolbook.{schoolbook, schoolbook-DivLaws}

int_divmod-Rounds_example : Rounds schoolbook RoundMode.nearest (negsuc 6) (pos 2)
int_divmod-Rounds_example =
    int_divmod-Rounds schoolbook schoolbook-DivLaws RoundMode.nearest (negsuc 6) (pos 2) refl

-- A half goes up: -3.5 to -3 and 3.5 to 4.
half_below_zero : int_divmod schoolbook RoundMode.nearest (negsuc 6) (pos 2) ≡ (negsuc 2, negsuc 0)
unfolding int_divmod schoolbook ◌+ℤ◌ ◌-ℤ◌
half_below_zero = refl

half_above_zero : int_divmod schoolbook RoundMode.nearest (negsuc 6) (negsuc 1) ≡ (pos 4, pos 1)
unfolding int_divmod schoolbook ◌+ℤ◌ ◌-ℤ◌
half_above_zero = refl
