-- ===== src/Vm/Error/Codes.antt =====
-- What the exit codes tell a caller.
use tycho_vm.Prelude.{◌≡◌, refl, ◌↔◌, true, arith}
use tycho_vm.Prelude.Int.{negsuc}
use tycho_vm.Vm.Error.{CellError, VmError, is_out_of_gas, as_exception, as_exit_code}

-- `is_out_of_gas` holds of exactly the errors whose exception has exit code -14, which is the code
-- of the out-of-gas exception.
pub out_of_gas_exit_code :
    (e : VmError) → (is_out_of_gas e ≡ true) ↔ (as_exit_code (as_exception e) ≡ negsuc 13)
unfolding is_out_of_gas as_exception as_exit_code
out_of_gas_exit_code (VmError.cell_error CellError.cancelled) = ((λ h. refl), (λ h. refl))
out_of_gas_exit_code (VmError.cell_error e) = ground arith
out_of_gas_exit_code e = ground arith
