-- ===== src/Vm/Error.antt =====
-- Errors of the virtual machine and their exit codes (vm/src/error.rs).
mod Codes
use tycho_vm.Prelude.{ℕ, Bool, true, false}
use tycho_vm.Prelude.Int.{ℤ, negsuc}

-- `everscale_types::error::Error`: the variants that this repository tells apart. `other` stands
-- for the rest, under a number of its own.
pub data CellError : Type 0 where
  cell_underflow cell_overflow unexpected_exotic_cell unexpected_ordinary_cell : CellError
  cancelled int_overflow invalid_tag invalid_data : CellError
  other : ℕ → CellError

pub data StackValueType : Type 0 where
  null int cell slice builder cont tuple : StackValueType

-- The texts that two variants carry for a log (`actual`, the message of `Unknown`) are left out.
pub data VmError : Type 0 where
  stack_underflow : ℕ → VmError
  too_many_arguments : ℕ → VmError
  integer_out_of_range : ℤ → ℤ → VmError
  control_register_out_of_range : ℕ → VmError
  control_register_redefined integer_overflow invalid_opcode : VmError
  invalid_type : StackValueType → StackValueType → VmError
  out_of_gas : VmError
  cell_error : CellError → VmError
  dict_error unknown : VmError

unfoldable pub is_out_of_gas : VmError → Bool
is_out_of_gas VmError.out_of_gas = true
is_out_of_gas (VmError.cell_error CellError.cancelled) = true
is_out_of_gas _ = false

pub data VmException : Type 0 where
  ok alternative stack_underflow stack_overflow int_overflow range_check : VmException
  invalid_opcode type_check cell_overflow cell_underflow dict_error : VmException
  unknown fatal out_of_gas virt_error : VmException

cell_exception : CellError → VmException
cell_exception CellError.cell_underflow = VmException.cell_underflow
cell_exception CellError.cell_overflow = VmException.cell_overflow
cell_exception CellError.unexpected_exotic_cell = VmException.virt_error
cell_exception CellError.unexpected_ordinary_cell = VmException.virt_error
cell_exception CellError.cancelled = VmException.out_of_gas
cell_exception CellError.int_overflow = VmException.int_overflow
cell_exception _ = VmException.fatal

unfoldable pub as_exception : VmError → VmException
unfolding cell_exception
as_exception (VmError.stack_underflow _) = VmException.stack_underflow
as_exception (VmError.too_many_arguments _) = VmException.stack_overflow
as_exception (VmError.integer_out_of_range _ _) = VmException.range_check
as_exception (VmError.control_register_out_of_range _) = VmException.range_check
as_exception VmError.control_register_redefined = VmException.type_check
as_exception VmError.integer_overflow = VmException.int_overflow
as_exception VmError.invalid_opcode = VmException.invalid_opcode
as_exception (VmError.invalid_type _ _) = VmException.type_check
as_exception VmError.out_of_gas = VmException.out_of_gas
as_exception VmError.unknown = VmException.unknown
as_exception (VmError.cell_error e) = cell_exception e
as_exception VmError.dict_error = VmException.dict_error

-- `*self as i32`.
unfoldable pub discriminant : VmException → ℕ
discriminant VmException.ok = 0
discriminant VmException.alternative = 1
discriminant VmException.stack_underflow = 2
discriminant VmException.stack_overflow = 3
discriminant VmException.int_overflow = 4
discriminant VmException.range_check = 5
discriminant VmException.invalid_opcode = 6
discriminant VmException.type_check = 7
discriminant VmException.cell_overflow = 8
discriminant VmException.cell_underflow = 9
discriminant VmException.dict_error = 10
discriminant VmException.unknown = 11
discriminant VmException.fatal = 12
discriminant VmException.out_of_gas = 13
discriminant VmException.virt_error = 14

-- `!x` of a two's complement number is -(x + 1).
unfoldable pub as_exit_code : VmException → ℤ
unfolding discriminant
as_exit_code e = negsuc (discriminant e)
