-- ===== src/Vm/ArithOps/Instr.antt =====
-- The arithmetic instructions as data, with the operands of their opcodes, and the handler of each
-- (vm/src/instr/arithops.rs, the attributes `op` of the handlers). The long constants are not among them.
pub mod Fits
pub mod Simple
pub mod Divided
pub mod Safe
use tycho_vm.Prelude.{ℕ, ◌+◌, ◌%◌, ◌==◌, Bool, if◌then◌else◌, Action}
use tycho_vm.Prelude.Int.{ℤ}
use tycho_vm.Vm.Error.{VmError}
use tycho_vm.Vm.Stack.Basic.{Stack}
use tycho_vm.Vm.State.{VmVersion}
use tycho_vm.Vm.ArithOps.Division.{DivOps}
use tycho_vm.Vm.ArithOps.Constants.{
  tiny_operand, exec_push_tinyint4, exec_push_pow2, exec_push_nan, exec_push_pow2dec,
  exec_push_negpow2,
}
use tycho_vm.Vm.ArithOps.Simple.{
  as_signed, exec_add, exec_sub, exec_subr, exec_negate, exec_inc, exec_dec, exec_addint,
  exec_mulint, exec_mul, exec_minmax, exec_abs,
}
use tycho_vm.Vm.ArithOps.Divided.{
  exec_divmod, exec_shrmod, exec_muldivmod, exec_mulshrmod, exec_shldivmod,
}

-- The numbers are the operand bits of the opcode; the last `Bool` of each is `quiet`.
pub data ArithInstr : Type 0 where
  push_tiny push_byte push_word push_pow2 push_pow2dec push_negpow2 : ℕ → ArithInstr
  add sub subr negate inc dec mul abs : Bool → ArithInstr
  addint mulint divmod muldivmod : ℕ → Bool → ArithInstr
  shrmod mulshrmod shldivmod : ℕ → Bool → Bool → ArithInstr
  minmax : Bool → Bool → Bool → ArithInstr

module _ {O : Type 0} (d : DivOps) (version : VmVersion) where
  -- The opcode `83ff` is the constant `NaN`.
  unfoldable pub exec : ArithInstr → Action (Stack O) VmError ℤ
  exec (ArithInstr.push_tiny args) = exec_push_tinyint4 (tiny_operand args)
  exec (ArithInstr.push_byte args) = exec_push_tinyint4 (as_signed 7 args)
  exec (ArithInstr.push_word args) = exec_push_tinyint4 (as_signed 15 args)
  exec (ArithInstr.push_pow2 args) =
      if args % 256 == 255 then exec_push_nan else exec_push_pow2 (args % 256 + 1)
  exec (ArithInstr.push_pow2dec args) = exec_push_pow2dec (args % 256 + 1)
  exec (ArithInstr.push_negpow2 args) = exec_push_negpow2 (args % 256 + 1)
  exec (ArithInstr.add quiet) = exec_add quiet
  exec (ArithInstr.sub quiet) = exec_sub quiet
  exec (ArithInstr.subr quiet) = exec_subr quiet
  exec (ArithInstr.negate quiet) = exec_negate quiet
  exec (ArithInstr.inc quiet) = exec_inc quiet
  exec (ArithInstr.dec quiet) = exec_dec quiet
  exec (ArithInstr.mul quiet) = exec_mul quiet
  exec (ArithInstr.abs quiet) = exec_abs quiet
  exec (ArithInstr.addint args quiet) = exec_addint (as_signed 7 args) quiet
  exec (ArithInstr.mulint args quiet) = exec_mulint (as_signed 7 args) quiet
  exec (ArithInstr.divmod m quiet) = exec_divmod d version m quiet
  exec (ArithInstr.muldivmod m quiet) = exec_muldivmod d version m quiet
  exec (ArithInstr.shrmod m imm quiet) = exec_shrmod d version m imm quiet
  exec (ArithInstr.mulshrmod m imm quiet) = exec_mulshrmod d version m imm quiet
  exec (ArithInstr.shldivmod m imm quiet) = exec_shldivmod d version m imm quiet
  exec (ArithInstr.minmax mn mx quiet) = exec_minmax mn mx quiet
