-- ===== src/Vm/ArithOps/Instr/Safe.antt =====
-- All arithmetic instructions, and the size of the integers on the stack.
use native.Mathlib.Nat.{pow-le-pow_right}
use tycho_vm.Prelude.{
  ℕ, ◌+◌, ◌-◌, ◌%◌, ◌^◌, ◌≤◌, ◌<◌, ◌≡◌, refl, arith, Bool, true, false, if◌then◌else◌, ◌==◌, ◌>>◌,
}
use tycho_vm.Prelude.Int.{ℤ, pos, ◌-ℤ◌, ◌+ℤ◌}
use tycho_vm.Prelude.Int.Mul.{neg_ℤ, nat_abs, ◌*ℤ◌}
use tycho_vm.Vm.Stack.Basic.{Stack, fits_257, push_int}
use tycho_vm.Vm.State.{VmVersion}
use tycho_vm.Vm.StackOps.Loops.{done}
use tycho_vm.Vm.ArithOps.Division.{DivOps}
use tycho_vm.Vm.ArithOps.Constants.{
  tiny_operand, exec_push_tinyint4, exec_push_pow2, exec_push_nan, exec_push_pow2dec,
  exec_push_negpow2,
}
use tycho_vm.Vm.ArithOps.Simple.{
  as_signed, exec_add, exec_sub, exec_subr, exec_negate, exec_inc, exec_dec, exec_addint,
  exec_mulint, exec_mul, exec_abs,
}
use tycho_vm.Vm.ArithOps.Instr.{ArithInstr, exec}
use tycho_vm.Prelude.Safe.{seq-Safe}
use tycho_vm.Vm.ArithOps.Instr.Fits.{AllFit, push_int-Safe, push_nan-Safe}
use tycho_vm.Vm.ArithOps.Instr.Simple.{
  Tame, done-Tame, exec_binary-Tame, exec_unary-Tame, exec_minmax-Tame,
}
use tycho_vm.Vm.ArithOps.Instr.Divided.{
  exec_divmod-Tame, exec_shrmod-Tame, exec_muldivmod-Tame, exec_mulshrmod-Tame, exec_shldivmod-Tame,
}

tiny_operand-fits : (args : ℕ) → fits_257 (tiny_operand args) ≡ true
unfolding tiny_operand ◌-ℤ◌
tiny_operand-fits args = ground arith

byte-fits : (args : ℕ) → fits_257 (as_signed 7 args) ≡ true
unfolding as_signed ◌-ℤ◌
byte-fits args = ground arith

word-fits : (args : ℕ) → fits_257 (as_signed 15 args) ≡ true
unfolding as_signed ◌-ℤ◌
word-fits args = ground arith

-- Up to `limit` the powers of two are at most its power.
pow2_bound : (x limit : ℕ) → x ≤ limit → 2 ^ x ≤ 2 ^ limit
pow2_bound x limit h = pow-le-pow_right {n = 2} (omega arith) h

pow2-fits : (n : ℕ) → n ≤ 2 ^ 255 → fits_257 (pos n) ≡ true
pow2-fits n h = ground arith

pow2dec-fits : (n : ℕ) → n ≤ 2 ^ 256 → fits_257 (pos (n - 1)) ≡ true
pow2dec-fits n h = ground arith

negpow2-fits : (n : ℕ) → n ≤ 2 ^ 256 → fits_257 (neg_ℤ (pos n)) ≡ true
negpow2-fits n h = ground arith

module _ {O : Type 0} where
  pushed-Tame : (x : ℤ) → fits_257 x ≡ true → Tame {O = O} (push_int x >> done)
  pushed-Tame x f = seq-Safe (push_int-Safe x f) done-Tame

  exec_push_pow2-Tame :
      (n : ℕ) → n < 256 → Tame {O = O} (if n == 255 then exec_push_nan else exec_push_pow2 (n + 1))
  unfolding exec_push_nan exec_push_pow2
  exec_push_pow2-Tame n h = go (n == 255) refl
    where
      go :
          (b : Bool)
          → (n == 255) ≡ b
          → Tame {O = O} (if b then exec_push_nan else exec_push_pow2 (n + 1))
      go true e = seq-Safe push_nan-Safe done-Tame
      go false e =
          pushed-Tame (pos (2 ^ (n + 1)))
            (pow2-fits (2 ^ (n + 1)) (pow2_bound (n + 1) 255 (ground (arith, e, h))))

  exec-Tame : (d : DivOps) (version : VmVersion) (i : ArithInstr) → Tame {O = O} (exec d version i)
  unfolding exec exec_push_tinyint4 exec_push_pow2dec exec_push_negpow2 exec_add exec_sub exec_subr
      exec_negate exec_inc exec_dec exec_mul exec_abs exec_addint exec_mulint
  exec-Tame d version (ArithInstr.push_tiny args) =
      pushed-Tame (tiny_operand args) (tiny_operand-fits args)
  exec-Tame d version (ArithInstr.push_byte args) = pushed-Tame (as_signed 7 args) (byte-fits args)
  exec-Tame d version (ArithInstr.push_word args) = pushed-Tame (as_signed 15 args) (word-fits args)
  exec-Tame d version (ArithInstr.push_pow2 args) = exec_push_pow2-Tame (args % 256) (omega arith)
  exec-Tame d version (ArithInstr.push_pow2dec args) =
      let x = args % 256 + 1 in
      pushed-Tame (pos (2 ^ x - 1)) (pow2dec-fits (2 ^ x) (pow2_bound x 256 (omega arith)))
  exec-Tame d version (ArithInstr.push_negpow2 args) =
      let x = args % 256 + 1 in
      pushed-Tame (neg_ℤ (pos (2 ^ x))) (negpow2-fits (2 ^ x) (pow2_bound x 256 (omega arith)))
  exec-Tame d version (ArithInstr.add quiet) = exec_binary-Tame (λ x y. x +ℤ y) quiet
  exec-Tame d version (ArithInstr.sub quiet) = exec_binary-Tame (λ x y. x -ℤ y) quiet
  exec-Tame d version (ArithInstr.subr quiet) = exec_binary-Tame (λ x y. y -ℤ x) quiet
  exec-Tame d version (ArithInstr.negate quiet) = exec_unary-Tame neg_ℤ quiet
  exec-Tame d version (ArithInstr.inc quiet) = exec_unary-Tame (λ x. x +ℤ pos 1) quiet
  exec-Tame d version (ArithInstr.dec quiet) = exec_unary-Tame (λ x. x -ℤ pos 1) quiet
  exec-Tame d version (ArithInstr.mul quiet) = exec_binary-Tame (λ x y. x *ℤ y) quiet
  exec-Tame d version (ArithInstr.abs quiet) = exec_unary-Tame (λ x. pos (nat_abs x)) quiet
  exec-Tame d version (ArithInstr.addint args quiet) =
      exec_unary-Tame (λ x. x +ℤ as_signed 7 args) quiet
  exec-Tame d version (ArithInstr.mulint args quiet) =
      exec_unary-Tame (λ x. x *ℤ as_signed 7 args) quiet
  exec-Tame d version (ArithInstr.divmod m quiet) = exec_divmod-Tame d version m quiet
  exec-Tame d version (ArithInstr.muldivmod m quiet) = exec_muldivmod-Tame d version m quiet
  exec-Tame d version (ArithInstr.shrmod m imm quiet) = exec_shrmod-Tame d version m imm quiet
  exec-Tame d version (ArithInstr.mulshrmod m imm quiet) = exec_mulshrmod-Tame d version m imm quiet
  exec-Tame d version (ArithInstr.shldivmod m imm quiet) = exec_shldivmod-Tame d version m imm quiet
  exec-Tame d version (ArithInstr.minmax mn mx quiet) = exec_minmax-Tame mn mx quiet

  -- From a stack with integers of 257 bits only, every arithmetic instruction other than the long constants, with any
  -- operand and any division package, leaves such a stack, also when it ends with an error.
  pub exec-AllFit :
      (d : DivOps) (version : VmVersion) (i : ArithInstr) (s : Stack O)
      → AllFit s
      → AllFit (exec d version i s).1
  exec-AllFit d version i s h = (exec-Tame d version i).keeps s h
