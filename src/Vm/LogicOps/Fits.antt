-- ===== src/Vm/LogicOps/Fits.antt =====
-- The shifts and the bitwise instructions as data (vm/src/instr/logicops.rs, the attributes `op` of the handlers), and the
-- size of the integers that they leave on the stack.
use tycho_vm.Prelude.{
  ℕ, ◌+◌, ◌%◌, ◌^◌, ◌≤◌, ◌≡◌, refl, arith, Bool, true, false, ◌&&◌, leb, Option, none, some,
  if◌then◌else◌, ok, err, Action, ◌>>◌, ensure,
}
use tycho_vm.Prelude.Int.{ℤ, pos, negsuc, i64_max}
use tycho_vm.Prelude.Int.Mul.{is_zero_ℤ, ◌*ℤ◌}
use tycho_vm.Vm.Error.{VmError}
use tycho_vm.Vm.Stack.Values.{StackValue}
use tycho_vm.Vm.Stack.Basic.{Stack, fits_257, push_int, push_nan}
use tycho_vm.Vm.Machine.{bit_not}
use tycho_vm.Vm.StackOps.Loops.{done}
use tycho_vm.Vm.ArithOps.Simple.{both, push_result}
use tycho_vm.Prelude.Safe.{bind-Safe, seq-Safe, still-Safe}
use tycho_vm.Vm.ArithOps.Instr.Fits.{
  fits, AllFit, IfFits, push_raw-Safe, push_int-Safe, push_nan-Safe, pop_int_or_nan-Safe,
  pop_smallint_range-Safe,
}
use tycho_vm.Vm.ArithOps.Instr.Simple.{
  Tame, done-Tame, push_raw_int-done-Tame, nan_or_overflow-Tame, push_result-Tame, exec_binary-Tame,
  exec_unary-Tame,
}
use tycho_vm.Vm.LogicOps.{
  BitOps, decided, is_minus_one, exec_lshift_tinyint8, exec_rshift_tinyint8, exec_lshift,
  exec_rshift, exec_pow2, absorbing, exec_and, exec_or, exec_xor, exec_not, fitting, push_fitting,
  exec_fits_tinyint8, exec_fits, push_bitsize, exec_bitsize,
}

-- The numbers are the operand bits of the opcode; the last `Bool` is `quiet`, and the one before it is `s`.
pub data LogicInstr : Type 0 where
  lshift_by rshift_by : ℕ → Bool → LogicInstr
  lshift rshift pow2 bits_and bits_or bits_xor bits_not : Bool → LogicInstr
  fits_by : ℕ → Bool → Bool → LogicInstr
  fits_x bitsize : Bool → Bool → LogicInstr

module _ {O : Type 0} (b : BitOps) where
  unfoldable pub exec : LogicInstr → Action (Stack O) VmError ℤ
  exec (LogicInstr.lshift_by args quiet) = exec_lshift_tinyint8 b (args % 256 + 1) quiet
  exec (LogicInstr.rshift_by args quiet) = exec_rshift_tinyint8 b (args % 256 + 1) quiet
  exec (LogicInstr.lshift quiet) = exec_lshift b quiet
  exec (LogicInstr.rshift quiet) = exec_rshift b quiet
  exec (LogicInstr.pow2 quiet) = exec_pow2 b quiet
  exec (LogicInstr.bits_and quiet) = exec_and b quiet
  exec (LogicInstr.bits_or quiet) = exec_or b quiet
  exec (LogicInstr.bits_xor quiet) = exec_xor b quiet
  exec (LogicInstr.bits_not quiet) = exec_not b quiet
  exec (LogicInstr.fits_by args s quiet) = exec_fits_tinyint8 b (args % 256 + 1) s quiet
  exec (LogicInstr.fits_x s quiet) = exec_fits b s quiet
  exec (LogicInstr.bitsize s quiet) = exec_bitsize b s quiet

-- The size of an integer of 257 bits is at most 257.
pub record BitLaws (b : BitOps) : Type 0 where
  pub bitsize_small : (s : Bool) (x : ℤ) → fits_257 x ≡ true → b.bitsize s x ≤ 257

small-fits : (n : ℕ) → n ≤ 257 → fits_257 (pos n) ≡ true
small-fits n h = ground arith

fitting-IfFits :
    (b : BitOps) (y : ℕ) (s : Bool) (x : Option ℤ) → IfFits x → IfFits (fitting b y s x)
unfolding fitting
fitting-IfFits b y s (some x) h = go (b.has_correct_sign s x && leb (b.bitsize s x) y)
  where
    go : (c : Bool) → IfFits (if c then some x else none)
    go true = h
    go false = tt
fitting-IfFits b y s none h = tt

module _ {O : Type 0} (b : BitOps) where
  absorbing-Tame :
      (f : ℤ → ℤ → ℤ) (test : ℤ → Bool) (result : ℤ) (quiet : Bool)
      → fits_257 result ≡ true
      → Tame {O = O} (absorbing b f test result quiet)
  unfolding absorbing
  absorbing-Tame f test result quiet h =
      bind-Safe pop_int_or_nan-Safe
        (λ y _. bind-Safe pop_int_or_nan-Safe (λ x _. go (decided test x y) x y))
    where
      go :
          (c : Bool) (x y : Option ℤ)
          → Tame {O = O} (if c then push_int result >> done else push_result quiet (both f x y))
      go true x y = seq-Safe (push_int-Safe result h) done-Tame
      go false x y = push_result-Tame quiet (both f x y)

  push_fitting-Tame :
      (quiet : Bool) (x : Option ℤ) → IfFits x → Tame {O = O} (push_fitting b quiet x)
  unfolding push_fitting fits
  push_fitting-Tame quiet (some x) h = seq-Safe (push_raw-Safe (StackValue.int x) h) done-Tame
  push_fitting-Tame quiet none h = seq-Safe (nan_or_overflow-Tame quiet) done-Tame

  exec_fits_tinyint8-Tame : (y : ℕ) (s quiet : Bool) → Tame {O = O} (exec_fits_tinyint8 b y s quiet)
  unfolding exec_fits_tinyint8
  exec_fits_tinyint8-Tame y s quiet =
      bind-Safe pop_int_or_nan-Safe
        (λ x h. push_fitting-Tame quiet (fitting b y s x) (fitting-IfFits b y s x h))

  ensure-Tame : (c : Bool) (e : VmError) → Tame {O = O} (ensure c e)
  ensure-Tame true e = still-Safe (ok tt)
  ensure-Tame false e = still-Safe (err e)

  push_bitsize-Tame :
      BitLaws b
      → (s quiet : Bool) (x : Option ℤ) → IfFits x
      → Tame {O = O} (push_bitsize b s quiet x)
  unfolding push_bitsize
  push_bitsize-Tame laws s quiet none h = seq-Safe (nan_or_overflow-Tame quiet) done-Tame
  push_bitsize-Tame laws s quiet (some x) h = go (b.has_correct_sign s x)
    where
      e : VmError
      e = VmError.integer_out_of_range (pos 0) (pos i64_max)

      go :
          (c : Bool)
          → Tame {O = O} (
              if c
              then push_int (pos (b.bitsize s x)) >> done
              else ensure quiet e >> (push_nan >> done))
      go true =
          seq-Safe
            (push_int-Safe (pos (b.bitsize s x))
              (small-fits (b.bitsize s x) (laws.bitsize_small s x h)))
            done-Tame
      go false = seq-Safe (ensure-Tame quiet e) (seq-Safe push_nan-Safe done-Tame)

  exec-Tame : BitLaws b → (i : LogicInstr) → Tame {O = O} (exec b i)
  unfolding exec exec_lshift_tinyint8 exec_rshift_tinyint8 exec_lshift exec_rshift exec_pow2
      exec_and exec_or exec_xor exec_not exec_fits exec_bitsize
  exec-Tame laws (LogicInstr.lshift_by args quiet) =
      exec_unary-Tame (λ x. x *ℤ pos (2 ^ (args % 256 + 1))) quiet
  exec-Tame laws (LogicInstr.rshift_by args quiet) =
      exec_unary-Tame (λ x. b.shift_right x (args % 256 + 1)) quiet
  exec-Tame laws (LogicInstr.lshift quiet) =
      bind-Safe (pop_smallint_range-Safe 0 1023)
        (λ y _. exec_unary-Tame (λ x. x *ℤ pos (2 ^ y)) quiet)
  exec-Tame laws (LogicInstr.rshift quiet) =
      bind-Safe (pop_smallint_range-Safe 0 1023)
        (λ y _. exec_unary-Tame (λ x. b.shift_right x y) quiet)
  exec-Tame laws (LogicInstr.pow2 quiet) =
      bind-Safe (pop_smallint_range-Safe 0 1023) (λ y _. push_raw_int-done-Tame (pos (2 ^ y)) quiet)
  exec-Tame laws (LogicInstr.bits_and quiet) = absorbing-Tame b.bit_and is_zero_ℤ (pos 0) quiet refl
  exec-Tame laws (LogicInstr.bits_or quiet) =
      absorbing-Tame b.bit_or is_minus_one (negsuc 0) quiet refl
  exec-Tame laws (LogicInstr.bits_xor quiet) = exec_binary-Tame b.bit_xor quiet
  exec-Tame laws (LogicInstr.bits_not quiet) = exec_unary-Tame bit_not quiet
  exec-Tame laws (LogicInstr.fits_by args s quiet) =
      exec_fits_tinyint8-Tame (args % 256 + 1) s quiet
  exec-Tame laws (LogicInstr.fits_x s quiet) =
      bind-Safe (pop_smallint_range-Safe 0 1023) (λ y _. exec_fits_tinyint8-Tame y s quiet)
  exec-Tame laws (LogicInstr.bitsize s quiet) =
      bind-Safe pop_int_or_nan-Safe (λ x h. push_bitsize-Tame laws s quiet x h)

  -- From a stack with integers of 257 bits only, every shift, bitwise and size instruction leaves such a stack, also when
  -- it ends with an error, if the size of such an integer is at most 257.
  pub logic-AllFit : BitLaws b → (i : LogicInstr) (s : Stack O) → AllFit s → AllFit (exec b i s).1
  logic-AllFit laws i s h = (exec-Tame laws i).keeps s h
