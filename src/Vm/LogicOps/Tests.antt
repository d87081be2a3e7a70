-- ===== src/Vm/LogicOps/Tests.antt =====
-- The bitwise instructions at concrete stacks.
use Prim.Native.Nat.{bit_and, bit_or, bit_xor}
use tycho_vm.Prelude.{
  ℕ, zero, suc, ◌+◌, ◌-◌, ◌/◌, ◌%◌, ◌^◌, ◌≤◌, ◌==◌, ◌≡◌, refl, arith, Bool, true, false,
  if◌then◌else◌, [], ◌∷◌, ok,
}
use tycho_vm.Prelude.Int.{ℤ, pos, negsuc}
use tycho_vm.Vm.Stack.Values.{StackValue}
use tycho_vm.Vm.Samples.{int}
use tycho_vm.Vm.Stack.Basic.{push_int}
use tycho_vm.Vm.Stack.Typed.{pop_int_or_nan}
use tycho_vm.Vm.ArithOps.Division.Schoolbook.{schoolbook}
use tycho_vm.Vm.ArithOps.Instr.Fits.{AllFit, fits}
use tycho_vm.Vm.LogicOps.{BitOps, exec_and}
use tycho_vm.Vm.LogicOps.Fits.{LogicInstr, exec, BitLaws, logic-AllFit}

-- How many bits a number has, up to `limit`.
unfoldable bit_length : ℕ → ℕ → ℕ
bit_length zero n = 0
bit_length (suc limit) n = let rest = bit_length limit (n / 2) in if n == 0 then 0 else rest + 1

bit_length_bound : (limit n : ℕ) → bit_length limit n ≤ limit
unfolding bit_length
bit_length_bound zero n = omega arith
bit_length_bound (suc limit) n = ground (arith, bit_length_bound limit (n / 2))

-- Two's complement in 257 bits.
unfoldable two_complement : ℤ → ℕ
two_complement (pos n) = n % 2 ^ 257
two_complement (negsuc n) = 2 ^ 257 - 1 - n % 2 ^ 257

unfoldable of_two_complement : ℕ → ℤ
of_two_complement n = if n / 2 ^ 256 == 0 then pos n else negsuc (2 ^ 257 - 1 - n)

unfoldable size : Bool → ℤ → ℕ
unfolding bit_length
size true (pos n) = bit_length 256 n + 1
size true (negsuc n) = bit_length 256 n + 1
size false (pos n) = bit_length 257 n
size false (negsuc n) = 0

unfoldable right_sign : Bool → ℤ → Bool
right_sign false (negsuc _) = false
right_sign _ _ = true

-- Integers of 257 bits with the operations on their bits.
unfoldable bits_257 : BitOps
unfolding size right_sign two_complement of_two_complement
bits_257 = record {
  bit_and = λ x y. of_two_complement (bit_and (two_complement x) (two_complement y));
  bit_or = λ x y. of_two_complement (bit_or (two_complement x) (two_complement y));
  bit_xor = λ x y. of_two_complement (bit_xor (two_complement x) (two_complement y));
  shift_right = schoolbook.shift_right;
  bitsize = size;
  has_correct_sign = right_sign;
}

size_bound : (s : Bool) (x : ℤ) → size s x ≤ 257
unfolding size
size_bound true (pos n) = omega (arith, bit_length_bound 256 n)
size_bound true (negsuc n) = omega (arith, bit_length_bound 256 n)
size_bound false (pos n) = bit_length_bound 257 n
size_bound false (negsuc n) = omega arith

bits_257-BitLaws : BitLaws bits_257
unfolding bits_257
bits_257-BitLaws = record { bitsize_small = λ s x h. size_bound s x }

logic-AllFit_example :
    AllFit (exec bits_257 (LogicInstr.bits_and false) (StackValue.nan ∷ int 0 ∷ [])).1
unfolding fits
logic-AllFit_example =
    logic-AllFit bits_257 bits_257-BitLaws (LogicInstr.bits_and false) (StackValue.nan ∷ int 0 ∷ [])
      (refl, (refl, tt))

-- A zero decides a conjunction with `NaN`, also in the form that is not quiet.
and_zero : exec_and bits_257 false (StackValue.nan ∷ int 0 ∷ []) ≡ (ok (pos 0), int 0 ∷ [])
unfolding exec_and pop_int_or_nan push_int
and_zero = refl
