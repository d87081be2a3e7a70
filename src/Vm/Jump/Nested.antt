-- ===== src/Vm/Jump/Nested.antt =====
-- The fuel of the loop of `do_jump_to` (vm/src/state.rs).
use tycho_vm.Prelude.{
  ℕ, zero, suc, ◌+◌, ◌<◌, ◌≤◌, ◌≡◌, refl, arith, Bool, true, false, none, some, Result, ok, err,
  Action, >>=-same, ◌>>=◌, pure, fail, ltb, if◌then◌else◌,
}
use tycho_vm.Prelude.Int.{ℤ}
use tycho_vm.Vm.Error.{VmError}
use tycho_vm.Vm.Stack.Values.{Cont, control_data}
use tycho_vm.Vm.State.{VmState, consume}
use tycho_vm.Vm.Jump.{
  Jumped, exit, next, free_nested_cont_jump, cont_jump, exit_from_stack, jump_repeat, jump_again,
  jump_until, jump_while, jump_arg_ext, jump_ord, adjust_if_args, jump_loop, do_jump_to, size,
  followed,
}

module _ {O : Type 0} where
  abbrev Ended : ℕ → Result VmError (Jumped O) → Type 0
  Ended n (ok (next d)) = size d < n
  Ended n _ = Unit {0}

  repeat-Ended :
      (n : ℕ) (b a : Cont O) (st : VmState O)
      → Ended (1 + (size b + size a)) (jump_repeat n b a st).0
  unfolding jump_repeat
  repeat-Ended zero b a st = ground arith
  repeat-Ended (suc n) b a st = ground arith

  again-Ended : (b : Cont O) (st : VmState O) → Ended (1 + size b) (jump_again b st).0
  unfolding jump_again
  again-Ended b st = ground arith

  until-Ended :
      (b a : Cont O) (st : VmState O) → Ended (1 + (size b + size a)) (jump_until b a st).0
  unfolding jump_until
  until-Ended b a st = ground arith

  while-Ended :
      (t : Bool) (c b a : Cont O) (st : VmState O)
      → Ended (1 + (size c + size b + size a)) (jump_while t c b a st).0
  unfolding jump_while
  while-Ended true c b a st = ground arith
  while-Ended false c b a st = ground arith

  cont_jump-Ended : (c : Cont O) (st : VmState O) → Ended (size c) (cont_jump c st).0
  unfolding cont_jump size exit_from_stack jump_arg_ext jump_ord
  cont_jump-Ended (Cont.quit n) st = tt
  cont_jump-Ended Cont.exc_quit st = tt
  cont_jump-Ended (Cont.push_int v c) st = ground arith
  cont_jump-Ended (Cont.repeat n b a) st = repeat-Ended n b a st
  cont_jump-Ended (Cont.again b) st = again-Ended b st
  cont_jump-Ended (Cont.until b a) st = until-Ended b a st
  cont_jump-Ended (Cont.while t c b a) st = while-Ended t c b a st
  cont_jump-Ended (Cont.arg_ext (control_data n s r p) e) st = ground arith
  cont_jump-Ended (Cont.ord (control_data n s r none) code) st = tt
  cont_jump-Ended (Cont.ord (control_data n s r (some p)) code) st = ground arith

  size-positive : (c : Cont O) → 0 < size c
  unfolding size
  size-positive (Cont.quit _) = omega arith
  size-positive Cont.exc_quit = omega arith
  size-positive (Cont.push_int _ _) = omega arith
  size-positive (Cont.repeat _ _ _) = omega arith
  size-positive (Cont.again _) = omega arith
  size-positive (Cont.until _ _) = omega arith
  size-positive (Cont.while _ _ _ _) = omega arith
  size-positive (Cont.arg_ext _ _) = omega arith
  size-positive (Cont.ord _ _) = omega arith

  followed-same :
      (f g : Cont O → Action (VmState O) VmError ℤ) (count n : ℕ) (r : Jumped O) (st : VmState O)
      → Ended n (ok r)
      → ((d : Cont O) (st' : VmState O) → size d < n → f d st' ≡ g d st')
      → followed f count r st ≡ followed g count r st
  unfolding followed
  followed-same f g count n (exit k) st h same = refl
  followed-same f g count n (next d) st h same =
      >>=-same (if ltb free_nested_cont_jump count then consume 1 else pure tt)
        (λ _. adjust_if_args d >>= λ _. f d) (λ _. adjust_if_args d >>= λ _. g d) st
        (λ _ st'. >>=-same (adjust_if_args d) (λ _. f d) (λ _. g d) st' (λ _ st''. same d st'' h))

  -- The part after a jump whose result is known to be smaller.
  jumped-same :
      (f g : Cont O → Action (VmState O) VmError ℤ) (count n : ℕ)
      (p : Result VmError (Jumped O) × VmState O)
      → Ended n p.0
      → ((d : Cont O) (st' : VmState O) → size d < n → f d st' ≡ g d st')
      → ((λ _. p) >>= λ r. followed f count r) p.1 ≡ ((λ _. p) >>= λ r. followed g count r) p.1
  jumped-same f g count n (ok r, st) h same = followed-same f g count n r st h same
  jumped-same f g count n (err e, st) h same = refl

  jump_loop-same :
      (stuck other : Action (VmState O) VmError ℤ) (fuel more count : ℕ) (c : Cont O)
      (st : VmState O)
      → size c ≤ fuel
      → size c ≤ more
      → jump_loop stuck fuel count c st ≡ jump_loop other more count c st
  unfolding jump_loop
  jump_loop-same stuck other (suc fuel) (suc more) count c st h k =
      jumped-same (jump_loop stuck fuel (count + 1)) (jump_loop other more (count + 1)) (count + 1)
        (size c) (cont_jump c st) (cont_jump-Ended c st)
        (λ d st' smaller.
          jump_loop-same stuck other fuel more (count + 1) d st' (omega arith) (omega arith))
  jump_loop-same stuck other zero more count c st h k = ground (arith, size-positive c)
  jump_loop-same stuck other (suc fuel) zero count c st h k = ground (arith, size-positive c)

  -- A jump ends: with any fuel that is at least the size of the continuation, the loop of nested jumps gives the result of
  -- `do_jump_to`, whatever happens when the fuel is used up, so this is never reached.
  pub do_jump_to-ends :
      (stuck : Action (VmState O) VmError ℤ) (fuel : ℕ) (c : Cont O) (st : VmState O)
      → size c ≤ fuel
      → jump_loop stuck fuel 0 c st ≡ do_jump_to c st
  unfolding do_jump_to
  do_jump_to-ends stuck fuel c st h =
      jump_loop-same stuck (fail VmError.unknown) fuel (size c) 0 c st h (omega arith)
