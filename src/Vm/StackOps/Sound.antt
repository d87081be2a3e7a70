-- ===== src/Vm/StackOps/Sound.antt =====
-- Every stack instruction keeps the depth of the stack within the limit, and the gas well-formed.
use tycho_vm.Prelude.{
  ℕ, ◌+◌, ◌-◌, ◌≤◌, ◌≡◌, refl, List, [], ◌∷◌, length, take, drop, Result, ok, err, arith,
  length-append, length-drop, length-take, Action, ◌>>=◌, ◌>>◌, Bool, true, false, ltb,
  if◌then◌else◌, fail, gets, ensure, modify, pure,
}
use tycho_vm.Prelude.Int.{ℤ, pos}
use tycho_vm.Vm.Error.{VmError}
use tycho_vm.Vm.Gas.Invariant.{IsValid, try_consume-IsValid}
use tycho_vm.Vm.Stack.Basic.{Stack, max_depth, reverse_range, pop}
use tycho_vm.Vm.State.{VmState, on_stack, consume}
use tycho_vm.Vm.StackOps.Loops.{
  done, pop_size, truncate, should_consume_gas, consume_above_threshold,
}
use tycho_vm.Vm.StackOps.Fixed.{
  exec_nop, exec_swap, exec_xchg, exec_dup, exec_over, exec_push, exec_drop, exec_nip, exec_pop,
  exec_xchg3, exec_xchg2, exec_xcpu, exec_puxc, exec_push2, exec_xc2pu, exec_xcpuxc, exec_xcpu2,
  exec_puxc2, exec_puxcpu, exec_pu2xc, exec_push3, exec_blkswap, exec_rot, exec_rotrev, exec_2swap,
  exec_2drop, exec_2dup, exec_2over, exec_reverse, exec_blkdrop, exec_blkpush, exec_tuck,
}
use tycho_vm.Vm.StackOps.Popped.{
  only_top, blkswap_popped, exec_pick, exec_roll, exec_rollrev, exec_blkswap_x, exec_reverse_x,
  exec_drop_x, exec_xchg_x, exec_depth, exec_chkdepth, exec_onlytop_x, exec_only_x, exec_blkdrop2,
}
use tycho_vm.Vm.Stack.Typed.{pop_smallint_range, pop_int}
use tycho_vm.Vm.StackOps.Depth.{
  StackKeeps, seq-StackKeeps, done-StackKeeps, pass-StackKeeps, swap-StackKeeps,
  push_nth-StackKeeps, push_int-StackKeeps, pop-StackKeeps, pop_many-StackKeeps,
  reverse_range-StackKeeps, push_loop-StackKeeps, roll_loop-StackKeeps, rollrev_loop-StackKeeps,
}
use tycho_vm.Vm.StackOps.Instr.{Instr, exec}

module _ {O : Type 0} where
  -- The limit holds, and the gas is well-formed.
  pub record IsSound (st : VmState O) : Type 0 where
    pub shallow : length st.stack ≤ max_depth
    pub gas_valid : IsValid st.gas

  record StateKeeps {A : Type 0} (m : Action (VmState O) VmError A) : Type 0 where
    sound : (st : VmState O) → IsSound st → IsSound (m st).1

  on_stack-StateKeeps :
      {A : Type 0} {m : Action (Stack O) VmError A} → StackKeeps m → StateKeeps (on_stack m)
  on_stack-StateKeeps a = record {
    sound = λ st h. record { shallow = a.keeps st.stack h.shallow; gas_valid = h.gas_valid };
  }

  bind-StateKeeps :
      {A B : Type 0} {m : Action (VmState O) VmError A} {f : A → Action (VmState O) VmError B}
      → StateKeeps m
      → ((a : A) → StateKeeps (f a))
      → StateKeeps (m >>= f)
  bind-StateKeeps {A} {B} {m} {f} a b = record {
    sound = λ st h. go (m st).0 (m st).1 (a.sound st h);
  }
    where
      go :
          (r : Result VmError A) (st : VmState O)
          → IsSound st
          → IsSound (
              let x : Result VmError B × VmState O = elim r [
                | ok v ↦ f v st
                | err e ↦ (err e, st)
              ] in
              x.1)
      go (ok v) st h = (b v).sound st h
      go (err e) st h = h

  done-StateKeeps : StateKeeps (done {S = VmState O})
  done-StateKeeps = record { sound = λ st h. h }

  consume_above_threshold-StateKeeps : (x : ℕ) → StateKeeps (consume_above_threshold x)
  unfolding consume_above_threshold consume
  consume_above_threshold-StateKeeps x = record {
    sound = λ st h. ground (arith, try_consume-IsValid (x - 255) st.gas h.gas_valid);
  }

  pop_size-StateKeeps : StateKeeps pop_size
  unfolding pop_size pop_smallint_range pop_int pop
  pop_size-StateKeeps = record { sound = λ st h. sound_pop st.stack st h refl }
    where
      sound_pop :
          (s : Stack O) (st : VmState O) → IsSound st → st.stack ≡ s → IsSound (pop_size st).1
      sound_pop [] st h e = ground arith
      sound_pop (x ∷ s) st h e = ground arith

  pass-StateKeeps : StateKeeps (pure tt)
  pass-StateKeeps = record { sound = λ st h. h }

  fail-StateKeeps : {A : Type 0} (e : VmError) → StateKeeps (fail {A = A} e)
  fail-StateKeeps e = record { sound = λ st h. h }

  gets-StateKeeps : {A : Type 0} (f : VmState O → A) → StateKeeps (gets f)
  gets-StateKeeps f = record { sound = λ st h. h }

  ensure-StateKeeps : (b : Bool) (e : VmError) → StateKeeps (ensure b e)
  ensure-StateKeeps true e = record { sound = λ st h. h }
  ensure-StateKeeps false e = record { sound = λ st h. h }

  if-StateKeeps :
      {A : Type 0} (b : Bool) {m k : Action (VmState O) VmError A}
      → StateKeeps m
      → StateKeeps k
      → StateKeeps (if b then m else k)
  if-StateKeeps true a b = a
  if-StateKeeps false a b = b

  truncate-StateKeeps :
      (n : ℕ) → StateKeeps (modify (λ st. record st { stack = truncate n st.stack }))
  unfolding truncate
  truncate-StateKeeps n = record {
    sound = λ st h.
        let d = length-drop (length st.stack - n) st.stack in
        let shallow = h.shallow in record { shallow = omega arith; gas_valid = h.gas_valid };
  }

  take-StateKeeps :
      (d : ℕ)
      → StateKeeps (modify (λ st. record st { stack = take (length st.stack - d) st.stack }))
  take-StateKeeps n = record {
    sound = λ st h.
        let d = length-take (length st.stack - n) st.stack in
        let shallow = h.shallow in record { shallow = omega arith; gas_valid = h.gas_valid };
  }

  -- An action that looks at the state first.
  reader-StateKeeps :
      {A : Type 0} {m : VmState O → Action (VmState O) VmError A}
      → ((st : VmState O) → StateKeeps (m st))
      → StateKeeps (λ st. m st st)
  reader-StateKeeps k = record { sound = λ st h. (k st).sound st h }

  exec_blkdrop2-StateKeeps : (i j : ℕ) → StateKeeps (exec_blkdrop2 i j)
  unfolding exec_blkdrop2
  exec_blkdrop2-StateKeeps i j = record {
    sound = λ st h. ground (
      arith,
      length-append (take j st.stack) (drop (i + j) st.stack),
      length-take j st.stack,
      length-drop (i + j) st.stack,
    );
  }

  only_top-StateKeeps : (x : ℕ) → StateKeeps (only_top x)
  unfolding only_top
  only_top-StateKeeps x = reader-StateKeeps λ st.
      bind-StateKeeps
        (if-StateKeeps (ltb 0 (length st.stack - x))
          (bind-StateKeeps (consume_above_threshold-StateKeeps x)
            (λ _. take-StateKeeps (length st.stack - x)))
          pass-StateKeeps)
        (λ _. bind-StateKeeps (truncate-StateKeeps x) (λ _. done-StateKeeps))

  blkswap_popped-StateKeeps : (x y : ℕ) → StateKeeps (blkswap_popped x y)
  unfolding blkswap_popped
  blkswap_popped-StateKeeps x y =
      let moves : StackKeeps
          (reverse_range y x >> (reverse_range 0 y >> (reverse_range 0 (x + y) >> done))) =
        search (seq-StackKeeps, done-StackKeeps, reverse_range-StackKeeps) in
      reader-StateKeeps λ st.
        bind-StateKeeps
          (if-StateKeeps (should_consume_gas st.version)
            (consume_above_threshold-StateKeeps (x + y)) pass-StateKeeps)
          (λ _. on_stack-StateKeeps moves)

  exec_depth-StateKeeps : StateKeeps exec_depth
  unfolding exec_depth
  exec_depth-StateKeeps = reader-StateKeeps λ st.
      on_stack-StateKeeps
        (seq-StackKeeps (push_int-StackKeeps (pos (length st.stack))) done-StackKeeps)

  ruleset keeps = (
    pass-StateKeeps, fail-StateKeeps, gets-StateKeeps, ensure-StateKeeps, if-StateKeeps,
    truncate-StateKeeps, only_top-StateKeeps, blkswap_popped-StateKeeps, exec_blkdrop2-StateKeeps,
    exec_depth-StateKeeps, on_stack-StateKeeps, seq-StackKeeps, done-StackKeeps, pass-StackKeeps,
    swap-StackKeeps, push_nth-StackKeeps, push_int-StackKeeps, pop-StackKeeps, pop_many-StackKeeps,
    reverse_range-StackKeeps, push_loop-StackKeeps, roll_loop-StackKeeps, rollrev_loop-StackKeeps,
    bind-StateKeeps, done-StateKeeps, consume_above_threshold-StateKeeps, pop_size-StateKeeps,
  )

  exec-StateKeeps : (op : Instr) → StateKeeps (exec op)
  unfolding exec exec_nop exec_swap exec_xchg exec_dup exec_over exec_push exec_drop exec_nip
      exec_pop exec_xchg3 exec_xchg2 exec_xcpu exec_puxc exec_push2 exec_xc2pu exec_xcpuxc
      exec_xcpu2 exec_puxc2 exec_puxcpu exec_pu2xc exec_push3 exec_blkswap exec_rot exec_rotrev
      exec_2swap exec_2drop exec_2dup exec_2over exec_reverse exec_blkdrop exec_blkpush exec_tuck
      exec_pick exec_roll exec_rollrev exec_blkswap_x exec_reverse_x exec_drop_x exec_xchg_x
      exec_chkdepth exec_onlytop_x exec_only_x
  exec-StateKeeps (Instr.nop) = search keeps depth 9
  exec-StateKeeps (Instr.swap) = search keeps depth 9
  exec-StateKeeps (Instr.xchg i j) = search keeps depth 9
  exec-StateKeeps (Instr.dup) = search keeps depth 9
  exec-StateKeeps (Instr.over) = search keeps depth 9
  exec-StateKeeps (Instr.push i) = search keeps depth 9
  exec-StateKeeps (Instr.drop) = search keeps depth 9
  exec-StateKeeps (Instr.nip) = search keeps depth 9
  exec-StateKeeps (Instr.pop i) = search keeps depth 9
  exec-StateKeeps (Instr.xchg3 i j k) = search keeps depth 9
  exec-StateKeeps (Instr.xchg2 i j) = search keeps depth 9
  exec-StateKeeps (Instr.xcpu i j) = search keeps depth 9
  exec-StateKeeps (Instr.puxc i j) = search keeps depth 9
  exec-StateKeeps (Instr.push2 i j) = search keeps depth 9
  exec-StateKeeps (Instr.xc2pu i j k) = search keeps depth 9
  exec-StateKeeps (Instr.xcpuxc i j k) = search keeps depth 9
  exec-StateKeeps (Instr.xcpu2 i j k) = search keeps depth 9
  exec-StateKeeps (Instr.puxc2 i j k) = search keeps depth 9
  exec-StateKeeps (Instr.puxcpu i j k) = search keeps depth 9
  exec-StateKeeps (Instr.pu2xc i j k) = search keeps depth 9
  exec-StateKeeps (Instr.push3 i j k) = search keeps depth 9
  exec-StateKeeps (Instr.blkswap i j) = search keeps depth 9
  exec-StateKeeps (Instr.rot) = search keeps depth 9
  exec-StateKeeps (Instr.rotrev) = search keeps depth 9
  exec-StateKeeps (Instr.double_swap) = search keeps depth 9
  exec-StateKeeps (Instr.double_drop) = search keeps depth 9
  exec-StateKeeps (Instr.double_dup) = search keeps depth 9
  exec-StateKeeps (Instr.double_over) = search keeps depth 9
  exec-StateKeeps (Instr.reverse i j) = search keeps depth 9
  exec-StateKeeps (Instr.blkdrop i) = search keeps depth 9
  exec-StateKeeps (Instr.blkpush i j) = search keeps depth 9
  exec-StateKeeps (Instr.tuck) = search keeps depth 9
  exec-StateKeeps (Instr.pick) = search keeps depth 9
  exec-StateKeeps (Instr.roll) = search keeps depth 9
  exec-StateKeeps (Instr.rollrev) = search keeps depth 9
  exec-StateKeeps (Instr.blkswap_x) = search keeps depth 9
  exec-StateKeeps (Instr.reverse_x) = search keeps depth 9
  exec-StateKeeps (Instr.drop_x) = search keeps depth 9
  exec-StateKeeps (Instr.xchg_x) = search keeps depth 9
  exec-StateKeeps (Instr.depth) = exec_depth-StateKeeps
  exec-StateKeeps (Instr.chkdepth) = search keeps depth 9
  exec-StateKeeps (Instr.onlytop_x) = search keeps depth 9
  exec-StateKeeps (Instr.only_x) = search keeps depth 9
  exec-StateKeeps (Instr.blkdrop2 i j) = exec_blkdrop2-StateKeeps i j

  -- A program of stack instructions, which stops at the first error.
  pub exec_all : List Instr → Action (VmState O) VmError ℤ
  exec_all [] = done
  exec_all (op ∷ ops) = exec op >>= λ _. exec_all ops

  exec_all-StateKeeps : (ops : List Instr) → StateKeeps (exec_all ops)
  unfolding exec_all
  exec_all-StateKeeps [] = done-StateKeeps
  exec_all-StateKeeps (op ∷ ops) =
      bind-StateKeeps (exec-StateKeeps op) (λ _. exec_all-StateKeeps ops)

  -- Every program of stack instructions, with any operands, keeps the stack within the depth limit and
  -- the gas well-formed, also when it ends with an error.
  pub exec_all-IsSound :
      (ops : List Instr) (st : VmState O) → IsSound st → IsSound (exec_all ops st).1
  exec_all-IsSound ops st h = (exec_all-StateKeeps ops).sound st h
