-- ===== src/Vm/StackOps/Depth.antt =====
-- The methods of the stack and the loops over them keep the depth within the limit.
use tycho_vm.Prelude.{
  ℕ, zero, suc, ◌+◌, ◌≤◌, ◌≡◌, ap, take-append-drop, [], ◌∷◌, ◌++◌, reverse, length, take, drop,
  arith, length-append, length-reverse, length-drop, length-set, Action, ◌>>◌, set, get_or, pure,
}
use tycho_vm.Prelude.Int.{ℤ}
use tycho_vm.Vm.Error.{VmError}
use tycho_vm.Vm.Stack.Values.{StackValue}
use tycho_vm.Vm.Stack.Basic.{
  Stack, max_depth, swap, exchange, reverse_range, reverse_part, pop, pop_many, push_nth, push_int,
}
use tycho_vm.Vm.StackOps.Loops.{done, push_loop, roll_loop, rollrev_loop}

module _ {O : Type 0} where
  -- The depth stays within the limit.
  pub record StackKeeps {A : Type 0} (m : Action (Stack O) VmError A) : Type 0 where
    pub keeps : (s : Stack O) → length s ≤ max_depth → length (m s).1 ≤ max_depth

  pub seq-StackKeeps :
      {A B : Type 0} {m : Action (Stack O) VmError A} {k : Action (Stack O) VmError B}
      → StackKeeps m
      → StackKeeps k
      → StackKeeps (m >> k)
  seq-StackKeeps {A} {B} {m} {k} a b = record {
    keeps = λ s h. ground (arith, a.keeps s h, b.keeps (m s).1);
  }

  pub done-StackKeeps : StackKeeps (done {S = Stack O})
  done-StackKeeps = record { keeps = λ s h. h }

  pub pass-StackKeeps : StackKeeps (pure tt)
  pass-StackKeeps = record { keeps = λ s h. h }

  pub swap-StackKeeps : (i j : ℕ) → StackKeeps (swap i j)
  unfolding swap exchange
  swap-StackKeeps i j = record {
    keeps = λ s h. ground (
      arith,
      length-set s i (get_or s j StackValue.null),
      length-set (set s i (get_or s j StackValue.null)) j (get_or s i StackValue.null),
    );
  }

  pub push_nth-StackKeeps : (i : ℕ) → StackKeeps (push_nth i)
  unfolding push_nth
  push_nth-StackKeeps i = record { keeps = λ s h. ground arith }

  pub push_int-StackKeeps : (x : ℤ) → StackKeeps (push_int x)
  unfolding push_int
  push_int-StackKeeps x = record { keeps = λ s h. ground arith }

  pub pop-StackKeeps : StackKeeps pop
  unfolding pop
  pop-StackKeeps = record { keeps = elim [ [] ↦ λ h. h | x ∷ s ↦ λ h. omega arith ] }

  pub pop_many-StackKeeps : (n : ℕ) → StackKeeps (pop_many n)
  unfolding pop_many
  pop_many-StackKeeps n = record { keeps = λ s h. ground (arith, length-drop n s) }

  length-reverse_part : (offset n : ℕ) (s : Stack O) → length (reverse_part offset n s) ≡ length s
  unfolding reverse_part
  length-reverse_part offset n s =
      let tail = drop offset s in
      omega (
        arith,
        length-append (take offset s) (reverse (take n tail) ++ drop n tail),
        length-append (reverse (take n tail)) (drop n tail),
        length-reverse (take n tail),
        length-append (take n tail) (drop n tail),
        ap length (take-append-drop n tail),
        length-append (take offset s) tail,
        ap length (take-append-drop offset s),
      )

  pub reverse_range-StackKeeps : (offset n : ℕ) → StackKeeps (reverse_range offset n)
  unfolding reverse_range
  reverse_range-StackKeeps offset n = record {
    keeps = λ s h. ground (arith, length-reverse_part offset n s);
  }

  pub push_loop-StackKeeps : (i j : ℕ) → StackKeeps (push_loop i j)
  unfolding push_loop
  push_loop-StackKeeps zero j = pass-StackKeeps
  push_loop-StackKeeps (suc i) j = seq-StackKeeps (push_nth-StackKeeps j) (push_loop-StackKeeps i j)

  pub roll_loop-StackKeeps : (i : ℕ) → StackKeeps (roll_loop i)
  unfolding roll_loop
  roll_loop-StackKeeps zero = pass-StackKeeps
  roll_loop-StackKeeps (suc i) = seq-StackKeeps (swap-StackKeeps (suc i) i) (roll_loop-StackKeeps i)

  pub rollrev_loop-StackKeeps : (n i : ℕ) → StackKeeps (rollrev_loop n i)
  unfolding rollrev_loop
  rollrev_loop-StackKeeps zero i = pass-StackKeeps
  rollrev_loop-StackKeeps (suc n) i =
      seq-StackKeeps (swap-StackKeeps i (i + 1)) (rollrev_loop-StackKeeps n (i + 1))
