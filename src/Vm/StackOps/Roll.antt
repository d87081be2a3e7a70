-- ===== src/Vm/StackOps/Roll.antt =====
-- `ROLL` and `ROLLREV`: their loops of neighbour swaps move one entry across the others.
use tycho_vm.Prelude.{
  ℕ, zero, suc, ◌+◌, ◌-◌, ◌>>◌, ◌≤◌, ◌<◌, ◌≡◌, refl, ap, ◌∙◌, [], ◌∷◌, ◌++◌, reverse, length, ok,
  arith, length-append, length-reverse, >>=-ok,
}
use mathlib.Core.List.{reverse-reverse, append_assoc, reverse-cons}
use tycho_vm.Vm.Stack.Values.{StackValue}
use tycho_vm.Vm.Stack.Basic.{Stack, swap}
use tycho_vm.Vm.Stack.Order.{swap_next, swap_prev}
use tycho_vm.Vm.StackOps.Loops.{
  roll_loop, rollrev_loop, pop_size, consume_above_threshold, max_stack_size, done,
}
use tycho_vm.Vm.StackOps.Popped.{exec_roll, exec_rollrev}
use tycho_vm.Vm.State.{VmState, consume, on_stack, on_stack-ok}
use tycho_vm.Vm.Stack.Typed.{pop_smallint_range}
use tycho_vm.Prelude.Int.{pos, ◌≤ℤ◌, ◌-ℤ◌}
use tycho_vm.Vm.Gas.{try_consume}
use tycho_vm.Vm.Gas.Invariant.{IsValid}

module _ {O : Type 0} where
  roll_loop-reverse :
      (q : Stack O) (a : StackValue O) (rest : Stack O)
      → roll_loop (length q) (reverse q ++ (a ∷ rest)) ≡ (ok tt, a ∷ (reverse q ++ rest))
  unfolding roll_loop
  roll_loop-reverse [] a rest = refl
  roll_loop-reverse (b ∷ q) a rest =
      rw
        (
          reverse-cons b q,
          append_assoc (reverse q) (b ∷ []) (a ∷ rest),
          append_assoc (reverse q) (b ∷ []) rest,
        )
        (>>=-ok (swap (suc (length q)) (length q)) (λ _. roll_loop (length q)) _
            (swap_prev (length q) (suc (length q)) (reverse q) b a rest (length-reverse q) refl)
          ∙ roll_loop-reverse q a (b ∷ rest))

  -- The loop of `ROLL` on `n` brings the entry under the top `n` entries to the top and leaves the order of the others.
  pub roll_loop_lem :
      (p : Stack O) (a : StackValue O) (rest : Stack O)
      → roll_loop (length p) (p ++ (a ∷ rest)) ≡ (ok tt, a ∷ (p ++ rest))
  roll_loop_lem p a rest =
      let r = roll_loop-reverse (reverse p) a rest in rw (reverse-reverse p, length-reverse p) at r

  pub rollrev_loop_lem :
      (p q : Stack O) (a : StackValue O) (rest : Stack O) (i : ℕ)
      → length p ≡ i
      → rollrev_loop (length q) i (p ++ (a ∷ (q ++ rest))) ≡ (ok tt, p ++ (q ++ (a ∷ rest)))
  unfolding rollrev_loop
  rollrev_loop_lem p [] a rest i h = refl
  rollrev_loop_lem p (b ∷ q) a rest i h =
      let step =
        >>=-ok (swap i (i + 1)) (λ _. rollrev_loop (length q) (i + 1)) _
          (swap_next i (i + 1) p a b (q ++ rest) h (omega arith)) in
      let d = length-append p (b ∷ []) in
      let ih = rollrev_loop_lem (p ++ (b ∷ [])) q a rest (i + 1) (omega arith) in
      step
      ∙ (rw (append_assoc p (b ∷ []) (a ∷ (q ++ rest)), append_assoc p (b ∷ []) (q ++ (a ∷ rest)))
          at ih)

  -- The gas after a fee for `x` moved entries: one unit for each over 255.
  abbrev pub after_fee : ℕ → VmState O → VmState O
  after_fee x st =
      let gas = st.gas in
      record st { gas = record gas { gas_remaining = gas.gas_remaining -ℤ pos (x - 255) } }

  pub consume_above_threshold-ok :
      (x : ℕ) (st : VmState O)
      → IsValid st.gas
      → pos (x - 255) ≤ℤ st.gas.gas_remaining
      → consume_above_threshold x st ≡ (ok tt, after_fee x st)
  unfolding consume_above_threshold consume try_consume ◌-ℤ◌
  consume_above_threshold-ok x st v h = ground arith

  pub pop_size-ok :
      (x : ℕ) (s : Stack O) (st : VmState O)
      → x ≤ max_stack_size st.version
      → pop_size (record st { stack = StackValue.int (pos x) ∷ s })
        ≡ (ok x, record st { stack = s })
  unfolding pop_size pop_smallint_range
  pop_size-ok x s st h = ground arith

  -- `ROLL` with `x` on top, in the range that the version allows and with gas for one unit per entry over 255:
  -- the entry under the `x` next entries comes to the top, the others keep their order.
  pub exec_roll_lem :
      (x : ℕ) (p : Stack O) (a : StackValue O) (rest : Stack O) (st : VmState O)
      → length p ≡ x
      → x ≤ max_stack_size st.version
      → IsValid st.gas
      → pos (x - 255) ≤ℤ st.gas.gas_remaining
      → exec_roll (record st { stack = StackValue.int (pos x) ∷ (p ++ (a ∷ rest)) })
        ≡ (ok (pos 0), after_fee x (record st { stack = a ∷ (p ++ rest) }))
  unfolding exec_roll
  exec_roll_lem x p a rest st e le v h =
      let st1 = record st { stack = p ++ (a ∷ rest) } in
      >>=-ok pop_size (λ i. consume_above_threshold i >> on_stack (roll_loop i >> done)) _
        (pop_size-ok x (p ++ (a ∷ rest)) st le)
      ∙ >>=-ok (consume_above_threshold x) (λ _. on_stack (roll_loop x >> done)) st1
          (consume_above_threshold-ok x st1 v h)
      ∙ on_stack-ok (roll_loop x >> done) (after_fee x st1)
          (>>=-ok (roll_loop x) (λ _. done) (p ++ (a ∷ rest)) (rw (← e) (roll_loop_lem p a rest)))

  -- `ROLLREV` under the same conditions: the top entry goes under the next `x` entries.
  pub exec_rollrev_lem :
      (x : ℕ) (p : Stack O) (a : StackValue O) (rest : Stack O) (st : VmState O)
      → length p ≡ x
      → x ≤ max_stack_size st.version
      → IsValid st.gas
      → pos (x - 255) ≤ℤ st.gas.gas_remaining
      → exec_rollrev (record st { stack = StackValue.int (pos x) ∷ (a ∷ (p ++ rest)) })
        ≡ (ok (pos 0), after_fee x (record st { stack = p ++ (a ∷ rest) }))
  unfolding exec_rollrev
  exec_rollrev_lem x p a rest st e le v h =
      let st1 = record st { stack = a ∷ (p ++ rest) } in
      >>=-ok pop_size (λ i. consume_above_threshold i >> on_stack (rollrev_loop i 0 >> done)) _
        (pop_size-ok x (a ∷ (p ++ rest)) st le)
      ∙ >>=-ok (consume_above_threshold x) (λ _. on_stack (rollrev_loop x 0 >> done)) st1
          (consume_above_threshold-ok x st1 v h)
      ∙ on_stack-ok (rollrev_loop x 0 >> done) (after_fee x st1) (
          >>=-ok (rollrev_loop x 0) (λ _. done) (a ∷ (p ++ rest))
            (rw (← e) (rollrev_loop_lem [] p a rest 0 refl)))

  -- A stack, cut at one of its entries.
  record Cut (x : ℕ) (s : Stack O) : Type 0 where
    above : Stack O
    entry : StackValue O
    below : Stack O
    size : length above ≡ x
    whole : above ++ (entry ∷ below) ≡ s

  cut : (x : ℕ) (s : Stack O) → x < length s → Cut x s
  cut x [] h = absurd (omega arith)
  cut zero (a ∷ s) h = record { above = []; entry = a; below = s; size = refl; whole = refl }
  cut (suc x) (a ∷ s) h =
      let c = cut x s (omega arith) in
      record {
        above = a ∷ c.above;
        entry = c.entry;
        below = c.below;
        size = ap suc c.size;
        whole = ap (λ t. a ∷ t) c.whole;
      }

  after_fee-enough :
      (x : ℕ) (st : VmState O)
      → IsValid st.gas
      → pos ((x - 255) + (x - 255)) ≤ℤ st.gas.gas_remaining
      → IsValid (after_fee x st).gas × (pos (x - 255) ≤ℤ (after_fee x st).gas.gas_remaining)
  unfolding ◌-ℤ◌
  after_fee-enough x st v h = ground arith

  -- `ROLLREV` undoes `ROLL`: with `x` on top of a stack of more than `x` entries, in the range that the version allows, and gas for both fees, `ROLL`
  -- and then `ROLLREV` with the same `x` leave the stack as it was under the `x`, and nothing changes
  -- but the gas.
  pub exec_roll-exec_rollrev :
      (x : ℕ) (s : Stack O) (st : VmState O)
      → x < length s
      → x ≤ max_stack_size st.version
      → IsValid st.gas
      → pos ((x - 255) + (x - 255)) ≤ℤ st.gas.gas_remaining
      → let rolled = (exec_roll (record st { stack = StackValue.int (pos x) ∷ s })).1 in
        ((exec_roll (record st { stack = StackValue.int (pos x) ∷ s })).0 ≡ ok (pos 0))
        × (exec_rollrev (record rolled { stack = StackValue.int (pos x) ∷ rolled.stack })
            ≡ (ok (pos 0), after_fee x (after_fee x (record st { stack = s }))))
  exec_roll-exec_rollrev x s st lt le v h =
      let c = cut x s lt in
      let first = exec_roll_lem x c.above c.entry c.below st c.size le v (omega arith) in
      let (v', h') = after_fee-enough x st v h in
      let again : VmState O → VmState O =
        λ t. record t { stack = StackValue.int (pos x) ∷ t.stack } in
      let second = exec_rollrev_lem x c.above c.entry c.below (after_fee x st) c.size le v' h' in
      (
        rw c.whole at (ap (λ r. r.0) first),
        rw c.whole at (ap (λ r. exec_rollrev (again r.1)) first ∙ second),
      )
