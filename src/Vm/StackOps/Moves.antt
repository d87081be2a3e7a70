-- ===== src/Vm/StackOps/Moves.antt =====
-- `BLKSWAP` and `REVERSE`: three reversals exchange two blocks; and the handlers that move single
-- entries, on stacks that are long enough.
use tycho_vm.Prelude.{
  ℕ, ◌+◌, ◌<◌, ◌≡◌, refl, sym, ap, ◌∙◌, [], ◌∷◌, ◌++◌, reverse, length, ok, arith, length-append,
  length-reverse, ◌>>◌, >>=-ok, Action,
}
use tycho_vm.Prelude.Int.{ℤ, pos}
use mathlib.Core.List.{reverse-append, reverse-reverse, append_assoc}
use tycho_vm.Vm.Error.{VmError}
use tycho_vm.Vm.Stack.Values.{StackValue}
use tycho_vm.Vm.Stack.Basic.{Stack, reverse_range, pop, exchange, max_depth}
use tycho_vm.Vm.Stack.Order.{reverse_range_lem, swap-ok, push_nth-ok}
use tycho_vm.Vm.State.{VmState, on_stack-ok}
use tycho_vm.Vm.StackOps.Loops.{done}
use tycho_vm.Vm.StackOps.Fixed.{
  exec_blkswap, exec_reverse, exec_rot, exec_rotrev, exec_2swap, exec_nip, exec_tuck, exec_2dup,
  exec_2over,
}

module _ {O : Type 0} where
  abbrev three_reversals : ℕ → ℕ → Action (Stack O) VmError ℤ
  three_reversals i j = do reverse_range j i; reverse_range 0 j; reverse_range 0 (i + j); done

  -- The three reversals, on the stack alone.
  pub reverse_thrice :
      (i j : ℕ) (xs ys rest : Stack O) (s : Stack O)
      → length xs ≡ j
      → length ys ≡ i
      → 0 < i
      → 0 < j
      → s ≡ xs ++ (ys ++ rest)
      → three_reversals i j s ≡ (ok (pos 0), ys ++ (xs ++ rest))
  reverse_thrice i j xs ys rest s h k p q e =
      let first = reverse_range_lem j i xs ys rest h k p in
      let second = reverse_range_lem 0 j [] xs (reverse ys ++ rest) refl h q in
      let d = length-append (reverse xs) (reverse ys) in
      let third =
        reverse_range_lem 0 (i + j) [] (reverse xs ++ reverse ys) rest refl
          (omega (arith, length-reverse xs, length-reverse ys)) (omega arith) in
      let regroup : reverse xs ++ (reverse ys ++ rest) ≡ (reverse xs ++ reverse ys) ++ rest =
        sym (append_assoc (reverse xs) (reverse ys) rest) in
      let back : reverse (reverse xs ++ reverse ys) ++ rest ≡ ys ++ (xs ++ rest) =
        rw (reverse-append, reverse-reverse, reverse-reverse, append_assoc) in
      rw e (
        >>=-ok (reverse_range j i) (λ _. reverse_range 0 j >> (reverse_range 0 (i + j) >> done))
          (xs ++ (ys ++ rest)) first
        ∙ >>=-ok (reverse_range 0 j) (λ _. reverse_range 0 (i + j) >> done)
            (xs ++ (reverse ys ++ rest)) second
        ∙ rw regroup (
            >>=-ok (reverse_range 0 (i + j)) (λ _. done) ((reverse xs ++ reverse ys) ++ rest) third)
        ∙ ap (λ (t : Stack O). (ok (pos 0), t)) back)

  -- `BLKSWAP i, j` exchanges the top `j` entries with the `i` under them; neither block is empty,
  -- since the opcode counts from one. The order within the blocks, the rest of the stack and the
  -- rest of the state stay.
  pub exec_blkswap-append :
      (i j : ℕ) (xs ys rest : Stack O) (st : VmState O)
      → length xs ≡ j
      → length ys ≡ i
      → 0 < i
      → 0 < j
      → st.stack ≡ xs ++ (ys ++ rest)
      → exec_blkswap i j st ≡ (ok (pos 0), record st { stack = ys ++ (xs ++ rest) })
  unfolding exec_blkswap
  exec_blkswap-append i j xs ys rest st h k p q e =
      on_stack-ok (three_reversals i j) st (reverse_thrice i j xs ys rest st.stack h k p q e)

  pub exec_reverse-append :
      (i j : ℕ) (xs ys rest : Stack O) (st : VmState O)
      → length xs ≡ j
      → length ys ≡ i
      → 0 < i
      → st.stack ≡ xs ++ (ys ++ rest)
      → exec_reverse i j st ≡ (ok (pos 0), record st { stack = xs ++ (reverse ys ++ rest) })
  unfolding exec_reverse
  exec_reverse-append i j xs ys rest st h k p e = on_stack-ok (reverse_range j i >> done) st (
      rw e (
        >>=-ok (reverse_range j i) (λ _. done) (xs ++ (ys ++ rest))
          (reverse_range_lem j i xs ys rest h k p)))

  -- `REVERSE i, j` twice restores the state, where the stack has the `i` entries under the top `j`.
  pub exec_reverse_twice :
      (i j : ℕ) (xs ys rest : Stack O) (st : VmState O)
      → length xs ≡ j
      → length ys ≡ i
      → 0 < i
      → st.stack ≡ xs ++ (ys ++ rest)
      → (exec_reverse i j >> exec_reverse i j) st ≡ (ok (pos 0), st)
  exec_reverse_twice i j xs ys rest st h k p e =
      let back : xs ++ (reverse (reverse ys) ++ rest) ≡ st.stack = rw (reverse-reverse, e) in
      >>=-ok (exec_reverse i j) (λ _. exec_reverse i j) st
        (exec_reverse-append i j xs ys rest st h k p e)
      ∙ exec_reverse-append i j xs (reverse ys) rest
          (record st { stack = xs ++ (reverse ys ++ rest) }) h (length-reverse ys ∙ k) p refl
      ∙ ap (λ (t : Stack O). (ok (pos 0), record st { stack = t })) back

  -- The handlers that move single entries, on a stack with entries `a b c d` from the top and room for
  -- two more. `ROT` brings the third entry to the top and `ROTREV` takes the top entry to the third
  -- place; `2SWAP` exchanges the two top pairs; `NIP` drops the second entry and `TUCK` copies the top
  -- entry under the second; `2DUP` and `2OVER` copy the first and the second pair to the top.
  pub moves_lem :
      (a b c d : StackValue O) (rest : Stack O) (st : VmState O)
      → length rest + 6 < max_depth
      → let on : Stack O → VmState O = λ s. record st { stack = s } in
        let st0 = on (a ∷ b ∷ c ∷ d ∷ rest) in
        (exec_rot st0 ≡ (ok (pos 0), on (c ∷ a ∷ b ∷ d ∷ rest)))
        × (exec_rotrev st0 ≡ (ok (pos 0), on (b ∷ c ∷ a ∷ d ∷ rest)))
        × (exec_2swap st0 ≡ (ok (pos 0), on (c ∷ d ∷ a ∷ b ∷ rest)))
        × (exec_nip st0 ≡ (ok (pos 0), on (a ∷ c ∷ d ∷ rest)))
        × (exec_tuck st0 ≡ (ok (pos 0), on (a ∷ b ∷ a ∷ c ∷ d ∷ rest)))
        × (exec_2dup st0 ≡ (ok (pos 0), on (a ∷ b ∷ a ∷ b ∷ c ∷ d ∷ rest)))
        × (exec_2over st0 ≡ (ok (pos 0), on (c ∷ d ∷ a ∷ b ∷ c ∷ d ∷ rest)))
  unfolding exec_rot exec_rotrev exec_2swap exec_nip exec_tuck exec_2dup exec_2over exchange pop
  moves_lem a b c d rest st h =
      let s0 = a ∷ b ∷ c ∷ d ∷ rest in
      (
        ground (
          arith,
          swap-ok 1 2 s0 (omega arith) (omega arith),
          swap-ok 0 1 (a ∷ c ∷ b ∷ d ∷ rest) (omega arith) (omega arith),
        ),
        ground (
          arith,
          swap-ok 0 1 s0 (omega arith) (omega arith),
          swap-ok 1 2 (b ∷ a ∷ c ∷ d ∷ rest) (omega arith) (omega arith),
        ),
        ground (
          arith,
          swap-ok 1 3 s0 (omega arith) (omega arith),
          swap-ok 0 2 (a ∷ d ∷ c ∷ b ∷ rest) (omega arith) (omega arith),
        ),
        ground (arith, swap-ok 0 1 s0 (omega arith) (omega arith)),
        ground (
          arith,
          swap-ok 0 1 s0 (omega arith) (omega arith),
          push_nth-ok 1 (b ∷ a ∷ c ∷ d ∷ rest) (omega arith) (omega arith),
        ),
        ground (
          arith,
          push_nth-ok 1 s0 (omega arith) (omega arith),
          push_nth-ok 1 (b ∷ s0) (omega arith) (omega arith),
        ),
        ground (
          arith,
          push_nth-ok 3 s0 (omega arith) (omega arith),
          push_nth-ok 3 (d ∷ s0) (omega arith) (omega arith),
        ),
      )
