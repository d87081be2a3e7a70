-- ===== src/Vm/StackOps/Only.antt =====
-- The handlers that keep or drop a part of the stack by its size: `ONLYTOPX`, `ONLYX`, `BLKDROP`,
-- `BLKDROP2` and the sequences that they stand for.
use tycho_vm.Prelude.{
  ℕ, suc, ◌+◌, ◌-◌, ◌≤◌, ◌<◌, ◌≡◌, ◌≢◌, refl, sym, ap, ◌∙◌, [], ◌∷◌, ◌++◌, reverse, length, drop,
  ok, arith, Bool, true, false, ltb, length-append, length-reverse, length-drop, drop-append,
  take-append, le→leb, >>=-ok, Action, ◌>>◌,
}
use mathlib.Core.List.{reverse-append, reverse-reverse, append_assoc, append-nil}
use tycho_vm.Prelude.Int.{ℤ, pos, ◌≤ℤ◌}
use tycho_vm.Vm.Error.{VmError}
use tycho_vm.Vm.Stack.Values.{StackValue}
use tycho_vm.Vm.Stack.Basic.{Stack, pop_many}
use tycho_vm.Vm.State.{VmState, on_stack-ok}
use tycho_vm.Vm.StackOps.Loops.{max_stack_size, truncate, done}
use tycho_vm.Vm.StackOps.Fixed.{exec_reverse, exec_blkdrop}
use tycho_vm.Vm.StackOps.Popped.{exec_only_x, exec_blkdrop2, exec_onlytop_x, only_top}
use tycho_vm.Vm.StackOps.Roll.{pop_size-ok, after_fee, consume_above_threshold-ok}
use tycho_vm.Vm.StackOps.Moves.{exec_reverse-append}
use tycho_vm.Vm.Gas.Invariant.{IsValid}

-- The state with the fee charged if the test says so.
abbrev pub fee_if : {O : Type 0} → Bool → ℕ → VmState O → VmState O
fee_if true x st = after_fee x st
fee_if false x st = st

module _ {O : Type 0} where
  -- `truncate(d)` with `d = depth - x`: the entries that the code leaves.
  exec_only_x_truncates :
      (x : ℕ) (s : Stack O) (st : VmState O)
      → x ≤ max_stack_size st.version
      → x ≤ length s
      → exec_only_x (record st { stack = StackValue.int (pos x) ∷ s })
        ≡ (ok (pos 0), record st { stack = drop x s })
  unfolding exec_only_x truncate
  exec_only_x_truncates x s st h k =
      let e : length s - (length s - x) ≡ x = omega arith in ground (arith, pop_size-ok x s st h, e)

  -- `ONLYX` with `x` on top leaves other entries than its description says (the bottom `x`), whenever `x` is not
  -- half of the entries under it, the range of the version allows `x` and there are that many.
  pub exec_only_x_differs :
      (x : ℕ) (s : Stack O) (st : VmState O)
      → x ≤ max_stack_size st.version
      → x ≤ length s
      → length s ≢ x + x
      → (exec_only_x (record st { stack = StackValue.int (pos x) ∷ s })).1.stack
        ≢ drop (length s - x) s
  exec_only_x_differs x s st h k n e =
      let f : drop x s ≡ drop (length s - x) s = rw (exec_only_x_truncates x s st h k) at e in
      n (omega (arith, ap length f, length-drop x s, length-drop (length s - x) s))

  -- `BLKDROP2 i, j` drops the `i` entries under the top `j` and nothing else.
  pub exec_blkdrop2-append :
      (i j : ℕ) (xs ys rest : Stack O) (st : VmState O)
      → length xs ≡ j
      → length ys ≡ i
      → exec_blkdrop2 i j (record st { stack = xs ++ (ys ++ rest) })
        ≡ (ok (pos 0), record st { stack = xs ++ rest })
  unfolding exec_blkdrop2
  exec_blkdrop2-append i j xs ys rest st h k =
      let all = length-append xs (ys ++ rest) in
      let tail = length-append ys rest in
      let both = length-append xs ys in
      let d = drop-append (i + j) (xs ++ ys) rest (omega arith) in
      rw (
        le→leb (i + j) (length (xs ++ (ys ++ rest))) (omega arith),
        take-append j xs (ys ++ rest) h,
        ← append_assoc xs ys rest,
        d,
      )

  -- The program that `BLKDROP2` stands for.
  abbrev pub reverse_drop_reverse : ℕ → ℕ → Action (VmState O) VmError ℤ
  reverse_drop_reverse i j = do exec_reverse (i + j) 0; exec_blkdrop i; exec_reverse j 0

  pop_many-append :
      (i : ℕ) (ys rest : Stack O) → length ys ≡ i → pop_many i (ys ++ rest) ≡ (ok tt, rest)
  unfolding pop_many
  pop_many-append i ys rest k =
      let d = length-append ys rest in
      rw (le→leb i (length (ys ++ rest)) (omega arith), drop-append i ys rest k)

  exec_blkdrop-append :
      (i : ℕ) (ys rest : Stack O) (st : VmState O)
      → length ys ≡ i
      → exec_blkdrop i (record st { stack = ys ++ rest }) ≡ (ok (pos 0), record st { stack = rest })
  unfolding exec_blkdrop
  exec_blkdrop-append i ys rest st k =
      on_stack-ok (pop_many i >> done) (record st { stack = ys ++ rest })
        (>>=-ok (pop_many i) (λ _. done) (ys ++ rest) (pop_many-append i ys rest k))

  -- `BLKDROP2 i, j` does what `REVERSE i+j, 0; BLKDROP i; REVERSE j, 0` does, wherever the
  -- stack has `i + j` entries and `j` is not zero.
  pub blkdrop2-eq-reverses :
      (i j : ℕ) (xs ys rest : Stack O) (st : VmState O)
      → length xs ≡ j
      → length ys ≡ i
      → 0 < j
      → let st0 = record st { stack = xs ++ (ys ++ rest) } in
        exec_blkdrop2 i j st0 ≡ reverse_drop_reverse i j st0
  blkdrop2-eq-reverses i j xs ys rest st h k p =
      let st0 = record st { stack = xs ++ (ys ++ rest) } in
      let st1 = record st { stack = reverse (xs ++ ys) ++ rest } in
      let st2 = record st { stack = reverse xs ++ rest } in
      let split : reverse (xs ++ ys) ++ rest ≡ reverse ys ++ (reverse xs ++ rest) =
        rw (reverse-append, append_assoc) in
      let d = length-append xs ys in
      let first =
        exec_reverse-append (i + j) 0 [] (xs ++ ys) rest st0 refl (omega arith) (omega arith)
          (sym (append_assoc xs ys rest)) in
      let second : exec_blkdrop i st1 ≡ (ok (pos 0), st2) =
        rw split
          (exec_blkdrop-append i (reverse ys) (reverse xs ++ rest) st (length-reverse ys ∙ k)) in
      let third =
        exec_reverse-append j 0 [] (reverse xs) rest st2 refl (length-reverse xs ∙ h) p refl in
      let back : reverse (reverse xs) ++ rest ≡ xs ++ rest = rw reverse-reverse in
      exec_blkdrop2-append i j xs ys rest st h k
      ∙ sym (
          >>=-ok (exec_reverse (i + j) 0) (λ _. exec_blkdrop i >> exec_reverse j 0) st0 first
          ∙ >>=-ok (exec_blkdrop i) (λ _. exec_reverse j 0) st1 second
          ∙ third
          ∙ ap (λ (t : Stack O). (ok (pos 0), record st { stack = t })) back)

  only_top_keeps :
      (x : ℕ) (xs rest : Stack O) (st : VmState O)
      → length xs ≡ x
      → IsValid st.gas
      → pos (x - 255) ≤ℤ st.gas.gas_remaining
      → only_top x (record st { stack = xs ++ rest })
        ≡ (ok (pos 0), fee_if (ltb 0 (length rest)) x (record st { stack = xs }))
  unfolding only_top truncate
  only_top_keeps x xs [] st e v h =
      let d : length (xs ++ []) - x ≡ 0 = omega (arith, length-append xs []) in
      ground (arith, d, append-nil xs)
  only_top_keeps x xs (r ∷ rest) st e v h =
      let s = xs ++ (r ∷ rest) in
      let d : length s - x ≡ suc (length rest) = omega (arith, length-append xs (r ∷ rest)) in
      let d' : length s - suc (length rest) ≡ x = omega (arith, length-append xs (r ∷ rest)) in
      let d'' : length xs - x ≡ 0 = omega arith in
      ground (
        arith,
        d,
        d',
        d'',
        take-append x xs (r ∷ rest) e,
        consume_above_threshold-ok x (record st { stack = s }) v h,
      )

  -- `ONLYTOPX` with `x` on top leaves the top `x` of the entries under it, when the range of the version allows `x`, there are that many and the gas covers the fee.
  -- The fee is charged only if there is something to drop.
  pub exec_onlytop_x_keeps :
      (x : ℕ) (xs rest : Stack O) (st : VmState O)
      → length xs ≡ x
      → x ≤ max_stack_size st.version
      → IsValid st.gas
      → pos (x - 255) ≤ℤ st.gas.gas_remaining
      → exec_onlytop_x (record st { stack = StackValue.int (pos x) ∷ (xs ++ rest) })
        ≡ (ok (pos 0), fee_if (ltb 0 (length rest)) x (record st { stack = xs }))
  unfolding exec_onlytop_x
  exec_onlytop_x_keeps x xs rest st e le v h = ground (
    arith,
    pop_size-ok x (xs ++ rest) st le,
    length-append xs rest,
    only_top_keeps x xs rest st e v h,
  )
