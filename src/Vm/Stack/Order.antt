-- ===== src/Vm/Stack/Order.antt =====
-- What `reverse_range` and `swap` do to a stack that is written as its parts.
use tycho_vm.Prelude.{
  ℕ, zero, suc, ◌+◌, ◌<◌, ◌≡◌, refl, ap, ◌∙◌, [], ◌∷◌, ◌++◌, reverse, length, get_or, set, ok,
  arith, length-append, take-append, drop-append, le→leb, lt→ltb, length-set, get_or-set_self,
  set-set, set-get_or,
}
use tycho_vm.Vm.Stack.Values.{StackValue}
use tycho_vm.Vm.Stack.Basic.{
  Stack, swap, exchange, reverse_range, reverse_part, push_nth, max_depth,
}

module _ {O : Type 0} where
  reverse_part_lem :
      (i j : ℕ) (xs ys rest : Stack O)
      → length xs ≡ i
      → length ys ≡ j
      → reverse_part i j (xs ++ (ys ++ rest)) ≡ xs ++ (reverse ys ++ rest)
  unfolding reverse_part
  reverse_part_lem i j xs ys rest h k = rw (
    take-append i xs (ys ++ rest) h,
    drop-append i xs (ys ++ rest) h,
    take-append j ys rest k,
    drop-append j ys rest k,
  )

  -- The second part is turned round, if there is one.
  pub reverse_range_lem :
      (i j : ℕ) (xs ys rest : Stack O)
      → length xs ≡ i
      → length ys ≡ j
      → 0 < j
      → reverse_range i j (xs ++ (ys ++ rest)) ≡ (ok tt, xs ++ (reverse ys ++ rest))
  unfolding reverse_range
  reverse_range_lem i j xs ys rest h k p =
      let d = length-append xs (ys ++ rest) in
      let e = length-append ys rest in
      rw (
        lt→ltb i (length (xs ++ (ys ++ rest))) (omega arith),
        le→leb (i + j) (length (xs ++ (ys ++ rest))) (omega arith),
        reverse_part_lem i j xs ys rest h k,
      )

  exchange_next :
      (p : Stack O) (a b : StackValue O) (rest : Stack O)
      → exchange (length p) (suc (length p)) (p ++ (a ∷ b ∷ rest)) ≡ p ++ (b ∷ a ∷ rest)
  unfolding exchange
  exchange_next [] a b rest = refl
  exchange_next (x ∷ p) a b rest = ap (◌∷◌ x) (exchange_next p a b rest)

  pub swap_next :
      (i j : ℕ) (p : Stack O) (a b : StackValue O) (rest : Stack O)
      → length p ≡ i
      → j ≡ suc i
      → swap i j (p ++ (a ∷ b ∷ rest)) ≡ (ok tt, p ++ (b ∷ a ∷ rest))
  unfolding swap
  swap_next i j p a b rest h k =
      let d = length-append p (a ∷ b ∷ rest) in
      rw (
        k,
        ← h,
        lt→ltb (length p) (length (p ++ (a ∷ b ∷ rest))) (omega arith),
        lt→ltb (suc (length p)) (length (p ++ (a ∷ b ∷ rest))) (omega arith),
        exchange_next p a b rest,
      )

  exchange_prev :
      (p : Stack O) (a b : StackValue O) (rest : Stack O)
      → exchange (suc (length p)) (length p) (p ++ (a ∷ b ∷ rest)) ≡ p ++ (b ∷ a ∷ rest)
  unfolding exchange
  exchange_prev [] a b rest = refl
  exchange_prev (x ∷ p) a b rest = ap (◌∷◌ x) (exchange_prev p a b rest)

  pub swap_prev :
      (i j : ℕ) (p : Stack O) (a b : StackValue O) (rest : Stack O)
      → length p ≡ i
      → j ≡ suc i
      → swap j i (p ++ (a ∷ b ∷ rest)) ≡ (ok tt, p ++ (b ∷ a ∷ rest))
  unfolding swap
  swap_prev i j p a b rest h k =
      let d = length-append p (a ∷ b ∷ rest) in
      rw (
        k,
        ← h,
        lt→ltb (suc (length p)) (length (p ++ (a ∷ b ∷ rest))) (omega arith),
        lt→ltb (length p) (length (p ++ (a ∷ b ∷ rest))) (omega arith),
        exchange_prev p a b rest,
      )

  -- Exchanging twice restores the stack, in whatever order the indices are given.
  exchange_twice :
      (i j : ℕ) (s : Stack O) → i < length s → j < length s → exchange i j (exchange i j s) ≡ s
  unfolding exchange
  exchange_twice i j [] h k = absurd (omega arith)
  exchange_twice zero zero (x ∷ s) h k = refl
  exchange_twice zero (suc j) (x ∷ s) h k = rw (
    get_or-set_self s j x StackValue.null (omega arith),
    set-set s j x (get_or s j StackValue.null),
    set-get_or s j StackValue.null,
  )
  exchange_twice (suc i) zero (x ∷ s) h k = rw (
    get_or-set_self s i x StackValue.null (omega arith),
    set-set s i x (get_or s i StackValue.null),
    set-get_or s i StackValue.null,
  )
  exchange_twice (suc i) (suc j) (x ∷ s) h k =
      ap (◌∷◌ x) (exchange_twice i j s (omega arith) (omega arith))

  pub swap-ok :
      (i j : ℕ) (s : Stack O) → i < length s → j < length s → swap i j s ≡ (ok tt, exchange i j s)
  unfolding swap
  swap-ok i j s h k = rw (lt→ltb i (length s) h, lt→ltb j (length s) k)

  pub push_nth-ok :
      (i : ℕ) (s : Stack O)
      → i < length s
      → length s + 1 < max_depth
      → push_nth i s ≡ (ok tt, get_or s i StackValue.null ∷ s)
  unfolding push_nth
  push_nth-ok i s h k = rw (lt→ltb i (length s) h, lt→ltb (length s + 1) max_depth k)

  -- Exchanging twice on the stack itself.
  pub swap_twice :
      (i j : ℕ) (s : Stack O) → i < length s → j < length s → swap i j (exchange i j s) ≡ (ok tt, s)
  unfolding exchange
  swap_twice i j s h k =
      let e = length-set s i (get_or s j StackValue.null) in
      let f = length-set (set s i (get_or s j StackValue.null)) j (get_or s i StackValue.null) in
      swap-ok i j (exchange i j s) (omega arith) (omega arith)
      ∙ ap (λ (t : Stack O). (ok tt, t)) (exchange_twice i j s h k)
