-- ===== src/Vm/TupleOps/Short.antt =====
-- Values whose tuples, at any depth, have at most 255 entries (vm/src/instr/tupleops.rs).
use tycho_vm.Prelude.{
  ℕ, zero, suc, ◌≤◌, Option, none, some, List, [], ◌∷◌, ◌++◌, reverse, replicate, get_elem?, get_or,
  set, take, drop,
}
use mathlib.Core.List.{reverse_aux}
use tycho_vm.Vm.Stack.Values.{StackValue, Tuple, values, tuple_of, tuple_length}

unfoldable mutual
  pub IsShort : {O : Type 0} → StackValue O → Type 0
  IsShort (StackValue.tuple t) = (tuple_length t ≤ 255) × AreShort t
  IsShort _ = Unit {0}

  pub AreShort : {O : Type 0} → Tuple O → Type 0
  AreShort Tuple.nil = Unit {0}
  AreShort (Tuple.cons x t) = IsShort x × AreShort t

module _ {O : Type 0} where
  abbrev pub AllShort : List (StackValue O) → Type 0
  AllShort [] = Unit {0}
  AllShort (x ∷ xs) = IsShort x × AllShort xs

  pub values-AllShort : (t : Tuple O) → AreShort t → AllShort (values t)
  unfolding values AreShort
  values-AllShort Tuple.nil h = tt
  values-AllShort (Tuple.cons x t) h = (h.0, values-AllShort t h.1)

  pub tuple_of-AreShort : (xs : List (StackValue O)) → AllShort xs → AreShort (tuple_of xs)
  unfolding tuple_of AreShort
  tuple_of-AreShort [] h = tt
  tuple_of-AreShort (x ∷ xs) h = (h.0, tuple_of-AreShort xs h.1)

  pub append-AllShort :
      (xs ys : List (StackValue O)) → AllShort xs → AllShort ys → AllShort (xs ++ ys)
  append-AllShort [] ys h k = k
  append-AllShort (x ∷ xs) ys h k = (h.0, append-AllShort xs ys h.1 k)

  reverse_aux-AllShort :
      (xs ys : List (StackValue O)) → AllShort xs → AllShort ys → AllShort (reverse_aux xs ys)
  reverse_aux-AllShort [] ys h k = k
  reverse_aux-AllShort (x ∷ xs) ys h k = reverse_aux-AllShort xs (x ∷ ys) h.1 (h.0, k)

  pub reverse-AllShort : (xs : List (StackValue O)) → AllShort xs → AllShort (reverse xs)
  reverse-AllShort xs h = reverse_aux-AllShort xs [] h tt

  pub take-AllShort : (n : ℕ) (xs : List (StackValue O)) → AllShort xs → AllShort (take n xs)
  take-AllShort zero xs h = tt
  take-AllShort (suc n) [] h = tt
  take-AllShort (suc n) (x ∷ xs) h = (h.0, take-AllShort n xs h.1)

  pub drop-AllShort : (n : ℕ) (xs : List (StackValue O)) → AllShort xs → AllShort (drop n xs)
  drop-AllShort zero xs h = h
  drop-AllShort (suc n) [] h = tt
  drop-AllShort (suc n) (x ∷ xs) h = drop-AllShort n xs h.1

  pub set-AllShort :
      (xs : List (StackValue O)) (i : ℕ) (v : StackValue O)
      → AllShort xs
      → IsShort v
      → AllShort (set xs i v)
  set-AllShort [] i v h k = tt
  set-AllShort (x ∷ xs) zero v h k = (k, h.1)
  set-AllShort (x ∷ xs) (suc i) v h k = (h.0, set-AllShort xs i v h.1 k)

  pub get_or-IsShort :
      (xs : List (StackValue O)) (i : ℕ) (v : StackValue O)
      → AllShort xs
      → IsShort v
      → IsShort (get_or xs i v)
  get_or-IsShort [] i v h k = k
  get_or-IsShort (x ∷ xs) zero v h k = h.0
  get_or-IsShort (x ∷ xs) (suc i) v h k = get_or-IsShort xs i v h.1 k

  pub replicate-AllShort : (n : ℕ) (v : StackValue O) → IsShort v → AllShort (replicate n v)
  replicate-AllShort zero v h = tt
  replicate-AllShort (suc n) v h = (h, replicate-AllShort n v h)

  -- A value that was found.
  abbrev pub IfShort : Option (StackValue O) → Type 0
  IfShort (some v) = IsShort v
  IfShort none = Unit {0}

  pub get_elem?-IfShort :
      (xs : List (StackValue O)) (i : ℕ) → AllShort xs → IfShort (get_elem? xs i)
  get_elem?-IfShort [] i h = tt
  get_elem?-IfShort (x ∷ xs) zero h = h.0
  get_elem?-IfShort (x ∷ xs) (suc i) h = get_elem?-IfShort xs i h.1
