-- ===== src/Vm/TupleOps/Update.antt =====
-- What an update leaves of an entry of a tuple (vm/src/instr/tupleops.rs, `tuple_set_index_quiet_impl`).
use tycho_vm.Prelude.{
  ℕ, zero, suc, ◌+◌, ◌-◌, ◌≤◌, ◌<◌, ◌≡◌, refl, ap, ◌∙◌, arith, Bool, true, false, Option, none,
  some, List, [], ◌∷◌, ◌++◌, replicate, length-replicate, get_elem?, get_elem?-set_self, set,
  length, length-append, length-set, ltb, if◌then◌else◌,
}
use tycho_vm.Vm.Stack.Values.{StackValue, Tuple, values, tuple_of, tuple_length, is_null}
use tycho_vm.Vm.TupleOps.Parts.{updated_items, opt_get}
use tycho_vm.Vm.TupleOps.Pack.{values-tuple_of, tuple_length-tuple_of}

module _ {O : Type 0} where
  -- At most 255 entries, if there is a tuple.
  abbrev pub IsShort : Option (Tuple O) → Type 0
  IsShort none = Unit {0}
  IsShort (some t) = tuple_length t ≤ 255

  -- What an update leaves of entry `i`: the value, or nothing where the value is null.
  pub data Holds (i : ℕ) (x : StackValue O) (t : Option (Tuple O)) : Type 0 where
    entry : opt_get t i ≡ some x → Holds i x t
    absent : x ≡ StackValue.null → opt_get t i ≡ none → Holds i x t

  pub length-values : (t : Tuple O) → length (values t) ≡ tuple_length t
  unfolding values tuple_length
  length-values Tuple.nil = refl
  length-values (Tuple.cons x t) = ap suc (length-values t)

  pub get_elem?-beyond : (xs : List (StackValue O)) (i : ℕ) → length xs ≤ i → get_elem? xs i ≡ none
  get_elem?-beyond [] i h = refl
  get_elem?-beyond (x ∷ xs) zero h = ground arith
  get_elem?-beyond (x ∷ xs) (suc i) h = get_elem?-beyond xs i (omega arith)

  pub is_null_lem : (x : StackValue O) → is_null x ≡ true → x ≡ StackValue.null
  unfolding is_null
  is_null_lem x h = ground arith

  -- A list with the entry set, as a tuple.
  pub set-Holds :
      (xs : List (StackValue O)) (i : ℕ) (x : StackValue O)
      → i < length xs
      → Holds i x (some (tuple_of (set xs i x)))
  unfolding opt_get
  set-Holds xs i x h =
      entry (ap (λ ys. get_elem? ys i) (values-tuple_of (set xs i x)) ∙ get_elem?-set_self xs i x h)

  pub set-IsShort :
      (xs : List (StackValue O)) (i : ℕ) (x : StackValue O)
      → length xs ≤ 255
      → IsShort (some (tuple_of (set xs i x)))
  set-IsShort xs i x h = omega (arith, tuple_length-tuple_of (set xs i x), length-set xs i x)

  -- An update that leaves the entry, and no more than 255 of them.
  abbrev pub Keeps : ℕ → StackValue O → Option (Tuple O) × ℕ → Type 0
  Keeps i x p = Holds i x p.0 × IsShort p.0

  pub set-Keeps :
      (xs : List (StackValue O)) (i n : ℕ) (x : StackValue O)
      → i < length xs
      → length xs ≤ 255
      → Keeps i x (some (tuple_of (set xs i x)), n)
  set-Keeps xs i n x h k = (set-Holds xs i x h, set-IsShort xs i x k)

  pub updated_items-Keeps :
      (i : ℕ) (x : StackValue O) (t : Option (Tuple O))
      → i < 255
      → IsShort t
      → Keeps i x (updated_items i x t)
  unfolding updated_items opt_get
  updated_items-Keeps i x none h short = go (is_null x) refl
    where
      filled : List (StackValue O)
      filled = replicate (i + 1) StackValue.null

      size : length filled ≡ i + 1
      size = length-replicate (i + 1) StackValue.null

      go :
          (b : Bool)
          → is_null x ≡ b
          → Keeps i x (if b then (none, 0) else (some (tuple_of (set filled i x)), i + 1))
      go true e = (absent (is_null_lem x e) refl, tt)
      go false e = set-Keeps filled i (i + 1) x (omega (arith, size)) (omega (arith, size))
  updated_items-Keeps i x (some t) h short = go (ltb i (tuple_length t)) (is_null x) refl refl
    where
      filled : List (StackValue O)
      filled = values t ++ replicate (i + 1 - tuple_length t) StackValue.null

      size : length filled ≡ tuple_length t + (i + 1 - tuple_length t)
      size = omega (
        arith,
        length-append (values t) (replicate (i + 1 - tuple_length t) StackValue.null),
        length-replicate {A = StackValue O} (i + 1 - tuple_length t) StackValue.null,
        length-values t,
      )

      go :
          (b c : Bool)
          → ltb i (tuple_length t) ≡ b
          → is_null x ≡ c
          → Keeps i x (
              if b
              then (some (tuple_of (set (values t) i x)), tuple_length t)
              else if c
              then (some t, 0)
              else (some (tuple_of (set filled i x)), i + 1))
      go true c e f =
          let inside : i < tuple_length t = ground (arith, e) in
          set-Keeps (values t) i (tuple_length t) x (omega (arith, length-values t))
            (omega (arith, length-values t, short))
      go false true e f =
          let beyond : tuple_length t ≤ i = ground (arith, e) in
          (
            absent (is_null_lem x f)
                (get_elem?-beyond (values t) i (omega (arith, length-values t))),
            short,
          )
      go false false e f =
          let beyond : tuple_length t ≤ i = ground (arith, e) in
          set-Keeps filled i (i + 1) x (omega (arith, size)) (omega (arith, size))
