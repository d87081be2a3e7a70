-- ===== src/Vm/TupleOps/ShortStack.antt =====
-- The stack methods that the tuple instructions use, on short values (vm/src/stack.rs).
use tycho_vm.Prelude.{
  ℕ, ◌≤◌, ◌≡◌, refl, arith, Bool, true, false, ◌&&◌, leb, ltb, Option, none, some, List, [], ◌∷◌,
  length, length-take, get_or, set, take, drop, if◌then◌else◌, Result, ok, err, Action, ◌>>=◌, lift,
  pure,
}
use tycho_vm.Prelude.Safe.{Safe, Any, OnOk, keeping, bind-Safe, lift-Safe}
use tycho_vm.Vm.Error.{VmError, StackValueType}
use tycho_vm.Vm.Stack.Values.{StackValue, Tuple, tuple_length, into_tuple, is_null, wrong_type}
use tycho_vm.Vm.Stack.Basic.{Stack, max_depth, push_raw, pop, split_top, swap, exchange}
use tycho_vm.Vm.Stack.Typed.{pop_tuple, pop_tuple_range, pop_opt_tuple_range, length_in}
use tycho_vm.Vm.State.{VmState, on_stack}
use tycho_vm.Vm.TupleOps.Short.{
  IsShort, AreShort, AllShort, take-AllShort, drop-AllShort, set-AllShort, get_or-IsShort,
}

module _ {O : Type 0} where
  pub push_raw-Safe : (v : StackValue O) → IsShort v → Safe AllShort Any (push_raw v)
  unfolding push_raw
  push_raw-Safe v f = keeping (λ s h. pushed s h (ltb (length s) max_depth))
    where
      pushed :
          (s : Stack O)
          → AllShort s
          → (b : Bool)
          → AllShort (
              let x : Result VmError (Unit {0}) × Stack O =
                if b then (ok tt, v ∷ s) else (err (VmError.stack_underflow max_depth), s) in
              x.1)
      pushed s h true = (f, h)
      pushed s h false = h

  pub pop-Safe : Safe AllShort (IsShort {O = O}) pop
  unfolding pop
  pop-Safe = record {
    keeps = elim [ [] ↦ λ h. h | v ∷ s ↦ λ h. h.1 ];
    yields = elim [ [] ↦ λ h. tt | v ∷ s ↦ λ h. h.0 ];
  }

  -- At most `n` short values.
  abbrev pub IsTop : ℕ → List (StackValue O) → Type 0
  IsTop n xs = AllShort xs × (length xs ≤ n)

  pub split_top-Safe : (n : ℕ) → Safe AllShort (IsTop n) (split_top n)
  unfolding split_top
  split_top-Safe n = record {
    keeps = λ s h. (split s h (leb n (length s))).0;
    yields = λ s h. (split s h (leb n (length s))).1;
  }
    where
      split :
          (s : Stack O)
          → AllShort s
          → (b : Bool)
          → let x : Result VmError (Stack O) × Stack O =
              if b then (ok (take n s), drop n s) else (err (VmError.stack_underflow n), s) in
            AllShort x.1 × OnOk (IsTop n) x.0
      split s h true = (drop-AllShort n s h, (take-AllShort n s h, omega (arith, length-take n s)))
      split s h false = (h, tt)

  -- A tuple of short values with at most `limit` entries.
  abbrev pub IsTuple : ℕ → Tuple O → Type 0
  IsTuple limit t = (tuple_length t ≤ limit) × AreShort t

  length_in-IsTuple : (lo hi : ℕ) (t : Tuple O) → AreShort t → OnOk (IsTuple hi) (length_in lo hi t)
  unfolding length_in
  length_in-IsTuple lo hi t h = checked (leb lo (tuple_length t)) (leb (tuple_length t) hi) refl
    where
      checked :
          (a b : Bool)
          → leb (tuple_length t) hi ≡ b
          → OnOk (IsTuple hi) (
              let x : Result VmError (Tuple O) =
                if a && b
                then ok t
                else err (VmError.invalid_type StackValueType.tuple StackValueType.tuple) in
              x)
      checked true true e = (ground (arith, e), h)
      checked true false e = tt
      checked false b e = tt

  into_tuple-AreShort : (v : StackValue O) → IsShort v → OnOk (AreShort {O = O}) (into_tuple v)
  unfolding into_tuple IsShort wrong_type
  into_tuple-AreShort StackValue.null h = tt
  into_tuple-AreShort StackValue.nan h = tt
  into_tuple-AreShort (StackValue.int _) h = tt
  into_tuple-AreShort (StackValue.cell _) h = tt
  into_tuple-AreShort (StackValue.slice _) h = tt
  into_tuple-AreShort (StackValue.builder _) h = tt
  into_tuple-AreShort (StackValue.cont _) h = tt
  into_tuple-AreShort (StackValue.tuple t) h = h.1

  pub pop_tuple_range-Safe : (lo hi : ℕ) → Safe AllShort (IsTuple hi) (pop_tuple_range lo hi)
  unfolding pop_tuple_range pop_tuple
  pop_tuple_range-Safe lo hi =
      bind-Safe (bind-Safe pop-Safe (λ v h. lift-Safe (into_tuple v) (into_tuple-AreShort v h)))
        (λ t h. lift-Safe (length_in lo hi t) (length_in-IsTuple lo hi t h))

  abbrev pub IfTuple : Option (Tuple O) → Type 0
  IfTuple none = Unit {0}
  IfTuple (some t) = IsTuple 255 t

  pub pop_opt_tuple_range-Safe : Safe (AllShort {O = O}) IfTuple (pop_opt_tuple_range 0 255)
  unfolding pop_opt_tuple_range
  pop_opt_tuple_range-Safe = bind-Safe pop-Safe (λ v h. go (is_null v) v h)
    where
      go :
          (b : Bool) (v : StackValue O)
          → IsShort v
          → Safe (AllShort {O = O}) IfTuple (
              if b
              then pure none
              else (do t ← lift (into_tuple v); t' ← lift (length_in 0 255 t); pure (some t')))
      go true v h = lift-Safe (ok none) tt
      go false v h = bind-Safe (lift-Safe (into_tuple v) (into_tuple-AreShort v h)) (λ t k.
          bind-Safe (lift-Safe (length_in 0 255 t) (length_in-IsTuple 0 255 t k))
            (λ t' k'. lift-Safe (ok (some t')) k'))

  pub swap-Safe : (i j : ℕ) → Safe (AllShort {O = O}) Any (swap i j)
  unfolding swap exchange IsShort
  swap-Safe i j = keeping (λ s h. swapped s h (ltb i (length s)) (ltb j (length s)))
    where
      swapped :
          (s : Stack O)
          → AllShort s
          → (a b : Bool)
          → AllShort (
              let x : Result VmError (Unit {0}) × Stack O =
                if a
                then (if b then (ok tt, exchange i j s) else (err (VmError.stack_underflow j), s))
                else (err (VmError.stack_underflow i), s) in
              x.1)
      swapped s h true true =
          let first = set s i (get_or s j StackValue.null) in
          set-AllShort first j (get_or s i StackValue.null)
            (set-AllShort s i (get_or s j StackValue.null) h
              (get_or-IsShort s j StackValue.null h tt))
            (get_or-IsShort s i StackValue.null h tt)
      swapped s h true false = h
      swapped s h false b = h

  -- The invariant of a state.
  abbrev pub StateShort : VmState O → Type 0
  StateShort st = AllShort st.stack

  pub on_stack-Safe :
      {A : Type 0} {P : A → Type 0} {m : Action (Stack O) VmError A}
      → Safe AllShort P m
      → Safe StateShort P (on_stack m)
  on_stack-Safe a = record {
    keeps = λ st h. a.keeps st.stack h;
    yields = λ st h. a.yields st.stack h;
  }
