-- ===== src/Vm/Stack/Basic.antt =====
-- The stack as a sequence (vm/src/stack.rs). The head of the list is the top of the stack, which is
-- the back of the vector `items`: `items[depth - idx - 1]` is entry `idx` here.
use tycho_vm.Prelude.{
  ℕ, ◌+◌, ◌-◌, ◌^◌, Bool, true, false, ◌&&◌, Option, none, some, List, [], ◌∷◌, ◌++◌, reverse,
  length, get_or, set, take, drop, leb, ltb, if◌then◌else◌, Result, ok, err, Action, fail,
}
use tycho_vm.Prelude.Int.{ℤ, pos, negsuc, leb_ℤ}
use tycho_vm.Vm.Error.{VmError}
use tycho_vm.Vm.Stack.Values.{StackValue}

abbrev pub Stack : Type 0 → Type 0
Stack O = List (StackValue O)

abbrev pub max_depth : ℕ
max_depth = 0xffffff

-- A boolean on the stack is -1 or 0.
unfoldable pub make_bool : {O : Type 0} → Bool → StackValue O
make_bool true = StackValue.int (negsuc 0)
make_bool false = StackValue.int (pos 0)

-- `bitsize(true) <= 257`.
abbrev pub fits_257 : ℤ → Bool
fits_257 value = leb_ℤ (negsuc (2 ^ 256 - 1)) value && leb_ℤ value (pos (2 ^ 256 - 1))

module _ {O : Type 0} where
  unfoldable pub push_raw : StackValue O → Action (Stack O) VmError (Unit {0})
  push_raw item s =
      if ltb (length s) max_depth
      then (ok tt, item ∷ s)
      else (err (VmError.stack_underflow max_depth), s)

  unfoldable pub push_opt_raw : Option (StackValue O) → Action (Stack O) VmError (Unit {0})
  unfolding push_raw
  push_opt_raw none = push_raw StackValue.null
  push_opt_raw (some item) = push_raw item

  -- The index is in range where it is read.
  unfoldable pub push_nth : ℕ → Action (Stack O) VmError (Unit {0})
  push_nth idx s =
      if ltb idx (length s)
      then (if ltb (length s + 1) max_depth
          then (ok tt, get_or s idx StackValue.null ∷ s)
          else (err (VmError.stack_underflow max_depth), s))
      else (err (VmError.stack_underflow idx), s)

  unfoldable pub push_null : Action (Stack O) VmError (Unit {0})
  unfolding push_raw
  push_null = push_raw StackValue.null

  unfoldable pub push_nan : Action (Stack O) VmError (Unit {0})
  unfolding push_raw
  push_nan = push_raw StackValue.nan

  unfoldable pub push_bool : Bool → Action (Stack O) VmError (Unit {0})
  unfolding push_raw make_bool
  push_bool value = push_raw (make_bool value)

  unfoldable pub push_int : ℤ → Action (Stack O) VmError (Unit {0})
  unfolding push_raw
  push_int value = push_raw (StackValue.int value)

  unfoldable pub push_raw_int : ℤ → Bool → Action (Stack O) VmError (Unit {0})
  unfolding push_int push_nan
  push_raw_int value quiet =
      if fits_257 value
      then push_int value
      else (if quiet then push_nan else fail VmError.integer_overflow)

  -- The two stacks are the state; the entries of `other` come on top of `self`, in their order.
  unfoldable pub move_from_stack : ℕ → Action (Stack O × Stack O) VmError (Unit {0})
  move_from_stack n (self, other) =
      if leb n (length other)
      then (ok tt, (take n other ++ self, drop n other))
      else (err (VmError.stack_underflow n), (self, other))

  unfoldable pub split_top : ℕ → Action (Stack O) VmError (Stack O)
  split_top n s =
      if leb n (length s) then (ok (take n s), drop n s) else (err (VmError.stack_underflow n), s)

  -- The top `n` entries are returned, and the `extra` entries under them are dropped.
  unfoldable pub split_top_ext : ℕ → ℕ → Action (Stack O) VmError (Stack O)
  split_top_ext n extra s =
      if leb (n + extra) (length s)
      then (ok (take n s), drop (n + extra) s)
      else (err (VmError.stack_underflow (n + extra)), s)

  unfoldable pub pop : Action (Stack O) VmError (StackValue O)
  pop [] = (err (VmError.stack_underflow 0), [])
  pop (item ∷ s) = (ok item, s)

  unfoldable pub pop_many : ℕ → Action (Stack O) VmError (Unit {0})
  pop_many n s =
      if leb n (length s) then (ok tt, drop n s) else (err (VmError.stack_underflow n), s)

  unfoldable pub drop_bottom : ℕ → Action (Stack O) VmError (Unit {0})
  drop_bottom n s =
      if leb n (length s)
      then (ok tt, take (length s - n) s)
      else (err (VmError.stack_underflow n), s)

  -- Both indices are in range where they are read.
  unfoldable pub exchange : ℕ → ℕ → Stack O → Stack O
  exchange lhs rhs s =
      set (set s lhs (get_or s rhs StackValue.null)) rhs (get_or s lhs StackValue.null)

  unfoldable pub swap : ℕ → ℕ → Action (Stack O) VmError (Unit {0})
  unfolding exchange
  swap lhs rhs s =
      if ltb lhs (length s)
      then (if ltb rhs (length s)
          then (ok tt, exchange lhs rhs s)
          else (err (VmError.stack_underflow rhs), s))
      else (err (VmError.stack_underflow lhs), s)

  unfoldable pub reverse_part : ℕ → ℕ → Stack O → Stack O
  reverse_part offset n s =
      take offset s ++ (reverse (take n (drop offset s)) ++ drop n (drop offset s))

  unfoldable pub reverse_range : ℕ → ℕ → Action (Stack O) VmError (Unit {0})
  unfolding reverse_part
  reverse_range offset n s =
      if ltb offset (length s)
      then (if leb (offset + n) (length s)
          then (ok tt, reverse_part offset n s)
          else (err (VmError.stack_underflow (offset + n)), s))
      else (err (VmError.stack_underflow offset), s)

  unfoldable pub fetch : ℕ → Stack O → Result VmError (StackValue O)
  fetch idx s =
      if ltb idx (length s)
      then ok (get_or s idx StackValue.null)
      else err (VmError.stack_underflow idx)
