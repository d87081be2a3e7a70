-- ===== src/Vm/Control/Registers.antt =====
-- The control registers as a map from register numbers to values: what each operation does to the map.
use tycho_vm.Prelude.{
  ℕ, zero, suc, ◌-◌, ◌<◌, ◌≡◌, refl, arith, Bool, true, false, ◌&&◌, ◌||◌, Option, none, some, leb,
  ltb, ◌==◌, if◌then◌else◌, Result, ok, err,
}
use tycho_vm.Vm.Stack.Values.{
  StackValue, Tuple, Cont, ControlRegs, control_regs, OptCont, no_cont, a_cont, OptTuple, no_tuple,
  a_tuple, into_cont, into_cell, into_tuple,
}
use tycho_vm.Vm.Control.{
  is_absent, get_c, cell_at, get_c7, put_c, put_cell, set_c7, cont_value, cell_value, tuple_value,
  merge_cont, merge_cell, merge_tuple, clear_cont, clear_cell, clear_tuple, get_as_stack_value,
  merge, preclear, set, define,
}

abbrev pub succeeds : {E A : Type 0} → Result E A → Bool
succeeds (ok _) = true
succeeds (err _) = false

-- Every register number is one of the eight, or past them.
by_index :
    (P : ℕ → Type 0)
    → P 0
    → P 1
    → P 2
    → P 3
    → P 4
    → P 5
    → P 6
    → P 7
    → ((n : ℕ) → 7 < n → P n)
    → (n : ℕ) → P n
by_index P a b c d e f g h rest zero = a
by_index P a b c d e f g h rest (suc zero) = b
by_index P a b c d e f g h rest (suc (suc zero)) = c
by_index P a b c d e f g h rest (suc (suc (suc zero))) = d
by_index P a b c d e f g h rest (suc (suc (suc (suc zero)))) = e
by_index P a b c d e f g h rest (suc (suc (suc (suc (suc zero))))) = f
by_index P a b c d e f g h rest (suc (suc (suc (suc (suc (suc zero)))))) = g
by_index P a b c d e f g h rest (suc (suc (suc (suc (suc (suc (suc zero))))))) = h
by_index P a b c d e f g h rest (suc (suc (suc (suc (suc (suc (suc (suc n)))))))) =
    rest (suc (suc (suc (suc (suc (suc (suc (suc n)))))))) (omega arith)

module _ {O : Type 0} where
  -- The numbers of the registers that hold values of this class.
  pub fits : ℕ → StackValue O → Bool
  fits i (StackValue.cont _) = ltb i 4
  fits i (StackValue.cell _) = leb 4 i && ltb i 6
  fits i (StackValue.tuple _) = i == 7
  fits i _ = false

  -- The second map over the first one.
  pub overridden : Option (StackValue O) → Option (StackValue O) → Option (StackValue O)
  overridden a none = a
  overridden a (some v) = some v

  overridden-none : none ≡ overridden none none
  unfolding overridden
  overridden-none = refl

  absent-none : ◌≡◌ {A = Option (StackValue O)} none (if is_absent {O = O} none then none else none)
  unfolding is_absent
  absent-none = refl

  -- One register of each class.
  merge_cont-value :
      (c d : OptCont O) → cont_value (merge_cont c d) ≡ overridden (cont_value c) (cont_value d)
  unfolding merge_cont cont_value overridden
  merge_cont-value c no_cont = refl
  merge_cont-value c (a_cont d) = refl

  merge_cell-value :
      (c d : Option O) → cell_value (merge_cell c d) ≡ overridden (cell_value c) (cell_value d)
  unfolding merge_cell cell_value overridden
  merge_cell-value c none = refl
  merge_cell-value c (some d) = refl

  merge_tuple-value :
      (c d : OptTuple O)
      → tuple_value (merge_tuple c d) ≡ overridden (tuple_value c) (tuple_value d)
  unfolding merge_tuple tuple_value overridden
  merge_tuple-value c no_tuple = refl
  merge_tuple-value c (a_tuple d) = refl

  clear_cont-value :
      (c d : OptCont O)
      → cont_value (clear_cont c d) ≡ (if is_absent (cont_value d) then cont_value c else none)
  unfolding clear_cont cont_value is_absent
  clear_cont-value c no_cont = refl
  clear_cont-value c (a_cont d) = refl

  clear_cell-value :
      (c d : Option O)
      → cell_value (clear_cell c d) ≡ (if is_absent (cell_value d) then cell_value c else none)
  unfolding clear_cell cell_value is_absent
  clear_cell-value c none = refl
  clear_cell-value c (some d) = refl

  clear_tuple-value :
      (c d : OptTuple O)
      → tuple_value (clear_tuple c d) ≡ (if is_absent (tuple_value d) then tuple_value c else none)
  unfolding clear_tuple tuple_value is_absent
  clear_tuple-value c no_tuple = refl
  clear_tuple-value c (a_tuple d) = refl

  get-past : (j : ℕ) (r : ControlRegs O) → 7 < j → get_as_stack_value j r ≡ none
  unfolding get_as_stack_value
  get-past j r h = ground arith

  get-merge :
      (j : ℕ) (r q : ControlRegs O)
      → get_as_stack_value j (merge r q)
        ≡ overridden (get_as_stack_value j r) (get_as_stack_value j q)
  unfolding get_as_stack_value merge get_c cell_at get_c7
  get-merge j (control_regs c0 c1 c2 c3 d0 d1 c7) (control_regs e0 e1 e2 e3 f0 f1 e7) =
      let r = control_regs c0 c1 c2 c3 d0 d1 c7 in
      let q = control_regs e0 e1 e2 e3 f0 f1 e7 in
      by_index
        (λ j.
          get_as_stack_value j (merge r q)
          ≡ overridden (get_as_stack_value j r) (get_as_stack_value j q))
        (merge_cont-value c0 e0) (merge_cont-value c1 e1) (merge_cont-value c2 e2)
        (merge_cont-value c3 e3) (merge_cell-value d0 f0) (merge_cell-value d1 f1) overridden-none
        (merge_tuple-value c7 e7)
        (λ n past.
          rw (get-past n (merge r q) past)
            (rw (get-past n r past) (rw (get-past n q past) (overridden-none))))
        j

  get-preclear :
      (j : ℕ) (r q : ControlRegs O)
      → get_as_stack_value j (preclear r q)
        ≡ (if is_absent (get_as_stack_value j q) then get_as_stack_value j r else none)
  unfolding get_as_stack_value preclear get_c cell_at get_c7
  get-preclear j (control_regs c0 c1 c2 c3 d0 d1 c7) (control_regs e0 e1 e2 e3 f0 f1 e7) =
      let r = control_regs c0 c1 c2 c3 d0 d1 c7 in
      let q = control_regs e0 e1 e2 e3 f0 f1 e7 in
      by_index
        (λ j.
          get_as_stack_value j (preclear r q)
          ≡ (if is_absent (get_as_stack_value j q) then get_as_stack_value j r else none))
        (clear_cont-value c0 e0) (clear_cont-value c1 e1) (clear_cont-value c2 e2)
        (clear_cont-value c3 e3) (clear_cell-value d0 f0) (clear_cell-value d1 f1) absent-none
        (clear_tuple-value c7 e7)
        (λ n past.
          rw (get-past n (preclear r q) past)
            (rw (get-past n r past) (rw (get-past n q past) absent-none)))
        j

  get-put_c :
      (i j : ℕ) (c : Cont O) (r : ControlRegs O)
      → i < 4
      → get_as_stack_value j (put_c i (a_cont c) r)
        ≡ (if i == j then some (StackValue.cont c) else get_as_stack_value j r)
  unfolding get_as_stack_value put_c get_c cell_at get_c7 cont_value
  get-put_c i j c (control_regs c0 c1 c2 c3 d0 d1 c7) h = ground arith

  get-put_cell :
      (i j : ℕ) (d : O) (r : ControlRegs O)
      → 3 < i
      → i < 6
      → get_as_stack_value j (put_cell (i - 4) d r)
        ≡ (if i == j then some (StackValue.cell d) else get_as_stack_value j r)
  unfolding get_as_stack_value put_cell get_c cell_at get_c7 cell_value
  get-put_cell i j d (control_regs c0 c1 c2 c3 d0 d1 c7) h k = ground arith

  get-set_c7 :
      (j : ℕ) (t : Tuple O) (r : ControlRegs O)
      → get_as_stack_value j (set_c7 t r)
        ≡ (if 7 == j then some (StackValue.tuple t) else get_as_stack_value j r)
  unfolding get_as_stack_value set_c7 get_c cell_at get_c7 tuple_value
  get-set_c7 j t (control_regs c0 c1 c2 c3 d0 d1 c7) = ground arith

  -- Writing and defining, for one class of values each. A value that is no register's fails.
  get-set :
      (i j : ℕ) (v : StackValue O) (r : ControlRegs O)
      → (succeeds (set i v r).0 ≡ fits i v)
        × (get_as_stack_value j (set i v r).1
            ≡ (if fits i v && (i == j) then some v else get_as_stack_value j r))
  unfolding set fits into_cont into_cell into_tuple
  get-set i j (StackValue.cont c) r = ground (arith, get-put_c i j c r)
  get-set i j (StackValue.cell d) r = ground (arith, get-put_cell i j d r)
  get-set i j (StackValue.tuple t) r = ground (arith, get-set_c7 j t r)
  get-set i j v r = ground arith

  get-define :
      (i j : ℕ) (v : StackValue O) (r : ControlRegs O)
      → let absent = is_absent (get_as_stack_value i r) in
        (succeeds (define i v r).0 ≡ (fits i v && (absent || (i == 7))))
        × (get_as_stack_value j (define i v r).1
            ≡ (if fits i v && absent && (i == j) then some v else get_as_stack_value j r))
  unfolding define fits into_cont into_cell into_tuple
  get-define i j (StackValue.cont c) r = ground (arith, get-put_c i j c r)
  get-define i j (StackValue.cell d) r = ground (arith, get-put_cell i j d r)
  get-define i j (StackValue.tuple t) r = ground (arith, get-set_c7 j t r)
  get-define i j v r = ground arith

  -- The register file is a map from numbers to values, and its operations are those of the map, at every number `j`: `merge` puts
  -- the second map over the first, `preclear` takes the keys of the second from the first, `set` succeeds exactly
  -- where the value is of the register's class and then changes the map there, and `define` changes it only where it
  -- has no value, and otherwise fails or, at `c7`, does nothing.
  pub registers_refine :
      (i j : ℕ) (v : StackValue O) (r q : ControlRegs O)
      → let get = get_as_stack_value in
        let absent = is_absent (get i r) in
        (get j (merge r q) ≡ overridden (get j r) (get j q))
        × (get j (preclear r q) ≡ (if is_absent (get j q) then get j r else none))
        × (succeeds (set i v r).0 ≡ fits i v)
        × (get j (set i v r).1 ≡ (if fits i v && (i == j) then some v else get j r))
        × (succeeds (define i v r).0 ≡ (fits i v && (absent || (i == 7))))
        × (get j (define i v r).1 ≡ (if fits i v && absent && (i == j) then some v else get j r))
  registers_refine i j v r q =
      let (done, changed) = get-set i j v r in
      let (defined, kept) = get-define i j v r in
      (get-merge j r q, get-preclear j r q, done, changed, defined, kept)
