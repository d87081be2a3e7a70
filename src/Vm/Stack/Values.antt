-- ===== src/Vm/Stack/Values.antt =====
-- The values of the stack, and what each of them converts to (vm/src/stack.rs, trait `StackValue`).
use tycho_vm.Prelude.{ℕ, suc, Bool, true, false, Option, Result, ok, err, List, [], ◌∷◌}
use tycho_vm.Prelude.Int.{ℤ}
use tycho_vm.Vm.Error.{VmError, StackValueType}

-- `O` stands for the objects of the cell library (cells, slices and builders), which the VM only passes on. An
-- integer that is `NaN` has a constructor of its own, and so has the null value `()`. Continuations are values too
-- (vm/src/cont.rs): they hold control registers and a saved stack, so all these types are one block. A `Tuple` is a
-- list of values, in the order of a tuple, and from the top where it is a saved stack.
mutual
  pub data StackValue (O : Type 0) : Type 0 where
    null nan : StackValue O
    int : ℤ → StackValue O
    cell slice builder : O → StackValue O
    cont : Cont O → StackValue O
    tuple : Tuple O → StackValue O

  pub data Tuple (O : Type 0) : Type 0 where
    nil : Tuple O
    cons : StackValue O → Tuple O → Tuple O

  -- A continuation by its class: `QuitCont`, `ExcQuitCont`, `PushIntCont`, `RepeatCont` (count, body, after), `AgainCont`,
  -- `UntilCont` (body, after), `WhileCont` (check_cond, cond, body, after), `ArgContExt` and `OrdCont` (data, code).
  pub data Cont (O : Type 0) : Type 0 where
    quit : ℤ → Cont O
    exc_quit : Cont O
    push_int : ℤ → Cont O → Cont O
    repeat : ℕ → Cont O → Cont O → Cont O
    again : Cont O → Cont O
    until : Cont O → Cont O → Cont O
    while : Bool → Cont O → Cont O → Cont O → Cont O
    arg_ext : ControlData O → Cont O → Cont O
    ord : ControlData O → O → Cont O

  -- `nargs`, `stack`, `save` and `cp`.
  pub data ControlData (O : Type 0) : Type 0 where
    control_data : Option ℕ → OptTuple O → ControlRegs O → Option ℕ → ControlData O

  -- `c` (four continuations), `d` (the cells `c4` and `c5`) and `c7`.
  pub data ControlRegs (O : Type 0) : Type 0 where
    control_regs :
        OptCont O
        → OptCont O
        → OptCont O
        → OptCont O
        → Option O
        → Option O
        → OptTuple O
        → ControlRegs O

  pub data OptCont (O : Type 0) : Type 0 where
    no_cont : OptCont O
    a_cont : Cont O → OptCont O

  pub data OptTuple (O : Type 0) : Type 0 where
    no_tuple : OptTuple O
    a_tuple : Tuple O → OptTuple O

module _ {O : Type 0} where
  unfoldable pub ty : StackValue O → StackValueType
  ty StackValue.null = StackValueType.null
  ty StackValue.nan = StackValueType.int
  ty (StackValue.int _) = StackValueType.int
  ty (StackValue.cell _) = StackValueType.cell
  ty (StackValue.slice _) = StackValueType.slice
  ty (StackValue.builder _) = StackValueType.builder
  ty (StackValue.cont _) = StackValueType.cont
  ty (StackValue.tuple _) = StackValueType.tuple

  -- `invalid_type(self.ty(), expected)`.
  unfoldable pub wrong_type : {A : Type 0} → StackValueType → StackValue O → Result VmError A
  unfolding ty
  wrong_type expected value = err (VmError.invalid_type expected (ty value))

  unfoldable pub into_int : StackValue O → Result VmError ℤ
  unfolding wrong_type
  into_int StackValue.nan = err VmError.integer_overflow
  into_int (StackValue.int x) = ok x
  into_int value = wrong_type StackValueType.int value

  unfoldable pub into_cell : StackValue O → Result VmError O
  unfolding wrong_type
  into_cell (StackValue.cell c) = ok c
  into_cell value = wrong_type StackValueType.cell value

  unfoldable pub into_cell_slice : StackValue O → Result VmError O
  unfolding wrong_type
  into_cell_slice (StackValue.slice c) = ok c
  into_cell_slice value = wrong_type StackValueType.slice value

  unfoldable pub into_cell_builder : StackValue O → Result VmError O
  unfolding wrong_type
  into_cell_builder (StackValue.builder c) = ok c
  into_cell_builder value = wrong_type StackValueType.builder value

  unfoldable pub into_cont : StackValue O → Result VmError (Cont O)
  unfolding wrong_type
  into_cont (StackValue.cont c) = ok c
  into_cont value = wrong_type StackValueType.cont value

  unfoldable pub into_tuple : StackValue O → Result VmError (Tuple O)
  unfolding wrong_type
  into_tuple (StackValue.tuple t) = ok t
  into_tuple value = wrong_type StackValueType.tuple value

  unfoldable pub is_null : StackValue O → Bool
  is_null StackValue.null = true
  is_null _ = false

  unfoldable pub tuple_length : Tuple O → ℕ
  tuple_length Tuple.nil = 0
  tuple_length (Tuple.cons _ t) = suc (tuple_length t)

  -- A saved stack as a stack.
  unfoldable pub values : Tuple O → List (StackValue O)
  values Tuple.nil = []
  values (Tuple.cons x t) = x ∷ values t

  unfoldable pub tuple_of : List (StackValue O) → Tuple O
  tuple_of [] = Tuple.nil
  tuple_of (x ∷ xs) = Tuple.cons x (tuple_of xs)
