-- ===== src/Vm/Control.antt =====
-- Control registers and control data (vm/src/cont.rs, `ControlRegs` and `ControlData`). The registers `c0` to `c3` hold
-- continuations, `c4` and `c5` cells and `c7` a tuple. Where the source compares pointers before it copies, the copy
-- of an object that is there already changes nothing.
pub mod Registers
pub mod Saved
mod Tests
use tycho_vm.Prelude.{
  ℕ, ◌+◌, ◌-◌, ◌%◌, ◌^◌, Bool, true, false, ◌&&◌, ◌||◌, Option, none, some, leb, ltb, ◌==◌,
  if◌then◌else◌, Result, ok, err, Action, ◌>>=◌, ◌>>◌, pure, fail, ensure, gets, modify, lift,
}
use tycho_vm.Vm.Error.{VmError}
use tycho_vm.Vm.Stack.Values.{
  StackValue, Tuple, Cont, ControlData, ControlRegs, control_data, control_regs, OptCont, no_cont,
  a_cont, OptTuple, no_tuple, a_tuple, into_cont, into_cell, into_tuple, arg_ext, ord,
}

-- `is_valid_idx`.
unfoldable pub is_valid_idx : ℕ → Bool
is_valid_idx i = ltb i 4 || (leb 4 i && ltb i 6) || i == 7

module _ {O : Type 0} where
  abbrev pub no_regs : ControlRegs O
  no_regs = control_regs no_cont no_cont no_cont no_cont none none no_tuple

  abbrev pub no_data : ControlData O
  no_data = control_data none no_tuple no_regs none

  -- The fields.
  unfoldable pub nargs : ControlData O → Option ℕ
  nargs (control_data n s r p) = n

  unfoldable pub saved_stack : ControlData O → OptTuple O
  saved_stack (control_data n s r p) = s

  unfoldable pub save : ControlData O → ControlRegs O
  save (control_data n s r p) = r

  unfoldable pub cp : ControlData O → Option ℕ
  cp (control_data n s r p) = p

  unfoldable pub with_save : ControlRegs O → ControlData O → ControlData O
  with_save r' (control_data n s r p) = control_data n s r' p

  -- `c[i]` and `d[i]`, for reading and for writing.
  unfoldable pub get_c : ℕ → ControlRegs O → OptCont O
  get_c i (control_regs c0 c1 c2 c3 d0 d1 c7) =
      if i == 0
      then c0
      else if i == 1
      then c1
      else if i == 2
      then c2
      else if i == 3
      then c3
      else no_cont

  unfoldable pub put_c : ℕ → OptCont O → ControlRegs O → ControlRegs O
  put_c i c (control_regs c0 c1 c2 c3 d0 d1 c7) =
      control_regs (if i == 0 then c else c0) (if i == 1 then c else c1) (if i == 2 then c else c2)
        (if i == 3 then c else c3) d0 d1 c7

  unfoldable pub cell_at : ℕ → ControlRegs O → Option O
  cell_at i (control_regs c0 c1 c2 c3 d0 d1 c7) = if i == 0 then d0 else if i == 1 then d1 else none

  unfoldable pub put_cell : ℕ → O → ControlRegs O → ControlRegs O
  put_cell i d (control_regs c0 c1 c2 c3 d0 d1 c7) =
      control_regs c0 c1 c2 c3 (if i == 0 then some d else d0) (if i == 1 then some d else d1) c7

  unfoldable pub get_c7 : ControlRegs O → OptTuple O
  get_c7 (control_regs c0 c1 c2 c3 d0 d1 c7) = c7

  unfoldable pub set_c7 : Tuple O → ControlRegs O → ControlRegs O
  set_c7 t (control_regs c0 c1 c2 c3 d0 d1 c7) = control_regs c0 c1 c2 c3 d0 d1 (a_tuple t)

  -- `merge_stack_value` and `merge_cell_value`: the other value, if there is one.
  unfoldable pub merge_cont : OptCont O → OptCont O → OptCont O
  merge_cont c no_cont = c
  merge_cont c (a_cont d) = a_cont d

  unfoldable pub merge_cell : Option O → Option O → Option O
  merge_cell d none = d
  merge_cell d (some e) = some e

  unfoldable pub merge_tuple : OptTuple O → OptTuple O → OptTuple O
  merge_tuple t no_tuple = t
  merge_tuple t (a_tuple u) = a_tuple u

  unfoldable pub merge : ControlRegs O → ControlRegs O → ControlRegs O
  merge (control_regs c0 c1 c2 c3 d0 d1 c7) (control_regs e0 e1 e2 e3 f0 f1 e7) =
      control_regs (merge_cont c0 e0) (merge_cont c1 e1) (merge_cont c2 e2) (merge_cont c3 e3)
        (merge_cell d0 f0) (merge_cell d1 f1) (merge_tuple c7 e7)

  unfoldable pub clear_cont : OptCont O → OptCont O → OptCont O
  clear_cont c no_cont = c
  clear_cont c (a_cont _) = no_cont

  unfoldable pub clear_cell : Option O → Option O → Option O
  clear_cell d none = d
  clear_cell d (some _) = none

  unfoldable pub clear_tuple : OptTuple O → OptTuple O → OptTuple O
  clear_tuple t no_tuple = t
  clear_tuple t (a_tuple _) = no_tuple

  unfoldable pub preclear : ControlRegs O → ControlRegs O → ControlRegs O
  preclear (control_regs c0 c1 c2 c3 d0 d1 c7) (control_regs e0 e1 e2 e3 f0 f1 e7) =
      control_regs (clear_cont c0 e0) (clear_cont c1 e1) (clear_cont c2 e2) (clear_cont c3 e3)
        (clear_cell d0 f0) (clear_cell d1 f1) (clear_tuple c7 e7)

  unfoldable pub set : ℕ → StackValue O → Action (ControlRegs O) VmError (Unit {0})
  set i value =
      if ltb i 4
      then (lift (into_cont value) >>= λ c. modify (put_c i (a_cont c)))
      else if leb 4 i && ltb i 6
      then (lift (into_cell value) >>= λ d. modify (put_cell (i - 4) d))
      else if i == 7
      then (lift (into_tuple value) >>= λ t. modify (set_c7 t))
      else fail (VmError.control_register_out_of_range i)

  -- `set_c` and `set_d` say whether the index was in range; `set_d` and `get_d` wrap around.
  pub set_c : ℕ → Cont O → ControlRegs O → Bool × ControlRegs O
  unfolding put_c
  set_c i c r = if ltb i 4 then (true, put_c i (a_cont c) r) else (false, r)

  pub set_d : ℕ → O → ControlRegs O → Bool × ControlRegs O
  unfolding put_cell
  set_d i' d r =
      let i = (i' + 2 ^ 64 - 4) % 2 ^ 64 in if ltb i 2 then (true, put_cell i d r) else (false, r)

  unfoldable pub get_d : ℕ → ControlRegs O → Option O
  unfolding cell_at
  get_d i' r = let i = (i' + 2 ^ 64 - 4) % 2 ^ 64 in if ltb i 2 then cell_at i r else none

  unfoldable pub cont_value : OptCont O → Option (StackValue O)
  cont_value no_cont = none
  cont_value (a_cont c) = some (StackValue.cont c)

  unfoldable pub cell_value : Option O → Option (StackValue O)
  cell_value none = none
  cell_value (some d) = some (StackValue.cell d)

  unfoldable pub tuple_value : OptTuple O → Option (StackValue O)
  tuple_value no_tuple = none
  tuple_value (a_tuple t) = some (StackValue.tuple t)

  unfoldable pub get_as_stack_value : ℕ → ControlRegs O → Option (StackValue O)
  get_as_stack_value i r =
      if ltb i 4
      then cont_value (get_c i r)
      else if leb 4 i && ltb i 6
      then cell_value (cell_at (i - 4) r)
      else if i == 7
      then tuple_value (get_c7 r)
      else none

  -- `define_c0`, `define_c1` and `define_c2`: a register that has a value keeps it.
  unfoldable pub or_cont : OptCont O → OptCont O → OptCont O
  or_cont no_cont c = c
  or_cont (a_cont d) c = a_cont d

  unfoldable pub define_c : ℕ → OptCont O → ControlRegs O → ControlRegs O
  define_c i c r = put_c i (or_cont (get_c i r) c) r

  unfoldable pub is_absent : Option (StackValue O) → Bool
  is_absent none = true
  is_absent (some _) = false

  -- A second definition of `c7` is ignored, any other is an error.
  unfoldable pub define : ℕ → StackValue O → Action (ControlRegs O) VmError (Unit {0})
  define i value r =
      let absent = is_absent (get_as_stack_value i r) in
      (if ltb i 4
          then (do
            c ← lift (into_cont value)
            ensure absent VmError.control_register_redefined
            modify (put_c i (a_cont c)))
          else if leb 4 i && ltb i 6
          then (do
            d ← lift (into_cell value)
            ensure absent VmError.control_register_redefined
            modify (put_cell (i - 4) d))
          else if i == 7
          then (do t ← lift (into_tuple value); modify (λ q. if absent then set_c7 t q else q))
          else fail (VmError.control_register_out_of_range i))
        r
