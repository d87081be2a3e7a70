-- ===== src/Vm/ArithOps/Constants.antt =====
-- The integer constants (vm/src/instr/arithops.rs).
use tycho_vm.Prelude.{
  ℕ, ◌+◌, ◌*◌, ◌-◌, ◌%◌, ◌^◌, Result, ok, err, Action, ◌>>=◌, ◌>>◌, if◌then◌else◌,
}
use tycho_vm.Prelude.Int.{ℤ, pos, ◌-ℤ◌}
use tycho_vm.Prelude.Int.Mul.{neg_ℤ}
use tycho_vm.Vm.Error.{VmError, CellError}
use tycho_vm.Vm.Stack.Basic.{Stack, push_int, push_nan}
use tycho_vm.Vm.State.{VmState, on_stack}
use tycho_vm.Vm.Machine.{CodeView}
use tycho_vm.Vm.StackOps.Loops.{done}

-- The operand of the constant of four bits.
unfoldable pub tiny_operand : ℕ → ℤ
tiny_operand args = pos ((args + 5) % 16) -ℤ pos 5

module _ {O : Type 0} where
  unfoldable pub exec_push_tinyint4 : ℤ → Action (Stack O) VmError ℤ
  exec_push_tinyint4 x = push_int x >> done

  unfoldable pub exec_push_pow2 : ℕ → Action (Stack O) VmError ℤ
  exec_push_pow2 x = push_int (pos (2 ^ x)) >> done

  unfoldable pub exec_push_nan : Action (Stack O) VmError ℤ
  exec_push_nan = push_nan >> done

  unfoldable pub exec_push_pow2dec : ℕ → Action (Stack O) VmError ℤ
  exec_push_pow2dec x = push_int (pos (2 ^ x - 1)) >> done

  unfoldable pub exec_push_negpow2 : ℕ → Action (Stack O) VmError ℤ
  exec_push_negpow2 x = push_int (neg_ℤ (pos (2 ^ x))) >> done

module _ {O : Type 0} (cv : CodeView O) (load_bigint : ℕ → O → Result CellError (ℤ × O)) where
  -- The cell library's `load_bigint` gives the integer and the slice after it.
  load_int : ℕ → Action (VmState O) VmError ℤ
  load_int bits st = elim (load_bigint bits st.code) [
    | ok (x, code) ↦ (ok x, record st { code = code })
    | err e ↦ (err (VmError.cell_error e), st)
  ]

  -- The integer that stands in the code after `bits` bits of the opcode.
  unfoldable pub exec_push_int : ℕ → ℕ → Action (VmState O) VmError ℤ
  unfolding load_int
  exec_push_int args bits st =
      let value_len = 3 + (args % 32 + 2) * 8 in
      if cv.has_remaining (bits + value_len) 0 st.code
      then ((load_int value_len >>= λ x. on_stack (push_int x) >> done)
          (record st { code = cv.skip_first bits 0 st.code }))
      else (err VmError.invalid_opcode, st)
