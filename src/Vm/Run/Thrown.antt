-- ===== src/Vm/Run/Thrown.antt =====
-- Exceptions and what they charge (vm/src/state.rs, `throw_exception`; vm/src/cont.rs, `ExcQuitCont`).
use tycho_vm.Prelude.{
  ℕ, ◌≡◌, refl, ap, ◌∙◌, arith, Bool, true, false, [], ◌∷◌, leb, if◌then◌else◌, ok, err, >>=-ok,
  >>=-err, ◌>>=◌, gets, Result,
}
use tycho_vm.Prelude.Int.{pos, negsuc, leb_ℤ}
use tycho_vm.Vm.Error.{CellError, VmError, VmException, discriminant}
use tycho_vm.Vm.Gas.{GasConsumer, try_consume, try_consume_exception_gas}
use tycho_vm.Vm.Stack.Values.{StackValue, Cont, a_cont}
use tycho_vm.Vm.Stack.Values.{into_int}
use tycho_vm.Vm.Stack.Basic.{pop}
use tycho_vm.Vm.Stack.Typed.{in_range, pop_int, pop_smallint_range}
use tycho_vm.Vm.State.{VmState, consume_result}
use tycho_vm.Vm.Control.{get_c, saved_stack, nargs}
use tycho_vm.Vm.Machine.{
  has_args, data_of, get_control_data, is_tuple, is_some, CodeView, on_gas, set_stack,
}
use tycho_vm.Vm.Jump.{
  jump, do_jump_to, size, jump_loop, cont_jump, followed, exit_from_stack, exit_number,
}
use tycho_vm.Vm.Call.{no_more_code, throw_to, throw_exception_with_arg, throw_exception}

pub discriminant-small : (x : VmException) → leb (discriminant x) 0xffff ≡ true
unfolding discriminant
discriminant-small VmException.ok = refl
discriminant-small VmException.alternative = refl
discriminant-small VmException.stack_underflow = refl
discriminant-small VmException.stack_overflow = refl
discriminant-small VmException.int_overflow = refl
discriminant-small VmException.range_check = refl
discriminant-small VmException.invalid_opcode = refl
discriminant-small VmException.type_check = refl
discriminant-small VmException.cell_overflow = refl
discriminant-small VmException.cell_underflow = refl
discriminant-small VmException.dict_error = refl
discriminant-small VmException.unknown = refl
discriminant-small VmException.fatal = refl
discriminant-small VmException.out_of_gas = refl
discriminant-small VmException.virt_error = refl

module _ {O : Type 0} where
  -- The gas after the charge for an exception, and whether it was enough.
  abbrev pub charged : VmState O → GasConsumer O
  charged st = (try_consume 50 st.gas).1

  abbrev pub pays : VmState O → Bool
  pays st = leb_ℤ (pos 0) (charged st).gas_remaining

module _ {O : Type 0} (cv : CodeView O) where
  -- The state after an exception that the default handler gets.
  unfoldable pub ended : VmState O → VmState O
  ended st = record st {
    stack = StackValue.int (pos 0) ∷ [];
    code = cv.no_code;
    gas = (try_consume 50 st.gas).1;
  }

  -- The charge for an exception, by whether what is left pays for it.
  abbrev charged_if : VmState O → Bool → Result VmError (Unit {0}) × VmState O
  charged_if st b = (
    if b then ok tt else err (VmError.cell_error CellError.cancelled),
    record st { gas = charged st },
  )

  charge_exception :
      (st : VmState O) → on_gas try_consume_exception_gas st ≡ charged_if st (pays st)
  unfolding try_consume_exception_gas try_consume consume_result
  charge_exception st = ground arith

  exception_paid :
      (st : VmState O)
      → pays st ≡ true
      → on_gas try_consume_exception_gas st ≡ (ok tt, record st { gas = charged st })
  exception_paid st h = charge_exception st ∙ ap (charged_if st) h

  exception_not_paid :
      (st : VmState O)
      → pays st ≡ false
      → on_gas try_consume_exception_gas st
        ≡ (err (VmError.cell_error CellError.cancelled), record st { gas = charged st })
  exception_not_paid st h = charge_exception st ∙ ap (charged_if st) h

  exit_code-in_range : (n : ℕ) → leb n 0xffff ≡ true → exit_number (in_range 0 0xffff (pos n)) ≡ n
  unfolding exit_number in_range
  exit_code-in_range n h = ground arith

  exc_quit-exits :
      (n : ℕ) (st : VmState O)
      → leb n 0xffff ≡ true
      → st.stack ≡ StackValue.int (pos n) ∷ StackValue.int (pos 0) ∷ []
      → jump Cont.exc_quit st ≡ (ok (negsuc n), record st { stack = StackValue.int (pos 0) ∷ [] })
  unfolding jump has_args data_of get_control_data saved_stack nargs is_tuple is_some do_jump_to
      size jump_loop cont_jump followed exit_from_stack pop_smallint_range pop_int pop into_int
  exc_quit-exits n st h e =
      ap
        (λ s.
          let (r, s') = pop_smallint_range 0 0xffff s in
          (ok (negsuc (exit_number r)), record st { stack = s' }))
        e
      ∙ ap (λ m. (ok (negsuc m), record st { stack = StackValue.int (pos 0) ∷ [] }))
          (exit_code-in_range n h)

  throw_to-exits :
      (n : ℕ) (st : VmState O)
      → leb n 0xffff ≡ true
      → st.stack ≡ StackValue.int (pos n) ∷ StackValue.int (pos 0) ∷ []
      → throw_to cv (a_cont Cont.exc_quit) st
        ≡ (ok (negsuc n), record st { stack = StackValue.int (pos 0) ∷ [] })
  unfolding throw_to
  throw_to-exits n st h e = exc_quit-exits n st h e

  -- The state in which an exception is thrown.
  abbrev pub thrown : ℕ → VmState O → VmState O
  thrown n st =
      no_more_code cv (set_stack (StackValue.int (pos n) ∷ StackValue.int (pos 0) ∷ []) st)

  pub throw-default :
      (n : ℕ) (st : VmState O)
      → leb n 0xffff ≡ true
      → pays st ≡ true
      → get_c 2 st.cr ≡ a_cont Cont.exc_quit
      → throw_exception cv (pos n) st ≡ (ok (negsuc n), ended st)
  unfolding throw_exception throw_exception_with_arg no_more_code set_stack ended
  throw-default n st h gas c2 =
      >>=-ok (on_gas try_consume_exception_gas)
        (λ _. gets (λ s. get_c 2 s.cr) >>= λ c. throw_to cv c) (thrown n st)
        (exception_paid (thrown n st) gas)
      ∙ ap (λ c. throw_to cv c (record (thrown n st) { gas = charged st })) c2
      ∙ throw_to-exits n (record (thrown n st) { gas = charged st }) h refl

  pub throw-not_paid :
      (n : ℕ) (st : VmState O)
      → pays st ≡ false
      → throw_exception cv (pos n) st
        ≡ (err (VmError.cell_error CellError.cancelled), record (thrown n st) { gas = charged st })
  unfolding throw_exception throw_exception_with_arg no_more_code set_stack
  throw-not_paid n st gas =
      >>=-err (on_gas try_consume_exception_gas)
        (λ _. gets (λ s. get_c 2 s.cr) >>= λ c. throw_to cv c) (thrown n st)
        (exception_not_paid (thrown n st) gas)
