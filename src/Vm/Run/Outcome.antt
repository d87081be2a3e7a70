-- ===== src/Vm/Run/Outcome.antt =====
-- Errors that nothing handles (vm/src/state.rs, `run_inner`).
use tycho_vm.Prelude.{
  ℕ, ◌+◌, ◌≡◌, refl, ap, ◌∙◌, arith, Bool, true, false, [], ◌∷◌, if◌then◌else◌, ok, err, Action,
  Result,
}
use tycho_vm.Prelude.Int.{ℤ, pos}
use tycho_vm.Vm.Error.{VmError, as_exception, discriminant, as_exit_code, is_out_of_gas}
use tycho_vm.Vm.Gas.{consumed}
use tycho_vm.Vm.Stack.Values.{StackValue, Cont, a_cont}
use tycho_vm.Vm.State.{VmState}
use tycho_vm.Vm.Control.{get_c}
use tycho_vm.Vm.Machine.{CodeView, set_stack}
use tycho_vm.Vm.Call.{no_more_code, throw_out_of_gas}
use tycho_vm.Vm.Run.{
  Iteration, code, returned, count_step, step, handle_error, stop_out_of_gas, outcome, iteration,
}
use tycho_vm.Vm.Run.Thrown.{
  discriminant-small, charged, pays, ended, thrown, throw-default, throw-not_paid,
}

module _ {O : Type 0} (cv : CodeView O) (dispatch : Action (VmState O) VmError ℤ) where
  -- What `handle_error` does with the result of the throw.
  abbrev handled : VmError → Result VmError ℤ × VmState O → Iteration × VmState O
  handled e (r, st) = elim r [
    | ok res ↦ (code res, st)
    | err e' ↦
        if is_out_of_gas e'
        then stop_out_of_gas cv dispatch st
        else (returned (as_exit_code (as_exception e)), st)
  ]

  handle-default :
      (e : VmError) (st : VmState O)
      → pays st ≡ true
      → get_c 2 st.cr ≡ a_cont Cont.exc_quit
      → handle_error cv dispatch e st
        ≡ (code (as_exit_code (as_exception e)), ended cv (count_step cv dispatch st))
  unfolding handle_error count_step as_exit_code
  handle-default e st gas c2 = ap (handled e) (
      throw-default cv (discriminant (as_exception e)) (count_step cv dispatch st)
        (discriminant-small (as_exception e)) gas c2)

  handle-not_paid :
      (e : VmError) (st : VmState O)
      → pays st ≡ false
      → handle_error cv dispatch e st ≡ (
        code (pos 13),
        record (thrown cv (discriminant (as_exception e)) st) {
          gas = charged st;
          stack = StackValue.int (pos (consumed (charged st))) ∷ [];
          steps = (st.steps + 1) + 1;
        },
      )
  unfolding handle_error count_step stop_out_of_gas throw_out_of_gas is_out_of_gas set_stack
      no_more_code
  handle-not_paid e st gas =
      ap (handled e)
        (throw-not_paid cv (discriminant (as_exception e)) (count_step cv dispatch st) gas)

  -- How an iteration ends: with the code, one entry on the stack, and that many more steps.
  abbrev Ends : VmState O → ℤ → ℕ → ℕ → Iteration × VmState O → Type 0
  Ends st exit_code entry more (i, st') =
      (i ≡ code exit_code)
      × (st'.stack ≡ StackValue.int (pos entry) ∷ [])
      × (st'.steps ≡ st.steps + more)

  handle_error-Ends :
      (e : VmError) (st : VmState O)
      → (pays st ≡ true → get_c 2 st.cr ≡ a_cont Cont.exc_quit)
      → (b : Bool) → pays st ≡ b
      → Ends st
          (if b then as_exit_code (as_exception e) else pos 13)
          (if b then 0 else consumed (charged st))
          (if b then 1 else 2)
          (handle_error cv dispatch e st)
  unfolding ended count_step
  handle_error-Ends e st c2 true gas =
      let eq = handle-default e st gas (c2 gas) in
      (ap (λ p. p.0) eq, ap (λ p. p.1.stack) eq, ap (λ p. p.1.steps) eq)
  handle_error-Ends e st c2 false gas =
      let eq = handle-not_paid e st gas in
      (ap (λ p. p.0) eq, ap (λ p. p.1.stack) eq, omega (arith, ap (λ p. p.1.steps) eq))

  outcome-Ends :
      (e : VmError) (st : VmState O)
      → (is_out_of_gas e ≡ false → pays st ≡ true → get_c 2 st.cr ≡ a_cont Cont.exc_quit)
      → (b : Bool) → is_out_of_gas e ≡ b
      → Ends st
          (if b then pos 13 else if pays st then as_exit_code (as_exception e) else pos 13)
          (if b then consumed st.gas else if pays st then 0 else consumed (charged st))
          (if b then 1 else if pays st then 1 else 2)
          (outcome cv dispatch (err e) st)
  unfolding outcome stop_out_of_gas throw_out_of_gas count_step set_stack
  outcome-Ends e st c2 true oog =
      let eq =
        ap (λ b. if b then stop_out_of_gas cv dispatch st else handle_error cv dispatch e st) oog in
      (ap (λ p. p.0) eq, ap (λ p. p.1.stack) eq, ap (λ p. p.1.steps) eq)
  outcome-Ends e st c2 false oog =
      let eq =
        ap (λ b. if b then stop_out_of_gas cv dispatch st else handle_error cv dispatch e st) oog in
      let (a, b, c) = handle_error-Ends e st (c2 oog) (pays st) refl in
      (ap (λ p. p.0) eq ∙ a, ap (λ p. p.1.stack) eq ∙ b, ap (λ p. p.1.steps) eq ∙ c)

  -- An error of a step ends the iteration in one of three ways. If the error is that the gas has
  -- ended, the code is 13, the stack holds the gas consumed and one more step is counted. If what is left does not
  -- pay for an exception, the code is 13, the stack holds the gas consumed with that charge, and two more
  -- steps are counted. Otherwise, if `c2` is then the default handler, the code is the exit code of the error's
  -- exception, the stack holds a zero, and one more step is counted.
  pub iteration-unhandled :
      (e : VmError) (st failed : VmState O)
      → step cv dispatch st ≡ (err e, failed)
      → (is_out_of_gas e ≡ false → pays failed ≡ true → get_c 2 failed.cr ≡ a_cont Cont.exc_quit)
      → let gas_ended = is_out_of_gas e in
        let exit_code =
          if gas_ended
          then pos 13
          else if pays failed
          then as_exit_code (as_exception e)
          else pos 13 in
        let entry =
          if gas_ended
          then consumed failed.gas
          else if pays failed
          then 0
          else consumed (charged failed) in
        let more : ℕ = if gas_ended then 1 else if pays failed then 1 else 2 in
        ((iteration cv dispatch st).0 ≡ code exit_code)
        × ((iteration cv dispatch st).1.stack ≡ StackValue.int (pos entry) ∷ [])
        × ((iteration cv dispatch st).1.steps ≡ failed.steps + more)
  unfolding iteration
  iteration-unhandled e st failed fails c2 =
      let same = ap (λ p. let (r, st') = p in outcome cv dispatch r st') fails in
      let (a, b, c) = outcome-Ends e failed c2 (is_out_of_gas e) refl in
      (ap (λ p. p.0) same ∙ a, ap (λ p. p.1.stack) same ∙ b, ap (λ p. p.1.steps) same ∙ c)
