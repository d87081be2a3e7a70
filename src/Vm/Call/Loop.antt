-- ===== src/Vm/Call/Loop.antt =====
-- The rounds of a loop with a count (vm/src/state.rs, `repeat`; vm/src/cont.rs, `RepeatCont`).
use tycho_vm.Prelude.{ℕ, zero, suc, ◌≤◌, ◌≡◌, ap, ◌∙◌, arith, ok, ◌>>=◌}
use tycho_vm.Prelude.Int.{pos}
use tycho_vm.Vm.Stack.Values.{Cont, OptCont, a_cont}
use tycho_vm.Vm.State.{VmState}
use tycho_vm.Vm.Control.{get_c, put_c, saved_stack, nargs, save}
use tycho_vm.Vm.Control.Saved.{merge-no_regs, put_c0_twice, get-put_c0}
use tycho_vm.Vm.Machine.{
  CodeView, set_reg, taken, take_reg, take_c0, has_args, data_of, get_control_data, is_tuple,
  is_some, adjust_cr, set_code, force_cp, has_c0, is_cont,
}
use tycho_vm.Vm.Jump.{
  jump, ret, do_jump_to, size, jump_loop, cont_jump, jump_ord, jump_repeat, set_c0_unless, followed,
  adjust_if_args,
}
use tycho_vm.Vm.Call.{simple, repeat}

module _ {O : Type 0} (cv : CodeView O) (body_code after_code : O) where
  -- The loop with `n` more rounds.
  more : ℕ → Cont O
  more n = Cont.repeat n (simple cv body_code 0) (simple cv after_code 0)

  -- The state at the start of a piece of code.
  at : O → OptCont O → VmState O → VmState O
  at code c0 st = record st { code = code; cp = 0; cr = put_c 0 c0 st.cr }

  ret-more :
      (n : ℕ) (st : VmState O)
      → get_c 0 st.cr ≡ a_cont (more (suc n))
      → ret st ≡ (ok (pos 0), at body_code (a_cont (more n)) st)
  unfolding at more simple ret take_c0 take_reg taken jump has_args data_of get_control_data
      saved_stack nargs is_tuple is_some do_jump_to size jump_loop cont_jump jump_ord jump_repeat
      set_c0_unless has_c0 is_cont get_c save followed adjust_if_args adjust_cr set_code force_cp
      set_reg
  ret-more n st h =
      ap (λ x. (taken x >>= λ c. jump c) (set_reg 0 (a_cont st.quit0) st)) h
      ∙ ap (λ r. (ok (pos 0), record st { code = body_code; cp = 0; cr = r }))
          (merge-no_regs (put_c 0 (a_cont (more n)) (put_c 0 (a_cont st.quit0) st.cr))
            ∙ put_c0_twice (a_cont (more n)) (a_cont st.quit0) st.cr)

  ret-last :
      (st : VmState O)
      → get_c 0 st.cr ≡ a_cont (more 0)
      → ret st ≡ (ok (pos 0), at after_code (a_cont st.quit0) st)
  unfolding at more simple ret take_c0 take_reg taken jump has_args data_of get_control_data
      saved_stack nargs is_tuple is_some do_jump_to size jump_loop cont_jump jump_ord jump_repeat
      followed adjust_if_args adjust_cr set_code force_cp set_reg
  ret-last st h =
      ap (λ x. (taken x >>= λ c. jump c) (set_reg 0 (a_cont st.quit0) st)) h
      ∙ ap (λ r. (ok (pos 0), record st { code = after_code; cp = 0; cr = r }))
          (merge-no_regs (put_c 0 (a_cont st.quit0) st.cr))

  repeat-starts :
      (n : ℕ) (st : VmState O)
      → repeat cv (simple cv body_code 0) (simple cv after_code 0) (suc n) st
        ≡ (ok (pos 0), at body_code (a_cont (more n)) st)
  unfolding at more simple repeat jump has_args data_of get_control_data saved_stack nargs is_tuple
      is_some do_jump_to size jump_loop cont_jump jump_ord jump_repeat set_c0_unless has_c0 is_cont
      get_c save followed adjust_if_args adjust_cr set_code force_cp set_reg
  repeat-starts n st =
      ap (λ r. (ok (pos 0), record st { code = body_code; cp = 0; cr = r }))
        (merge-no_regs (put_c 0 (a_cont (more n)) st.cr))

  -- `n` times: the body's effect, and the return from it.
  pub rounds : (VmState O → VmState O) → ℕ → VmState O → VmState O
  rounds body zero st = st
  rounds body (suc n) st = rounds body n ((ret (body st)).1)

  abbrev Inside : ℕ → VmState O → Type 0
  Inside n st = (get_c 0 st.cr ≡ a_cont (more n)) × (st.code ≡ body_code)

  round-Inside :
      (body : VmState O → VmState O)
      → ((s : VmState O) → get_c 0 (body s).cr ≡ get_c 0 s.cr)
      → (n : ℕ) (st : VmState O) → Inside (suc n) st
      → Inside n ((ret (body st)).1)
  unfolding at
  round-Inside body keeps n st (h, _) =
      let e = ret-more n (body st) (keeps st ∙ h) in
      (ap (λ p. get_c 0 p.1.cr) e ∙ get-put_c0 (a_cont (more n)) (body st).cr, ap (λ p. p.1.code) e)

  rounds-Inside :
      (body : VmState O → VmState O)
      → ((s : VmState O) → get_c 0 (body s).cr ≡ get_c 0 s.cr)
      → (i n : ℕ) (st : VmState O) → i ≤ n
      → Inside n st
      → (rounds body i st).code ≡ body_code
  unfolding rounds
  rounds-Inside body keeps zero n st h inside = inside.1
  rounds-Inside body keeps (suc i) (suc n) st h inside =
      rounds-Inside body keeps i n ((ret (body st)).1) (omega arith)
        (round-Inside body keeps n st inside)
  rounds-Inside body keeps (suc i) zero st h inside = ground arith

  rounds-after :
      (body : VmState O → VmState O)
      → ((s : VmState O) → get_c 0 (body s).cr ≡ get_c 0 s.cr)
      → (n : ℕ) (st : VmState O) → Inside n st
      → (rounds body (suc n) st).code ≡ after_code
  unfolding rounds at
  rounds-after body keeps zero st (h, _) = ap (λ p. p.1.code) (ret-last (body st) (keeps st ∙ h))
  rounds-after body keeps (suc n) st inside =
      rounds-after body keeps n ((ret (body st)).1) (round-Inside body keeps n st inside)

  -- A loop that is to run `n + 1` times reaches the code after it: whatever the body does, if it returns with the `c0` that it
  -- had, the first `n` returns start the body again, and the next one starts the code after the loop. Body and
  -- continuation are plain code.
  pub repeat-ends :
      (body : VmState O → VmState O)
      → ((s : VmState O) → get_c 0 (body s).cr ≡ get_c 0 s.cr)
      → (i n : ℕ) (st : VmState O) → i ≤ n
      → let start = (repeat cv (simple cv body_code 0) (simple cv after_code 0) (suc n) st).1 in
        ((rounds body i start).code ≡ body_code) × ((rounds body (suc n) start).code ≡ after_code)
  unfolding at
  repeat-ends body keeps i n st h =
      let e = repeat-starts n st in
      let inside : Inside n
          (repeat cv (simple cv body_code 0) (simple cv after_code 0) (suc n) st).1 =
        (ap (λ p. get_c 0 p.1.cr) e ∙ get-put_c0 (a_cont (more n)) st.cr, ap (λ p. p.1.code) e) in
      (
        rounds-Inside body keeps i n
            ((repeat cv (simple cv body_code 0) (simple cv after_code 0) (suc n) st).1) h inside,
        rounds-after body keeps n
            ((repeat cv (simple cv body_code 0) (simple cv after_code 0) (suc n) st).1) inside,
      )
