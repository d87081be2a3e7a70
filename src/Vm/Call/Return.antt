-- ===== src/Vm/Call/Return.antt =====
-- A call and the return from it (vm/src/state.rs, `call` and `ret`).
use tycho_vm.Prelude.{◌≡◌, ap, sym, ◌∙◌, none, some, ok, ◌>>=◌}
use tycho_vm.Prelude.Int.{pos}
use tycho_vm.Vm.Stack.Values.{Cont, control_data, a_cont, no_tuple}
use tycho_vm.Vm.State.{VmState}
use tycho_vm.Vm.Control.{no_regs, get_c, put_c, saved_stack, nargs, save}
use tycho_vm.Vm.Control.Saved.{merge-no_regs, merge-c0, get-put_c0}
use tycho_vm.Vm.Machine.{
  CodeView, set_reg, taken, take_reg, take_c0, has_args, data_of, get_control_data, is_tuple,
  is_some, adjust_cr, set_code, force_cp, has_c0, is_cont,
}
use tycho_vm.Vm.Jump.{jump, ret, do_jump_to, size, jump_loop, cont_jump, jump_ord, followed}
use tycho_vm.Vm.Call.{simple, return_to, call, call_simple, no_more_code}

module _ {O : Type 0} where
  -- The continuation that a simple call returns to.
  back_to : Cont O → O → Cont O
  back_to k code = Cont.ord (control_data none no_tuple (put_c 0 (a_cont k) no_regs) (some 0)) code

  ret-back_to :
      (k : Cont O) (code : O) (st : VmState O)
      → get_c 0 st.cr ≡ a_cont (back_to k code)
      → ret st ≡ (ok (pos 0), record st { code = code; cp = 0; cr = put_c 0 (a_cont k) st.cr })
  unfolding ret take_c0 take_reg taken back_to jump has_args data_of get_control_data saved_stack
      nargs is_tuple is_some do_jump_to size jump_loop cont_jump jump_ord followed adjust_cr
      set_code force_cp set_reg
  ret-back_to k code st h =
      ap (λ x. (taken x >>= λ c. jump c) (set_reg 0 (a_cont st.quit0) st)) h
      ∙ ap (λ r. (ok (pos 0), record st { code = code; cp = 0; cr = r }))
          (merge-c0 (a_cont st.quit0) k st.cr)

  -- The state in which the code of a simple continuation starts.
  called : (cv : CodeView O) → O → VmState O → VmState O
  called cv code st = record st {
    code = code;
    cp = 0;
    cr = put_c 0 (a_cont (return_to cv none no_tuple (get_c 0 st.cr) st)) st.cr;
  }

  call-simple :
      (cv : CodeView O) (code : O) (st : VmState O)
      → call cv (simple cv code 0) st ≡ (ok (pos 0), called cv code st)
  unfolding called call call_simple simple no_more_code set_reg has_args has_c0 is_cont get_c save
      data_of get_control_data saved_stack nargs is_tuple is_some do_jump_to size jump_loop
      cont_jump jump_ord followed adjust_cr set_code force_cp
  call-simple cv code' st =
      let back = return_to cv none no_tuple (get_c 0 st.cr) st in
      ap (λ r. (ok (pos 0), record st { code = code'; cp = 0; cr = r }))
        (merge-no_regs (put_c 0 (a_cont back) st.cr))

  return_to-back_to :
      (cv : CodeView O) (k : Cont O) (st : VmState O)
      → st.cp ≡ 0
      → get_c 0 st.cr ≡ a_cont k
      → return_to cv none no_tuple (get_c 0 st.cr) st ≡ back_to k st.code
  unfolding return_to back_to
  return_to-back_to cv k st page set_ =
      ap (λ c. Cont.ord (control_data none no_tuple (put_c 0 c no_regs) (some st.cp)) st.code) set_
      ∙ ap
          (λ p. Cont.ord (control_data none no_tuple (put_c 0 (a_cont k) no_regs) (some p)) st.code)
          page

  -- A call of a plain continuation starts its code on the same stack, and a later return, from any state with the same `c0`,
  -- goes on with the code and the codepage of the caller and has its `c0` again. The rest of the state stays as the return
  -- found it. The caller has a `c0`, and the codepage is 0, as there is no other.
  pub call-ret :
      (cv : CodeView O) (code : O) (k : Cont O) (st later : VmState O)
      → st.cp ≡ 0
      → get_c 0 st.cr ≡ a_cont k
      → get_c 0 later.cr ≡ get_c 0 (call cv (simple cv code 0) st).1.cr
      → ((call cv (simple cv code 0) st).0 ≡ ok (pos 0))
        × ((call cv (simple cv code 0) st).1.code ≡ code)
        × ((call cv (simple cv code 0) st).1.stack ≡ st.stack)
        × (ret later ≡ (
          ok (pos 0),
          record later { code = st.code; cp = st.cp; cr = put_c 0 (get_c 0 st.cr) later.cr },
        ))
  unfolding called
  call-ret cv code' k st later page set_ kept =
      let e = call-simple cv code' st in
      let back = return_to cv none no_tuple (get_c 0 st.cr) st in
      let c0 =
        kept
        ∙ ap (λ p. get_c 0 p.1.cr) e
        ∙ get-put_c0 (a_cont back) st.cr
        ∙ ap a_cont (return_to-back_to cv k st page set_) in
      (
        ap (λ p. p.0) e,
        ap (λ p. p.1.code) e,
        ap (λ p. p.1.stack) e,
        ret-back_to k st.code later c0
            ∙ ap
                (λ n. (
                  ok (pos 0),
                  record later { code = st.code; cp = n; cr = put_c 0 (a_cont k) later.cr },
                ))
                (sym page)
            ∙ ap
                (λ c. (
                  ok (pos 0),
                  record later { code = st.code; cp = st.cp; cr = put_c 0 c later.cr },
                ))
                (sym set_),
      )
