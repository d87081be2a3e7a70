-- ===== src/Vm/Jump/Keeps.antt =====
-- What actions of the execution state keep of the registers `c0` and `c1`: the logic of the invariant.
use tycho_vm.Prelude.{
  ℕ, ◌≤◌, ◌≡◌, refl, ap, ◌∙◌, arith, Bool, true, false, ◌&&◌, ◌||◌, Option, none, some, leb, Result,
  ok, err, Action, ◌>>=◌, ◌>>◌, pure, ensure, if◌then◌else◌,
}
use tycho_vm.Vm.Error.{VmError, is_out_of_gas}
use tycho_vm.Vm.Stack.Values.{ControlRegs}
use tycho_vm.Vm.State.{VmState}
use tycho_vm.Vm.Control.{get_c}
use tycho_vm.Vm.Machine.{unwrap_or, is_cont}
use tycho_vm.Vm.Jump.{or_else}

-- A result that is a value or the end of the gas.
unfoldable pub paid : {A : Type 0} → Result VmError A → Bool
paid (ok _) = true
paid (err e) = is_out_of_gas e

pub or-true : (b : Bool) → b || true ≡ true
or-true true = refl
or-true false = refl

-- The number of entries to pass is in the stack after the checks.
pub checked_depth :
    (n pass_args : Option ℕ) (depth : ℕ)
    → leb (unwrap_or pass_args 0) depth && leb (unwrap_or n 0) depth ≡ true
    → unwrap_or (or_else n pass_args) depth ≤ depth
unfolding unwrap_or or_else
checked_depth none none depth h = omega arith
checked_depth none (some m) depth h = ground arith
checked_depth (some n) none depth h = ground arith
checked_depth (some n) (some m) depth h = ground arith

module _ {O : Type 0} where
  -- Both registers are set.
  unfoldable pub linked : ControlRegs O → Bool
  linked r = is_cont (get_c 0 r) && is_cont (get_c 1 r)

  -- A state with `post` after a value, and with both registers set after an error, unless the gas has ended.
  unfoldable pub fine : {A : Type 0} → (ControlRegs O → Bool) → Result VmError A × VmState O → Bool
  fine post (ok _, st) = post st.cr
  fine post (err e, st) = is_out_of_gas e || linked st.cr

  unfoldable pub Keeps :
      {A : Type 0}
      → (ControlRegs O → Bool)
      → Action (VmState O) VmError A
      → (ControlRegs O → Bool)
      → Type 0
  Keeps pre m post = (st : VmState O) → pre st.cr ≡ true → fine post (m st) ≡ true

  pub Keeps-bind :
      {A B : Type 0} (pre mid post : ControlRegs O → Bool) (m : Action (VmState O) VmError A)
      (f : A → Action (VmState O) VmError B)
      → Keeps pre m mid
      → ((a : A) → Keeps mid (f a) post)
      → Keeps pre (m >>= f) post
  unfolding Keeps fine
  Keeps-bind {A} {B} pre mid post m f first then_ st h = go (m st) (first st h)
    where
      go :
          (p : Result VmError A × VmState O)
          → fine mid p ≡ true
          → fine post (((λ _. p) >>= f) st) ≡ true
      go (ok a, t) k = then_ a t k
      go (err e, t) k = k

  pub fine-paid :
      {A : Type 0} (post : ControlRegs O → Bool) (p : Result VmError A × VmState O)
      → paid p.0 ≡ true
      → post p.1.cr ≡ true
      → fine post p ≡ true
  unfolding fine paid
  fine-paid post (ok a, t) k h = h
  fine-paid post (err e, t) k h = ap (λ b. b || linked t.cr) k

  -- An action that pays and leaves the registers alone.
  pub Keeps-paid :
      {A : Type 0} (pre : ControlRegs O → Bool) (m : Action (VmState O) VmError A)
      → ((st : VmState O) → (paid (m st).0 ≡ true) × ((m st).1.cr ≡ st.cr))
      → Keeps pre m pre
  unfolding Keeps
  Keeps-paid pre m pays st h = fine-paid pre (m st) ((pays st).0) (ap pre ((pays st).1) ∙ h)

  -- An action that leaves the registers alone, which are both set.
  pub Keeps-same :
      {A : Type 0} (m : Action (VmState O) VmError A)
      → ((st : VmState O) → (m st).1.cr ≡ st.cr)
      → Keeps linked m linked
  unfolding Keeps fine
  Keeps-same {A} m same st h = go (m st) (same st)
    where
      go : (p : Result VmError A × VmState O) → p.1.cr ≡ st.cr → fine linked p ≡ true
      go (ok a, t) e = ap linked e ∙ h
      go (err e', t) e =
          ap (λ b. is_out_of_gas e' || b) (ap linked e ∙ h) ∙ or-true (is_out_of_gas e')

  pub Keeps-pure : {A : Type 0} (pre : ControlRegs O → Bool) (a : A) → Keeps pre (pure a) pre
  unfolding Keeps fine
  Keeps-pure pre a st h = h

  pub Keeps-if :
      {A : Type 0} (pre post : ControlRegs O → Bool) (b : Bool) (m n : Action (VmState O) VmError A)
      → Keeps pre m post
      → Keeps pre n post
      → Keeps pre (if b then m else n) post
  Keeps-if pre post true m n h k = h
  Keeps-if pre post false m n h k = k

  -- An action after two checks.
  pub fine-ensure :
      {A : Type 0} (post : ControlRegs O → Bool) (b c : Bool) (e e' : VmError)
      (k : Action (VmState O) VmError A) (st : VmState O)
      → linked st.cr ≡ true
      → (b ≡ true → c ≡ true → fine post (k st) ≡ true)
      → fine post (((ensure b e >> ensure c e') >> k) st) ≡ true
  unfolding fine
  fine-ensure post true true e e' k st h then_ = then_ refl refl
  fine-ensure post true false e e' k st h then_ =
      ap (λ b. is_out_of_gas e' || b) h ∙ or-true (is_out_of_gas e')
  fine-ensure post false c e e' k st h then_ =
      ap (λ b. is_out_of_gas e || b) h ∙ or-true (is_out_of_gas e)

  -- An action that pays, before another.
  pub fine-after :
      {A B : Type 0} (post : ControlRegs O → Bool) (m : Action (VmState O) VmError A)
      (f : A → Action (VmState O) VmError B) (st : VmState O)
      → paid (m st).0 ≡ true
      → (m st).1.cr ≡ st.cr
      → ((a : A) (t : VmState O) → t.cr ≡ st.cr → fine post (f a t) ≡ true)
      → fine post ((m >>= f) st) ≡ true
  unfolding fine paid
  fine-after {A} {B} post m f st pays same then_ = go (m st) pays same
    where
      go :
          (p : Result VmError A × VmState O)
          → paid p.0 ≡ true
          → p.1.cr ≡ st.cr
          → fine post (((λ _. p) >>= f) st) ≡ true
      go (ok a, t) k e = then_ a t e
      go (err e', t) k e = ap (λ b. b || linked t.cr) k
