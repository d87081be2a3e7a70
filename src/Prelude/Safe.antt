-- ===== src/Prelude/Safe.antt =====
-- Actions that keep an invariant of the state, and what is known of their results.
use tycho_vm.Prelude.Results.{Result, ok, err, Action, ◌>>=◌, ◌>>◌, lift}

-- The result is of the kind given, if there is one.
abbrev pub OnOk : {E A : Type 0} → (A → Type 0) → Result E A → Type 0
OnOk P (ok a) = P a
OnOk P (err _) = Unit {0}

-- Any result is allowed.
abbrev pub Any : {A : Type 0} → A → Type 0
Any _ = Unit {0}

pub Any-OnOk : {E A : Type 0} (r : Result E A) → OnOk Any r
Any-OnOk (ok _) = tt
Any-OnOk (err _) = tt

-- From a state with the invariant an action leaves one with it, also when it fails, and its result is of the kind given.
pub record Safe {S E A : Type 0} (Inv : S → Type 0) (P : A → Type 0) (m : Action S E A)
    : Type 0 where
  pub keeps : (s : S) → Inv s → Inv (m s).1
  pub yields : (s : S) → Inv s → OnOk P (m s).0

module _ {S E : Type 0} {Inv : S → Type 0} where
  -- An action with any result.
  pub keeping :
      {A : Type 0} {m : Action S E A} → ((s : S) → Inv s → Inv (m s).1) → Safe Inv (Any {A = A}) m
  keeping {A} {m} k = record { keeps = k; yields = λ s _. Any-OnOk (m s).0 }

  pub bind-Safe :
      {A B : Type 0} {P : A → Type 0} {Q : B → Type 0} {m : Action S E A} {f : A → Action S E B}
      → Safe Inv P m
      → ((a : A) → P a → Safe Inv Q (f a))
      → Safe Inv Q (m >>= f)
  bind-Safe {A} {B} {P} {Q} {m} {f} a b = record {
    keeps = λ s h. (go (m s).0 (m s).1 (a.keeps s h) (a.yields s h)).0;
    yields = λ s h. (go (m s).0 (m s).1 (a.keeps s h) (a.yields s h)).1;
  }
    where
      after : Result E A → S → Result E B × S
      after r t = elim r [ ok v ↦ f v t | err e ↦ (err e, t) ]

      go : (r : Result E A) (t : S) → Inv t → OnOk P r → Inv (after r t).1 × OnOk Q (after r t).0
      go (ok v) t h p = ((b v p).keeps t h, (b v p).yields t h)
      go (err e) t h p = (h, tt)

  pub seq-Safe :
      {A B : Type 0} {m : Action S E A} {k : Action S E B}
      → Safe Inv (Any {A = A}) m
      → Safe Inv (Any {A = B}) k
      → Safe Inv (Any {A = B}) (m >> k)
  seq-Safe a b = bind-Safe a (λ _ _. b)

  pub lift-Safe : {A : Type 0} {P : A → Type 0} (r : Result E A) → OnOk P r → Safe Inv P (lift r)
  lift-Safe r p = record { keeps = λ s h. h; yields = λ s h. p }

  pub still-Safe : {A : Type 0} (r : Result E A) → Safe Inv (Any {A = A}) (lift r)
  still-Safe r = keeping (λ s h. h)
