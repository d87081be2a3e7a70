-- ===== src/Prelude/Results.antt =====
-- Rust's `Result`, and methods that change a state and may fail: the state comes back also after
-- an error, since what was written stays written.
use mathlib.Core.Path.{◌≡◌, ap, refl}
use mathlib.Core.Bool.{Bool, true, false}
use mathlib.Core.Option.{Option, none, some}

pub data Result (E A : Type 0) : Type 0 where
  ok : A → Result E A
  err : E → Result E A

abbrev pub Action : Type 0 → Type 0 → Type 0 → Type 0
Action S E A = S → Result E A × S

infixl 5 ◌>>=◌ ◌>>◌
abbrev pub ◌>>=◌ : {S E A B : Type 0} → Action S E A → (A → Action S E B) → Action S E B
◌>>=◌ m f s = let (r, s') = m s in elim r [ ok a ↦ f a s' | err e ↦ (err e, s') ]

abbrev pub ◌>>◌ : {S E A B : Type 0} → Action S E A → Action S E B → Action S E B
m >> k = m >>= λ _. k

abbrev pub pure : {S E A : Type 0} → A → Action S E A
pure a s = (ok a, s)

abbrev pub fail : {S E A : Type 0} → E → Action S E A
fail e s = (err e, s)

-- `vm_ensure!` and `anyhow::ensure!`.
abbrev pub ensure : {S E : Type 0} → Bool → E → Action S E (Unit {0})
ensure true e s = (ok tt, s)
ensure false e s = (err e, s)

abbrev pub gets : {S E A : Type 0} → (S → A) → Action S E A
gets f s = (ok (f s), s)

abbrev pub modify : {S E : Type 0} → (S → S) → Action S E (Unit {0})
modify f s = (ok tt, f s)

abbrev pub lift : {S E A : Type 0} → Result E A → Action S E A
lift r s = (r, s)

-- `Option::ok_or`.
abbrev pub ok_or : {E A : Type 0} → Option A → E → Result E A
ok_or (some a) e = ok a
ok_or none e = err e

abbrev pub map_err : {E F A : Type 0} → (E → F) → Result E A → Result F A
map_err f (ok a) = ok a
map_err f (err e) = err (f e)

-- A step whose result is known.
pub >>=-ok :
    {S E A B : Type 0} (m : Action S E A) (f : A → Action S E B) (s : S) {a : A} {s' : S}
    → m s ≡ (ok a, s')
    → (m >>= f) s ≡ f a s'
>>=-ok {S} {E} {A} {B} m f s e = ap go e
  where
    go : Result E A × S → Result E B × S
    go (r, t) = elim r [ ok a ↦ f a t | err e' ↦ (err e', t) ]

-- A step that fails ends the action.
pub >>=-err :
    {S E A B : Type 0} (m : Action S E A) (f : A → Action S E B) (s : S) {e : E} {s' : S}
    → m s ≡ (err e, s')
    → (m >>= f) s ≡ (err e, s')
>>=-err {S} {E} {A} {B} m f s h = ap go h
  where
    go : Result E A × S → Result E B × S
    go (r, t) = elim r [ ok a ↦ f a t | err e' ↦ (err e', t) ]

-- Two continuations of the same step that agree.
pub >>=-same :
    {S E A B : Type 0} (m : Action S E A) (f g : A → Action S E B) (s : S)
    → ((a : A) (s' : S) → f a s' ≡ g a s')
    → (m >>= f) s ≡ (m >>= g) s
>>=-same {S} {E} {A} {B} m f g s same = go (m s)
  where
    go : (p : Result E A × S) → ((λ _. p) >>= f) s ≡ ((λ _. p) >>= g) s
    go (ok a, t) = same a t
    go (err e, t) = refl
