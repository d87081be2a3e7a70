-- ===== src/Vm/Gas/Providers.antt =====
-- Library providers put together from others (vm/src/gas.rs): an absent one, two or three in order,
-- and a list of dictionaries.
use tycho_vm.Prelude.{ℕ, ◌≡◌, ◌≢◌, Option, none, some, List, [], ◌∷◌, ◌++◌, Result, ok, err, arith}
use tycho_vm.Vm.Error.{CellError}
use tycho_vm.Vm.Gas.{LibraryProvider}

module _ {Cell : Type 0} where
  -- `NoLibraries`.
  unfoldable pub no_libraries : LibraryProvider Cell
  no_libraries hash = ok none

  -- `Option<T>`.
  optional : Option (LibraryProvider Cell) → LibraryProvider Cell
  optional (some this) hash = this hash
  optional none hash = ok none

  or_else :
      Result CellError (Option Cell)
      → Result CellError (Option Cell)
      → Result CellError (Option Cell)
  or_else (ok (some cell)) rest = ok (some cell)
  or_else (ok none) rest = rest
  or_else (err e) rest = err e

  -- `(T1, T2)`.
  pub pair : LibraryProvider Cell → LibraryProvider Cell → LibraryProvider Cell
  unfolding or_else
  pair first second hash = or_else (first hash) (second hash)

  -- `(T1, T2, T3)`.
  pub triple :
      LibraryProvider Cell → LibraryProvider Cell → LibraryProvider Cell → LibraryProvider Cell
  unfolding or_else
  triple first second third hash = or_else (first hash) (or_else (second hash) (third hash))

  -- `Vec<Dict<HashBytes, SimpleLib>>`; a dictionary is its `get`, with the root of the library.
  unfoldable pub find_first : List (LibraryProvider Cell) → LibraryProvider Cell
  unfolding or_else
  find_first [] hash = ok none
  find_first (lib ∷ libs) hash = or_else (lib hash) (find_first libs hash)

  -- None of these providers has the library, and none fails on the way.
  abbrev pub AllMiss : ℕ → List (LibraryProvider Cell) → Type 0
  AllMiss hash [] = Unit
  AllMiss hash (lib ∷ libs) = (lib hash ≡ ok none) × AllMiss hash libs

  -- A list of dictionaries answers with the first answer that is not a miss, an error too: if all
  -- before `lib` miss and `lib` does not, the answer is that of `lib`, whatever follows.
  pub find_first_hit :
      (hash : ℕ) (before after : List (LibraryProvider Cell)) (lib : LibraryProvider Cell)
      → AllMiss hash before
      → lib hash ≢ ok none
      → find_first (before ++ lib ∷ after) hash ≡ lib hash
  unfolding find_first
  find_first_hit hash [] after lib m h = ground arith
  find_first_hit hash (b ∷ before) after lib m h =
      rw (m.0, or_else) (find_first_hit hash before after lib m.1 h)

  -- Tuples of providers and the list of the same providers answer alike.
  pub triple-eq-find_first :
      (a b c : LibraryProvider Cell) (hash : ℕ)
      → (triple a b c hash ≡ find_first (a ∷ b ∷ c ∷ []) hash)
        × (pair a (pair b c) hash ≡ triple a b c hash)
  unfolding triple pair find_first
  triple-eq-find_first a b c hash = ground arith
