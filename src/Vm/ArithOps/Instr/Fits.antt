-- ===== src/Vm/ArithOps/Instr/Fits.antt =====
-- The integers that arithmetic instructions leave on the stack, and their size.
use tycho_vm.Prelude.{
  ℕ, ◌≡◌, refl, Bool, true, false, if◌then◌else◌, ltb, Option, none, some, [], ◌∷◌, length, Result,
  ok, err, fail,
}
use tycho_vm.Prelude.Safe.{Safe, Any, OnOk, keeping, bind-Safe, lift-Safe, still-Safe}
use tycho_vm.Prelude.Int.{ℤ}
use tycho_vm.Vm.Error.{VmError}
use tycho_vm.Vm.Stack.Values.{StackValue, into_int, wrong_type}
use tycho_vm.Vm.Stack.Basic.{
  Stack, fits_257, max_depth, push_raw, push_raw_int, push_int, push_nan, pop,
}
use tycho_vm.Vm.Stack.Typed.{pop_int, pop_int_or_nan, pop_smallint_range, int_or_nan, in_range}

-- `NaN` is allowed, and any integer that fits.
abbrev pub IfFits : Option ℤ → Type 0
IfFits (some x) = fits_257 x ≡ true
IfFits none = Unit {0}

module _ {O : Type 0} where
  -- What is no integer has no size.
  unfoldable pub fits : StackValue O → Bool
  fits (StackValue.int x) = fits_257 x
  fits _ = true

  abbrev pub AllFit : Stack O → Type 0
  AllFit [] = Unit {0}
  AllFit (x ∷ s) = (fits x ≡ true) × AllFit s

  pub push_raw-Safe : (v : StackValue O) → fits v ≡ true → Safe AllFit Any (push_raw v)
  unfolding push_raw
  push_raw-Safe v f = keeping (λ s h. pushed s h)
    where
      pushed : (s : Stack O) → AllFit s → AllFit (push_raw v s).1
      pushed s h = go (ltb (length s) max_depth)
        where
          go :
              (b : Bool)
              → AllFit (
                  let x : Result VmError (Unit {0}) × Stack O =
                    if b then (ok tt, v ∷ s) else (err (VmError.stack_underflow max_depth), s) in
                  x.1)
          go true = (f, h)
          go false = h

  pub push_int-Safe : (x : ℤ) → fits_257 x ≡ true → Safe AllFit Any (push_int x)
  unfolding push_int fits
  push_int-Safe x f = push_raw-Safe (StackValue.int x) f

  pub push_nan-Safe : Safe AllFit Any push_nan
  unfolding push_nan fits
  push_nan-Safe = push_raw-Safe StackValue.nan refl

  pub push_raw_int-Safe : (x : ℤ) (quiet : Bool) → Safe AllFit Any (push_raw_int x quiet)
  unfolding push_raw_int
  push_raw_int-Safe x quiet = go (fits_257 x) refl
    where
      go :
          (b : Bool)
          → fits_257 x ≡ b
          → Safe AllFit Any (
              if b then push_int x else (if quiet then push_nan else fail VmError.integer_overflow))
      go true e = push_int-Safe x e
      go false e = refused quiet
        where
          refused :
              (b : Bool) → Safe AllFit Any (if b then push_nan else fail VmError.integer_overflow)
          refused true = push_nan-Safe
          refused false = still-Safe (err VmError.integer_overflow)

  pop-Safe : Safe AllFit (λ v. fits v ≡ true) pop
  unfolding pop
  pop-Safe = record {
    keeps = elim [ [] ↦ λ h. h | v ∷ s ↦ λ h. h.1 ];
    yields = elim [ [] ↦ λ h. tt | v ∷ s ↦ λ h. h.0 ];
  }

  int_or_nan-IfFits : (v : StackValue O) → fits v ≡ true → OnOk IfFits (int_or_nan v)
  unfolding int_or_nan fits into_int wrong_type
  int_or_nan-IfFits StackValue.null f = tt
  int_or_nan-IfFits StackValue.nan f = tt
  int_or_nan-IfFits (StackValue.int x) f = f
  int_or_nan-IfFits (StackValue.cell _) f = tt
  int_or_nan-IfFits (StackValue.slice _) f = tt
  int_or_nan-IfFits (StackValue.builder _) f = tt
  int_or_nan-IfFits (StackValue.cont _) f = tt
  int_or_nan-IfFits (StackValue.tuple _) f = tt

  pub pop_int_or_nan-Safe : Safe AllFit IfFits pop_int_or_nan
  unfolding pop_int_or_nan
  pop_int_or_nan-Safe = bind-Safe pop-Safe (λ v f. lift-Safe (int_or_nan v) (int_or_nan-IfFits v f))

  pub pop_smallint_range-Safe : (lo hi : ℕ) → Safe AllFit (Any {A = ℕ}) (pop_smallint_range lo hi)
  unfolding pop_smallint_range pop_int
  pop_smallint_range-Safe lo hi =
      bind-Safe (bind-Safe pop-Safe (λ v _. still-Safe (into_int v)))
        (λ x _. still-Safe (in_range lo hi x))
