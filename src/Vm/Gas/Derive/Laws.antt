-- ===== src/Vm/Gas/Derive/Laws.antt =====
-- What a child VM can spend, and what its parent has afterwards.
use tycho_vm.Prelude.{ℕ, ◌≤◌, ◌≡◌, true, false, ok, Action, ◌>>◌, map_err, List, [], ◌∷◌, arith}
use tycho_vm.Prelude.Int.{pos, ◌+ℤ◌, ◌-ℤ◌, i64_max, as_u64, int_laws}
use tycho_vm.Vm.Error.{VmError}
use tycho_vm.Vm.Gas.{
  GasConsumer, truncate_gas, consumed, set_limit, set_gas, try_consume, consume_free_gas,
}
use tycho_vm.Vm.Gas.Invariant.{IsValid, SpentAtMost, set_limit_lem, set_limit-IsValid}
use tycho_vm.Vm.Gas.Derive.{
  GasConsumerDeriveParams, ParentGasConsumer, derive, restore, merge_missing,
}

-- What a child does with its consumer: it spends gas, notes free gas and sets its limit.
pub data Op : Type 0 where
  spend free limit : ℕ → Op

module _ {Cell : Type 0} where
  unfoldable pub step : Op → Action (GasConsumer Cell) VmError (Unit {0})
  unfolding try_consume
  step (spend amount) g = let (r, g') = try_consume amount g in (map_err VmError.cell_error r, g')
  step (free amount) g = (ok tt, consume_free_gas amount g)
  step (limit l) g = set_gas l g

  unfoldable pub run : List Op → Action (GasConsumer Cell) VmError (Unit {0})
  run [] g = (ok tt, g)
  run (op ∷ ops) g = (step op >> run ops) g

  -- A consumer that can never spend more than `bound`.
  record IsBounded (bound : ℕ) (g : GasConsumer Cell) : Type 0 where
    valid : IsValid g
    base_le : g.gas_base ≤ bound
    max_le : g.gas_max ≤ bound
    spent : SpentAtMost bound g

  set_limit-IsBounded :
      (l : ℕ) (bound : ℕ) (g : GasConsumer Cell)
      → bound ≤ i64_max
      → IsBounded bound g
      → IsBounded bound (set_limit l g)
  set_limit-IsBounded l bound g le b =
      let fits : SpentAtMost i64_max g = omega (int_laws, b.spent) in
      let valid = set_limit-IsValid l g b.valid fits in
      rw (set_limit_lem l g b.valid fits) (record {
        valid = rw (set_limit_lem l g b.valid fits) at valid;
        base_le = omega arith;
        max_le = b.max_le;
        spent = omega (int_laws, b.spent);
      })

  set_gas-IsBounded :
      (l : ℕ) (bound : ℕ) (g : GasConsumer Cell)
      → bound ≤ i64_max
      → IsBounded bound g
      → (set_gas l g).0 ≡ ok tt
      → IsBounded bound (set_gas l g).1
  unfolding set_gas
  set_gas-IsBounded l bound g le b e = ground (arith, set_limit-IsBounded l bound g le b)

  step-IsBounded :
      (op : Op) (bound : ℕ) (g : GasConsumer Cell)
      → bound ≤ i64_max
      → IsBounded bound g
      → (step op g).0 ≡ ok tt
      → IsBounded bound (step op g).1
  unfolding step try_consume consume_free_gas ◌-ℤ◌ ◌+ℤ◌
  step-IsBounded (spend amount) bound g le b e = ground arith
  step-IsBounded (free amount) bound g le b e = ground arith
  step-IsBounded (limit l) bound g le b e = set_gas-IsBounded l bound g le b e

  run-IsBounded :
      (ops : List Op) (bound : ℕ) (g : GasConsumer Cell)
      → bound ≤ i64_max
      → IsBounded bound g
      → (run ops g).0 ≡ ok tt
      → IsBounded bound (run ops g).1
  unfolding run
  run-IsBounded [] bound g le b e = b
  run-IsBounded (op ∷ ops) bound g le b e =
      ground (arith, step-IsBounded op bound g le b, run-IsBounded ops bound (step op g).1 le)

  derive-IsBounded :
      (params : GasConsumerDeriveParams) (g : GasConsumer Cell) (parent : ParentGasConsumer Cell)
      → IsValid g
      → (derive params g).0 ≡ ok parent
      → IsBounded (as_u64 g.gas_remaining) (derive params g).1
  unfolding derive try_consume ◌-ℤ◌ ◌+ℤ◌
  derive-IsBounded params g parent v e = ground arith

  consumed-IsBounded :
      (bound : ℕ) (g : GasConsumer Cell) → bound ≤ i64_max → IsBounded bound g → consumed g ≤ bound
  unfolding consumed ◌-ℤ◌ ◌+ℤ◌
  consumed-IsBounded bound g le b = ground arith

  as_u64-derive :
      (params : GasConsumerDeriveParams) (g : GasConsumer Cell) (parent : ParentGasConsumer Cell)
      → IsValid g
      → (derive params g).0 ≡ ok parent
      → as_u64 g.gas_remaining ≤ i64_max
  unfolding derive try_consume ◌-ℤ◌
  as_u64-derive params g parent v e = ground arith

  -- Whatever a child VM does with the consumer it got from a well-formed parent, in whatever order it
  -- spends gas, notes free gas and sets its limit: if no step failed, the consumption that `restore` reports is at
  -- most what the parent had left.
  pub child_spends_at_most :
      (params : GasConsumerDeriveParams) (ops : List Op) (g : GasConsumer Cell)
      (parent : ParentGasConsumer Cell)
      → IsValid g
      → (derive params g).0 ≡ ok parent
      → (run ops (derive params g).1).0 ≡ ok tt
      → (restore parent (run ops (derive params g).1).1).0.gas_consumed ≤ as_u64 g.gas_remaining
  unfolding restore
  child_spends_at_most params ops g parent v e h =
      let fits : as_u64 g.gas_remaining ≤ i64_max = as_u64-derive params g parent v e in
      consumed-IsBounded (as_u64 g.gas_remaining) (run ops (derive params g).1).1 fits (
        run-IsBounded ops (as_u64 g.gas_remaining) (derive params g).1 fits
          (derive-IsBounded params g parent v e) h)

  -- The parent after the child `c` is done, whatever `c` has become. A shared child leaves the
  -- parent's gas as it was and hands over the loaded cells. An isolated one leaves it less the free
  -- gas, which was paid for at the start. Both hand over the counters, and the child's
  -- missing library unless the parent has one.
  pub restore-derive :
      (params : GasConsumerDeriveParams) (g c : GasConsumer Cell) (parent : ParentGasConsumer Cell)
      → IsValid g
      → (derive params g).0 ≡ ok parent
      → let g' = (restore parent c).1 in
        let counters = record g {
          chksign_counter = c.chksign_counter;
          free_gas_consumed = c.free_gas_consumed;
          get_extra_balance_counter = c.get_extra_balance_counter;
          missing_library = merge_missing g.missing_library c.missing_library;
        } in
        (params.isolate ≡ false → g' ≡ record counters { loaded_cells = c.loaded_cells })
        × (params.isolate ≡ true
            → g' ≡ record counters { gas_remaining = g.gas_remaining -ℤ pos g.free_gas_consumed })
  unfolding derive restore try_consume truncate_gas ◌-ℤ◌
  restore-derive params g c parent v e = (λ h. ground arith, λ h. ground arith)
