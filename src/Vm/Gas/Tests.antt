-- ===== src/Vm/Gas/Tests.antt =====
-- Runs of the gas code, and the theorems at concrete consumers.
use tycho_vm.Prelude.{
  ℕ, zero, suc, ◌+◌, ◌≤◌, ◌≡◌, refl, ◌↔◌, min, true, false, ok, err, Result, [], ◌∷◌, arith, some,
  none, Option, fail,
}
use tycho_vm.Prelude.Int.{pos, ◌≤ℤ◌, ◌+ℤ◌, ◌-ℤ◌}
use tycho_vm.Vm.Error.{CellError}
use tycho_vm.Vm.Gas.{GasConsumer, truncate_gas, try_consume, set_limit, set_gas, consumed}
use tycho_vm.Vm.Gas.Invariant.{IsValid}
use tycho_vm.Vm.Gas.Charge.{
  IsSolvent, try_consume_exact, set_limit_accounts, signature_checks, signature_cost,
  signature_checks_cost,
}
use tycho_vm.Vm.Gas.Derive.{GasConsumerDeriveParams, shared, derive, restore, merge_missing}
use tycho_vm.Vm.Gas.Derive.Laws.{spend, limit, step, run, child_spends_at_most, restore-derive}
use tycho_vm.Vm.Gas.Providers.{no_libraries, find_first, triple, pair, triple-eq-find_first}
use tycho_vm.Vm.Gas.Load.{
  CellView, CellType, LoadMode, gas_loader, load_cell_impl, load_loop, LimitedGasConsumer,
}
use tycho_vm.Vm.Gas.Load.Rounds.{load_loop_ends}
use tycho_vm.Vm.Gas.Load.Cost.{load_ordinary_cost, load_cell_bound}
use tycho_vm.Vm.Gas.Load.Limited.{charges, charges_split, sum_truncated}

-- A message-bound contract in the middle of its run: 700 of 10000 consumed. Cells are numbers here,
-- and the library with hash 7 is cell 8.
abbrev library_seven : ℕ → Result CellError (Option ℕ)
library_seven (suc (suc (suc (suc (suc (suc (suc zero))))))) = ok (some 8)
library_seven _ = ok none

abbrev running : GasConsumer ℕ
running = record {
  gas_max = 20000;
  gas_limit = 10000;
  gas_credit = 0;
  gas_base = 10000;
  gas_remaining = pos 9300;
  gas_price = 65536;
  loaded_cells = 5 ∷ [];
  libraries = library_seven;
  chksign_counter = 9;
  free_gas_consumed = 36000;
  get_extra_balance_counter = 0;
  missing_library = none;
}

running-IsValid : IsValid running
running-IsValid = omega arith

try_consume_exact_example :
    let (r, g') = try_consume 9000 running in
    ((r ≡ ok tt) ↔ (pos (truncate_gas 9000) ≤ℤ pos 9300))
    × (r ≡ ok tt
        → (consumed g' ≡ consumed running + truncate_gas 9000)
          × (g'.gas_limit ≡ 10000)
          × (g'.gas_base ≡ 10000)
          × (g'.gas_credit ≡ 0))
    × (¬ (pos (truncate_gas 9000) ≤ℤ pos 9300) → (r ≡ err CellError.cancelled) × ¬ IsSolvent g')
try_consume_exact_example = try_consume_exact 9000 running running-IsValid (omega arith)

try_consume_overdraft : (try_consume 9301 running).0 ≡ err CellError.cancelled
unfolding try_consume ◌-ℤ◌
try_consume_overdraft = refl

set_limit_accounts_example :
    let g' = set_limit 50000 running in
    (g'.gas_limit ≡ min 50000 20000)
    × (g'.gas_credit ≡ 0)
    × (consumed g' ≡ consumed running)
    × (g'.gas_remaining ≡ pos (min 50000 20000) -ℤ pos (consumed running))
set_limit_accounts_example = set_limit_accounts 50000 running running-IsValid (omega arith)

-- The tenth check is free, the next two are not.
signature_checks_cost_example :
    let (r, g') = signature_checks 3 running in
    (r ≡ ok tt) × (g'.gas_remaining ≡ pos 9300 -ℤ pos 8000) × (g'.chksign_counter ≡ 9 + 3)
unfolding signature_cost
signature_checks_cost_example =
    signature_checks_cost 3 running running-IsValid (omega arith) (omega arith)

abbrev child_params : GasConsumerDeriveParams
child_params = record { gas_max = 6000; gas_limit = 4000; isolate = false }

child_spends_at_most_example :
    (restore
      (shared (record running { loaded_cells = [] }))
      (run
        (spend 1000 ∷ limit 5000 ∷ spend 3500 ∷ [])
        (derive child_params running).1).1).0.gas_consumed
    ≤ 9300
unfolding derive run step set_gas ◌-ℤ◌ ◌+ℤ◌
child_spends_at_most_example =
    child_spends_at_most child_params (spend 1000 ∷ limit 5000 ∷ spend 3500 ∷ []) running
      (shared (record running { loaded_cells = [] })) running-IsValid refl refl

-- The child has loaded cell 3 and made a check of its own.
abbrev finished_child : GasConsumer ℕ
finished_child = record running {
  gas_remaining = pos 12;
  loaded_cells = 3 ∷ 5 ∷ [];
  chksign_counter = 10;
  missing_library = some 9;
}

restore-derive_example :
    let g' = (restore (shared (record running { loaded_cells = [] })) finished_child).1 in
    let counters = record running {
      chksign_counter = 10;
      free_gas_consumed = 36000;
      get_extra_balance_counter = 0;
      missing_library = merge_missing none (some 9);
    } in
    (child_params.isolate ≡ false → g' ≡ record counters { loaded_cells = 3 ∷ 5 ∷ [] })
    × (child_params.isolate ≡ true → g' ≡ record counters { gas_remaining = pos 9300 -ℤ pos 36000 })
unfolding derive
restore-derive_example =
    restore-derive child_params running finished_child
      (shared (record running { loaded_cells = [] })) running-IsValid refl

triple_agrees :
    (triple no_libraries library_seven no_libraries 7
      ≡ find_first (no_libraries ∷ library_seven ∷ no_libraries ∷ []) 7)
    × (pair no_libraries (pair library_seven no_libraries) 7
        ≡ triple no_libraries library_seven no_libraries 7)
triple_agrees = triple-eq-find_first no_libraries library_seven no_libraries 7

-- Cell 1 is a library reference with hash 7; all others are ordinary.
abbrev type_of : ℕ → CellType
type_of (suc zero) = CellType.library_reference
type_of _ = CellType.ordinary

abbrev small_view : CellView ℕ
small_view = record { repr_hash = λ c. c; cell_type = type_of; library_hash = λ c. ok 7 }

abbrev full_mode : LoadMode
full_mode = record { use_gas = true; resolve = true }

load_loop_ends_example :
    load_loop small_view gas_loader full_mode (λ _. fail CellError.invalid_tag) 7 false 1 running
    ≡ load_cell_impl small_view gas_loader full_mode 1 running
load_loop_ends_example =
    load_loop_ends small_view gas_loader full_mode (λ _. fail CellError.invalid_tag) 5 1 running

-- Without gas to use, an empty consumer is enough.
abbrev spent : GasConsumer ℕ
spent = record running { gas_remaining = pos 0 }

spent-IsValid : IsValid spent
spent-IsValid = omega arith

abbrev free_mode : LoadMode
free_mode = record { use_gas = false; resolve = true }

load_free : load_cell_impl small_view gas_loader free_mode 5 spent ≡ (ok 5, spent)
load_free =
    (load_ordinary_cost small_view free_mode 5 spent spent-IsValid refl
      λ h. absurd (ground arith)).0

load_cell_bound_example :
    let g' = (load_cell_impl small_view gas_loader full_mode 1 running).1 in
    IsValid g'
    × (pos 9300 ≤ℤ g'.gas_remaining +ℤ pos 200)
    × (full_mode.resolve ≡ true → type_of 8 ≡ CellType.ordinary)
unfolding load_cell_impl load_loop try_consume ◌-ℤ◌
load_cell_bound_example = load_cell_bound small_view full_mode 1 8 running running-IsValid refl

abbrev limited : LimitedGasConsumer ℕ
limited = record { gas = running; remaining = 200 }

charges_split_example :
    let (r, l') = charges (100 ∷ 25 ∷ 100 ∷ []) limited in
    (r ≡ ok tt)
    × (l'.remaining ≡ 0)
    × (l'.gas.gas_remaining ≡ pos 9300 -ℤ pos 200)
    × (l'.gas.free_gas_consumed ≡ 36025)
unfolding sum_truncated truncate_gas
charges_split_example = charges_split (100 ∷ 25 ∷ 100 ∷ []) limited running-IsValid (omega arith)
