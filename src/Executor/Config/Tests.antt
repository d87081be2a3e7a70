-- ===== src/Executor/Config/Tests.antt =====
-- A configuration, and the theorems at concrete accounts.
use tycho_vm.Prelude.{
  ◌+◌, ◌-◌, ◌*◌, ◌^◌, ◌≤◌, ◌<◌, ◌≡◌, refl, ◌⊎◌, min, true, false, ◌&&◌, none, [], ◌∷◌, reverse,
  arith,
}
use tycho_vm.Executor.Config.{
  GasLimitsPrices, StoragePrices, StorageInfo, ParsedConfig, shift_ceil_price, gas_prices_for,
  gas_bought_for, max_gas_threshold, bought_below_threshold, fee_per_second, compute_storage_fees,
  compute_gas_params, u128_max,
}
use tycho_vm.Executor.Config.Prices.{shift_ceil_price_bounds}
use tycho_vm.Executor.Config.GasBought.{Fits, gas_cost, gas_bought_affordable}
use tycho_vm.Executor.Config.StorageFees.{rate_at, accrued, compute_storage_fees_lem}
use tycho_vm.Executor.Config.ComputeGas.{compute_gas_params_within}

abbrev base_prices : GasLimitsPrices
base_prices = record {
  gas_price = 655360;
  gas_limit = 1000;
  special_gas_limit = 5000;
  gas_credit = 200;
  flat_gas_limit = 100;
  flat_gas_price = 50;
  freeze_due_limit = 100;
  delete_due_limit = 1000;
}

base_prices-Fits : Fits base_prices
base_prices-Fits = record {
  price_fits = omega arith;
  limit_fits = omega arith;
  flat_limit_fits = omega arith;
  flat_price_fits = omega arith;
}

abbrev old_storage : StoragePrices
old_storage = record {
  utime_since = 0;
  bit_price_ps = 1;
  cell_price_ps = 500;
  mc_bit_price_ps = 1000;
  mc_cell_price_ps = 500000;
}

abbrev new_storage : StoragePrices
new_storage = record {
  utime_since = 1500;
  bit_price_ps = 2;
  cell_price_ps = 1000;
  mc_bit_price_ps = 2000;
  mc_cell_price_ps = 1000000;
}

abbrev base_config : ParsedConfig
base_config = record {
  blackhole_addr = none;
  mc_gas_prices = base_prices;
  gas_prices = base_prices;
  storage_prices = old_storage ∷ new_storage ∷ [];
  special_accounts = [];
  config_address = 85;
}

abbrev used : StorageInfo
used = record { used_bits = 1000; used_cells = 4; last_paid = 1000; due_payment = none }

shift_ceil_price_bounds_example :
    (100000 ≤ shift_ceil_price 100000 * 2 ^ 16)
    × (shift_ceil_price 100000 * 2 ^ 16 < 100000 + 2 ^ 16)
shift_ceil_price_bounds_example = shift_ceil_price_bounds 100000

gas_bought_affordable_example :
    (gas_bought_for base_prices 5050 ≡ 0)
    ⊎ (gas_cost base_prices (gas_bought_for base_prices 5050) ≤ 5050)
gas_bought_affordable_example = gas_bought_affordable base_prices 5050 base_prices-Fits

gas_bought_test : gas_bought_for base_prices 5050 ≡ 600
unfolding gas_bought_for max_gas_threshold bought_below_threshold shift_ceil_price
gas_bought_test = refl

-- The price of storage changes between the two payments.
compute_storage_fees_lem_example :
    compute_storage_fees base_config used 2000 false false
    ≡ shift_ceil_price (
        min
          (accrued
            (rate_at (fee_per_second false used) (reverse (old_storage ∷ new_storage ∷ [])))
            1000
            (2000 - 1000))
          u128_max)
compute_storage_fees_lem_example =
    compute_storage_fees_lem base_config used 2000 false old_storage (new_storage ∷ []) refl
      (omega arith) (omega arith) (omega arith) (omega arith)

compute_gas_params_within_example :
    let params = compute_gas_params base_config 5050 3000 false false true false in
    (params.limit ≤ params.max_gas)
    × (params.credit ≤ params.max_gas)
    × ((true && false ≡ true) ⊎ (params.credit ≡ 0))
    × ((false ≡ true)
        ⊎ ((params.max_gas ≤ (gas_prices_for base_config false).gas_limit)
            × ((params.max_gas ≡ 0)
                ⊎ (gas_cost (gas_prices_for base_config false) params.max_gas ≤ 5050))))
unfolding gas_prices_for
compute_gas_params_within_example =
    compute_gas_params_within base_config 5050 3000 false false true false base_prices-Fits
