-- ===== src/Executor/Config/ComputeGas.antt =====
-- The gas that the compute phase starts with.
use tycho_vm.Prelude.{ℕ, ◌≤◌, ◌≡◌, Bool, true, arith, ◌&&◌, ◌⊎◌}
use tycho_vm.Executor.Config.{ParsedConfig, gas_prices_for, compute_gas_params}
use tycho_vm.Executor.Config.GasBought.{Fits, gas_cost, gas_bought_affordable, gas_bought_for-le}

-- The limit and the credit of the compute phase stay within its maximum; an account that is not special starts with no
-- more than the gas limit of its workchain, and no more than its own balance pays for; credit is given to external
-- messages of ordinary transactions only.
pub compute_gas_params_within :
    (c : ParsedConfig) (account_balance msg_balance : ℕ)
    (is_special is_masterchain is_ordinary is_external : Bool)
    → Fits (gas_prices_for c is_masterchain)
    → let params =
        compute_gas_params c account_balance msg_balance is_special is_masterchain is_ordinary
          is_external in
      let prices = gas_prices_for c is_masterchain in
      (params.limit ≤ params.max_gas)
      × (params.credit ≤ params.max_gas)
      × ((is_ordinary && is_external ≡ true) ⊎ (params.credit ≡ 0))
      × ((is_special ≡ true)
          ⊎ ((params.max_gas ≤ prices.gas_limit)
              × ((params.max_gas ≡ 0) ⊎ (gas_cost prices params.max_gas ≤ account_balance))))
unfolding compute_gas_params
compute_gas_params_within c account_balance msg_balance is_special is_masterchain is_ordinary
      is_external f =
    let prices = gas_prices_for c is_masterchain in
    let within = gas_bought_for-le prices account_balance f in
    let paid = gas_bought_affordable prices account_balance f in
    (ground arith, ground arith, ground arith, ground arith)
