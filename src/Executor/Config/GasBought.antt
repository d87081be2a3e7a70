-- ===== src/Executor/Config/GasBought.antt =====
-- What a balance buys: the gas can be paid for, stays within the limit, and grows with the balance.
use tycho_vm.Prelude.{
  ℕ, ◌+◌, ◌-◌, ◌*◌, ◌/◌, ◌%◌, ◌^◌, ◌≤◌, ◌<◌, ◌≡◌, ◌⊎◌, inl, inr, arith, ltb, Bool-cases,
}
use tycho_vm.Executor.Config.{
  GasLimitsPrices, shift_ceil_price, gas_bought_for, max_gas_threshold, bought_below_threshold,
}
use tycho_vm.Executor.Config.Prices.{shift_ceil_price_bounds}

-- All numbers of the prices are `u64`.
pub record Fits (p : GasLimitsPrices) : Type 0 where
  pub price_fits : p.gas_price < 2 ^ 64
  pub limit_fits : p.gas_limit < 2 ^ 64
  pub flat_limit_fits : p.flat_gas_limit < 2 ^ 64
  pub flat_price_fits : p.flat_gas_price < 2 ^ 64

-- What `gas` units cost: the flat price, and the units over the flat limit at the gas price.
pub gas_cost : GasLimitsPrices → ℕ → ℕ
gas_cost p gas = p.flat_gas_price + shift_ceil_price (p.gas_price * (gas - p.flat_gas_limit))

product_fits : (a b : ℕ) → a < 2 ^ 64 → b < 2 ^ 64 → a * b < 2 ^ 128
product_fits a b h k = grind arith

below_threshold :
    (p : GasLimitsPrices) (balance : ℕ)
    → Fits p
    → p.flat_gas_price ≤ balance
    → balance < max_gas_threshold p
    → (p.flat_gas_limit < p.gas_limit)
      × ((balance - p.flat_gas_price) * 2 ^ 16 < p.gas_price * (p.gas_limit - p.flat_gas_limit))
unfolding max_gas_threshold
below_threshold p balance f h k = ground (
  arith,
  shift_ceil_price_bounds (p.gas_price * (p.gas_limit - p.flat_gas_limit)),
  product_fits p.gas_price (p.gas_limit - p.flat_gas_limit),
)

div_bounds : (x d n : ℕ) → 0 < d → x < d * n → (x / d < n) × (d * (x / d) ≤ x)
div_bounds x d n p h = (grind arith, grind arith)

-- Below the threshold nothing is lost in the shift, the sum and the conversion.
bought_lem :
    (p : GasLimitsPrices) (balance : ℕ)
    → Fits p
    → 0 < p.gas_price
    → p.flat_gas_price ≤ balance
    → balance < max_gas_threshold p
    → let bought = (balance - p.flat_gas_price) * 2 ^ 16 / p.gas_price in
      (bought_below_threshold p balance ≡ bought + p.flat_gas_limit)
      × (bought + p.flat_gas_limit < p.gas_limit)
      × (p.gas_price * bought ≤ (balance - p.flat_gas_price) * 2 ^ 16)
unfolding bought_below_threshold
bought_lem p balance f pos h k =
    let x = (balance - p.flat_gas_price) * 2 ^ 16 in
    let d = p.gas_limit - p.flat_gas_limit in
    let (open_, below) = below_threshold p balance f h k in
    let (q, r) = div_bounds x p.gas_price d pos below in
    let fits = product_fits p.gas_price d f.price_fits (omega (arith, f.limit_fits)) in
    let same : x % 2 ^ 128 ≡ x = omega arith in
    let limit_fits = f.limit_fits in (rw same (omega arith), omega arith, r)

-- How the three branches of `gas_bought_for` come about.
gas_bought_cases :
    (p : GasLimitsPrices) (balance : ℕ)
    → (gas_bought_for p balance ≡ 0)
      ⊎ ((p.flat_gas_price ≤ balance)
          × (((max_gas_threshold p ≤ balance) ⊎ (p.gas_price ≡ 0))
                × (gas_bought_for p balance ≡ p.gas_limit)
              ⊎ (balance < max_gas_threshold p)
                × (0 < p.gas_price)
                × (gas_bought_for p balance ≡ bought_below_threshold p balance)))
unfolding gas_bought_for
gas_bought_cases p balance = ground arith

-- A balance at the threshold pays for the whole limit.
limit_affordable :
    (p : GasLimitsPrices) (balance : ℕ)
    → Fits p
    → p.flat_gas_price ≤ balance
    → (max_gas_threshold p ≤ balance) ⊎ (p.gas_price ≡ 0)
    → gas_cost p p.gas_limit ≤ balance
unfolding gas_cost max_gas_threshold
limit_affordable p balance f h (inl k) = elim (Bool-cases (ltb p.flat_gas_limit p.gas_limit)) [
  | inl open_ ↦ ground (
    arith,
    open_,
    shift_ceil_price_bounds (p.gas_price * (p.gas_limit - p.flat_gas_limit)),
    product_fits p.gas_price (p.gas_limit - p.flat_gas_limit),
  )
  | inr shut ↦
      let none_left : p.gas_limit - p.flat_gas_limit ≡ 0 = ground arith in
      rw none_left (ground (arith, shift_ceil_price_bounds 0))
]
limit_affordable p balance f h (inr free) =
    ground (arith, free, shift_ceil_price_bounds (p.gas_price * (p.gas_limit - p.flat_gas_limit)))

below_affordable :
    (p : GasLimitsPrices) (balance : ℕ)
    → Fits p
    → p.flat_gas_price ≤ balance
    → balance < max_gas_threshold p
    → 0 < p.gas_price
    → gas_cost p (bought_below_threshold p balance) ≤ balance
unfolding gas_cost
below_affordable p balance f h k pos =
    let bought = (balance - p.flat_gas_price) * 2 ^ 16 / p.gas_price in
    let (same, _, paid) = bought_lem p balance f pos h k in
    let units : bought + p.flat_gas_limit - p.flat_gas_limit ≡ bought = omega arith in
    rw same (rw units (omega (arith, shift_ceil_price_bounds (p.gas_price * bought))))

-- The gas that a balance buys is worth at most the balance: its cost, by the flat price and the gas price, can be
-- paid from it, unless no gas is bought. The prices are `u64` numbers and the balance a `u128` one.
pub gas_bought_affordable :
    (p : GasLimitsPrices) (balance : ℕ)
    → Fits p
    → (gas_bought_for p balance ≡ 0) ⊎ (gas_cost p (gas_bought_for p balance) ≤ balance)
gas_bought_affordable p balance f = elim (gas_bought_cases p balance) [
  | inl nothing ↦ inl nothing
  | inr (h, inl (k, eq)) ↦ inr (rw eq (limit_affordable p balance f h k))
  | inr (h, inr (k, pos, eq)) ↦ inr (rw eq (below_affordable p balance f h k pos))
]

-- No balance buys more than the gas limit of the prices.
pub gas_bought_for-le :
    (p : GasLimitsPrices) (balance : ℕ) → Fits p → gas_bought_for p balance ≤ p.gas_limit
gas_bought_for-le p balance f = elim (gas_bought_cases p balance) [
  | inl nothing ↦ omega arith
  | inr (h, inl (k, eq)) ↦ omega arith
  | inr (h, inr (k, pos, eq)) ↦ let (same, under, _) = bought_lem p balance f pos h k in omega arith
]
