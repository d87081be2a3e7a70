-- ===== src/Executor/Config.antt =====
-- Prices and limits of the blockchain configuration (executor/src/config.rs, and `shift_ceil_price` of
-- executor/src/util.rs). A 16-bit fixed point price is an integer times 2 ^ -16.
pub mod Prices
pub mod StorageFees
pub mod GasBought
pub mod ComputeGas
mod Tests
use tycho_vm.Prelude.{
  ℕ, ◌+◌, ◌-◌, ◌*◌, ◌/◌, ◌%◌, ◌^◌, min, max, Bool, true, false, ◌&&◌, ◌||◌, not, Option, none, some,
  List, [], ◌∷◌, reverse, leb, ltb, ◌==◌, if◌then◌else◌,
}
use tycho_vm.Vm.Gas.{GasParams}

abbrev pub u128_max : ℕ
u128_max = 2 ^ 128 - 1

-- `u128::saturating_add` and `u128::saturating_mul`.
abbrev pub saturating_add_u128 : ℕ → ℕ → ℕ
saturating_add_u128 a b = min (a + b) u128_max

abbrev pub saturating_mul_u128 : ℕ → ℕ → ℕ
saturating_mul_u128 a b = min (a * b) u128_max

unfoldable pub shift_ceil_price : ℕ → ℕ
shift_ceil_price value = value / 2 ^ 16 + (if value % 2 ^ 16 == 0 then 0 else 1)

pub record GasLimitsPrices : Type 0 where
  pub gas_price : ℕ
  pub gas_limit : ℕ
  pub special_gas_limit : ℕ
  pub gas_credit : ℕ
  pub flat_gas_limit : ℕ
  pub flat_gas_price : ℕ
  pub freeze_due_limit : ℕ
  pub delete_due_limit : ℕ

pub record StoragePrices : Type 0 where
  pub utime_since : ℕ
  pub bit_price_ps : ℕ
  pub cell_price_ps : ℕ
  pub mc_bit_price_ps : ℕ
  pub mc_cell_price_ps : ℕ

pub record StorageInfo : Type 0 where
  pub used_bits : ℕ
  pub used_cells : ℕ
  pub last_paid : ℕ
  pub due_payment : Option ℕ

pub record StdAddr : Type 0 where
  pub is_masterchain : Bool
  pub address : ℕ

-- The entries of `ParsedConfig` that the functions below read; the special accounts by their hash.
pub record ParsedConfig : Type 0 where
  pub blackhole_addr : Option ℕ
  pub mc_gas_prices : GasLimitsPrices
  pub gas_prices : GasLimitsPrices
  pub storage_prices : List StoragePrices
  pub special_accounts : List ℕ
  pub config_address : ℕ

pub is_blackhole : ParsedConfig → StdAddr → Bool
is_blackhole c addr = elim c.blackhole_addr [
  | some blackhole ↦ addr.is_masterchain && (addr.address == blackhole)
  | none ↦ false
]

contains : ℕ → List ℕ → Bool
contains a [] = false
contains a (x ∷ xs) = (x == a) || contains a xs

pub is_special : ParsedConfig → StdAddr → Bool
unfolding contains
is_special c addr =
    addr.is_masterchain
    && (contains addr.address c.special_accounts || (addr.address == c.config_address))

unfoldable pub gas_prices_for : ParsedConfig → Bool → GasLimitsPrices
gas_prices_for c is_masterchain = if is_masterchain then c.mc_gas_prices else c.gas_prices

-- `get_prices`.
unfoldable pub bit_and_cell_price : Bool → StoragePrices → ℕ × ℕ
bit_and_cell_price is_masterchain p =
    if is_masterchain
    then (p.mc_bit_price_ps, p.mc_cell_price_ps)
    else (p.bit_price_ps, p.cell_price_ps)

-- The fee of one second; the products fit a `u128`, since prices and sizes are below 2 ^ 64.
unfoldable pub fee_per_second : Bool → StorageInfo → StoragePrices → ℕ
unfolding bit_and_cell_price
fee_per_second is_masterchain stat p =
    let (bit_price, cell_price) = bit_and_cell_price is_masterchain p in
    saturating_add_u128 (bit_price * stat.used_bits) (cell_price * stat.used_cells)

-- `u32` subtraction, which wraps in a release build.
abbrev pub sub_u32 : ℕ → ℕ → ℕ
sub_u32 a b = (a + 2 ^ 32 - b) % 2 ^ 32

-- The loop over the segments, the most recent first.
unfoldable pub fee_loop : (StoragePrices → ℕ) → ℕ → List StoragePrices → ℕ → ℕ → ℕ
fee_loop rate last_paid [] upto total = total
fee_loop rate last_paid (p ∷ ps) upto total =
    let delta = sub_u32 upto (max p.utime_since last_paid) in
    let total' = saturating_add_u128 total (saturating_mul_u128 (rate p) delta) in
    let skip = fee_loop rate last_paid ps upto total in
    let older = fee_loop rate last_paid ps p.utime_since total' in
    if ltb upto p.utime_since then skip else (if leb p.utime_since last_paid then total' else older)

unfoldable pub fees_since : ParsedConfig → StorageInfo → ℕ → Bool → List StoragePrices → ℕ
fees_since c stat now is_masterchain [] = 0
fees_since c stat now is_masterchain (oldest ∷ prices) =
    if leb now oldest.utime_since
    then 0
    else shift_ceil_price (
        fee_loop (fee_per_second is_masterchain stat) stat.last_paid (reverse (oldest ∷ prices)) now
          0)

unfoldable pub compute_storage_fees : ParsedConfig → StorageInfo → ℕ → Bool → Bool → ℕ
unfolding fees_since
compute_storage_fees c stat now is_special is_masterchain =
    if leb now stat.last_paid || (stat.last_paid == 0) || is_special
    then 0
    else fees_since c stat now is_masterchain c.storage_prices

unfoldable pub max_gas_threshold : GasLimitsPrices → ℕ
max_gas_threshold prices =
    if ltb prices.flat_gas_limit prices.gas_limit
    then saturating_add_u128
        (shift_ceil_price (prices.gas_price * (prices.gas_limit - prices.flat_gas_limit)))
        prices.flat_gas_price
    else prices.flat_gas_price

-- The shift to the left loses the bits above a `u128`.
unfoldable pub bought_below_threshold : GasLimitsPrices → ℕ → ℕ
bought_below_threshold prices balance =
    let shifted = (balance - prices.flat_gas_price) * 2 ^ 16 % 2 ^ 128 in
    min (saturating_add_u128 (shifted / prices.gas_price) prices.flat_gas_limit) (2 ^ 64 - 1)

unfoldable pub gas_bought_for : GasLimitsPrices → ℕ → ℕ
gas_bought_for prices balance =
    if (balance == 0) || ltb balance prices.flat_gas_price
    then 0
    else if leb (max_gas_threshold prices) balance || (prices.gas_price == 0)
    then prices.gas_limit
    else bought_below_threshold prices balance

unfoldable pub compute_gas_params : ParsedConfig → ℕ → ℕ → Bool → Bool → Bool → Bool → GasParams
compute_gas_params c account_balance msg_balance is_special is_masterchain is_ordinary is_external =
    let prices = gas_prices_for c is_masterchain in
    let gas_max =
      if is_special then prices.special_gas_limit else gas_bought_for prices account_balance in
    record {
      max_gas = gas_max;
      limit =
          if not is_ordinary || is_special
          then gas_max
          else min (gas_bought_for prices msg_balance) gas_max;
      credit = if is_ordinary && is_external then min prices.gas_credit gas_max else 0;
      price = prices.gas_price;
    }
