-- ===== src/Executor/Config/Prices.antt =====
-- Rounding up to whole units.
use tycho_vm.Prelude.{ℕ, ◌+◌, ◌*◌, ◌^◌, ◌≤◌, ◌<◌, arith}
use tycho_vm.Executor.Config.{shift_ceil_price}

-- `shift_ceil_price` is the least number of whole units that covers the fixed point value: it covers it, and one less would not.
pub shift_ceil_price_bounds :
    (value : ℕ)
    → (value ≤ shift_ceil_price value * 2 ^ 16) × (shift_ceil_price value * 2 ^ 16 < value + 2 ^ 16)
unfolding shift_ceil_price
shift_ceil_price_bounds value = ground arith

pub shift_ceil_price_mono : (a b : ℕ) → a ≤ b → shift_ceil_price a ≤ shift_ceil_price b
shift_ceil_price_mono a b h = omega (arith, shift_ceil_price_bounds a, shift_ceil_price_bounds b)
