-- ===== src/Vm/Gas/Invariant.antt =====
-- The well-formed gas consumers, and that every operation keeps them.
use tycho_vm.Prelude.{ℕ, ◌≤◌, ◌≡◌, min, arith}
use tycho_vm.Prelude.Int.{pos, negsuc, ◌≤ℤ◌, i64_max, ◌+ℤ◌, ◌-ℤ◌}
use tycho_vm.Vm.Gas.{
  GasParams, LibraryProvider, GasConsumer, truncate_gas, with_libraries, set_base, set_limit,
  try_consume, consume_free_gas,
}

-- All numbers fit an `i64`, and no more is left than there was.
pub record IsValid {Cell : Type 0} (g : GasConsumer Cell) : Type 0 where
  pub max_fits : g.gas_max ≤ i64_max
  pub limit_fits : g.gas_limit ≤ i64_max
  pub credit_fits : g.gas_credit ≤ i64_max
  pub base_fits : g.gas_base ≤ i64_max
  pub free_fits : g.free_gas_consumed ≤ i64_max
  pub price_pos : 1 ≤ g.gas_price
  pub remaining_le : g.gas_remaining ≤ℤ pos g.gas_base
  pub remaining_fits : negsuc i64_max ≤ℤ g.gas_remaining

-- At most `bound` was spent; this asks nothing of the sign of what remains.
abbrev pub SpentAtMost : {Cell : Type 0} → ℕ → GasConsumer Cell → Type 0
SpentAtMost bound g = pos g.gas_base ≤ℤ g.gas_remaining +ℤ pos bound

module _ {Cell : Type 0} where
  pub with_libraries-IsValid :
      (params : GasParams) (libs : LibraryProvider Cell) → IsValid (with_libraries params libs)
  unfolding with_libraries
  with_libraries-IsValid params libs = ground arith

  pub try_consume-IsValid :
      (amount : ℕ) (g : GasConsumer Cell) → IsValid g → IsValid (try_consume amount g).1
  unfolding try_consume ◌-ℤ◌
  try_consume-IsValid amount g v = ground arith

  pub consume_free_gas-IsValid :
      (amount : ℕ) (g : GasConsumer Cell) → IsValid g → IsValid (consume_free_gas amount g)
  unfolding consume_free_gas
  consume_free_gas-IsValid amount g v = ground arith

  -- The subtraction and the sum of `set_base` stay within an `i64`.
  pub set_limit_lem :
      (limit : ℕ) (g : GasConsumer Cell)
      → IsValid g
      → SpentAtMost i64_max g
      → set_limit limit g ≡ record g {
        gas_limit = min limit g.gas_max;
        gas_credit = 0;
        gas_base = min limit g.gas_max;
        gas_remaining = g.gas_remaining +ℤ (pos (min limit g.gas_max) -ℤ pos g.gas_base);
      }
  unfolding set_limit set_base truncate_gas ◌-ℤ◌ ◌+ℤ◌
  set_limit_lem limit g v s = ground arith

  pub set_limit-IsValid :
      (limit : ℕ) (g : GasConsumer Cell)
      → IsValid g
      → SpentAtMost i64_max g
      → IsValid (set_limit limit g)
  unfolding ◌-ℤ◌ ◌+ℤ◌
  set_limit-IsValid limit g v h = rw (set_limit_lem limit g v h) (ground arith)
