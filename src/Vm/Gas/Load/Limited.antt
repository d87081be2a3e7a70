-- ===== src/Vm/Gas/Load/Limited.antt =====
-- What a limited consumer charges: at most its budget to the gas, the rest as free gas.
use tycho_vm.Prelude.{ℕ, ◌+◌, ◌-◌, ◌≡◌, min, ok, Action, ◌>>◌, List, [], ◌∷◌, arith}
use tycho_vm.Prelude.Int.{pos, ◌≤ℤ◌, ◌-ℤ◌, i64_max}
use tycho_vm.Vm.Error.{CellError}
use tycho_vm.Vm.Gas.{truncate_gas, try_consume}
use tycho_vm.Vm.Gas.Invariant.{IsValid}
use tycho_vm.Vm.Gas.Load.{LimitedGasConsumer, try_consume_limited}

unfoldable pub sum_truncated : List ℕ → ℕ
sum_truncated [] = 0
sum_truncated (amount ∷ amounts) = truncate_gas amount + sum_truncated amounts

module _ {Cell : Type 0} where
  -- One charge, when what the budget leaves of it is there.
  try_consume_limited_once :
      (amount : ℕ) (l : LimitedGasConsumer Cell)
      → IsValid l.gas
      → pos (min (truncate_gas amount) l.remaining) ≤ℤ l.gas.gas_remaining
      → let (r, l') = try_consume_limited amount l in
        let charged = min (truncate_gas amount) l.remaining in
        (r ≡ ok tt)
        × (l'.remaining ≡ l.remaining - charged)
        × (l'.gas.gas_remaining ≡ l.gas.gas_remaining -ℤ pos charged)
        × (l'.gas.free_gas_consumed
            ≡ min (l.gas.free_gas_consumed + (truncate_gas amount - charged)) i64_max)
        × IsValid l'.gas
  unfolding try_consume_limited try_consume truncate_gas ◌-ℤ◌
  try_consume_limited_once amount l v h = ground arith

  pub charges : List ℕ → Action (LimitedGasConsumer Cell) CellError (Unit {0})
  charges [] l = (ok tt, l)
  charges (amount ∷ amounts) l = (try_consume_limited amount >> charges amounts) l

  -- Any sequence of charges on a limited consumer with a well-formed gas consumer behind it. Let
  -- `t` be their sum, each cut to what an `i64` holds. If the gas has what the budget leaves of `t`,
  -- they all succeed, the gas pays no more than the budget, and what is over the budget is noted as free gas.
  pub charges_split :
      (amounts : List ℕ) (l : LimitedGasConsumer Cell)
      → IsValid l.gas
      → let t = sum_truncated amounts in
        pos (min t l.remaining) ≤ℤ l.gas.gas_remaining
        → let (r, l') = charges amounts l in
          (r ≡ ok tt)
          × (l'.remaining ≡ l.remaining - t)
          × (l'.gas.gas_remaining ≡ l.gas.gas_remaining -ℤ pos (min t l.remaining))
          × (l'.gas.free_gas_consumed ≡ min (l.gas.free_gas_consumed + (t - l.remaining)) i64_max)
  unfolding charges sum_truncated ◌-ℤ◌
  charges_split [] l v h = ground arith
  charges_split (a ∷ rest) l v h =
      ground (arith, try_consume_limited_once a l v, charges_split rest (try_consume_limited a l).1)
