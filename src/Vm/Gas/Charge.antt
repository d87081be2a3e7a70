-- ===== src/Vm/Gas/Charge.antt =====
-- What the charges add up to.
use tycho_vm.Prelude.{
  ℕ, zero, suc, ◌+◌, ◌-◌, ◌*◌, ◌<◌, ◌^◌, ◌≡◌, ◌↔◌, min, max, ok, err, Action, ◌>>◌, pure, arith,
}
use tycho_vm.Prelude.Int.{pos, ◌≤ℤ◌, ◌+ℤ◌, ◌-ℤ◌}
use tycho_vm.Vm.Error.{CellError}
use tycho_vm.Vm.Gas.{
  GasConsumer, GasParams, LibraryProvider, truncate_gas, with_libraries, consumed, set_limit,
  try_consume, consume_free_gas, try_consume_check_signature_gas,
}
use tycho_vm.Vm.Gas.Invariant.{IsValid, set_limit_lem}

-- No gas has run out yet.
abbrev pub IsSolvent : {Cell : Type 0} → GasConsumer Cell → Type 0
IsSolvent g = pos 0 ≤ℤ g.gas_remaining

-- What `n` checks cost after `k` others: those past the tenth.
unfoldable pub signature_cost : ℕ → ℕ → ℕ
signature_cost k n = 4000 * (max (k + n) 10 - max k 10)

module _ {Cell : Type 0} where
  -- A charge of `amount` on a well-formed consumer that has not run out succeeds exactly when at
  -- least `amount`, cut to what an `i64` holds, remains. If it succeeds, the consumed gas grows by
  -- that much and the limit, the base and the credit stay; if not, the result is `Cancelled` and less than nothing
  -- remains.
  pub try_consume_exact :
      (amount : ℕ) (g : GasConsumer Cell)
      → IsValid g
      → IsSolvent g
      → let (r, g') = try_consume amount g in
        ((r ≡ ok tt) ↔ (pos (truncate_gas amount) ≤ℤ g.gas_remaining))
        × (r ≡ ok tt
            → (consumed g' ≡ consumed g + truncate_gas amount)
              × (g'.gas_limit ≡ g.gas_limit)
              × (g'.gas_base ≡ g.gas_base)
              × (g'.gas_credit ≡ g.gas_credit))
        × (¬ (pos (truncate_gas amount) ≤ℤ g.gas_remaining)
            → (r ≡ err CellError.cancelled) × ¬ IsSolvent g')
  unfolding try_consume truncate_gas consumed ◌-ℤ◌
  try_consume_exact amount g v s = ground arith

  -- A new limit for a well-formed consumer that has not run out is cut to `gas_max`, clears the
  -- credit, and does not change the consumed gas: what remains is the new limit less what was
  -- consumed, and may be negative.
  pub set_limit_accounts :
      (limit : ℕ) (g : GasConsumer Cell)
      → IsValid g
      → IsSolvent g
      → let g' = set_limit limit g in
        (g'.gas_limit ≡ min limit g.gas_max)
        × (g'.gas_credit ≡ 0)
        × (consumed g' ≡ consumed g)
        × (g'.gas_remaining ≡ pos (min limit g.gas_max) -ℤ pos (consumed g))
  unfolding consumed ◌-ℤ◌ ◌+ℤ◌
  set_limit_accounts limit g v s = rw (set_limit_lem limit g v (ground arith)) (ground arith)

  -- A new consumer has consumed nothing, and has the limit and the credit to spend, cut to what an
  -- `i64` holds.
  pub consumed-with_libraries :
      (params : GasParams) (libs : LibraryProvider Cell)
      → (consumed (with_libraries params libs) ≡ 0)
        × ((with_libraries params libs).gas_remaining
            ≡ pos (truncate_gas (params.limit + params.credit)))
  unfolding with_libraries consumed ◌-ℤ◌ truncate_gas
  consumed-with_libraries params libs = ground arith

  pub signature_checks : ℕ → Action (GasConsumer Cell) CellError (Unit {0})
  signature_checks zero = pure tt
  signature_checks (suc n) = try_consume_check_signature_gas >> signature_checks n

  check_signature_cost :
      (g : GasConsumer Cell)
      → IsValid g
      → g.chksign_counter + 1 < 2 ^ 64
      → pos (signature_cost g.chksign_counter 1) ≤ℤ g.gas_remaining
      → let (r, g') = try_consume_check_signature_gas g in
        (r ≡ ok tt)
        × (g'.gas_remaining ≡ g.gas_remaining -ℤ pos (signature_cost g.chksign_counter 1))
        × (g'.chksign_counter ≡ g.chksign_counter + 1)
        × IsValid g'
  unfolding signature_cost try_consume_check_signature_gas try_consume consume_free_gas truncate_gas
      ◌-ℤ◌
  check_signature_cost g v h e = ground arith

  -- `n` signature checks on a well-formed consumer that made `k` before: if what they cost remains,
  -- they succeed and cost 4000 gas for each check past the tenth and nothing for the others.
  pub signature_checks_cost :
      (n : ℕ) (g : GasConsumer Cell)
      → IsValid g
      → g.chksign_counter + n < 2 ^ 64
      → pos (signature_cost g.chksign_counter n) ≤ℤ g.gas_remaining
      → let (r, g') = signature_checks n g in
        (r ≡ ok tt)
        × (g'.gas_remaining ≡ g.gas_remaining -ℤ pos (signature_cost g.chksign_counter n))
        × (g'.chksign_counter ≡ g.chksign_counter + n)
  unfolding signature_checks signature_cost ◌-ℤ◌
  signature_checks_cost zero g v h e = ground arith
  signature_checks_cost (suc n) g v h e = ground (
    arith,
    check_signature_cost g v (omega arith),
    signature_checks_cost n (try_consume_check_signature_gas g).1,
  )
