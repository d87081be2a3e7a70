-- ===== src/Vm/GasOps/Tests.antt =====
-- The gas instructions at a concrete state.
use tycho_vm.Prelude.{ℕ, ◌≡◌, refl, [], ◌∷◌, ok, arith}
use tycho_vm.Prelude.Int.{pos}
use tycho_vm.Prelude.Int.Mul.{◌*ℤ◌}
use tycho_vm.Vm.Gas.{stub_gas_price, with_libraries}
use tycho_vm.Vm.State.{VmState}
use tycho_vm.Vm.Samples.{int, first_state}
use tycho_vm.Vm.ArithOps.Division.Schoolbook.{schoolbook, schoolbook-DivLaws}
use tycho_vm.Vm.GasOps.{exec_gram_to_gas, limit_bought}
use tycho_vm.Vm.GasOps.Price.{IsBought, exec_gram_to_gas-IsBought}

-- An amount for two and a half units of gas.
abbrev with_amount : VmState ℕ
with_amount = record first_state { stack = int 2500 ∷ [] }

exec_gram_to_gas-IsBought_example :
    (exec_gram_to_gas schoolbook with_amount ≡ (
      ok (pos 0),
      record with_amount {
        stack = int (limit_bought schoolbook with_amount.gas.gas_price (pos 2500)) ∷ [];
      },
    ))
    × IsBought with_amount.gas.gas_price 2500
        (limit_bought schoolbook with_amount.gas.gas_price (pos 2500))
unfolding with_libraries
exec_gram_to_gas-IsBought_example =
    exec_gram_to_gas-IsBought schoolbook schoolbook-DivLaws with_amount 2500 [] (omega arith)
      (omega arith) refl

two_units : limit_bought schoolbook stub_gas_price (pos 2500) ≡ 2
unfolding limit_bought schoolbook ◌*ℤ◌
two_units = refl
