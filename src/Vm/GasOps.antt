-- ===== src/Vm/GasOps.antt =====
-- The gas instructions (vm/src/instr/gasops.rs). The divisions and shifts of the big integer package are a parameter.
pub mod Price
mod Tests
use tycho_vm.Prelude.{
  ℕ, ◌^◌, Bool, false, Option, none, some, leb, if◌then◌else◌, Result, ok, err, Action, ◌>>=◌, ◌>>◌,
  gets, ensure, min,
}
use tycho_vm.Prelude.Int.{ℤ, pos, negsuc, leb_ℤ, i64_max}
use tycho_vm.Prelude.Int.Mul.{nat_abs, ◌*ℤ◌}
use tycho_vm.Vm.Error.{VmError, CellError}
use tycho_vm.Vm.Gas.{consumed, set_gas}
use tycho_vm.Vm.Stack.Values.{StackValue, Cont}
use tycho_vm.Vm.Stack.Basic.{Stack, push_raw, push_int, push_raw_int}
use tycho_vm.Vm.Stack.Typed.{pop_int}
use tycho_vm.Vm.State.{VmState, is_ton, on_stack}
use tycho_vm.Vm.Machine.{CodeView}
use tycho_vm.Vm.Jump.{jump}
use tycho_vm.Vm.Run.{force_commit}
use tycho_vm.Vm.StackOps.Loops.{done}
use tycho_vm.Vm.ArithOps.Division.{DivOps}

-- `x.magnitude().to_i64().unwrap_or(i64::MAX) as u64`.
unfoldable pub capped : ℤ → ℕ
capped x = if leb (nat_abs x) i64_max then nat_abs x else i64_max

-- What is bought for `x`: in the units of the price, which are 2^16 times smaller.
unfoldable pub bought : DivOps → ℕ → ℤ → ℤ
bought d price x = (d.div_rem (x *ℤ pos (2 ^ 16)) (pos price)).0

unfoldable pub limit_for : ℤ → ℕ
unfolding capped
limit_for x = if leb_ℤ x (pos 0) then 0 else capped x

unfoldable pub limit_bought : DivOps → ℕ → ℤ → ℕ
unfolding capped bought
limit_bought d price x = if leb_ℤ x (pos 0) then 0 else capped (bought d price x)

-- What GRAMTOGAS pushes.
unfoldable pub gas_for : DivOps → ℕ → ℤ → ℤ
unfolding bought
gas_for d price x =
    if leb_ℤ x (pos 0)
    then pos 0
    else (let y = bought d price x in if leb (nat_abs y) i64_max then y else pos i64_max)

module _ {O : Type 0} where
  unfoldable pub exec_set_gas : ℕ → Action (VmState O) VmError ℤ
  unfolding set_gas
  exec_set_gas gas_limit = limited >> (gets (λ st. st.stop_on_accept) >>= stopping)
    where
      limited : Action (VmState O) VmError (Unit {0})
      limited st = let (r, g) = set_gas gas_limit st.gas in (r, record st { gas = g })

      stopping : Bool → Action (VmState O) VmError ℤ
      stopping stop = if stop then jump (Cont.quit (pos 0)) else done

  unfoldable pub exec_accept : Action (VmState O) VmError ℤ
  unfolding exec_set_gas
  exec_accept = exec_set_gas i64_max

  unfoldable pub exec_set_gas_limit : Action (VmState O) VmError ℤ
  unfolding exec_set_gas limit_for
  exec_set_gas_limit = on_stack pop_int >>= λ x. exec_set_gas (limit_for x)

  unfoldable pub exec_buy_gas : DivOps → Action (VmState O) VmError ℤ
  unfolding exec_set_gas limit_bought
  exec_buy_gas d = do
    x ← on_stack pop_int
    price ← gets (λ st. st.gas.gas_price)
    exec_set_gas (limit_bought d price x)

  unfoldable pub exec_gram_to_gas : DivOps → Action (VmState O) VmError ℤ
  unfolding gas_for
  exec_gram_to_gas d = do
    x ← on_stack pop_int
    price ← gets (λ st. st.gas.gas_price)
    on_stack (push_int (gas_for d price x))
    done

  unfoldable pub exec_gas_to_gram : DivOps → Action (VmState O) VmError ℤ
  exec_gas_to_gram d = do
    g ← on_stack pop_int
    price ← gets (λ st. st.gas.gas_price)
    on_stack (push_raw_int (d.shift_right (g *ℤ pos price) 16) false)
    done

  unfoldable pub exec_gas_consumed : Action (VmState O) VmError ℤ
  exec_gas_consumed = do
    version ← gets (λ st. st.version)
    ensure (is_ton 4 version) VmError.invalid_opcode
    amount ← gets (λ st. consumed st.gas)
    on_stack (push_int (pos amount))
    done

  unfoldable pub exec_commit : CodeView O → Action (VmState O) VmError ℤ
  exec_commit cv st =
      let (r, st') = force_commit cv st in
      elim r [ ok _ ↦ (ok (pos 0), st') | err e ↦ (err (VmError.cell_error e), st') ]
