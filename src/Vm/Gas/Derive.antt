-- ===== src/Vm/Gas/Derive.antt =====
-- The gas consumer of a child VM (vm/src/gas.rs, `derive` and `restore`): an isolated child has a
-- consumer of its own, a shared child takes over the parent's loaded cells.
pub mod Laws
use tycho_vm.Prelude.{ℕ, min, Bool, Option, none, some, [], if◌then◌else◌, Result, ok, err, Action}
use tycho_vm.Prelude.Int.{pos, leb_ℤ, as_u64}
use tycho_vm.Vm.Error.{VmError}
use tycho_vm.Vm.Gas.{GasConsumer, try_consume, with_libraries, consumed}

pub record GasConsumerDeriveParams : Type 0 where
  pub gas_max : ℕ
  pub gas_limit : ℕ
  pub isolate : Bool

pub data ParentGasConsumer (Cell : Type 0) : Type 0 where
  isolated shared : GasConsumer Cell → ParentGasConsumer Cell

pub record RestoredGasConsumer : Type 0 where
  pub gas_consumed : ℕ
  pub gas_limit : ℕ

unfoldable pub merge_missing : Option ℕ → Option ℕ → Option ℕ
merge_missing (some hash) child = some hash
merge_missing none child = child

module _ {Cell : Type 0} where
  reset_counters : GasConsumer Cell → GasConsumer Cell
  reset_counters g = record g {
    chksign_counter = 0;
    free_gas_consumed = 0;
    get_extra_balance_counter = 0;
  }

  isolated_child : GasConsumerDeriveParams → GasConsumer Cell → GasConsumer Cell
  unfolding with_libraries
  isolated_child params g =
      let remaining = as_u64 g.gas_remaining in
      with_libraries
        (record {
          max_gas = min params.gas_max remaining;
          limit = min params.gas_limit remaining;
          credit = 0;
          price = g.gas_price;
        })
        g.libraries

  shared_child : GasConsumerDeriveParams → GasConsumer Cell → GasConsumer Cell
  shared_child params g =
      let remaining = as_u64 g.gas_remaining in
      let gas_limit = min params.gas_limit remaining in
      record g {
        gas_max = min params.gas_max remaining;
        gas_limit = gas_limit;
        gas_credit = 0;
        gas_base = gas_limit;
        gas_remaining = pos gas_limit;
      }

  -- The free gas is paid for first, and the old consumer with its counters reset is the parent.
  derive_isolated :
      GasConsumerDeriveParams → Action (GasConsumer Cell) VmError (ParentGasConsumer Cell)
  unfolding try_consume reset_counters isolated_child
  derive_isolated params g =
      let (r, g') = try_consume g.free_gas_consumed g in
      elim r [
        | err e ↦ (err (VmError.cell_error e), g')
        | ok _ ↦
            if leb_ℤ (pos 0) g'.gas_remaining
            then (ok (isolated (reset_counters g')), isolated_child params g')
            else (err VmError.out_of_gas, g')
      ]

  -- The child keeps the loaded cells, and the parent gets the old numbers.
  derive_shared :
      GasConsumerDeriveParams → Action (GasConsumer Cell) VmError (ParentGasConsumer Cell)
  unfolding shared_child
  derive_shared params g =
      if leb_ℤ (pos 0) g.gas_remaining
      then (ok (shared (record g { loaded_cells = [] })), shared_child params g)
      else (err VmError.out_of_gas, g)

  unfoldable pub derive :
      GasConsumerDeriveParams → Action (GasConsumer Cell) VmError (ParentGasConsumer Cell)
  unfolding derive_isolated derive_shared
  derive params g = if params.isolate then derive_isolated params g else derive_shared params g

  -- What both kinds of parent take over from the child.
  merge_child : GasConsumer Cell → GasConsumer Cell → GasConsumer Cell
  unfolding merge_missing
  merge_child child parent = record parent {
    missing_library = merge_missing parent.missing_library child.missing_library;
    chksign_counter = child.chksign_counter;
    free_gas_consumed = child.free_gas_consumed;
    get_extra_balance_counter = child.get_extra_balance_counter;
  }

  restored : ParentGasConsumer Cell → GasConsumer Cell → GasConsumer Cell
  unfolding merge_child
  restored (isolated parent) child = merge_child child parent
  restored (shared parent) child =
      merge_child child (record parent { loaded_cells = child.loaded_cells })

  unfoldable pub restore :
      ParentGasConsumer Cell → GasConsumer Cell → RestoredGasConsumer × GasConsumer Cell
  unfolding restored consumed
  restore parent child =
      (record { gas_consumed = consumed child; gas_limit = child.gas_limit }, restored parent child)
