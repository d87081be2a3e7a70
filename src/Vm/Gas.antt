-- ===== src/Vm/Gas.antt =====
-- Gas accounting (vm/src/gas.rs): the consumer, its charges, its limit, and the consumers that a
-- child VM gets. `Gas.Load` has the loading of cells, which is charged too.
pub mod Invariant
pub mod Charge
pub mod Derive
pub mod Providers
pub mod Load
mod Tests
use tycho_vm.Prelude.{
  ℕ, ◌+◌, ◌-◌, ◌*◌, ◌%◌, ◌^◌, min, max, Option, none, some, List, [], leb, ltb, if◌then◌else◌,
  Result, ok, err, Action, pure,
}
use tycho_vm.Prelude.Int.{ℤ, pos, ◌+ℤ◌, ◌-ℤ◌, leb_ℤ, i64_max, saturating_sub_i64, wrap_i64, as_u64}
use tycho_vm.Vm.Error.{CellError, VmError}

pub record GasParams : Type 0 where
  pub max_gas : ℕ
  pub limit : ℕ
  pub credit : ℕ
  pub price : ℕ

abbrev pub stub_gas_price : ℕ
stub_gas_price = 1000 * 2 ^ 16

abbrev pub unlimited : GasParams
unlimited = record { max_gas = i64_max; limit = i64_max; credit = 0; price = stub_gas_price }

abbrev pub getter : GasParams
getter = record { max_gas = 1000000; limit = 1000000; credit = 0; price = stub_gas_price }

abbrev pub u64_max : ℕ
u64_max = 2 ^ 64 - 1

-- `u64::saturating_add`.
abbrev pub saturating_add_u64 : ℕ → ℕ → ℕ
saturating_add_u64 a b = min (a + b) u64_max

unfoldable pub truncate_gas : ℕ → ℕ
truncate_gas gas = if leb gas i64_max then gas else i64_max

-- `LibraryProvider::find`: a library cell by its hash.
abbrev pub LibraryProvider : Type 0 → Type 0
LibraryProvider Cell = ℕ → Result CellError (Option Cell)

-- `Cell` is the cell type of the cell library; a hash is the number that its 256 bits spell.
pub record GasConsumer (Cell : Type 0) : Type 0 where
  pub gas_max : ℕ
  pub gas_limit : ℕ
  pub gas_credit : ℕ
  pub gas_base : ℕ
  pub gas_remaining : ℤ
  pub gas_price : ℕ
  pub loaded_cells : List ℕ
  pub libraries : LibraryProvider Cell
  pub chksign_counter : ℕ
  pub free_gas_consumed : ℕ
  pub get_extra_balance_counter : ℕ
  pub missing_library : Option ℕ

abbrev pub new_cell_gas : ℕ
new_cell_gas = 100

abbrev pub old_cell_gas : ℕ
old_cell_gas = 25

abbrev pub build_cell_gas : ℕ
build_cell_gas = 500

abbrev pub free_stack_depth : ℕ
free_stack_depth = 32

abbrev pub free_signature_checks : ℕ
free_signature_checks = 10

abbrev pub cheap_get_balance_calls : ℕ
cheap_get_balance_calls = 5

abbrev pub cheap_get_balance_gas_threshold : ℕ
cheap_get_balance_gas_threshold = 200

abbrev pub stack_value_gas_price : ℕ
stack_value_gas_price = 1

abbrev pub tuple_entry_gas_price : ℕ
tuple_entry_gas_price = 1

abbrev pub chk_sgn_gas_price : ℕ
chk_sgn_gas_price = 4000

abbrev pub implicit_jmpref_gas_price : ℕ
implicit_jmpref_gas_price = 10

abbrev pub implicit_ret_gas_price : ℕ
implicit_ret_gas_price = 5

abbrev pub exception_gas_price : ℕ
exception_gas_price = 50

module _ {Cell : Type 0} where
  unfoldable pub with_libraries : GasParams → LibraryProvider Cell → GasConsumer Cell
  unfolding truncate_gas
  with_libraries params libraries =
      let gas_remaining = truncate_gas (saturating_add_u64 params.limit params.credit) in
      record {
        gas_max = truncate_gas params.max_gas;
        gas_limit = truncate_gas params.limit;
        gas_credit = truncate_gas params.credit;
        gas_base = gas_remaining;
        gas_remaining = pos gas_remaining;
        gas_price = max params.price 1;
        loaded_cells = [];
        libraries = libraries;
        chksign_counter = 0;
        free_gas_consumed = 0;
        get_extra_balance_counter = 0;
        missing_library = none;
      }

  unfoldable pub consumed : GasConsumer Cell → ℕ
  consumed g = as_u64 (saturating_sub_i64 (pos g.gas_base) g.gas_remaining)

  set_base : ℕ → GasConsumer Cell → GasConsumer Cell
  unfolding truncate_gas
  set_base base' g =
      let base = truncate_gas base' in
      let diff = pos base -ℤ pos g.gas_base in
      record g { gas_remaining = wrap_i64 (g.gas_remaining +ℤ diff); gas_base = base }

  unfoldable pub set_limit : ℕ → GasConsumer Cell → GasConsumer Cell
  unfolding set_base
  set_limit limit' g =
      let limit = min limit' g.gas_max in
      set_base limit (record g { gas_credit = 0; gas_limit = limit })

  -- `exec_set_gas` of vm/src/instr/gasops.rs, up to its jump: a limit below what was consumed fails.
  unfoldable pub set_gas : ℕ → Action (GasConsumer Cell) VmError (Unit {0})
  unfolding consumed set_limit
  set_gas limit g =
      if leb (consumed g) limit then (ok tt, set_limit limit g) else (err VmError.out_of_gas, g)

  unfoldable pub try_consume : ℕ → Action (GasConsumer Cell) CellError (Unit {0})
  unfolding truncate_gas
  try_consume amount g =
      let remaining = saturating_sub_i64 g.gas_remaining (pos (truncate_gas amount)) in
      let g' = record g { gas_remaining = remaining } in
      if leb_ℤ (pos 0) remaining then (ok tt, g') else (err CellError.cancelled, g')

  unfoldable pub consume_free_gas : ℕ → GasConsumer Cell → GasConsumer Cell
  unfolding truncate_gas
  consume_free_gas amount g = record g {
    free_gas_consumed = truncate_gas (saturating_add_u64 g.free_gas_consumed amount);
  }

  unfoldable pub try_consume_exception_gas : Action (GasConsumer Cell) CellError (Unit {0})
  try_consume_exception_gas = try_consume exception_gas_price

  unfoldable pub try_consume_implicit_jmpref_gas : Action (GasConsumer Cell) CellError (Unit {0})
  try_consume_implicit_jmpref_gas = try_consume implicit_jmpref_gas_price

  unfoldable pub try_consume_implicit_ret_gas : Action (GasConsumer Cell) CellError (Unit {0})
  try_consume_implicit_ret_gas = try_consume implicit_ret_gas_price

  -- The counter is a `usize`.
  unfoldable pub try_consume_check_signature_gas : Action (GasConsumer Cell) CellError (Unit {0})
  try_consume_check_signature_gas g =
      let g' = record g { chksign_counter = (g.chksign_counter + 1) % 2 ^ 64 } in
      if ltb free_signature_checks g'.chksign_counter
      then try_consume chk_sgn_gas_price g'
      else (ok tt, consume_free_gas chk_sgn_gas_price g')

  unfoldable pub try_consume_tuple_gas : ℕ → Action (GasConsumer Cell) CellError (Unit {0})
  try_consume_tuple_gas tuple_len = try_consume (tuple_len * tuple_entry_gas_price)

  unfoldable pub try_consume_stack_depth_gas : ℕ → Action (GasConsumer Cell) CellError (Unit {0})
  try_consume_stack_depth_gas depth =
      try_consume ((max depth free_stack_depth - free_stack_depth) * stack_value_gas_price)

  -- The argument is the depth of the stack, if there is a stack.
  unfoldable pub try_consume_stack_gas : Option ℕ → Action (GasConsumer Cell) CellError (Unit {0})
  unfolding try_consume_stack_depth_gas
  try_consume_stack_gas none = pure tt
  try_consume_stack_gas (some depth) = try_consume_stack_depth_gas depth

  -- The budget of a `LimitedGasConsumer`, or none when the cheap calls are used up.
  pub try_get_extra_balance_consumer : Action (GasConsumer Cell) CellError (Option ℕ)
  try_get_extra_balance_consumer g =
      let g' = record g {
        get_extra_balance_counter = (g.get_extra_balance_counter + 1) % 2 ^ 64;
      } in
      if leb g'.get_extra_balance_counter cheap_get_balance_calls
      then (ok (some cheap_get_balance_gas_threshold), g')
      else (ok none, g')
