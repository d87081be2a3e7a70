-- ===== src/Vm/Gas/Load.antt =====
-- Loading a cell through a gas consumer (vm/src/gas.rs, `load_cell_impl`), for the consumer itself
-- and for the `LimitedGasConsumer`, whose two copies of the loop differ only in what they charge.
pub mod Rounds
pub mod Limited
pub mod Cost
use tycho_vm.Prelude.{
  ℕ, zero, suc, ◌+◌, ◌-◌, min, Bool, true, false, Option, none, some, List, [], ◌∷◌, ◌==◌, ◌||◌,
  if◌then◌else◌, Result, ok, err, Action, ◌>>=◌, ◌>>◌, pure, fail, lift, modify,
}
use tycho_vm.Vm.Error.{CellError}
use tycho_vm.Vm.Gas.{
  GasConsumer, truncate_gas, try_consume, consume_free_gas, new_cell_gas, old_cell_gas,
}

pub data CellType : Type 0 where
  ordinary pruned_branch library_reference merkle_proof merkle_update : CellType

-- What the loop reads of a cell of the cell library.
pub record CellView (Cell : Type 0) : Type 0 where
  pub repr_hash : Cell → ℕ
  pub cell_type : Cell → CellType
  pub library_hash : Cell → Result CellError ℕ

pub record LoadMode : Type 0 where
  pub use_gas : Bool
  pub resolve : Bool

abbrev pub visited : ℕ → List ℕ → Bool
visited hash [] = false
visited hash (h ∷ hs) = hash == h || visited hash hs

-- `HashSet::insert`.
abbrev pub insert_hash : ℕ → List ℕ → List ℕ
insert_hash hash hs = if visited hash hs then hs else hash ∷ hs

-- What the loop needs of a consumer with state `S`.
pub record Loader (S Cell : Type 0) : Type 0 where
  pub charge : ℕ → Action S CellError (Unit {0})
  pub loaded : S → List ℕ
  pub set_loaded : List ℕ → S → S
  pub find_library : ℕ → S → Result CellError (Option Cell)
  pub set_missing : ℕ → S → S

module _ {S Cell : Type 0} (view : CellView Cell) (loader : Loader S Cell) (mode : LoadMode) where
  charge_visit : Cell → Action S CellError (Unit {0})
  charge_visit cell s =
      let hash = view.repr_hash cell in
      let hs = loader.loaded s in
      loader.charge (if visited hash hs then old_cell_gas else new_cell_gas)
        (loader.set_loaded (insert_hash hash hs) s)

  -- A library cell is looked up by its hash, and the loop goes on with what was found.
  resolve_library : (Cell → Action S CellError Cell) → Cell → Action S CellError Cell
  resolve_library next cell = do
    hash ← lift (view.library_hash cell)
    found ← λ s. (loader.find_library hash s, s)
    elim found [
      | some library_cell ↦ next library_cell
      | none ↦ modify (loader.set_missing hash) >> fail CellError.cell_underflow
    ]

  resolve_cell : CellType → Bool → (Cell → Action S CellError Cell) → Cell → Action S CellError Cell
  unfolding resolve_library
  resolve_cell CellType.ordinary loaded next cell = pure cell
  resolve_cell CellType.library_reference false next cell = resolve_library next cell
  resolve_cell _ _ next cell = fail CellError.cell_underflow

  -- One round of the loop; `next` is the following round.
  load_round : Bool → (Cell → Action S CellError Cell) → Cell → Action S CellError Cell
  unfolding charge_visit resolve_cell
  load_round library_loaded next cell = do
    if mode.use_gas then charge_visit cell else pure tt
    (if mode.resolve
        then resolve_cell (view.cell_type cell) library_loaded next cell
        else pure cell)

  -- The loop on fuel: `stuck` is what follows when it runs out.
  unfoldable pub load_loop :
      (Cell → Action S CellError Cell) → ℕ → Bool → Cell → Action S CellError Cell
  unfolding load_round
  load_loop stuck zero library_loaded = stuck
  load_loop stuck (suc fuel) library_loaded = load_round library_loaded (load_loop stuck fuel true)

  -- Two rounds are enough: a second library reference is an error.
  unfoldable pub load_cell_impl : Cell → Action S CellError Cell
  unfolding load_loop
  load_cell_impl = load_loop (λ _. fail CellError.cell_underflow) 2 false

abbrev pub gas_loader : {Cell : Type 0} → Loader (GasConsumer Cell) Cell
gas_loader = record {
  charge = try_consume;
  loaded = λ g. g.loaded_cells;
  set_loaded = λ hs g. record g { loaded_cells = hs };
  find_library = λ hash g. g.libraries hash;
  set_missing = λ hash g. record g { missing_library = some hash };
}

-- The consumer behind the shared reference is part of the state.
pub record LimitedGasConsumer (Cell : Type 0) : Type 0 where
  pub gas : GasConsumer Cell
  pub remaining : ℕ

module _ {Cell : Type 0} where
  set_consumed : ℕ → ℕ → LimitedGasConsumer Cell → GasConsumer Cell → LimitedGasConsumer Cell
  unfolding consume_free_gas
  set_consumed amount consumed l gas =
      let remaining = l.remaining - consumed in
      record {
        gas = if remaining == 0 then consume_free_gas (amount - consumed) gas else gas;
        remaining = remaining;
      }

  pub try_consume_limited : ℕ → Action (LimitedGasConsumer Cell) CellError (Unit {0})
  unfolding set_consumed truncate_gas try_consume
  try_consume_limited amount' l =
      let amount = truncate_gas amount' in
      let consumed = min amount l.remaining in
      let (r, gas) = try_consume consumed l.gas in
      elim r [
        | err e ↦ (err e, record l { gas = gas })
        | ok _ ↦ (ok tt, set_consumed amount consumed l gas)
      ]

abbrev pub limited_loader : {Cell : Type 0} → Loader (LimitedGasConsumer Cell) Cell
limited_loader = record {
  charge = try_consume_limited;
  loaded = λ l. l.gas.loaded_cells;
  set_loaded = λ hs l. record l { gas = record (l.gas) { loaded_cells = hs } };
  find_library = λ hash l. l.gas.libraries hash;
  set_missing = λ hash l. record l { gas = record (l.gas) { missing_library = some hash } };
}
