-- ===== src/Vm/Gas/Load/Cost.antt =====
-- The gas that loading a cell costs, through the gas consumer itself.
use tycho_vm.Prelude.{
  ℕ, ◌+◌, ◌≡◌, refl, Bool, true, false, ok, err, Result, Action, List, arith, if◌then◌else◌, fail,
  none, some, Option,
}
use tycho_vm.Prelude.Int.{pos, ◌≤ℤ◌, ◌+ℤ◌, ◌-ℤ◌, int_laws}
use tycho_vm.Vm.Error.{CellError}
use tycho_vm.Vm.Gas.{GasConsumer, try_consume, truncate_gas}
use tycho_vm.Vm.Gas.Invariant.{IsValid}
use tycho_vm.Vm.Gas.Load.{
  CellView, CellType, LoadMode, gas_loader, visited, insert_hash, charge_visit, resolve_library,
  resolve_cell, load_round, load_loop, load_cell_impl,
}

visited-insert_hash : (hash : ℕ) (hs : List ℕ) → visited hash (insert_hash hash hs) ≡ true
visited-insert_hash hash hs = ground arith

module _ {Cell : Type 0} (view : CellView Cell) (mode : LoadMode) where
  pub load_ordinary_cost :
      (cell : Cell) (g : GasConsumer Cell)
      → IsValid g
      → view.cell_type cell ≡ CellType.ordinary
      → (mode.use_gas ≡ true → pos 100 ≤ℤ g.gas_remaining)
      → let hash = view.repr_hash cell in
        let price : ℕ = if visited hash g.loaded_cells then 25 else 100 in
        let paid = record g {
          gas_remaining = g.gas_remaining -ℤ pos price;
          loaded_cells = insert_hash hash g.loaded_cells;
        } in
        (load_cell_impl view gas_loader mode cell g ≡ (ok cell, if mode.use_gas then paid else g))
        × (visited hash paid.loaded_cells ≡ true)
  unfolding load_cell_impl resolve_cell try_consume truncate_gas ◌-ℤ◌
  load_ordinary_cost cell g v t h =
      ground (arith, visited-insert_hash (view.repr_hash cell) g.loaded_cells)

  -- At most `price` gas went from `g` to `g'`.
  abbrev CostsAtMost : ℕ → GasConsumer Cell → GasConsumer Cell → Type 0
  CostsAtMost price g g' = IsValid g' × (g.gas_remaining ≤ℤ g'.gas_remaining +ℤ pos price)

  charge_visit_cost :
      (cell : Cell) (g : GasConsumer Cell)
      → IsValid g
      → (charge_visit view gas_loader mode cell g).0 ≡ ok tt
      → CostsAtMost 100 g (charge_visit view gas_loader mode cell g).1
  unfolding charge_visit try_consume truncate_gas ◌-ℤ◌ ◌+ℤ◌
  charge_visit_cost cell g v h = ground arith

  -- A round of which the continuation costs at most `price` when it succeeds.
  abbrev Continues : ℕ → (Cell → Action (GasConsumer Cell) CellError Cell) → Type 0
  Continues price next =
      (cell cell' : Cell) (g : GasConsumer Cell)
      → IsValid g
      → (next cell g).0 ≡ ok cell'
      → CostsAtMost price g (next cell g).1
        × (mode.resolve ≡ true → view.cell_type cell' ≡ CellType.ordinary)

  resolve_found_cost :
      (price : ℕ) (next : Cell → Action (GasConsumer Cell) CellError Cell)
      → Continues price next
      → (cell cell' : Cell) (g : GasConsumer Cell) (hash : ℕ)
        (found : Result CellError (Option Cell))
      → IsValid g
      → view.library_hash cell ≡ ok hash
      → g.libraries hash ≡ found
      → (resolve_library view gas_loader mode next cell g).0 ≡ ok cell'
      → CostsAtMost price g (resolve_library view gas_loader mode next cell g).1
        × (mode.resolve ≡ true → view.cell_type cell' ≡ CellType.ordinary)
  unfolding resolve_library
  resolve_found_cost price next k cell cell' g hash (ok (some c)) v p q h =
      ground (arith, k c cell' g v)
  resolve_found_cost price next k cell cell' g hash (ok none) v p q h = absurd (ground arith)
  resolve_found_cost price next k cell cell' g hash (err e) v p q h = absurd (ground arith)

  resolve_library_cost :
      (price : ℕ) (next : Cell → Action (GasConsumer Cell) CellError Cell)
      → Continues price next
      → Continues price (resolve_library view gas_loader mode next)
  unfolding resolve_library
  resolve_library_cost price next k cell cell' g v h = split (view.library_hash cell) refl
    where
      split :
          (r : Result CellError ℕ)
          → view.library_hash cell ≡ r
          → CostsAtMost price g (resolve_library view gas_loader mode next cell g).1
            × (mode.resolve ≡ true → view.cell_type cell' ≡ CellType.ordinary)
      split (ok hash) p =
          resolve_found_cost price next k cell cell' g hash (g.libraries hash) v p refl h
      split (err e) p = absurd (ground arith)

  resolve_cell_cost :
      (price : ℕ) (ty : CellType) (loaded : Bool)
      (next : Cell → Action (GasConsumer Cell) CellError Cell)
      → Continues price next
      → (cell cell' : Cell) (g : GasConsumer Cell) → IsValid g
      → view.cell_type cell ≡ ty
      → (resolve_cell view gas_loader mode ty loaded next cell g).0 ≡ ok cell'
      → CostsAtMost price g (resolve_cell view gas_loader mode ty loaded next cell g).1
        × (mode.resolve ≡ true → view.cell_type cell' ≡ CellType.ordinary)
  unfolding resolve_cell
  resolve_cell_cost price CellType.ordinary loaded next k cell cell' g v t h =
      let e : cell ≡ cell' = ground arith in ((v, omega int_laws), λ r. rw e at t)
  resolve_cell_cost price CellType.library_reference false next k cell cell' g v t h =
      resolve_library_cost price next k cell cell' g v h
  resolve_cell_cost price _ loaded next k cell cell' g v t h = cc

  -- One round: its own visit, and then what follows.
  load_round_cost :
      (price : ℕ) (loaded : Bool) (next : Cell → Action (GasConsumer Cell) CellError Cell)
      → Continues price next
      → Continues (100 + price) (load_round view gas_loader mode loaded next)
  unfolding load_round ◌+ℤ◌
  load_round_cost price loaded next k cell cell' g v h =
      let g1 = (charge_visit view gas_loader mode cell g).1 in
      ground (
        arith,
        charge_visit_cost cell g v,
        resolve_cell_cost price (view.cell_type cell) loaded next k cell cell' g v refl,
        resolve_cell_cost price (view.cell_type cell) loaded next k cell cell' g1,
      )

  -- A cell that `load_cell_impl` loads through a well-formed gas consumer costs at most 200 gas, and leaves the
  -- consumer well-formed; if the mode resolves libraries, it is an ordinary cell.
  pub load_cell_bound :
      (cell cell' : Cell) (g : GasConsumer Cell)
      → IsValid g
      → (load_cell_impl view gas_loader mode cell g).0 ≡ ok cell'
      → let g' = (load_cell_impl view gas_loader mode cell g).1 in
        IsValid g'
        × (g.gas_remaining ≤ℤ g'.gas_remaining +ℤ pos 200)
        × (mode.resolve ≡ true → view.cell_type cell' ≡ CellType.ordinary)
  unfolding load_cell_impl load_loop
  load_cell_bound cell cell' g v h =
      let last =
        load_round_cost 0 true (λ _. fail CellError.cell_underflow)
          (λ c c' t w e. absurd (ground arith)) in
      let both =
        load_round_cost 100 false
          (load_round view gas_loader mode true (λ _. fail CellError.cell_underflow)) last cell
          cell' g v h in
      (both.0.0, both.0.1, both.1)
