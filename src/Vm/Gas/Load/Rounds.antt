-- ===== src/Vm/Gas/Load/Rounds.antt =====
-- The loop of `load_cell_impl` ends, and what it returns.
use tycho_vm.Prelude.{ℕ, suc, ◌≡◌, refl, true, false, Bool, Action, arith}
use mathlib.Core.Path.{fun_ext}
use tycho_vm.Vm.Error.{CellError}
use tycho_vm.Vm.Gas.Load.{
  CellView, CellType, LoadMode, Loader, charge_visit, resolve_cell, load_round, load_loop,
  load_cell_impl,
}

module _ {S Cell : Type 0} (view : CellView Cell) (loader : Loader S Cell) (mode : LoadMode) where
  resolve_cell_last :
      (ty : CellType) (next next' : Cell → Action S CellError Cell) (cell : Cell) (s : S)
      → resolve_cell view loader mode ty true next cell s
        ≡ resolve_cell view loader mode ty true next' cell s
  unfolding resolve_cell
  resolve_cell_last CellType.ordinary next next' cell s = refl
  resolve_cell_last _ next next' cell s = refl

  load_round_last :
      (next next' : Cell → Action S CellError Cell) (cell : Cell) (s : S)
      → load_round view loader mode true next cell s ≡ load_round view loader mode true next' cell s
  unfolding load_round
  load_round_last next next' cell s = ground (
    arith,
    resolve_cell_last (view.cell_type cell) next next' cell
        (charge_visit view loader mode cell s).1,
    resolve_cell_last (view.cell_type cell) next next' cell s,
  )

  load_round_next :
      (next next' : Cell → Action S CellError Cell) (loaded : Bool) (cell : Cell) (s : S)
      → ((c : Cell) (t : S) → next c t ≡ next' c t)
      → load_round view loader mode loaded next cell s
        ≡ load_round view loader mode loaded next' cell s
  load_round_next next next' loaded cell s h =
      rw (fun_ext {f = next} {g = next'} (λ c. fun_ext (λ t. h c t)))

  -- The loop of `load_cell_impl` ends: on any fuel of two rounds or more it gives the result of
  -- `load_cell_impl`, whatever would follow when the fuel runs out.
  pub load_loop_ends :
      (stuck : Cell → Action S CellError Cell) (fuel : ℕ) (cell : Cell) (s : S)
      → load_loop view loader mode stuck (suc (suc fuel)) false cell s
        ≡ load_cell_impl view loader mode cell s
  unfolding load_loop load_cell_impl
  load_loop_ends stuck fuel cell s =
      load_round_next _ _ false cell s (λ c t. load_round_last _ _ c t)
