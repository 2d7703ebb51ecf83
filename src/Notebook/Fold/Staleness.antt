-- ===== src/Notebook/Fold/Staleness.antt =====
-- The event cells_invalidated (src/nb_doc.go: applyEvent): which results go stale.
use collectif.Common.{
  ℕ, ◌≡◌, refl, ap, ◌∙◌, ◌||◌, Bool, true, false, Option-cases, inl, inr, Option, none, some, List,
  [], ◌∷◌, str_eq, if◌then◌else◌, String,
}
use mathlib.Core.Option
use collectif.Notebook.Cells.{
  Cell, CellState, idle, queued, running, success, error, interrupted, stale, blank, other,
  Notebook,
}
use collectif.Notebook.Events.{invalidate}
use collectif.Notebook.Fold.{update_cell, made_stale, stale_state, invalidate_cells, apply_change}
use collectif.Notebook.Fold.Find.{find_cell, find_cell-update_cell}
use collectif.Notebook.Fold.Frame.{made_stale-KeepsId}

unfoldable pub listed : String → List String → Bool
listed j [] = false
listed j (id ∷ ids) = str_eq id j || listed j ids

-- The state of a listed cell afterwards, state by state.
abbrev pub after_listing : CellState → CellState
after_listing idle = idle
after_listing queued = queued
after_listing running = running
after_listing success = stale
after_listing error = stale
after_listing interrupted = interrupted
after_listing stale = stale
after_listing blank = blank
after_listing (other s) = other s

-- What an invalidation that lists a cell, or does not, makes of it.
abbrev pub invalidated : Bool → Cell → Cell
invalidated b c = record c { state = if b then after_listing c.state else c.state }

stale_state-after_listing : (s : CellState) → stale_state s ≡ after_listing s
stale_state-after_listing idle = refl
stale_state-after_listing queued = refl
stale_state-after_listing running = refl
stale_state-after_listing success = refl
stale_state-after_listing error = refl
stale_state-after_listing interrupted = refl
stale_state-after_listing stale = refl
stale_state-after_listing blank = refl
stale_state-after_listing (other s) = refl

-- The fold's change of one cell is that of a listed cell.
made_stale-invalidated : (c : Cell) → made_stale c ≡ invalidated true c
unfolding made_stale
made_stale-invalidated c = ap (λ s. record c { state = s }) (stale_state-after_listing c.state)

after_listing_idem : (s : CellState) → after_listing (after_listing s) ≡ after_listing s
after_listing_idem success = refl
after_listing_idem error = refl
after_listing_idem _ = refl

invalidated_twice : (b : Bool) (c : Cell) → invalidated b (invalidated true c) ≡ invalidated true c
invalidated_twice true c = ap (λ s. record c { state = s }) (after_listing_idem c.state)
invalidated_twice false c = refl

invalidated-made_stale :
    (a b : Bool) (o : Option Cell)
    → Option.map (invalidated b) (if a then Option.map made_stale o else o)
      ≡ Option.map (invalidated (a || b)) o
invalidated-made_stale true b (some c) =
    ap (λ d. some (invalidated b d)) (made_stale-invalidated c) ∙ ap some (invalidated_twice b c)
invalidated-made_stale false b (some c) = refl
invalidated-made_stale true b none = refl
invalidated-made_stale false b none = refl

find_cell-invalidate_cells :
    (ids : List String) (j : String) (cs : List Cell)
    → find_cell (invalidate_cells ids cs) j
      ≡ Option.map (invalidated (listed j ids)) (find_cell cs j)
unfolding invalidate_cells listed
find_cell-invalidate_cells [] j cs = elim (Option-cases (find_cell cs j)) [
  | inl e ↦ rw e
  | inr (c, e) ↦ rw e
]
find_cell-invalidate_cells (id ∷ ids) j cs =
    find_cell-invalidate_cells ids j (update_cell id made_stale cs)
    ∙ ap (Option.map (invalidated (listed j ids)))
        (find_cell-update_cell id j made_stale cs made_stale-KeepsId)
    ∙ invalidated-made_stale (str_eq id j) (listed j ids) (find_cell cs j)

-- An invalidation makes stale the listed cells that ended well or with an error, and touches
-- nothing else of them, and no cell that it does not list.
pub find_cell-invalidate :
    (ids : List String) (at : ℕ) (nb : Notebook) (j : String)
    → find_cell (apply_change (invalidate ids) at nb).cells j
      ≡ Option.map (invalidated (listed j ids)) (find_cell nb.cells j)
unfolding apply_change
find_cell-invalidate ids at nb j = find_cell-invalidate_cells ids j nb.cells
