-- ===== src/Store/Runs.antt =====
-- Runs of cells (src/nb_run.go: beginRun, endRun, finishRun; src/nb_store.go: invalidateBelow). A run
-- is its id; its context is left out.
pub mod Registry
use collectif.Common.{
  ℕ, suc, Bool, true, false, ◌||◌, String, Option, none, some, List, [], ◌∷◌, ◌++◌, str_eq, drop,
  if◌then◌else◌,
}
use collectif.Notebook.Cells.{CellState, Cell, Usage, Output, no_usage, success, error, interrupted}
use collectif.Notebook.Cells
use collectif.Notebook.Events.{Change, invalidate, output, finish}
use collectif.Notebook.Fold.{index_of_cell}

-- `st.runs`
abbrev pub Runs : Type 0
Runs = List (String × String)

unfoldable pub run_of : Runs → String → Option String
run_of [] cell = none
run_of ((c, run) ∷ runs) cell =
    let rest = run_of runs cell in if str_eq c cell then some run else rest

unfoldable pub without_run : Runs → String → Runs
without_run [] cell = []
without_run ((c, run) ∷ runs) cell =
    let rest = without_run runs cell in if str_eq c cell then rest else (c, run) ∷ rest

abbrev pub claimed_with : Option String → String → String → Runs → Option Runs
claimed_with none cell run runs = some ((cell, run) ∷ runs)
claimed_with (some _) cell run runs = none

-- The runs with the new one, `none` where the cell is running.
unfoldable pub begin_run : String → String → Runs → Option Runs
unfolding run_of
begin_run cell run runs = claimed_with (run_of runs cell) cell run runs

abbrev pub is_own : Option String → String → Bool
is_own none run = false
is_own (some cur) run = str_eq cur run

unfoldable pub end_run : String → String → Runs → Runs
unfolding run_of without_run
end_run cell run runs = if is_own (run_of runs cell) run then without_run runs cell else runs

abbrev is_finished : CellState → Bool
is_finished success = true
is_finished error = true
is_finished interrupted = true
is_finished _ = false

unfoldable pub finished_ids : List Cell → List String
finished_ids [] = []
finished_ids (c ∷ cs) =
    let rest = finished_ids cs in if is_finished c.state then c.id ∷ rest else rest

abbrev invalidation : List String → List Change
invalidation [] = []
invalidation (id ∷ ids) = invalidate (id ∷ ids) ∷ []

abbrev below : Option ℕ → List Cell → List Change
below none cells = []
below (some i) cells = invalidation (finished_ids (drop (suc i) cells))

-- What invalidateBelow appends.
unfoldable pub invalidate_below : List Cell → String → List Change
unfolding finished_ids index_of_cell
invalidate_below cells cell = below (index_of_cell cells cell) cells

-- What finishRun appends; between the two it clears the live text.
unfoldable pub finish_run : String → String → String → CellState → List Change
finish_run cell run words st =
    (if str_eq words ""
      then []
      else output (record {
        cell_id = cell;
        run_id = run;
        output = record { kind = Cells.text; text = words; attrs = [] };
      })
        ∷ [])
    ++ finish (record { cell_id = cell; run_id = run; status = st; usage = no_usage }) ∷ []
