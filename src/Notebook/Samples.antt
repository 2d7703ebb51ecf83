-- ===== src/Notebook/Samples.antt =====
-- Small documents and logs (src/nb_doc.go): tests, and the document's theorems at them.
use mathlib.Core.List.{Nodup, Nodup-nil, not-mem-nil}
use mathlib.Core.Option
use collectif.Common.{
  ℕ, ◌≡◌, refl, ◌≢◌, Bool, true, false, Option, none, some, List, [], ◌∷◌, ◌++◌, arith, eq_iff,
  String, ok, err,
}
use collectif.Notebook.Cells.{
  CellMeta, Cell, prompt, Output, text, CellState, idle, running, success, error, no_usage,
  Notebook, interrupted,
}
use collectif.Notebook.Events.{
  Event, Codec, bad_payload, Change, CreatedPayload, InsertedPayload, MovedPayload,
  OutputAppendedPayload, insert, move, start, output, finish, invalidate, decode_event,
}
use collectif.Notebook.Fold.{
  empty_notebook, fold_from, fold_events, apply_change, index_of_cell, normalised, insertion_point,
}
use collectif.Notebook.Fold.Find.{find_cell}
use collectif.Notebook.Fold.Frame.{find_cell-apply_change}
use collectif.Notebook.Fold.Ids.{ids, apply_change-Nodup}
use collectif.Notebook.Fold.Log.{contents, understood, name_of, fold_events-understood}
use collectif.Notebook.Fold.Placement.{Placed, insert-Placed, Moved, move-Moved}
use collectif.Notebook.Fold.Runs.{
  apply_changes, Turn, done, mine, aside, late, run_record, run-recorded,
}
use collectif.Notebook.Fold.Staleness.{listed, invalidated, find_cell-invalidate}

-- A stand-in for raw JSON: the decoded payload of three event types, or nothing that decodes.
data Raw : Type 0 where
  nothing garbage : Raw
  created : CreatedPayload → Raw
  inserted : InsertedPayload → Raw
  moved : MovedPayload → Raw

abbrev as_created : Raw → Option CreatedPayload
as_created (created p) = some p
as_created _ = none

abbrev as_inserted : Raw → Option InsertedPayload
as_inserted (inserted p) = some p
as_inserted _ = none

abbrev as_moved : Raw → Option MovedPayload
as_moved (moved p) = some p
as_moved _ = none

abbrev is_nothing : Raw → Bool
is_nothing nothing = true
is_nothing _ = false

abbrev codec : Codec Raw
codec = record {
  is_empty = is_nothing;
  created = as_created;
  meta_set = λ _. none;
  inserted = as_inserted;
  edited = λ _. none;
  moved = as_moved;
  deleted = λ _. none;
  run_started = λ _. none;
  output_appended = λ _. none;
  run_finished = λ _. none;
  invalidated = λ _. none;
}

abbrev no_meta : CellMeta
no_meta = record {
  model = "";
  effort = "";
  collapsed = false;
  tags = [];
  provenance = "";
  source_uuid = "";
  parent_uuid = "";
}

abbrev cell : String → CellState → Cell
cell id state = record {
  id = id;
  kind = prompt;
  source = "list the files";
  meta = no_meta;
  outputs = [];
  state = state;
  run_id = "";
  created_at = 7;
  started = 0;
  duration = 0;
  usage = no_usage;
  cache_mode = "";
}

abbrev two_cells : Notebook
two_cells = record empty_notebook { cells = cell "a" success ∷ cell "b" interrupted ∷ [] }

abbrev said : String → Output
said s = record { kind = text; text = s; attrs = [] }

abbrev new_cell : String → InsertedPayload
new_cell before = record { cell = cell "c" idle; after_cell_id = ""; before_cell_id = before }

abbrev event : String → Raw → Event Raw
event kind payload = record { v = 1; kind = kind; id = "e"; at = 9; payload = payload }

abbrev log : List (Event Raw)
log =
    event "notebook_created" (created (record { title = "t"; root = "/r" }))
    ∷ event "cell_pinned" garbage
    ∷ event "cell_inserted" (inserted (new_cell ""))
    ∷ []

abbrev folded : Notebook
folded = record empty_notebook { title = "t"; root = "/r"; cells = cell "c" idle ∷ []; version = 3 }

log_folds : fold_events codec log ≡ ok folded
unfolding fold_events decode_event insertion_point normalised apply_change
log_folds = refl

abbrev broken : List (Event Raw)
broken = event "cell_pinned" garbage ∷ event "cell_moved" garbage ∷ log

broken_fails : fold_from codec empty_notebook broken ≡ err (bad_payload "e" "cell_moved")
unfolding fold_events decode_event apply_change
broken_fails = refl

fold_events-understood_example :
    contents (fold_events codec log) ≡ contents (fold_events codec (understood log name_of))
fold_events-understood_example = fold_events-understood codec log

a_not_b : ◌≢◌ {A = String} "a" "b"
a_not_b = ground (arith, eq_iff "a" "b")

find_cell-apply_change_example :
    find_cell (apply_change (start (record { cell_id = "a"; run_id = "r" })) 9 two_cells).cells "b"
    ≡ find_cell two_cells.cells "b"
find_cell-apply_change_example =
    find_cell-apply_change (start (record { cell_id = "a"; run_id = "r" })) 9 two_cells "b" a_not_b

apply_change-Nodup_example :
    Nodup (ids (apply_change (insert (new_cell "")) 9 empty_notebook).cells)
apply_change-Nodup_example =
    apply_change-Nodup (insert (new_cell "")) 9 empty_notebook not-mem-nil Nodup-nil

insert-Placed_example :
    Placed "b" ""
      (normalised 9 (cell "c" idle))
      two_cells.cells
      (apply_change (insert (new_cell "b")) 9 two_cells).cells
insert-Placed_example = insert-Placed (new_cell "b") 9 two_cells

insert_above_the_first :
    (apply_change (insert (new_cell "a")) 9 two_cells).cells
    ≡ cell "c" idle ∷ cell "a" success ∷ cell "b" interrupted ∷ []
unfolding apply_change insertion_point index_of_cell normalised
insert_above_the_first = refl

move-Moved_example :
    Moved "b" "a" two_cells.cells
      (apply_change (move (record { cell_id = "b"; before_cell_id = "a" })) 9 two_cells).cells
move-Moved_example = move-Moved (record { cell_id = "b"; before_cell_id = "a" }) 9 two_cells

find_cell-invalidate_example :
    find_cell (apply_change (invalidate ("a" ∷ "b" ∷ [])) 9 two_cells).cells "a"
    ≡ Option.map (invalidated (listed "a" ("a" ∷ "b" ∷ []))) (find_cell two_cells.cells "a")
find_cell-invalidate_example = find_cell-invalidate ("a" ∷ "b" ∷ []) 9 two_cells "a"

abbrev on_run : String → Notebook
on_run run = record two_cells { cells = record (cell "a" running) { run_id = run } ∷ [] }

abbrev of_run : String → OutputAppendedPayload
of_run run = record { cell_id = "a"; run_id = run; output = said "hi" }

abbrev busy : List (Change × ℕ)
busy =
    (output (of_run "r2"), 5)
    ∷ (start (record { cell_id = "b"; run_id = "q" }), 6)
    ∷ (output (of_run "r1"), 7)
    ∷ []

busy-Turn : Turn "a" "r2" busy (said "hi" ∷ [])
busy-Turn = mine (said "hi") 5 (
    aside (start (record { cell_id = "b"; run_id = "q" })) 6 (ground (arith, eq_iff "b" "a")) (
      late (output (of_run "r1")) 7
        (refl, ground (arith, eq_iff "r1" ""), ground (arith, eq_iff "r1" "r2")) done))

run-recorded_example :
    find_cell
      (apply_changes
        ((start (record { cell_id = "a"; run_id = "r2" }), 4) ∷ busy
          ++ (
            finish (record { cell_id = "a"; run_id = "r2"; status = error; usage = no_usage }),
            11,
          )
            ∷ [])
        two_cells).cells
      "a"
    ≡ some (run_record (cell "a" success) "r2" 4 (said "hi" ∷ []) error no_usage 11)
run-recorded_example =
    run-recorded "a" "r2" (cell "a" success) two_cells 4 11 error no_usage
      (unfold find_cell in refl) refl (ground (arith, eq_iff "r2" "")) busy-Turn (omega arith)
      (omega arith) (omega arith) refl
