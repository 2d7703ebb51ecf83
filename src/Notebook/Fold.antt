-- ===== src/Notebook/Fold.antt =====
-- The fold of the log into the document (src/nb_doc.go: foldEvents, applyEvent, indexOfCell).
pub mod Find
pub mod Frame
pub mod Ids
pub mod Log
pub mod Placement
pub mod Runs
pub mod Staleness
use collectif.Common.{
  ℕ, zero, suc, ◌+◌, ◌-◌, String, Bool, true, false, ◌&&◌, ◌||◌, not, Option, none, some, List, [],
  ◌∷◌, ◌++◌, str_eq, ltb, ◌==◌, if◌then◌else◌, Result, ok, err, length, modify, insert_at,
  erase_idx, get_elem?, min,
}
use mathlib.Core.Option
use collectif.Notebook.Cells.{
  CellType, markdown, prompt, shell, file, CellState, idle, running, success, error, stale, blank,
  Cell, CellMeta, Notebook, NotebookMeta, Output, no_usage,
}
use collectif.Notebook.Events.{
  Event, Codec, FoldError, Change, CreatedPayload, MetaSetPayload, InsertedPayload, EditedPayload,
  MovedPayload, RunStartedPayload, OutputAppendedPayload, RunFinishedPayload, create, set_meta,
  insert, edit, move, delete, start, output, finish, invalidate, skip, decode_event,
}

unfoldable pub valid_cell_type : CellType → Bool
valid_cell_type markdown = true
valid_cell_type prompt = true
valid_cell_type shell = true
valid_cell_type file = true
valid_cell_type _ = false

-- `indexOfCell`, with `none` for -1.
unfoldable pub index_of_cell : List Cell → String → Option ℕ
index_of_cell [] id = none
index_of_cell (c ∷ cs) id =
    let rest = Option.map suc (index_of_cell cs id) in if str_eq c.id id then some 0 else rest

abbrev pub is_blank : CellState → Bool
is_blank blank = true
is_blank _ = false

-- The stored cell: a blank state is idle, and a zero creation time is the envelope's.
unfoldable pub normalised : ℕ → Cell → Cell
normalised at c = record c {
  state = if is_blank c.state then idle else c.state;
  created_at = if c.created_at == 0 then at else c.created_at;
}

unfoldable pub at_or : Option ℕ → ℕ → ℕ
at_or none n = n
at_or (some i) n = i

unfoldable pub insertion_point : List Cell → InsertedPayload → ℕ
unfolding at_or
insertion_point cells p =
    if not (str_eq p.before_cell_id "")
    then at_or (index_of_cell cells p.before_cell_id) (length cells)
    else if not (str_eq p.after_cell_id "")
    then at_or (Option.map suc (index_of_cell cells p.after_cell_id)) (length cells)
    else length cells

-- Writes to one cell, by the index that `indexOfCell` found.
abbrev pub at_index : Option ℕ → (Cell → Cell) → List Cell → List Cell
at_index none f cells = cells
at_index (some i) f cells = modify cells i f

unfoldable pub update_cell : String → (Cell → Cell) → List Cell → List Cell
update_cell id f cells = at_index (index_of_cell cells id) f cells

abbrev given : {A : Type 0} → Option A → A → A
given none a = a
given (some b) a = b

abbrev valid_type : Option CellType → CellType → CellType
valid_type none k = k
valid_type (some k') k = if valid_cell_type k' then k' else k

unfoldable pub edited : EditedPayload → Cell → Cell
unfolding valid_cell_type
edited p c = record c {
  source = given p.source c.source;
  kind = valid_type p.kind c.kind;
  meta = given p.meta c.meta;
}

-- Taking a cell out, and putting it back in front of another or at the end.
unfoldable pub landing : String → List Cell → ℕ
unfolding at_or
landing before cells =
    if str_eq before "" then length cells else at_or (index_of_cell cells before) (length cells)

abbrev replace_at : Option Cell → ℕ → String → List Cell → List Cell
replace_at none from before cells = cells
replace_at (some c) from before cells =
    let rest = erase_idx cells from in insert_at (landing before rest) c rest

abbrev move_from : Option ℕ → String → List Cell → List Cell
move_from none before cells = cells
move_from (some from) before cells = replace_at (get_elem? cells from) from before cells

unfoldable pub move_cell : MovedPayload → List Cell → List Cell
unfolding landing
move_cell p cells = move_from (index_of_cell cells p.cell_id) p.before_cell_id cells

abbrev delete_at : Option ℕ → List Cell → List Cell
delete_at none cells = cells
delete_at (some i) cells = erase_idx cells i

unfoldable pub delete_cell : String → List Cell → List Cell
delete_cell id cells = delete_at (index_of_cell cells id) cells

unfoldable pub started_run : String → ℕ → Cell → Cell
started_run run at c = record c {
  outputs = [];
  run_id = run;
  state = running;
  started = at;
  duration = 0;
  usage = no_usage;
}

-- Output of a run that another has replaced.
unfoldable pub superseded : String → Cell → Bool
superseded run c = not (str_eq run "") && (not (str_eq c.run_id "") && not (str_eq run c.run_id))

unfoldable pub with_output : OutputAppendedPayload → Cell → Cell
unfolding superseded
with_output p c =
    if superseded p.run_id c then c else record c { outputs = c.outputs ++ p.output ∷ [] }

-- `time.Time.Sub` stops at the largest `time.Duration`.
abbrev pub max_duration : ℕ
max_duration = 9223372036854775807

unfoldable pub run_duration : ℕ → Cell → ℕ
run_duration at c =
    if not (c.started == 0) && (not (at == 0) && ltb c.started at)
    then min (at - c.started) max_duration
    else c.duration

unfoldable pub finished_run : RunFinishedPayload → ℕ → Cell → Cell
unfolding superseded run_duration
finished_run p at c = if superseded p.run_id c then c else record c {
  state = if is_blank p.status then success else p.status;
  usage = p.usage;
  duration = run_duration at c;
}

abbrev stale_state : CellState → CellState
stale_state success = stale
stale_state error = stale
stale_state s = s

unfoldable pub made_stale : Cell → Cell
made_stale c = record c { state = stale_state c.state }

unfoldable pub invalidate_cells : List String → List Cell → List Cell
unfolding made_stale update_cell index_of_cell
invalidate_cells [] cells = cells
invalidate_cells (id ∷ ids) cells = invalidate_cells ids (update_cell id made_stale cells)

-- The body of each case of `applyEvent`, at the envelope's time.
unfoldable pub apply_change : Change → ℕ → Notebook → Notebook
apply_change (create p) at nb = record nb { title = p.title; root = p.root }
apply_change (set_meta p) at nb = record nb {
  title = given p.title nb.title;
  meta = given p.meta nb.meta;
}
apply_change (insert p) at nb = record nb {
  cells = insert_at (insertion_point nb.cells p) (normalised at p.cell) nb.cells;
}
apply_change (edit p) at nb = record nb { cells = update_cell p.cell_id (edited p) nb.cells }
apply_change (move p) at nb = record nb { cells = move_cell p nb.cells }
apply_change (delete id) at nb = record nb { cells = delete_cell id nb.cells }
apply_change (start p) at nb = record nb {
  cells = update_cell p.cell_id (started_run p.run_id at) nb.cells;
}
apply_change (output p) at nb = record nb { cells = update_cell p.cell_id (with_output p) nb.cells }
apply_change (finish p) at nb = record nb {
  cells = update_cell p.cell_id (finished_run p at) nb.cells;
}
apply_change (invalidate ids) at nb = record nb { cells = invalidate_cells ids nb.cells }
apply_change skip at nb = nb

-- The deferred `nb.Version++`, which runs on the error path too.
abbrev pub bump : Notebook → Notebook
bump nb = record nb { version = nb.version + 1 }

abbrev pub settle : Result FoldError Change → ℕ → Notebook → Notebook × Option FoldError
settle (ok ch) at nb = (bump (apply_change ch at nb), none)
settle (err e) at nb = (bump nb, some e)

abbrev pub empty_notebook : Notebook
empty_notebook = record {
  id = "";
  title = "";
  root = "";
  meta = record {
    model = "";
    effort = "";
    budget_usd = 0;
    cli = "";
    permissions = none;
    session_id = "";
  };
  cells = [];
  version = 0;
}

abbrev proceed :
    Notebook × Option FoldError → (Notebook → Result FoldError Notebook) → Result FoldError Notebook
proceed (nb, none) k = k nb
proceed (nb, some e) k = err e

module _ {R : Type 0} (codec : Codec R) where
  -- The document is changed in place, and the error comes beside it.
  unfoldable pub apply_event : Notebook → Event R → Notebook × Option FoldError
  apply_event nb e = settle (decode_event codec e) e.at nb

  -- The loop of `foldEvents`, from any document.
  unfoldable pub fold_from : Notebook → List (Event R) → Result FoldError Notebook
  fold_from nb [] = ok nb
  fold_from nb (e ∷ es) = proceed (apply_event nb e) (λ nb'. fold_from nb' es)

  unfoldable pub fold_events : List (Event R) → Result FoldError Notebook
  unfolding fold_from apply_event
  fold_events es = fold_from empty_notebook es
