-- ===== src/Notebook/Fold/Runs.antt =====
-- The events of a run (src/nb_doc.go: applyEvent, the cases run_started, output_appended,
-- run_finished and cells_invalidated).
use collectif.Common.{
  ℕ, ◌-◌, ◌≤◌, ◌<◌, ◌≡◌, refl, sym, ap, ◌∙◌, ◌≢◌, true, false, Bool-cases, inl, inr, some, List, [],
  ◌∷◌, ◌++◌, arith, str_eq, eq_iff, String,
}
use mathlib.Core.List.{append_assoc, append-nil}
use collectif.Notebook.Cells.{Cell, CellState, Notebook, Output, Usage}
use collectif.Notebook.Events.{Change, RunFinishedPayload, start, output, finish}
use collectif.Notebook.Fold.{
  update_cell, started_run, superseded, with_output, finished_run, run_duration, max_duration,
  apply_change, is_blank,
}
use collectif.Notebook.Fold.Find.{
  find_cell, KeepsId, find_cell-update_cell, update_cell-here, update_cell-later,
}
use collectif.Notebook.Fold.Frame.{
  Spares, find_cell-apply_change, started_run-KeepsId, with_output-KeepsId, finished_run-KeepsId,
}

-- The fold of events that have been decoded, each with its time.
unfoldable pub apply_changes : List (Change × ℕ) → Notebook → Notebook
apply_changes [] nb = nb
apply_changes ((ch, at) ∷ es) nb = apply_changes es (apply_change ch at nb)

pub find_cell-update_cell_self :
    (id : String) (f : Cell → Cell) (cs : List Cell) (c : Cell)
    → KeepsId f
    → find_cell cs id ≡ some c
    → find_cell (update_cell id f cs) id ≡ some (f c)
find_cell-update_cell_self id f cs c keep h =
    find_cell-update_cell id id f cs keep ∙ rw ((eq_iff id id).1 refl, h)

update_cell-fixed :
    (id : String) (f : Cell → Cell) (cs : List Cell) (c : Cell)
    → find_cell cs id ≡ some c
    → f c ≡ c
    → update_cell id f cs ≡ cs
unfolding find_cell
update_cell-fixed id f [] c h e = absurd (cc)
update_cell-fixed id f (d ∷ cs) c h e = elim (Bool-cases (str_eq d.id id)) [
  | inl t ↦ update_cell-here id f d cs t ∙ ground arith
  | inr t ↦
      update_cell-later id f d cs t ∙ ap (◌∷◌ d) (update_cell-fixed id f cs c (ground arith) e)
]

-- An event of the cell that names a run, and not the one that the cell is on.
abbrev pub IsLate : String → String → Change → Type 0
IsLate id run (output p) = (p.cell_id ≡ id) × (p.run_id ≢ "") × (p.run_id ≢ run)
IsLate id run (finish p) = (p.cell_id ≡ id) × (p.run_id ≢ "") × (p.run_id ≢ run)
IsLate id run _ = ⊥

superseded-true :
    (run : String) (c : Cell) → run ≢ "" → c.run_id ≢ "" → run ≢ c.run_id → superseded run c ≡ true
unfolding superseded
superseded-true run c h k l = ground (arith, eq_iff run "", eq_iff c.run_id "", eq_iff run c.run_id)

pub superseded-same : (c : Cell) → superseded c.run_id c ≡ false
unfolding superseded
superseded-same c = ground (arith, eq_iff c.run_id c.run_id)

-- Output and the end of a run that another run has replaced change nothing in the document.
pub apply_change-late :
    (ch : Change) (at : ℕ) (nb : Notebook) (id : String) (c : Cell)
    → find_cell nb.cells id ≡ some c
    → c.run_id ≢ ""
    → IsLate id c.run_id ch
    → apply_change ch at nb ≡ nb
unfolding apply_change
apply_change-late (output p) at nb id c found named (here, some_run, other) =
    ap (λ cs. record nb { cells = cs })
      (update_cell-fixed p.cell_id (with_output p) nb.cells c (rw here found)
        (unfold with_output in rw (superseded-true p.run_id c some_run named other)))
apply_change-late (finish p) at nb id c found named (here, some_run, other) =
    ap (λ cs. record nb { cells = cs })
      (update_cell-fixed p.cell_id (finished_run p at) nb.cells c (rw here found)
        (unfold finished_run in rw (superseded-true p.run_id c some_run named other)))
apply_change-late _ at nb id c found named late = absurd late

-- What a log may hold between the start and the end of a run: its output, the events of other
-- cells, and the late output of earlier runs. The list of outputs is that of the run.
pub data Turn (id run : String) : List (Change × ℕ) → List Output → Type 0 where
  done : Turn id run [] []
  mine :
      {es : List (Change × ℕ)} {os : List Output} (o : Output) (at : ℕ)
      → Turn id run es os
      → Turn id run ((output (record { cell_id = id; run_id = run; output = o }), at) ∷ es) (o ∷ os)
  aside :
      {es : List (Change × ℕ)} {os : List Output} (ch : Change) (at : ℕ)
      → Spares ch id
      → Turn id run es os
      → Turn id run ((ch, at) ∷ es) os
  late :
      {es : List (Change × ℕ)} {os : List Output} (ch : Change) (at : ℕ)
      → IsLate id run ch
      → Turn id run es os
      → Turn id run ((ch, at) ∷ es) os

abbrev with_outputs : Cell → List Output → Cell
with_outputs c os = record c { outputs = c.outputs ++ os }

module _ (id run : String) (c : Cell) (own_id : c.id ≡ id) (own_run : c.run_id ≡ run) where
  find_cell-output :
      (o : Output) (at : ℕ) (nb : Notebook)
      → find_cell nb.cells id ≡ some c
      → find_cell
          (apply_change (output (record { cell_id = id; run_id = run; output = o })) at nb).cells
          id
        ≡ some (with_outputs c (o ∷ []))
  unfolding apply_change
  find_cell-output o at nb found =
      find_cell-update_cell_self id
        (with_output (record { cell_id = id; run_id = run; output = o })) nb.cells c
        (with_output-KeepsId _) found
      ∙ ap some (unfold with_output in rw (← own_run, superseded-same c))

pub Turn-outputs :
    (id run : String) {es : List (Change × ℕ)} {os : List Output}
    → Turn id run es os
    → (c : Cell) (nb : Notebook) → c.id ≡ id
    → c.run_id ≡ run
    → run ≢ ""
    → find_cell nb.cells id ≡ some c
    → find_cell (apply_changes es nb).cells id ≡ some (with_outputs c os)
unfolding apply_changes
Turn-outputs id run done c nb own_id own_run named found =
    found ∙ ap (λ os. some (record c { outputs = os })) (sym (append-nil c.outputs))
Turn-outputs id run (mine {os = os} o at t) c nb own_id own_run named found =
    Turn-outputs id run t (with_outputs c (o ∷ []))
      (apply_change (output (record { cell_id = id; run_id = run; output = o })) at nb) own_id
      own_run named (find_cell-output id run c own_id own_run o at nb found)
    ∙ ap (λ os. some (record c { outputs = os })) (append_assoc c.outputs (o ∷ []) os)
Turn-outputs id run (aside ch at spare t) c nb own_id own_run named found =
    Turn-outputs id run t c (apply_change ch at nb) own_id own_run named
      (find_cell-apply_change ch at nb id spare ∙ found)
Turn-outputs id run (late {es = es} ch at l t) c nb own_id own_run named found =
    ap (λ nb'. find_cell (apply_changes es nb').cells id)
      (apply_change-late ch at nb id c found (rw own_run named) (rw own_run l))
    ∙ Turn-outputs id run t c nb own_id own_run named found

apply_changes-append :
    (xs ys : List (Change × ℕ)) (nb : Notebook)
    → apply_changes (xs ++ ys) nb ≡ apply_changes ys (apply_changes xs nb)
unfolding apply_changes
apply_changes-append [] ys nb = refl
apply_changes-append ((ch, at) ∷ xs) ys nb = apply_changes-append xs ys (apply_change ch at nb)

-- The record of one run, from the cell as it was before it.
abbrev pub run_record : Cell → String → ℕ → List Output → CellState → Usage → ℕ → Cell
run_record c run began os status used ended = record c {
  outputs = os;
  run_id = run;
  state = status;
  started = began;
  duration = ended - began;
  usage = used;
}

run_duration-after :
    (c : Cell) (ended : ℕ)
    → 0 < c.started
    → c.started < ended
    → ended - c.started ≤ max_duration
    → run_duration ended c ≡ ended - c.started
unfolding run_duration
run_duration-after c ended pos later fits = ground arith

finished_run-started :
    (c : Cell) (id run : String) (began ended : ℕ) (os : List Output) (status : CellState)
    (used : Usage)
    → 0 < began
    → began < ended
    → ended - began ≤ max_duration
    → is_blank status ≡ false
    → finished_run
        (record { cell_id = id; run_id = run; status = status; usage = used })
        ended
        (with_outputs (started_run run began c) os)
      ≡ run_record c run began os status used ended
unfolding finished_run started_run
finished_run-started c id run began ended os status used pos later fits set =
    rw (superseded-same (started_run run began c), set)
      (ap
        (λ d. record c {
          outputs = os;
          run_id = run;
          state = status;
          started = began;
          duration = d;
          usage = used;
        })
        (run_duration-after (with_outputs (started_run run began c) os) ended pos later fits))

-- A cell whose run starts, prints `os`, and ends, holds that run and nothing else: its outputs are
-- exactly `os` in order, whatever it held before, and whatever events of other cells and late
-- events of earlier runs the log has in between. Its state and usage are those of the last event,
-- and its duration is the time between the two.
pub run-recorded :
    (id run : String) (c : Cell) (nb : Notebook) (began ended : ℕ) {es : List (Change × ℕ)}
    {os : List Output} (status : CellState) (used : Usage)
    → find_cell nb.cells id ≡ some c
    → c.id ≡ id
    → run ≢ ""
    → Turn id run es os
    → 0 < began
    → began < ended
    → ended - began ≤ max_duration
    → is_blank status ≡ false
    → find_cell
        (apply_changes
          ((start (record { cell_id = id; run_id = run }), began) ∷ es
            ++ (
              finish (record { cell_id = id; run_id = run; status = status; usage = used }),
              ended,
            )
              ∷ [])
          nb).cells
        id
      ≡ some (run_record c run began os status used ended)
unfolding apply_changes apply_change started_run
run-recorded id run c nb began ended {es} {os} status used found own named turn pos later fits set =
    ap (λ nb'. find_cell nb'.cells id) (apply_changes-append es (last ∷ []) opened)
    ∙ find_cell-update_cell_self id (finished_run closing ended) (apply_changes es opened).cells
        (with_outputs begun os) (finished_run-KeepsId closing ended)
        (Turn-outputs id run turn begun opened own refl named (
          find_cell-update_cell_self id (started_run run began) nb.cells c
            (started_run-KeepsId run began) found))
    ∙ ap some (finished_run-started c id run began ended os status used pos later fits set)
  where
    closing : RunFinishedPayload
    closing = record { cell_id = id; run_id = run; status = status; usage = used }

    last : Change × ℕ
    last = (finish closing, ended)

    opened : Notebook
    opened = apply_change (start (record { cell_id = id; run_id = run })) began nb

    begun : Cell
    begun = started_run run began c
