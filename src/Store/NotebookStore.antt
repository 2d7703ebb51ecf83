-- ===== src/Store/NotebookStore.antt =====
-- One notebook's store (src/nb_store.go: notebookStore, Append, load, snapshotMatchesLog,
-- openNotebookStore, writeSnapshotLocked, Close). A write's outcome is an argument: whole, or cut
-- short after some bytes. The snapshot is what readSnapshot finds: none if missing or corrupt.
pub mod Identity
pub mod Loading
pub mod Durable
pub mod Appending
pub mod Reopening
use collectif.Common.{
  ℕ, suc, ◌+◌, ◌-◌, ◌==◌, String, Bool, true, false, not, Option, none, some, List, [], ◌∷◌, ◌++◌,
  leb, str_eq, if◌then◌else◌, Result, ok, err, length, take, drop, get_elem?,
}
use collectif.Notebook.Cells.{Notebook}
use collectif.Notebook.Events.{Event, Codec, FoldError, CreatedPayload}
use collectif.Notebook.Fold.{empty_notebook, apply_event, fold_from, fold_events}
use collectif.Store.Log.{Bytes, newline, LineCodec, ScanError, read_log}

-- notebookSnapshot
pub record Snapshot : Type 0 where
  pub version : ℕ
  pub notebook : Notebook
  pub last_event_id : String

-- notebookStore, with the two files that it owns.
pub record NotebookStore : Type 0 where
  pub slug : String
  pub notebook : Notebook
  pub log : Bytes
  pub snapshot : Option Snapshot
  pub since_snapshot : ℕ
  pub last_event_id : String
  pub closed : Bool

-- nbSnapshotEvery
abbrev pub snapshot_every : ℕ
snapshot_every = 200

-- `st.log.Write`, and the write and rename of a snapshot.
pub data LogWrite : Type 0 where
  whole : LogWrite
  cut_short : ℕ → LogWrite

pub data AppendError : Type 0 where
  is_closed write_failed : AppendError
  rejected : FoldError → AppendError

pub data OpenError : Type 0 where
  scan : ScanError → OpenError
  fold : FoldError → OpenError

-- writeSnapshotLocked: a failure leaves the old snapshot and the count.
unfoldable pub write_snapshot : Bool → NotebookStore → NotebookStore
write_snapshot false s = s
write_snapshot true s = record s {
  snapshot = some (record {
    version = s.notebook.version;
    notebook = s.notebook;
    last_event_id = s.last_event_id;
  });
  since_snapshot = 0;
}

unfoldable pub close_store : Bool → NotebookStore → NotebookStore
unfolding write_snapshot
close_store written s = if s.closed then s else write_snapshot written (record s { closed = true })

abbrev pub with_id : String → Notebook → Notebook
with_id id nb = record nb { id = id }

abbrev or_else : Result FoldError Notebook → Result FoldError Notebook → Result FoldError Notebook
or_else (ok nb) r = ok nb
or_else (err x) r = r

module _ {R : Type 0} where
  abbrev has_id : Option (Event R) → String → Bool
  has_id none id = false
  has_id (some e) id = str_eq e.id id

  unfoldable pub snapshot_matches_log : Snapshot → List (Event R) → Bool
  snapshot_matches_log sn es =
      if not (leb sn.version (length es))
      then false
      else if sn.version == 0
      then true
      else if str_eq sn.last_event_id ""
      then false
      else has_id (get_elem? es (sn.version - 1)) sn.last_event_id

  -- The id of the last event of a log.
  unfoldable pub last_id : List (Event R) → String
  last_id [] = ""
  last_id (e ∷ []) = e.id
  last_id (e ∷ d ∷ es) = last_id (d ∷ es)

  abbrev opened_with :
      String
      → Bytes
      → Option Snapshot
      → List (Event R)
      → Result FoldError Notebook
      → Result OpenError NotebookStore
  opened_with slug file sn es (err x) = err (fold x)
  opened_with slug file sn es (ok nb) = ok (record {
    slug = slug;
    notebook = with_id slug nb;
    log = file;
    snapshot = sn;
    since_snapshot = 0;
    last_event_id = last_id es;
    closed = false;
  })

abbrev pub line_of : {R : Type 0} → LineCodec R → Event R → Bytes
line_of lines e = lines.marshal e ++ newline ∷ []

module _ {R : Type 0} (payloads : Codec R) where
  abbrev from_snapshot : Bool → Snapshot → List (Event R) → Result FoldError Notebook
  from_snapshot true sn es =
      or_else (fold_from payloads sn.notebook (drop sn.version es)) (fold_events payloads es)
  from_snapshot false sn es = fold_events payloads es

  -- The document that `load` returns for the events read.
  unfoldable pub load_events : Option Snapshot → List (Event R) → Result FoldError Notebook
  load_events none es = fold_events payloads es
  load_events (some sn) es = from_snapshot (snapshot_matches_log sn es) sn es

module _ {R : Type 0} (payloads : Codec R) (lines : LineCodec R) where
  -- The document and the id of the event are published together, behind the log's line.
  unfoldable pub publish : NotebookStore → Event R → Notebook → Bool → NotebookStore
  unfolding write_snapshot
  publish s e next written =
      let s' : NotebookStore = record s {
        log = s.log ++ line_of lines e;
        notebook = next;
        last_event_id = e.id;
        since_snapshot = s.since_snapshot + 1;
      } in
      if leb snapshot_every (s.since_snapshot + 1) then write_snapshot written s' else s'

  abbrev write_line :
      LogWrite → NotebookStore → Event R → Notebook → Bool → NotebookStore × Option AppendError
  write_line (cut_short n) s e next written =
      (record s { log = s.log ++ take n (line_of lines e) }, some write_failed)
  write_line whole s e next written = (publish s e next written, none)

  abbrev commit :
      Notebook × Option FoldError
      → LogWrite
      → NotebookStore
      → Event R
      → Bool
      → NotebookStore × Option AppendError
  commit (next, some x) w s e written = (s, some (rejected x))
  commit (next, none) w s e written = write_line w s e next written

  -- `Append`, of the event that it builds.
  unfoldable pub append :
      NotebookStore → Event R → LogWrite → Bool → NotebookStore × Option AppendError
  append s e w written =
      if s.closed
      then (s, some is_closed)
      else commit (apply_event payloads s.notebook e) w s e written

  abbrev open_read :
      String
      → Bytes
      → Option Snapshot
      → Result ScanError (List (Event R))
      → Result OpenError NotebookStore
  open_read slug file sn (err x) = err (scan x)
  open_read slug file sn (ok es) = opened_with slug file sn es (load_events payloads sn es)

  -- `openNotebookStore` where the log file exists.
  unfoldable pub open_existing : String → Bytes → Option Snapshot → Result OpenError NotebookStore
  open_existing slug file sn = open_read slug file sn (read_log lines file)
