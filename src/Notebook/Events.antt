-- ===== src/Notebook/Events.antt =====
-- The log's events (src/nb_doc.go): the envelope, the payloads, and reading a payload.
-- `encoding/json` is a parameter: the record `Codec` has `json.Unmarshal` at each payload type.
use collectif.Common.{
  ℕ, String, Bool, Option, none, some, List, str_eq, if◌then◌else◌, Result, ok, err, ◌>>=◌,
}
use collectif.Notebook.Cells.{CellType, CellState, CellMeta, Cell, Output, Usage, NotebookMeta}

pub record CreatedPayload : Type 0 where
  pub title : String
  pub root : String

pub record MetaSetPayload : Type 0 where
  pub title : Option String
  pub meta : Option NotebookMeta

pub record InsertedPayload : Type 0 where
  pub cell : Cell
  pub after_cell_id : String
  pub before_cell_id : String

pub record EditedPayload : Type 0 where
  pub cell_id : String
  pub source : Option String
  pub meta : Option CellMeta
  pub kind : Option CellType

pub record MovedPayload : Type 0 where
  pub cell_id : String
  pub before_cell_id : String

pub record RunStartedPayload : Type 0 where
  pub cell_id : String
  pub run_id : String

pub record OutputAppendedPayload : Type 0 where
  pub cell_id : String
  pub run_id : String
  pub output : Output

pub record RunFinishedPayload : Type 0 where
  pub cell_id : String
  pub run_id : String
  pub status : CellState
  pub usage : Usage

-- The event types, and any other name that a log may hold.
pub data EventType : Type 0 where
  notebook_created meta_set cell_inserted cell_edited cell_moved cell_deleted : EventType
  run_started output_appended run_finished cells_invalidated : EventType
  unknown : String → EventType

-- The constants of the source, as the `switch` compares them.
unfoldable pub event_type : String → EventType
event_type s =
    if str_eq s "notebook_created"
    then notebook_created
    else if str_eq s "meta_set"
    then meta_set
    else if str_eq s "cell_inserted"
    then cell_inserted
    else if str_eq s "cell_edited"
    then cell_edited
    else if str_eq s "cell_moved"
    then cell_moved
    else if str_eq s "cell_deleted"
    then cell_deleted
    else if str_eq s "run_started"
    then run_started
    else if str_eq s "output_appended"
    then output_appended
    else if str_eq s "run_finished"
    then run_finished
    else if str_eq s "cells_invalidated"
    then cells_invalidated
    else unknown s

-- `R` is the type of raw JSON.
pub record Event (R : Type 0) : Type 0 where
  pub v : ℕ
  pub kind : String
  pub id : String
  pub at : ℕ
  pub payload : R

-- `len(payload) == 0`, and `json.Unmarshal` into each payload type.
pub record Codec (R : Type 0) : Type 0 where
  pub is_empty : R → Bool
  pub created : R → Option CreatedPayload
  pub meta_set : R → Option MetaSetPayload
  pub inserted : R → Option InsertedPayload
  pub edited : R → Option EditedPayload
  pub moved : R → Option MovedPayload
  pub deleted : R → Option String
  pub run_started : R → Option RunStartedPayload
  pub output_appended : R → Option OutputAppendedPayload
  pub run_finished : R → Option RunFinishedPayload
  pub invalidated : R → Option (List String)

-- The two errors of `decodePayload`, with the event's id and type.
pub data FoldError : Type 0 where
  empty_payload bad_payload : String → String → FoldError

-- What an event asks for, once its payload is decoded.
pub data Change : Type 0 where
  create : CreatedPayload → Change
  set_meta : MetaSetPayload → Change
  insert : InsertedPayload → Change
  edit : EditedPayload → Change
  move : MovedPayload → Change
  delete : String → Change
  start : RunStartedPayload → Change
  output : OutputAppendedPayload → Change
  finish : RunFinishedPayload → Change
  invalidate : List String → Change
  skip : Change

module _ {R : Type 0} (codec : Codec R) where
  abbrev unmarshalled : {P : Type 0} → Event R → Option P → Result FoldError P
  unmarshalled e none = err (bad_payload e.id e.kind)
  unmarshalled e (some p) = ok p

  unfoldable pub decode_payload : {P : Type 0} → Event R → (R → Option P) → Result FoldError P
  decode_payload e read =
      if codec.is_empty e.payload
      then err (empty_payload e.id e.kind)
      else unmarshalled e (read e.payload)

  -- The payload that each case of the `switch` decodes.
  unfoldable pub decode_as : EventType → Event R → Result FoldError Change
  unfolding decode_payload
  decode_as notebook_created e = do p ← decode_payload e codec.created; ok (create p)
  decode_as meta_set e = do p ← decode_payload e codec.meta_set; ok (set_meta p)
  decode_as cell_inserted e = do p ← decode_payload e codec.inserted; ok (insert p)
  decode_as cell_edited e = do p ← decode_payload e codec.edited; ok (edit p)
  decode_as cell_moved e = do p ← decode_payload e codec.moved; ok (move p)
  decode_as cell_deleted e = do p ← decode_payload e codec.deleted; ok (delete p)
  decode_as run_started e = do p ← decode_payload e codec.run_started; ok (start p)
  decode_as output_appended e = do p ← decode_payload e codec.output_appended; ok (output p)
  decode_as run_finished e = do p ← decode_payload e codec.run_finished; ok (finish p)
  decode_as cells_invalidated e = do p ← decode_payload e codec.invalidated; ok (invalidate p)
  decode_as (unknown _) e = ok skip

  unfoldable pub decode_event : Event R → Result FoldError Change
  unfolding event_type decode_as
  decode_event e = decode_as (event_type e.kind) e
