-- ===== src/Session/Lifecycle.antt =====
-- A projector from its start to its end (src/nb_session.go: newSessionProjector, reseedFromDocument,
-- AwaitAdoptionFor, giveUpOnAdoption, CancelAdoption, Close).
use collectif.Common.{
  ℕ, ◌==◌, String, Bool, true, false, ◌&&◌, ◌||◌, not, Option, some, List, [], ◌∷◌, ◌++◌, str_eq,
  if◌then◌else◌,
}
use collectif.Notebook.Cells.{
  CellState, running, success, error, Cell, Output, OutputType, Value, str,
}
use collectif.Session.Part.{TranscriptPart}
use collectif.Session.Projector.{
  Host, Projector, is_empty, lookup, mirrored, next_gen, finished, landed, lost_text, emit,
  settle_current,
}
use collectif.Session.Ingest.{ingest, ingest_subagent}

abbrev pub is_running : CellState → Bool
is_running running = true
is_running _ = false

abbrev pub as_id : Option Value → List String
as_id (some (str id)) = if is_empty id then [] else id ∷ []
as_id _ = []

abbrev pub cell_source : Cell → List String
cell_source c = if is_empty c.meta.source_uuid then [] else c.meta.source_uuid ∷ []

unfoldable pub output_ids : List Output → List String
output_ids [] = []
output_ids (o ∷ os) = as_id (lookup o.attrs "sourceUuid") ++ output_ids os

-- The ids that reseedFromDocument reads off the document.
unfoldable pub document_ids : List Cell → List String
unfolding output_ids
document_ids [] = []
document_ids (c ∷ cs) = cell_source c ++ (output_ids c.outputs ++ document_ids cs)

unfoldable pub is_open : Cell → Bool
is_open c = str_eq c.meta.provenance mirrored && is_running c.state

-- The last cell that is open, or what was found before.
unfoldable pub open_turn : List Cell → String × String → String × String
unfolding is_open
open_turn [] found = found
open_turn (c ∷ cs) found = open_turn cs (if is_open c then (c.id, c.meta.parent_uuid) else found)

module _ {S : Type 0} (host : Host S) where
  -- newSessionProjector, on ids of which some are drawn already.
  unfoldable pub new_projector : S → ℕ → Projector S
  unfolding document_ids open_turn
  new_projector s drawn =
      let cells = (host.doc s).cells in
      let (current, parent) = open_turn cells ("", "") in
      record {
        store = s;
        seen = document_ids cells;
        current = current;
        current_parent = parent;
        pending_parent = "";
        adopt_cell = "";
        adopt_text = "";
        adopt_gen = 0;
        links = [];
        held = [];
        closed = false;
        ids_drawn = drawn;
      }

  unfoldable pub close : Projector S → Projector S
  close p = if p.closed then p else settle_current host success (record p { closed = true })

  abbrev lost_output : Output
  lost_output = record { kind = OutputType.error; text = lost_text; attrs = [] }

  -- The timer of AwaitAdoptionFor, with the generation that it was set at.
  unfoldable pub give_up : String → ℕ → Projector S → Projector S
  give_up cell gen p =
      if p.closed || (not (p.adopt_gen == gen) || not (str_eq p.adopt_cell cell))
      then p
      else (emit host
          (emit host (record p { adopt_cell = ""; adopt_text = "" }) (landed cell lost_output)).0
          (finished cell error)).0

-- Its generation is that of the projector that it gives.
unfoldable pub await_adoption : {S : Type 0} → String → String → Projector S → Projector S
await_adoption cell source p = record p {
  adopt_cell = cell;
  adopt_text = source;
  adopt_gen = next_gen p.adopt_gen;
}

unfoldable pub cancel_adoption : {S : Type 0} → String → Projector S → Projector S
cancel_adoption cell p =
    if str_eq p.adopt_cell cell
    then record p { adopt_cell = ""; adopt_text = ""; adopt_gen = next_gen p.adopt_gen }
    else p

-- A call from outside, or a timer that fires.
pub data Call : Type 0 where
  ingests : List TranscriptPart → Call
  ingests_subagent : String → List TranscriptPart → Call
  awaits : String → String → Call
  gives_up : String → ℕ → Call
  cancels : String → Call
  closes : Call

module _ {S : Type 0} (host : Host S) where
  unfoldable pub perform : Projector S → Call → Projector S
  unfolding ingest ingest_subagent await_adoption give_up cancel_adoption close
  perform p (ingests parts) = ingest host p parts
  perform p (ingests_subagent agent parts) = ingest_subagent host agent p parts
  perform p (awaits cell source) = await_adoption cell source p
  perform p (gives_up cell gen) = give_up host cell gen p
  perform p (cancels cell) = cancel_adoption cell p
  perform p closes = close host p

  unfoldable pub performs : Projector S → List Call → Projector S
  unfolding perform
  performs p [] = p
  performs p (c ∷ cs) = performs (perform p c) cs
