-- ===== src/Session/Samples.antt =====
-- A small session (src/nb_session.go): tests, and the projector's theorems at it.
use collectif.Common.{
  ℕ, zero, ◌≡◌, refl, String, Bool, true, false, none, List, [], ◌∷◌, inr, length,
}
use collectif.Text.{text_eq, trim_space}
use collectif.Notebook.Cells.{CellState, Notebook}
use collectif.Notebook.Events.{Change}
use collectif.Notebook.Fold.{
  empty_notebook, apply_change, bump, insertion_point, normalised, index_of_cell, update_cell,
}
use collectif.Session.Part.{PartKind, TranscriptPart}
use collectif.Session.Projector.{
  Host, Projector, has, finished, emit, settle_current, open_cell, append_output, adopt,
}
use collectif.Session.Ingest.{
  apply_kind, apply, link_subagent, is_skipped, ingest_part, ingest_parts, release_held, ingest,
}
use collectif.Session.Lifecycle.{
  document_ids, open_turn, new_projector, Call, ingests, ingests_subagent, closes, performs,
}
use collectif.Session.Again.{IsReliable, ingest-ingest}
use collectif.Session.Line.{ingest-line}
use collectif.Session.Held.{IsBounded, performs-IsBounded}
use collectif.Session.Adoption.{IsAdopted, ingest-IsAdopted}
use collectif.Session.Restart.{IsStore, new_projector-interrupted}

-- A document in memory, and ids that are never drawn twice in these tests.
abbrev kept : Notebook → Change → Notebook × Bool
kept nb ch = (bump (apply_change ch 9 nb), true)

abbrev nth_id : ℕ → String
nth_id zero = "c0"
nth_id _ = "c1"

abbrev host : Host Notebook
host = record { doc = λ nb. nb; append = kept; fresh_id = nth_id; is_json = λ _. true }

host-IsReliable : IsReliable host
host-IsReliable s ch = refl

host-IsStore : IsStore host
host-IsStore = record { appended = λ s ch. inr (9, refl) }

abbrev part : PartKind → String → String → TranscriptPart
part kind text uuid = record {
  kind = kind;
  text = text;
  tool_name = "";
  tool_input = none;
  tool_use_id = "";
  mcp_server = "";
  mcp_tool = "";
  is_error = false;
  sidechain = false;
  model = "";
  uuid = uuid;
  parent_uuid = "";
  label = "";
  size = 0;
  agent_id = "";
  agent_type = "";
}

abbrev asked : TranscriptPart
asked = part PartKind.user_text "hello" "l1"

abbrev answered : TranscriptPart
answered = part PartKind.assistant_text "hi" "l2"

abbrev called : TranscriptPart
called = part PartKind.tool_call "" "l2"

abbrev stopped : TranscriptPart
stopped = part PartKind.interrupted "" "l3"

abbrev start : Projector Notebook
start = record {
  store = empty_notebook;
  seen = [];
  current = "";
  current_parent = "";
  pending_parent = "";
  adopt_cell = "";
  adopt_text = "";
  adopt_gen = 0;
  links = [];
  held = [];
  closed = false;
  ids_drawn = 0;
}

-- A prompt and its answer are one cell, which is running, with one output.
one_turn : length (ingest host start (asked ∷ answered ∷ [])).store.cells ≡ 1
unfolding ingest ingest_parts ingest_part is_skipped has link_subagent apply apply_kind
    settle_current adopt open_cell append_output emit release_held apply_change insertion_point
    normalised update_cell index_of_cell
one_turn = refl

ingest-ingest_example :
    ingest host (ingest host start (asked ∷ answered ∷ [])) (asked ∷ answered ∷ [])
    ≡ ingest host start (asked ∷ answered ∷ [])
ingest-ingest_example = ingest-ingest host host-IsReliable start (asked ∷ answered ∷ [])

ingest-line_example : ingest host start (answered ∷ called ∷ []) ≡ ingest host start (answered ∷ [])
ingest-line_example =
    ingest-line host host-IsReliable start answered (called ∷ []) (unfold is_skipped has in refl)
      refl (refl, tt)

abbrev calls : List Call
calls = ingests (asked ∷ []) ∷ ingests_subagent "a" (answered ∷ []) ∷ closes ∷ []

performs-IsBounded_example : IsBounded (performs host start calls)
performs-IsBounded_example = performs-IsBounded host start calls tt

abbrev awaiting : Projector Notebook
awaiting = record start { adopt_cell = "mine"; adopt_text = " hello "; adopt_gen = 1 }

ingest-IsAdopted_example : IsAdopted host awaiting (ingest host awaiting (asked ∷ [])) asked
ingest-IsAdopted_example =
    ingest-IsAdopted host host-IsReliable awaiting asked refl (unfold is_skipped has in refl) refl
      refl (unfold text_eq trim_space in refl)

-- An interruption, and then another prompt, whose turn is in flight.
abbrev asked_again : TranscriptPart
asked_again = part PartKind.user_text "go on" "l4"

new_projector-interrupted_example :
    (ingest host (ingest host start (stopped ∷ asked_again ∷ [])) (stopped ∷ [])
      ≡ ingest host start (stopped ∷ asked_again ∷ []))
    × ((ingest host
          (new_projector host (ingest host start (stopped ∷ asked_again ∷ [])).store 3)
          (stopped ∷ [])).store
        ≡ (kept
            (ingest host start (stopped ∷ asked_again ∷ [])).store
            (finished "c0" CellState.interrupted)).0)
    × ((ingest host
          (new_projector host (ingest host start (stopped ∷ asked_again ∷ [])).store 3)
          (stopped ∷ [])).current
        ≡ "")
    × (is_skipped host (new_projector host (ingest host start (stopped ∷ [])).store 3) stopped
        ≡ false)
unfolding is_skipped has ingest ingest_parts ingest_part link_subagent apply apply_kind
    settle_current adopt open_cell append_output emit release_held apply_change insertion_point
    normalised update_cell index_of_cell document_ids open_turn
new_projector-interrupted_example =
    new_projector-interrupted host host-IsStore start stopped (asked_again ∷ []) 3 "c0" "" refl refl
      refl refl refl refl refl
