-- ===== src/Session/Ingest.antt =====
-- Folding parts, and the projector's other entry points (src/nb_session.go: apply, Ingest,
-- IngestSubagent, reseedFromDocument, AwaitAdoptionFor, giveUpOnAdoption, CancelAdoption, Close).
use collectif.Common.{
  ◌-◌, String, Bool, true, false, ◌&&◌, ◌||◌, not, Option, none, some, List, [], ◌∷◌, ◌++◌, str_eq,
  if◌then◌else◌, length, drop,
}
use collectif.Text.{Text, codes, trim_space}
use collectif.Notebook.Cells.{
  markdown, prompt, CellState, running, success, interrupted, Output, OutputType, text, thinking,
  tool_call, tool_result, injection, Value, str, int,
}
use collectif.Session.Part.{
  PartKind, TranscriptPart, user_text, assistant_text, compact_summary, other,
}
use collectif.Session.Projector.{
  Host, SubagentLink, Projector, is_empty, has, lookup, without, parts_of, mirrored, compact,
  max_held, landed, mcp_attrs, error_attr, input_attr, emit, settle_current, open_cell,
  append_output, adopt,
}

abbrev pub source_attr : TranscriptPart → String × Value
source_attr part = ("sourceUuid", str part.uuid)

abbrev pub plain : OutputType → TranscriptPart → Output
plain kind part = record { kind = kind; text = part.text; attrs = source_attr part ∷ [] }

abbrev pub injected : TranscriptPart → Output
injected part = record {
  kind = injection;
  text = part.text;
  attrs = source_attr part ∷ ("label", str part.label) ∷ ("size", int part.size) ∷ [];
}

abbrev pub result_of : TranscriptPart → Output
result_of part = record {
  kind = tool_result;
  text = part.text;
  attrs =
      source_attr part
      ∷ ("toolUseId", str part.tool_use_id)
      ∷ ((if is_empty part.agent_id then [] else ("spawnedAgentId", str part.agent_id) ∷ [])
          ++ error_attr part);
}

abbrev pub is_result : PartKind → Bool
is_result PartKind.tool_result = true
is_result _ = false

abbrev pub text_blank : String → Bool
text_blank s = blank (trim_space (codes s))
  where
    blank : Text → Bool
    blank [] = true
    blank (c ∷ cs) = false

-- What is kept of a child's work that nothing has claimed: the latest of it.
abbrev pub latest : List TranscriptPart → List TranscriptPart
latest ps = drop (length ps - max_held) ps

module _ {S : Type 0} (host : Host S) where
  abbrev pub call_of : TranscriptPart → Output
  call_of part = record {
    kind = tool_call;
    text = "";
    attrs =
        source_attr part
        ∷ ("name", str part.tool_name)
        ∷ ("toolUseId", str part.tool_use_id)
        ∷ (mcp_attrs part ++ input_attr host part.tool_input);
  }

  -- How a new prompt ends the turn before it.
  abbrev pub ended_by : Projector S → TranscriptPart → CellState
  ended_by p part =
      if not (is_empty part.parent_uuid) && str_eq part.parent_uuid p.current_parent
      then interrupted
      else success

  abbrev pub opened_prompt : TranscriptPart → Projector S × Bool → Projector S × Bool
  opened_prompt part (p, done) =
      (record p { pending_parent = ""; current_parent = part.parent_uuid }, done)

  abbrev pub or_open : TranscriptPart → Projector S × Bool → Projector S × Bool
  or_open part (p, true) = (p, true)
  or_open part (p, false) = opened_prompt part (
      open_cell host (record p { pending_parent = part.parent_uuid }) prompt part.text mirrored
        part.uuid part.model running)

  abbrev pub no_current : Projector S × Bool → Projector S × Bool
  no_current (p, done) = (record p { current = "" }, done)

  -- The cases of `apply`.
  unfoldable pub apply_kind : PartKind → Projector S → TranscriptPart → Projector S × Bool
  apply_kind user_text p part =
      or_open part (adopt host (settle_current host (ended_by p part) p) part)
  apply_kind compact_summary p part = no_current (
      open_cell host (settle_current host success p) markdown part.text compact part.uuid ""
        success)
  apply_kind PartKind.interrupted p part = (settle_current host interrupted p, true)
  apply_kind PartKind.injection p part = append_output host p part (injected part)
  apply_kind assistant_text p part = append_output host p part (plain text part)
  apply_kind PartKind.thinking p part = append_output host p part (plain thinking part)
  apply_kind PartKind.tool_call p part = append_output host p part (call_of part)
  apply_kind PartKind.tool_result p part = append_output host p part (result_of part)
  apply_kind (other _) p part = (p, false)

  unfoldable pub apply : Projector S → TranscriptPart → Projector S × Bool
  unfolding apply_kind
  apply p part = apply_kind part.kind p part

  abbrev pub linked : Option SubagentLink → Projector S → TranscriptPart → Projector S × List String
  linked (some l) p part = (p, [])
  linked none p part = (
    record p {
      links =
          (part.agent_id, record { cell_id = p.current; agent_type = part.agent_type }) ∷ p.links;
    },
    part.agent_id ∷ [],
  )

  -- linkSubagentLocked, where Ingest calls it, and the child to release.
  unfoldable pub link_subagent : Projector S → TranscriptPart → Projector S × List String
  link_subagent p part =
      if is_result part.kind && (not (is_empty part.agent_id) && not (is_empty p.current))
      then linked (lookup p.links part.agent_id) p part
      else (p, [])

  abbrev pub recorded : TranscriptPart → Projector S × Bool → Projector S
  recorded part (p, true) = record p { seen = part.uuid ∷ p.seen }
  recorded part (p, false) = p

  unfoldable pub is_skipped : Projector S → TranscriptPart → Bool
  is_skipped p part = part.sidechain || (is_empty part.uuid || has p.seen part.uuid)

  abbrev pub folded : Projector S × List String → TranscriptPart → Projector S × List String
  folded (p, release) part = (recorded part (apply p part), release)

  -- One round of the loop in `Ingest`, with the children to release.
  unfoldable pub ingest_part : Projector S → TranscriptPart → Projector S × List String
  unfolding link_subagent is_skipped
  ingest_part p part = if is_skipped p part then (p, []) else folded (link_subagent p part) part

  unfoldable pub ingest_parts : Projector S → List TranscriptPart → Projector S × List String
  ingest_parts p [] = (p, [])
  ingest_parts p (part ∷ parts) =
      let (p', release) = ingest_part p part in
      let (p'', more) = ingest_parts p' parts in (p'', release ++ more)

  abbrev pub tagged : SubagentLink → String → TranscriptPart → List (String × Value)
  tagged link agent part =
      source_attr part
      ∷ ("agentId", str agent)
      ∷ (if is_empty link.agent_type then [] else ("agentType", str link.agent_type) ∷ [])

  abbrev pub child_output : OutputType → String → List (String × Value) → Output
  child_output kind words attrs = record { kind = kind; text = words; attrs = attrs }

  abbrev pub child_words : SubagentLink → String → TranscriptPart → Option Output
  child_words link agent part =
      if text_blank part.text
      then none
      else some (child_output text part.text (tagged link agent part))

  unfoldable pub subagent_output : PartKind → SubagentLink → String → TranscriptPart → Option Output
  subagent_output assistant_text link agent part = child_words link agent part
  subagent_output user_text link agent part = child_words link agent part
  subagent_output PartKind.thinking link agent part =
      some (child_output thinking part.text (tagged link agent part))
  subagent_output PartKind.tool_call link agent part = some (
      child_output tool_call "" (
        tagged link agent part
        ++ (("name", str part.tool_name) ∷ ("toolUseId", str part.tool_use_id) ∷ [])
        ++ mcp_attrs part
        ++ input_attr host part.tool_input))
  subagent_output PartKind.tool_result link agent part = some (
      child_output tool_result part.text
        (tagged link agent part ++ (("toolUseId", str part.tool_use_id) ∷ []) ++ error_attr part))
  subagent_output _ link agent part = none

  abbrev pub child_landed :
      SubagentLink → Option Output → Projector S → TranscriptPart → Projector S
  child_landed link none p part = p
  child_landed link (some out) p part = recorded part (emit host p (landed link.cell_id out))

  unfoldable pub ingest_child : SubagentLink → String → Projector S → TranscriptPart → Projector S
  unfolding subagent_output
  ingest_child link agent p part =
      if is_empty part.uuid || has p.seen part.uuid
      then p
      else child_landed link (subagent_output part.kind link agent part) p part

  unfoldable pub ingest_children :
      SubagentLink → String → Projector S → List TranscriptPart → Projector S
  ingest_children link agent p [] = p
  ingest_children link agent p (part ∷ parts) =
      ingest_children link agent (ingest_child link agent p part) parts

  abbrev pub held_or_landed :
      Option SubagentLink → String → Projector S → List TranscriptPart → Projector S
  held_or_landed (some link) agent p parts = ingest_children link agent p parts
  held_or_landed none agent p parts = record p {
    held = (agent, latest (parts_of (lookup p.held agent) ++ parts)) ∷ without p.held agent;
  }

  unfoldable pub ingest_subagent : String → Projector S → List TranscriptPart → Projector S
  ingest_subagent agent p parts =
      if p.closed || is_empty agent then p else held_or_landed (lookup p.links agent) agent p parts

  abbrev pub released : List TranscriptPart → String → Projector S → Projector S
  released [] agent p = p
  released (part ∷ parts) agent p = ingest_subagent agent p (part ∷ parts)

  unfoldable pub release_held : Projector S → List String → Projector S
  unfolding ingest_subagent
  release_held p [] = p
  release_held p (agent ∷ agents) =
      release_held
        (released (parts_of (lookup p.held agent)) agent (record p { held = without p.held agent }))
        agents

  unfoldable pub ingest : Projector S → List TranscriptPart → Projector S
  unfolding ingest_parts release_held
  ingest p parts =
      if p.closed then p else let (p', release) = ingest_parts p parts in release_held p' release
