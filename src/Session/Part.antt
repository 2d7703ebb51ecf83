-- ===== src/Session/Part.antt =====
-- What one transcript line says (src/projection.go: PartKind, TranscriptPart).
use collectif.Common.{ℕ, String, Bool, Option}

-- The constants of PartKind, and any other value of that string type.
pub data PartKind : Type 0 where
  user_text assistant_text thinking tool_call tool_result : PartKind
  compact_summary interrupted injection : PartKind
  other : String → PartKind

-- The time `At` is left out: nothing that is modelled reads it. `tool_input` is `none` where the
-- source has no bytes, and else the JSON text.
pub record TranscriptPart : Type 0 where
  pub kind : PartKind
  pub text : String
  pub tool_name : String
  pub tool_input : Option String
  pub tool_use_id : String
  pub mcp_server : String
  pub mcp_tool : String
  pub is_error : Bool
  pub sidechain : Bool
  pub model : String
  pub uuid : String
  pub parent_uuid : String
  pub label : String
  pub size : ℕ
  pub agent_id : String
  pub agent_type : String
