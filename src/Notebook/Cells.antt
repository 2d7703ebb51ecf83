-- ===== src/Notebook/Cells.antt =====
-- The document's types (src/nb_doc.go, src/provider.go).
use collectif.Common.{ℕ, String, Bool, Option, List}

-- Strings of a fixed vocabulary are data types: a constructor for each constant, `blank` for the
-- empty string, `other` for any other text. 64-bit numbers are carried as bit patterns, and an
-- instant as its nanoseconds since the zero time.

pub data CellType : Type 0 where
  markdown prompt shell file blank : CellType
  other : String → CellType

pub data CellState : Type 0 where
  idle queued running success error interrupted stale blank : CellState
  other : String → CellState

pub data OutputType : Type 0 where
  text thinking tool_call tool_result diff image error subagent approval injection : OutputType
  other : String → OutputType

-- A value of an output's `map[string]any`; what was decoded from JSON is kept as its text.
pub data Value : Type 0 where
  str : String → Value
  flag : Bool → Value
  int : ℕ → Value
  json : String → Value

pub record Output : Type 0 where
  pub kind : OutputType
  pub text : String
  pub attrs : List (String × Value)

pub record Usage : Type 0 where
  pub input_tokens : ℕ
  pub output_tokens : ℕ
  pub cache_read_tokens : ℕ
  pub cache_creation_tokens : ℕ

abbrev pub no_usage : Usage
no_usage = record {
  input_tokens = 0;
  output_tokens = 0;
  cache_read_tokens = 0;
  cache_creation_tokens = 0;
}

pub record CellMeta : Type 0 where
  pub model : String
  pub effort : String
  pub collapsed : Bool
  pub tags : List String
  pub provenance : String
  pub source_uuid : String
  pub parent_uuid : String

pub record Cell : Type 0 where
  pub id : String
  pub kind : CellType
  pub source : String
  pub meta : CellMeta
  pub outputs : List Output
  pub state : CellState
  pub run_id : String
  pub created_at : ℕ
  pub started : ℕ
  pub duration : ℕ
  pub usage : Usage
  pub cache_mode : String

-- Rule lists, as texts (src/policy.go).
pub record PolicyRules : Type 0 where
  pub deny : List (List ℕ)
  pub allow : List (List ℕ)
  pub ask : List (List ℕ)

pub record NotebookMeta : Type 0 where
  pub model : String
  pub effort : String
  pub budget_usd : ℕ
  pub cli : String
  pub permissions : Option PolicyRules
  pub session_id : String

pub record Notebook : Type 0 where
  pub id : String
  pub title : String
  pub root : String
  pub meta : NotebookMeta
  pub cells : List Cell
  pub version : ℕ
