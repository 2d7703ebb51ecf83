-- ===== src/Session/Projector.antt =====
-- The projector that folds transcript parts into a notebook (src/nb_session.go: sessionProjector).
-- The notebook's store and the operating system are the interface `Host`.
use collectif.Common.{
  ℕ, ◌+◌, ◌%◌, String, Bool, true, false, ◌||◌, Option, none, some, List, [], ◌∷◌, str_eq,
  if◌then◌else◌,
}
use collectif.Text.{codes, text_eq, trim_space}
use collectif.Notebook.Cells.{
  CellType, prompt, CellState, running, interrupted, Cell, CellMeta, Notebook, Output, Value, str,
  flag, json, no_usage,
}
use collectif.Notebook.Events.{Change, insert, edit, output, finish}
use collectif.Session.Part.{TranscriptPart}

-- What the projector calls: `Doc` and `Append` of the store, whether the append went through;
-- `uuid.NewString`, by how many ids were drawn; and whether `json.Unmarshal` takes a text.
pub record Host (S : Type 0) : Type 0 where
  pub doc : S → Notebook
  pub append : S → Change → S × Bool
  pub fresh_id : ℕ → String
  pub is_json : String → Bool

pub record SubagentLink : Type 0 where
  pub cell_id : String
  pub agent_type : String

-- sessionProjector, with its store, without the question it tracks for src/nb_approval.go.
pub record Projector (S : Type 0) : Type 0 where
  pub store : S
  pub seen : List String
  pub current : String
  pub current_parent : String
  pub pending_parent : String
  pub adopt_cell : String
  pub adopt_text : String
  pub adopt_gen : ℕ
  pub links : List (String × SubagentLink)
  pub held : List (String × List TranscriptPart)
  pub closed : Bool
  pub ids_drawn : ℕ

abbrev pub is_empty : String → Bool
is_empty s = str_eq s ""

unfoldable pub has : List String → String → Bool
has [] id = false
has (x ∷ xs) id = str_eq x id || has xs id

unfoldable pub lookup {ℓ} : {A : Type ℓ} → List (String × A) → String → Option A
lookup [] k = none
lookup ((i, a) ∷ m) k = let rest = lookup m k in if str_eq i k then some a else rest

unfoldable pub without {ℓ} : {A : Type ℓ} → List (String × A) → String → List (String × A)
without [] k = []
without ((i, a) ∷ m) k = let rest = without m k in if str_eq i k then rest else (i, a) ∷ rest

abbrev pub parts_of : Option (List TranscriptPart) → List TranscriptPart
parts_of none = []
parts_of (some ps) = ps

abbrev pub mirrored : String
mirrored = "mirrored"

abbrev pub compact : String
compact = "compact"

-- `adoptGen++` on 64 bits.
abbrev pub next_gen : ℕ → ℕ
next_gen g = (g + 1) % 18446744073709551616

-- maxHeldSubagentParts
abbrev pub max_held : ℕ
max_held = 200

abbrev pub finished : String → CellState → Change
finished cell st = finish (record { cell_id = cell; run_id = ""; status = st; usage = no_usage })

abbrev pub landed : String → Output → Change
landed cell out = output (record { cell_id = cell; run_id = ""; output = out })

abbrev pub mirrored_meta : String → String → String → String → CellMeta
mirrored_meta provenance uuid parent model = record {
  model = model;
  effort = "";
  collapsed = false;
  tags = [];
  provenance = provenance;
  source_uuid = uuid;
  parent_uuid = parent;
}

abbrev pub mcp_attrs : TranscriptPart → List (String × Value)
mcp_attrs part =
    if is_empty part.mcp_server
    then []
    else ("mcpServer", str part.mcp_server) ∷ ("mcpTool", str part.mcp_tool) ∷ []

abbrev pub error_attr : TranscriptPart → List (String × Value)
error_attr part = if part.is_error then ("isError", flag true) ∷ [] else []

-- The sentence of giveUpOnAdoption.
abbrev pub lost_text : String
lost_text =
    "The agent never echoed this prompt back, so it may not have reached it — a CLI showing a dialog swallows whatever is typed. Open the terminal to check."

module _ {S : Type 0} (host : Host S) where
  abbrev pub input_attr : Option String → List (String × Value)
  input_attr none = []
  input_attr (some text) = if host.is_json text then ("input", json text) ∷ [] else []

  -- An event through the store, and whether it went through.
  unfoldable pub emit : Projector S → Change → Projector S × Bool
  emit p ch = let (s, done) = host.append p.store ch in (record p { store = s }, done)

  unfoldable pub settle_current : CellState → Projector S → Projector S
  unfolding emit
  settle_current st p =
      if is_empty p.current
      then p
      else record (emit p (finished p.current st)).0 { current = ""; current_parent = "" }

  -- The cell that openCell builds, and its insertion at the end.
  abbrev pub opened_cell :
      Projector S → CellType → String → String → String → String → CellState → Cell
  opened_cell p kind source provenance uuid model st = record {
    id = host.fresh_id p.ids_drawn;
    kind = kind;
    source = source;
    meta = mirrored_meta provenance uuid p.pending_parent model;
    outputs = [];
    state = st;
    run_id = "";
    created_at = 0;
    started = 0;
    duration = 0;
    usage = no_usage;
    cache_mode = "";
  }

  abbrev pub now_current : String → Projector S × Bool → Projector S × Bool
  now_current id (p, true) = (record p { current = id }, true)
  now_current id (p, false) = (p, false)

  abbrev pub inserted :
      Projector S → CellType → String → String → String → String → CellState → Projector S × Bool
  inserted p kind source provenance uuid model st =
      emit (record p { ids_drawn = p.ids_drawn + 1 })
        (insert (record {
          cell = opened_cell p kind source provenance uuid model st;
          after_cell_id = "";
          before_cell_id = "";
        }))

  unfoldable pub open_cell :
      Projector S → CellType → String → String → String → String → CellState → Projector S × Bool
  unfolding emit
  open_cell p kind source provenance uuid model st =
      now_current (host.fresh_id p.ids_drawn) (inserted p kind source provenance uuid model st)

  abbrev pub onto : Output → Projector S × Bool → Projector S × Bool
  onto out (p, true) = emit p (landed p.current out)
  onto out (p, false) = (p, false)

  unfoldable pub append_output : Projector S → TranscriptPart → Output → Projector S × Bool
  unfolding open_cell emit
  append_output p part out = onto out (
      if is_empty p.current
      then open_cell p prompt "" mirrored "" part.model running
      else (p, true))

  abbrev pub taken_over : TranscriptPart → String → Projector S × Bool → Projector S × Bool
  taken_over part cell (p, true) =
      (record p { current = cell; current_parent = part.parent_uuid }, true)
  taken_over part cell (p, false) = (p, false)

  abbrev pub dropped_adoption : Projector S → Projector S
  dropped_adoption p = record p {
    adopt_cell = "";
    adopt_text = "";
    adopt_gen = next_gen p.adopt_gen;
  }

  abbrev pub same_prompt : String → String → Bool
  same_prompt a b = text_eq (trim_space (codes a)) (trim_space (codes b))

  -- The edit that makes the awaited cell the part's, and the end of one that will not be answered.
  abbrev pub claimed : Projector S → TranscriptPart → Projector S × Bool
  claimed p part = emit (dropped_adoption p) (
      edit (record {
        cell_id = p.adopt_cell;
        source = none;
        meta = some (mirrored_meta mirrored part.uuid part.parent_uuid part.model);
        kind = none;
      }))

  abbrev pub unanswered : Projector S → Projector S × Bool
  unanswered p = ((emit (dropped_adoption p) (finished p.adopt_cell interrupted)).0, false)

  abbrev pub adopt_if : Bool → Projector S → TranscriptPart → Projector S × Bool
  adopt_if true p part = taken_over part p.adopt_cell (claimed p part)
  adopt_if false p part = unanswered p

  unfoldable pub adopt : Projector S → TranscriptPart → Projector S × Bool
  unfolding emit
  adopt p part =
      if is_empty p.adopt_cell
      then (p, false)
      else adopt_if (same_prompt part.text p.adopt_text) p part
