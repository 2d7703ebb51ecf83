-- ===== src/Store/Live.antt =====
-- What the running cells have produced so far (src/nb_store.go: liveOutput, appendLive, liveText,
-- clearLive). A text is its bytes; the map has a cell's id at most once, the newest entry first.
pub mod Bounds
pub mod Entries
use collectif.Common.{
  ℕ, ◌+◌, ◌-◌, ◌≤◌, String, Bool, true, false, not, ◌&&◌, Option, none, some, List, [], ◌∷◌, ◌++◌,
  length, take, leb, str_eq, if◌then◌else◌,
}
use collectif.Text.{codes}
use collectif.Store.Log.{Bytes}

pub record LiveOutput : Type 0 where
  pub run_id : String
  pub text : Bytes
  pub capped : Bool

-- maxCellOutput
abbrev pub max_cell_output : ℕ
max_cell_output = 262144

abbrev ellipsis : Bytes
ellipsis = 226 ∷ 128 ∷ 166 ∷ []

abbrev pub truncation_notice : Bytes
truncation_notice = 10 ∷ ellipsis ++ codes " output truncated at 256 KiB " ++ ellipsis ++ 10 ∷ []

abbrev pub fresh : String → LiveOutput
fresh run = record { run_id = run; text = []; capped = false }

-- The output with one more text, and whether the text was accepted.
unfoldable pub append_text : LiveOutput → Bytes → LiveOutput × Bool
append_text cur text =
    if cur.capped
    then (cur, false)
    else if leb (max_cell_output - length cur.text) (length text)
    then (
      record cur {
        text = cur.text ++ take (max_cell_output - length cur.text) text ++ truncation_notice;
        capped = true;
      },
      true,
    )
    else (record cur { text = cur.text ++ text }, true)

abbrev pub LiveMap : Type 0
LiveMap = List (String × LiveOutput)

unfoldable pub live_entry : LiveMap → String → Option LiveOutput
live_entry [] cell = none
live_entry ((id, out) ∷ m) cell =
    let rest = live_entry m cell in if str_eq id cell then some out else rest

unfoldable pub delete_entry : LiveMap → String → LiveMap
delete_entry [] cell = []
delete_entry ((id, out) ∷ m) cell =
    let rest = delete_entry m cell in if str_eq id cell then rest else (id, out) ∷ rest

-- The entry of this run, or a fresh one in place of another run's.
abbrev pub current : String → Option LiveOutput → LiveOutput
current run none = fresh run
current run (some out) = if str_eq out.run_id run then out else fresh run

unfoldable pub append_live : LiveMap → String → String → Bytes → LiveMap × Bool
unfolding append_text live_entry delete_entry
append_live m cell run text =
    let (out, accepted) = append_text (current run (live_entry m cell)) text in
    ((cell, out) ∷ delete_entry m cell, accepted)

abbrev text_of_run : String → Option LiveOutput → Bytes
text_of_run run none = []
text_of_run run (some out) = if str_eq out.run_id run then out.text else []

unfoldable pub live_text : LiveMap → String → String → Bytes
unfolding live_entry
live_text m cell run = text_of_run run (live_entry m cell)

abbrev is_run : String → Option LiveOutput → Bool
is_run run none = false
is_run run (some out) = str_eq out.run_id run

unfoldable pub clear_live : LiveMap → String → String → LiveMap
unfolding live_entry delete_entry
clear_live m cell run = if is_run run (live_entry m cell) then delete_entry m cell else m
