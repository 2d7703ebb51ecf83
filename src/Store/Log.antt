-- ===== src/Store/Log.antt =====
-- The log file as bytes, and reading it (src/nb_store.go: readLog). Marshalling an event as a line
-- and unmarshalling one are `encoding/json`, the record `LineCodec`.
pub mod Reading
pub mod Torn
use collectif.Common.{
  ℕ, ◌==◌, Bool, true, false, Option, none, some, List, [], ◌∷◌, ◌++◌, leb, if◌then◌else◌, Result,
  ok, err, length,
}
use collectif.Notebook.Events.{Event}

abbrev pub Bytes : Type 0
Bytes = List ℕ

abbrev pub newline : ℕ
newline = 10

abbrev pub carriage_return : ℕ
carriage_return = 13

pub record LineCodec (R : Type 0) : Type 0 where
  pub marshal : Event R → Bytes
  pub unmarshal : Bytes → Option (Event R)

-- `sc.Buffer(…, 8*1024*1024)`
abbrev pub max_line : ℕ
max_line = 8388608

abbrev cons_line : ℕ → List Bytes → List Bytes
cons_line c [] = (c ∷ []) ∷ []
cons_line c (l ∷ ls) = (c ∷ l) ∷ ls

-- The lines that `bufio.ScanLines` cuts a file into, the rest behind the last newline included.
unfoldable pub raw_lines : Bytes → List Bytes
raw_lines [] = []
raw_lines (c ∷ s) = let rest = raw_lines s in if c == newline then [] ∷ rest else cons_line c rest

-- `ScanLines` drops one carriage return at a line's end.
unfoldable pub drop_cr : Bytes → Bytes
drop_cr [] = []
drop_cr (c ∷ []) = if c == carriage_return then [] else c ∷ []
drop_cr (c ∷ d ∷ s) = c ∷ drop_cr (d ∷ s)

pub data ScanError : Type 0 where
  too_long : ScanError

abbrev cons_event :
    {R : Type 0} → Event R → Result ScanError (List (Event R)) → Result ScanError (List (Event R))
cons_event e (ok es) = ok (e ∷ es)
cons_event e (err x) = err x

abbrev read_event :
    {R : Type 0}
    → Option (Event R)
    → Result ScanError (List (Event R))
    → Result ScanError (List (Event R))
read_event none rest = ok []
read_event (some e) rest = cons_event e rest

abbrev read_line :
    {R : Type 0}
    → LineCodec R
    → Bytes
    → Result ScanError (List (Event R))
    → Result ScanError (List (Event R))
read_line codec [] rest = rest
read_line codec (c ∷ l) rest = read_event (codec.unmarshal (c ∷ l)) rest

module _ {R : Type 0} (codec : LineCodec R) where
  -- The loop over the lines: an empty line is passed over, and the first line that does not parse
  -- ends it.
  unfoldable pub read_lines : List Bytes → Result ScanError (List (Event R))
  unfolding drop_cr
  read_lines [] = ok []
  read_lines (l ∷ ls) =
      let rest = read_lines ls in
      if leb max_line (length l) then err too_long else read_line codec (drop_cr l) rest

  unfoldable pub read_log : Bytes → Result ScanError (List (Event R))
  unfolding raw_lines read_lines
  read_log file = read_lines (raw_lines file)

  -- What `Append` writes for each event, one after another.
  unfoldable pub log_of : List (Event R) → Bytes
  log_of [] = []
  log_of (e ∷ es) = codec.marshal e ++ newline ∷ log_of es
