-- ===== src/Store/Log/Reading.antt =====
-- Reading back what was written (src/nb_store.go: readLog, Append).
use collectif.Common.{
  ℕ, ◌<◌, ◌≡◌, refl, sym, ap, ◌∙◌, ◌≢◌, false, none, some, List, [], ◌∷◌, ◌++◌, arith, leb, Result,
  ok, length,
}
use mathlib.Core.List.{append_assoc, append-nil}
use collectif.Text.Laws.{Lacks}
use collectif.Notebook.Events.{Event}
use collectif.Store.Log.{
  Bytes, newline, carriage_return, LineCodec, max_line, raw_lines, drop_cr, ScanError, read_line,
  cons_event, read_lines, read_log, log_of,
}

abbrev EndsBare : Bytes → Type 0
EndsBare [] = ⊥
EndsBare (c ∷ []) = c ≢ carriage_return
EndsBare (c ∷ d ∷ s) = EndsBare (d ∷ s)

-- What the log relies on of `encoding/json`: a marshalled event has no newline in it, ends in no
-- carriage return (it ends in a brace), and unmarshals to the event.
pub record Marshals {R : Type 0} (codec : LineCodec R) (e : Event R) : Type 0 where
  pub one_line : Lacks newline (codec.marshal e)
  pub ends_bare : EndsBare (codec.marshal e)
  pub reads_back : codec.unmarshal (codec.marshal e) ≡ some e

-- An event of a log: it marshals, and its line fits the scanner's buffer.
pub record Fits {R : Type 0} (codec : LineCodec R) (e : Event R) : Type 0 where
  pub marshals : Marshals codec e
  pub short : length (codec.marshal e) < max_line

abbrev pub AllFit : {R : Type 0} → LineCodec R → List (Event R) → Type 0
AllFit codec [] = Unit
AllFit codec (e ∷ es) = Fits codec e × AllFit codec es

raw_lines-append :
    (l rest : Bytes) → Lacks newline l → raw_lines (l ++ newline ∷ rest) ≡ l ∷ raw_lines rest
unfolding raw_lines
raw_lines-append [] rest h = refl
raw_lines-append (c ∷ l) rest (h, hs) = ground (arith, raw_lines-append l rest hs)

pub raw_lines-last : (c : ℕ) (l : Bytes) → Lacks newline (c ∷ l) → raw_lines (c ∷ l) ≡ (c ∷ l) ∷ []
unfolding raw_lines
raw_lines-last c [] (h, _) = ground arith
raw_lines-last c (d ∷ l) (h, hs) = ground (arith, raw_lines-last d l hs)

drop_cr-bare : (l : Bytes) → EndsBare l → drop_cr l ≡ l
unfolding drop_cr
drop_cr-bare [] h = absurd h
drop_cr-bare (c ∷ []) h = ground arith
drop_cr-bare (c ∷ d ∷ s) h = ap (◌∷◌ c) (drop_cr-bare (d ∷ s) h)

pub not_long : (l : Bytes) → length l < max_line → leb max_line (length l) ≡ false
not_long l h = ground arith

EndsBare-append : (xs ys : Bytes) → EndsBare ys → EndsBare (xs ++ ys)
EndsBare-append [] ys h = h
EndsBare-append (x ∷ []) [] h = absurd h
EndsBare-append (x ∷ []) (y ∷ ys) h = h
EndsBare-append (x ∷ x' ∷ xs) ys h = EndsBare-append (x' ∷ xs) ys h

Lacks-append : (b : ℕ) (xs ys : Bytes) → Lacks b xs → Lacks b ys → Lacks b (xs ++ ys)
Lacks-append b [] ys h k = k
Lacks-append b (x ∷ xs) ys (h, hs) k = (h, Lacks-append b xs ys hs k)

-- Events in front of what is read behind them.
abbrev pub before :
    {R : Type 0}
    → List (Event R)
    → Result ScanError (List (Event R))
    → Result ScanError (List (Event R))
before [] rest = rest
before (e ∷ es) rest = cons_event e (before es rest)

pub before-nil : {R : Type 0} (es : List (Event R)) → before es (ok []) ≡ ok es
before-nil [] = refl
before-nil (e ∷ es) = ap (cons_event e) (before-nil es)

module _ {R : Type 0} (codec : LineCodec R) where
  read_line-good :
      (l : Bytes) (e : Event R) (rest : Result ScanError (List (Event R)))
      → EndsBare l
      → codec.unmarshal l ≡ some e
      → read_line codec l rest ≡ cons_event e rest
  read_line-good [] e rest b h = absurd b
  read_line-good (c ∷ l) e rest b h = rw h

  read_lines-good :
      (l : Bytes) (ls : List Bytes) (e : Event R)
      → EndsBare l
      → length l < max_line
      → codec.unmarshal l ≡ some e
      → read_lines codec (l ∷ ls) ≡ cons_event e (read_lines codec ls)
  unfolding read_lines
  read_lines-good l ls e b short h =
      rw (not_long l short, drop_cr-bare l b) (read_line-good l e (read_lines codec ls) b h)

  -- A line that does not parse ends the reading there.
  read_lines-bad :
      (l : Bytes) (ls : List Bytes)
      → EndsBare l
      → length l < max_line
      → codec.unmarshal l ≡ none
      → read_lines codec (l ∷ ls) ≡ ok []
  unfolding read_lines
  read_lines-bad [] ls b short h = absurd b
  read_lines-bad (c ∷ l) ls b short h = rw (not_long (c ∷ l) short, drop_cr-bare (c ∷ l) b, h) refl

  read_log-line :
      (e : Event R) (rest : Bytes)
      → Fits codec e
      → read_log codec (codec.marshal e ++ newline ∷ rest) ≡ cons_event e (read_log codec rest)
  unfolding read_log
  read_log-line e rest fits =
      ap (read_lines codec) (raw_lines-append (codec.marshal e) rest fits.marshals.one_line)
      ∙ read_lines-good (codec.marshal e) (raw_lines rest) e fits.marshals.ends_bare fits.short
          fits.marshals.reads_back

  torn_line :
      (torn : Bytes) (e : Event R) (more : List (Event R))
      → Lacks newline torn
      → Marshals codec e
      → length (torn ++ codec.marshal e) < max_line
      → codec.unmarshal (torn ++ codec.marshal e) ≡ none
      → read_log codec (torn ++ log_of codec (e ∷ more)) ≡ ok []
  unfolding read_log log_of
  torn_line torn e more lacks m short bad =
      ap (λ file. read_lines codec (raw_lines file))
        (sym (append_assoc torn (codec.marshal e) (newline ∷ log_of codec more)))
      ∙ ap (read_lines codec) (
          raw_lines-append (torn ++ codec.marshal e) (log_of codec more)
            (Lacks-append newline torn (codec.marshal e) lacks m.one_line))
      ∙ read_lines-bad (torn ++ codec.marshal e) (raw_lines (log_of codec more))
          (EndsBare-append torn (codec.marshal e) m.ends_bare) short bad

  -- Reading a log of events gives those events, with whatever follows read behind them.
  pub read_log-log_of :
      (es : List (Event R)) (tail : Bytes)
      → AllFit codec es
      → read_log codec (log_of codec es ++ tail) ≡ before es (read_log codec tail)
  unfolding log_of
  read_log-log_of [] tail h = refl
  read_log-log_of (e ∷ es) tail (fits, h) =
      ap (read_log codec) (append_assoc (codec.marshal e) (newline ∷ log_of codec es) tail)
      ∙ read_log-line e (log_of codec es ++ tail) fits
      ∙ ap (cons_event e) (read_log-log_of es tail h)

  -- Reading the file to which a list of events was written gives that list, where the events marshal
  -- and their lines fit the scanner's buffer.
  pub read_log-whole :
      (es : List (Event R)) → AllFit codec es → read_log codec (log_of codec es) ≡ ok es
  unfolding read_log
  read_log-whole es h =
      ap (read_log codec) (sym (append-nil (log_of codec es)))
      ∙ read_log-log_of es [] h
      ∙ before-nil es

  -- A write that was cut short leaves the front of a line, with no newline, at the end of the file.
  -- The next event goes on that same line, which then does not parse, so that reading stops there:
  -- that event and every event appended after it are not read back.
  pub read_log-torn :
      (es : List (Event R)) (torn : Bytes) (e : Event R) (more : List (Event R))
      → AllFit codec es
      → Lacks newline torn
      → Marshals codec e
      → length (torn ++ codec.marshal e) < max_line
      → codec.unmarshal (torn ++ codec.marshal e) ≡ none
      → read_log codec (log_of codec es ++ (torn ++ log_of codec (e ∷ more))) ≡ ok es
  read_log-torn es torn e more h lacks m short bad =
      read_log-log_of es (torn ++ log_of codec (e ∷ more)) h
      ∙ ap (before es) (torn_line torn e more lacks m short bad)
      ∙ before-nil es
