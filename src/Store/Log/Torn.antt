-- ===== src/Store/Log/Torn.antt =====
-- A line cut short at the end of the file (src/nb_store.go: readLog).
use collectif.Common.{
  ℕ, zero, suc, ◌<◌, ◌≤◌, ◌≡◌, refl, ap, ◌∙◌, none, List, [], ◌∷◌, ◌++◌, arith, ok, length, take,
}
use collectif.Text.Laws.{Lacks}
use collectif.Notebook.Events.{Event}
use collectif.Store.Log.{
  Bytes, newline, LineCodec, max_line, raw_lines, drop_cr, read_line, read_lines, read_log, log_of,
}
use collectif.Store.Log.Reading.{
  AllFit, before, before-nil, raw_lines-last, not_long, read_log-log_of,
}

Lacks-take : (b n : ℕ) (xs : Bytes) → Lacks b xs → Lacks b (take n xs)
Lacks-take b zero xs h = tt
Lacks-take b (suc n) [] h = tt
Lacks-take b (suc n) (x ∷ xs) (h, hs) = (h, Lacks-take b n xs hs)

take_front : (n : ℕ) (xs ys : Bytes) → n < length xs → take n (xs ++ ys) ≡ take n xs
take_front zero xs ys h = refl
take_front (suc n) [] ys h = absurd (omega (arith, h))
take_front (suc n) (x ∷ xs) ys h = ap (◌∷◌ x) (take_front n xs ys (omega (arith, h)))

length-take_le : (n : ℕ) (xs : Bytes) → length (take n xs) ≤ length xs
length-take_le zero xs = omega arith
length-take_le (suc n) [] = omega arith
length-take_le (suc n) (x ∷ xs) = omega (arith, length-take_le n xs)

module _ {R : Type 0} (codec : LineCodec R) where
  read_line-bad : (l : Bytes) → codec.unmarshal l ≡ none → read_line codec l (ok []) ≡ ok []
  read_line-bad [] h = refl
  read_line-bad (c ∷ l) h = rw h refl

  read_log-tail :
      (tail : Bytes)
      → Lacks newline tail
      → length tail < max_line
      → codec.unmarshal (drop_cr tail) ≡ none
      → read_log codec tail ≡ ok []
  unfolding read_log
  read_log-tail [] lacks short bad = unfold read_lines raw_lines in refl
  read_log-tail (c ∷ tail) lacks short bad =
      ap (read_lines codec) (raw_lines-last c tail lacks)
      ∙ unfold read_lines in
        (rw (not_long (c ∷ tail) short) (read_line-bad (drop_cr (c ∷ tail)) bad))

  -- Reading drops a last line that was cut short, and keeps every event before it.
  pub read_log-cut :
      (es : List (Event R)) (l rest : Bytes) (n : ℕ)
      → AllFit codec es
      → Lacks newline l
      → length l < max_line
      → n < length l
      → codec.unmarshal (drop_cr (take n l)) ≡ none
      → read_log codec (log_of codec es ++ take n (l ++ rest)) ≡ ok es
  read_log-cut es l rest n fit lacks short cut bad =
      ap (λ tail. read_log codec (log_of codec es ++ tail)) (take_front n l rest cut)
      ∙ read_log-log_of codec es (take n l) fit
      ∙ ap (before es) (
          read_log-tail (take n l) (Lacks-take newline n l lacks)
            (omega (arith, length-take_le n l, short)) bad)
      ∙ before-nil es
