-- ===== src/Store/Live/Bounds.antt =====
-- The live text of a run is what it produced, up to the cap (src/nb_store.go: appendLive).
use collectif.Common.{
  ℕ, ◌⊎◌, zero, suc, ◌-◌, ◌≤◌, ◌<◌, ◌≡◌, refl, sym, ap, ◌∙◌, String, true, false, inl, inr, List,
  [], ◌∷◌, ◌++◌, arith, length, length-append, take, leb, ltb, if◌then◌else◌,
}
use mathlib.Core.List.{append_assoc, append-nil}
use collectif.Store.Log.{Bytes}
use collectif.Store.Live.{LiveOutput, max_cell_output, truncation_notice, fresh, append_text}

-- What is shown of all that a run produced: all of it while it is below the cap, and else the part
-- up to the cap and the notice.
unfoldable pub shown : String → Bytes → LiveOutput
shown run all =
    if ltb (length all) max_cell_output
    then record { run_id = run; text = all; capped = false }
    else record {
      run_id = run;
      text = take max_cell_output all ++ truncation_notice;
      capped = true;
    }

take-append_short : (n : ℕ) (xs ys : Bytes) → n ≤ length xs → take n (xs ++ ys) ≡ take n xs
take-append_short zero xs ys h = refl
take-append_short (suc n) [] ys h = absurd (omega (arith, h))
take-append_short (suc n) (x ∷ xs) ys h = ap (◌∷◌ x) (take-append_short n xs ys (omega (arith, h)))

take-append_long :
    (n : ℕ) (xs ys : Bytes) → length xs ≤ n → take n (xs ++ ys) ≡ xs ++ take (n - length xs) ys
take-append_long n [] ys h = let same : n ≡ n - 0 = omega arith in ap (λ k. take k ys) same
take-append_long zero (x ∷ xs) ys h = absurd (omega (arith, h))
take-append_long (suc n) (x ∷ xs) ys h =
    let shift : n - length xs ≡ suc n - suc (length xs) = omega arith in
    ap (◌∷◌ x) (take-append_long n xs ys (omega (arith, h)) ∙ ap (λ k. xs ++ take k ys) shift)

abbrev cut : String → Bytes → LiveOutput
cut run text = record { run_id = run; text = text ++ truncation_notice; capped = true }

le_cases : (m n : ℕ) → (m ≤ n) ⊎ (n < m)
le_cases m n = ground arith

module _ (run : String) (all : Bytes) where
  shown_below :
      length all < max_cell_output
      → shown run all ≡ record { run_id = run; text = all; capped = false }
  unfolding shown
  shown_below h =
      let test : ltb (length all) max_cell_output ≡ true = ground (arith, h) in rw test refl

  shown_above :
      max_cell_output ≤ length all
      → shown run all ≡ record {
        run_id = run;
        text = take max_cell_output all ++ truncation_notice;
        capped = true;
      }
  unfolding shown
  shown_above h =
      let test : ltb (length all) max_cell_output ≡ false = ground (arith, h) in rw test refl

  module _ (text : Bytes) where
    append_text-capped : (append_text (cut run all) text).0 ≡ cut run all
    unfolding append_text
    append_text-capped = refl

    append_text-room :
        length text < max_cell_output - length all
        → (append_text (record { run_id = run; text = all; capped = false }) text).0
          ≡ record { run_id = run; text = all ++ text; capped = false }
    unfolding append_text
    append_text-room h =
        let test : leb (max_cell_output - length all) (length text) ≡ false = ground (arith, h) in
        rw test refl

    append_text-over :
        max_cell_output - length all ≤ length text
        → (append_text (record { run_id = run; text = all; capped = false }) text).0
          ≡ cut run (all ++ take (max_cell_output - length all) text)
    unfolding append_text
    append_text-over h =
        let test : leb (max_cell_output - length all) (length text) ≡ true = ground (arith, h) in
        rw test refl

append_text-shown :
    (run : String) (all text : Bytes)
    → (append_text (shown run all) text).0 ≡ shown run (all ++ text)
append_text-shown run all text = elim (le_cases max_cell_output (length all)) [
  | inl above ↦
      ap (λ cur. (append_text cur text).0) (shown_above run all above)
      ∙ append_text-capped run (take max_cell_output all) text
      ∙ ap (cut run) (sym (take-append_short max_cell_output all text above))
      ∙ sym (shown_above run (all ++ text) (omega (arith, above, length-append all text)))
  | inr below ↦ elim (le_cases (max_cell_output - length all) (length text)) [
    | inl over ↦
        ap (λ cur. (append_text cur text).0) (shown_below run all below)
        ∙ append_text-over run all text over
        ∙ ap (cut run) (sym (take-append_long max_cell_output all text (omega (arith, below))))
        ∙ sym (shown_above run (all ++ text) (omega (arith, over, below, length-append all text)))
    | inr room ↦
        ap (λ cur. (append_text cur text).0) (shown_below run all below)
        ∙ append_text-room run all text room
        ∙ sym (shown_below run (all ++ text) (omega (arith, room, below, length-append all text)))
  ]
]

-- Texts of one run, appended in order.
abbrev pub append_texts : LiveOutput → List Bytes → LiveOutput
append_texts cur [] = cur
append_texts cur (text ∷ texts) = append_texts (append_text cur text).0 texts

abbrev pub produced : List Bytes → Bytes
produced [] = []
produced (text ∷ texts) = text ++ produced texts

append_texts-shown :
    (run : String) (all : Bytes) (texts : List Bytes)
    → append_texts (shown run all) texts ≡ shown run (all ++ produced texts)
append_texts-shown run all [] = ap (shown run) (sym (append-nil all))
append_texts-shown run all (text ∷ texts) =
    ap (λ cur. append_texts cur texts) (append_text-shown run all text)
    ∙ append_texts-shown run (all ++ text) texts
    ∙ ap (shown run) (append_assoc all text (produced texts))

-- However a run's output is cut into texts, what is shown of it is the same: all of it while it is
-- below the cap, and else its part up to the cap, once followed by the notice.
pub append_texts-produced :
    (run : String) (texts : List Bytes)
    → append_texts (fresh run) texts ≡ shown run (produced texts)
append_texts-produced run texts =
    ap (λ cur. append_texts cur texts) (sym (shown_below run [] (omega arith)))
    ∙ append_texts-shown run [] texts
