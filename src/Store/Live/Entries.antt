-- ===== src/Store/Live/Entries.antt =====
-- The map of live outputs (src/nb_store.go: appendLive, liveText, clearLive).
use collectif.Common.{
  ◌≡◌, refl, ap, ◌∙◌, String, true, false, Bool-cases, inl, inr, Option, none, some, [], ◌∷◌,
  str_eq, eq_iff, if◌then◌else◌,
}
use collectif.Store.Log.{Bytes}
use collectif.Store.Live.{
  LiveOutput, LiveMap, append_text, live_entry, delete_entry, current, append_live, text_of_run,
  live_text, is_run, clear_live,
}

str_eq_self : (s : String) → str_eq s s ≡ true
str_eq_self s = (eq_iff s s).1 refl

live_entry-delete_entry_ne :
    (m : LiveMap) (cell k : String)
    → str_eq cell k ≡ false
    → live_entry (delete_entry m cell) k ≡ live_entry m k
unfolding live_entry delete_entry
live_entry-delete_entry_ne [] cell k h = refl
live_entry-delete_entry_ne ((id, out) ∷ m) cell k h = elim (Bool-cases (str_eq id cell)) [
  | inl same ↦
      let other : str_eq id k ≡ false = ap (λ s. str_eq s k) ((eq_iff id cell).0 same) ∙ h in
      rw (same, other) (live_entry-delete_entry_ne m cell k h)
  | inr apart ↦
      rw apart (
        ap (λ rest. if str_eq id k then some out else rest) (live_entry-delete_entry_ne m cell k h))
]

live_entry-delete_entry :
    (m : LiveMap) (cell : String) → live_entry (delete_entry m cell) cell ≡ none
unfolding live_entry delete_entry
live_entry-delete_entry [] cell = refl
live_entry-delete_entry ((id, out) ∷ m) cell = elim (Bool-cases (str_eq id cell)) [
  | inl same ↦ rw same (live_entry-delete_entry m cell)
  | inr apart ↦ rw (apart, apart) (live_entry-delete_entry m cell)
]

-- Appending to a cell's output changes that cell's entry, to its run's output with the text, and no
-- other: the output of another run of the cell is dropped.
live_entry-append_live :
    (m : LiveMap) (cell run : String) (text : Bytes) (k : String)
    → live_entry (append_live m cell run text).0 k ≡ (
        if str_eq cell k
        then some (append_text (current run (live_entry m cell)) text).0
        else live_entry m k)
unfolding append_live live_entry
live_entry-append_live m cell run text k = elim (Bool-cases (str_eq cell k)) [
  | inl same ↦ rw same refl
  | inr apart ↦ rw apart (live_entry-delete_entry_ne m cell k apart)
]

not_mine : (run : String) (o : Option LiveOutput) → is_run run o ≡ false → text_of_run run o ≡ []
not_mine run none h = refl
not_mine run (some out) h = rw h refl

-- After a run's output is cleared, nothing of that run is shown.
live_text-clear_live :
    (m : LiveMap) (cell run : String) → live_text (clear_live m cell run) cell run ≡ []
unfolding live_text clear_live
live_text-clear_live m cell run = elim (Bool-cases (is_run run (live_entry m cell))) [
  | inl mine ↦
      ap (λ b. text_of_run run (live_entry (if b then delete_entry m cell else m) cell)) mine
      ∙ ap (text_of_run run) (live_entry-delete_entry m cell)
  | inr other ↦
      ap (λ b. text_of_run run (live_entry (if b then delete_entry m cell else m) cell)) other
      ∙ not_mine run (live_entry m cell) other
]
