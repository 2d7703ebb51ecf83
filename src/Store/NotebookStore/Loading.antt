-- ===== src/Store/NotebookStore/Loading.antt =====
-- What a load gives (src/nb_store.go: load, snapshotMatchesLog): the fold of the log, with or
-- without a snapshot.
use collectif.Common.{
  ℕ, zero, suc, ◌≤◌, ◌≡◌, refl, sym, ap, ◌∙◌, true, Bool-cases, ◌⊎◌, inl, inr, String, some, List,
  [], ◌∷◌, ◌++◌, arith, eq_iff, Result, ok, err, ◌>>=◌, length, take-append-drop, length-take, take,
  drop, get_elem?,
}
use collectif.Notebook.Cells.{Notebook}
use collectif.Notebook.Events.{Event, Codec, FoldError}
use collectif.Notebook.Fold.{empty_notebook, fold_from, fold_events}
use collectif.Notebook.Fold.Log.{fold_from-append}
use collectif.Store.NotebookStore.{
  Snapshot, with_id, has_id, snapshot_matches_log, or_else, from_snapshot, load_events, last_id,
}
use collectif.Store.NotebookStore.Identity.{identified, fold_from-with_id}

or_else_self :
    (i j : String) (r : Result FoldError Notebook)
    → identified i (or_else (identified j r) r) ≡ identified i r
or_else_self i j (ok nb) = refl
or_else_self i j (err x) = refl

-- A snapshot of a history: the document its events fold to, under any id, at its last event.
pub record Summarises {R : Type 0} (payloads : Codec R) (sn : Snapshot) (history : List (Event R))
    : Type 0 where
  pub id : String
  pub document : Notebook
  pub folded : fold_events payloads history ≡ ok document
  pub notebook : sn.notebook ≡ with_id id document
  pub version : sn.version ≡ length history
  pub last : sn.last_event_id ≡ last_id history

-- A front part of the log that is as long as a history and ends in an event of the same id is that
-- history.
abbrev pub Recognised : {R : Type 0} → List (Event R) → List (Event R) → Type 0
Recognised {R} history es =
    (xs ys : List (Event R))
    → es ≡ xs ++ ys
    → length xs ≡ length history
    → last_id xs ≡ last_id history
    → xs ≡ history

version_cases : (n : ℕ) → (n ≡ 0) ⊎ ((k : ℕ) × (n ≡ suc k))
version_cases zero = inl refl
version_cases (suc k) = inr (k, refl)

empty_length {ℓ} : {A : Type ℓ} (xs : List A) → length xs ≡ 0 → xs ≡ []
empty_length [] h = refl
empty_length (x ∷ xs) h = absurd (omega (arith, h))

module _ {R : Type 0} where
  last_id-take :
      (es : List (Event R)) (k : ℕ) (id : String)
      → has_id (get_elem? es k) id ≡ true
      → last_id (take (suc k) es) ≡ id
  unfolding last_id
  last_id-take [] k id h = absurd (ground arith)
  last_id-take (e ∷ es) zero id h = (eq_iff e.id id).0 h
  last_id-take (e ∷ []) (suc k) id h = absurd (ground arith)
  last_id-take (e ∷ d ∷ es) (suc k) id h = last_id-take (d ∷ es) k id h

  -- What the check of a snapshot against the log shows.
  snapshot_matches_log-true :
      (sn : Snapshot) (es : List (Event R))
      → snapshot_matches_log sn es ≡ true
      → (sn.version ≤ length es)
        × ((sn.version ≡ 0)
            ⊎ ((k : ℕ) × (sn.version ≡ suc k) × (has_id (get_elem? es k) sn.last_event_id ≡ true)))
  unfolding snapshot_matches_log
  snapshot_matches_log-true sn es h = elim (version_cases sn.version) [
    | inl z ↦ (omega (arith, z), inl z)
    | inr (k, z) ↦ (ground (arith, z, h), inr (k, z, ground (arith, z, h)))
  ]

  last_id-matched :
      (sn : Snapshot) (es history : List (Event R))
      → sn.version ≡ length history
      → sn.last_event_id ≡ last_id history
      → snapshot_matches_log sn es ≡ true
      → last_id (take sn.version es) ≡ last_id history
  last_id-matched sn es history v l h = elim (snapshot_matches_log-true sn es h).1 [
    | inl z ↦ ap (λ n. last_id (take n es)) z ∙ ap last_id (sym (empty_length history (sym v ∙ z)))
    | inr (k, z, has) ↦ ap (λ n. last_id (take n es)) z ∙ last_id-take es k sn.last_event_id has ∙ l
  ]

  pub snapshot_matches_log-split :
      (sn : Snapshot) (es history : List (Event R))
      → sn.version ≡ length history
      → sn.last_event_id ≡ last_id history
      → Recognised history es
      → snapshot_matches_log sn es ≡ true
      → es ≡ history ++ drop sn.version es
  snapshot_matches_log-split sn es history v l same h =
      let split : es ≡ take sn.version es ++ drop sn.version es =
        sym (take-append-drop sn.version es) in
      split
      ∙ ap (λ front. front ++ drop sn.version es)
          (same (take sn.version es) (drop sn.version es) split
            (length-take sn.version es (snapshot_matches_log-true sn es h).0 ∙ v)
            (last_id-matched sn es history v l h))

module _ {R : Type 0} (payloads : Codec R) where
  resume :
      (i : String) (nb : Notebook) (history rest : List (Event R))
      → fold_events payloads history ≡ ok nb
      → fold_from payloads (with_id i nb) rest
        ≡ identified i (fold_events payloads (history ++ rest))
  unfolding fold_events
  resume i nb history rest h =
      fold_from-with_id payloads i nb rest
      ∙ ap (identified i) (
          sym (ap (λ r. r >>= λ nb'. fold_from payloads nb' rest) h)
          ∙ sym (fold_from-append payloads empty_notebook history rest))

  from_snapshot-matched :
      (slug : String) (sn : Snapshot) (es history : List (Event R))
      (s : Summarises payloads sn history)
      → es ≡ history ++ drop sn.version es
      → identified slug (from_snapshot payloads true sn es)
        ≡ identified slug (fold_events payloads es)
  from_snapshot-matched slug sn es history s split =
      ap
        (λ nb.
          identified slug
            (or_else (fold_from payloads nb (drop sn.version es)) (fold_events payloads es)))
        s.notebook
      ∙ ap (λ r. identified slug (or_else r (fold_events payloads es)))
          (resume s.id s.document history (drop sn.version es) s.folded
            ∙ ap (λ l. identified s.id (fold_events payloads l)) (sym split))
      ∙ or_else_self slug s.id (fold_events payloads es)

  -- Loading a log beside a snapshot of any history gives the fold of the log, errors included, up to
  -- the document's id, which the open sets anyway. The condition is that an event's id tells its
  -- history: a front part of the log of that history's length, with the same last id, is that history.
  pub load_events-fold_events :
      (slug : String) (sn : Snapshot) (history es : List (Event R))
      → Summarises payloads sn history
      → Recognised history es
      → identified slug (load_events payloads (some sn) es)
        ≡ identified slug (fold_events payloads es)
  unfolding load_events
  load_events-fold_events slug sn history es s same =
      elim (Bool-cases (snapshot_matches_log sn es)) [
        | inl matched ↦
            ap (λ b. identified slug (from_snapshot payloads b sn es)) matched
            ∙ from_snapshot-matched slug sn es history s
                (snapshot_matches_log-split sn es history s.version s.last same matched)
        | inr foreign ↦ ap (λ b. identified slug (from_snapshot payloads b sn es)) foreign
      ]
