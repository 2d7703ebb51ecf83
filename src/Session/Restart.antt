-- ===== src/Session/Restart.antt =====
-- A projector that starts again on a document (src/nb_session.go: reseedFromDocument, Ingest).
use collectif.Common.{
  ℕ, zero, suc, ◌≡◌, refl, ap, ◌∙◌, String, Bool, true, false, Bool-cases, ◌&&◌, ◌||◌, not, ◌⊎◌,
  inl, inr, Option, none, some, List, [], ◌∷◌, ◌++◌, if◌then◌else◌, modify,
}
use collectif.Notebook.Cells.{Cell, CellState, Notebook, no_usage}
use collectif.Notebook.Events.{Change, RunFinishedPayload}
use collectif.Notebook.Fold.{
  apply_change, bump, update_cell, at_index, index_of_cell, finished_run, superseded,
}
use collectif.Session.Part.{PartKind, TranscriptPart}
use collectif.Session.Projector.{
  Host, Projector, is_empty, has, lookup, emit, settle_current, finished,
}
use collectif.Session.Ingest.{
  apply_kind, apply, link_subagent, linked, recorded, is_result, is_skipped, folded, ingest_part,
  ingest_parts, release_held, ingest,
}
use collectif.Session.Lifecycle.{cell_source, output_ids, document_ids, open_turn, new_projector}
use collectif.Session.Seen.{has_head, ingest_parts-Grows, release_held-Grows}
use collectif.Session.Again.{ingest-closed, ingest-live, ingest_part-new, ingest_part-skipped}

-- What an append does to the document: nothing, or the change that it was given.
pub record IsStore {S : Type 0} (host : Host S) : Type 0 where
  pub appended :
      (s : S) (ch : Change)
      → (host.doc (host.append s ch).0 ≡ host.doc s)
        ⊎ ((at : ℕ) × (host.doc (host.append s ch).0 ≡ bump (apply_change ch at (host.doc s))))

abbrev ids_of_cell : Cell → List String
ids_of_cell c = cell_source c ++ output_ids c.outputs

document_ids-modify :
    (cells : List Cell) (i : ℕ) (f : Cell → Cell)
    → ((c : Cell) → (cell_source (f c) ≡ cell_source c) × ((f c).outputs ≡ c.outputs))
    → document_ids (modify cells i f) ≡ document_ids cells
unfolding document_ids
document_ids-modify [] i f h = refl
document_ids-modify (c ∷ cells) zero f h =
    ap (λ a. a ++ (output_ids (f c).outputs ++ document_ids cells)) (h c).0
    ∙ ap (λ os. cell_source c ++ (output_ids os ++ document_ids cells)) (h c).1
document_ids-modify (c ∷ cells) (suc i) f h =
    ap (λ a. cell_source c ++ (output_ids c.outputs ++ a)) (document_ids-modify cells i f h)

at_index-document_ids :
    (o : Option ℕ) (f : Cell → Cell) (cells : List Cell)
    → ((c : Cell) → (cell_source (f c) ≡ cell_source c) × ((f c).outputs ≡ c.outputs))
    → document_ids (at_index o f cells) ≡ document_ids cells
at_index-document_ids none f cells h = refl
at_index-document_ids (some i) f cells h = document_ids-modify cells i f h

abbrev SameIds : Cell → Cell → Type 0
SameIds c c' = (cell_source c' ≡ cell_source c) × (c'.outputs ≡ c.outputs)

if-SameIds : (b : Bool) (c c' : Cell) → SameIds c c' → SameIds c (if b then c else c')
if-SameIds true c c' h = (refl, refl)
if-SameIds false c c' h = h

finished_run-SameIds :
    (p : RunFinishedPayload) (at : ℕ) (c : Cell) → SameIds c (finished_run p at c)
unfolding finished_run
finished_run-SameIds p at c = if-SameIds (superseded p.run_id c) c _ (refl, refl)

document_ids-finished :
    (cell : String) (st : CellState) (at : ℕ) (nb : Notebook)
    → document_ids (bump (apply_change (finished cell st) at nb)).cells ≡ document_ids nb.cells
unfolding apply_change update_cell
document_ids-finished cell st at nb =
    at_index-document_ids (index_of_cell nb.cells cell)
      (finished_run (record { cell_id = cell; run_id = ""; status = st; usage = no_usage }) at)
      nb.cells
      (finished_run-SameIds (record { cell_id = cell; run_id = ""; status = st; usage = no_usage })
        at)

module _ {S : Type 0} (host : Host S) where
  abbrev ids_in : S → List String
  ids_in s = document_ids (host.doc s).cells

  ingest_part-interrupted :
      (p : Projector S) (part : TranscriptPart)
      → is_skipped host p part ≡ false
      → part.kind ≡ PartKind.interrupted
      → ingest_part host p part
        ≡ (recorded host part (settle_current host CellState.interrupted p, true), [])
  unfolding apply apply_kind link_subagent
  ingest_part-interrupted p part new stopped =
      ingest_part-new host p part new
      ∙ ap
          (λ k.
            folded host
              (if is_result k && (not (is_empty part.agent_id) && not (is_empty p.current))
                then linked host (lookup p.links part.agent_id) p part
                else (p, []))
              part)
          stopped
      ∙ ap (λ k. (recorded host part (apply_kind host k p part), [])) stopped

  -- Folding an interruption is ending the turn, and marking its line seen.
  ingest-interrupted :
      (p : Projector S) (part : TranscriptPart)
      → p.closed ≡ false
      → is_skipped host p part ≡ false
      → part.kind ≡ PartKind.interrupted
      → ingest host p (part ∷ [])
        ≡ recorded host part (settle_current host CellState.interrupted p, true)
  unfolding ingest_parts release_held
  ingest-interrupted p part live new stopped =
      ingest-live host p (part ∷ []) live
      ∙ ap (λ r. release_held host r.0 (r.1 ++ [])) (ingest_part-interrupted p part new stopped)

  -- A projector that folded an interruption has seen its line, whatever it folded after it.
  interrupted_seen :
      (p : Projector S) (part : TranscriptPart) (later : List TranscriptPart)
      → p.closed ≡ false
      → is_skipped host p part ≡ false
      → part.kind ≡ PartKind.interrupted
      → has (ingest host p (part ∷ later)).seen part.uuid ≡ true
  unfolding ingest_parts
  interrupted_seen p part later live new stopped =
      let q : Projector S = (ingest_part host p part).0 in
      let seen : has q.seen part.uuid ≡ true =
        ap (λ r. has r.0.seen part.uuid) (ingest_part-interrupted p part new stopped)
        ∙ has_head part.uuid (settle_current host CellState.interrupted p).seen in
      ap (λ r. has r.seen part.uuid) (ingest-live host p (part ∷ later) live)
      ∙ release_held-Grows host (ingest_parts host p (part ∷ later)).0
          (ingest_parts host p (part ∷ later)).1 part.uuid
          (ingest_parts-Grows host q later part.uuid seen)

  -- A line that is passed over changes nothing.
  ingest-skipped :
      (p : Projector S) (part : TranscriptPart)
      → is_skipped host p part ≡ true
      → ingest host p (part ∷ []) ≡ p
  unfolding ingest_parts release_held
  ingest-skipped p part h = elim (Bool-cases p.closed) [
    | inl shut ↦ ingest-closed host p (part ∷ []) shut
    | inr live ↦
        ingest-live host p (part ∷ []) live
        ∙ ap (λ r. release_held host r.0 (r.1 ++ [])) (ingest_part-skipped host p part h)
  ]

  settled_ids_if :
      (laws : IsStore host) (b : Bool) (st : CellState) (p : Projector S)
      → ids_in
          (if b then p else record (emit host p (finished p.current st)).0 {
            current = "";
            current_parent = "";
          }).store
        ≡ ids_in p.store
  unfolding emit
  settled_ids_if laws true st p = refl
  settled_ids_if laws false st p = elim (laws.appended p.store (finished p.current st)) [
    | inl same ↦ ap (λ nb. document_ids nb.cells) same
    | inr (at, changed) ↦
        ap (λ nb. document_ids nb.cells) changed
        ∙ document_ids-finished p.current st at (host.doc p.store)
  ]

  -- Folding the line of an interruption leaves no id of it in the document.
  document_ids-ingest :
      (laws : IsStore host) (p : Projector S) (part : TranscriptPart)
      → p.closed ≡ false
      → is_skipped host p part ≡ false
      → part.kind ≡ PartKind.interrupted
      → document_ids (host.doc (ingest host p (part ∷ [])).store).cells
        ≡ document_ids (host.doc p.store).cells
  unfolding settle_current
  document_ids-ingest laws p part live new stopped =
      ap (λ q. ids_in q.store) (ingest-interrupted p part live new stopped)
      ∙ settled_ids_if laws (is_empty p.current) CellState.interrupted p

  abbrev settled : Projector S → Projector S
  settled p = record (emit host p (finished p.current CellState.interrupted)).0 {
    current = "";
    current_parent = "";
  }

  settle_current-open :
      (p : Projector S)
      → is_empty p.current ≡ false
      → settle_current host CellState.interrupted p ≡ settled p
  unfolding settle_current
  settle_current-open p h = ap (λ b. if b then p else settled p) h

  seen-is_skipped :
      (p : Projector S) (part : TranscriptPart)
      → has p.seen part.uuid ≡ true
      → is_skipped host p part ≡ true
  unfolding is_skipped
  seen-is_skipped p part h = with_seen part.sidechain (is_empty part.uuid) h
    where
      with_seen :
          (a b : Bool) → has p.seen part.uuid ≡ true → (a || (b || has p.seen part.uuid)) ≡ true
      with_seen true b k = refl
      with_seen false true k = refl
      with_seen false false k = k

  -- A line that one projector folds is folded by any other that has not seen its id.
  unseen-is_skipped :
      (p q : Projector S) (part : TranscriptPart)
      → is_skipped host p part ≡ false
      → has q.seen part.uuid ≡ false
      → is_skipped host q part ≡ false
  unfolding is_skipped
  unseen-is_skipped p q part h absent = without_seen part.sidechain (is_empty part.uuid) h
    where
      without_seen :
          (a b : Bool)
          → (a || (b || has p.seen part.uuid)) ≡ false
          → (a || (b || has q.seen part.uuid)) ≡ false
      without_seen true b k = absurd (cc)
      without_seen false true k = absurd (cc)
      without_seen false false k = absent

  restarted_ends_turn :
      (s : S) (drawn : ℕ) (part : TranscriptPart) (turn parent : String)
      → open_turn (host.doc s).cells ("", "") ≡ (turn, parent)
      → is_empty turn ≡ false
      → is_skipped host (new_projector host s drawn) part ≡ false
      → part.kind ≡ PartKind.interrupted
      → ((ingest host (new_projector host s drawn) (part ∷ [])).store
          ≡ (host.append s (finished turn CellState.interrupted)).0)
        × ((ingest host (new_projector host s drawn) (part ∷ [])).current ≡ "")
  unfolding new_projector emit
  restarted_ends_turn s drawn part turn parent found some_turn new stopped =
      let p : Projector S = new_projector host s drawn in
      let at_turn : p.current ≡ turn = ap (λ r. r.0) found in
      let ended : ingest host p (part ∷ []) ≡ recorded host part (settled p, true) =
        ingest-interrupted p part refl new stopped
        ∙ ap (λ q. recorded host part (q, true))
            (settle_current-open p (ap is_empty at_turn ∙ some_turn)) in
      (
        ap (λ q. q.store) ended
            ∙ ap (λ t. (host.append s (finished t CellState.interrupted)).0) at_turn,
        ap (λ q. q.current) ended,
      )

  -- Where a projector that is open folded the line of an interruption that it had not seen, and then
  -- any later lines, reading that line once more changes nothing, while a projector that starts again
  -- on the same store folds it a second time: it ends the turn that is in flight by then as
  -- interrupted, writes that event, and has no open turn after it. The conditions are that the
  -- document, which holds the ids that a restart knows, has no id of the line after the later lines,
  -- and that a turn is in flight there. Where the document had no id of the line before, and an
  -- append makes the change that it is given or none, folding the interruption itself leaves none, so
  -- a projector that starts right after it has not seen the line.
  pub new_projector-interrupted :
      (laws : IsStore host) (p : Projector S) (part : TranscriptPart) (later : List TranscriptPart)
      (drawn : ℕ) (turn parent : String)
      → p.closed ≡ false
      → is_skipped host p part ≡ false
      → part.kind ≡ PartKind.interrupted
      → has (document_ids (host.doc p.store).cells) part.uuid ≡ false
      → has (document_ids (host.doc (ingest host p (part ∷ later)).store).cells) part.uuid ≡ false
      → open_turn (host.doc (ingest host p (part ∷ later)).store).cells ("", "") ≡ (turn, parent)
      → is_empty turn ≡ false
      → (ingest host (ingest host p (part ∷ later)) (part ∷ []) ≡ ingest host p (part ∷ later))
        × ((ingest host
              (new_projector host (ingest host p (part ∷ later)).store drawn)
              (part ∷ [])).store
            ≡ (host.append
                (ingest host p (part ∷ later)).store
                (finished turn CellState.interrupted)).0)
        × ((ingest host
              (new_projector host (ingest host p (part ∷ later)).store drawn)
              (part ∷ [])).current
            ≡ "")
        × (is_skipped host (new_projector host (ingest host p (part ∷ [])).store drawn) part
            ≡ false)
  unfolding new_projector
  new_projector-interrupted laws p part later drawn turn parent live new stopped absent absent_later
        found some_turn =
      let s : S = (ingest host p (part ∷ later)).store in
      let soon : S = (ingest host p (part ∷ [])).store in
      let (ended, none_open) =
        restarted_ends_turn s drawn part turn parent found some_turn
          (unseen-is_skipped p (new_projector host s drawn) part new absent_later) stopped in
      (
        ingest-skipped (ingest host p (part ∷ later)) part (
            seen-is_skipped (ingest host p (part ∷ later)) part
              (interrupted_seen p part later live new stopped)),
        ended,
        none_open,
        unseen-is_skipped p (new_projector host soon drawn) part new (
            ap (λ ids. has ids part.uuid) (document_ids-ingest laws p part live new stopped)
            ∙ absent),
      )
