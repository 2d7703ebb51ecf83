-- ===== src/Session/Adoption.antt =====
-- A prompt that was sent from its own cell (src/nb_session.go: AwaitAdoptionFor, adopt,
-- giveUpOnAdoption).
use collectif.Common.{
  ℕ, ◌≡◌, refl, ap, ◌∙◌, ◌==◌, String, Bool, true, false, ◌&&◌, ◌||◌, not, [], ◌∷◌, ◌++◌, str_eq,
  if◌then◌else◌, arith,
}
use mathlib.Core.Path.{subst⁻¹}
use collectif.Notebook.Cells.{CellState}
use collectif.Session.Part.{TranscriptPart, user_text}
use collectif.Session.Projector.{
  Host, Projector, is_empty, emit, settle_current, adopt, adopt_if, claimed, taken_over,
  same_prompt, next_gen, lookup,
}
use collectif.Session.Ingest.{
  apply_kind, apply, or_open, ended_by, link_subagent, linked, recorded, is_result, is_skipped,
  folded, ingest_parts, release_held, ingest,
}
use collectif.Session.Lifecycle.{give_up}
use collectif.Session.Again.{IsReliable, ingest-live, ingest_part-new}

-- Two states that await the same cell and have drawn as many ids.
record SameAwaited {S : Type 0} (p q : Projector S) : Type 0 where
  cell : q.adopt_cell ≡ p.adopt_cell
  text : q.adopt_text ≡ p.adopt_text
  gen : q.adopt_gen ≡ p.adopt_gen
  drawn : q.ids_drawn ≡ p.ids_drawn

-- The cell awaited is the turn's from here on, nothing is awaited, and no cell was opened; the timer
-- that was set for it changes nothing when it fires.
pub record IsAdopted {S : Type 0} (host : Host S) (p q : Projector S) (part : TranscriptPart)
    : Type 0 where
  pub current : q.current ≡ p.adopt_cell
  pub parent : q.current_parent ≡ part.parent_uuid
  pub nothing_awaited : q.adopt_cell ≡ ""
  pub no_cell_opened : q.ids_drawn ≡ p.ids_drawn
  pub timer : give_up host p.adopt_cell p.adopt_gen q ≡ q

next_gen-ne : (g : ℕ) → (next_gen g == g) ≡ false
next_gen-ne g = ground arith

module _ {S : Type 0} (host : Host S) where
  stale_if :
      (shut same more : Bool) (p q : Projector S)
      → same ≡ false
      → (if shut || (not same || more) then p else q) ≡ p
  stale_if true same more p q h = refl
  stale_if false true more p q h = absurd (cc)
  stale_if false false more p q h = refl

  -- A timer of another generation does nothing.
  give_up-stale :
      (cell : String) (gen : ℕ) (p : Projector S)
      → (p.adopt_gen == gen) ≡ false
      → give_up host cell gen p ≡ p
  unfolding give_up
  give_up-stale cell gen p h =
      stale_if p.closed (p.adopt_gen == gen) (not (str_eq p.adopt_cell cell)) p _ h

  settled_if : (b : Bool) (p q : Projector S) → SameAwaited p q → SameAwaited p (if b then p else q)
  settled_if true p q h = record { cell = refl; text = refl; gen = refl; drawn = refl }
  settled_if false p q h = h

  settle_current-SameAwaited :
      (st : CellState) (p : Projector S) → SameAwaited p (settle_current host st p)
  unfolding settle_current
  settle_current-SameAwaited st p =
      settled_if (is_empty p.current) p _
        (record { cell = refl; text = refl; gen = refl; drawn = refl })

  abbrev turned : Projector S → TranscriptPart → Projector S
  turned p part = record (claimed host p part).0 {
    current = p.adopt_cell;
    current_parent = part.parent_uuid;
  }

  taken_over-ok :
      (part : TranscriptPart) (cell : String) (r : Projector S × Bool)
      → r.1 ≡ true
      → taken_over host part cell r
        ≡ (record r.0 { current = cell; current_parent = part.parent_uuid }, true)
  taken_over-ok part cell (p, true) h = refl
  taken_over-ok part cell (p, false) h = absurd (cc)

  module _ (reliable : IsReliable host) where
    adopt-same :
        (p : Projector S) (part : TranscriptPart)
        → is_empty p.adopt_cell ≡ false
        → same_prompt host part.text p.adopt_text ≡ true
        → adopt host p part ≡ (turned p part, true)
    unfolding adopt emit
    adopt-same p part some_cell same =
        ap
          (λ b.
            if b
            then (p, false)
            else adopt_if host (same_prompt host part.text p.adopt_text) p part)
          some_cell
        ∙ ap (λ b. adopt_if host b p part) same
        ∙ taken_over-ok part p.adopt_cell (claimed host p part) (reliable p.store _)

    -- What an adopting part leaves: the turn, and the part seen.
    abbrev turned_seen : Projector S → TranscriptPart → Projector S
    turned_seen p part =
        let settled = settle_current host (ended_by host p part) p in
        record (turned settled part) { seen = part.uuid ∷ (turned settled part).seen }

    apply-adopting :
        (p : Projector S) (part : TranscriptPart)
        → part.kind ≡ user_text
        → is_empty p.adopt_cell ≡ false
        → same_prompt host part.text p.adopt_text ≡ true
        → apply host p part ≡ (turned (settle_current host (ended_by host p part) p) part, true)
    unfolding apply apply_kind
    apply-adopting p part prompted some_cell same =
        let settled : Projector S = settle_current host (ended_by host p part) p in
        let a : SameAwaited p settled = settle_current-SameAwaited (ended_by host p part) p in
        ap (λ k. apply_kind host k p part) prompted
        ∙ ap (or_open host part) (
            adopt-same settled part (ap is_empty a.cell ∙ some_cell)
              (ap (same_prompt host part.text) a.text ∙ same))

    link_subagent-prompt :
        (p : Projector S) (part : TranscriptPart)
        → part.kind ≡ user_text
        → link_subagent host p part ≡ (p, [])
    unfolding link_subagent
    link_subagent-prompt p part prompted =
        ap
          (λ k.
            if is_result k && (not (is_empty part.agent_id) && not (is_empty p.current))
            then linked host (lookup p.links part.agent_id) p part
            else (p, []))
          prompted

    ingest-adopting :
        (p : Projector S) (part : TranscriptPart)
        → p.closed ≡ false
        → is_skipped host p part ≡ false
        → part.kind ≡ user_text
        → is_empty p.adopt_cell ≡ false
        → same_prompt host part.text p.adopt_text ≡ true
        → ingest host p (part ∷ []) ≡ turned_seen p part
    unfolding ingest_parts release_held
    ingest-adopting p part live new prompted some_cell same =
        ingest-live host p (part ∷ []) live
        ∙ ap (λ r. release_held host r.0 (r.1 ++ []))
            (ingest_part-new host p part new
              ∙ ap (λ r. folded host r part) (link_subagent-prompt p part prompted)
              ∙ ap (λ r. (recorded host part r, []))
                  (apply-adopting p part prompted some_cell same))

    turned_seen-IsAdopted :
        (p : Projector S) (part : TranscriptPart)
        → is_empty p.adopt_cell ≡ false
        → IsAdopted host p (turned_seen p part) part
    unfolding emit give_up
    turned_seen-IsAdopted p part some_cell =
        let a : SameAwaited p (settle_current host (ended_by host p part) p) =
          settle_current-SameAwaited (ended_by host p part) p in
        record {
          current = a.cell;
          parent = refl;
          nothing_awaited = refl;
          no_cell_opened = a.drawn;
          timer =
              give_up-stale p.adopt_cell p.adopt_gen (turned_seen p part)
                (ap (λ g. next_gen g == p.adopt_gen) a.gen ∙ next_gen-ne p.adopt_gen);
        }

    -- Where the store takes every append, a prompt that comes back in the transcript with the text,
    -- spaces around it aside, that a cell was sent with becomes that cell's turn: no second cell is
    -- opened for it, nothing is awaited any more, and the timer set for the cell changes nothing.
    pub ingest-IsAdopted :
        (p : Projector S) (part : TranscriptPart)
        → p.closed ≡ false
        → is_skipped host p part ≡ false
        → part.kind ≡ user_text
        → is_empty p.adopt_cell ≡ false
        → same_prompt host part.text p.adopt_text ≡ true
        → IsAdopted host p (ingest host p (part ∷ [])) part
    ingest-IsAdopted p part live new prompted some_cell same =
        subst⁻¹ (λ q. IsAdopted host p q part)
          (ingest-adopting p part live new prompted some_cell same)
          (turned_seen-IsAdopted p part some_cell)
