-- ===== src/Session/Again.antt =====
-- Reading the same lines again (src/nb_session.go: Ingest).
use collectif.Common.{
  ◌≡◌, refl, sym, ap, ◌∙◌, String, Bool, true, false, Bool-cases, inl, inr, ◌⊎◌, List, [], ◌∷◌,
  ◌++◌, if◌then◌else◌, ◌&&◌, ◌||◌, not,
}
use mathlib.Core.Path.{subst⁻¹}
use collectif.Notebook.Cells.{CellType, CellState, Output}
use collectif.Notebook.Events.{Change}
use collectif.Session.Part.{
  PartKind, TranscriptPart, user_text, assistant_text, compact_summary, other,
}
use collectif.Session.Projector.{
  Host, Projector, is_empty, lookup, has, emit, open_cell, now_current, inserted, append_output,
  onto,
}
use collectif.Session.Ingest.{
  apply_kind, apply, or_open, link_subagent, linked, is_result, recorded, is_skipped, folded,
  ingest_part, ingest_parts, release_held, ingest,
}
use collectif.Session.Seen.{is_other, Grows, has_head, ingest_parts-Grows, release_held-Grows}

-- A store whose appends go through.
abbrev pub IsReliable : {S : Type 0} → Host S → Type 0
IsReliable {S} host = (s : S) (ch : Change) → (host.append s ch).1 ≡ true

module _ {S : Type 0} (host : Host S) where
  now_current_flag :
      (id : String) (r : Projector S × Bool) → r.1 ≡ true → (now_current host id r).1 ≡ true
  now_current_flag id (p, true) h = refl
  now_current_flag id (p, false) h = h

  module _ (reliable : IsReliable host) where
    pub emit_flag : (p : Projector S) (ch : Change) → (emit host p ch).1 ≡ true
    unfolding emit
    emit_flag p ch = reliable p.store ch

    onto_flag : (out : Output) (r : Projector S × Bool) → r.1 ≡ true → (onto host out r).1 ≡ true
    onto_flag out (p, true) h = emit_flag p _
    onto_flag out (p, false) h = h

    open_cell_flag :
        (p : Projector S) (kind : CellType) (source provenance uuid model : String) (st : CellState)
        → (open_cell host p kind source provenance uuid model st).1 ≡ true
    unfolding open_cell emit
    open_cell_flag p kind source provenance uuid model st =
        now_current_flag (host.fresh_id p.ids_drawn)
          (inserted host p kind source provenance uuid model st) (reliable p.store _)

    if_flag :
        (b : Bool) (x y : Projector S × Bool)
        → x.1 ≡ true
        → y.1 ≡ true
        → (if b then x else y).1 ≡ true
    if_flag true x y h k = h
    if_flag false x y h k = k

    append_output_flag :
        (p : Projector S) (part : TranscriptPart) (out : Output)
        → (append_output host p part out).1 ≡ true
    unfolding append_output
    append_output_flag p part out = onto_flag out _ (
        if_flag (is_empty p.current)
          (open_cell host p CellType.prompt "" "mirrored" "" part.model CellState.running) (p, true)
          (open_cell_flag p _ _ _ _ _ _) refl)

    or_open_flag : (part : TranscriptPart) (r : Projector S × Bool) → (or_open host part r).1 ≡ true
    or_open_flag part (p, true) = refl
    or_open_flag part (p, false) = open_cell_flag _ _ _ _ _ _ _

    pub apply_kind_flag :
        (k : PartKind) (p : Projector S) (part : TranscriptPart)
        → is_other k ≡ false
        → (apply_kind host k p part).1 ≡ true
    unfolding apply_kind
    apply_kind_flag user_text p part h = or_open_flag part _
    apply_kind_flag compact_summary p part h = open_cell_flag _ _ _ _ _ _ _
    apply_kind_flag PartKind.interrupted p part h = refl
    apply_kind_flag PartKind.injection p part h = append_output_flag p part _
    apply_kind_flag assistant_text p part h = append_output_flag p part _
    apply_kind_flag PartKind.thinking p part h = append_output_flag p part _
    apply_kind_flag PartKind.tool_call p part h = append_output_flag p part _
    apply_kind_flag PartKind.tool_result p part h = append_output_flag p part _
    apply_kind_flag (other s) p part h = absurd (cc)

  -- A part that ingesting does not change anything for.
  abbrev Settled : Projector S → TranscriptPart → Type 0
  Settled p part = (is_skipped host p part ≡ true) ⊎ (is_other part.kind ≡ true)

  abbrev AllSettled : Projector S → List TranscriptPart → Type 0
  AllSettled p [] = Unit
  AllSettled p (part ∷ parts) = Settled p part × AllSettled p parts

  apply_kind-other :
      (k : PartKind) (p : Projector S) (part : TranscriptPart)
      → is_other k ≡ true
      → (is_result k ≡ false) × (apply_kind host k p part ≡ (p, false))
  unfolding apply_kind
  apply_kind-other (other s) p part h = (refl, refl)
  apply_kind-other user_text p part h = absurd (cc)
  apply_kind-other _ p part h = absurd (cc)

  link_subagent-other :
      (p : Projector S) (part : TranscriptPart)
      → is_result part.kind ≡ false
      → link_subagent host p part ≡ (p, [])
  unfolding link_subagent
  link_subagent-other p part h =
      ap
        (λ b.
          if b && (not (is_empty part.agent_id) && not (is_empty p.current))
          then linked host (lookup p.links part.agent_id) p part
          else (p, []))
        h

  pub ingest_part-skipped :
      (p : Projector S) (part : TranscriptPart)
      → is_skipped host p part ≡ true
      → ingest_part host p part ≡ (p, [])
  unfolding ingest_part
  ingest_part-skipped p part h =
      ap (λ b. if b then (p, []) else folded host (link_subagent host p part) part) h

  pub ingest_part-new :
      (p : Projector S) (part : TranscriptPart)
      → is_skipped host p part ≡ false
      → ingest_part host p part ≡ folded host (link_subagent host p part) part
  unfolding ingest_part
  ingest_part-new p part h =
      ap (λ b. if b then (p, []) else folded host (link_subagent host p part) part) h

  ingest_part-Settled :
      (p : Projector S) (part : TranscriptPart) → Settled p part → ingest_part host p part ≡ (p, [])
  ingest_part-Settled p part (inl h) = ingest_part-skipped p part h
  ingest_part-Settled p part (inr h) = elim (Bool-cases (is_skipped host p part)) [
    | inl skipped ↦ ingest_part-skipped p part skipped
    | inr new ↦
        let (no_result, unchanged) = apply_kind-other part.kind p part h in
        let same : apply host p part ≡ (p, false) = unfold apply in unchanged in
        ingest_part-new p part new
        ∙ ap (λ r. folded host r part) (link_subagent-other p part no_result)
        ∙ ap (λ r. (recorded host part r, [])) same
  ]

  ingest_parts-AllSettled :
      (p : Projector S) (parts : List TranscriptPart)
      → AllSettled p parts
      → ingest_parts host p parts ≡ (p, [])
  unfolding ingest_parts
  ingest_parts-AllSettled p [] h = refl
  ingest_parts-AllSettled p (part ∷ parts) (h, hs) =
      ap (λ r. ((ingest_parts host r.0 parts).0, r.1 ++ (ingest_parts host r.0 parts).1))
        (ingest_part-Settled p part h)
      ∙ ap (λ r. (r.0, [] ++ r.1)) (ingest_parts-AllSettled p parts hs)

  Settled-Grows :
      (p q : Projector S) (part : TranscriptPart) → Grows p q → Settled p part → Settled q part
  unfolding is_skipped
  Settled-Grows p q part g (inr h) = inr h
  Settled-Grows p q part g (inl h) = inl (skipped_grows part.sidechain (is_empty part.uuid) h)
    where
      skipped_grows :
          (a b : Bool)
          → (a || (b || has p.seen part.uuid)) ≡ true
          → (a || (b || has q.seen part.uuid)) ≡ true
      skipped_grows true b k = refl
      skipped_grows false true k = refl
      skipped_grows false false k = g part.uuid k

  module _ (p : Projector S) (parts : List TranscriptPart) where
    pub ingest-closed : p.closed ≡ true → ingest host p parts ≡ p
    unfolding ingest
    ingest-closed h =
        ap
          (λ b.
            if b
            then p
            else release_held host (ingest_parts host p parts).0 (ingest_parts host p parts).1)
          h

    pub ingest-live :
        p.closed ≡ false
        → ingest host p parts
          ≡ release_held host (ingest_parts host p parts).0 (ingest_parts host p parts).1
    unfolding ingest
    ingest-live h =
        ap
          (λ b.
            if b
            then p
            else release_held host (ingest_parts host p parts).0 (ingest_parts host p parts).1)
          h

  module _ (reliable : IsReliable host) where
    pub recorded_seen :
        (part : TranscriptPart) (r : Projector S × Bool)
        → r.1 ≡ true
        → has (recorded host part r).seen part.uuid ≡ true
    recorded_seen part (p, true) h = has_head part.uuid p.seen
    recorded_seen part (p, false) h = absurd (cc)

    seen-Settled :
        (p : Projector S) (part : TranscriptPart) → has p.seen part.uuid ≡ true → Settled p part
    unfolding is_skipped
    seen-Settled p part h =
        inl (with_seen part.sidechain (is_empty part.uuid) (has p.seen part.uuid) h)
      where
        with_seen : (a b c : Bool) → c ≡ true → (a || (b || c)) ≡ true
        with_seen true b c k = refl
        with_seen false true c k = refl
        with_seen false false c k = k

    -- After its ingestion a part is settled.
    ingest_part_settles :
        (p : Projector S) (part : TranscriptPart) → Settled (ingest_part host p part).0 part
    ingest_part_settles p part = elim (Bool-cases (is_skipped host p part)) [
      | inl skipped ↦
          subst⁻¹ (λ r. Settled r.0 part) (ingest_part-skipped p part skipped) (inl skipped)
      | inr new ↦ elim (Bool-cases (is_other part.kind)) [
        | inl unknown ↦ inr unknown
        | inr known ↦
            subst⁻¹ (λ r. Settled r.0 part) (ingest_part-new p part new)
              (seen-Settled _ part (
                recorded_seen part (apply host (link_subagent host p part).0 part) (
                  unfold apply in
                  (apply_kind_flag reliable part.kind (link_subagent host p part).0 part known))))
      ]
    ]

    AllSettled-Grows :
        (p q : Projector S) (parts : List TranscriptPart)
        → Grows p q
        → AllSettled p parts
        → AllSettled q parts
    AllSettled-Grows p q [] g h = tt
    AllSettled-Grows p q (part ∷ parts) g (h, hs) =
        (Settled-Grows p q part g h, AllSettled-Grows p q parts g hs)

    pub ingest_parts_settles :
        (p : Projector S) (parts : List TranscriptPart)
        → AllSettled (ingest_parts host p parts).0 parts
    unfolding ingest_parts
    ingest_parts_settles p [] = tt
    ingest_parts_settles p (part ∷ parts) = (
      Settled-Grows (ingest_part host p part).0
          (ingest_parts host (ingest_part host p part).0 parts).0 part
          (ingest_parts-Grows host (ingest_part host p part).0 parts) (ingest_part_settles p part),
      ingest_parts_settles (ingest_part host p part).0 parts,
    )

    ingest_open :
        (p : Projector S) (parts : List TranscriptPart)
        → AllSettled p parts
        → ingest host p parts ≡ p
    unfolding ingest
    ingest_open p parts h = open_if p.closed
      where
        open_if :
            (b : Bool)
            → (if b
                then p
                else release_held host (ingest_parts host p parts).0 (ingest_parts host p parts).1)
              ≡ p
        open_if true = refl
        open_if false =
            ap (λ r. release_held host r.0 r.1) (ingest_parts-AllSettled p parts h)
            ∙ unfold release_held in refl

    -- Where the store takes every append, folding lines that were folded already changes nothing:
    -- neither the document nor anything that the projector keeps.
    pub ingest-ingest :
        (p : Projector S) (parts : List TranscriptPart)
        → ingest host (ingest host p parts) parts ≡ ingest host p parts
    ingest-ingest p parts = elim (Bool-cases p.closed) [
      | inl shut ↦ ap (λ x. ingest host x parts) (ingest-closed p parts shut)
      | inr live ↦
          let q : Projector S =
            release_held host (ingest_parts host p parts).0 (ingest_parts host p parts).1 in
          let once : ingest host p parts ≡ q = ingest-live p parts live in
          ap (λ x. ingest host x parts) once
          ∙ ingest_open q parts (
              AllSettled-Grows (ingest_parts host p parts).0 q parts
                (release_held-Grows host (ingest_parts host p parts).0
                  (ingest_parts host p parts).1)
                (ingest_parts_settles p parts))
          ∙ sym once
    ]
