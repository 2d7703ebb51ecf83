-- ===== src/Session/Bookkeeping.antt =====
-- What writing to the document leaves alone (src/nb_session.go: apply and what it calls).
use collectif.Common.{◌≡◌, refl, ◌∙◌, String, Bool, true, false, if◌then◌else◌}
use collectif.Notebook.Cells.{CellType, CellState, Output}
use collectif.Notebook.Events.{Change}
use collectif.Session.Part.{
  PartKind, TranscriptPart, user_text, assistant_text, compact_summary, other,
}
use collectif.Session.Projector.{
  Host, Projector, is_empty, emit, settle_current, open_cell, now_current, append_output, onto,
  adopt, taken_over, same_prompt, claimed, adopt_if, inserted,
}
use collectif.Session.Ingest.{apply_kind, apply, or_open}

-- Two states of a projector that agree in what only the ingestion keeps: the ids seen, the links to
-- children, the work held for them, and whether it is closed.
pub record SameBooks {S : Type 0} (p q : Projector S) : Type 0 where
  pub seen : q.seen ≡ p.seen
  pub links : q.links ≡ p.links
  pub held : q.held ≡ p.held
  pub closed : q.closed ≡ p.closed

module _ {S : Type 0} where
  pub SameBooks-refl : (p : Projector S) → SameBooks p p
  SameBooks-refl p = record { seen = refl; links = refl; held = refl; closed = refl }

  pub SameBooks-trans : (p q r : Projector S) → SameBooks p q → SameBooks q r → SameBooks p r
  SameBooks-trans p q r a b = record {
    seen = b.seen ∙ a.seen;
    links = b.links ∙ a.links;
    held = b.held ∙ a.held;
    closed = b.closed ∙ a.closed;
  }

module _ {S : Type 0} (host : Host S) where
  pub emit-SameBooks : (p : Projector S) (ch : Change) → SameBooks p (emit host p ch).0
  unfolding emit
  emit-SameBooks p ch = record { seen = refl; links = refl; held = refl; closed = refl }

  if-SameBooks :
      (b : Bool) (p x y : Projector S)
      → SameBooks p x
      → SameBooks p y
      → SameBooks p (if b then x else y)
  if-SameBooks true p x y a c = a
  if-SameBooks false p x y a c = c

  if_pair-SameBooks :
      (b : Bool) (p : Projector S) (x y : Projector S × Bool)
      → SameBooks p x.0
      → SameBooks p y.0
      → SameBooks p (if b then x else y).0
  if_pair-SameBooks true p x y a c = a
  if_pair-SameBooks false p x y a c = c

  pub settle_current-SameBooks :
      (st : CellState) (p : Projector S) → SameBooks p (settle_current host st p)
  unfolding settle_current
  settle_current-SameBooks st p =
      if-SameBooks (is_empty p.current) p _ _ (SameBooks-refl p)
        (record { seen = refl; links = refl; held = refl; closed = refl })

  now_current-SameBooks :
      (id : String) (p : Projector S) (r : Projector S × Bool)
      → SameBooks p r.0
      → SameBooks p (now_current host id r).0
  now_current-SameBooks id p (q, true) a = record {
    seen = a.seen;
    links = a.links;
    held = a.held;
    closed = a.closed;
  }
  now_current-SameBooks id p (q, false) a = a

  open_cell-SameBooks :
      (p : Projector S) (kind : CellType) (source provenance uuid model : String) (st : CellState)
      → SameBooks p (open_cell host p kind source provenance uuid model st).0
  unfolding open_cell
  open_cell-SameBooks p kind source provenance uuid model st =
      now_current-SameBooks (host.fresh_id p.ids_drawn) p
        (inserted host p kind source provenance uuid model st)
        (record { seen = refl; links = refl; held = refl; closed = refl })

  onto-SameBooks :
      (out : Output) (p : Projector S) (r : Projector S × Bool)
      → SameBooks p r.0
      → SameBooks p (onto host out r).0
  unfolding emit
  onto-SameBooks out p (q, true) a = record {
    seen = a.seen;
    links = a.links;
    held = a.held;
    closed = a.closed;
  }
  onto-SameBooks out p (q, false) a = a

  append_output-SameBooks :
      (p : Projector S) (part : TranscriptPart) (out : Output)
      → SameBooks p (append_output host p part out).0
  unfolding append_output
  append_output-SameBooks p part out = onto-SameBooks out p _ (
      if_pair-SameBooks (is_empty p.current) p _ _ (open_cell-SameBooks p _ _ _ _ _ _)
        (SameBooks-refl p))

  taken_over-SameBooks :
      (part : TranscriptPart) (cell : String) (p : Projector S) (r : Projector S × Bool)
      → SameBooks p r.0
      → SameBooks p (taken_over host part cell r).0
  taken_over-SameBooks part cell p (q, true) a = record {
    seen = a.seen;
    links = a.links;
    held = a.held;
    closed = a.closed;
  }
  taken_over-SameBooks part cell p (q, false) a = a

  adopt_if-SameBooks :
      (b : Bool) (p : Projector S) (part : TranscriptPart) → SameBooks p (adopt_if host b p part).0
  unfolding emit
  adopt_if-SameBooks true p part =
      taken_over-SameBooks part p.adopt_cell p (claimed host p part)
        (record { seen = refl; links = refl; held = refl; closed = refl })
  adopt_if-SameBooks false p part = record { seen = refl; links = refl; held = refl; closed = refl }

  adopt-SameBooks : (p : Projector S) (part : TranscriptPart) → SameBooks p (adopt host p part).0
  unfolding adopt
  adopt-SameBooks p part =
      if_pair-SameBooks (is_empty p.adopt_cell) p (p, false)
        (adopt_if host (same_prompt host part.text p.adopt_text) p part) (SameBooks-refl p)
        (adopt_if-SameBooks (same_prompt host part.text p.adopt_text) p part)

  or_open-SameBooks :
      (part : TranscriptPart) (p : Projector S) (r : Projector S × Bool)
      → SameBooks p r.0
      → SameBooks p (or_open host part r).0
  or_open-SameBooks part p (q, true) a = a
  or_open-SameBooks part p (q, false) a =
      let b : SameBooks q (or_open host part (q, false)).0 =
        (let o =
            open_cell-SameBooks (record q { pending_parent = part.parent_uuid }) CellType.prompt
              part.text "mirrored" part.uuid part.model CellState.running in
          record { seen = o.seen; links = o.links; held = o.held; closed = o.closed }) in
      SameBooks-trans p q _ a b

  apply_kind-SameBooks :
      (k : PartKind) (p : Projector S) (part : TranscriptPart)
      → SameBooks p (apply_kind host k p part).0
  unfolding apply_kind
  apply_kind-SameBooks user_text p part = or_open-SameBooks part p _ (
      SameBooks-trans p (settle_current host _ p) _ (settle_current-SameBooks _ p)
        (adopt-SameBooks _ part))
  apply_kind-SameBooks compact_summary p part =
      let o =
        open_cell-SameBooks (settle_current host CellState.success p) CellType.markdown part.text
          "compact" part.uuid "" CellState.success in
      SameBooks-trans p (settle_current host CellState.success p) _ (settle_current-SameBooks _ p)
        (record { seen = o.seen; links = o.links; held = o.held; closed = o.closed })
  apply_kind-SameBooks PartKind.interrupted p part = settle_current-SameBooks _ p
  apply_kind-SameBooks PartKind.injection p part = append_output-SameBooks p part _
  apply_kind-SameBooks assistant_text p part = append_output-SameBooks p part _
  apply_kind-SameBooks PartKind.thinking p part = append_output-SameBooks p part _
  apply_kind-SameBooks PartKind.tool_call p part = append_output-SameBooks p part _
  apply_kind-SameBooks PartKind.tool_result p part = append_output-SameBooks p part _
  apply_kind-SameBooks (other s) p part = SameBooks-refl p

  -- Folding a part keeps the books; marking it seen is the caller's.
  pub apply-SameBooks :
      (p : Projector S) (part : TranscriptPart) → SameBooks p (apply host p part).0
  unfolding apply
  apply-SameBooks p part = apply_kind-SameBooks part.kind p part
