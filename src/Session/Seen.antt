-- ===== src/Session/Seen.antt =====
-- Which ids a projector has seen (src/nb_session.go: apply, Ingest, IngestSubagent).
use collectif.Common.{
  ◌≡◌, refl, ap, ◌∙◌, String, Bool, true, false, Option, none, some, List, [], ◌∷◌, if◌then◌else◌,
  ◌&&◌, ◌||◌, not, eq_iff, str_eq,
}
use collectif.Notebook.Cells.{Output}
use collectif.Session.Part.{PartKind, TranscriptPart, other}
use collectif.Session.Projector.{
  Host, SubagentLink, Projector, is_empty, has, lookup, without, parts_of, landed, emit,
}
use collectif.Session.Ingest.{
  apply, is_result, link_subagent, linked, recorded, is_skipped, folded, ingest_part, ingest_parts,
  child_landed, subagent_output, ingest_child, ingest_children, held_or_landed, ingest_subagent,
  released, release_held,
}
use collectif.Session.Bookkeeping.{emit-SameBooks, apply-SameBooks}

abbrev pub is_other : PartKind → Bool
is_other (other _) = true
is_other _ = false

-- Every id that the one has seen the other has seen.
abbrev pub Grows : {S : Type 0} → Projector S → Projector S → Type 0
Grows p q = (id : String) → has p.seen id ≡ true → has q.seen id ≡ true

pub has_head : (id : String) (ids : List String) → has (id ∷ ids) id ≡ true
unfolding has
has_head id ids = rw ((eq_iff id id).1 refl) refl

has_tail : (x id : String) (ids : List String) → has ids id ≡ true → has (x ∷ ids) id ≡ true
unfolding has
has_tail x id ids h = rw h (or_true (str_eq x id))
  where
    or_true : (b : Bool) → (b || true) ≡ true
    or_true true = refl
    or_true false = refl

module _ {S : Type 0} (host : Host S) where
  same_seen-Grows : (p q : Projector S) → q.seen ≡ p.seen → Grows p q
  same_seen-Grows p q h id s = ap (λ ids. has ids id) h ∙ s

  recorded-Grows :
      (part : TranscriptPart) (p : Projector S) (r : Projector S × Bool)
      → Grows p r.0
      → Grows p (recorded host part r)
  recorded-Grows part p (q, true) g id s = has_tail part.uuid id q.seen (g id s)
  recorded-Grows part p (q, false) g id s = g id s

  apply-Grows :
      (p : Projector S) (part : TranscriptPart) → Grows p (recorded host part (apply host p part))
  apply-Grows p part =
      recorded-Grows part p (apply host p part)
        (same_seen-Grows p (apply host p part).0 (apply-SameBooks host p part).seen)

  if-Grows : (b : Bool) (p x y : Projector S) → Grows p x → Grows p y → Grows p (if b then x else y)
  if-Grows true p x y g h = g
  if-Grows false p x y g h = h

  linked-seen :
      (l : Option SubagentLink) (p : Projector S) (part : TranscriptPart)
      → (linked host l p part).0.seen ≡ p.seen
  linked-seen none p part = refl
  linked-seen (some l) p part = refl

  link_if-seen :
      (b : Bool) (p : Projector S) (part : TranscriptPart)
      → (if b then linked host (lookup p.links part.agent_id) p part else (p, [])).0.seen ≡ p.seen
  link_if-seen true p part = linked-seen (lookup p.links part.agent_id) p part
  link_if-seen false p part = refl

  link_subagent-seen :
      (p : Projector S) (part : TranscriptPart) → (link_subagent host p part).0.seen ≡ p.seen
  unfolding link_subagent
  link_subagent-seen p part =
      link_if-seen
        (is_result part.kind && (not (is_empty part.agent_id) && not (is_empty p.current))) p part

  part_if-Grows :
      (b : Bool) (p : Projector S) (part : TranscriptPart)
      → Grows p (if b then (p, []) else folded host (link_subagent host p part) part).0
  part_if-Grows true p part id s = s
  part_if-Grows false p part id s =
      apply-Grows (link_subagent host p part).0 part id
        (ap (λ ids. has ids id) (link_subagent-seen p part) ∙ s)

  pub ingest_part-Grows :
      (p : Projector S) (part : TranscriptPart) → Grows p (ingest_part host p part).0
  unfolding ingest_part
  ingest_part-Grows p part = part_if-Grows (is_skipped host p part) p part

  pub ingest_parts-Grows :
      (p : Projector S) (parts : List TranscriptPart) → Grows p (ingest_parts host p parts).0
  unfolding ingest_parts
  ingest_parts-Grows p [] id s = s
  ingest_parts-Grows p (part ∷ parts) id s =
      ingest_parts-Grows (ingest_part host p part).0 parts id (ingest_part-Grows p part id s)

  child_landed-Grows :
      (link : SubagentLink) (o : Option Output) (p : Projector S) (part : TranscriptPart)
      → Grows p (child_landed host link o p part)
  child_landed-Grows link none p part id s = s
  child_landed-Grows link (some out) p part id s =
      let r : Projector S × Bool = emit host p (landed link.cell_id out) in
      recorded-Grows part p r
        (same_seen-Grows p r.0 (emit-SameBooks host p (landed link.cell_id out)).seen) id s

  ingest_child-Grows :
      (link : SubagentLink) (agent : String) (p : Projector S) (part : TranscriptPart)
      → Grows p (ingest_child host link agent p part)
  unfolding ingest_child
  ingest_child-Grows link agent p part =
      if-Grows (is_empty part.uuid || has p.seen part.uuid) p p
        (child_landed host link (subagent_output host part.kind link agent part) p part) (λ id s. s)
        (child_landed-Grows link (subagent_output host part.kind link agent part) p part)

  ingest_children-Grows :
      (link : SubagentLink) (agent : String) (p : Projector S) (parts : List TranscriptPart)
      → Grows p (ingest_children host link agent p parts)
  unfolding ingest_children
  ingest_children-Grows link agent p [] id s = s
  ingest_children-Grows link agent p (part ∷ parts) id s =
      ingest_children-Grows link agent (ingest_child host link agent p part) parts id
        (ingest_child-Grows link agent p part id s)

  held_or_landed-Grows :
      (l : Option SubagentLink) (agent : String) (p : Projector S) (parts : List TranscriptPart)
      → Grows p (held_or_landed host l agent p parts)
  held_or_landed-Grows none agent p parts id s = s
  held_or_landed-Grows (some link) agent p parts id s =
      ingest_children-Grows link agent p parts id s

  ingest_subagent-Grows :
      (agent : String) (p : Projector S) (parts : List TranscriptPart)
      → Grows p (ingest_subagent host agent p parts)
  unfolding ingest_subagent
  ingest_subagent-Grows agent p parts =
      if-Grows (p.closed || is_empty agent) p p
        (held_or_landed host (lookup p.links agent) agent p parts) (λ id s. s)
        (held_or_landed-Grows (lookup p.links agent) agent p parts)

  released-Grows :
      (parts : List TranscriptPart) (agent : String) (p : Projector S)
      → Grows p (released host parts agent p)
  released-Grows [] agent p id s = s
  released-Grows (part ∷ parts) agent p id s = ingest_subagent-Grows agent p (part ∷ parts) id s

  pub release_held-Grows :
      (p : Projector S) (agents : List String) → Grows p (release_held host p agents)
  unfolding release_held
  release_held-Grows p [] id s = s
  release_held-Grows p (agent ∷ agents) id s =
      release_held-Grows
        (released host (parts_of (lookup p.held agent)) agent
          (record p { held = without p.held agent }))
        agents id
        (released-Grows (parts_of (lookup p.held agent)) agent
          (record p { held = without p.held agent }) id s)
