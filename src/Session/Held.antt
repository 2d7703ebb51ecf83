-- ===== src/Session/Held.antt =====
-- Work held for children that nothing has claimed (src/nb_session.go: IngestSubagent).
use collectif.Common.{
  ◌-◌, ◌≤◌, ◌≡◌, String, Bool, true, false, ◌||◌, Option, none, some, List, [], ◌∷◌, ◌++◌, arith,
  length, length-drop, str_eq, if◌then◌else◌,
}
use mathlib.Core.Path.{subst⁻¹}
use collectif.Notebook.Cells.{CellState, Output}
use collectif.Session.Part.{TranscriptPart}
use collectif.Session.Projector.{
  Host, SubagentLink, Projector, is_empty, lookup, without, parts_of, max_held, emit,
  settle_current, landed,
}
use collectif.Session.Ingest.{
  apply, link_subagent, linked, recorded, is_skipped, folded, ingest_part, ingest_parts,
  child_landed, subagent_output, ingest_child, ingest_children, latest, held_or_landed,
  ingest_subagent, released, release_held, ingest,
}
use collectif.Session.Lifecycle.{
  await_adoption, give_up, cancel_adoption, close, Call, ingests, ingests_subagent, awaits,
  gives_up, cancels, closes, perform, performs,
}
use collectif.Session.Bookkeeping.{apply-SameBooks, settle_current-SameBooks}

abbrev pub AllShort : List (String × List TranscriptPart) → Type 0
AllShort [] = Unit
AllShort ((agent, parts) ∷ m) = (length parts ≤ max_held) × AllShort m

-- No child has more work held than the bound.
abbrev pub IsBounded : {S : Type 0} → Projector S → Type 0
IsBounded p = AllShort p.held

length-latest : (ps : List TranscriptPart) → length (latest ps) ≤ max_held
length-latest ps = omega (arith, length-drop (length ps - max_held) ps)

kept_if :
    (b : Bool) (a : String) (ps : List TranscriptPart) (m m' : List (String × List TranscriptPart))
    → length ps ≤ max_held
    → AllShort m'
    → AllShort (if b then m' else (a, ps) ∷ m')
kept_if true a ps m m' h hs = hs
kept_if false a ps m m' h hs = (h, hs)

AllShort-without :
    (m : List (String × List TranscriptPart)) (agent : String)
    → AllShort m
    → AllShort (without m agent)
unfolding without
AllShort-without [] agent h = tt
AllShort-without ((a, ps) ∷ m) agent (h, hs) =
    kept_if (str_eq a agent) a ps m (without m agent) h (AllShort-without m agent hs)

module _ {S : Type 0} (host : Host S) where
  same_held : (p q : Projector S) → q.held ≡ p.held → IsBounded p → IsBounded q
  same_held p q e h = subst⁻¹ AllShort e h

  if-IsBounded :
      (b : Bool) (p q : Projector S) → IsBounded p → IsBounded q → IsBounded (if b then p else q)
  if-IsBounded true p q h k = h
  if-IsBounded false p q h k = k

  recorded-IsBounded :
      (part : TranscriptPart) (r : Projector S × Bool)
      → IsBounded r.0
      → IsBounded (recorded host part r)
  recorded-IsBounded part (p, true) h = h
  recorded-IsBounded part (p, false) h = h

  linked-IsBounded :
      (l : Option SubagentLink) (p : Projector S) (part : TranscriptPart)
      → IsBounded p
      → IsBounded (linked host l p part).0
  linked-IsBounded none p part h = h
  linked-IsBounded (some l) p part h = h

  link_if-IsBounded :
      (b : Bool) (p : Projector S) (part : TranscriptPart)
      → IsBounded p
      → IsBounded (if b then linked host (lookup p.links part.agent_id) p part else (p, [])).0
  link_if-IsBounded true p part h = linked-IsBounded (lookup p.links part.agent_id) p part h
  link_if-IsBounded false p part h = h

  part_if-IsBounded :
      (b : Bool) (p : Projector S) (part : TranscriptPart)
      → IsBounded p
      → IsBounded (if b then (p, []) else folded host (link_subagent host p part) part).0
  part_if-IsBounded true p part h = h
  part_if-IsBounded false p part h =
      let q : Projector S = (link_subagent host p part).0 in
      let linked_bound : IsBounded q = unfold link_subagent in link_if-IsBounded _ p part h in
      recorded-IsBounded part (apply host q part)
        (same_held q (apply host q part).0 (apply-SameBooks host q part).held linked_bound)

  ingest_parts-IsBounded :
      (p : Projector S) (parts : List TranscriptPart)
      → IsBounded p
      → IsBounded (ingest_parts host p parts).0
  unfolding ingest_parts
  ingest_parts-IsBounded p [] h = h
  ingest_parts-IsBounded p (part ∷ parts) h =
      ingest_parts-IsBounded (ingest_part host p part).0 parts
        (unfold ingest_part in (part_if-IsBounded (is_skipped host p part) p part h))

  child_landed-IsBounded :
      (link : SubagentLink) (o : Option Output) (p : Projector S) (part : TranscriptPart)
      → IsBounded p
      → IsBounded (child_landed host link o p part)
  unfolding emit
  child_landed-IsBounded link none p part h = h
  child_landed-IsBounded link (some out) p part h =
      recorded-IsBounded part (emit host p (landed link.cell_id out)) h

  ingest_child-IsBounded :
      (link : SubagentLink) (agent : String) (p : Projector S) (part : TranscriptPart)
      → IsBounded p
      → IsBounded (ingest_child host link agent p part)
  unfolding ingest_child
  ingest_child-IsBounded link agent p part h =
      if-IsBounded (is_empty part.uuid || _) p
        (child_landed host link (subagent_output host part.kind link agent part) p part) h
        (child_landed-IsBounded link (subagent_output host part.kind link agent part) p part h)

  ingest_children-IsBounded :
      (link : SubagentLink) (agent : String) (p : Projector S) (parts : List TranscriptPart)
      → IsBounded p
      → IsBounded (ingest_children host link agent p parts)
  unfolding ingest_children
  ingest_children-IsBounded link agent p [] h = h
  ingest_children-IsBounded link agent p (part ∷ parts) h =
      ingest_children-IsBounded link agent (ingest_child host link agent p part) parts
        (ingest_child-IsBounded link agent p part h)

  held_or_landed-IsBounded :
      (l : Option SubagentLink) (agent : String) (p : Projector S) (parts : List TranscriptPart)
      → IsBounded p
      → IsBounded (held_or_landed host l agent p parts)
  held_or_landed-IsBounded (some link) agent p parts h =
      ingest_children-IsBounded link agent p parts h
  held_or_landed-IsBounded none agent p parts h =
      (length-latest (parts_of (lookup p.held agent) ++ parts), AllShort-without p.held agent h)

  ingest_subagent-IsBounded :
      (agent : String) (p : Projector S) (parts : List TranscriptPart)
      → IsBounded p
      → IsBounded (ingest_subagent host agent p parts)
  unfolding ingest_subagent
  ingest_subagent-IsBounded agent p parts h =
      if-IsBounded (p.closed || is_empty agent) p
        (held_or_landed host (lookup p.links agent) agent p parts) h
        (held_or_landed-IsBounded (lookup p.links agent) agent p parts h)

  released-IsBounded :
      (parts : List TranscriptPart) (agent : String) (p : Projector S)
      → IsBounded p
      → IsBounded (released host parts agent p)
  released-IsBounded [] agent p h = h
  released-IsBounded (part ∷ parts) agent p h = ingest_subagent-IsBounded agent p (part ∷ parts) h

  release_held-IsBounded :
      (p : Projector S) (agents : List String)
      → IsBounded p
      → IsBounded (release_held host p agents)
  unfolding release_held
  release_held-IsBounded p [] h = h
  release_held-IsBounded p (agent ∷ agents) h =
      let rest : Projector S = record p { held = without p.held agent } in
      release_held-IsBounded (released host (parts_of (lookup p.held agent)) agent rest) agents (
        released-IsBounded (parts_of (lookup p.held agent)) agent rest
          (AllShort-without p.held agent h))

  perform-IsBounded : (p : Projector S) (c : Call) → IsBounded p → IsBounded (perform host p c)
  unfolding perform ingest close give_up await_adoption cancel_adoption emit
  perform-IsBounded p (ingests parts) h = if-IsBounded p.closed p _ h (
      release_held-IsBounded (ingest_parts host p parts).0 (ingest_parts host p parts).1
        (ingest_parts-IsBounded p parts h))
  perform-IsBounded p (ingests_subagent agent parts) h = ingest_subagent-IsBounded agent p parts h
  perform-IsBounded p (awaits cell source) h = h
  perform-IsBounded p (gives_up cell gen) h = if-IsBounded _ p _ h h
  perform-IsBounded p (cancels cell) h = if-IsBounded _ _ p h h
  perform-IsBounded p closes h = if-IsBounded p.closed p _ h (
      same_held p (settle_current host CellState.success (record p { closed = true }))
        (settle_current-SameBooks host CellState.success (record p { closed = true })).held h)

  -- However many parts children report, in whatever order with the other calls, no more than 200 are
  -- held for any child, if no more are held for any at the start.
  pub performs-IsBounded :
      (p : Projector S) (cs : List Call) → IsBounded p → IsBounded (performs host p cs)
  unfolding performs
  performs-IsBounded p [] h = h
  performs-IsBounded p (c ∷ cs) h =
      performs-IsBounded (perform host p c) cs (perform-IsBounded p c h)
