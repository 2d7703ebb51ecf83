-- ===== src/Session/Line.antt =====
-- The parts of one transcript line, which share the line's id (src/nb_session.go: Ingest).
use collectif.Common.{
  ◌≡◌, refl, ap, ◌∙◌, String, Bool, true, false, ◌||◌, List, [], ◌∷◌, ◌++◌, if◌then◌else◌,
}
use collectif.Session.Part.{TranscriptPart}
use collectif.Session.Projector.{Host, Projector, is_empty, has}
use collectif.Session.Ingest.{
  apply, link_subagent, is_skipped, ingest_part, ingest_parts, release_held, ingest,
}
use collectif.Session.Seen.{is_other}
use collectif.Session.Again.{
  IsReliable, apply_kind_flag, recorded_seen, ingest_part-new, ingest_part-skipped,
}

abbrev pub AllFrom : String → List TranscriptPart → Type 0
AllFrom uuid [] = Unit
AllFrom uuid (part ∷ parts) = (part.uuid ≡ uuid) × AllFrom uuid parts

module _ {S : Type 0} (host : Host S) where
  seen-is_skipped :
      (p : Projector S) (part : TranscriptPart)
      → has p.seen part.uuid ≡ true
      → is_skipped host p part ≡ true
  unfolding is_skipped
  seen-is_skipped p part h = with_seen part.sidechain (is_empty part.uuid) (has p.seen part.uuid) h
    where
      with_seen : (a b c : Bool) → c ≡ true → (a || (b || c)) ≡ true
      with_seen true b c k = refl
      with_seen false true c k = refl
      with_seen false false c k = k

  ingest_parts-from_seen :
      (p : Projector S) (uuid : String) (parts : List TranscriptPart)
      → has p.seen uuid ≡ true
      → AllFrom uuid parts
      → ingest_parts host p parts ≡ (p, [])
  unfolding ingest_parts
  ingest_parts-from_seen p uuid [] h a = refl
  ingest_parts-from_seen p uuid (part ∷ parts) h (e, a) =
      ap (λ r. ((ingest_parts host r.0 parts).0, r.1 ++ (ingest_parts host r.0 parts).1))
        (ingest_part-skipped host p part (seen-is_skipped p part (ap (has p.seen) e ∙ h)))
      ∙ ap (λ r. (r.0, [] ++ r.1)) (ingest_parts-from_seen p uuid parts h a)

  -- Where the store takes every append, only the first part of a line is folded: if that part is new
  -- and of a known kind, folding the line is folding that part, since the parts after it carry the id
  -- that is seen by then.
  pub ingest-line :
      (reliable : IsReliable host) (p : Projector S) (part : TranscriptPart)
      (rest : List TranscriptPart)
      → is_skipped host p part ≡ false
      → is_other part.kind ≡ false
      → AllFrom part.uuid rest
      → ingest host p (part ∷ rest) ≡ ingest host p (part ∷ [])
  unfolding ingest ingest_parts
  ingest-line reliable p part rest new known same =
      let q : Projector S = (ingest_part host p part).0 in
      let now_seen : has q.seen part.uuid ≡ true =
        ap (λ r. has r.0.seen part.uuid) (ingest_part-new host p part new)
        ∙ recorded_seen host reliable part (apply host (link_subagent host p part).0 part) (
            unfold apply in
            (apply_kind_flag host reliable part.kind (link_subagent host p part).0 part known)) in
      ap (λ r. if p.closed then p else release_held host r.0 ((ingest_part host p part).1 ++ r.1))
        (ingest_parts-from_seen q part.uuid rest now_seen same)
