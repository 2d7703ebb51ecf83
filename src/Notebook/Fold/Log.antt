-- ===== src/Notebook/Fold/Log.antt =====
-- The fold as a function of the log (src/nb_doc.go: foldEvents, applyEvent): resuming it, its
-- version, its errors, and events of a newer build.
use collectif.Common.{
  ℕ, ◌+◌, ◌≡◌, refl, sym, ap, ◌∙◌, Bool, true, false, inl, inr, ◌⊎◌, Option, none, some, List, [],
  ◌∷◌, ◌++◌, arith, Result, ok, err, ◌>>=◌, Result-cases, length, if◌then◌else◌, String,
}
use mathlib.Core.Path.{fun_ext}
use collectif.Notebook.Cells.{Notebook}
use collectif.Notebook.Events.{
  Event, EventType, notebook_created, unknown, Codec, FoldError, Change, create, set_meta, insert,
  edit, move, delete, start, output, finish, invalidate, skip, event_type, decode_event,
}
use collectif.Notebook.Fold.{
  apply_change, bump, proceed, empty_notebook, apply_event, fold_from, fold_events,
}

-- The document without its position in the log.
unfoldable pub content : Notebook → Notebook
content nb = record nb { version = 0 }

unfoldable pub contents : Result FoldError Notebook → Result FoldError Notebook
unfolding content
contents (ok nb) = ok (content nb)
contents (err e) = err e

abbrev is_known : EventType → Bool
is_known (unknown _) = false
is_known _ = true

EventType-cases : (t : EventType) → ((s : String) × (t ≡ unknown s)) ⊎ (is_known t ≡ true)
EventType-cases (unknown s) = inl (s, refl)
EventType-cases notebook_created = inr refl
EventType-cases _ = inr refl

-- The events of a log that this build understands.
unfoldable pub understood {ℓ} : {R : Type ℓ} → List R → (R → String) → List R
understood [] name = []
understood (e ∷ es) name =
    let rest = understood es name in if is_known (event_type (name e)) then e ∷ rest else rest

content-apply_change :
    (ch : Change) (at : ℕ) (nb : Notebook)
    → content (apply_change ch at nb) ≡ apply_change ch at (content nb)
unfolding content apply_change
content-apply_change (create p) at nb = refl
content-apply_change (set_meta p) at nb = refl
content-apply_change (insert p) at nb = refl
content-apply_change (edit p) at nb = refl
content-apply_change (move p) at nb = refl
content-apply_change (delete id) at nb = refl
content-apply_change (start p) at nb = refl
content-apply_change (output p) at nb = refl
content-apply_change (finish p) at nb = refl
content-apply_change (invalidate ids) at nb = refl
content-apply_change skip at nb = refl

pub version-apply_change :
    (ch : Change) (at : ℕ) (nb : Notebook) → (apply_change ch at nb).version ≡ nb.version
unfolding apply_change
version-apply_change (create p) at nb = refl
version-apply_change (set_meta p) at nb = refl
version-apply_change (insert p) at nb = refl
version-apply_change (edit p) at nb = refl
version-apply_change (move p) at nb = refl
version-apply_change (delete id) at nb = refl
version-apply_change (start p) at nb = refl
version-apply_change (output p) at nb = refl
version-apply_change (finish p) at nb = refl
version-apply_change (invalidate ids) at nb = refl
version-apply_change skip at nb = refl

content-skip : (at : ℕ) (nb : Notebook) → content (bump (apply_change skip at nb)) ≡ content nb
unfolding content apply_change
content-skip at nb = refl

content-bump : (nb : Notebook) → content (bump nb) ≡ content nb
unfolding content
content-bump nb = refl

content-change :
    (ch : Change) (at : ℕ) (nb nb' : Notebook)
    → content nb ≡ content nb'
    → content (bump (apply_change ch at nb)) ≡ content (bump (apply_change ch at nb'))
content-change ch at nb nb' h =
    content-bump (apply_change ch at nb)
    ∙ content-apply_change ch at nb
    ∙ ap (apply_change ch at) h
    ∙ sym (content-apply_change ch at nb')
    ∙ sym (content-bump (apply_change ch at nb'))

module _ {R : Type 0} (e : R) (es : List R) (name : R → String) where
  understood-unknown :
      {s : String} → event_type (name e) ≡ unknown s → understood (e ∷ es) name ≡ understood es name
  unfolding understood
  understood-unknown u = rw u

  understood-known :
      is_known (event_type (name e)) ≡ true → understood (e ∷ es) name ≡ e ∷ understood es name
  unfolding understood
  understood-known k = rw k

-- A step that may stop the loop, and what comes after it.
proceed-bind :
    (s : Notebook × Option FoldError) (k g : Notebook → Result FoldError Notebook)
    → (proceed s k >>= g) ≡ proceed s (λ nb. k nb >>= g)
proceed-bind (nb, none) k g = refl
proceed-bind (nb, some e) k g = refl

abbrev pub name_of : {R : Type 0} → Event R → String
name_of e = e.kind

module _ {R : Type 0} (codec : Codec R) (nb : Notebook) (e : Event R) (es : List (Event R)) where
  -- One round of the loop, on either result of decoding.
  pub fold_from-ok :
      {ch : Change}
      → decode_event codec e ≡ ok ch
      → fold_from codec nb (e ∷ es) ≡ fold_from codec (bump (apply_change ch e.at nb)) es
  unfolding fold_from apply_event
  fold_from-ok d = rw d

  pub fold_from-err :
      {x : FoldError} → decode_event codec e ≡ err x → fold_from codec nb (e ∷ es) ≡ err x
  unfolding fold_from apply_event
  fold_from-err d = rw d

module _ {R : Type 0} (codec : Codec R) where
  -- Folding a log is folding any front part of it and then, from the document reached, the rest.
  pub fold_from-append :
      (nb : Notebook) (xs ys : List (Event R))
      → fold_from codec nb (xs ++ ys) ≡ (fold_from codec nb xs >>= λ nb'. fold_from codec nb' ys)
  unfolding fold_from
  fold_from-append nb [] ys = refl
  fold_from-append nb (x ∷ xs) ys =
      ap (proceed (apply_event codec nb x)) (fun_ext (λ nb'. fold_from-append nb' xs ys))
      ∙ sym (proceed-bind (apply_event codec nb x) _ _)

  -- A document's version is the number of events folded into it, unknown ones included.
  pub version-fold_from :
      (nb nb' : Notebook) (es : List (Event R))
      → fold_from codec nb es ≡ ok nb'
      → nb'.version ≡ nb.version + length es
  version-fold_from nb nb' [] h = unfold fold_from in ground arith
  version-fold_from nb nb' (e ∷ es) h = elim (Result-cases (decode_event codec e)) [
    | inl (ch, d) ↦ omega (
      arith,
      version-fold_from (bump (apply_change ch e.at nb)) nb' es
          (sym (fold_from-ok codec nb e es d) ∙ h),
      version-apply_change ch e.at nb,
    )
    | inr (x, d) ↦ absurd (cc (fold_from-err codec nb e es d))
  ]

  -- A fold fails only on an event whose payload it cannot decode, after folding all before it.
  fold_from-failure :
      (nb : Notebook) (es : List (Event R)) (x : FoldError)
      → fold_from codec nb es ≡ err x
      → (xs : List (Event R)) × (e : Event R) × (ys : List (Event R)) × (nb' : Notebook) × (es
          ≡ xs ++ e ∷ ys)
        × (fold_from codec nb xs ≡ ok nb')
        × (decode_event codec e ≡ err x)
  fold_from-failure nb [] x h = absurd (unfold fold_from in cc)
  fold_from-failure nb (e ∷ es) x h = elim (Result-cases (decode_event codec e)) [
    | inl (ch, d) ↦
        let (xs, e', ys, nb', split, before, bad) =
          fold_from-failure (bump (apply_change ch e.at nb)) es x
            (sym (fold_from-ok codec nb e es d) ∙ h) in
        (e ∷ xs, e', ys, nb', ap (◌∷◌ e) split, fold_from-ok codec nb e xs d ∙ before, bad)
    | inr (x', d) ↦ (
      [],
      e,
      es,
      nb,
      refl,
      unfold fold_from in refl,
      d ∙ ap err (cc (fold_from-err codec nb e es d)),
    )
  ]

  -- An event whose type this build does not know decodes to nothing to do, whatever its payload.
  pub decode_event-unknown :
      (e : Event R) {s : String} → event_type e.kind ≡ unknown s → decode_event codec e ≡ ok skip
  unfolding decode_event
  decode_event-unknown e h = rw h

  contents-fold_from :
      (nb nb' : Notebook) (es : List (Event R))
      → content nb ≡ content nb'
      → contents (fold_from codec nb es) ≡ contents (fold_from codec nb' (understood es name_of))
  contents-fold_from nb nb' [] h = unfold fold_from contents understood in ap ok h
  contents-fold_from nb nb' (e ∷ es) h = elim (EventType-cases (event_type e.kind)) [
    | inl (s, u) ↦
        ap contents (fold_from-ok codec nb e es (decode_event-unknown e u))
        ∙ contents-fold_from (bump (apply_change skip e.at nb)) nb' es (content-skip e.at nb ∙ h)
        ∙ sym (ap (λ l. contents (fold_from codec nb' l)) (understood-unknown e es name_of u))
    | inr k ↦ rw (understood-known e es name_of k) (elim (Result-cases (decode_event codec e)) [
      | inl (ch, d) ↦
          ap contents (fold_from-ok codec nb e es d)
          ∙ contents-fold_from (bump (apply_change ch e.at nb)) (bump (apply_change ch e.at nb')) es
              (content-change ch e.at nb nb' h)
          ∙ sym (ap contents (fold_from-ok codec nb' e (understood es name_of) d))
      | inr (x, d) ↦
          ap contents (fold_from-err codec nb e es d)
          ∙ sym (ap contents (fold_from-err codec nb' e (understood es name_of) d))
    ])
  ]

  -- Dropping the events that this build does not understand changes nothing in the document that
  -- a log folds to but its version, and changes no error.
  pub fold_events-understood :
      (es : List (Event R))
      → contents (fold_events codec es) ≡ contents (fold_events codec (understood es name_of))
  unfolding fold_events
  fold_events-understood es = contents-fold_from empty_notebook empty_notebook es refl
