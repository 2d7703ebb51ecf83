-- ===== src/Session/Closed.antt =====
-- After a projector is closed (src/nb_session.go: Close).
use collectif.Common.{
  ◌≡◌, refl, ◌==◌, Bool, true, false, ◌||◌, not, List, [], ◌∷◌, str_eq, if◌then◌else◌,
}
use mathlib.Core.Path.{subst⁻¹}
use collectif.Notebook.Cells.{CellState}
use collectif.Session.Projector.{Host, Projector, is_empty, lookup, settle_current, next_gen}
use collectif.Session.Ingest.{held_or_landed, ingest_subagent}
use collectif.Session.Lifecycle.{
  await_adoption, give_up, cancel_adoption, close, Call, ingests, ingests_subagent, awaits,
  gives_up, cancels, closes, perform, performs,
}
use collectif.Session.Bookkeeping.{settle_current-SameBooks}
use collectif.Session.Again.{ingest-closed}

-- A closed projector over a store.
abbrev pub IsClosedOver : {S : Type 0} → S → Projector S → Type 0
IsClosedOver s p = (p.closed ≡ true) × (p.store ≡ s)

module _ {S : Type 0} (host : Host S) (s : S) where
  cancel_if-IsClosedOver :
      (b : Bool) (p : Projector S)
      → IsClosedOver s p
      → IsClosedOver s (
          if b
          then record p { adopt_cell = ""; adopt_text = ""; adopt_gen = next_gen p.adopt_gen }
          else p)
  cancel_if-IsClosedOver true p h = h
  cancel_if-IsClosedOver false p h = h

  closed_only :
      (b : Bool) (p q : Projector S)
      → b ≡ true
      → IsClosedOver s p
      → IsClosedOver s (if b then p else q)
  closed_only true p q e h = h
  closed_only false p q e h = absurd (cc)

  closed_first :
      (b more : Bool) (p q : Projector S)
      → b ≡ true
      → IsClosedOver s p
      → IsClosedOver s (if b || more then p else q)
  closed_first true more p q e h = h
  closed_first false more p q e h = absurd (cc)

  perform-IsClosedOver :
      (p : Projector S) (c : Call) → IsClosedOver s p → IsClosedOver s (perform host p c)
  unfolding perform ingest_subagent await_adoption give_up cancel_adoption close
  perform-IsClosedOver p (ingests parts) h =
      subst⁻¹ (IsClosedOver s) (ingest-closed host p parts h.0) h
  perform-IsClosedOver p (ingests_subagent agent parts) h =
      closed_first p.closed (is_empty agent) p
        (held_or_landed host (lookup p.links agent) agent p parts) h.0 h
  perform-IsClosedOver p (awaits cell source) h = h
  perform-IsClosedOver p (gives_up cell gen) h =
      closed_first p.closed (not (p.adopt_gen == gen) || not (str_eq p.adopt_cell cell)) p _ h.0 h
  perform-IsClosedOver p (cancels cell) h = cancel_if-IsClosedOver (str_eq p.adopt_cell cell) p h
  perform-IsClosedOver p closes h = closed_only p.closed p _ h.0 h

  performs-IsClosedOver :
      (p : Projector S) (cs : List Call) → IsClosedOver s p → IsClosedOver s (performs host p cs)
  unfolding performs
  performs-IsClosedOver p [] h = h
  performs-IsClosedOver p (c ∷ cs) h =
      performs-IsClosedOver (perform host p c) cs (perform-IsClosedOver p c h)

module _ {S : Type 0} (host : Host S) where
  close_closes :
      (b : Bool) (p : Projector S)
      → p.closed ≡ b
      → (if b then p else settle_current host CellState.success (record p { closed = true })).closed
        ≡ true
  close_closes true p e = e
  close_closes false p e =
      (settle_current-SameBooks host CellState.success (record p { closed = true })).closed

  -- Once a projector is closed, no call writes to the document again: neither lines, a child's work,
  -- a timer that fires late, nor a second close, in whatever order they come.
  performs-close :
      (p : Projector S) (cs : List Call)
      → ((performs host (close host p) cs).closed ≡ true)
        × ((performs host (close host p) cs).store ≡ (close host p).store)
  performs-close p cs =
      performs-IsClosedOver host (close host p).store (close host p) cs
        (unfold close in (close_closes p.closed p refl, refl))
