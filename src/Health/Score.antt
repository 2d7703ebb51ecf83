-- ===== src/Health/Score.antt =====
-- What a score says (src/harness.go: computeHealthLocked).
use collectif.Common.{
  ℕ, ◌-◌, ◌≤◌, ◌≡◌, ◌≢◌, ◌↔◌, refl, String, Bool, true, false, Option, none, some, List, arith,
  str_eq, eq_iff, Bool-cases, inl, inr, ◌⊎◌, ◌&&◌, not, ◌==◌, ltb, ◌+◌,
}
use collectif.Health.{
  ToolCallRecord, Reason, healthy, failures, context_pressure, stalled, over_budget, looping,
  keep_reason, penalise, penalise_loop, detect_loop, count_recent_failures, stall_window,
  compute_health,
}

-- A score between bounds, which is 100 exactly where no reason is given.
abbrev pub Sound : ℕ → ℕ × Reason → Type 0
Sound least (score, reason) = (least ≤ score) × (score ≤ 100) × ((score ≡ 100) ↔ (reason ≡ healthy))

keep_reason-ne : (reason why : Reason) → why ≢ healthy → keep_reason reason why ≢ healthy
keep_reason-ne healthy why h = h
keep_reason-ne failures why h = λ e. cc
keep_reason-ne context_pressure why h = λ e. cc
keep_reason-ne stalled why h = λ e. cc
keep_reason-ne over_budget why h = λ e. cc
keep_reason-ne (looping call) why h = λ e. cc

-- A penalty takes its points off the bound.
penalise-Sound :
    (b : Bool) (least n : ℕ) (why : Reason) (s : ℕ × Reason)
    → 1 ≤ n
    → n ≤ least
    → why ≢ healthy
    → Sound least s
    → Sound (least - n) (penalise b n why s)
unfolding penalise
penalise-Sound false least n why (score, reason) some_points fit ne (low, high, iff) =
    (omega arith, high, iff)
penalise-Sound true least n why (score, reason) some_points fit ne (low, high, iff) = (
  omega arith,
  omega arith,
  (λ e. absurd (omega arith), λ e. absurd (keep_reason-ne reason why ne e)),
)

-- No penalty leaves the bound.
skipped-Sound :
    (least n : ℕ) (why : Reason) (s : ℕ × Reason)
    → Sound least s
    → Sound least (penalise false n why s)
unfolding penalise
skipped-Sound least n why (score, reason) h = h

penalise_loop-Sound : (o : Option ToolCallRecord) → Sound 80 (penalise_loop o (100, healthy))
penalise_loop-Sound none = (omega arith, omega arith, (λ e. refl, λ e. refl))
penalise_loop-Sound (some call) =
    penalise-Sound true 100 20 (looping call) (100, healthy) (omega arith) (omega arith) (λ e. cc)
      (omega arith, omega arith, (λ e. refl, λ e. refl))

-- No status is both.
last-Sound :
    (paused running : Bool) (s : ℕ × Reason)
    → paused ≡ false ⊎ running ≡ false
    → Sound 50 s
    → Sound 40 (penalise paused 10 over_budget (penalise running 10 stalled s))
last-Sound true true s (inl h) sound = absurd (cc)
last-Sound true true s (inr h) sound = absurd (cc)
last-Sound true false s h sound =
    penalise-Sound true 50 10 over_budget (penalise false 10 stalled s) (omega arith) (omega arith)
      (λ e. cc) (skipped-Sound 50 10 stalled s sound)
last-Sound false running s h sound =
    skipped-Sound 40 10 over_budget (penalise running 10 stalled s)
      (penalise-Sound running 50 10 stalled s (omega arith) (omega arith) (λ e. cc) sound)

not_both :
    (status : String) (more : Bool)
    → (str_eq status "paused_over_budget" ≡ false) ⊎ ((str_eq status "running" && more) ≡ false)
not_both status more = elim (Bool-cases (str_eq status "paused_over_budget")) [
  | inl e ↦
      let same : status ≡ "paused_over_budget" = (eq_iff status "paused_over_budget").0 e in
      inr (rw (same, paused_not_running) refl)
  | inr e ↦ inl e
]
  where
    paused_not_running : str_eq "paused_over_budget" "running" ≡ false
    paused_not_running = refl

-- The score lies between 40 and 100, and is 100 exactly where the reason is "healthy".
pub compute_health-Sound :
    (now : ℕ) (calls : List ToolCallRecord) (fails : List ℕ) (updated : ℕ) (status : String)
    (pressured : Bool)
    → Sound 40 (compute_health now calls fails updated status pressured)
unfolding compute_health
compute_health-Sound now calls fails updated status pressured =
    last-Sound (str_eq status "paused_over_budget")
      (str_eq status "running" && (not (updated == 0) && ltb (updated + stall_window) now)) _
      (not_both status (not (updated == 0) && ltb (updated + stall_window) now))
      (penalise-Sound pressured 60 10 context_pressure _ (omega arith) (omega arith) (λ e. cc)
        (penalise-Sound (ltb 3 (count_recent_failures now fails)) 80 20 failures
          (penalise_loop (detect_loop calls) (100, healthy)) (omega arith) (omega arith) (λ e. cc)
          (penalise_loop-Sound (detect_loop calls))))
