-- ===== src/Health.antt =====
-- The health of a session (src/harness.go: detectLoop, countRecentFailures, computeHealthLocked). A time is its nanoseconds; the division of floats is an argument.
pub mod Score
mod Samples
use collectif.Common.{
  ℕ, ◌+◌, ◌-◌, ◌*◌, String, Bool, true, false, ◌&&◌, ◌||◌, not, Option, none, some, List, [], ◌∷◌,
  ◌++◌, str_eq, ltb, ◌==◌, if◌then◌else◌, length, drop,
}

pub record ToolCallRecord : Type 0 where
  pub name : String
  pub fingerprint : String

abbrev pub loop_threshold : ℕ
loop_threshold = 5

-- failureWindow and stallWindow: ten minutes and five.
abbrev pub failure_window : ℕ
failure_window = 600000000000

abbrev pub stall_window : ℕ
stall_window = 300000000000

abbrev pub last_of : List ToolCallRecord → Option ToolCallRecord
last_of [] = none
last_of (c ∷ []) = some c
last_of (c ∷ d ∷ cs) = last_of (d ∷ cs)

unfoldable pub all_same : ToolCallRecord → List ToolCallRecord → Bool
all_same last [] = true
all_same last (c ∷ cs) =
    (str_eq c.name last.name && str_eq c.fingerprint last.fingerprint) && all_same last cs

abbrev loop_of : Option ToolCallRecord → List ToolCallRecord → Option ToolCallRecord
loop_of none calls = none
loop_of (some last) calls =
    if str_eq last.fingerprint ""
    then none
    else if all_same last (drop (length calls - loop_threshold) calls)
    then some last
    else none

-- The call that is repeated, where there is one.
unfoldable pub detect_loop : List ToolCallRecord → Option ToolCallRecord
unfolding all_same
detect_loop calls =
    if ltb (length calls) loop_threshold then none else loop_of (last_of calls) calls

-- The failures after `now` less the window.
unfoldable pub count_recent_failures : ℕ → List ℕ → ℕ
count_recent_failures now [] = 0
count_recent_failures now (at ∷ fails) =
    let rest = count_recent_failures now fails in
    if ltb now (at + failure_window) then rest + 1 else rest

-- Why the score is below 100: the sentences of the source.
pub data Reason : Type 0 where
  healthy failures context_pressure stalled over_budget : Reason
  looping : ToolCallRecord → Reason

-- One `if` with its penalty, and the reason where none was given before.
abbrev pub keep_reason : Reason → Reason → Reason
keep_reason healthy why = why
keep_reason reason why = reason

unfoldable pub penalise : Bool → ℕ → Reason → ℕ × Reason → ℕ × Reason
penalise true n why (score, reason) = (score - n, keep_reason reason why)
penalise false n why (score, reason) = (score, reason)

abbrev pub penalise_loop : Option ToolCallRecord → ℕ × Reason → ℕ × Reason
penalise_loop none s = s
penalise_loop (some call) s = penalise true 20 (looping call) s

-- `pressured` is whether the context is given and above nine tenths of its limit. `updated` is 0 for
-- the zero time.
unfoldable pub compute_health : ℕ → List ToolCallRecord → List ℕ → ℕ → String → Bool → ℕ × Reason
unfolding detect_loop count_recent_failures penalise
compute_health now calls fails updated status pressured =
    penalise (str_eq status "paused_over_budget") 10 over_budget (
      penalise (str_eq status "running" && (not (updated == 0) && ltb (updated + stall_window) now))
        10 stalled
        (penalise pressured 10 context_pressure (
          penalise (ltb 3 (count_recent_failures now fails)) 20 failures
            (penalise_loop (detect_loop calls) (100, healthy)))))
