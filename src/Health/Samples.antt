-- ===== src/Health/Samples.antt =====
-- Scores (src/harness.go): tests, and a theorem at one of them.
use collectif.Common.{◌≡◌, refl, true, false, List, [], ◌∷◌}
use collectif.Health.{ToolCallRecord, looping, over_budget, compute_health}
use collectif.Health.Score.{Sound, compute_health-Sound}

abbrev again : ToolCallRecord
again = record { name = "Bash"; fingerprint = "make" }

abbrev five : List ToolCallRecord
five = again ∷ again ∷ again ∷ again ∷ again ∷ []

stuck : compute_health 1000 five [] 0 "running" false ≡ (80, looping again)
unfolding compute_health
stuck = refl

paused : compute_health 1000 (again ∷ []) [] 5 "paused_over_budget" false ≡ (90, over_budget)
unfolding compute_health
paused = refl

compute_health-Sound_example : Sound 40 (compute_health 1000 five [] 0 "running" true)
compute_health-Sound_example = compute_health-Sound 1000 five [] 0 "running" true
