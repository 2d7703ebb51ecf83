-- ===== src/Store/Runs/Registry.antt =====
-- Which run a cell has (src/nb_run.go: beginRun, endRun).
use collectif.Common.{
  ◌≡◌, refl, false, Bool-cases, Option-cases, ap, inl, inr, String, Option, none, some, [], ◌∷◌,
  str_eq, eq_iff, arith, if◌then◌else◌,
}
use collectif.Store.Runs.{Runs, run_of, without_run, begin_run, end_run}

-- Without its run a cell has none, and the others have theirs.
run_of-without_run :
    (runs : Runs) (cell other : String)
    → run_of (without_run runs cell) other ≡ (if str_eq cell other then none else run_of runs other)
unfolding run_of without_run
run_of-without_run [] cell other = elim (Bool-cases (str_eq cell other)) [
  | inl e ↦ rw e refl
  | inr e ↦ rw e refl
]
run_of-without_run ((c, run) ∷ runs) cell other = elim (Bool-cases (str_eq c cell)) [
  | inl e ↦
      let same : c ≡ cell = (eq_iff c cell).0 e in
      elim (Bool-cases (str_eq cell other)) [
        | inl f ↦ rw (e, run_of-without_run runs cell other, f) refl
        | inr f ↦ rw (e, run_of-without_run runs cell other, f, same, f) refl
      ]
  | inr e ↦ elim (Bool-cases (str_eq c other)) [
    | inl f ↦
        let apart : str_eq cell other ≡ false = elim (Bool-cases (str_eq cell other)) [
          | inl g ↦ absurd (ground (arith, eq_iff c cell, eq_iff c other, eq_iff cell other))
          | inr g ↦ g
        ] in
        rw (e, f, apart) refl
    | inr f ↦ rw (e, f) (run_of-without_run runs cell other)
  ]
]

abbrev runs_or_nil : Option Runs → Runs
runs_or_nil none = []
runs_or_nil (some runs) = runs

own_only :
    (cell run run' : String) (runs : Runs)
    → str_eq run' run ≡ false
    → end_run cell run ((cell, run') ∷ runs) ≡ (cell, run') ∷ runs
unfolding end_run
own_only cell run run' runs h = rw ((eq_iff cell cell).1 refl, h) refl

-- A late finisher does not release the cell from the run that has taken its place.
late_finisher :
    (cell run run' : String) (runs runs' : Runs)
    → str_eq run' run ≡ false
    → begin_run cell run' runs ≡ some runs'
    → end_run cell run runs' ≡ runs'
unfolding begin_run
late_finisher cell run run' runs runs' h b = elim (Option-cases (run_of runs cell)) [
  | inl free ↦
      let grown : (cell, run') ∷ runs ≡ runs' = ap runs_or_nil (rw (begin_run, free) at b) in
      rw (← grown) (own_only cell run run' runs h)
  | inr (cur, busy) ↦ absurd (cc (rw (begin_run, busy) at b))
]
