-- ===== src/Retry/Steady.antt =====
-- Improvements one after the other (app/workflow_runtime/progress_evaluator.py).
use ai_agent_workflow.Prelude.{
  true, ◌≡◌, sym, ◌∙◌, eq_iff, str_eq, ◌≢◌, Bool-cases, inl, inr, some, List, [], ◌∷◌, ◌≤◌, arith,
  &&-split,
}
use ai_agent_workflow.Retry.Progress.{Measure, Snapshot, compare_progress}
use ai_agent_workflow.Retry.Improves.{no_worse, improved_by_tables}

-- The numbers of failures and violations do not grow, those of what has passed do not fall. The
-- number of changed files is free.
abbrev pub IsNoWorse : Snapshot → Snapshot → Type 0
IsNoWorse a b =
    (b.measured Measure.required_failures ≤ a.measured Measure.required_failures)
    × (b.measured Measure.tasks_failed ≤ a.measured Measure.tasks_failed)
    × (b.measured Measure.scope_violations ≤ a.measured Measure.scope_violations)
    × (a.measured Measure.tasks_passed ≤ b.measured Measure.tasks_passed)
    × (a.measured Measure.acceptance_passed ≤ b.measured Measure.acceptance_passed)
    × (a.measured Measure.validation_passed ≤ b.measured Measure.validation_passed)

pub no_worse-IsNoWorse : (a b : Snapshot) → no_worse a b ≡ true → IsNoWorse a b
no_worse-IsNoWorse a b h = ground arith

pub improved-IsNoWorse :
    (a b : Snapshot) → (compare_progress (some a) b).improved ≡ true → IsNoWorse a b
improved-IsNoWorse a b h =
    no_worse-IsNoWorse a b ((&&-split _ _ (sym (improved_by_tables a b) ∙ h)).0)

-- Each snapshot is an improvement over the one before it.
abbrev pub IsSteady : Snapshot → List Snapshot → Type 0
IsSteady a [] = Unit
IsSteady a (b ∷ later) = ((compare_progress (some a) b).improved ≡ true) × IsSteady b later

abbrev pub last_of : Snapshot → List Snapshot → Snapshot
last_of a [] = a
last_of a (b ∷ later) = last_of b later

pub IsNoWorse-trans : (a b c : Snapshot) → IsNoWorse a b → IsNoWorse b c → IsNoWorse a c
IsNoWorse-trans a b c h k = ground arith

-- However many improvements follow one another, at the end no number is worse than at the start.
pub steady-IsNoWorse :
    (a : Snapshot) (later : List Snapshot) → IsSteady a later → IsNoWorse a (last_of a later)
steady-IsNoWorse a [] h = ground arith
steady-IsNoWorse a (b ∷ later) (h, k) =
    IsNoWorse-trans a b (last_of b later) (improved-IsNoWorse a b h) (steady-IsNoWorse b later k)

pub IsNoWorse-no_worse : (a b : Snapshot) → IsNoWorse a b → no_worse a b ≡ true
IsNoWorse-no_worse a b h = ground arith

pub changed-improved :
    (a b : Snapshot)
    → IsNoWorse a b
    → a.file_digest ≢ b.file_digest
    → (compare_progress (some a) b).improved ≡ true
changed-improved a b h differ = elim (Bool-cases (str_eq a.file_digest b.file_digest)) [
  | inl e ↦ absurd (differ ((eq_iff a.file_digest b.file_digest).0 e))
  | inr e ↦ improved_by_tables a b ∙ ground (arith, IsNoWorse-no_worse a b h)
]

-- Two snapshots with different files, neither of which has a number worse than the other's, are
-- improvements of each other.
pub files_improve_both_ways :
    (a b : Snapshot)
    → IsNoWorse a b
    → IsNoWorse b a
    → a.file_digest ≢ b.file_digest
    → ((compare_progress (some a) b).improved ≡ true)
      × ((compare_progress (some b) a).improved ≡ true)
files_improve_both_ways a b h k differ =
    (changed-improved a b h differ, changed-improved b a k (λ e. differ (sym e)))
