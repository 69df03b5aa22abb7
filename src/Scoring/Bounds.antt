-- ===== src/Scoring/Bounds.antt =====
-- What a stability score says (app/workflow_runtime/stability_score.py).
use ai_agent_workflow.Prelude.{
  ℕ, ◌+◌, ◌-◌, ◌*◌, ◌≤◌, min, String, ◌≡◌, refl, ap, ◌∙◌, Bool, true, false, not, ◌&&◌, Option,
  List, [], ◌∷◌, str_eq, if◌then◌else◌, ◌==◌, length, or_else, arith, select, map, all, Bool-cases,
  inl, inr,
}
use ai_agent_workflow.Scoring.Stability.{
  Step, Checks, Deduction, deductions, deduct, retries_of, has_failed,
  compute_workflow_stability_score,
}

-- The points that are taken off.
abbrev pub points_of : List Deduction → ℕ
points_of [] = 0
points_of (d ∷ rest) = (if d.due then d.points else 0) + points_of rest

pub deduct-points_of :
    (score : ℕ) (all_ : List Deduction) → deduct score all_ ≡ score - points_of all_
unfolding deduct
deduct-points_of score [] = omega arith
deduct-points_of score (d ∷ rest) =
    ground (arith, deduct-points_of (if d.due then score - d.points else score) rest)

-- A run without a flaw that the score knows.
abbrev pub is_clean : Option String → List Step → Checks → Bool
is_clean status steps checks =
    str_eq (or_else status "") "done"
    && (retries_of steps == 0
        && (all (λ step. not (has_failed step)) steps
            && (checks.source_exists
                && (checks.tests_exist
                    && (checks.all_functions_present
                        && (checks.manual_validation_returncode == 0
                            && checks.workflow_validation_has_pass))))))

abbrev pub is_idle : Deduction → Bool
is_idle d = not d.due

abbrev pub IsPositive : List Deduction → Type 0
IsPositive [] = Unit
IsPositive (d ∷ rest) = (d.due ≡ true → 1 ≤ d.points) × IsPositive rest

pub points_of-idle :
    (all_ : List Deduction) → IsPositive all_ → (points_of all_ == 0) ≡ all is_idle all_
points_of-idle [] h = refl
points_of-idle (d ∷ rest) (h, k) = elim (Bool-cases d.due) [
  | inl e ↦ rw e (ground (arith, h e))
  | inr e ↦ rw e (ground (arith, points_of-idle rest k))
]

pub full-none : (points : ℕ) → (min 100 (100 - points) == 100) ≡ (points == 0)
full-none points = ground arith

pub retry_points : (n : ℕ) → not (n == 0) ≡ true → 1 ≤ min 20 (n * 4)
retry_points n h = ground arith

pub failed_points : (n : ℕ) → not (n == 0) ≡ true → 1 ≤ min 30 (n * 10)
failed_points n h = ground arith

pub not-not : (b : Bool) → not (not b) ≡ b
not-not true = refl
not-not false = refl

pub and-true : (b : Bool) → (b && true) ≡ b
and-true true = refl
and-true false = refl

pub length-select-map :
    (steps : List Step)
    → (length (map (λ (step : Step). step.key) (select has_failed steps)) == 0)
      ≡ all (λ step. not (has_failed step)) steps
length-select-map [] = refl
length-select-map (step ∷ steps) = ground (arith, length-select-map steps)

module _ (status_repr : String) (status : Option String) (steps : List Step) (checks : Checks) where
  pub deductions-IsPositive : IsPositive (deductions status_repr status steps checks)
  unfolding deductions
  deductions-IsPositive = (
    λ e. omega arith,
    (
      retry_points (retries_of steps),
      (
        failed_points (length (map (λ (step : Step). step.key) (select has_failed steps))),
        (
          λ e. omega arith,
          (λ e. omega arith, (λ e. omega arith, (λ e. omega arith, (λ e. omega arith, tt)))),
        ),
      ),
    ),
  )

  pub deductions-idle :
      all is_idle (deductions status_repr status steps checks) ≡ is_clean status steps checks
  unfolding deductions
  deductions-idle = simp (not-not, length-select-map steps, and-true)

  -- The full score says that a run has no flaw that the score knows, and the other way round.
  pub full_score_is_clean :
      ((compute_workflow_stability_score status_repr status steps checks).score == 100)
      ≡ is_clean status steps checks
  unfolding compute_workflow_stability_score
  full_score_is_clean =
      ap (λ (n : ℕ). min 100 n == 100)
        (deduct-points_of 100 (deductions status_repr status steps checks))
      ∙ full-none (points_of (deductions status_repr status steps checks))
      ∙ points_of-idle (deductions status_repr status steps checks) deductions-IsPositive
      ∙ deductions-idle
