-- ===== src/Scoring/Stability.antt =====
-- `compute_workflow_stability_score` (app/workflow_runtime/stability_score.py).
use ai_agent_workflow.Prelude.{
  ℕ, ◌+◌, ◌-◌, ◌*◌, min, String, str_append, Bool, true, not, ◌||◌, Option, List, [], ◌∷◌, map,
  select, str_eq, if◌then◌else◌, ltb, ◌==◌, length, or_else,
}
use ai_agent_workflow.Prelude.Letters.{join}
use ai_agent_workflow.Retry.Progress.{decimal}

-- A step's key as a text, and its number of retries, of which none is negative.
pub record Step : Type 0 where
  pub key : String
  pub status : String
  pub retries : ℕ

-- The checks, with the values that stand for missing ones.
pub record Checks : Type 0 where
  pub source_exists : Bool
  pub tests_exist : Bool
  pub all_functions_present : Bool
  pub manual_validation_returncode : ℕ
  pub workflow_validation_has_pass : Bool

abbrev pub no_checks : Checks
no_checks = record {
  source_exists = true;
  tests_exist = true;
  all_functions_present = true;
  manual_validation_returncode = 0;
  workflow_validation_has_pass = true;
}

pub record Stability : Type 0 where
  pub score : ℕ
  pub risk : String
  pub retry_total : ℕ
  pub findings : List String

abbrev pub retries_of : List Step → ℕ
retries_of [] = 0
retries_of (step ∷ steps) = step.retries + retries_of steps

abbrev pub has_failed : Step → Bool
has_failed step = str_eq step.status "failed"

-- A deduction with its finding, and whether it is due.
pub record Deduction : Type 0 where
  pub due : Bool
  pub points : ℕ
  pub finding : String

abbrev pub deduction : Bool → ℕ → String → Deduction
deduction due points finding = record { due = due; points = points; finding = finding }

-- The deductions, in the order of the source. What `repr` gives for the status is an argument.
unfoldable pub deductions : String → Option String → List Step → Checks → List Deduction
unfolding join
deductions status_repr status steps checks =
    let retry_total = retries_of steps in
    let failed = map (λ step. step.key) (select has_failed steps) in
    deduction (not (str_eq (or_else status "") "done")) 35
      (str_append "run status is " (str_append status_repr ", not done"))
    ∷ deduction (not (retry_total == 0)) (min 20 (retry_total * 4))
        (str_append "workflow used " (str_append (decimal retry_total) " retry attempt(s)"))
    ∷ deduction (not (length failed == 0)) (min 30 (length failed * 10))
        (str_append "failed step(s): " (join ", " failed))
    ∷ deduction (not checks.source_exists) 15 "expected production source file was not created"
    ∷ deduction (not checks.tests_exist) 10 "expected test file was not created"
    ∷ deduction (not checks.all_functions_present) 15 "expected API/functions were missing"
    ∷ deduction (not (checks.manual_validation_returncode == 0)) 20 "manual validation failed"
    ∷ deduction (not checks.workflow_validation_has_pass) 10
        "workflow validation evidence did not show PASS"
    ∷ []

-- `score -= points` for each. The source lets the score fall below 0 and raises it to 0 at the end;
-- since nothing is added, to stop at 0 gives the same.
unfoldable pub deduct : ℕ → List Deduction → ℕ
deduct score [] = score
deduct score (d ∷ rest) = deduct (if d.due then score - d.points else score) rest

unfoldable pub findings_of : List Deduction → List String
findings_of [] = []
findings_of (d ∷ rest) =
    let findings = findings_of rest in if d.due then d.finding ∷ findings else findings

abbrev pub or_findings : List String → List String → List String
or_findings [] others = others
or_findings (finding ∷ findings) others = finding ∷ findings

abbrev pub risk_of : ℕ → ℕ → String
risk_of score retry_total =
    if ltb score 70
    then "high"
    else if ltb score 90 || not (retry_total == 0)
    then "medium"
    else "low"

unfoldable pub compute_workflow_stability_score :
    String → Option String → List Step → Checks → Stability
unfolding deductions deduct findings_of
compute_workflow_stability_score status_repr status steps checks =
    let all = deductions status_repr status steps checks in
    let score = min 100 (deduct 100 all) in
    record {
      score = score;
      risk = risk_of score (retries_of steps);
      retry_total = retries_of steps;
      findings =
          or_findings (findings_of all)
            ("run completed with deterministic evidence and no retry penalty" ∷ []);
    }
