-- ===== src/Completion/Checks.antt =====
-- Each check of the gate and its message.
use ai_agent_workflow.Prelude.{
  String, ◌≡◌, refl, ◌∙◌, Bool, true, false, not, ◌&&◌, ◌||◌, Option, none, some, List, [], ◌∷◌,
  ◌++◌, map, select, is_some, if◌then◌else◌, arith, all, str_eq,
}
use ai_agent_workflow.Completion.Records.{Validation, Task, Step, Evidence, Run, Verdict}
use ai_agent_workflow.Completion.Gate.{
  has_passed, artifact_pass, status_of, verdict, is_none, due, validation_record, neutral, user_ok,
  user_errors, user_verdict, tests_ok, test_errors, is_code_workflow, is_incomplete, is_unresolved,
  incomplete_tasks, active_failures, open_violations,
}

pub is_none-append {ℓ} :
    {A : Type ℓ} (xs ys : List A) → is_none (xs ++ ys) ≡ (is_none xs && is_none ys)
is_none-append [] ys = refl
is_none-append (x ∷ xs) ys = refl

pub is_none-map {ℓ κ} :
    {A : Type ℓ} {B : Type κ} (f : A → B) (xs : List A) → is_none (map f xs) ≡ is_none xs
is_none-map f [] = refl
is_none-map f (x ∷ xs) = refl

pub is_none-select {ℓ} :
    {A : Type ℓ} (p : A → Bool) (xs : List A) → is_none (select p xs) ≡ all (λ x. not (p x)) xs
is_none-select p [] = refl
is_none-select p (x ∷ xs) = ground (arith, is_none-select p xs)

pub is_none-due : (b : Bool) (message : String) → is_none (due b message) ≡ not b
is_none-due true message = refl
is_none-due false message = refl

-- What counts as a proof that the tests passed, and that the user's validation did.
abbrev pub tests_proved : Evidence → Run → Bool
tests_proved evidence run =
    has_passed (validation_record run "test")
    || (artifact_pass evidence "test-result.md"
        || has_passed (validation_record run "user_validation"))

abbrev pub user_proved : Evidence → Run → Bool
user_proved evidence run =
    has_passed (validation_record run "user_validation")
    || (run.required
        && (artifact_pass evidence "external-validation-result.md"
            || artifact_pass evidence "user-validation-result.md"))

-- What the gate allows of the user's validation: it passed, or it is not required and there is no
-- record of a run that failed.
abbrev pub user_allowed : Evidence → Run → Bool
user_allowed evidence run =
    user_proved evidence run
    || (not run.required && neutral (validation_record run "user_validation"))

-- The two branches of the source, on the outcomes of its tests.
pub user_errors-by_test :
    (required uv_ok recorded neutral : Bool) (m n : String)
    → (recorded || neutral) ≡ true
    → is_none
        (if required then due (not uv_ok) m else due (recorded && (not uv_ok && not neutral)) n)
      ≡ (uv_ok || (not required && neutral))
user_errors-by_test true true recorded neutral m n h = refl
user_errors-by_test true false recorded neutral m n h = refl
user_errors-by_test false true true neutral m n h = refl
user_errors-by_test false true false neutral m n h = refl
user_errors-by_test false false true true m n h = refl
user_errors-by_test false false true false m n h = refl
user_errors-by_test false false false true m n h = refl
user_errors-by_test false false false false m n h = cc

abbrev pub user_choice : Bool → Bool → Bool → Verdict
user_choice required uv_ok neutral =
    if required
    then verdict uv_ok
    else if uv_ok
    then Verdict.pass
    else if neutral
    then Verdict.not_configured
    else Verdict.fail

abbrev pub is_fail : Verdict → Bool
is_fail Verdict.fail = true
is_fail _ = false

pub is_fail-verdict : (b : Bool) → is_fail (verdict b) ≡ not b
is_fail-verdict true = refl
is_fail-verdict false = refl

pub user_choice-is_fail :
    (required uv_ok neutral : Bool)
    → is_fail (user_choice required uv_ok neutral) ≡ not (uv_ok || (not required && neutral))
user_choice-is_fail true true neutral = refl
user_choice-is_fail true false neutral = refl
user_choice-is_fail false true neutral = refl
user_choice-is_fail false false true = refl
user_choice-is_fail false false false = refl

pub recorded-or-neutral : (found : Option Validation) → (is_some found || neutral found) ≡ true
recorded-or-neutral none = refl
recorded-or-neutral (some item) = refl

module _ (evidence : Evidence) (run : Run) where
  pub user_errors-is_none : is_none (user_errors evidence run) ≡ user_allowed evidence run
  unfolding user_errors user_ok
  user_errors-is_none =
      user_errors-by_test run.required (user_ok evidence run)
        (is_some (validation_record run "user_validation"))
        (neutral (validation_record run "user_validation"))
        "Required user validation did not pass with exit code 0."
        "Configured optional user validation executed but did not pass."
        (recorded-or-neutral (validation_record run "user_validation"))

  pub user_verdict-is_fail : is_fail (user_verdict evidence run) ≡ not (user_allowed evidence run)
  unfolding user_verdict user_ok
  user_verdict-is_fail =
      user_choice-is_fail run.required (user_ok evidence run)
        (neutral (validation_record run "user_validation"))

  -- The five conditions, of which each has its message.
  abbrev pub tests_allowed : Bool
  tests_allowed = not (is_code_workflow run && not (tests_proved evidence run))

  pub test_errors-is_none : is_none (test_errors evidence run) ≡ tests_allowed
  unfolding test_errors tests_ok
  test_errors-is_none = is_none-due _ _

-- A task that has not failed, is not blocked and is not under way.
abbrev pub is_settled_task : Task → Bool
is_settled_task task =
    let status = status_of task.status in
    not (str_eq status "repairing")
    && (not (str_eq status "running")
        && (not (str_eq status "pending")
            && (not (str_eq status "blocked") && not (str_eq status "failed"))))

-- A step that has not failed, is not blocked and does not wait for input. It may be pending.
abbrev pub is_clear_step : Step → Bool
is_clear_step step =
    let status = status_of step.status in
    not (str_eq status "waiting_input")
    && (not (str_eq status "blocked") && not (str_eq status "failed"))

pub all-same {ℓ} :
    {A : Type ℓ} (p q : A → Bool) → ((x : A) → p x ≡ q x) → (xs : List A) → all p xs ≡ all q xs
all-same p q same [] = refl
all-same p q same (x ∷ xs) = rw (same x, all-same p q same xs) refl

is_incomplete-not : (task : Task) → not (is_incomplete task) ≡ is_settled_task task
is_incomplete-not task = ground arith

is_unresolved-not : (step : Step) → not (is_unresolved step) ≡ is_clear_step step
is_unresolved-not step = ground arith

module _ (run : Run) where
  abbrev pub no_task_open : Bool
  no_task_open = all is_settled_task run.tasks

  abbrev pub no_step_open : Bool
  no_step_open = all is_clear_step run.steps

  abbrev pub all_resolved : Bool
  all_resolved = all (λ resolved. not (not resolved)) run.violations_resolved

  pub incomplete_tasks-is_none : is_none (incomplete_tasks run) ≡ no_task_open
  unfolding incomplete_tasks
  incomplete_tasks-is_none =
      is_none-map _ (select is_incomplete run.tasks)
      ∙ is_none-select is_incomplete run.tasks
      ∙ all-same _ _ is_incomplete-not run.tasks

  pub active_failures-is_none : is_none (active_failures run) ≡ no_step_open
  unfolding active_failures
  active_failures-is_none =
      is_none-map _ (select is_unresolved run.steps)
      ∙ is_none-select is_unresolved run.steps
      ∙ all-same _ _ is_unresolved-not run.steps

  pub open_violations-is_none : is_none (open_violations run) ≡ all_resolved
  unfolding open_violations
  open_violations-is_none = is_none-select not run.violations_resolved
