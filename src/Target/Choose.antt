-- ===== src/Target/Choose.antt =====
-- `retry_target_for_step`, `escalated_retry_target_for_step` and `retry_target_for_failure`
-- (app/workflow_runtime/retry_policy.py), and `classify_test_retry_target`
-- (app/runtime_modules/files.py). Whether a text mentions a file of the project outside its tests, and
-- what `json.loads` makes of a text, are parameters.
use ai_agent_workflow.Prelude.{
  ℕ, zero, suc, ◌-◌, ◌%◌, String, Bool, not, ◌&&◌, ◌||◌, Option, none, some, List, [], ◌∷◌, str_eq,
  if◌then◌else◌, ltb, ◌==◌, or_else, Result, err, ok,
}
use ai_agent_workflow.Prelude.Letters.{lower, contains, contains_any}
use ai_agent_workflow.Retry.Budget.{Configured}
use ai_agent_workflow.Failure.Codes.{FailureCode, code_text}
use ai_agent_workflow.Failure.Classify.{Payload, Value, shown_text, classify_failure}
use ai_agent_workflow.Target.Records.{EveryValue, StepRecord, retry_policy, has_key, first_text}

-- What `steps[i]["key"]` raises.
pub data LookupError : Type 0 where
  index_error key_error : LookupError

abbrev pub Chosen : Type 0
Chosen = Result LookupError (Option String)

unfoldable pub key_at : List StepRecord → ℕ → Chosen
key_at [] i = err LookupError.index_error
key_at (step ∷ steps) zero = elim step.key [
  | none ↦ err LookupError.key_error
  | some key ↦ ok (some key)
]
key_at (step ∷ steps) (suc i) = key_at steps i

-- The value if it is the key of a step.
abbrev pub available : List StepRecord → Option String → Option String
available steps none = none
available steps (some s) = if has_key steps s then some s else none

abbrev pub or_own_key : Option String → Option String → Option String
or_own_key none key = key
or_own_key (some s) key = some s

abbrev pub fail_action_of : StepRecord → String
fail_action_of step =
    or_else (first_text (step.fail_action ∷ step.config.fail_action ∷ [])) "same_step"

unfoldable pub by_fail_action : StepRecord → List StepRecord → ℕ → Chosen
unfolding key_at has_key first_text retry_policy
by_fail_action step steps current_index =
    let action = fail_action_of step in
    let selected = first_text (
      step.config.fail_action_step_key
      ∷ step.config.selected_step_key
      ∷ step.config.retry_from_step_key
      ∷ (retry_policy step).default_retry_to
      ∷ []) in
    if str_eq action "stop"
    then ok none
    else if str_eq action "previous_step" && ltb 0 current_index
    then key_at steps (current_index - 1)
    else if str_eq action "selected_step"
    then ok (or_own_key (available steps selected) step.key)
    else ok step.key

-- The target that the step names.
unfoldable pub configured_target : StepRecord → Option String
unfolding first_text retry_policy
configured_target step =
    let policy = retry_policy step in
    first_text (
      policy.default_retry_to ∷ policy.retry_to ∷ step.retry_from_step_key
      ∷ step.config.retry_from_step_key ∷ [])

unfoldable pub retry_target_for_step : StepRecord → List StepRecord → ℕ → Chosen
unfolding by_fail_action has_key configured_target
retry_target_for_step step steps current_index = elim (available steps (configured_target step)) [
  | some target ↦ ok (some target)
  | none ↦ by_fail_action step steps current_index
]

-- `a or b or c`
abbrev pub or_every : Option EveryValue → Option EveryValue → Option EveryValue
or_every none b = b
or_every (some EveryValue.false_value) b = b
or_every (some (EveryValue.true_value value)) b = some (EveryValue.true_value value)

-- `int(raw_every or 0)` with its handler; what is not positive gives 0.
abbrev pub every_of : Option EveryValue → ℕ
every_of (some (EveryValue.true_value (Configured.number n))) = n
every_of _ = 0

unfoldable pub escalated_retry_target_for_step : StepRecord → List StepRecord → ℕ → Option String
unfolding has_key first_text retry_policy
escalated_retry_target_for_step step steps next_retry_count =
    let policy = retry_policy step in
    let every = every_of (
      or_every policy.escalate_every
        (or_every step.retry_escalation_every step.config.retry_escalation_every)) in
    let target = first_text (
      policy.escalate_to ∷ step.retry_escalation_step_key ∷ step.config.retry_escalation_step_key
      ∷ []) in
    if every == 0 || (next_retry_count == 0 || not (next_retry_count % every == 0))
    then none
    else available steps target

module _ (mentions_production : String → Bool) where
  unfoldable pub classify_test_retry_target : String → String
  unfolding lower
  classify_test_retry_target test_result =
      let lowered = lower test_result in
      if mentions_production test_result
      then "build"
      else if contains_any lowered (
          "error collecting" ∷ "importerror while importing test module" ∷ "import file mismatch"
          ∷ "is not the same as the test file" ∷ "syntaxerror" ∷ [])
      then "generate_tests"
      else if (contains lowered "nameerror:" || contains lowered "attributeerror:")
          && contains_any lowered ("test_" ∷ "tests/" ∷ "tests\\" ∷ [])
      then "generate_tests"
      else "build"

abbrev pub is_review_fault : StepRecord → FailureCode → String → Bool
is_review_fault step code lowered =
    str_eq (lower (or_else step.kind "")) "review"
    && (str_eq (code_text code) "INVALID_OUTPUT"
        || contains_any lowered ("invalid_review_output" ∷ "review_mutated_project" ∷ []))

abbrev pub allows_escalation : String → Bool
allows_escalation lowered =
    contains_any lowered
      ("replan_required" ∷ "plan_invalid" ∷ "spec_conflict" ∷ "task definition is incomplete" ∷ [])

abbrev pub if_key : List StepRecord → String → Option String → Option String
if_key steps s configured = if has_key steps s then some s else configured

abbrev pub escalation : StepRecord → List StepRecord → Option ℕ → String → Option String
escalation step steps none lowered = none
escalation step steps (some count) lowered =
    if allows_escalation lowered then escalated_retry_target_for_step step steps count else none

module _ (parse_object : String → Option Payload) (mentions_production : String → Bool) where
  -- The part after the configured target is known. The text of `test-result.md` is an argument.
  unfoldable pub target_after :
      StepRecord → List StepRecord → Option String → String → Option ℕ → Value → Option String
  unfolding lower classify_failure has_key
  target_after step steps configured test_result next_retry_count error =
      let key = or_else step.key "" in
      let code = (classify_failure parse_object error (some key) none).code in
      let lowered = lower (shown_text error) in
      if is_review_fault step code lowered
      then some key
      else if str_eq (code_text code) "TEST_DEFINITION_INVALID"
      then if_key steps "generate_tests" configured
      else if str_eq key "run_test"
      then if_key steps (classify_test_retry_target mentions_production test_result) configured
      else or_own_key (escalation step steps next_retry_count lowered) configured

  unfoldable pub retry_target_for_failure :
      StepRecord → List StepRecord → ℕ → String → Option ℕ → Value → Chosen
  unfolding retry_target_for_step target_after
  retry_target_for_failure step steps current_index test_result next_retry_count error =
      elim (retry_target_for_step step steps current_index) [
        | err raised ↦ err raised
        | ok configured ↦ ok (target_after step steps configured test_result next_retry_count error)
      ]
