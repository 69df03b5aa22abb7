-- ===== src/Failure/Runs.antt =====
-- `classify_step_failure` and `classify_run_failures` (app/workflow_runtime/failure_classifier.py).
use ai_agent_workflow.Prelude.{
  String, Bool, true, false, not, ◌||◌, Option, none, some, List, [], ◌∷◌, map, select, is_some,
  str_eq, if◌then◌else◌, any,
}
use ai_agent_workflow.Prelude.Letters.{is_in}
use ai_agent_workflow.Failure.Classify.{Payload, Value, is_truthy, Report, classify_failure}

pub record FailedStep : Type 0 where
  pub key : Option String
  pub status : String
  pub failure : Value
  pub error : Option String
  pub error_code : Option String

pub record FailedRun : Type 0 where
  pub id : Option String
  pub status : String
  pub failure : Value
  pub error : Option String
  pub error_code : Option String
  pub steps : List FailedStep

abbrev pub is_value : Value → Bool
is_value Value.nothing = false
is_value (Value.plain s) = not (str_eq s "")
is_value (Value.mapping nested payload shown) = not (str_eq shown "")
is_value (Value.raised failure_code error_code code shown) = true

abbrev pub as_value : Option String → Value
as_value none = Value.nothing
as_value (some s) = Value.plain s

-- `failure or error`
abbrev pub or_error : Value → Option String → Value
or_error failure error = if is_value failure then failure else as_value error

abbrev pub has_failed : FailedStep → Bool
has_failed step =
    is_in step.status ("failed" ∷ "waiting_input" ∷ "cancelled" ∷ [])
    || (is_truthy step.error || is_value step.failure)

-- What `classify_run_failures` adds to the report of a step.
pub record StepReport : Type 0 where
  pub report : Report
  pub step_key : Option String
  pub step_status : String
  pub error : Option String

pub record RunReport : Type 0 where
  pub run_id : Option String
  pub status : String
  pub run_failure : Option Report
  pub step_failures : List StepReport
  pub has_failures : Bool

module _ (parse_object : String → Option Payload) where
  unfoldable pub classify_step_failure : FailedStep → Report
  unfolding classify_failure
  classify_step_failure step =
      classify_failure parse_object (or_error step.failure step.error) step.key step.error_code

  abbrev pub step_report : FailedStep → StepReport
  step_report step = record {
    report = classify_step_failure step;
    step_key = step.key;
    step_status = step.status;
    error = step.error;
  }

  abbrev pub run_class : FailedRun → Option Report
  run_class run =
      let input = or_error run.failure run.error in
      if is_value input
      then some (classify_failure parse_object input none run.error_code)
      else none

  unfoldable pub classify_run_failures : FailedRun → RunReport
  unfolding classify_failure classify_step_failure
  classify_run_failures run =
      let steps = map step_report (select has_failed run.steps) in
      record {
        run_id = run.id;
        status = run.status;
        run_failure = run_class run;
        step_failures = steps;
        has_failures = is_some (run_class run) || any (λ step. true) steps;
      }
