-- ===== src/Target/Examples.antt =====
-- A run whose build fails.
use ai_agent_workflow.Prelude.{
  Bool, String, ◌≡◌, refl, true, false, none, some, List, [], ◌∷◌, Option, arith, ok,
}
use ai_agent_workflow.Prelude.Dict.{get}
use ai_agent_workflow.Failure.Codes.{FailureCode, known_code}
use ai_agent_workflow.Failure.Classify.{
  Payload, Value, result, normalized, canonical_failure_code, classify_failure,
}
use ai_agent_workflow.Failure.Named.{named_code_decides}
use ai_agent_workflow.Target.Records.{RawPolicy, Config, StepRecord, no_policy, has_key}
use ai_agent_workflow.Target.Choose.{retry_target_for_failure}
use ai_agent_workflow.Target.Exists.{target_is_step}
use ai_agent_workflow.Target.Found.{ReturnsFound, target_found}

abbrev no_object : String → Option Payload
no_object s = none

abbrev mentions_none : String → Bool
mentions_none s = false

abbrev plain_config : Config
plain_config = record {
  retry_policy = RawPolicy.missing;
  retry_from_step_key = none;
  fail_action = none;
  fail_action_step_key = none;
  selected_step_key = none;
  retry_escalation_every = none;
  retry_escalation_step_key = none;
}

abbrev step_named : String → StepRecord
step_named key = record {
  key = some key;
  kind = none;
  config = plain_config;
  retry_policy = RawPolicy.missing;
  retry_from_step_key = none;
  fail_action = none;
  retry_escalation_every = none;
  retry_escalation_step_key = none;
}

abbrev validate : StepRecord
validate = record (step_named "validate") {
  retry_policy = RawPolicy.keys (record no_policy { retry_to = some "build" });
}

abbrev workflow : List StepRecord
workflow = step_named "plan" ∷ step_named "build" ∷ validate ∷ []

abbrev timed_out : Value
timed_out = Value.plain "Agent TIMED OUT after 60s"

abbrev missing_code : Value
missing_code =
    Value.mapping none
      (record {
        code = some " no-project-changes";
        error_code = none;
        failure_code = none;
        summary = none;
        message = none;
        error = none;
        detail = none;
        raw_message = none;
      })
      "{'code': ' no-project-changes'}"

timed_out_class :
    classify_failure no_object timed_out none none ≡ result FailureCode.timeout "text_fallback" none
unfolding classify_failure canonical_failure_code get known_code
timed_out_class = refl

aliased_class :
    classify_failure no_object missing_code none none
    ≡ result FailureCode.no_file_change "structured" none
unfolding classify_failure canonical_failure_code get known_code
aliased_class = refl

spelled : normalized (some " validation-failed ") ≡ "VALIDATION_FAILED"
unfolding normalized
spelled = refl

named_code_decides_example :
    classify_failure no_object timed_out (some "validate") (some " validation-failed ")
    ≡ result FailureCode.validation_failed "error_code" (some "validate")
named_code_decides_example =
    named_code_decides no_object FailureCode.validation_failed timed_out (some "validate")
      (some " validation-failed ") spelled

back_to_build :
    retry_target_for_failure no_object mentions_none validate workflow 2 "" none timed_out
    ≡ ok (some "build")
unfolding retry_target_for_failure canonical_failure_code
back_to_build = refl

validate_is_step : has_key workflow "validate" ≡ true
unfolding has_key
validate_is_step = refl

target_is_step_example : has_key workflow "build" ≡ true
target_is_step_example =
    target_is_step no_object mentions_none validate workflow refl validate_is_step 2 "" none
      timed_out back_to_build

target_found_example :
    ReturnsFound validate
      (retry_target_for_failure no_object mentions_none validate workflow 2 "" none timed_out)
target_found_example =
    target_found no_object mentions_none validate workflow refl refl 2 "" none timed_out
      (omega arith)
