-- ===== src/Completion/Examples.antt =====
-- A run that waits for its tests.
use ai_agent_workflow.Prelude.{◌≡◌, refl, true, false, none, some, [], ◌∷◌, str_eq, if◌then◌else◌}
use ai_agent_workflow.Completion.Records.{ExitCode, Run, Evidence}
use ai_agent_workflow.Completion.Gate.{evaluate_completion, require_completion}
use ai_agent_workflow.Completion.Passes.{
  is_ok, may_complete, require_completion_when, no_check_fails, status_by_checks,
}
use ai_agent_workflow.Prelude.Letters.{join}
use ai_agent_workflow.Completion.Gate.{verdict}

-- The result file of the tests says that they passed.
abbrev files : Evidence
files = record {
  text_of = λ name. if str_eq name "test-result.md" then "Status: PASS" else "";
  says_pass = λ text. str_eq text "Status: PASS";
  says_exit_zero = λ text. str_eq text "Status: PASS";
}

abbrev coding : Run
coding = record {
  workflow_id = some "general-auto-development";
  validation_results =
      record { key = some "test"; status = some "Failed"; exit_code = ExitCode.other_code } ∷ [];
  required = false;
  tasks = record { id = some "TASK-001"; status = some "Passed" } ∷ [];
  steps = record { key = some "build"; status = some "passed" } ∷ [];
  violations_resolved = true ∷ [];
}

-- A task is open.
abbrev unfinished : Run
unfinished = record coding { tasks = record { id = none; status = some " Running" } ∷ [] }

passes : is_ok (require_completion files coding) ≡ true
unfolding require_completion
passes = refl

errors_named : (evaluate_completion files unfinished).errors ≡ "Incomplete task(s): unknown" ∷ []
unfolding evaluate_completion join
errors_named = refl

require_completion_when_example :
    is_ok (require_completion files unfinished) ≡ may_complete files unfinished
require_completion_when_example = require_completion_when files unfinished

status_by_checks_example :
    (evaluate_completion files unfinished).status
    ≡ verdict (no_check_fails (evaluate_completion files unfinished))
status_by_checks_example = status_by_checks files unfinished
