-- ===== src/Completion/Gate.antt =====
-- `evaluate_completion` and `require_completion`. The texts of the files in the output directory, and
-- whether a text has the line `Status: PASS` and a line with the exit code 0, are parameters.
use ai_agent_workflow.Prelude.{
  String, str_append, Bool, true, false, not, ◌&&◌, ◌||◌, Option, none, some, List, [], ◌∷◌, ◌++◌,
  map, select, find, is_some, str_eq, if◌then◌else◌, or_else, truthy_or, Result, err, ok,
}
use mathlib.Core.List.{reverse}
use ai_agent_workflow.Prelude.Letters.{strip, lower, replace, is_in, join}
use ai_agent_workflow.Completion.Records.{
  Evidence, ExitCode, Gate, Run, Step, Task, Validation, Verdict,
}

-- `_status`
unfoldable pub status_of : Option String → String
unfolding strip lower replace
status_of value = replace b' ' "_" (lower (strip (or_else value "")))

abbrev pub is_pass : String → Bool
is_pass status = is_in status ("pass" ∷ "passed" ∷ "success" ∷ "completed" ∷ "done" ∷ [])

abbrev pub is_neutral : String → Bool
is_neutral status =
    is_in status ("not_configured" ∷ "skipped" ∷ "not-required" ∷ "not_required" ∷ [])

-- `_exit_zero`
abbrev pub exit_zero : ExitCode → Bool
exit_zero ExitCode.missing = false
exit_zero ExitCode.zero_code = true
exit_zero ExitCode.other_code = false
exit_zero (ExitCode.text_code s) = str_eq (strip s) "0"

abbrev pub has_key : String → Validation → Bool
has_key key item = str_eq (or_else item.key "") key

-- `_validation_record`
unfoldable pub validation_record : Run → String → Option Validation
validation_record run key = find (has_key key) (reverse run.validation_results)

-- A record that is there, passed and has the exit code 0.
unfoldable pub has_passed : Option Validation → Bool
unfolding status_of strip
has_passed none = false
has_passed (some item) = is_pass (status_of item.status) && exit_zero item.exit_code

-- `_artifact_pass`
unfoldable pub artifact_pass : Evidence → String → Bool
unfolding strip
artifact_pass evidence name =
    let text = evidence.text_of name in
    not (str_eq (strip text) "") && (evidence.says_pass text && evidence.says_exit_zero text)

abbrev pub is_code_workflow : Run → Bool
is_code_workflow run =
    is_in (or_else run.workflow_id "") ("general-auto-development" ∷ "adaptive-auto-workflow" ∷ [])

abbrev pub verdict : Bool → Verdict
verdict b = if b then Verdict.pass else Verdict.fail

unfoldable pub tests_ok : Evidence → Run → Bool
unfolding has_passed artifact_pass validation_record
tests_ok evidence run =
    has_passed (validation_record run "test")
    || (artifact_pass evidence "test-result.md"
        || has_passed (validation_record run "user_validation"))

unfoldable pub user_ok : Evidence → Run → Bool
unfolding has_passed artifact_pass validation_record
user_ok evidence run =
    has_passed (validation_record run "user_validation")
    || (run.required
        && (artifact_pass evidence "external-validation-result.md"
            || artifact_pass evidence "user-validation-result.md"))

-- `not user_validation or uv_status in _NEUTRAL`
abbrev pub neutral : Option Validation → Bool
neutral none = true
neutral (some item) = is_neutral (status_of item.status)

unfoldable pub user_verdict : Evidence → Run → Verdict
unfolding user_ok validation_record
user_verdict evidence run =
    let uv_ok = user_ok evidence run in
    if run.required
    then verdict uv_ok
    else if uv_ok
    then Verdict.pass
    else if neutral (validation_record run "user_validation")
    then Verdict.not_configured
    else Verdict.fail

abbrev pub named : Option String → String
named name = truthy_or name "unknown"

abbrev pub is_incomplete : Task → Bool
is_incomplete task =
    is_in (status_of task.status) ("failed" ∷ "blocked" ∷ "pending" ∷ "running" ∷ "repairing" ∷ [])

abbrev pub is_unresolved : Step → Bool
is_unresolved step = is_in (status_of step.status) ("failed" ∷ "blocked" ∷ "waiting_input" ∷ [])

unfoldable pub incomplete_tasks : Run → List String
unfolding status_of
incomplete_tasks run = map (λ task. named task.id) (select is_incomplete run.tasks)

unfoldable pub active_failures : Run → List String
unfolding status_of
active_failures run = map (λ step. named step.key) (select is_unresolved run.steps)

abbrev pub is_none {ℓ} : {A : Type ℓ} → List A → Bool
is_none [] = true
is_none (x ∷ xs) = false

unfoldable pub open_violations : Run → List Bool
open_violations run = select not run.violations_resolved

-- A message, if it is due.
abbrev pub due : Bool → String → List String
due b message = if b then message ∷ [] else []

unfoldable pub test_errors : Evidence → Run → List String
unfolding tests_ok
test_errors evidence run =
    due (is_code_workflow run && not (tests_ok evidence run))
      "Automated tests were not executed successfully with exit code 0."

unfoldable pub user_errors : Evidence → Run → List String
unfolding user_ok validation_record
user_errors evidence run =
    let record_ = validation_record run "user_validation" in
    let uv_ok = user_ok evidence run in
    if run.required
    then due (not uv_ok) "Required user validation did not pass with exit code 0."
    else due (is_some record_ && (not uv_ok && not (neutral record_)))
        "Configured optional user validation executed but did not pass."

unfoldable pub gate_errors : Evidence → Run → List String
unfolding test_errors user_errors incomplete_tasks active_failures open_violations
gate_errors evidence run =
    let incomplete = incomplete_tasks run in
    let failed = active_failures run in
    test_errors evidence run
    ++ (user_errors evidence run
        ++ (due (not (is_none incomplete))
              (str_append "Incomplete task(s): " (join ", " incomplete))
            ++ (due (not (is_none failed)) (str_append "Unresolved step(s): " (join ", " failed))
                ++ due (not (is_none (open_violations run)))
                    "Unresolved policy violation(s) remain.")))

unfoldable pub evaluate_completion : Evidence → Run → Gate
unfolding gate_errors user_verdict tests_ok incomplete_tasks active_failures open_violations
evaluate_completion evidence run =
    let errors = gate_errors evidence run in
    record {
      automated_tests =
          if is_code_workflow run then some (verdict (tests_ok evidence run)) else none;
      user_validation = user_verdict evidence run;
      accepted_tasks = verdict (is_none (incomplete_tasks run));
      incomplete = incomplete_tasks run;
      step_state = verdict (is_none (active_failures run));
      failed_steps = active_failures run;
      policy = verdict (is_none (open_violations run));
      status = verdict (is_none errors);
      errors = errors;
    }

-- The message of the exception, or the gate.
unfoldable pub require_completion : Evidence → Run → Result String Gate
unfolding evaluate_completion join
require_completion evidence run =
    let gate = evaluate_completion evidence run in
    elim gate.status [
      | Verdict.pass ↦ ok gate
      | _ ↦ err (str_append "FINAL_COMPLETION_GATE_FAILED: " (join "; " gate.errors))
    ]
