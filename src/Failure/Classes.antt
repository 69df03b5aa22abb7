-- ===== src/Failure/Classes.antt =====
-- What is said of each failure class (app/workflow_runtime/failure_classifier.py), in the texts of the
-- source.
use ai_agent_workflow.Prelude.{String, Bool, true, false, Option, none, some}
use ai_agent_workflow.Failure.Codes.{FailureCode}

pub record FailureClass : Type 0 where
  pub title : String
  pub description : String
  pub retry_target : String
  pub repair_prompt_hint : String
  pub severity : String
  pub auto_repairable : Bool
  pub retryable : Option Bool

-- `_FAILURES`
abbrev pub failure_class : FailureCode → FailureClass
failure_class FailureCode.no_file_change = record {
  title = "Agent did not change project files";
  description =
      "The workflow expected real project edits, but no changed files were detected under Project Path.";
  retry_target = "implementation step";
  repair_prompt_hint =
      "Directly create or modify the required files in the selected project. Do not only explain the plan.";
  severity = "high";
  auto_repairable = true;
  retryable = none;
}
failure_class FailureCode.validation_failed = record {
  title = "Validation script failed";
  description =
      "The user/project validation script exited non-zero or reported an assertion failure.";
  retry_target = "implementation step";
  repair_prompt_hint =
      "Use validation stdout/stderr as the acceptance oracle and repair production files until validation exits 0.";
  severity = "high";
  auto_repairable = true;
  retryable = none;
}
failure_class FailureCode.validation_file_not_found = record {
  title = "Required validation file is missing";
  description = "A required validation contract points to a file that does not exist.";
  retry_target = "blocked";
  repair_prompt_hint = "Restore or configure the original validation file; do not bypass it.";
  severity = "high";
  auto_repairable = false;
  retryable = some false;
}
failure_class FailureCode.validation_file_mutated = record {
  title = "Protected validation file changed";
  description = "The immutable user validation file hash changed during the run.";
  retry_target = "implementation step with fresh session";
  repair_prompt_hint = "Restore the original validation file and repair production code only.";
  severity = "critical";
  auto_repairable = false;
  retryable = some false;
}
failure_class FailureCode.validation_not_executed = record {
  title = "Required validation did not execute";
  description = "Required validation has no successful exit-code evidence.";
  retry_target = "validation step";
  repair_prompt_hint =
      "Run the same protected validation contract again after repair until it exits 0.";
  severity = "high";
  auto_repairable = false;
  retryable = some false;
}
failure_class FailureCode.test_definition_invalid = record {
  title = "Generated test definition is invalid";
  description =
      "Generated pytest tests contain unresolved fixture arguments or invalid collection definitions.";
  retry_target = "generate_tests";
  repair_prompt_hint =
      "Regenerate only invalid tests and preserve accepted production checkpoints.";
  severity = "high";
  auto_repairable = true;
  retryable = none;
}
failure_class FailureCode.test_layout_conflict = record {
  title = "Pytest layout conflict";
  description =
      "Pytest found conflicting test modules, commonly a root test_*.py and tests/ counterpart.";
  retry_target = "deterministic test-layout repair";
  repair_prompt_hint =
      "Remove only current-run duplicate root tests, clear pytest caches, and rerun tests.";
  severity = "high";
  auto_repairable = true;
  retryable = none;
}
failure_class FailureCode.test_failed = record {
  title = "Automated tests failed";
  description = "The configured test command or pytest/unittest step failed.";
  retry_target = "implementation step";
  repair_prompt_hint =
      "Repair production code first using failing assertions. Change tests only when clearly invalid.";
  severity = "high";
  auto_repairable = true;
  retryable = none;
}
failure_class FailureCode.review_failed = record {
  title = "Review gate failed";
  description =
      "The review step found missing requirements, unsafe changes, or incomplete evidence.";
  retry_target = "implementation step";
  repair_prompt_hint = "Produce a minimal repair that satisfies the missing acceptance criteria.";
  severity = "medium";
  auto_repairable = true;
  retryable = none;
}
failure_class FailureCode.context_limit_reached = record {
  title = "Agent context limit reached";
  description =
      "The resumed agent session could not fit more history, even after its own compression attempt.";
  retry_target = "same step with fresh session handoff";
  repair_prompt_hint = "Create a compact handoff and continue in a fresh session.";
  severity = "high";
  auto_repairable = true;
  retryable = none;
}
failure_class FailureCode.agent_session_recoverable = record {
  title = "Agent session is recoverable";
  description = "The previous agent session is missing, conflicting, archived, or already in use.";
  retry_target = "same step with fresh session handoff";
  repair_prompt_hint = "Create a fresh session and continue with a compact handoff.";
  severity = "medium";
  auto_repairable = true;
  retryable = none;
}
failure_class FailureCode.timeout = record {
  title = "Step timed out";
  description = "An agent, test, or validation process exceeded its timeout.";
  retry_target = "same step or smaller replanned task";
  repair_prompt_hint = "Reduce task scope, use a fresh session, or adjust the step timeout.";
  severity = "medium";
  auto_repairable = true;
  retryable = none;
}
failure_class FailureCode.invalid_output = record {
  title = "Invalid agent output";
  description =
      "The agent returned malformed JSON, tool-call JSON, FILE blocks in real mode, or unusable output.";
  retry_target = "same step";
  repair_prompt_hint =
      "Use the CLI file editing capability directly and return valid artifact text.";
  severity = "medium";
  auto_repairable = true;
  retryable = none;
}
failure_class FailureCode.project_guard_blocked = record {
  title = "Project guard blocked a write";
  description = "The workflow rejected an unsafe path or a write outside the selected project.";
  retry_target = "same step";
  repair_prompt_hint =
      "Use relative paths inside Project Path only. External folders are read-only context.";
  severity = "high";
  auto_repairable = true;
  retryable = none;
}
failure_class FailureCode.expected_files_missing = record {
  title = "Expected files are missing";
  description = "The step contract declared output files that were not produced.";
  retry_target = "producer step";
  repair_prompt_hint =
      "Create the exact expected file paths from the step contract before continuing.";
  severity = "medium";
  auto_repairable = true;
  retryable = none;
}
failure_class FailureCode.agent_empty_output = record {
  title = "Agent returned empty output";
  description = "The CLI process returned no usable stdout and no detected project changes.";
  retry_target = "same step";
  repair_prompt_hint = "Retry with a shorter direct instruction and verify agent configuration.";
  severity = "medium";
  auto_repairable = true;
  retryable = none;
}
failure_class FailureCode.agent_process_failed = record {
  title = "Agent process failed";
  description = "The CLI process exited with a non-zero code before producing acceptable results.";
  retry_target = "same step";
  repair_prompt_hint =
      "Inspect stderr/stdout and retry after fixing configuration or prompt scope.";
  severity = "high";
  auto_repairable = true;
  retryable = none;
}
failure_class FailureCode.agent_cli_not_found = record {
  title = "Agent CLI not found";
  description = "The configured Qwen/OpenCode executable could not be started.";
  retry_target = "blocked";
  repair_prompt_hint = "Configure the CLI executable or PATH and rerun Setup Smoke.";
  severity = "high";
  auto_repairable = false;
  retryable = some false;
}
failure_class FailureCode.workflow_config_invalid = record {
  title = "Workflow configuration is invalid";
  description =
      "A workflow, step contract, metadata file, or runtime setting failed deterministic validation.";
  retry_target = "blocked";
  repair_prompt_hint = "Fix the configuration and rerun the workflow asset validator.";
  severity = "high";
  auto_repairable = false;
  retryable = some false;
}
failure_class FailureCode.retry_loop_detected = record {
  title = "Retry loop detected";
  description = "The same failure repeated without measurable project or validation progress.";
  retry_target = "manual inspection or smaller replan";
  repair_prompt_hint = "Inspect evidence and change task scope or validation before retrying.";
  severity = "high";
  auto_repairable = false;
  retryable = some false;
}
failure_class FailureCode.user_input_required = record {
  title = "User input is required";
  description = "The workflow cannot continue without a required user answer.";
  retry_target = "waiting_input";
  repair_prompt_hint = "Provide the required answer and resume from the current checkpoint.";
  severity = "low";
  auto_repairable = false;
  retryable = some false;
}
failure_class FailureCode.workflow_cancelled = record {
  title = "Workflow cancelled";
  description = "The run was cancelled by the user or controller shutdown path.";
  retry_target = "cancelled";
  repair_prompt_hint = "Restart from a safe checkpoint if the work is still required.";
  severity = "low";
  auto_repairable = false;
  retryable = some false;
}
failure_class FailureCode.unknown = record {
  title = "Unclassified failure";
  description = "The platform could not map this error to a known workflow failure class.";
  retry_target = "manual inspection";
  repair_prompt_hint =
      "Inspect run-log.md, prompts, artifacts, and validation evidence before retrying.";
  severity = "medium";
  auto_repairable = false;
  retryable = some false;
}
