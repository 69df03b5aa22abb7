-- ===== src/Failure/Codes.antt =====
-- The failure classes of app/workflow_runtime/failure_classifier.py, `_FAILURES`, by their codes.
use ai_agent_workflow.Prelude.{String, Option, List, [], ◌∷◌, find, str_eq}

pub data FailureCode : Type 0 where
  no_file_change validation_failed validation_file_not_found validation_file_mutated : FailureCode
  validation_not_executed test_definition_invalid test_layout_conflict test_failed : FailureCode
  review_failed context_limit_reached agent_session_recoverable timeout : FailureCode
  invalid_output project_guard_blocked expected_files_missing agent_empty_output : FailureCode
  agent_process_failed agent_cli_not_found workflow_config_invalid retry_loop_detected : FailureCode
  user_input_required workflow_cancelled unknown : FailureCode

abbrev pub code_text : FailureCode → String
code_text FailureCode.no_file_change = "NO_FILE_CHANGE"
code_text FailureCode.validation_failed = "VALIDATION_FAILED"
code_text FailureCode.validation_file_not_found = "VALIDATION_FILE_NOT_FOUND"
code_text FailureCode.validation_file_mutated = "VALIDATION_FILE_MUTATED"
code_text FailureCode.validation_not_executed = "VALIDATION_NOT_EXECUTED"
code_text FailureCode.test_definition_invalid = "TEST_DEFINITION_INVALID"
code_text FailureCode.test_layout_conflict = "TEST_LAYOUT_CONFLICT"
code_text FailureCode.test_failed = "TEST_FAILED"
code_text FailureCode.review_failed = "REVIEW_FAILED"
code_text FailureCode.context_limit_reached = "CONTEXT_LIMIT_REACHED"
code_text FailureCode.agent_session_recoverable = "AGENT_SESSION_RECOVERABLE"
code_text FailureCode.timeout = "TIMEOUT"
code_text FailureCode.invalid_output = "INVALID_OUTPUT"
code_text FailureCode.project_guard_blocked = "PROJECT_GUARD_BLOCKED"
code_text FailureCode.expected_files_missing = "EXPECTED_FILES_MISSING"
code_text FailureCode.agent_empty_output = "AGENT_EMPTY_OUTPUT"
code_text FailureCode.agent_process_failed = "AGENT_PROCESS_FAILED"
code_text FailureCode.agent_cli_not_found = "AGENT_CLI_NOT_FOUND"
code_text FailureCode.workflow_config_invalid = "WORKFLOW_CONFIG_INVALID"
code_text FailureCode.retry_loop_detected = "RETRY_LOOP_DETECTED"
code_text FailureCode.user_input_required = "USER_INPUT_REQUIRED"
code_text FailureCode.workflow_cancelled = "WORKFLOW_CANCELLED"
code_text FailureCode.unknown = "UNKNOWN"

abbrev pub all_codes : List FailureCode
all_codes =
    FailureCode.no_file_change ∷ FailureCode.validation_failed
    ∷ FailureCode.validation_file_not_found ∷ FailureCode.validation_file_mutated
    ∷ FailureCode.validation_not_executed ∷ FailureCode.test_definition_invalid
    ∷ FailureCode.test_layout_conflict ∷ FailureCode.test_failed ∷ FailureCode.review_failed
    ∷ FailureCode.context_limit_reached ∷ FailureCode.agent_session_recoverable
    ∷ FailureCode.timeout ∷ FailureCode.invalid_output ∷ FailureCode.project_guard_blocked
    ∷ FailureCode.expected_files_missing ∷ FailureCode.agent_empty_output
    ∷ FailureCode.agent_process_failed ∷ FailureCode.agent_cli_not_found
    ∷ FailureCode.workflow_config_invalid ∷ FailureCode.retry_loop_detected
    ∷ FailureCode.user_input_required ∷ FailureCode.workflow_cancelled ∷ FailureCode.unknown ∷ []

-- `code if code in _FAILURES else None`
unfoldable pub known_code : String → Option FailureCode
known_code code = find (λ c. str_eq (code_text c) code) all_codes

-- `_CODE_ALIASES`
abbrev pub code_aliases : List (String × String)
code_aliases =
    ("PROJECT_DIFF_MISSING", "NO_FILE_CHANGE")
    ∷ ("NO_PROJECT_CHANGES", "NO_FILE_CHANGE")
    ∷ ("AGENT_TIMEOUT", "TIMEOUT")
    ∷ ("AGENT_OUTPUT_FORMAT", "INVALID_OUTPUT")
    ∷ ("EXPECTED_FILES_MISSING", "EXPECTED_FILES_MISSING")
    ∷ ("AGENT_OUTPUT_EMPTY", "AGENT_EMPTY_OUTPUT")
    ∷ ("AGENT_PROCESS_FAILED", "AGENT_PROCESS_FAILED")
    ∷ ("AGENT_SESSION_RECOVERABLE", "AGENT_SESSION_RECOVERABLE")
    ∷ ("CONTEXT_LIMIT_REACHED", "CONTEXT_LIMIT_REACHED")
    ∷ ("AGENT_CLI_NOT_FOUND", "AGENT_CLI_NOT_FOUND")
    ∷ ("WORKFLOW_CONFIG_INVALID", "WORKFLOW_CONFIG_INVALID")
    ∷ ("WORKFLOW_CANCELLED", "WORKFLOW_CANCELLED")
    ∷ ("USER_INPUT_REQUIRED", "USER_INPUT_REQUIRED")
    ∷ ("RETRY_LOOP_DETECTED", "RETRY_LOOP_DETECTED")
    ∷ []
