-- ===== src/Failure/Markers.antt =====
-- `classify_failure` from a text without a code (app/workflow_runtime/failure_classifier.py): the first
-- test that holds of the text in lower case decides.
use ai_agent_workflow.Prelude.{String, ◌&&◌, ◌||◌, Option, none, some, [], ◌∷◌, if◌then◌else◌}
use ai_agent_workflow.Prelude.Letters.{contains, contains_any}
use ai_agent_workflow.Failure.Codes.{FailureCode}

unfoldable pub text_code : String → Option FailureCode
text_code lowered =
    if contains_any lowered (
      "outside project" ∷ "project guard" ∷ "unsafe file path" ∷ "parent-directory"
      ∷ "absolute path" ∷ [])
    then some FailureCode.project_guard_blocked
    else if contains_any lowered (
        "no files changed" ∷ "project changes were required" ∷ "did not directly create or modify"
        ∷ "did not create or modify" ∷ [])
    then some FailureCode.no_file_change
    else if contains lowered "validation_file_not_found"
    then some FailureCode.validation_file_not_found
    else if contains lowered "validation_file_mutated"
    then some FailureCode.validation_file_mutated
    else if contains lowered "validation_not_executed"
        || contains lowered "required user validation did not pass"
    then some FailureCode.validation_not_executed
    else if contains lowered "validation"
        && contains_any lowered ("failed" ∷ "assertion" ∷ "non-zero" ∷ "exit code" ∷ "error" ∷ [])
    then some FailureCode.validation_failed
    else if contains lowered "unresolved required fixture arguments"
        || contains lowered "test_definition_invalid"
    then some FailureCode.test_definition_invalid
    else if contains_any lowered
        ("test_layout_conflict" ∷ "import file mismatch" ∷ "is not the same as the test file" ∷ [])
    then some FailureCode.test_layout_conflict
    else if contains_any lowered (
        "pytest" ∷ "unittest" ∷ "test_command" ∷ "tests failed" ∷ "test failed" ∷ "assertionerror"
        ∷ [])
    then some FailureCode.test_failed
    else if contains lowered "review"
        && contains_any lowered ("fail" ∷ "failed" ∷ "risk" ∷ "missing" ∷ [])
    then some FailureCode.review_failed
    else if contains_any lowered (
        "context is too large" ∷ "maximum context length" ∷ "compression status: noop"
        ∷ "hard limit" ∷ "too many tokens" ∷ [])
    then some FailureCode.context_limit_reached
    else if contains_any lowered (
        "session not found" ∷ "invalid session" ∷ "session is already in use"
        ∷ "session id already exists" ∷ "no saved session found" ∷ [])
    then some FailureCode.agent_session_recoverable
    else if contains lowered "timed out" || contains lowered "timeout"
    then some FailureCode.timeout
    else if contains_any lowered (
        "tool-call json" ∷ "write_file" ∷ "edit_file" ∷ "file/content/end_file" ∷ "file block"
        ∷ "invalid json" ∷ "malformed json" ∷ [])
    then some FailureCode.invalid_output
    else if contains lowered "expected file(s) not found"
        || (contains lowered "expected files" && contains lowered "missing")
    then some FailureCode.expected_files_missing
    else if contains lowered "returned empty" || contains lowered "empty stdout"
    then some FailureCode.agent_empty_output
    else if contains lowered "process failed with exit code"
    then some FailureCode.agent_process_failed
    else if contains lowered "cli not found"
        || contains lowered "no such file or directory" && contains lowered "qwen"
    then some FailureCode.agent_cli_not_found
    else none
