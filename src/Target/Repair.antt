-- ===== src/Target/Repair.antt =====
-- `policy_for_failure` and `render_repair_prompt` (app/workflow_runtime/repair_policy.py).
use ai_agent_workflow.Prelude.{
  ℕ, String, str_append, Option, none, some, List, [], ◌∷◌, if◌then◌else◌, leb,
}
use ai_agent_workflow.Prelude.Letters.{is_in, join, strip_right}
use ai_agent_workflow.Failure.Codes.{FailureCode, code_text}
use ai_agent_workflow.Failure.Classify.{Payload, Value, Report, classify_failure}

pub record SmallModelPolicy : Type 0 where
  pub retry_target_hint : String
  pub prompt_mode : String
  pub instruction : String

abbrev pub evidence_review : SmallModelPolicy
evidence_review = record {
  retry_target_hint = "manual inspection";
  prompt_mode = "evidence_review";
  instruction = "先查看 run-log、step artifacts、validation/test output，再決定 retry target。";
}

-- `_SMALL_MODEL_POLICIES.get(code) or _SMALL_MODEL_POLICIES["UNKNOWN"]`
abbrev pub small_model_policy : FailureCode → SmallModelPolicy
small_model_policy FailureCode.no_file_change = record {
  retry_target_hint = "same implementation step";
  prompt_mode = "short_direct_edit";
  instruction = "直接修改指定專案檔案。不要只回覆說明、計畫、Markdown 或工具 JSON。完成後列出實際改過的檔案。";
}
small_model_policy FailureCode.invalid_output = record {
  retry_target_hint = "same step";
  prompt_mode = "format_repair";
  instruction =
      "不要輸出 write_file/edit_file JSON 或 FILE block。請使用 CLI/agent 的實際檔案編輯能力，或回傳該 step 需要的有效 JSON/Markdown artifact。";
}
small_model_policy FailureCode.test_failed = record {
  retry_target_hint = "build";
  prompt_mode = "test_failure_repair";
  instruction = "以測試 stdout/stderr 為唯一修復依據，優先修 production code；只有測試明顯錯誤時才改 tests。";
}
small_model_policy FailureCode.validation_failed = record {
  retry_target_hint = "build";
  prompt_mode = "validation_oracle_repair";
  instruction =
      "validation.py 是驗收準則。請根據 validation stdout/stderr 修 production output，直到 validation exit code 為 0。";
}
small_model_policy FailureCode.project_guard_blocked = record {
  retry_target_hint = "same step";
  prompt_mode = "path_scope_repair";
  instruction = "所有寫入都必須在 Project Path 內，使用相對路徑，不要嘗試修改外部資料夾。";
}
small_model_policy FailureCode.timeout = record {
  retry_target_hint = "same step or replan";
  prompt_mode = "scope_reduction";
  instruction = "縮小任務，只做當前 step 必要修改；避免長時間命令、網路下載、大型掃描。";
}
small_model_policy FailureCode.expected_files_missing = record {
  retry_target_hint = "producer step";
  prompt_mode = "expected_file_repair";
  instruction = "依 step contract 建立缺少的 expected files，路徑與檔名必須完全一致。";
}
small_model_policy FailureCode.agent_empty_output = record {
  retry_target_hint = "same step";
  prompt_mode = "minimal_prompt_retry";
  instruction = "用最短 prompt 重新要求執行一個具體檔案修改，並確認 agent command 設定可用。";
}
small_model_policy _ = evidence_review

pub record RepairPolicy : Type 0 where
  pub generated_at : String
  pub failure : Report
  pub retry_count : ℕ
  pub retry_target_hint : String
  pub prompt_mode : String
  pub repair_instruction : String
  pub escalation : Option String

abbrev pub escalation_after : ℕ → FailureCode → Option String
escalation_after retry_count code =
    let splits =
      is_in (code_text code) ("NO_FILE_CHANGE" ∷ "INVALID_OUTPUT" ∷ "TIMEOUT" ∷ "UNKNOWN" ∷ []) in
    if leb 3 retry_count
    then some (if splits then "replan_or_split_task" else "try_different_implementation_approach")
    else none

module _ (parse_object : String → Option Payload) where
  -- The time is an argument.
  unfoldable pub policy_for_failure :
      String → Value → Option String → Option String → ℕ → RepairPolicy
  unfolding classify_failure
  policy_for_failure now message step_key error_code retry_count =
      let failure = classify_failure parse_object message step_key error_code in
      let base = small_model_policy failure.code in
      record {
        generated_at = now;
        failure = failure;
        retry_count = retry_count;
        retry_target_hint = base.retry_target_hint;
        prompt_mode = base.prompt_mode;
        repair_instruction = base.instruction;
        escalation = escalation_after retry_count failure.code;
      }

abbrev pub escalation_lines : Option String → List String
escalation_lines none = []
escalation_lines (some escalation) = str_append "- Escalation: " escalation ∷ []

unfoldable pub render_repair_prompt : RepairPolicy → String
unfolding join strip_right
render_repair_prompt policy =
    let failure = policy.failure in
    let named = str_append (code_text failure.code) (str_append " - " failure.title) in
    let lines =
      "### Small Model Repair Policy"
      ∷ str_append "- Failure: " named
      ∷ str_append "- Retry target hint: " policy.retry_target_hint
      ∷ str_append "- Prompt mode: " policy.prompt_mode
      ∷ str_append "- Instruction: " policy.repair_instruction
      ∷ escalation_lines policy.escalation in
    str_append (strip_right (join "\n" lines)) "\n"
