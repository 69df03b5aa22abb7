-- ===== src/Failure/Messages.antt =====
-- The texts of `_USER_MESSAGES` (app/workflow_runtime/failure_classifier.py).
use ai_agent_workflow.Prelude.{String}
use ai_agent_workflow.Failure.Codes.{FailureCode}

-- `_USER_MESSAGES`: what is shown, and the recommended action.
abbrev pub user_messages : FailureCode → String × String
user_messages FailureCode.no_file_change = ("未偵測到專案檔案變更。", "請讓 Agent 直接在 Project Path 建立或修改必要檔案。")
user_messages FailureCode.validation_failed = ("專案驗證未通過。", "依照 validation 的輸出修正程式，再重新驗證。")
user_messages FailureCode.validation_file_not_found =
    ("必要驗證檔不存在。", "恢復或指定原始驗證檔後再執行；不可跳過 required validation。")
user_messages FailureCode.validation_file_mutated =
    ("必要驗證檔在執行期間被修改。", "還原原始驗證檔並用新的 Agent Session 重試。")
user_messages FailureCode.validation_not_executed =
    ("必要驗證尚未真正執行成功。", "執行相同驗證命令並取得 Exit Code 0 後才能完成。")
user_messages FailureCode.test_definition_invalid =
    ("產生的測試定義無法被 pytest 正確收集。", "只重新產生測試；不要重做 production code。")
user_messages FailureCode.test_layout_conflict =
    ("測試檔版面衝突，根目錄與 tests/ 可能有同名測試。", "系統會優先安全清理本次 Run 產生的重複測試後重跑。")
user_messages FailureCode.test_failed = ("自動化測試未通過。", "依失敗案例修正 production code，除非測試本身明確錯誤。")
user_messages FailureCode.review_failed = ("品質檢查發現尚未符合的需求。", "依 Review 缺漏項目做最小範圍修正。")
user_messages FailureCode.context_limit_reached =
    ("Agent Session 的上下文已滿。", "使用精簡 handoff 建立新 Session，從目前步驟繼續。")
user_messages FailureCode.agent_session_recoverable =
    ("Agent Session 已失效或衝突。", "建立新 Session 並使用精簡 handoff 從目前步驟繼續。")
user_messages FailureCode.timeout = ("目前步驟執行逾時。", "保留有效變更並用新 Session 重試，或縮小單次任務範圍。")
user_messages FailureCode.invalid_output = ("Agent 回傳格式無法使用。", "請 Agent 直接使用檔案工具修改專案，並回傳要求的結構化結果。")
user_messages FailureCode.project_guard_blocked =
    ("系統阻擋了 Project Path 以外的寫入。", "只使用 Project Path 內的相對路徑。")
user_messages FailureCode.expected_files_missing = ("步驟要求的輸出檔案尚未產生。", "建立 Step Contract 指定的檔案後再繼續。")
user_messages FailureCode.agent_empty_output = ("Agent 沒有回傳可用結果。", "檢查 Agent 設定，並以更短、更直接的指令重試。")
user_messages FailureCode.agent_process_failed = ("Agent CLI 執行失敗。", "檢查 stderr、模型連線與 CLI 設定後再重試。")
user_messages FailureCode.agent_cli_not_found =
    ("找不到指定的 Agent CLI。", "完成 Setup Smoke，確認 CLI 路徑與 PATH 後再執行。")
user_messages FailureCode.workflow_config_invalid =
    ("Workflow 設定不合法。", "修正 Workflow Asset／設定檔後重新驗證。")
user_messages FailureCode.retry_loop_detected = ("系統偵測到沒有進展的重試迴圈。", "查看最後一次失敗證據，縮小任務或調整驗證條件後再執行。")
user_messages FailureCode.user_input_required = ("Workflow 需要使用者補充資訊。", "回答畫面上的必要問題後繼續。")
user_messages FailureCode.workflow_cancelled = ("Workflow 已取消。", "需要時可從安全 Checkpoint 重新執行。")
user_messages FailureCode.unknown = ("系統尚未辨識這個錯誤類型。", "開啟技術診斷查看原始紀錄。")
