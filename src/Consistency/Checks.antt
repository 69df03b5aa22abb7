-- ===== src/Consistency/Checks.antt =====
-- `check_run_consistency` (app/workflow_runtime/run_consistency.py). Each issue comes with its condition,
-- in the order of the source.
use ai_agent_workflow.Prelude.{
  String, str_append, Bool, true, false, not, ◌&&◌, ◌||◌, Option, none, some, List, [], ◌∷◌, ◌++◌,
  map, any, select, str_eq, if◌then◌else◌,
}
use ai_agent_workflow.Prelude.Letters.{is_in}
use ai_agent_workflow.Delivery.Prepare.{add_path}
use ai_agent_workflow.Recovery.Owners.{Process}
use ai_agent_workflow.Recovery.Runs.{
  Run, Step, is_active_run, is_terminal_run, active_run_owner_is_live,
}
use ai_agent_workflow.Recovery.Locks.{LockFile, same_id, is_absent, id_in_file}
use ai_agent_workflow.Consistency.Issues.{
  Line, StateFile, IndexFile, Folder, Severity, Detail, Issue, status_issue, RunCheck, report_of,
}

-- `bool` of a text that may be missing.
abbrev pub has_text : Option String → Bool
has_text none = false
has_text (some text) = not (str_eq text "")

abbrev pub type_of : Line → List String → List String
type_of Line.blank types = types
type_of Line.untyped types = types
type_of Line.invalid types = "__INVALID_JSON__" ∷ types
type_of (Line.typed name) types = if str_eq name "" then types else name ∷ types

-- `_event_types`: a set, as a list in which a type may stand several times.
unfoldable pub event_types_of : List Line → List String
event_types_of [] = []
event_types_of (line ∷ lines) = type_of line (event_types_of lines)

-- `sorted(event_types)`
unfoldable pub sorted_types : List String → List String
sorted_types [] = []
sorted_types (name ∷ names) = add_path name (sorted_types names)

unfoldable pub when : Bool → Issue → List Issue
when b issue = if b then issue ∷ [] else []

abbrev pub none_of : List String → Bool
none_of [] = true
none_of (name ∷ names) = false

abbrev pub is_failed : Step → Bool
is_failed step = str_eq step.status "failed"

module _ (run : Run) (folder : Folder) where
  abbrev pub plain : String → Severity → Issue
  plain issue severity = status_issue run issue severity Detail.nothing_more

  abbrev pub differs : Option String → Bool
  differs none = true
  differs (some status) = not (str_eq status run.status)

  unfoldable pub state_issues : StateFile → List Issue
  unfolding status_issue
  state_issues StateFile.no_state = plain "state_json_missing_or_invalid" Severity.error ∷ []
  state_issues (StateFile.state status) =
      when (differs status) (
        status_issue run "state_status_mismatch" Severity.error (Detail.statuses run.status status))

  abbrev pub is_lost : Option String → Bool
  is_lost none = false
  is_lost (some path) = not (str_eq path "") && not (folder.has_artifact path)

  abbrev pub lost_artifact : Option String → List Issue
  lost_artifact none = []
  lost_artifact (some path) =
      when (is_lost (some path))
        (status_issue run "artifact_record_target_missing" Severity.warning (Detail.artifact path))

  unfoldable pub artifact_issues : List (Option String) → List Issue
  unfolding status_issue
  artifact_issues [] = []
  artifact_issues (path ∷ paths) = lost_artifact path ++ artifact_issues paths

  unfoldable pub index_issues : IndexFile → List Issue
  unfolding artifact_issues status_issue
  index_issues IndexFile.no_index = plain "artifact_index_missing" Severity.warning ∷ []
  index_issues IndexFile.bad_index = plain "artifact_index_invalid" Severity.error ∷ []
  index_issues (IndexFile.index paths) = artifact_issues paths

  -- `any(t in event_types for t in {…})`
  abbrev pub has_terminal_event : List String → Bool
  has_terminal_event types =
      any (λ name. is_in name types)
        ("run.completed" ∷ "run.failed" ∷ "run.cancelled" ∷ str_append "run." run.status ∷ [])

  abbrev pub keeps_lock : LockFile → Bool
  keeps_lock file =
      not (is_absent file) && (same_id (id_in_file file) run.id && is_terminal_run run)

  unfoldable pub all_issues : Process → LockFile → List Issue
  unfolding state_issues index_issues event_types_of is_active_run is_terminal_run
      active_run_owner_is_live status_issue
  all_issues process file =
      let types = event_types_of folder.events_jsonl in
      let failed = select is_failed run.steps in
      when (not (has_text run.id)) (plain "missing_run_id" Severity.error)
      ++ (when (not folder.exists)
            (status_issue run "workspace_missing" Severity.error (Detail.workspace folder.path))
          ++ (state_issues folder.state_json
              ++ (when (is_active_run run && not (active_run_owner_is_live process run))
                    (plain "active_run_owner_not_live" Severity.warning)
                  ++ (when (is_terminal_run run && not (has_text run.ended_at))
                        (plain "terminal_run_missing_ended_at" Severity.error)
                      ++ (when (str_eq run.status "done" && any is_failed run.steps) (
                            status_issue run "done_run_has_failed_steps" Severity.error
                              (Detail.failed_steps (map (λ step. step.key) failed)))
                          ++ (when
                                (str_eq run.status "failed"
                                  && not (has_text run.error || has_text run.error_code))
                                (plain "failed_run_missing_error" Severity.error)
                              ++ (when (is_in "__INVALID_JSON__" types)
                                    (plain "events_jsonl_contains_invalid_json" Severity.error)
                                  ++ (when (none_of types)
                                        (plain "events_jsonl_missing_or_empty" Severity.warning)
                                      ++ (when
                                            (is_terminal_run run && not (has_terminal_event types))
                                            (status_issue run "terminal_event_missing"
                                              Severity.warning
                                              (Detail.event_types (sorted_types types)))
                                          ++ (index_issues folder.index_json
                                              ++ (when
                                                    (str_eq run.status "done"
                                                      && not folder.has_final_report)
                                                    (plain "done_run_missing_final_report"
                                                      Severity.warning)
                                                  ++ when (keeps_lock file) (
                                                      status_issue run
                                                        "terminal_run_still_has_project_lock"
                                                        Severity.error
                                                        (Detail.lock file)))))))))))))

unfoldable pub check_run_consistency : Process → String → Run → Folder → LockFile → RunCheck
unfolding all_issues report_of
check_run_consistency process now run folder file =
    report_of run.id now (all_issues run folder process file)
