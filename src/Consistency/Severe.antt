-- ===== src/Consistency/Severe.antt =====
-- Which of the issues of a run are errors.
use ai_agent_workflow.Prelude.{
  arith, String, ◌≡◌, refl, ◌∙◌, Bool, true, false, not, ◌&&◌, ◌||◌, Option, none, some, List, [],
  ◌∷◌, ◌++◌, any, str_eq,
}
use ai_agent_workflow.Prelude.Letters.{is_in}
use ai_agent_workflow.Recovery.Owners.{Process}
use ai_agent_workflow.Recovery.Runs.{Run, is_terminal_run}
use ai_agent_workflow.Recovery.Locks.{LockFile}
use ai_agent_workflow.Consistency.Issues.{
  StateFile, IndexFile, Folder, Issue, status_issue, is_severe,
}
use ai_agent_workflow.Consistency.Checks.{
  has_text, event_types_of, when, is_failed, state_issues, is_lost, artifact_issues, index_issues,
  keeps_lock, all_issues,
}

-- The issues have an error among them exactly when the condition is true.
pub record HasError (issues : List Issue) (b : Bool) : Type 0 where
  pub at : any is_severe issues ≡ b

severe-append :
    (xs ys : List Issue) → any is_severe (xs ++ ys) ≡ any is_severe xs || any is_severe ys
severe-append [] ys = refl
severe-append (x ∷ xs) ys = rw (severe-append xs ys) (ground arith)

part :
    {b c : Bool} {xs ys : List Issue} → HasError xs b → HasError ys c → HasError (xs ++ ys) (b || c)
part {xs = xs} {ys = ys} e f = record { at = severe-append xs ys ∙ rw (e.at, f.at) refl }

-- An error comes when its condition holds, and a warning is no error.
on_error : (b : Bool) (issue : Issue) → is_severe issue ≡ true → HasError (when b issue) b
unfolding when
on_error true issue e = record { at = rw e refl }
on_error false issue e = record { at = refl }

on_warning : (b : Bool) (issue : Issue) → is_severe issue ≡ false → HasError (when b issue) false
unfolding when
on_warning true issue e = record { at = rw e refl }
on_warning false issue e = record { at = refl }

abbrev pub state_fails : Run → StateFile → Bool
state_fails run StateFile.no_state = true
state_fails run (StateFile.state none) = true
state_fails run (StateFile.state (some status)) = not (str_eq status run.status)

abbrev pub is_bad : IndexFile → Bool
is_bad IndexFile.bad_index = true
is_bad file = false

module _ (run : Run) (folder : Folder) where
  severe-state : (file : StateFile) → HasError (state_issues run folder file) (state_fails run file)
  unfolding state_issues status_issue
  severe-state StateFile.no_state = record { at = refl }
  severe-state (StateFile.state none) = on_error true _ refl
  severe-state (StateFile.state (some status)) = on_error (not (str_eq status run.status)) _ refl

  severe-artifacts :
      (paths : List (Option String)) → HasError (artifact_issues run folder paths) false
  unfolding artifact_issues status_issue
  severe-artifacts [] = record { at = refl }
  severe-artifacts (none ∷ paths) = severe-artifacts paths
  severe-artifacts (some path ∷ paths) =
      part (on_warning (is_lost run folder (some path)) _ refl) (severe-artifacts paths)

  severe-index : (file : IndexFile) → HasError (index_issues run folder file) (is_bad file)
  unfolding index_issues status_issue
  severe-index IndexFile.no_index = record { at = refl }
  severe-index IndexFile.bad_index = record { at = refl }
  severe-index (IndexFile.index paths) = severe-artifacts paths

  -- The conditions of the errors.
  abbrev pub fails : LockFile → Bool
  fails file =
      not (has_text run.id)
      || (not folder.exists
          || (state_fails run folder.state_json
              || (is_terminal_run run && not (has_text run.ended_at)
                  || (str_eq run.status "done" && any is_failed run.steps
                      || (str_eq run.status "failed"
                            && not (has_text run.error || has_text run.error_code)
                          || (is_in "__INVALID_JSON__" (event_types_of folder.events_jsonl)
                              || (is_bad folder.index_json || keeps_lock run folder file)))))))

  pub severe-all_issues :
      (process : Process) (file : LockFile)
      → HasError (all_issues run folder process file) (fails file)
  unfolding all_issues status_issue
  severe-all_issues process file = part (on_error (not (has_text run.id)) _ refl) (
      part (on_error (not folder.exists) _ refl) (
        part (severe-state folder.state_json) (
          part (on_warning _ _ refl) (
            part (on_error _ _ refl) (
              part (on_error _ _ refl) (
                part (on_error _ _ refl) (
                  part (on_error _ _ refl) (
                    part (on_warning _ _ refl) (
                      part (on_warning _ _ refl) (
                        part (severe-index folder.index_json)
                          (part (on_warning _ _ refl) (on_error _ _ refl))))))))))))
