-- ===== src/Consistency/Examples.antt =====
-- The check of a run that was interrupted and recovered.
use ai_agent_workflow.Prelude.{String, ◌≡◌, ◌↔◌, refl, true, false, none, some, [], ◌∷◌, All}
use ai_agent_workflow.Recovery.Runs.{Run, mark_stale_active_run_interrupted}
use ai_agent_workflow.Recovery.Locks.{LockFile, LockFiles}
use ai_agent_workflow.Recovery.Examples.{server, building}
use ai_agent_workflow.Consistency.Issues.{Line, StateFile, IndexFile, Folder}
use ai_agent_workflow.Consistency.Checks.{check_run_consistency}
use ai_agent_workflow.Consistency.Passes.{IsConsistent, recovered_passes}
use ai_agent_workflow.Consistency.Stores.{
  check_store_consistency, lock_of, store_passes_when-IsConsistent,
}

-- A workspace whose state is of this status.
abbrev folder_with : String → Folder
folder_with status = record {
  path = "/W";
  exists = true;
  state_json = StateFile.state (some status);
  events_jsonl = Line.typed "run.started" ∷ Line.blank ∷ [];
  index_json = IndexFile.index (some "log.txt" ∷ none ∷ []);
  has_artifact = λ path. false;
  has_final_report = false;
}

abbrev no_locks : LockFiles
no_locks path = LockFile.absent

abbrev recovered : Run
recovered = mark_stale_active_run_interrupted "2026-01-02" none building

store_passes_when-IsConsistent_example :
    (check_store_consistency server "2026-01-03"
        (λ run. folder_with "failed")
        no_locks
        (recovered ∷ building ∷ [])).status
      ≡ "PASS"
    ↔ All
        (λ run. IsConsistent run (folder_with "failed") (lock_of no_locks run))
        (recovered ∷ building ∷ [])
store_passes_when-IsConsistent_example =
    store_passes_when-IsConsistent server "2026-01-03" (λ run. folder_with "failed") no_locks
      (recovered ∷ building ∷ [])

recovered_passes_example :
    (check_run_consistency server "2026-01-03" recovered
      (folder_with "failed")
      LockFile.absent).status
    ≡ "PASS"
recovered_passes_example =
    recovered_passes server "2026-01-03" "2026-01-02" none building (folder_with "failed")
      LockFile.absent refl refl refl refl (refl, (refl, tt)) refl (λ e. cc)
