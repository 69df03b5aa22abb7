-- ===== src/Recovery/Stores.antt =====
-- The calls that go through the runs of the store (app/workflow_runtime/run_lifecycle.py). What a path
-- resolves to, if it does, is a parameter.
use ai_agent_workflow.Prelude.{
  String, Bool, true, false, not, ◌&&◌, ◌||◌, Option, none, some, List, [], ◌∷◌, map, str_eq,
  if◌then◌else◌, or_else, is_some,
}
use ai_agent_workflow.Prelude.Letters.{lower}
use ai_agent_workflow.Recovery.Owners.{
  Process, Owner, current_run_owner, owner_matches_current_process, owner_process_is_alive, is_text,
}
use ai_agent_workflow.Recovery.Runs.{
  Run, or_path, is_active_run, active_run_owner_is_live, build_restart_recovery, failed_step,
  mark_stale_active_run_interrupted,
}

abbrev pub is_excluded : Option String → Run → Bool
is_excluded none run = false
is_excluded (some id) run = not (str_eq id "") && is_text run.id id

module _ (process : Process) (resolved : String → Option String) where
  abbrev pub case_of : String → String
  case_of path = lower (or_else (resolved path) path)

  -- `_same_path`. When one of the paths does not resolve, both are compared as they are.
  abbrev pub same_resolved : String → String → Bool
  same_resolved left right =
      if is_some (resolved left) && is_some (resolved right)
      then str_eq (case_of left) (case_of right)
      else str_eq (lower left) (lower right)

  unfoldable pub same_path : Option String → String → Bool
  unfolding lower
  same_path none right = false
  same_path (some left) right =
      not (str_eq left "") && (not (str_eq right "") && same_resolved left right)

  unfoldable pub is_of_project : String → Run → Bool
  unfolding same_path
  is_of_project project_path run =
      same_path (or_path run.original_project_path run.project_path) project_path
      || same_path run.project_path project_path

  abbrev pub is_stale : String → Run → Bool
  is_stale project_path run =
      is_active_run run
      && (is_of_project project_path run && not (active_run_owner_is_live process run))

  -- The runs as they are afterwards, and those that were recovered.
  unfoldable pub recover_stale_active_runs_for_project :
      String → String → List Run → List Run × List Run
  unfolding is_active_run is_of_project active_run_owner_is_live mark_stale_active_run_interrupted
  recover_stale_active_runs_for_project now project_path [] = ([], [])
  recover_stale_active_runs_for_project now project_path (run ∷ runs) =
      let rest = recover_stale_active_runs_for_project now project_path runs in
      let marked = mark_stale_active_run_interrupted now none run in
      if is_stale project_path run
      then (marked ∷ rest.0, marked ∷ rest.1)
      else (run ∷ rest.0, rest.1)

  unfoldable pub find_active_run_for_project : String → Option String → List Run → Option Run
  unfolding is_active_run is_of_project active_run_owner_is_live
  find_active_run_for_project project_path exclude [] = none
  find_active_run_for_project project_path exclude (run ∷ runs) =
      let rest = find_active_run_for_project project_path exclude runs in
      if not (is_excluded exclude run)
        && (is_active_run run
            && (is_of_project project_path run && active_run_owner_is_live process run))
      then some run
      else rest

module _ (process : Process) where
  abbrev pub is_foreign_live : Option Owner → Bool
  is_foreign_live none = false
  is_foreign_live (some owner) =
      not (owner_matches_current_process process owner) && owner_process_is_alive process owner

  abbrev pub restart_message : String
  restart_message =
      "Workflow server restarted before this run completed. Resume from the latest checkpoint."

  unfoldable pub interrupted : String → Run → Run
  unfolding build_restart_recovery current_run_owner
  interrupted now run = record run {
    status = "failed";
    error = some restart_message;
    error_code = some "INTERRUPTED";
    ended_at = some now;
    updated_at = some now;
    interrupted_by_owner = some (current_run_owner process);
    restart_recoverable = true;
    recovery = some (build_restart_recovery run);
    has_project_lock = false;
    steps =
        map
          (λ step.
            if str_eq step.status "running" then failed_step restart_message now step else step)
          run.steps;
  }

  -- The runs as they are afterwards, and those that changed.
  unfoldable pub mark_interrupted_store_runs : String → List Run → List Run × List Run
  unfolding interrupted is_active_run
  mark_interrupted_store_runs now [] = ([], [])
  mark_interrupted_store_runs now (run ∷ runs) =
      let rest = mark_interrupted_store_runs now runs in
      if not (is_active_run run) || is_foreign_live run.run_owner
      then (run ∷ rest.0, rest.1)
      else (interrupted now run ∷ rest.0, interrupted now run ∷ rest.1)
