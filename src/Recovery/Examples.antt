-- ===== src/Recovery/Examples.antt =====
-- A project whose server was stopped.
use ai_agent_workflow.Prelude.{
  ℕ, String, ◌≡◌, ◌≢◌, refl, Bool, true, false, none, some, Option, List, [], ◌∷◌, inl, inr, eq_iff,
  false≢true, all, ◌==◌,
}
use ai_agent_workflow.Recovery.Owners.{
  Process, Owner, owner_matches_current_process, owner_process_is_alive,
}
use ai_agent_workflow.Recovery.Runs.{
  Step, Run, run_project_path, is_active_run, active_run_owner_is_live, build_restart_recovery,
  mark_stale_active_run_interrupted,
}
use ai_agent_workflow.Recovery.Stores.{recover_stale_active_runs_for_project}
use ai_agent_workflow.Recovery.Resume.{resumes_at_first_open}
use ai_agent_workflow.Recovery.Stale.{
  recover, found, recovery_settles, marked, is_settled, interrupted_are_settled,
}
use ai_agent_workflow.Recovery.Locks.{
  LockFile, LockFiles, put_file, clear_run_lock, build_project_lock,
}
use ai_agent_workflow.Recovery.Guards.{written, written-at, own_run_clears_lock}
use ai_agent_workflow.Recovery.Held.{LockCall, call_all, IsRunning, lock_is_kept}

-- Process 7 of this host is alive, and no other.
abbrev pub server : Process
server = record {
  id = "host:7";
  host = "host";
  pid = 7;
  started_at = "2026-01-01";
  is_alive = λ pid. pid == 7;
}

abbrev owner_with : ℕ → Owner
owner_with pid = record { id = none; host = some "host"; pid = some pid; started_at = none }

abbrev step_with : String → String → Step
step_with key status = record {
  key = some key;
  status = status;
  error = none;
  error_code = none;
  ended_at = none;
}

abbrev pub building : Run
building = record {
  id = some "r1";
  session_id = none;
  workflow_id = none;
  status = "running";
  created_at = none;
  updated_at = none;
  ended_at = none;
  original_project_path = none;
  project_path = some "/P";
  run_owner = some (owner_with 7);
  steps = step_with "plan" "passed" ∷ step_with "build" "running" ∷ step_with "test" "pending" ∷ [];
  checkpoints = [];
  error = none;
  error_code = none;
  restart_recoverable = false;
  recovery = none;
  has_project_lock = true;
  interrupted_by_owner = none;
  cancel_requested = false;
  cancel_reason = none;
  cancel_requested_at = none;
}

-- The owner of this run is gone.
abbrev lost : Run
lost = record building { id = some "r0"; run_owner = some (owner_with 5) }

abbrev as_named : String → Option String
as_named path = some path

abbrev no_files : LockFiles
no_files path = LockFile.absent

abbrev all_deletable : String → Bool
all_deletable path = true

resumes_at_first_open_example : (build_restart_recovery building).resume_index ≡ 1
resumes_at_first_open_example = resumes_at_first_open building 1 refl

lost_is_recovered :
    (recover server as_named "now" "/p" (lost ∷ building ∷ [])).1
    ≡ mark_stale_active_run_interrupted "now" none lost ∷ []
unfolding recover_stale_active_runs_for_project owner_matches_current_process owner_process_is_alive
lost_is_recovered = refl

recovery_settles_example :
    (recover server as_named "now" "/p"
        (recover server as_named "now" "/p" (lost ∷ building ∷ [])).0
      ≡ ((recover server as_named "now" "/p" (lost ∷ building ∷ [])).0, []))
    × (found server as_named "now" "/p" none
          (recover server as_named "now" "/p" (lost ∷ building ∷ [])).0
        ≡ found server as_named "now" "/p" none (lost ∷ building ∷ []))
recovery_settles_example = recovery_settles server as_named "now" "/p" none (lost ∷ building ∷ [])

interrupted_are_settled_example :
    all (is_settled server "now") (marked server "now" (lost ∷ building ∷ [])).0 ≡ true
interrupted_are_settled_example = interrupted_are_settled server "now" (lost ∷ building ∷ [])

building_is_placed : run_project_path building ≢ ""
unfolding run_project_path
building_is_placed e = false≢true ((eq_iff "/P" "").1 e)

other_id : ◌≢◌ {A = String} "r1" "r0"
other_id e = false≢true ((eq_iff "r1" "r0").1 e)

lost_is_named : ◌≢◌ {A = String} "r0" ""
lost_is_named e = false≢true ((eq_iff "r0" "").1 e)

same_project : run_project_path lost ≡ run_project_path building
unfolding run_project_path
same_project = refl

active : is_active_run building ≡ true
unfolding is_active_run
active = refl

live : active_run_owner_is_live server building ≡ true
unfolding active_run_owner_is_live owner_matches_current_process
live = refl

own_run_clears_lock_example :
    clear_run_lock all_deletable building none
      (written server "now" building no_files building_is_placed)
    ≡ (
      put_file
          (written server "now" building no_files building_is_placed)
          (run_project_path building)
          LockFile.absent,
      true,
    )
own_run_clears_lock_example =
    own_run_clears_lock server "now" building no_files building_is_placed all_deletable refl

-- The lost run that has moved to another project.
abbrev moved : Run
moved = record lost { project_path = some "/Q" }

building-IsRunning : IsRunning "r1" server (lost ∷ building ∷ [])
building-IsRunning = record { run = building; stored = refl; active = active; live = live }

elsewhere : ◌≢◌ {A = String} "/Q" "/P"
elsewhere e = false≢true ((eq_iff "/Q" "/P").1 e)

moved_is_elsewhere : run_project_path moved ≢ "/P"
unfolding run_project_path
moved_is_elsewhere = elsewhere

building_is_locked :
    written server "now" building no_files building_is_placed "/P"
    ≡ LockFile.locked (build_project_lock server "now" building)
unfolding run_project_path
building_is_locked = written-at server "now" building no_files building_is_placed

building_is_owner : (build_project_lock server "now" building).run_id ≡ some "r1"
unfolding build_project_lock
building_is_owner = refl

-- The lost run ends and starts in another project, between cleanups of both.
abbrev others : List LockCall
others =
    LockCall.cleanup server all_deletable "/P" (lost ∷ building ∷ [])
    ∷ LockCall.clear all_deletable lost
    ∷ LockCall.write server "later" moved
    ∷ LockCall.cleanup server all_deletable "/Q" []
    ∷ []

lock_is_kept_example :
    call_all (written server "now" building no_files building_is_placed) others "/P"
    ≡ LockFile.locked (build_project_lock server "now" building)
lock_is_kept_example =
    lock_is_kept "r1" "/P" (build_project_lock server "now" building) building_is_owner others
      (written server "now" building no_files building_is_placed)
      (
        inr (inl building-IsRunning),
        (("r0", refl, other_id, lost_is_named), (moved_is_elsewhere, (inl elsewhere, tt))),
      )
      building_is_locked
