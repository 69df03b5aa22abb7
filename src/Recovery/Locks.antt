-- ===== src/Recovery/Locks.antt =====
-- The lock file of a project (app/workflow_runtime/run_lifecycle.py, and app/stores/lock_store.py, which
-- passes the calls on). The file at each path of a project is a function; a path is the text that the
-- code has, and texts that name one directory differently are not told apart from different ones.
use ai_agent_workflow.Prelude.{
  String, Bool, true, false, not, ◌&&◌, ◌||◌, Option, none, some, List, str_eq, if◌then◌else◌,
  or_else, find,
}
use ai_agent_workflow.Recovery.Owners.{
  Process, Owner, current_run_owner, owner_matches_current_process, owner_process_is_alive,
}
use ai_agent_workflow.Recovery.Runs.{
  Run, or_path, run_project_path, is_active_run, active_run_owner_is_live,
}

pub record Lock : Type 0 where
  pub run_id : Option String
  pub session_id : Option String
  pub workflow_id : Option String
  pub status : String
  pub project_path : String
  pub effective_project_path : Option String
  pub owner : Option Owner
  pub created_at : String
  pub updated_at : String

-- A file that is missing, one that cannot be read as a dictionary, or a lock.
pub data LockFile : Type 0 where
  absent invalid : LockFile
  locked : Lock → LockFile

abbrev pub LockFiles : Type 0
LockFiles = String → LockFile

unfoldable pub put_file : LockFiles → String → LockFile → LockFiles
put_file files path file other = if str_eq path other then file else files other

unfoldable pub build_project_lock : Process → String → Run → Lock
unfolding current_run_owner run_project_path
build_project_lock process now run = record {
  run_id = run.id;
  session_id = run.session_id;
  workflow_id = run.workflow_id;
  status = run.status;
  project_path = run_project_path run;
  effective_project_path = run.project_path;
  owner = some (current_run_owner process);
  created_at = or_else (or_path run.created_at none) now;
  updated_at = now;
}

unfoldable pub write_project_lock : Process → String → Run → LockFiles → LockFiles
unfolding build_project_lock run_project_path put_file
write_project_lock process now run files =
    let path = run_project_path run in
    if str_eq path ""
    then files
    else put_file files path (LockFile.locked (build_project_lock process now run))

-- `lock.get("run_id") not in {None, expected_run_id}`, where an expected id is given.
abbrev pub is_of_other : Option String → Option String → Bool
is_of_other none id = false
is_of_other (some expected) none = false
is_of_other (some expected) (some id) = not (str_eq expected "") && not (str_eq id expected)

abbrev pub id_in_file : LockFile → Option String
id_in_file (LockFile.locked lock) = lock.run_id
id_in_file file = none

abbrev pub is_absent : LockFile → Bool
is_absent LockFile.absent = true
is_absent file = false

-- `clear_project_lock`, and whether the file was deleted. Whether the system lets a file be deleted is a
-- parameter.
unfoldable pub clear_project_lock :
    (String → Bool) → String → Option String → LockFiles → LockFiles × Bool
unfolding put_file
clear_project_lock deletable path expected files =
    if str_eq path "" || (is_absent (files path) || is_of_other expected (id_in_file (files path)))
    then (files, false)
    else if deletable path
    then (put_file files path LockFile.absent, true)
    else (files, false)

-- The call with a run.
unfoldable pub clear_run_lock : (String → Bool) → Run → Option String → LockFiles → LockFiles × Bool
unfolding clear_project_lock run_project_path
clear_run_lock deletable run run_id files =
    clear_project_lock deletable (run_project_path run) (or_path run_id run.id) files

pub data Reason : Type 0 where
  no_lock invalid_lock active_run live_foreign_owner stale_lock : Reason

abbrev pub same_id : Option String → Option String → Bool
same_id none none = true
same_id (some a) (some b) = str_eq a b
same_id _ _ = false

abbrev pub holds : Process → Option Run → Bool
holds process none = false
holds process (some run) = is_active_run run && active_run_owner_is_live process run

abbrev pub is_foreign : Process → Option Owner → Bool
is_foreign process none = false
is_foreign process (some owner) =
    not (owner_matches_current_process process owner) && owner_process_is_alive process owner

-- The files afterwards, `removed` and `reason`.
unfoldable pub cleanup_stale_project_lock :
    Process → (String → Bool) → String → List Run → LockFiles → LockFiles × Bool × Reason
unfolding clear_project_lock is_active_run active_run_owner_is_live
cleanup_stale_project_lock process deletable path runs files = elim (files path) [
  | LockFile.absent ↦ (files, false, Reason.no_lock)
  | LockFile.invalid ↦ ((clear_project_lock deletable path none files).0, true, Reason.invalid_lock)
  | LockFile.locked lock ↦
      let run = find (λ run. same_id run.id lock.run_id) runs in
      let cleared = clear_project_lock deletable path lock.run_id files in
      if holds process run
      then (files, false, Reason.active_run)
      else if is_foreign process lock.owner
      then (files, false, Reason.live_foreign_owner)
      else (cleared.0, cleared.1, Reason.stale_lock)
]
