-- ===== src/Recovery/Held.antt =====
-- What keeps the lock file of a run while others work on the same store
-- (app/workflow_runtime/run_lifecycle.py).
use ai_agent_workflow.Prelude.{
  String, ◌≡◌, ◌≢◌, refl, ap, ◌∙◌, ◌⊎◌, inl, inr, Bool, true, false, Option, none, some, List, [],
  ◌∷◌, str_eq, eq_iff, Bool-cases, arith, find, All,
}
use ai_agent_workflow.Recovery.Owners.{Process, Owner}
use ai_agent_workflow.Recovery.Runs.{Run, run_project_path, is_active_run, active_run_owner_is_live}
use ai_agent_workflow.Recovery.Locks.{
  Lock, LockFile, LockFiles, put_file, write_project_lock, clear_project_lock, clear_run_lock,
  same_id, cleanup_stale_project_lock, is_foreign, holds,
}
use ai_agent_workflow.Recovery.Guards.{is_of_other-ids, holds-found, clear-other, str_eq-false}

-- A call on the lock files, of any process: a cleanup of a path, the deletion for a run, and the start
-- of a run, each with what the system lets delete.
pub data LockCall : Type 0 where
  cleanup : Process → (String → Bool) → String → List Run → LockCall
  clear : (String → Bool) → Run → LockCall
  write : Process → String → Run → LockCall

unfoldable pub call : LockFiles → LockCall → LockFiles
unfolding cleanup_stale_project_lock clear_run_lock write_project_lock
call files (LockCall.cleanup process deletable path runs) =
    (cleanup_stale_project_lock process deletable path runs files).0
call files (LockCall.clear deletable run) = (clear_run_lock deletable run none files).0
call files (LockCall.write process now run) = write_project_lock process now run files

unfoldable pub call_all : LockFiles → List LockCall → LockFiles
unfolding call
call_all files [] = files
call_all files (c ∷ calls) = call_all (call files c) calls

-- The stored run of that id is active, and its owner is alive for the process.
pub record IsRunning (id : String) (process : Process) (runs : List Run) : Type 0 where
  pub run : Run
  pub stored : find (λ other. same_id other.id (some id)) runs ≡ some run
  pub active : is_active_run run ≡ true
  pub live : active_run_owner_is_live process run ≡ true

-- A call that leaves the run of that id and its path alone: the cleanup of another path, or one for
-- which the run is active and alive or the lock's owner is another living process, the end of a run
-- with another id, the start of a run elsewhere.
abbrev pub IsFair : String → String → Option Owner → LockCall → Type 0
IsFair id path owner (LockCall.cleanup process deletable at runs) =
    (at ≢ path) ⊎ (IsRunning id process runs ⊎ (is_foreign process owner ≡ true))
IsFair id path owner (LockCall.clear deletable run) =
    (other : String) × (run.id ≡ some other) × (id ≢ other) × (other ≢ "")
IsFair id path owner (LockCall.write process now run) = run_project_path run ≢ path

module _ (id path : String) (lock : Lock) (own : lock.run_id ≡ some id) where
  clear-elsewhere :
      (deletable : String → Bool) (at : String) (expected : Option String) (files : LockFiles)
      → str_eq at path ≡ false
      → (clear_project_lock deletable at expected files).0 path ≡ files path
  unfolding clear_project_lock put_file
  clear-elsewhere deletable at expected files e = ground (arith, e)

  cleanup-elsewhere :
      (process : Process) (deletable : String → Bool) (at : String) (runs : List Run)
      (files : LockFiles) (there : LockFile)
      → files at ≡ there
      → str_eq at path ≡ false
      → (cleanup_stale_project_lock process deletable at runs files).0 path ≡ files path
  unfolding cleanup_stale_project_lock
  cleanup-elsewhere process deletable at runs files LockFile.absent found e =
      rw (found, cleanup_stale_project_lock) refl
  cleanup-elsewhere process deletable at runs files LockFile.invalid found e =
      rw (found, cleanup_stale_project_lock) (clear-elsewhere deletable at none files e)
  cleanup-elsewhere process deletable at runs files (LockFile.locked other) found e =
      let cleared : (clear_project_lock deletable at other.run_id files).0 path ≡ files path =
        clear-elsewhere deletable at other.run_id files e in
      rw (found, cleanup_stale_project_lock)
        (elim (Bool-cases (holds process (find (λ run. same_id run.id other.run_id) runs))) [
          | inl h ↦ rw h refl
          | inr h ↦ rw h (elim (Bool-cases (is_foreign process other.owner)) [
            | inl f ↦ rw f refl
            | inr f ↦ rw f cleared
          ])
        ])

  cleanup-here :
      (process : Process) (deletable : String → Bool) (at : String) (runs : List Run)
      (files : LockFiles)
      → IsRunning id process runs ⊎ (is_foreign process lock.owner ≡ true)
      → files at ≡ LockFile.locked lock
      → (cleanup_stale_project_lock process deletable at runs files).0 ≡ files
  unfolding cleanup_stale_project_lock
  cleanup-here process deletable at runs files (inl running) held =
      rw (held, cleanup_stale_project_lock)
        (rw own (
          rw
            (holds-found process (find (λ (other : Run). same_id other.id (some id)) runs)
              running.run running.stored running.active running.live)
            refl))
  cleanup-here process deletable at runs files (inr foreign) held =
      rw (held, cleanup_stale_project_lock)
        (elim (Bool-cases (holds process (find (λ run. same_id run.id lock.run_id) runs))) [
          | inl h ↦ rw h refl
          | inr h ↦ rw (h, foreign) refl
        ])

  -- A call at another path, or one that leaves the files when it is at the path of the lock.
  kept_by :
      (at : String) (files files' : LockFiles)
      → files path ≡ LockFile.locked lock
      → (str_eq at path ≡ false → files' path ≡ files path)
      → (at ≡ path → files at ≡ LockFile.locked lock → files' ≡ files)
      → files' path ≡ LockFile.locked lock
  kept_by at files files' held elsewhere here = elim (Bool-cases (str_eq at path)) [
    | inl e ↦
        let same : at ≡ path = (eq_iff at path).0 e in
        ap (λ (f : LockFiles). f path) (here same (ap files same ∙ held)) ∙ held
    | inr e ↦ elsewhere e ∙ held
  ]

  here_only : {A : Type 0} (at : String) → (at ≢ path) ⊎ A → at ≡ path → A
  here_only at (inl other) same = absurd (other same)
  here_only at (inr here) same = here

  cleanup_keeps :
      (process : Process) (deletable : String → Bool) (at : String) (runs : List Run)
      (files : LockFiles)
      → (at ≢ path) ⊎ (IsRunning id process runs ⊎ (is_foreign process lock.owner ≡ true))
      → files path ≡ LockFile.locked lock
      → (cleanup_stale_project_lock process deletable at runs files).0 path ≡ LockFile.locked lock
  cleanup_keeps process deletable at runs files fair held =
      kept_by at files _ held
        (λ e. cleanup-elsewhere process deletable at runs files (files at) refl e)
        λ same there. cleanup-here process deletable at runs files (here_only at fair same) there

  clear_keeps :
      (deletable : String → Bool) (run : Run) (other : String) (files : LockFiles)
      → run.id ≡ some other
      → id ≢ other
      → other ≢ ""
      → files path ≡ LockFile.locked lock
      → (clear_run_lock deletable run none files).0 path ≡ LockFile.locked lock
  unfolding clear_run_lock
  clear_keeps deletable run other files named differ real held =
      kept_by (run_project_path run) files _ held
        (λ e. clear-elsewhere deletable (run_project_path run) run.id files e)
        λ same there.
          ap (λ (p : LockFiles × Bool). p.0)
            (clear-other deletable (run_project_path run) run.id files there
              (is_of_other-ids id other own named differ real))

  write_keeps :
      (process : Process) (now : String) (run : Run) (files : LockFiles)
      → run_project_path run ≢ path
      → files path ≡ LockFile.locked lock
      → write_project_lock process now run files path ≡ LockFile.locked lock
  unfolding write_project_lock put_file
  write_keeps process now run files elsewhere held =
      ground (arith, str_eq-false (run_project_path run) path elsewhere, held)

  call_keeps :
      (c : LockCall) (files : LockFiles)
      → IsFair id path lock.owner c
      → files path ≡ LockFile.locked lock
      → call files c path ≡ LockFile.locked lock
  unfolding call
  call_keeps (LockCall.cleanup process deletable at runs) files fair held =
      cleanup_keeps process deletable at runs files fair held
  call_keeps (LockCall.clear deletable run) files (other, named, differ, real) held =
      clear_keeps deletable run other files named differ real held
  call_keeps (LockCall.write process now run) files elsewhere held =
      write_keeps process now run files elsewhere held

  -- A lock stays in its file over any sequence of calls of which none ends its own run or starts a run
  -- of the same project, and each cleanup of the path finds its run active with a live owner. Cleanups
  -- of other paths, ends of runs with other ids, in the same project too, and starts elsewhere may
  -- come in any order, with any store and any process.
  pub lock_is_kept :
      (calls : List LockCall) (files : LockFiles)
      → All (IsFair id path lock.owner) calls
      → files path ≡ LockFile.locked lock
      → call_all files calls path ≡ LockFile.locked lock
  unfolding call_all
  lock_is_kept [] files fair held = held
  lock_is_kept (c ∷ calls) files fair held =
      lock_is_kept calls (call files c) fair.1 (call_keeps c files fair.0 held)
