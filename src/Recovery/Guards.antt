-- ===== src/Recovery/Guards.antt =====
-- What the lock of a project keeps out.
use ai_agent_workflow.Prelude.{
  String, ◌≡◌, ◌≢◌, refl, ap, ◌∙◌, Bool, true, false, Option, none, some, str_eq, eq_iff, eq_refl,
  Bool-cases, inl, inr, arith,
}
use ai_agent_workflow.Recovery.Owners.{Process}
use ai_agent_workflow.Recovery.Runs.{Run, run_project_path, is_active_run, active_run_owner_is_live}
use ai_agent_workflow.Recovery.Locks.{
  Lock, LockFile, LockFiles, put_file, build_project_lock, write_project_lock, clear_project_lock,
  clear_run_lock, holds, is_of_other,
}

pub str_eq-false : (s t : String) → s ≢ t → str_eq s t ≡ false
str_eq-false s t differ = elim (Bool-cases (str_eq s t)) [
  | inl e ↦ absurd (differ ((eq_iff s t).0 e))
  | inr e ↦ e
]

module _ (deletable : String → Bool) (path : String) (expected : Option String) (files : LockFiles)
    {lock : Lock} (stored : files path ≡ LockFile.locked lock) where
  pub clear-other :
      is_of_other expected lock.run_id ≡ true
      → clear_project_lock deletable path expected files ≡ (files, false)
  unfolding clear_project_lock
  clear-other other = elim (Bool-cases (str_eq path "")) [
    | inl e ↦ rw (e, clear_project_lock) refl
    | inr e ↦ rw (e, clear_project_lock) (rw stored (rw other refl))
  ]

  pub clear-own :
      path ≢ ""
      → is_of_other expected lock.run_id ≡ false
      → deletable path ≡ true
      → clear_project_lock deletable path expected files
        ≡ (put_file files path LockFile.absent, true)
  unfolding clear_project_lock
  clear-own named own allowed =
      rw (str_eq-false path "" named) (rw stored (rw own (rw allowed refl)))

pub is_of_other_self : (id : Option String) → is_of_other id id ≡ false
is_of_other_self none = refl
is_of_other_self (some id) = ground (arith, eq_refl id)

pub is_of_other-ids :
    {a b : Option String} (id id' : String)
    → a ≡ some id
    → b ≡ some id'
    → id ≢ id'
    → id' ≢ ""
    → is_of_other b a ≡ true
is_of_other-ids id id' own others differ named =
    rw own (rw others (rw (str_eq-false id' "" named) (rw (str_eq-false id id' differ) refl)))

pub holds-found :
    (process : Process) (found : Option Run) (run : Run)
    → found ≡ some run
    → is_active_run run ≡ true
    → active_run_owner_is_live process run ≡ true
    → holds process found ≡ true
holds-found process found run stored active live = rw stored (rw active (rw live refl))

module _ (process : Process) (now : String) (run : Run) (files : LockFiles)
    (placed : run_project_path run ≢ "") where
  abbrev pub written : LockFiles
  written = write_project_lock process now run files

  pub written-at :
      written (run_project_path run) ≡ LockFile.locked (build_project_lock process now run)
  unfolding write_project_lock put_file
  written-at =
      rw (str_eq-false (run_project_path run) "" placed) (rw (eq_refl (run_project_path run)) refl)

  -- While a run has the lock of a project, a call for another run of that project leaves the file.
  pub other_run_keeps_lock :
      (deletable : String → Bool) (other : Run) (id id' : String)
      → run.id ≡ some id
      → other.id ≡ some id'
      → id ≢ id'
      → id' ≢ ""
      → run_project_path other ≡ run_project_path run
      → clear_run_lock deletable other none written ≡ (written, false)
  unfolding clear_run_lock build_project_lock
  other_run_keeps_lock deletable other id id' own others differ named same =
      ap (λ (path : String). clear_project_lock deletable path other.id written) same
      ∙ clear-other deletable (run_project_path run) other.id written written-at
          (is_of_other-ids id id' own others differ named)

  -- The run that wrote the lock deletes it, and no other file.
  pub own_run_clears_lock :
      (deletable : String → Bool)
      → deletable (run_project_path run) ≡ true
      → clear_run_lock deletable run none written
        ≡ (put_file written (run_project_path run) LockFile.absent, true)
  unfolding clear_run_lock build_project_lock
  own_run_clears_lock deletable allowed =
      clear-own deletable (run_project_path run) run.id written written-at placed
        (is_of_other_self run.id) allowed
