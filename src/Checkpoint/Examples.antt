-- ===== src/Checkpoint/Examples.antt =====
-- Checkpoints of one task, of which two are kept.
use Prim.Native.Char.{Char}
use ai_agent_workflow.Prelude.{
  ℕ, zero, suc, ◌≤◌, ◌≡◌, refl, Bool, true, not, none, [], ◌∷◌, arith, ok, err, String,
}
use ai_agent_workflow.Checkpoint.Archives.{
  Files, Checkpoint, Checkpoints, CheckpointLimits, split_path, parts, is_covered,
  iter_project_files, archived, set_at, prune_old_checkpoints, safe_task_id, next_id, written,
  create_task_checkpoint,
}
use ai_agent_workflow.Checkpoint.Restore.{
  archive_not_found, FileSystem, unlink_files, first_outside, extract_all, restore_members,
  restore_files, restore_task_checkpoint,
}
use ai_agent_workflow.Checkpoint.Extracts.{IsDistinct, passing, over, IsPlaceable}
use ai_agent_workflow.Prelude.Dict.{get, put}
use ai_agent_workflow.Checkpoint.Restoring.{bytes, create_then_restore, full_checkpoint_is_lost}

abbrev letters : Char → Bool
letters c = true

abbrev two_kept : CheckpointLimits
two_kept = record { keep = 2; max_total_bytes = 1000; max_file_bytes = 100 }

-- A project, of which the folder of git is not covered, and what has become of it.
abbrev project : Files
project = ("a.py", "print()") ∷ (".git/HEAD", "main") ∷ []

abbrev edited : Files
edited = ("a.py", "") ∷ ("b.py", "1") ∷ (".git/HEAD", "other") ∷ []

abbrev disk : FileSystem
disk = record { is_inside = λ path. true; is_writable = λ path. true }

abbrev no_checkpoints : Checkpoints
no_checkpoints = record {
  task_checkpoints = [];
  last_task_checkpoint_id = none;
  tasks = [];
  archives = λ id. none;
  manifests = λ id. none;
}

small : bytes (iter_project_files two_kept project) ≤ 1000
unfolding bytes iter_project_files is_covered parts split_path
small = omega arith

project-IsDistinct : IsDistinct project
unfolding get
project-IsDistinct = (refl, (refl, tt))

edited-IsDistinct : IsDistinct edited
unfolding get
edited-IsDistinct = (refl, (refl, (refl, tt)))

project-IsPlaceable : IsPlaceable disk (iter_project_files two_kept project)
unfolding iter_project_files is_covered parts split_path
project-IsPlaceable = (refl, refl, tt)

create_then_restore_example :
    ((restore_task_checkpoint two_kept disk
        (create_task_checkpoint letters two_kept no_checkpoints "T1" "code" project).0
        (create_task_checkpoint letters two_kept no_checkpoints "T1" "code" project).1.id
        edited).1
      ≡ ok tt)
    × ((path : String)
        → get
            (restore_task_checkpoint two_kept disk
              (create_task_checkpoint letters two_kept no_checkpoints "T1" "code" project).0
              (create_task_checkpoint letters two_kept no_checkpoints "T1" "code" project).1.id
              edited).0
            path
          ≡ over
              (passing (is_covered two_kept) path (get project path))
              (passing (λ file. not (is_covered two_kept file)) path (get edited path)))
create_then_restore_example =
    create_then_restore letters two_kept no_checkpoints "T1" "code" project two_kept disk edited
      refl small project-IsDistinct edited-IsDistinct project-IsPlaceable

-- The new file is deleted, and the folder of git is as it was at the call.
replaced_files :
    restore_task_checkpoint two_kept disk
      (create_task_checkpoint letters two_kept no_checkpoints "T1" "code" project).0
      (create_task_checkpoint letters two_kept no_checkpoints "T1" "code" project).1.id
      edited
    ≡ ((".git/HEAD", "other") ∷ ("a.py", "print()") ∷ [], ok tt)
unfolding create_task_checkpoint prune_old_checkpoints written next_id archived safe_task_id set_at
    restore_task_checkpoint restore_files restore_members first_outside extract_all unlink_files
    iter_project_files is_covered parts split_path put
replaced_files = refl

-- The run after that many checkpoints of the task.
abbrev after : ℕ → Checkpoints
after zero = no_checkpoints
after (suc n) = (create_task_checkpoint letters two_kept (after n) "T1" "code" project).0

abbrev third : Checkpoint
third = record {
  id = record { sequence = 3; task = "T1" };
  task_id = "T1";
  step_key = "code";
  file_count = 1;
  source_bytes = 7;
  complete = true;
  skipped_file_count = 0;
}

-- The third checkpoint and the fourth have the same id.
twice : (after 4).task_checkpoints ≡ third ∷ third ∷ []
unfolding create_task_checkpoint prune_old_checkpoints written next_id archived safe_task_id
    iter_project_files is_covered parts split_path
twice = refl

next_is_third : third.id ≡ next_id letters (after 4) "T1"
unfolding create_task_checkpoint next_id prune_old_checkpoints safe_task_id written
next_is_third = refl

full_checkpoint_is_lost_example :
    restore_task_checkpoint two_kept disk
      (create_task_checkpoint letters two_kept (after 4) "T1" "code" project).0
      (create_task_checkpoint letters two_kept (after 4) "T1" "code" project).1.id
      edited
    ≡ (
      edited,
      err (
          archive_not_found
            (create_task_checkpoint letters two_kept (after 4) "T1" "code" project).1.id),
    )
full_checkpoint_is_lost_example =
    full_checkpoint_is_lost letters two_kept (after 4) "T1" "code" project two_kept disk edited
      third (third ∷ []) twice refl next_is_third
