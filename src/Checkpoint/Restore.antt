-- ===== src/Checkpoint/Restore.antt =====
-- `restore_task_checkpoint`. What the file system answers is a parameter: whether a member's path,
-- resolved, is inside the project, and whether a file can be written there (no directory stands at the
-- path, and no file at a parent of it). The removal of empty directories at the end changes no file.
use ai_agent_workflow.Prelude.{
  String, Bool, false, not, Option, none, some, [], ◌∷◌, select, if◌then◌else◌, Result, ok, err,
}
use ai_agent_workflow.Prelude.Dict.{put}
use ai_agent_workflow.Checkpoint.Archives.{
  CheckpointId, Files, Checkpoints, CheckpointLimits, is_covered,
}

pub data CheckpointError : Type 0 where
  archive_not_found incomplete : CheckpointId → CheckpointError
  unsafe_path not_written : String → CheckpointError

pub record FileSystem : Type 0 where
  pub is_inside : String → Bool
  pub is_writable : String → Bool

abbrev pub is_incomplete : Option Bool → Bool
is_incomplete (some complete) = not complete
is_incomplete none = false

-- The files of the project without those that `_iter_project_files` gives: the loop with `unlink`.
unfoldable pub unlink_files : CheckpointLimits → Files → Files
unlink_files limits project = select (λ file. not (is_covered limits file)) project

-- The first member whose path is outside the project.
unfoldable pub first_outside : FileSystem → Files → Option String
first_outside fs [] = none
first_outside fs ((path, content) ∷ rest) =
    if not (fs.is_inside path) then some path else first_outside fs rest

-- `zf.extractall(project)`: a member that cannot be written ends it.
unfoldable pub extract_all : FileSystem → Files → Files → Files × Result CheckpointError Unit
extract_all fs [] project = (project, ok tt)
extract_all fs ((path, content) ∷ rest) project =
    let later = extract_all fs rest (put project path content) in
    if fs.is_writable path then later else (project, err (not_written path))

unfoldable pub restore_members :
    FileSystem → Option String → Files → Files → Files × Result CheckpointError Unit
restore_members fs (some path) members project = (project, err (unsafe_path path))
restore_members fs none members project = extract_all fs members project

unfoldable pub restore_files :
    CheckpointLimits
    → FileSystem
    → CheckpointId
    → Option Files
    → Option Bool
    → Files
    → Files × Result CheckpointError Unit
unfolding restore_members
restore_files limits fs id none manifest project = (project, err (archive_not_found id))
restore_files limits fs id (some members) manifest project =
    if is_incomplete manifest
    then (project, err (incomplete id))
    else restore_members fs (first_outside fs members) members (unlink_files limits project)

-- The files of the project afterwards, and whether the call returned.
unfoldable pub restore_task_checkpoint :
    CheckpointLimits
    → FileSystem
    → Checkpoints
    → CheckpointId
    → Files
    → Files × Result CheckpointError Unit
unfolding restore_files
restore_task_checkpoint limits fs run id project =
    restore_files limits fs id (run.archives id) (run.manifests id) project
