-- ===== src/Checkpoint/Archives.antt =====
-- `_iter_project_files`, `create_task_checkpoint` and `_prune_old_checkpoints`. The id of a checkpoint
-- is `task-`, a number and the safe form of the task's id; the last two stand for it here. The files of
-- a project are its regular files, with their bytes, in the order of `rglob`; links and directories are
-- left out. Which characters are letters or digits (`str.isalnum`) is a parameter.
use Prim.Native.Char.{Char, code}
use Prim.Native.String.{len}
use ai_agent_workflow.Prelude.Dict.{Dict}
use ai_agent_workflow.Prelude.Letters.{is_in}
use ai_agent_workflow.Prelude.{
  any, select, ℕ, suc, ◌+◌, max, String, Bool, true, false, not, ◌&&◌, ◌||◌, Option, none, some,
  List, [], ◌∷◌, ◌++◌, str_eq, leb, ltb, ◌==◌, if◌then◌else◌, keep_last, length,
}

pub record CheckpointId : Type 0 where
  pub sequence : ℕ
  pub task : String

abbrev pub same_id : CheckpointId → CheckpointId → Bool
same_id a b = (a.sequence == b.sequence) && str_eq a.task b.task

-- A path relative to the project, and its bytes.
abbrev pub Files : Type 0
Files = Dict String

pub record Checkpoint : Type 0 where
  pub id : CheckpointId
  pub task_id : String
  pub step_key : String
  pub file_count : ℕ
  pub source_bytes : ℕ
  pub complete : Bool
  pub skipped_file_count : ℕ

pub record Task : Type 0 where
  pub id : String
  pub status : String
  pub step_key : String
  pub checkpoint_id : Option CheckpointId

-- The keys of the run document, and the checkpoint directory: an archive and the `complete` of a
-- manifest at each id that has them.
pub record Checkpoints : Type 0 where
  pub task_checkpoints : List Checkpoint
  pub last_task_checkpoint_id : Option CheckpointId
  pub tasks : List Task
  pub archives : CheckpointId → Option Files
  pub manifests : CheckpointId → Option Bool

unfoldable pub set_at :
    {V : Type 0} → (CheckpointId → Option V) → CheckpointId → Option V → CheckpointId → Option V
set_at files id value j = if same_id id j then value else files j

-- The environment: `AIWF_TASK_CHECKPOINT_KEEP` before its bound from below, and the most bytes of all
-- files and of one.
pub record CheckpointLimits : Type 0 where
  pub keep : ℕ
  pub max_total_bytes : ℕ
  pub max_file_bytes : ℕ

abbrev pub kept_count : CheckpointLimits → ℕ
kept_count limits = max 2 limits.keep

-- `EXCLUDED_PARTS`
abbrev pub excluded_parts : List String
excluded_parts =
    ".git" ∷ ".ai-workflow" ∷ ".qwen-workflow" ∷ ".qwen" ∷ "__pycache__" ∷ ".pytest_cache"
    ∷ "node_modules" ∷ ".venv" ∷ "venv" ∷ "target" ∷ "bin" ∷ "obj" ∷ "dist" ∷ "build" ∷ []

-- The part of a path before its first "/", and those after it.
unfoldable pub split_path : String → String × List String
split_path String.[] = (String.[], [])
split_path (String.◌∷◌ c s) =
    let (part, later) = split_path s in
    if code c == 47 then (String.[], part ∷ later) else (String.◌∷◌ c part, later)

unfoldable pub parts : String → List String
unfolding split_path
parts path = let (part, later) = split_path path in part ∷ later

-- The tests of `_iter_project_files` on a regular file.
unfoldable pub is_covered : CheckpointLimits → String × String → Bool
unfolding parts
is_covered limits (path, content) =
    not (any (λ part. is_in part excluded_parts) (parts path))
    && leb (len content) limits.max_file_bytes

unfoldable pub iter_project_files : CheckpointLimits → Files → Files
unfolding is_covered
iter_project_files limits project = select (is_covered limits) project

-- The files that are archived, the paths that are skipped, and the bytes.
unfoldable pub archived : ℕ → ℕ → Files → Files × List String × ℕ
archived limit total [] = ([], [], total)
archived limit total ((path, content) ∷ rest) =
    let fits = leb (total + len content) limit in
    let (kept, skipped, sum) = archived limit (if fits then total + len content else total) rest in
    if fits then ((path, content) ∷ kept, skipped, sum) else (kept, path ∷ skipped, sum)

unfoldable pub delete_all :
    {V : Type 0} → List Checkpoint → (CheckpointId → Option V) → CheckpointId → Option V
unfolding set_at
delete_all [] files = files
delete_all (c ∷ rest) files = delete_all rest (set_at files c.id none)

-- `records[:-keep]`
unfoldable pub cut_last : {A : Type 0} → ℕ → List A → List A
cut_last n [] = []
cut_last n (x ∷ xs) = let rest = cut_last n xs in if ltb n (suc (length xs)) then x ∷ rest else []

-- `_prune_old_checkpoints`
unfoldable pub prune_old_checkpoints : CheckpointLimits → Checkpoints → Checkpoints
prune_old_checkpoints limits run =
    if leb (length run.task_checkpoints) (kept_count limits)
    then run
    else let stale = cut_last (kept_count limits) run.task_checkpoints in
      record run {
        task_checkpoints = keep_last (kept_count limits) run.task_checkpoints;
        archives = delete_all stale run.archives;
        manifests = delete_all stale run.manifests;
      }

-- The first task of that id is marked, or a new one added.
unfoldable pub pass_task : String → String → CheckpointId → List Task → List Task
pass_task task_id step_key id [] =
    record { id = task_id; status = "passed"; step_key = step_key; checkpoint_id = some id } ∷ []
pass_task task_id step_key id (t ∷ rest) =
    let rest' = pass_task task_id step_key id rest in
    if str_eq t.id task_id
    then record t { status = "passed"; step_key = step_key; checkpoint_id = some id } ∷ rest
    else t ∷ rest'

abbrev pub no_skipped : List String → Bool
no_skipped [] = true
no_skipped _ = false

module _ (is_alnum : Char → Bool) where
  -- "-" for a character that is no letter, digit, "-", "_" or "."
  unfoldable pub safe_task_id : String → String
  safe_task_id String.[] = String.[]
  safe_task_id (String.◌∷◌ c s) =
      let rest = safe_task_id s in
      if is_alnum c || ((code c == 45) || ((code c == 95) || (code c == 46)))
      then String.◌∷◌ c rest
      else String.◌∷◌ (Char.char 45 tt) rest

  unfoldable pub next_id : Checkpoints → String → CheckpointId
  next_id run task_id = record {
    sequence = length run.task_checkpoints + 1;
    task = safe_task_id task_id;
  }

  abbrev pub new_checkpoint : CheckpointLimits → Checkpoints → String → String → Files → Checkpoint
  new_checkpoint limits run task_id step_key project =
      let (kept, skipped, total) =
        archived limits.max_total_bytes 0 (iter_project_files limits project) in
      record {
        id = next_id run task_id;
        task_id = task_id;
        step_key = step_key;
        file_count = length kept;
        source_bytes = total;
        complete = no_skipped skipped;
        skipped_file_count = length skipped;
      }

  -- The archive, the manifest and the record, before the pruning.
  unfoldable pub written : CheckpointLimits → Checkpoints → String → String → Files → Checkpoints
  written limits run task_id step_key project =
      let c = new_checkpoint limits run task_id step_key project in
      record run {
        task_checkpoints = run.task_checkpoints ++ c ∷ [];
        archives =
            set_at run.archives c.id
              (some (archived limits.max_total_bytes 0 (iter_project_files limits project)).0);
        manifests = set_at run.manifests c.id (some c.complete);
      }

  unfoldable pub create_task_checkpoint :
      CheckpointLimits → Checkpoints → String → String → Files → Checkpoints × Checkpoint
  create_task_checkpoint limits run task_id step_key project =
      let c = new_checkpoint limits run task_id step_key project in
      let pruned = prune_old_checkpoints limits (written limits run task_id step_key project) in
      (
        record pruned {
          last_task_checkpoint_id = some c.id;
          tasks = pass_task task_id step_key c.id pruned.tasks;
        },
        c,
      )
