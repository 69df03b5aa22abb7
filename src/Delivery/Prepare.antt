-- ===== src/Delivery/Prepare.antt =====
-- `prepare_delivery_journal`.
use Prim.Native.Nat.{Ordering}
use Prim.Native.String.{compare}
use ai_agent_workflow.Prelude.{
  ℕ, String, not, Option, none, some, List, [], ◌∷◌, if◌then◌else◌, select, or_else, Result, ok,
  err,
}
use ai_agent_workflow.Prelude.Dict.{Dict, get}
use ai_agent_workflow.Engine.Tables.{member}
use ai_agent_workflow.Delivery.Files.{
  Node, Tree, set_node, Platform, Error, unsafe_path, apply_conflict, pure, raise, gets, effect,
  ◌>>=◌, ◌>>◌, file_sha256, same_sha, is_file,
}
use ai_agent_workflow.Delivery.Journal.{
  Action, OperationStatus, Operation, JournalStatus, Journal, Step, persist_delivery_journal,
  safe_path,
}

-- Texts are ordered by the numbers of their characters, as in Python.
abbrev placed : Ordering → String → String → List String → List String → List String
placed Ordering.gt path first rest later = first ∷ later
placed _ path first rest later = path ∷ first ∷ rest

insert_path : String → List String → List String
insert_path path [] = path ∷ []
insert_path path (first ∷ rest) =
    placed (compare path first) path first rest (insert_path path rest)

-- One path more in a sorted set.
unfoldable pub add_path : String → List String → List String
unfolding insert_path
add_path path paths = if member path paths then paths else insert_path path paths

unfoldable pub put_backup : String → Option Node → Step (Unit {0})
put_backup path entry = effect (λ w. record w { backup = set_node w.backup path entry })

abbrev pub new_journal : String → String → Option ℕ → List String → List Operation → Journal
new_journal transaction_id run_id fencing_token selected operations = record {
  transaction_id = transaction_id;
  run_id = run_id;
  status = JournalStatus.prepared;
  fencing_token = fencing_token;
  changed_files = selected;
  operations = operations;
  rollback = none;
}

unfoldable pub clear_backup : Step (Unit {0})
clear_backup = effect (λ w. record w { backup = λ path. none })

unfoldable pub unless_conflicts : List String → Step Journal → Step Journal
unless_conflicts [] rest = rest
unless_conflicts (c ∷ cs) rest = raise (apply_conflict (c ∷ cs))

unfoldable pub lift : {A : Type 0} → Result Error A → Step A
lift (ok a) = pure a
lift (err e) = raise e

module _ (p : Platform) where
  -- `sorted({_safe_relative(item).as_posix() for item in changed_files})`
  unfoldable pub selected_paths : List String → Result Error (List String)
  selected_paths [] = ok []
  selected_paths (item ∷ rest) = elim (p.safe_relative item) [
    | none ↦ err (unsafe_path item)
    | some path ↦ elim (selected_paths rest) [ err e ↦ err e | ok paths ↦ ok (add_path path paths) ]
  ]

  abbrev pub expected_sha : Dict (Option String) → String → Option String
  expected_sha baseline path = or_else (get baseline path) none

  -- The paths that are not as the baseline says. Without a baseline there is no conflict.
  unfoldable pub conflicts_of : Option (Dict (Option String)) → Tree → List String → List String
  conflicts_of none original paths = []
  conflicts_of (some baseline) original paths =
      select (λ path. not (same_sha (file_sha256 p (original path)) (expected_sha baseline path)))
        paths

  -- The operation for a path, from what stands there in the project and in the workspace.
  unfoldable pub new_operation : String → Option Node → Option Node → Operation
  new_operation path target source = record {
    path = path;
    action = if is_file source then Action.write else Action.delete;
    status = OperationStatus.prepared;
    existed = is_file target;
    target_before_sha256 = file_sha256 p target;
    source_sha256 = if is_file source then file_sha256 p source else none;
  }

  -- The body of the loop. `shutil.copy2` counts as one effect: no one reads a backup before the
  -- journal is saved.
  unfoldable pub prepare_operation : String → Step Operation
  prepare_operation path = do
    rel ← safe_path p path
    source ← gets (λ w. w.isolated rel)
    target ← gets (λ w. w.original rel)
    if is_file target then put_backup rel target else pure tt
    pure (new_operation path target source)

  unfoldable pub prepare_operations : List String → Step (List Operation)
  prepare_operations [] = pure []
  prepare_operations (path ∷ rest) = do
    op ← prepare_operation path
    ops ← prepare_operations rest
    pure (op ∷ ops)

  unfoldable pub prepare_selected :
      Option (Dict (Option String)) → String → String → Option ℕ → List String → Step Journal
  prepare_selected baseline transaction_id run_id fencing_token selected = do
    conflicts ← gets (λ w. conflicts_of baseline w.original selected)
    unless_conflicts conflicts (do
      clear_backup
      operations ← prepare_operations selected
      let journal = new_journal transaction_id run_id fencing_token selected operations
      persist_delivery_journal journal
      pure journal)

  unfoldable pub prepare_delivery_journal :
      List String → Option (Dict (Option String)) → String → String → Option ℕ → Step Journal
  prepare_delivery_journal changed_files baseline transaction_id run_id fencing_token =
      lift (selected_paths changed_files) >>= λ selected.
      prepare_selected baseline transaction_id run_id fencing_token selected
