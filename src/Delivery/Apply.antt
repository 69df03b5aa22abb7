-- ===== src/Delivery/Apply.antt =====
-- `apply_delivery_journal` and `commit_delivery_journal`.
use ai_agent_workflow.Prelude.{
  String, Bool, not, ◌&&◌, Option, none, List, [], ◌∷◌, ◌++◌, map, if◌then◌else◌,
}
use ai_agent_workflow.Delivery.Files.{
  Node, Platform, conflict_during_resume, source_changed, target_is_directory, pure, raise, gets,
  ◌>>=◌, ◌>>◌, put_original, make_dirs, atomic_copy, file_sha256, same_sha, exists, is_file, is_dir,
}
use ai_agent_workflow.Delivery.Journal.{
  Action, write, delete, OperationStatus, Operation, JournalStatus, Journal, Step,
  persist_delivery_journal, is_terminal, safe_path, operation_is_applied, operation_is_baseline,
  mark_status,
}

module _ (p : Platform) where
  abbrev pub source_matches : Operation → Option Node → Bool
  source_matches op source = is_file source && same_sha (file_sha256 p source) op.source_sha256

  unfoldable pub write_target : Operation → String → Step (Unit {0})
  write_target op rel = do
    source ← gets (λ w. w.isolated rel)
    if source_matches op source
        then (do make_dirs (p.parents rel); atomic_copy source rel)
        else raise (source_changed op.path)

  unfoldable pub delete_target : Operation → String → Step (Unit {0})
  delete_target op rel = do
    target ← gets (λ w. w.original rel)
    if not (exists target)
        then pure tt
        else if is_dir target
        then raise (target_is_directory op.path)
        else put_original rel none

  unfoldable pub change_target : Action → Operation → String → Step (Unit {0})
  change_target write op rel = write_target op rel
  change_target delete op rel = delete_target op rel

  -- The body of the loop, up to the new status, which is the same on both branches.
  unfoldable pub apply_operation : Operation → Step (Unit {0})
  unfolding write_target delete_target change_target
  apply_operation op = do
    rel ← safe_path p op.path
    target ← gets (λ w. w.original rel)
    if operation_is_applied p target op
        then pure tt
        else if not (operation_is_baseline p target op)
        then raise (conflict_during_resume op.path)
        else change_target op.action op rel

  -- The loop over the operations, with those that are done.
  unfoldable pub apply_operations :
      Journal → List Operation → List Operation → Step (List Operation)
  apply_operations journal done [] = pure done
  apply_operations journal done (op ∷ rest) = do
    apply_operation op
    let op' = mark_status OperationStatus.applied op
    persist_delivery_journal (record journal { operations = done ++ op' ∷ rest })
    apply_operations journal (done ++ op' ∷ []) rest

  unfoldable pub run_apply : Journal → Step Journal
  run_apply journal = do
    let started = record journal { status = JournalStatus.applying }
    persist_delivery_journal started
    operations ← apply_operations started [] started.operations
    let finished = record started { status = JournalStatus.verifying; operations = operations }
    persist_delivery_journal finished
    pure finished

  unfoldable pub apply_delivery_journal : Journal → Step Journal
  apply_delivery_journal journal =
      if is_terminal journal.status then pure journal else run_apply journal

unfoldable pub commit_operation : OperationStatus → Operation → Operation
commit_operation OperationStatus.applied op = mark_status OperationStatus.committed op
commit_operation _ op = op

unfoldable pub commit_delivery_journal : Journal → Step Journal
unfolding commit_operation
commit_delivery_journal journal = do
  let closed = record journal {
    status = JournalStatus.committed;
    operations = map (λ op. commit_operation op.status op) journal.operations;
  }
  persist_delivery_journal closed
  pure closed
