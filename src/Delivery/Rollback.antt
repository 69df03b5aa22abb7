-- ===== src/Delivery/Rollback.antt =====
-- `rollback_delivery_journal`.
use ai_agent_workflow.Prelude.{
  String, Bool, true, false, not, ◌&&◌, ◌||◌, Option, none, some, List, [], ◌∷◌, ◌++◌,
  if◌then◌else◌,
}
use mathlib.Core.List.{reverse}
use ai_agent_workflow.Delivery.Files.{
  Node, Platform, backup_missing_or_changed, rollback_target_is_directory, pure, raise, gets, ◌>>=◌,
  ◌>>◌, put_original, make_dirs, atomic_copy, file_sha256, same_sha, exists, is_file, is_dir,
}
use ai_agent_workflow.Delivery.Journal.{
  OperationStatus, Operation, JournalStatus, Journal, Step, persist_delivery_journal, safe_path,
  operation_is_applied, operation_is_baseline, mark_status,
}

-- The files restored and removed so far.
abbrev pub Summary : Type 0
Summary = List String × List String

abbrev pub is_rolled_back : OperationStatus → Bool
is_rolled_back OperationStatus.rolled_back = true
is_rolled_back _ = false

abbrev pub is_applied_status : OperationStatus → Bool
is_applied_status OperationStatus.applied = true
is_applied_status OperationStatus.rolled_back = true
is_applied_status _ = false

module _ (p : Platform) where
  abbrev pub backup_matches : Operation → Option Node → Bool
  backup_matches op backup =
      is_file backup && same_sha (file_sha256 p backup) op.target_before_sha256

  unfoldable pub restore_backup : Operation → String → Summary → Step Summary
  restore_backup op rel (restored, removed) = do
    backup ← gets (λ w. w.backup rel)
    if backup_matches op backup
        then (do
          make_dirs (p.parents rel)
          atomic_copy backup rel
          pure (restored ++ rel ∷ [], removed))
        else raise (backup_missing_or_changed op.path)

  unfoldable pub remove_target : Operation → String → Summary → Step Summary
  remove_target op rel (restored, removed) = do
    target ← gets (λ w. w.original rel)
    if not (exists target)
        then pure (restored, removed)
        else if is_dir target
        then raise (rollback_target_is_directory op.path)
        else (do put_original rel none; pure (restored, removed ++ rel ∷ []))

  -- The body of the loop for an operation that is not rolled back yet, after its path and up to the
  -- persist.
  unfoldable pub rollback_operation : Operation → String → Summary → Step Summary
  unfolding restore_backup remove_target
  rollback_operation op rel summary = do
    target ← gets (λ w. w.original rel)
    let was_applied = is_applied_status op.status || operation_is_applied p target op
    if not was_applied && operation_is_baseline p target op
        then pure summary
        else if op.existed
        then restore_backup op rel summary
        else remove_target op rel summary

  -- The loop, from the last operation on, of which each path is checked first: those before, last first, and those that are done.
  unfoldable pub rollback_operations :
      Journal → List Operation → List Operation → Summary → Step (List Operation × Summary)
  rollback_operations journal [] done summary = pure (done, summary)
  rollback_operations journal (op ∷ before) done summary = safe_path p op.path >>= λ rel.
      let op' = mark_status OperationStatus.rolled_back op in
      let skip = rollback_operations journal before (op ∷ done) summary in
      let work : Step (List Operation × Summary) = rollback_operation op rel summary >>= λ summary'.
      persist_delivery_journal (record journal { operations = reverse before ++ op' ∷ done })
      >> rollback_operations journal before (op' ∷ done) summary' in
      if is_rolled_back op.status then skip else work

  unfoldable pub rollback_delivery_journal : Journal → Step Journal
  rollback_delivery_journal journal = do
    let started = record journal { status = JournalStatus.rolling_back }
    persist_delivery_journal started
    (operations, summary) ← rollback_operations started (reverse started.operations) [] ([], [])
    let finished = record started {
      status = JournalStatus.rolled_back;
      operations = operations;
      rollback = some summary;
    }
    persist_delivery_journal finished
    pure finished
