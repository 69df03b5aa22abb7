-- ===== src/Delivery/Remarked.antt =====
-- A rollback that crashed before its last effect, an application that crashed after its first file,
-- and the rollback after that.
use ai_agent_workflow.Prelude.{◌≡◌, refl, some, none, [], ◌∷◌}
use ai_agent_workflow.Delivery.Files.{
  file, World, file_sha256, same_sha, effect, ◌>>=◌, pure, gets, put_original, make_dirs,
  atomic_copy, set_node,
}
use ai_agent_workflow.Delivery.Journal.{
  OperationStatus, JournalStatus, Journal, operation_is_applied, operation_is_baseline,
  persist_delivery_journal, safe_path, mark_status,
}
use ai_agent_workflow.Delivery.Apply.{
  write_target, change_target, apply_operation, apply_operations, run_apply, apply_delivery_journal,
}
use ai_agent_workflow.Delivery.Rollback.{rollback_delivery_journal}
use ai_agent_workflow.Delivery.Ends.{Ends}
use ai_agent_workflow.Delivery.Examples.{platform, change_a, prepared_journal, start}
use ai_agent_workflow.Delivery.Skips.{rollback_skips_marked}

-- Its one operation was rolled back, and the journal was not closed.
abbrev rolling_back : Journal
rolling_back = record prepared_journal {
  status = JournalStatus.rolling_back;
  operations = record change_a { status = OperationStatus.rolled_back } ∷ [];
}

abbrev after_apply : World Journal
after_apply =
    (apply_delivery_journal platform rolling_back (record start { steps_left = some 2 })).1

abbrev resumed : Journal
resumed = record rolling_back { status = JournalStatus.applying }

-- The application has written the new file, and its journal still says rolled back.
written_but_marked :
    (after_apply.original "a.py" ≡ some (file "new")) × (after_apply.disk ≡ some resumed)
unfolding apply_delivery_journal run_apply apply_operations apply_operation change_target
    write_target ◌>>=◌ persist_delivery_journal effect safe_path pure gets operation_is_applied
    same_sha file_sha256 operation_is_baseline make_dirs atomic_copy put_original set_node
    mark_status
written_but_marked = (refl, refl)

rollback_skips_marked_example :
    Ends
      (λ j' w'. (j'.status ≡ JournalStatus.rolled_back) × (w'.original ≡ after_apply.original))
      (rollback_delivery_journal platform resumed)
      (record after_apply { steps_left = none })
rollback_skips_marked_example =
    rollback_skips_marked platform resumed (record after_apply { steps_left = none })
      ((refl, ("a.py", refl)), tt) refl
