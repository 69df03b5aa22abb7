-- ===== src/Atomic/Deliver.antt =====
-- `deliver_isolated_changes` (app/workflow_runtime/atomic_delivery.py). Other controllers may change the
-- lease at each `await`: the leases of the run and the time, as they are at each check, are a parameter.
-- So are the result of the validation plan for a project, the identifier of a transaction, and
-- `changed_project_files`. What the call writes besides the trees and the journal (the log, the evidence
-- file and the fields of the run) is not part of the world.
use ai_agent_workflow.Prelude.{
  ℕ, String, not, ◌||◌, Option, none, some, List, str_eq, if◌then◌else◌, or_else, ok,
}
use ai_agent_workflow.Lease.Tokens.{RunLeaseConflict}
use ai_agent_workflow.Delivery.Files.{pure, gets, ◌>>=◌}
use ai_agent_workflow.Delivery.Journal.{Journal, Step}
use ai_agent_workflow.Delivery.Prepare.{prepare_delivery_journal}
use ai_agent_workflow.Delivery.Apply.{apply_delivery_journal, commit_delivery_journal}
use ai_agent_workflow.Delivery.Rollback.{rollback_delivery_journal}
use ai_agent_workflow.Atomic.Policy.{DeliveryPolicy, evaluate_delivery_validation}
use ai_agent_workflow.Atomic.Requests.{
  Cause, Check, Delivered, DeliveryAnswer, DeliveryRequest, Failure, Surroundings,
  assert_delivery_lease, by_status, caught, evidence_of, evidence_or, fencing_token_of, is_applied,
  is_empty, refuse, unless,
}

module _ (s : Surroundings) (request : DeliveryRequest) where
  unfoldable pub delivery_token : Option ℕ
  delivery_token = fencing_token_of (s.leases Check.at_start).run_lease

  unfoldable pub conflict_at : Check → Option RunLeaseConflict
  unfolding assert_delivery_lease delivery_token
  conflict_at check = assert_delivery_lease (s.leases check) delivery_token (s.now check)

  -- The handler of the commit: the journal, committed or not, is rolled back.
  unfoldable pub fenced : Journal → RunLeaseConflict → Step DeliveryAnswer
  unfolding conflict_at
  fenced journal conflict = rollback_delivery_journal s.platform journal >>= λ rolled.
      unless (conflict_at Check.after_fenced_rollback)
        (λ lost. refuse (Failure.lease_conflict lost)) (refuse (Failure.commit_fenced conflict))

  unfoldable pub commit_stage : List String → Journal → Step DeliveryAnswer
  unfolding fenced conflict_at
  commit_stage changed journal = unless (conflict_at Check.before_commit) (fenced journal) (
      commit_delivery_journal journal >>= λ closed.
      unless (conflict_at Check.after_commit) (fenced closed) (
        unless (conflict_at Check.at_end) (λ lost. refuse (Failure.lease_conflict lost))
          (pure (ok (Delivered.applied (evidence_of changed) closed)))))

  unfoldable pub rejected_stage : DeliveryPolicy → Journal → Step DeliveryAnswer
  unfolding conflict_at caught
  rejected_stage policy journal =
      caught (rollback_delivery_journal s.platform journal)
        (λ error. refuse (Failure.rollback_failed (Cause.by_journal error)))
        (λ rolled.
          unless (conflict_at Check.after_rollback)
            (λ lost. refuse (Failure.rollback_failed (Cause.by_lease lost)))
            (refuse (Failure.validation_failed policy.errors)))

  -- After the application: the validation, and the commit or the rollback.
  unfoldable pub verified_stage : List String → Journal → Step DeliveryAnswer
  unfolding commit_stage rejected_stage evaluate_delivery_validation
  verified_stage changed journal =
      gets (λ w. evaluate_delivery_validation request.policy (s.verify w.original)) >>= λ policy.
      if policy.allowed then commit_stage changed journal else rejected_stage policy journal

  unfoldable pub apply_stage : List String → Journal → Step DeliveryAnswer
  unfolding verified_stage conflict_at caught
  apply_stage changed journal =
      caught (apply_delivery_journal s.platform journal)
        (λ error. refuse (Failure.apply_failed (Cause.by_journal error)))
        (λ applied.
          unless (conflict_at Check.after_apply)
            (λ lost. refuse (Failure.apply_failed (Cause.by_lease lost)))
            (verified_stage changed applied))

  -- With the journal at hand, prepared now or before.
  unfoldable pub journal_stage : List String → Journal → Step DeliveryAnswer
  unfolding apply_stage
  journal_stage changed journal =
      by_status journal.status
        (pure (
          ok (
            evidence_or request.atomic_delivery (Delivered.applied (evidence_of changed) journal))))
        (refuse Failure.already_rolled_back) (apply_stage changed journal)

  unfoldable pub prepare_stage : List String → Step DeliveryAnswer
  unfolding journal_stage conflict_at caught delivery_token
  prepare_stage changed =
      caught
        (prepare_delivery_journal s.platform changed (some request.original_project_hashes)
          (s.transaction_id_for request.id changed) request.id delivery_token)
        (λ error. refuse (Failure.apply_failed (Cause.by_journal error)))
        (λ journal.
          unless (conflict_at Check.after_prepare)
            (λ lost. refuse (Failure.apply_failed (Cause.by_lease lost)))
            (journal_stage changed journal))

  -- With the journal that the file holds, if there is one.
  unfoldable pub with_journal : Option Journal → Step DeliveryAnswer
  unfolding prepare_stage journal_stage conflict_at
  with_journal none =
      if is_empty request.changed
      then pure (ok Delivered.no_changes)
      else unless (conflict_at Check.at_start)
          (λ lost. refuse (Failure.apply_failed (Cause.by_lease lost)))
          (prepare_stage request.changed)
  with_journal (some journal) =
      if not (str_eq journal.run_id request.id)
      then refuse Failure.run_mismatch
      else if is_empty journal.changed_files
      then pure (ok Delivered.no_changes)
      else if not
          (str_eq journal.transaction_id (s.transaction_id_for request.id journal.changed_files))
      then refuse Failure.diff_mismatch
      else unless (conflict_at Check.at_start)
          (λ lost. refuse (Failure.apply_failed (Cause.by_lease lost)))
          (journal_stage journal.changed_files journal)

  unfoldable pub deliver_isolated_changes : Step DeliveryAnswer
  unfolding with_journal
  deliver_isolated_changes =
      if not (str_eq (or_else request.patch_mode "") "atomic_apply")
      then pure (ok Delivered.nothing)
      else if is_applied request.atomic_delivery
      then pure (ok (evidence_or request.atomic_delivery Delivered.nothing))
      else if not request.has_original || (not request.has_isolated || request.same_directory)
      then pure (ok Delivered.nothing)
      else gets (λ w. w.disk) >>= with_journal
