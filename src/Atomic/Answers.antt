-- ===== src/Atomic/Answers.antt =====
-- What each answer of a delivery says of the project, and why it is given.
use ai_agent_workflow.Prelude.{
  ◌≡◌, ◌⊎◌, Bool, true, false, not, ◌&&◌, some, List, [], ◌∷◌, String, All, str_eq, ok, err,
  or_else,
}
use ai_agent_workflow.Delivery.Files.{World, apply_conflict}
use ai_agent_workflow.Delivery.Journal.{Operation, JournalStatus, Journal}
use ai_agent_workflow.Delivery.Prepare.{selected_paths, conflicts_of}
use ai_agent_workflow.Delivery.Forward.{IsRecoverable}
use ai_agent_workflow.Delivery.Restores.{IsRolledBack}
use ai_agent_workflow.Delivery.Resumes.{IsApplied}
use ai_agent_workflow.Lease.Tokens.{RunLeaseConflict}
use ai_agent_workflow.Atomic.Policy.{DeliveryPolicy, evaluate_delivery_validation}
use ai_agent_workflow.Atomic.Requests.{
  Check, Cause, Failure, Delivered, DeliveryAnswer, DeliveryRequest, Surroundings, is_applied,
}
use ai_agent_workflow.Atomic.Deliver.{conflict_at}

-- The run delivers, and its two directories are different.
abbrev pub is_delivery : DeliveryRequest → Bool
is_delivery request =
    str_eq (or_else request.patch_mode "") "atomic_apply"
    && (request.has_original && (request.has_isolated && not request.same_directory))

module _ (s : Surroundings) (request : DeliveryRequest) (specs : List Operation) where
  -- Every target is as the delivery wants it, and the saved journal is committed.
  abbrev pub IsInstalled : World Journal → Type 0
  IsInstalled w =
      (j : Journal) × (j.status ≡ JournalStatus.committed)
      × (w.disk ≡ some j)
      × All (λ t. IsApplied s.platform t w) specs

  -- Every target is as it was before the delivery, and the saved journal is rolled back.
  abbrev pub IsWithdrawn : World Journal → Type 0
  IsWithdrawn w = (j : Journal) × IsRolledBack s.platform specs j w

  -- The lease was lost at one of the checks.
  abbrev pub IsLost : RunLeaseConflict → Type 0
  IsLost lost = (check : Check) × (conflict_at s request check ≡ some lost)

  -- The policy was asked about a project with every target as the delivery wants it.
  abbrev pub IsAsked : DeliveryPolicy → Type 0
  IsAsked policy =
      (w : World Journal) × (policy
        ≡ evaluate_delivery_validation request.policy (s.verify w.original))
      × All (λ t. IsApplied s.platform t w) specs

  -- An application that is stopped by a lost lease leaves what was at the start, or a state from
  -- which the next owner rolls back or goes on.
  abbrev pub AnswerHolds : List String → World Journal → DeliveryAnswer → World Journal → Type 0
  AnswerHolds changed start (ok Delivered.nothing) w = (w ≡ start) × (is_delivery request ≡ false)
  AnswerHolds changed start (ok (Delivered.existing evidence)) w =
      (w ≡ start)
      × (request.atomic_delivery ≡ some evidence)
      × (is_applied request.atomic_delivery ≡ true)
  AnswerHolds changed start (ok Delivered.no_changes) w = (w ≡ start) × (changed ≡ [])
  AnswerHolds changed start (ok (Delivered.applied evidence j)) w =
      IsInstalled w
      × (w.disk ≡ some j)
      × ((policy : DeliveryPolicy) × IsAsked policy × (policy.allowed ≡ true))
  AnswerHolds changed start (err Failure.run_mismatch) w =
      (w ≡ start) × ((j : Journal) × (start.disk ≡ some j) × (str_eq j.run_id request.id ≡ false))
  AnswerHolds changed start (err Failure.diff_mismatch) w =
      (w ≡ start)
      × ((j : Journal) × (start.disk ≡ some j)
          × (str_eq j.transaction_id (s.transaction_id_for request.id changed) ≡ false))
  AnswerHolds changed start (err (Failure.apply_failed (Cause.by_journal error))) w =
      (w ≡ start)
      × ((c : String) × (cs : List String) × (error ≡ apply_conflict (c ∷ cs))
          × ((paths : List String) × (selected_paths s.platform request.changed ≡ ok paths)
              × (conflicts_of s.platform (some request.original_project_hashes) start.original paths
                  ≡ c ∷ cs)))
  AnswerHolds changed start (err (Failure.apply_failed (Cause.by_lease lost))) w =
      ((w ≡ start) ⊎ IsRecoverable s.platform specs w) × IsLost lost
  AnswerHolds changed start (err (Failure.rollback_failed (Cause.by_lease lost))) w =
      IsWithdrawn w × IsLost lost
  AnswerHolds changed start (err (Failure.validation_failed errors)) w =
      IsWithdrawn w
      × ((policy : DeliveryPolicy) × IsAsked policy
          × (policy.allowed ≡ false)
          × (errors ≡ policy.errors))
  AnswerHolds changed start (err (Failure.commit_fenced lost)) w = IsWithdrawn w × IsLost lost
  AnswerHolds changed start (err (Failure.lease_conflict lost)) w =
      (IsWithdrawn w × (conflict_at s request Check.after_fenced_rollback ≡ some lost))
      ⊎ (IsInstalled w × (conflict_at s request Check.at_end ≡ some lost))
  AnswerHolds changed start (err (Failure.rollback_failed (Cause.by_journal error))) w = ⊥
  AnswerHolds changed start (err Failure.already_rolled_back) w = ⊥
