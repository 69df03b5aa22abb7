-- ===== src/Atomic/Requests.antt =====
-- What a delivery is asked, what it answers, and its checks of the lease
-- (app/workflow_runtime/atomic_delivery.py).
use ai_agent_workflow.Prelude.{
  ℕ, String, Bool, true, false, Option, none, some, List, [], ◌∷◌, str_eq, if◌then◌else◌, ◌==◌,
  or_else, Result, ok, err,
}
use ai_agent_workflow.Prelude.Dict.{Dict}
use ai_agent_workflow.Lease.Tokens.{RunLeases, RunLeaseConflict, Lease, assert_run_lease}
use ai_agent_workflow.Delivery.Files.{
  Tree, Platform, Error, os_error, Outcome, done, raised, crashed, pure,
}
use ai_agent_workflow.Delivery.Journal.{JournalStatus, Journal, Step}
use ai_agent_workflow.Atomic.Policy.{PolicyRun, Verification}

-- The calls of `_assert_delivery_lease`, by where they stand: the direct ones, and those in
-- `persist_journal_state` and `persist`.
pub data Check : Type 0 where
  at_start after_prepare after_apply after_rollback : Check
  before_commit after_commit after_fenced_rollback at_end : Check

-- A caught exception, of the journal or of the lease.
pub data Cause : Type 0 where
  by_journal : Error → Cause
  by_lease : RunLeaseConflict → Cause

-- `WorkflowError` by its messages, and a conflict that no handler catches.
pub data Failure : Type 0 where
  run_mismatch diff_mismatch already_rolled_back : Failure
  apply_failed rollback_failed : Cause → Failure
  validation_failed : List String → Failure
  commit_fenced : RunLeaseConflict → Failure
  lease_conflict : RunLeaseConflict → Failure

-- `atomic_delivery` of the run.
pub record DeliveryEvidence : Type 0 where
  pub status : String
  pub changed_files : List String

-- What is returned: `None`, evidence that the run has, that nothing changed, or the evidence of a
-- delivery with its committed journal.
pub data Delivered : Type 0 where
  nothing no_changes : Delivered
  existing : DeliveryEvidence → Delivered
  applied : DeliveryEvidence → Journal → Delivered

abbrev pub DeliveryAnswer : Type 0
DeliveryAnswer = Result Failure Delivered

pub record DeliveryRequest : Type 0 where
  pub id : String
  pub patch_mode : Option String
  pub atomic_delivery : Option DeliveryEvidence
  pub has_original : Bool
  pub has_isolated : Bool
  pub same_directory : Bool
  pub changed : List String
  pub original_project_hashes : Dict (Option String)
  pub policy : PolicyRun

pub record Surroundings : Type 0 where
  pub platform : Platform
  pub leases : Check → RunLeases
  pub now : Check → ℕ
  pub transaction_id_for : String → List String → String
  pub verify : Tree → Verification

-- `int(lease.get("fencing_token") or 0) or None`
abbrev pub positive_token : ℕ → Option ℕ
positive_token n = if n == 0 then none else some n

abbrev pub fencing_token_of : Option Lease → Option ℕ
fencing_token_of none = none
fencing_token_of (some lease) = positive_token lease.fencing_token

abbrev pub assert_held : RunLeases → Option Lease → Option ℕ → ℕ → Option RunLeaseConflict
assert_held run none expected now = none
assert_held run (some lease) expected now =
    elim (assert_run_lease run lease.owner_id (or_else expected lease.fencing_token) now) [
      | err conflict ↦ some conflict
      | ok held ↦ none
    ]

-- `_assert_delivery_lease`: the conflict that it raises.
unfoldable pub assert_delivery_lease : RunLeases → Option ℕ → ℕ → Option RunLeaseConflict
unfolding assert_run_lease
assert_delivery_lease run expected now = assert_held run run.run_lease expected now

-- `try: …` with a handler for the exceptions of the journal: an `OSError` passes through.
abbrev pub handled :
    Outcome Journal
    → (Error → Step DeliveryAnswer)
    → (Journal → Step DeliveryAnswer)
    → Step DeliveryAnswer
handled (done journal) handler next = next journal
handled (raised os_error) handler next = λ w. (raised os_error, w)
handled (raised error) handler next = handler error
handled crashed handler next = λ w. (crashed, w)

unfoldable pub caught :
    Step Journal
    → (Error → Step DeliveryAnswer)
    → (Journal → Step DeliveryAnswer)
    → Step DeliveryAnswer
caught m handler next w = handled (m w).0 handler next (m w).1

-- Goes on if a check of the lease passes.
abbrev pub unless :
    Option RunLeaseConflict
    → (RunLeaseConflict → Step DeliveryAnswer)
    → Step DeliveryAnswer
    → Step DeliveryAnswer
unless none handler next = next
unless (some conflict) handler next = handler conflict

abbrev pub refuse : Failure → Step DeliveryAnswer
refuse failure = pure (err failure)

abbrev pub evidence_of : List String → DeliveryEvidence
evidence_of changed = record { status = "applied"; changed_files = changed }

abbrev pub by_status :
    JournalStatus
    → Step DeliveryAnswer
    → Step DeliveryAnswer
    → Step DeliveryAnswer
    → Step DeliveryAnswer
by_status JournalStatus.committed committed rolled_back pending = committed
by_status JournalStatus.rolled_back committed rolled_back pending = rolled_back
by_status _ committed rolled_back pending = pending

abbrev pub is_empty : List String → Bool
is_empty [] = true
is_empty (path ∷ paths) = false

abbrev pub is_applied : Option DeliveryEvidence → Bool
is_applied none = false
is_applied (some evidence) = str_eq evidence.status "applied"

abbrev pub evidence_or : Option DeliveryEvidence → Delivered → Delivered
evidence_or none delivered = delivered
evidence_or (some evidence) delivered = Delivered.existing evidence
