-- ===== src/Atomic/Examples.antt =====
-- A delivery of two files, from its start and from its prepared journal.
use ai_agent_workflow.Prelude.{
  ◌≡◌, ◌↔◌, refl, String, true, false, Option, none, some, [], ◌∷◌, map,
}
use ai_agent_workflow.Delivery.Files.{
  Node, file, World, pure, raise, gets, effect, spend, ◌>>=◌, atomic_copy, make_dirs, make_dir_at,
  put_original, set_original, set_node, file_sha256, same_sha,
}
use ai_agent_workflow.Delivery.Journal.{
  Journal, persist_delivery_journal, checked_path, safe_path, operation_is_applied,
  operation_is_baseline, mark_status,
}
use ai_agent_workflow.Delivery.Ends.{Ends}
use ai_agent_workflow.Delivery.Forward.{IsRecoverable}
use ai_agent_workflow.Delivery.Placed.{prepared}
use ai_agent_workflow.Delivery.Examples.{
  platform, prepared_journal, start, both, start-IsRecoverable, both-IsApart,
}
use ai_agent_workflow.Delivery.FirstDelivery.{changed, paths, before, sorted, paths-IsPlaced}
use ai_agent_workflow.Prelude.Letters.{strip, lower}
use ai_agent_workflow.Delivery.Prepare.{
  prepare_delivery_journal, prepare_selected, lift, selected_paths, add_path, conflicts_of,
  unless_conflicts, clear_backup, prepare_operations, prepare_operation, put_backup, new_operation,
}
use ai_agent_workflow.Delivery.Apply.{
  apply_delivery_journal, run_apply, apply_operations, apply_operation, change_target, write_target,
  commit_delivery_journal, commit_operation,
}
use ai_agent_workflow.Delivery.Rollback.{
  rollback_delivery_journal, rollback_operations, rollback_operation, restore_backup, remove_target,
}
use ai_agent_workflow.Prelude.Dict.{get}
use ai_agent_workflow.Lease.Tokens.{Lease, assert_run_lease, assert_lease, lease_is_expired}
use ai_agent_workflow.Atomic.Policy.{
  Phase, Verification, evaluate_delivery_validation, policy_errors, autopilot_mode, phase_errors,
  due,
}
use ai_agent_workflow.Atomic.Requests.{DeliveryRequest, Surroundings, assert_delivery_lease, caught}
use ai_agent_workflow.Atomic.Deliver.{
  deliver_isolated_changes, with_journal, prepare_stage, journal_stage, apply_stage, verified_stage,
  commit_stage, rejected_stage, conflict_at, delivery_token,
}
use ai_agent_workflow.Atomic.Answers.{AnswerHolds}
use ai_agent_workflow.Atomic.Allowed.{IsDeliverable, allowed_when-IsDeliverable}
use ai_agent_workflow.Atomic.Installs.{IsSmooth, IsDone, smooth_delivery_installs}
use ai_agent_workflow.Atomic.Whole.{resumed_all_or_nothing, delivered_all_or_nothing}

abbrev unit_tests : Phase
unit_tests = record { name = "unit"; required = true; status = some "passed" }

abbrev tested : Verification
tested = record { status = some "passed"; executed = 1; results = unit_tests ∷ [] }

abbrev held : Lease
held = record {
  owner_id = "controller-1";
  owner = record { instance_id = some "controller-1"; id = none; pid = none };
  acquired_at = some 0;
  heartbeat_at = some 0;
  expires_at = some 90;
  ttl_sec = 90;
  fencing_token = 1;
  released_at = none;
}

abbrev surroundings : Surroundings
surroundings = record {
  platform = platform;
  leases = λ check. record { run_lease = some held; last_run_lease = none; run_lease_epoch = 1 };
  now = λ check. 5;
  transaction_id_for = λ run_id paths. "delivery-1";
  verify = λ tree. tested;
}

abbrev request : DeliveryRequest
request = record {
  id = "run-1";
  patch_mode = some "atomic_apply";
  atomic_delivery = none;
  has_original = true;
  has_isolated = true;
  same_directory = false;
  changed = changed;
  original_project_hashes = ("a.py", some "old") ∷ [];
  policy = record {
    autopilot_mode = none;
    patch_mode = some "atomic_apply";
    has_profile = true;
    profile_status = some "verified";
    environment_status = none;
  };
}

delivered_all_or_nothing_example :
    Ends
      (AnswerHolds surroundings request
        (map (prepared platform before.original before.isolated) paths)
        changed
        before)
      (deliver_isolated_changes surroundings request)
      before
delivered_all_or_nothing_example =
    delivered_all_or_nothing surroundings request paths before refl refl sorted paths-IsPlaced

abbrev waiting : World Journal
waiting = record start { steps_left = none }

waiting-IsRecoverable : IsRecoverable platform both waiting
waiting-IsRecoverable = record {
  intact = start-IsRecoverable.intact;
  saved = start-IsRecoverable.saved;
}

resumed_all_or_nothing_example :
    Ends
      (AnswerHolds surroundings request both prepared_journal.changed_files waiting)
      (deliver_isolated_changes surroundings request)
      waiting
resumed_all_or_nothing_example =
    resumed_all_or_nothing surroundings request both prepared_journal waiting both-IsApart refl refl
      waiting-IsRecoverable refl

-- A change that its validation rejects.
abbrev rejecting : Surroundings
rejecting = record surroundings { verify = λ tree. record tested { status = some "failed" } }

-- The files at the end: of a delivery that is accepted, and of one that is rejected.
abbrev end_of : Surroundings → String → Option Node
end_of s path = (deliver_isolated_changes s request before).1.original path

abbrev content_of : Option Node → String
content_of (some (file content)) = content
content_of _ = ""

files_at_end :
    (content_of (end_of surroundings "a.py") ≡ "new")
    × (content_of (end_of rejecting "a.py") ≡ "old")
unfolding deliver_isolated_changes with_journal prepare_stage journal_stage apply_stage
    verified_stage commit_stage rejected_stage conflict_at assert_delivery_lease delivery_token
    assert_run_lease assert_lease lease_is_expired caught evaluate_delivery_validation policy_errors
    autopilot_mode phase_errors due strip lower prepare_delivery_journal prepare_selected lift
    selected_paths add_path conflicts_of unless_conflicts clear_backup prepare_operations
    prepare_operation put_backup new_operation apply_delivery_journal run_apply apply_operations
    apply_operation change_target write_target commit_delivery_journal commit_operation
    rollback_delivery_journal rollback_operations rollback_operation restore_backup remove_target
    persist_delivery_journal checked_path safe_path operation_is_applied operation_is_baseline
    mark_status pure raise gets effect spend ◌>>=◌ atomic_copy make_dirs make_dir_at put_original
    set_original set_node file_sha256 same_sha get
files_at_end = (refl, refl)

allowed_when-IsDeliverable_example :
    (evaluate_delivery_validation request.policy tested).allowed ≡ true
    ↔ IsDeliverable request.policy tested
allowed_when-IsDeliverable_example = allowed_when-IsDeliverable request.policy tested

smooth : IsSmooth surroundings request paths before
unfolding conflict_at assert_delivery_lease delivery_token assert_run_lease assert_lease
    lease_is_expired evaluate_delivery_validation policy_errors autopilot_mode phase_errors due
    strip lower conflicts_of file_sha256 same_sha get
smooth = record {
  delivers = refl;
  not_yet = refl;
  some_changes = refl;
  new = refl;
  alive = refl;
  selected = sorted;
  placed = paths-IsPlaced;
  unchanged = refl;
  held = λ check. refl;
  accepted = λ t. refl;
}

smooth_delivery_installs_example :
    Ends
      (IsDone surroundings request (map (prepared platform before.original before.isolated) paths))
      (deliver_isolated_changes surroundings request)
      before
smooth_delivery_installs_example = smooth_delivery_installs surroundings request paths before smooth
