-- ===== src/Atomic/Installs.antt =====
-- A delivery that nothing stands in the way of is made.
use ai_agent_workflow.Prelude.{
  String, ◌≡◌, refl, inl, inr, true, false, none, some, List, [], map, ok, err,
}
use ai_agent_workflow.Delivery.Files.{World, Tree}
use ai_agent_workflow.Delivery.Journal.{Operation, Journal}
use ai_agent_workflow.Delivery.Prepare.{selected_paths, conflicts_of}
use ai_agent_workflow.Delivery.Ends.{Ends, Ends-weaken}
use ai_agent_workflow.Delivery.Placed.{prepared, IsPlaced}
use ai_agent_workflow.Atomic.Policy.{evaluate_delivery_validation}
use ai_agent_workflow.Atomic.Requests.{
  Check, Cause, Failure, Delivered, DeliveryRequest, Surroundings, is_empty, is_applied,
  DeliveryEvidence, DeliveryAnswer,
}
use ai_agent_workflow.Atomic.Deliver.{conflict_at, deliver_isolated_changes}
use ai_agent_workflow.Atomic.Answers.{AnswerHolds, is_delivery, IsInstalled}
use ai_agent_workflow.Atomic.Whole.{delivered_all_or_nothing}

-- A run that is to deliver these paths, and has not done so yet, with nothing in the way: no file has
-- changed since the baseline, the lease is held at every check, and the validation passes.
pub record IsSmooth (s : Surroundings) (request : DeliveryRequest) (paths : List String)
    (w : World Journal) : Type 0 where
  pub delivers : is_delivery request ≡ true
  pub not_yet : is_applied request.atomic_delivery ≡ false
  pub some_changes : is_empty request.changed ≡ false
  pub new : w.disk ≡ none
  pub alive : w.steps_left ≡ none
  pub selected : selected_paths s.platform request.changed ≡ ok paths
  pub placed : IsPlaced s.platform w.original paths
  pub unchanged :
      conflicts_of s.platform (some request.original_project_hashes) w.original paths ≡ []
  pub held : (check : Check) → conflict_at s request check ≡ none
  pub accepted :
      (t : Tree) → (evaluate_delivery_validation request.policy (s.verify t)).allowed ≡ true

module _ (s : Surroundings) (request : DeliveryRequest) (specs : List Operation) where
  -- The answer is of a delivery that was made.
  abbrev pub IsDone : DeliveryAnswer → World Journal → Type 0
  IsDone answer w =
      (evidence : DeliveryEvidence) × (j : Journal) × (answer ≡ ok (Delivered.applied evidence j))
      × IsInstalled s request specs w

module _ (s : Surroundings) (request : DeliveryRequest) (specs : List Operation)
    (paths : List String) (start : World Journal) (smooth : IsSmooth s request paths start) where
  -- Each other answer has a cause that is excluded.
  smooth-IsDone :
      (w : World Journal) (answer : DeliveryAnswer)
      → AnswerHolds s request specs request.changed start answer w
      → IsDone s request specs answer w
  smooth-IsDone w (ok (Delivered.applied evidence j)) h = (evidence, j, refl, h.0)
  smooth-IsDone w (ok Delivered.nothing) h = cc (h.1, smooth.delivers)
  smooth-IsDone w (ok (Delivered.existing x)) h = cc (h.2, smooth.not_yet)
  smooth-IsDone w (ok Delivered.no_changes) h = cc (smooth.some_changes, h.1)
  smooth-IsDone w (err Failure.run_mismatch) h =
      let (_, (j, saved, _)) = h in cc (saved, smooth.new)
  smooth-IsDone w (err Failure.diff_mismatch) h =
      let (_, (j, saved, _)) = h in cc (saved, smooth.new)
  smooth-IsDone w (err Failure.already_rolled_back) h = elim h [ ]
  smooth-IsDone w (err (Failure.apply_failed (Cause.by_journal x))) h =
      let (_, (c, cs, _, (others, selected, found))) = h in
      cc (selected, smooth.selected, found, smooth.unchanged)
  smooth-IsDone w (err (Failure.apply_failed (Cause.by_lease x))) h = cc (h.1.1, smooth.held h.1.0)
  smooth-IsDone w (err (Failure.rollback_failed (Cause.by_journal x))) h = elim h [ ]
  smooth-IsDone w (err (Failure.rollback_failed (Cause.by_lease x))) h =
      cc (h.1.1, smooth.held h.1.0)
  smooth-IsDone w (err (Failure.validation_failed x)) h =
      let (_, (policy, (w1, asked, _), refused, _)) = h in
      cc (refused, asked, smooth.accepted w1.original)
  smooth-IsDone w (err (Failure.commit_fenced x)) h = cc (h.1.1, smooth.held h.1.0)
  smooth-IsDone w (err (Failure.lease_conflict x)) h = elim h [
    | inl (_, e) ↦ cc (e, smooth.held Check.after_fenced_rollback)
    | inr (_, e) ↦ cc (e, smooth.held Check.at_end)
  ]

-- A delivery from its start with nothing in the way answers that it was made: every target is as the
-- delivery wants it, and the saved journal is committed.
pub smooth_delivery_installs :
    (s : Surroundings) (request : DeliveryRequest) (paths : List String) (w : World Journal)
    (smooth : IsSmooth s request paths w)
    → Ends
        (IsDone s request (map (prepared s.platform w.original w.isolated) paths))
        (deliver_isolated_changes s request)
        w
smooth_delivery_installs s request paths w smooth =
    Ends-weaken
      (delivered_all_or_nothing s request paths w smooth.new smooth.alive smooth.selected
        smooth.placed)
      λ answer w' h. smooth-IsDone s request _ paths w smooth w' answer h
