-- ===== src/Atomic/Whole.antt =====
-- A delivery from its start, or from the journal that an earlier one saved.
use ai_agent_workflow.Prelude.{
  String, ◌≡◌, refl, sym, inl, inr, true, false, not, ◌||◌, Option, none, some, Bool, arith, List,
  [], ◌∷◌, map, str_eq, subst, ok, err, or_else,
}
use ai_agent_workflow.Delivery.Files.{World, apply_conflict}
use ai_agent_workflow.Delivery.Journal.{Operation, Journal, is_terminal}
use ai_agent_workflow.Delivery.Prepare.{selected_paths, conflicts_of, prepare_delivery_journal}
use ai_agent_workflow.Delivery.Ends.{Ends, Ends-pure, Ends-if, Ends-read}
use ai_agent_workflow.Delivery.Invariant.{IsApart}
use ai_agent_workflow.Delivery.Forward.{IsRecoverable}
use ai_agent_workflow.Delivery.Placed.{prepared, IsPlaced}
use ai_agent_workflow.Delivery.Prepared.{
  prepared-IsApart, prepare_delivery_journal-IsPrepared, prepare_delivery_journal_conflict,
}
use ai_agent_workflow.Atomic.Requests.{
  Check, Cause, Failure, Delivered, DeliveryRequest, Surroundings, is_empty, is_applied,
  evidence_or, DeliveryEvidence, refuse,
}
use ai_agent_workflow.Atomic.Deliver.{
  conflict_at, delivery_token, prepare_stage, with_journal, deliver_isolated_changes,
}
use ai_agent_workflow.Atomic.Commit.{Ends-caught, Ends-conflict, Ends-unless}
use ai_agent_workflow.Atomic.Answers.{AnswerHolds}
use ai_agent_workflow.Atomic.AllOrNothing.{journal-Ends}

module _ (s : Surroundings) (request : DeliveryRequest) (specs : List Operation)
    (changed : List String) where
  evidence-Holds :
      (w : World Journal) (found : Option DeliveryEvidence)
      → request.atomic_delivery ≡ found
      → is_applied found ≡ true
      → AnswerHolds s request specs changed w (ok (evidence_or found Delivered.nothing)) w
  evidence-Holds w none e a = cc
  evidence-Holds w (some evidence) e a = (refl, e, rw e a)

  -- A request that is not for a delivery, or has one, changes nothing. Else the journal decides.
  deliver-Ends :
      (w : World Journal) (found : Option Journal)
      → w.disk ≡ found
      → Ends (AnswerHolds s request specs changed w) (with_journal s request found) w
      → Ends (AnswerHolds s request specs changed w) (deliver_isolated_changes s request) w
  unfolding deliver_isolated_changes
  deliver-Ends w found disk e =
      Ends-if w (not (str_eq (or_else request.patch_mode "") "atomic_apply")) _ _
        (λ h. Ends-pure w _ (refl, ground arith))
        (λ _.
          Ends-if w (is_applied request.atomic_delivery) _ _
            (λ a. Ends-pure w _ (evidence-Holds w request.atomic_delivery refl a))
            (λ _.
              Ends-if w
                (not request.has_original || (not request.has_isolated || request.same_directory)) _
                _ (λ h. Ends-pure w _ (refl, ground arith))
                (λ _.
                  Ends-read w (λ w. w.disk) _
                    (subst
                      (λ d.
                        Ends (AnswerHolds s request specs changed w) (with_journal s request d) w)
                      (sym disk) e))))

no_paths : (paths : List String) → is_empty paths ≡ true → paths ≡ []
no_paths [] h = refl
no_paths (path ∷ paths) h = cc

not-true : (b : Bool) → not b ≡ true → b ≡ false
not-true true h = cc
not-true false h = refl

module _ (s : Surroundings) (request : DeliveryRequest) where
  -- With the saved journal of a delivery that is not committed or rolled back, in a recoverable
  -- state, with paths that are apart and no crash to come, every call returns, whatever the leases at
  -- the checks and the verdict are, and `AnswerHolds`: `applied` means that the policy allows it and
  -- every target is as the delivery wants it under a committed journal. After a failed validation, a
  -- lease that is lost after the rollback for it, or a fenced commit, every target is as before under
  -- a rolled back journal. A lease conflict is a lease lost after the rollback of a fenced commit,
  -- with every target as before under a rolled back journal, or lost at the last check, with every
  -- target as the delivery wants it under a committed one. A lease that is lost up to the
  -- application's end leaves the world as it was or a recoverable state. Each other answer (nothing to
  -- do, an existing delivery, no changes, a journal of another run or diff, a conflict with the
  -- baseline) leaves the world as it was, and each has its cause.
  pub resumed_all_or_nothing :
      (specs : List Operation) (j : Journal) (w : World Journal)
      → IsApart s.platform specs
      → w.disk ≡ some j
      → is_terminal j.status ≡ false
      → IsRecoverable s.platform specs w
      → w.steps_left ≡ none
      → Ends (AnswerHolds s request specs j.changed_files w) (deliver_isolated_changes s request) w
  unfolding with_journal
  resumed_all_or_nothing specs j w apart saved pending h alive =
      deliver-Ends s request specs j.changed_files w (some j) saved (
        Ends-if w (not (str_eq j.run_id request.id)) _ _
          (λ h. Ends-pure w _ (refl, (j, saved, not-true _ h)))
          (λ _.
            Ends-if w (is_empty j.changed_files) _ _ (λ h. Ends-pure w _ (refl, no_paths _ h))
              (λ _.
                Ends-if w
                  (not (str_eq j.transaction_id (s.transaction_id_for request.id j.changed_files)))
                  _ _ (λ h. Ends-pure w _ (refl, (j, saved, not-true _ h)))
                  (λ _.
                    Ends-unless w (conflict_at s request Check.at_start) _ _
                      (λ c e. Ends-pure w _ (inl refl, (Check.at_start, e)))
                      (journal-Ends s request specs apart j.changed_files w j w (h.saved j saved) h
                        (record { intact = h.intact; alive = alive }) pending)))))

  prepare-Ends :
      (paths conflicts : List String) (w : World Journal)
      → w.steps_left ≡ none
      → selected_paths s.platform request.changed ≡ ok paths
      → IsPlaced s.platform w.original paths
      → conflicts_of s.platform (some request.original_project_hashes) w.original paths ≡ conflicts
      → Ends
          (AnswerHolds s request
            (map (prepared s.platform w.original w.isolated) paths)
            request.changed
            w)
          (prepare_stage s request request.changed)
          w
  unfolding prepare_stage
  prepare-Ends paths [] w alive selected placed e =
      let specs : List Operation = map (prepared s.platform w.original w.isolated) paths in
      let apart : IsApart s.platform specs =
        prepared-IsApart s.platform w.original w.isolated paths placed in
      Ends-caught w _ _ _
        (prepare_delivery_journal-IsPrepared s.platform (some request.original_project_hashes) _ _ _
          request.changed paths w selected placed e alive)
        λ j w1 ready.
          Ends-unless w1 (conflict_at s request Check.after_prepare) _ _
            (λ c e. Ends-pure w1 _ (inr ready.recoverable, (Check.after_prepare, e)))
            (journal-Ends s request specs apart request.changed w j w1 ready.forward
              ready.recoverable (record { intact = ready.recoverable.intact; alive = ready.alive })
              ready.pending)
  prepare-Ends paths (c ∷ cs) w alive selected placed e =
      Ends-conflict w
        (prepare_delivery_journal s.platform request.changed (some request.original_project_hashes)
          (s.transaction_id_for request.id request.changed) request.id (delivery_token s request))
        (λ error. refuse (Failure.apply_failed (Cause.by_journal error))) _ (c ∷ cs)
        (prepare_delivery_journal_conflict s.platform (some request.original_project_hashes) _ _ _
          request.changed paths c cs w selected e)
        (Ends-pure w (err (Failure.apply_failed (Cause.by_journal (apply_conflict (c ∷ cs)))))
          (refl, (c, cs, refl, (paths, selected, e))))

  -- Without a saved journal and with no crash to come, for selected paths that are placed as
  -- `IsPlaced` says, every call returns, and `AnswerHolds` for the operations that the preparation
  -- makes for them: `applied` means that the policy allows it and every target is as the delivery
  -- wants it under a committed journal. After a failed validation, a lease that is lost after the
  -- rollback for it, or a fenced commit, every target is as before under a rolled back journal. A lease
  -- conflict is a lease lost after the rollback of a fenced commit, with every target as before, or
  -- lost at the last check, with every target as the delivery wants it under a committed journal. A
  -- lease that is lost up to the application's end leaves the world as it was or a recoverable state.
  -- Each other answer, the conflict of a path that has changed since the baseline among them, leaves
  -- the world as it was, and each has its cause.
  pub delivered_all_or_nothing :
      (paths : List String) (w : World Journal)
      → w.disk ≡ none
      → w.steps_left ≡ none
      → selected_paths s.platform request.changed ≡ ok paths
      → IsPlaced s.platform w.original paths
      → Ends
          (AnswerHolds s request
            (map (prepared s.platform w.original w.isolated) paths)
            request.changed
            w)
          (deliver_isolated_changes s request)
          w
  unfolding with_journal
  delivered_all_or_nothing paths w no_journal alive selected placed =
      let specs : List Operation = map (prepared s.platform w.original w.isolated) paths in
      deliver-Ends s request specs request.changed w none no_journal (
        Ends-if w (is_empty request.changed) _ _ (λ h. Ends-pure w _ (refl, no_paths _ h))
          (λ _.
            Ends-unless w (conflict_at s request Check.at_start) _ _
              (λ c e. Ends-pure w _ (inl refl, (Check.at_start, e)))
              (prepare-Ends paths _ w alive selected placed refl)))
