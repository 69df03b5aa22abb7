-- ===== src/Atomic/AllOrNothing.antt =====
-- A delivery installs all its files or leaves the project as it was.
use ai_agent_workflow.Prelude.{
  ◌≡◌, refl, inl, inr, true, false, some, List, [], ◌∷◌, String, All, subst,
}
use mathlib.Core.List.{Memᴰ}
use ai_agent_workflow.Delivery.Files.{Platform, World}
use ai_agent_workflow.Delivery.Journal.{Operation, Journal, is_terminal}
use ai_agent_workflow.Delivery.Apply.{apply_delivery_journal}
use ai_agent_workflow.Delivery.Rollback.{rollback_delivery_journal}
use ai_agent_workflow.Delivery.Ends.{
  Ends, Ends-pure, Ends-if, Ends-bind, Ends-read, Ends-weaken, Ends-returns,
}
use ai_agent_workflow.Delivery.Invariant.{IsApart}
use ai_agent_workflow.Delivery.Forward.{IsForward, IsRecoverable}
use ai_agent_workflow.Delivery.Recoverable.{apply_delivery_journal-IsRecoverable}
use ai_agent_workflow.Delivery.Changes.{IsCalm}
use ai_agent_workflow.Delivery.Restores.{rollback_delivery_journal-Ends}
use ai_agent_workflow.Delivery.Resumes.{IsApplied, run_apply-Calm}
use ai_agent_workflow.Atomic.Policy.{DeliveryPolicy, evaluate_delivery_validation}
use ai_agent_workflow.Atomic.Requests.{Check, DeliveryAnswer, DeliveryRequest, Surroundings}
use ai_agent_workflow.Atomic.Deliver.{
  conflict_at, fenced, commit_stage, rejected_stage, verified_stage, apply_stage, journal_stage,
}
use ai_agent_workflow.Atomic.Answers.{IsInstalled, IsLost, IsAsked, AnswerHolds}
use ai_agent_workflow.Atomic.Commit.{
  commit_delivery_journal-Ends, Ends-caught, Ends-unless, Ends-by_status,
}

IsApplied-after :
    (p : Platform) (specs : List Operation) (w w' : World Journal)
    → ((t : Operation) → Memᴰ t specs → w'.original t.path ≡ w.original t.path)
    → All (λ t. IsApplied p t w) specs
    → All (λ t. IsApplied p t w') specs
IsApplied-after p [] w w' same h = tt
IsApplied-after p (t ∷ specs) w w' same h = (
  rw (same t (Memᴰ.head refl)) h.0,
  IsApplied-after p specs w w' (λ o m. same o (Memᴰ.tail m)) h.1,
)

module _ (s : Surroundings) (request : DeliveryRequest) (specs : List Operation)
    (apart : IsApart s.platform specs) (changed : List String) (start : World Journal) where
  abbrev pub Holds : DeliveryAnswer → World Journal → Type 0
  Holds = AnswerHolds s request specs changed start

  pub fenced-Ends :
      (j : Journal) (lost : _) (w : World Journal)
      → IsLost s request specs lost
      → IsForward specs j
      → IsCalm s.platform specs apart w
      → Ends Holds (fenced s request j lost) w
  unfolding fenced
  fenced-Ends j lost w cause f calm =
      Ends-bind w _ _ (rollback_delivery_journal-Ends s.platform specs apart j w f calm)
        λ rolled w1 back.
          Ends-unless w1 (conflict_at s request Check.after_fenced_rollback) _ _
            (λ c e. Ends-pure w1 _ (inl ((rolled, back), e)))
            (Ends-pure w1 _ ((rolled, back), cause))

  pub rejected-Ends :
      (policy : DeliveryPolicy) (j : Journal) (w : World Journal)
      → IsAsked s request specs policy
      → policy.allowed ≡ false
      → IsForward specs j
      → IsCalm s.platform specs apart w
      → Ends Holds (rejected_stage s request policy j) w
  unfolding rejected_stage
  rejected-Ends policy j w asked refused f calm =
      Ends-caught w (rollback_delivery_journal s.platform j) _ _
        (rollback_delivery_journal-Ends s.platform specs apart j w f calm)
        λ rolled w1 back.
          Ends-unless w1 (conflict_at s request Check.after_rollback) _ _
            (λ c e. Ends-pure w1 _ ((rolled, back), (Check.after_rollback, e)))
            (Ends-pure w1 _ ((rolled, back), (policy, asked, refused, refl)))

  pub commit-Ends :
      (j : Journal) (w : World Journal)
      → IsForward specs j
      → IsCalm s.platform specs apart w
      → All (λ t. IsApplied s.platform t w) specs
      → ((policy : DeliveryPolicy) × IsAsked s request specs policy × (policy.allowed ≡ true))
      → Ends Holds (commit_stage s request changed j) w
  unfolding commit_stage
  commit-Ends j w f calm applied accepted =
      Ends-unless w (conflict_at s request Check.before_commit) _ _
        (λ c e. fenced-Ends j c w (Check.before_commit, e) f calm)
        (Ends-bind w _ _ (commit_delivery_journal-Ends s.platform specs apart j w f calm)
          λ closed w1 (committed, saved, f1, after).
            let installed : IsInstalled s request specs w1 = (
              closed,
              committed,
              saved,
              IsApplied-after s.platform specs w w1 (λ t m. after.others t m refl) applied,
            ) in
            Ends-unless w1 (conflict_at s request Check.after_commit) _ _
              (λ c e. fenced-Ends closed c w1 (Check.after_commit, e) f1 after.calm)
              (Ends-unless w1 (conflict_at s request Check.at_end) _ _
                (λ c e. Ends-pure w1 _ (inr (installed, e)))
                (Ends-pure w1 _ (installed, saved, accepted))))

  -- The application returns, and its journal is forward.
  delivered :
      (j : Journal) (w : World Journal)
      → IsForward specs j
      → IsRecoverable s.platform specs w
      → IsCalm s.platform specs apart w
      → is_terminal j.status ≡ false
      → Ends
          (λ k w'.
            IsForward specs k
            × (w'.disk ≡ some k)
            × All (λ t. IsApplied s.platform t w') specs
            × IsCalm s.platform specs apart w')
          (apply_delivery_journal s.platform j)
          w
  unfolding apply_delivery_journal
  delivered j w f h calm pending =
      let kept : IsRecoverable s.platform specs (apply_delivery_journal s.platform j w).1 =
        apply_delivery_journal-IsRecoverable s.platform specs apart j w h f in
      rw pending (
        Ends-weaken (Ends-returns (run_apply-Calm s.platform specs apart j w f calm))
          λ k w' (same, ((status, saved, applied), calm1)). (
            kept.saved k (unfold apply_delivery_journal in rw (pending, same) saved),
            saved,
            applied,
            calm1,
          ))

  pub verified-Ends :
      (j : Journal) (w : World Journal)
      → IsForward specs j
      → IsCalm s.platform specs apart w
      → All (λ t. IsApplied s.platform t w) specs
      → Ends Holds (verified_stage s request changed j) w
  unfolding verified_stage
  verified-Ends j w f calm applied =
      let policy : DeliveryPolicy =
        evaluate_delivery_validation request.policy (s.verify w.original) in
      Ends-read w (λ w. evaluate_delivery_validation request.policy (s.verify w.original)) _
        (Ends-if w policy.allowed _ _
          (λ a. commit-Ends j w f calm applied (policy, (w, refl, applied), a))
          (λ r. rejected-Ends policy j w (w, refl, applied) r f calm))

  pub apply-Ends :
      (j : Journal) (w : World Journal)
      → IsForward specs j
      → IsRecoverable s.platform specs w
      → IsCalm s.platform specs apart w
      → is_terminal j.status ≡ false
      → Ends Holds (apply_stage s request changed j) w
  unfolding apply_stage
  apply-Ends j w f h calm pending =
      Ends-caught w (apply_delivery_journal s.platform j) _ _ (delivered j w f h calm pending)
        λ k w1 (f1, saved, applied, calm1).
          Ends-unless w1 (conflict_at s request Check.after_apply) _ _
            (λ c lost. Ends-pure w1 _ (
              inr (record {
                intact = calm1.intact;
                saved = λ o e. subst (IsForward specs) (cc) f1;
              }),
              (Check.after_apply, lost),
            ))
            (verified-Ends k w1 f1 calm1 applied)

  pub journal-Ends :
      (j : Journal) (w : World Journal)
      → IsForward specs j
      → IsRecoverable s.platform specs w
      → IsCalm s.platform specs apart w
      → is_terminal j.status ≡ false
      → Ends Holds (journal_stage s request changed j) w
  unfolding journal_stage
  journal-Ends j w f h calm pending =
      Ends-by_status w j.status _ _ _ pending (apply-Ends j w f h calm pending)
