-- ===== src/Delivery/Restores.antt =====
-- A rollback from a recoverable state returns, and every target is as it was before the delivery.
use ai_agent_workflow.Prelude.{
  ◌≡◌, refl, sym, inl, true, false, none, some, List, [], ◌∷◌, map, subst, All,
}
use mathlib.Core.List.{Memᴰ, reverse, reverse-reverse}
use ai_agent_workflow.Prelude.Members.{Memᴰ-reverse, map-reverse, All-Memᴰ}
use ai_agent_workflow.Delivery.Files.{Platform, World}
use ai_agent_workflow.Delivery.Journal.{
  Operation, JournalStatus, Journal, operation_is_baseline, safe_path, checked_path,
}
use ai_agent_workflow.Delivery.Apply.{apply_delivery_journal}
use ai_agent_workflow.Delivery.Rollback.{
  Summary, is_rolled_back, rollback_operations, rollback_delivery_journal,
}
use ai_agent_workflow.Delivery.Ends.{Ends, Ends-pure, Ends-if, Ends-bind, Ends-pure-bind}
use ai_agent_workflow.Delivery.Invariant.{spec, IsApart, spec-baseline}
use ai_agent_workflow.Delivery.Forward.{IsForward, IsRecoverable}
use ai_agent_workflow.Delivery.Recoverable.{apply_delivery_journal-IsRecoverable, Memᴰ-spec}
use ai_agent_workflow.Delivery.Changes.{IsCalm, persist-Ends}
use ai_agent_workflow.Delivery.Progress.{IsDoneOrLeft, one_done, none_done, nothing_left}
use ai_agent_workflow.Delivery.Restoring.{rollback_operation-Ends}

-- The target of an operation is as it was before the delivery.
abbrev pub IsBaseline : Platform → Operation → World Journal → Type 0
IsBaseline p s w = operation_is_baseline p (w.original s.path) s ≡ true

-- What a rollback leaves: a saved journal that is rolled back, and targets as they were before.
abbrev pub IsRolledBack : Platform → List Operation → Journal → World Journal → Type 0
IsRolledBack p specs j w =
    (j.status ≡ JournalStatus.rolled_back) × (w.disk ≡ some j) × All (λ s. IsBaseline p s w) specs

module _ (p : Platform) (specs : List Operation) (apart : IsApart p specs) where
  rollback_operations-Ends :
      (j : Journal) (before finished : List Operation) (summary : Summary) (w : World Journal)
      → ((op : Operation)
          → Memᴰ op before
          → Memᴰ (spec op) specs × (is_rolled_back op.status ≡ false))
      → IsDoneOrLeft (operation_is_baseline p) specs (map spec before) w
      → IsCalm p specs apart w
      → Ends
          (λ _ w'. IsCalm p specs apart w' × ((s : Operation) → Memᴰ s specs → IsBaseline p s w'))
          (rollback_operations p j before finished summary)
          w
  unfolding rollback_operations safe_path checked_path
  rollback_operations-Ends j [] finished summary w mem left calm =
      Ends-pure w _ (calm, nothing_left p specs apart (operation_is_baseline p) w left)
  rollback_operations-Ends j (op ∷ before) finished summary w mem left calm =
      let m : Memᴰ (spec op) specs = (mem op (Memᴰ.head refl)).0 in
      rw (apart.safe (spec op) m) (
        Ends-pure-bind w op.path _ (
          Ends-if w (is_rolled_back op.status) _ _ (λ e. cc (e, (mem op (Memᴰ.head refl)).1))
            (λ _.
              Ends-bind w _ _ (rollback_operation-Ends p specs apart op summary w m calm)
                λ summary' w1 restored.
                  Ends-bind w1 _ _ (persist-Ends p specs apart _ w1 restored.0.calm)
                    λ _ w2 (after, _).
                      rollback_operations-Ends j before _ summary' w2 (λ o mo. mem o (Memᴰ.tail mo))
                        (none_done p specs apart (operation_is_baseline p) (map spec before) w1 w2
                          after
                          (one_done p specs apart (operation_is_baseline p) op (map spec before) w
                            w1 m restored.0 (spec-baseline p specs apart _ op restored.1) left))
                        after.calm)))

  Memᴰ-forward :
      (ops : List Operation) (op : Operation)
      → All (λ o. is_rolled_back o.status ≡ false) ops
      → Memᴰ op ops
      → is_rolled_back op.status ≡ false
  Memᴰ-forward [] op f m = elim m [ ]
  Memᴰ-forward (o ∷ ops) op f (Memᴰ.head e) = rw e f.0
  Memᴰ-forward (o ∷ ops) op f (Memᴰ.tail m) = Memᴰ-forward ops op f.1 m

  -- The rollback of a forward journal, with every operation intact and no crash to come.
  pub rollback_delivery_journal-Ends :
      (j : Journal) (w : World Journal)
      → IsForward specs j
      → IsCalm p specs apart w
      → Ends (IsRolledBack p specs) (rollback_delivery_journal p j) w
  unfolding rollback_delivery_journal
  rollback_delivery_journal-Ends j w f calm =
      Ends-bind w _ _ (persist-Ends p specs apart _ w calm) λ _ w1 (after, _).
        Ends-bind w1 _ _
          (rollback_operations-Ends _ (reverse j.operations) [] ([], []) w1
            (λ op m.
              let m' : Memᴰ op j.operations =
                subst (λ l. Memᴰ op l) (reverse-reverse j.operations)
                  (Memᴰ-reverse (reverse j.operations) op m) in
              (
                subst (λ l. Memᴰ (spec op) l) f.same (Memᴰ-spec p specs apart op m'),
                Memᴰ-forward j.operations op f.forward m',
              ))
            (λ s ms. inl (
              subst (λ l. Memᴰ s l) (sym (map-reverse spec j.operations))
                (Memᴰ-reverse (map spec j.operations) s (subst (λ l. Memᴰ s l) (sym f.same) ms))))
            after.calm)
          λ (ops, summary) w2 (calm2, base).
            Ends-bind w2 _ _ (persist-Ends p specs apart _ w2 calm2) λ _ w3 (after3, saved).
              Ends-pure w3 _
                (refl, saved, All-Memᴰ specs λ s ms. rw (after3.others s ms refl) (base s ms))

  -- The application may stop anywhere, at its end, at an exception or at a crash before any of its
  -- effects: with the journal that was saved last, a rollback that is not interrupted returns, saves
  -- a journal that is rolled back, and leaves every target as it was before the delivery. The state
  -- before the application is recoverable (it is one after the preparation), and its journal is
  -- forward; the paths of the operations are apart.
  pub crash_then_rollback :
      (j : Journal) (w : World Journal) (saved : Journal)
      → IsRecoverable p specs w
      → IsForward specs j
      → (apply_delivery_journal p j w).1.disk ≡ some saved
      → Ends
          (IsRolledBack p specs)
          (rollback_delivery_journal p saved)
          (record (apply_delivery_journal p j w).1 { steps_left = none })
  crash_then_rollback j w saved h f e =
      let kept : IsRecoverable p specs (apply_delivery_journal p j w).1 =
        apply_delivery_journal-IsRecoverable p specs apart j w h f in
      rollback_delivery_journal-Ends saved _ (kept.saved saved e)
        (record { intact = kept.intact; alive = refl })
