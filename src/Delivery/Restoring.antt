-- ===== src/Delivery/Restoring.antt =====
-- The rollback of one operation returns, and its target is as it was before the delivery.
use ai_agent_workflow.Prelude.{◌≡◌, Bool, true, false, not, Option, none, List, arith, &&-split}
use mathlib.Core.List.{Memᴰ}
use ai_agent_workflow.Delivery.Files.{Node, Platform, World, exists, is_dir}
use ai_agent_workflow.Delivery.Journal.{Operation, Journal, operation_is_baseline}
use ai_agent_workflow.Delivery.Rollback.{
  Summary, backup_matches, restore_backup, remove_target, rollback_operation,
}
use ai_agent_workflow.Delivery.Ends.{Ends, Ends-pure, Ends-if, Ends-bind, Ends-read}
use ai_agent_workflow.Delivery.Invariant.{spec, is_settled, IsApart}
use ai_agent_workflow.Delivery.Changes.{
  IsCalm, IsAfter, elsewhere, IsAfter-refl, IsAfter-trans, put_original-Ends, target_not_dir,
  parents-Ends, atomic_copy-Ends,
}

module _ (p : Platform) (specs : List Operation) (apart : IsApart p specs) where
  abbrev pub Calm : World Journal → Type 0
  Calm = IsCalm p specs apart

  abbrev pub After : (Operation → Bool) → World Journal → World Journal → Type 0
  After = IsAfter p specs apart

  backup_baseline :
      (op : Operation) (entry : Option Node)
      → op.existed ≡ true
      → backup_matches p op entry ≡ true
      → operation_is_baseline p entry op ≡ true
  unfolding operation_is_baseline
  backup_baseline op entry e h = rw e h

  absent_baseline : (op : Operation) → op.existed ≡ false → operation_is_baseline p none op ≡ true
  unfolding operation_is_baseline
  absent_baseline op e = rw e

  gone_baseline :
      (op : Operation) (entry : Option Node)
      → op.existed ≡ false
      → not (exists entry) ≡ true
      → operation_is_baseline p entry op ≡ true
  unfolding operation_is_baseline
  gone_baseline op entry e h = rw e h

  baseline_settled :
      (op : Operation) (entry : Option Node)
      → operation_is_baseline p entry op ≡ true
      → is_settled p entry op ≡ true
  baseline_settled op entry h = rw h (ground arith)

  -- One operation is rolled back: its target is the baseline, and no other target has changed.
  abbrev pub Restored : Operation → World Journal → {A : Type 0} → A → World Journal → Type 0
  Restored op w _ w' =
      After (elsewhere op) w w' × (operation_is_baseline p (w'.original op.path) op ≡ true)

  restore_backup-Ends :
      (op : Operation) (summary : Summary) (w : World Journal)
      → Memᴰ (spec op) specs
      → op.existed ≡ true
      → Calm w
      → Ends (Restored op w) (restore_backup p op op.path summary) w
  unfolding restore_backup
  restore_backup-Ends op summary w m e calm =
      Ends-read w (λ w. w.backup op.path) _
        (Ends-if w (backup_matches p op (w.backup op.path)) _ _
          (λ b. Ends-bind w _ _ (parents-Ends p specs apart op w m calm) λ _ w1 after.
            Ends-bind w1 _ _
              (atomic_copy-Ends p specs apart op (w.backup op.path) w1 m (&&-split _ _ b).0
                (baseline_settled op _ (backup_baseline op _ e b)) after.calm)
              λ _ w2 (after', here). Ends-pure w2 _ (
                IsAfter-trans p specs apart (elsewhere op) w w1 w2 after after',
                rw here (backup_baseline op _ e b),
              ))
          (λ b. cc (b, (calm.intact (spec op) m).backed e)))

  remove_target-Ends :
      (op : Operation) (summary : Summary) (w : World Journal)
      → Memᴰ (spec op) specs
      → op.existed ≡ false
      → Calm w
      → Ends (Restored op w) (remove_target p op op.path summary) w
  unfolding remove_target
  remove_target-Ends op summary w m e calm =
      Ends-read w (λ w. w.original op.path) _
        (Ends-if w (not (exists (w.original op.path))) _ _
          (λ gone. Ends-pure w _ (
            IsAfter-refl p specs apart (elsewhere op) w calm,
            gone_baseline op (w.original op.path) e gone,
          ))
          (λ there.
            Ends-if w (is_dir (w.original op.path)) _ _
              (λ d. cc (d, target_not_dir p specs apart op w m calm))
              (λ _.
                Ends-bind w _ _
                  (put_original-Ends p specs apart op none w m
                    (baseline_settled op none (absent_baseline op e)) calm)
                  λ _ w' (after, here). Ends-pure w' _ (after, rw here (absent_baseline op e)))))

  pub rollback_operation-Ends :
      (op : Operation) (summary : Summary) (w : World Journal)
      → Memᴰ (spec op) specs
      → Calm w
      → Ends (Restored op w) (rollback_operation p op op.path summary) w
  unfolding rollback_operation
  rollback_operation-Ends op summary w m calm =
      Ends-read w (λ w. w.original op.path) _
        (Ends-if w _ _ _
          (λ b.
            Ends-pure w summary
              (IsAfter-refl p specs apart (elsewhere op) w calm, (&&-split _ _ b).1))
          (λ _.
            Ends-if w op.existed _ _ (λ e. restore_backup-Ends op summary w m e calm)
              (λ e. remove_target-Ends op summary w m e calm)))
