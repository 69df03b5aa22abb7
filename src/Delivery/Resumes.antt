-- ===== src/Delivery/Resumes.antt =====
-- An application from a recoverable state returns, and every target is as the delivery wants it.
use ai_agent_workflow.Prelude.{
  ◌≡◌, refl, sym, inl, true, false, not, Option, none, some, List, [], ◌∷◌, map, arith, &&-split,
  subst, All,
}
use mathlib.Core.List.{Memᴰ}
use ai_agent_workflow.Prelude.Members.{All-Memᴰ}
use ai_agent_workflow.Delivery.Files.{Node, Platform, World, exists, is_dir}
use ai_agent_workflow.Delivery.Journal.{
  Action, write, delete, Operation, JournalStatus, Journal, is_terminal, safe_path, checked_path,
  operation_is_applied, operation_is_baseline,
}
use ai_agent_workflow.Delivery.Apply.{
  source_matches, write_target, delete_target, change_target, apply_operation, apply_operations,
  run_apply, apply_delivery_journal,
}
use ai_agent_workflow.Delivery.Ends.{
  Ends, Ends-pure, Ends-if, Ends-bind, Ends-read, Ends-weaken, Ends-pure-bind,
}
use ai_agent_workflow.Delivery.Invariant.{spec, is_settled, IsApart}
use ai_agent_workflow.Delivery.Forward.{IsForward, IsRecoverable}
use ai_agent_workflow.Delivery.Recoverable.{apply_delivery_journal-IsRecoverable, Memᴰ-spec}
use ai_agent_workflow.Delivery.Changes.{
  IsCalm, IsAfter, elsewhere, IsAfter-refl, IsAfter-trans, persist-Ends, put_original-Ends,
  target_not_dir, parents-Ends, atomic_copy-Ends,
}
use ai_agent_workflow.Delivery.Progress.{IsDoneOrLeft, one_done, none_done, nothing_left}

-- The target of an operation is as the delivery wants it.
abbrev pub IsApplied : Platform → Operation → World Journal → Type 0
IsApplied p s w = operation_is_applied p (w.original s.path) s ≡ true

-- What an application leaves: a saved journal to verify, and targets as the delivery wants them.
abbrev pub IsDelivered : Platform → List Operation → Journal → World Journal → Type 0
IsDelivered p specs j w =
    (j.status ≡ JournalStatus.verifying) × (w.disk ≡ some j) × All (λ s. IsApplied p s w) specs

module _ (p : Platform) (specs : List Operation) (apart : IsApart p specs) where
  abbrev Calm : World Journal → Type 0
  Calm = IsCalm p specs apart

  -- One operation is applied, and no other target has changed.
  abbrev Applied : Operation → World Journal → {A : Type 0} → A → World Journal → Type 0
  Applied op w _ w' =
      IsAfter p specs apart (elsewhere op) w w'
      × (operation_is_applied p (w'.original op.path) op ≡ true)

  written :
      (op : Operation) (source : Option Node)
      → op.action ≡ write
      → source_matches p op source ≡ true
      → operation_is_applied p source op ≡ true
  unfolding operation_is_applied
  written op source e h = rw e h

  deleted :
      (op : Operation) (target : Option Node)
      → op.action ≡ delete
      → not (exists target) ≡ true
      → operation_is_applied p target op ≡ true
  unfolding operation_is_applied
  deleted op target e h = rw e h

  applied_settled :
      (op : Operation) (entry : Option Node)
      → operation_is_applied p entry op ≡ true
      → is_settled p entry op ≡ true
  applied_settled op entry h = rw h refl

  write_target-Ends :
      (op : Operation) (w : World Journal)
      → Memᴰ (spec op) specs
      → op.action ≡ write
      → Calm w
      → Ends (Applied op w) (write_target p op op.path) w
  unfolding write_target
  write_target-Ends op w m e calm =
      Ends-read w (λ w. w.isolated op.path) _
        (Ends-if w (source_matches p op (w.isolated op.path)) _ _
          (λ h. Ends-bind w _ _ (parents-Ends p specs apart op w m calm) λ _ w1 after.
            Ends-weaken
              (atomic_copy-Ends p specs apart op (w.isolated op.path) w1 m (&&-split _ _ h).0
                (applied_settled op _ (written op _ e h)) after.calm)
              λ _ w2 (after', here). (
                IsAfter-trans p specs apart (elsewhere op) w w1 w2 after after',
                rw here (written op _ e h),
              ))
          (λ h. cc (h, (calm.intact (spec op) m).sourced e)))

  delete_target-Ends :
      (op : Operation) (w : World Journal)
      → Memᴰ (spec op) specs
      → op.action ≡ delete
      → Calm w
      → Ends (Applied op w) (delete_target p op op.path) w
  unfolding delete_target
  delete_target-Ends op w m e calm =
      Ends-read w (λ w. w.original op.path) _
        (Ends-if w (not (exists (w.original op.path))) _ _
          (λ gone.
            Ends-pure w _ (IsAfter-refl p specs apart (elsewhere op) w calm, deleted op _ e gone))
          (λ _.
            Ends-if w (is_dir (w.original op.path)) _ _
              (λ d. cc (d, target_not_dir p specs apart op w m calm))
              (λ _.
                Ends-weaken
                  (put_original-Ends p specs apart op none w m
                    (applied_settled op none (deleted op none e refl)) calm)
                  λ _ w' (after, here). (after, rw here (deleted op none e refl)))))

  change_target-Ends :
      (action : Action) (op : Operation) (w : World Journal)
      → Memᴰ (spec op) specs
      → op.action ≡ action
      → Calm w
      → Ends (Applied op w) (change_target p action op op.path) w
  unfolding change_target
  change_target-Ends write op w m e calm = write_target-Ends op w m e calm
  change_target-Ends delete op w m e calm = delete_target-Ends op w m e calm

  unsettled :
      (op : Operation) (entry : Option Node)
      → is_settled p entry (spec op) ≡ true
      → operation_is_applied p entry op ≡ false
      → not (operation_is_baseline p entry op) ≡ false
  unfolding operation_is_applied operation_is_baseline
  unsettled op entry s a = ground arith

  apply_operation-Ends :
      (op : Operation) (w : World Journal)
      → Memᴰ (spec op) specs
      → Calm w
      → Ends (Applied op w) (apply_operation p op) w
  unfolding apply_operation safe_path checked_path
  apply_operation-Ends op w m calm = rw (apart.safe (spec op) m) (
      Ends-pure-bind w op.path _ (
        Ends-read w (λ w. w.original op.path) _
          (Ends-if w (operation_is_applied p (w.original op.path) op) _ _
            (λ a. Ends-pure w _ (IsAfter-refl p specs apart (elsewhere op) w calm, a))
            (λ a.
              Ends-if w (not (operation_is_baseline p (w.original op.path) op)) _ _
                (λ b. cc (b, unsettled op _ (calm.intact (spec op) m).settled a))
                (λ _. change_target-Ends op.action op w m refl calm)))))

  spec-applied :
      (entry : Option Node) (op : Operation)
      → operation_is_applied p entry op ≡ true
      → operation_is_applied p entry (spec op) ≡ true
  unfolding operation_is_applied
  spec-applied entry op h = ground arith

  apply_operations-Ends :
      (j : Journal) (rest finished : List Operation) (w : World Journal)
      → ((op : Operation) → Memᴰ op rest → Memᴰ (spec op) specs)
      → IsDoneOrLeft (operation_is_applied p) specs (map spec rest) w
      → Calm w
      → Ends
          (λ _ w'. Calm w' × ((s : Operation) → Memᴰ s specs → IsApplied p s w'))
          (apply_operations p j finished rest)
          w
  unfolding apply_operations
  apply_operations-Ends j [] finished w mem left calm =
      Ends-pure w _ (calm, nothing_left p specs apart (operation_is_applied p) w left)
  apply_operations-Ends j (op ∷ rest) finished w mem left calm =
      let m : Memᴰ (spec op) specs = mem op (Memᴰ.head refl) in
      Ends-bind w _ _ (apply_operation-Ends op w m calm) λ _ w1 applied.
        Ends-bind w1 _ _ (persist-Ends p specs apart _ w1 applied.0.calm) λ _ w2 (after, _).
          apply_operations-Ends j rest _ w2 (λ o mo. mem o (Memᴰ.tail mo))
            (none_done p specs apart (operation_is_applied p) (map spec rest) w1 w2 after (
              one_done p specs apart (operation_is_applied p) op (map spec rest) w w1 m applied.0
                (spec-applied _ op applied.1) left))
            after.calm

  pub run_apply-Calm :
      (j : Journal) (w : World Journal)
      → IsForward specs j
      → Calm w
      → Ends (λ k w'. IsDelivered p specs k w' × Calm w') (run_apply p j) w
  unfolding run_apply
  run_apply-Calm j w f calm =
      Ends-bind w _ _ (persist-Ends p specs apart _ w calm) λ _ w1 (after, _).
        Ends-bind w1 _ _
          (apply_operations-Ends _ j.operations [] w1
            (λ op m. subst (λ l. Memᴰ (spec op) l) f.same (Memᴰ-spec p specs apart op m))
            (λ s ms. inl (subst (λ l. Memᴰ s l) (sym f.same) ms)) after.calm)
          λ ops w2 (calm2, applied).
            Ends-bind w2 _ _ (persist-Ends p specs apart _ w2 calm2) λ _ w3 (after3, saved).
              Ends-pure w3 _ (
                (refl, saved, All-Memᴰ specs λ s ms. rw (after3.others s ms refl) (applied s ms)),
                after3.calm,
              )

  run_apply-Ends :
      (j : Journal) (w : World Journal)
      → IsForward specs j
      → Calm w
      → Ends (IsDelivered p specs) (run_apply p j) w
  run_apply-Ends j w f calm = Ends-weaken (run_apply-Calm j w f calm) λ k w' h. h.0

  -- The application may stop anywhere, at a crash before any of its effects as well: if the journal
  -- that was saved last is not yet committed or rolled back, its application without a crash
  -- returns, saves a journal to be verified, and leaves every target as the delivery wants it. The
  -- state before is recoverable, its journal forward, and the paths of the operations are apart.
  pub crash_then_resume :
      (j : Journal) (w : World Journal) (saved : Journal)
      → IsRecoverable p specs w
      → IsForward specs j
      → (apply_delivery_journal p j w).1.disk ≡ some saved
      → is_terminal saved.status ≡ false
      → Ends
          (IsDelivered p specs)
          (apply_delivery_journal p saved)
          (record (apply_delivery_journal p j w).1 { steps_left = none })
  crash_then_resume j w saved h f e unfinished =
      let kept : IsRecoverable p specs (apply_delivery_journal p j w).1 =
        apply_delivery_journal-IsRecoverable p specs apart j w h f in
      unfold apply_delivery_journal in
      rw unfinished (
        run_apply-Ends saved _ (kept.saved saved e) (record { intact = kept.intact; alive = refl }))
