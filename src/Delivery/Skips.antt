-- ===== src/Delivery/Skips.antt =====
-- What a rollback does with operations that are marked as rolled back.
use mathlib.Core.List.{reverse}
use ai_agent_workflow.Prelude.{String, ◌≡◌, refl, ◌∙◌, true, none, some, List, [], ◌∷◌, All}
use ai_agent_workflow.Prelude.Members.{All-reverse}
use ai_agent_workflow.Delivery.Files.{Platform, World}
use ai_agent_workflow.Delivery.Journal.{
  Operation, JournalStatus, Journal, persist_delivery_journal, safe_path, checked_path,
}
use ai_agent_workflow.Delivery.Rollback.{
  Summary, is_rolled_back, rollback_operations, rollback_delivery_journal,
}
use ai_agent_workflow.Delivery.Ends.{
  Ends, Ends-pure, Ends-if, Ends-effect, Ends-bind, Ends-pure-bind,
}

-- The original tree is unchanged and no crash is to come.
abbrev IsStill : World Journal → World Journal → Type 0
IsStill w w' = (w'.original ≡ w.original) × (w'.steps_left ≡ none)

persist-IsStill :
    (j : Journal) (w : World Journal)
    → w.steps_left ≡ none
    → Ends (λ _ w'. IsStill w w') (persist_delivery_journal j) w
unfolding persist_delivery_journal
persist-IsStill j w alive = Ends-effect w (λ w. record w { disk = some j }) alive (refl, alive)

-- The operation is marked as rolled back, and its path is safe.
abbrev pub IsSkipped : Platform → Operation → Type 0
IsSkipped p op =
    (is_rolled_back op.status ≡ true) × ((rel : String) × (p.safe_relative op.path ≡ some rel))

module _ (p : Platform) where
  all_skipped :
      (j : Journal) (before finished : List Operation) (summary : Summary) (w : World Journal)
      → All (IsSkipped p) before
      → w.steps_left ≡ none
      → Ends (λ _ w'. IsStill w w') (rollback_operations p j before finished summary) w
  unfolding rollback_operations safe_path checked_path
  all_skipped j [] finished summary w marked alive = Ends-pure w _ (refl, alive)
  all_skipped j (op ∷ before) finished summary w marked alive = rw marked.0.1.1 (
      Ends-pure-bind w marked.0.1.0 _ (
        Ends-if w (is_rolled_back op.status) _ _
          (λ _. all_skipped j before (op ∷ finished) summary w marked.1 alive)
          (λ e. cc (e, marked.0.0))))

  -- A rollback without a crash of a journal whose operations are all marked as rolled back and have
  -- safe paths returns, says that it is rolled back, and leaves the project as it is, whatever stands
  -- at the targets.
  pub rollback_skips_marked :
      (j : Journal) (w : World Journal)
      → All (IsSkipped p) j.operations
      → w.steps_left ≡ none
      → Ends
          (λ j' w'. (j'.status ≡ JournalStatus.rolled_back) × (w'.original ≡ w.original))
          (rollback_delivery_journal p j)
          w
  unfolding rollback_delivery_journal
  rollback_skips_marked j w marked alive =
      Ends-bind w _ _ (persist-IsStill _ w alive) λ _ w1 (same1, alive1).
        Ends-bind w1 _ _
          (all_skipped _ (reverse j.operations) [] ([], []) w1
            (All-reverse (IsSkipped p) j.operations marked) alive1)
          λ (ops, summary) w2 (same2, alive2).
            Ends-bind w2 _ _ (persist-IsStill _ w2 alive2)
              λ _ w3 (same3, _). Ends-pure w3 _ (refl, same3 ∙ same2 ∙ same1)
