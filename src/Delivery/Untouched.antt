-- ===== src/Delivery/Untouched.antt =====
-- The preparation of a delivery never changes the project.
use ai_agent_workflow.Prelude.{
  ℕ, String, ◌≡◌, refl, Option, none, some, List, [], ◌∷◌, Result, ok, err,
}
use ai_agent_workflow.Prelude.Dict.{Dict}
use ai_agent_workflow.Delivery.Files.{Tree, Platform, World, is_file, set_node}
use ai_agent_workflow.Delivery.Journal.{
  Journal, Step, persist_delivery_journal, safe_path, checked_path,
}
use ai_agent_workflow.Delivery.Prepare.{
  selected_paths, put_backup, prepare_operation, prepare_operations, clear_backup, unless_conflicts,
  prepare_selected, lift, prepare_delivery_journal,
}
use ai_agent_workflow.Delivery.Keeps.{
  Keeps, Keeps-pure, Keeps-raise, Keeps-gets, Keeps-if, Keeps-effect, Keeps-bind,
}

module _ (p : Platform) (tree : Tree) where
  abbrev IsUntouched : World Journal → Type 0
  IsUntouched w = w.original ≡ tree

  abbrev Untouched : {A : Type 0} → Step A → Type 0
  Untouched = Keeps IsUntouched

  checked_path-Untouched :
      (found : Option String) (path : String) → Untouched (checked_path found path)
  unfolding checked_path
  checked_path-Untouched none path = Keeps-raise _
  checked_path-Untouched (some rel) path = Keeps-pure rel

  prepare_operation-Untouched : (path : String) → Untouched (prepare_operation p path)
  unfolding prepare_operation safe_path put_backup
  prepare_operation-Untouched path =
      Keeps-bind _ _ (checked_path-Untouched (p.safe_relative path) path) λ rel.
        Keeps-bind _ _ (Keeps-gets _) λ source. Keeps-bind _ _ (Keeps-gets _) λ target.
          Keeps-bind _ _
            (Keeps-if (is_file target) _ _
              (λ _.
                Keeps-effect (λ w. record w { backup = set_node w.backup rel target })
                  λ w steps h. h)
              (λ _. Keeps-pure tt))
            λ _. Keeps-pure _

  prepare_operations-Untouched : (paths : List String) → Untouched (prepare_operations p paths)
  unfolding prepare_operations
  prepare_operations-Untouched [] = Keeps-pure []
  prepare_operations-Untouched (path ∷ rest) =
      Keeps-bind _ _ (prepare_operation-Untouched path)
        λ op. Keeps-bind _ _ (prepare_operations-Untouched rest) λ ops. Keeps-pure _

  unless_conflicts-Untouched :
      (conflicts : List String) (rest : Step Journal)
      → Untouched rest
      → Untouched (unless_conflicts conflicts rest)
  unfolding unless_conflicts
  unless_conflicts-Untouched [] rest k = k
  unless_conflicts-Untouched (c ∷ cs) rest k = Keeps-raise _

  prepare_selected-Untouched :
      (baseline : Option (Dict (Option String))) (transaction_id run_id : String) (token : Option ℕ)
      (paths : List String)
      → Untouched (prepare_selected p baseline transaction_id run_id token paths)
  unfolding prepare_selected clear_backup persist_delivery_journal
  prepare_selected-Untouched baseline transaction_id run_id token paths =
      Keeps-bind _ _ (Keeps-gets _) λ conflicts. unless_conflicts-Untouched conflicts _ (
        Keeps-bind _ _ (Keeps-effect (λ w. record w { backup = λ path. none }) λ w steps h. h) λ _.
          Keeps-bind _ _ (prepare_operations-Untouched paths)
            λ ops. Keeps-bind _ _ (Keeps-effect _ λ w steps h. h) λ _. Keeps-pure _)

  lift-Untouched : {A : Type 0} (r : Result _ A) → Untouched (lift r)
  unfolding lift
  lift-Untouched (ok a) = Keeps-pure a
  lift-Untouched (err e) = Keeps-raise e

-- Wherever the preparation stops, at its end, at a conflict or an unsafe path, or at a crash before
-- any effect, no file of the project has changed.
pub prepare_delivery_journal_untouched :
    (p : Platform) (changed_files : List String) (baseline : Option (Dict (Option String)))
    (transaction_id run_id : String) (token : Option ℕ) (w : World Journal)
    → (prepare_delivery_journal p changed_files baseline transaction_id run_id token w).1.original
      ≡ w.original
unfolding prepare_delivery_journal
prepare_delivery_journal_untouched p changed_files baseline transaction_id run_id token w =
    (Keeps-bind {P = IsUntouched p w.original} _ _
        (lift-Untouched p w.original (selected_paths p changed_files))
        λ paths.
          prepare_selected-Untouched p w.original baseline transaction_id run_id token paths).at
      w refl
