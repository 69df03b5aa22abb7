-- ===== src/Delivery/Recoverable.antt =====
-- Whatever cuts the application of a journal short, files and journal stay recoverable.
use ai_agent_workflow.Prelude.{
  ◌≡◌, refl, sym, ap, ◌∙◌, true, false, not, Option, none, List, [], ◌∷◌, ◌++◌, map, arith, str_eq,
  subst, All, All-append,
}
use mathlib.Core.List.{Memᴰ, map-append, append_assoc, append-nil}
use ai_agent_workflow.Delivery.Files.{Node, Platform, World, exists, is_dir}
use ai_agent_workflow.Delivery.Journal.{
  Action, write, delete, OperationStatus, Operation, JournalStatus, Journal, Step, is_terminal,
  safe_path, operation_is_applied, operation_is_baseline, mark_status,
}
use ai_agent_workflow.Delivery.Apply.{
  source_matches, write_target, delete_target, change_target, apply_operation, apply_operations,
  run_apply, apply_delivery_journal,
}
use ai_agent_workflow.Delivery.Rollback.{is_rolled_back}
use ai_agent_workflow.Delivery.Keeps.{
  Keeps, Keeps-pure, Keeps-raise, Keeps-gets, Keeps-if, Keeps-bind, Keeps-pure-bind, Gives,
  Gives-pure, Gives-bind, Keeps-bind-Gives,
}
use ai_agent_workflow.Delivery.Invariant.{spec, is_settled, IsApart}
use ai_agent_workflow.Delivery.Forward.{
  IsForward, IsRecoverable, persist_delivery_journal-Kept, put_original-Kept, make_dirs-Kept,
  atomic_copy-Kept,
}

module _ (p : Platform) (specs : List Operation) (apart : IsApart p specs) where
  abbrev Kept : {A : Type 0} → Step A → Type 0
  Kept = Keeps (IsRecoverable p specs)

  write_settled :
      (op : Operation) (entry : Option Node)
      → op.action ≡ write
      → source_matches p op entry ≡ true
      → is_settled p entry op ≡ true
  unfolding operation_is_applied
  write_settled op entry e h = ground arith

  delete_settled : (op : Operation) → op.action ≡ delete → is_settled p none op ≡ true
  unfolding operation_is_applied
  delete_settled op e = ground arith

  parents_above :
      (op : Operation)
      → Memᴰ (spec op) specs
      → (s : Operation) → Memᴰ s specs
      → All (λ d. str_eq d s.path ≡ false) (p.parents op.path)
  parents_above op m s ms = apart.beside (spec op) s m ms

  change_target-Kept :
      (action : Action) (op : Operation)
      → op.action ≡ action
      → Memᴰ (spec op) specs
      → Kept (change_target p action op op.path)
  unfolding change_target write_target delete_target
  change_target-Kept write op e m = Keeps-bind _ _ (Keeps-gets _) λ source.
      Keeps-if (source_matches p op source) _ _
        (λ h.
          Keeps-bind _ _ (make_dirs-Kept p specs apart (p.parents op.path) (parents_above op m))
            λ _. atomic_copy-Kept p specs apart source op m (λ _. write_settled op source e h))
        (λ _. Keeps-raise _)
  change_target-Kept delete op e m = Keeps-bind _ _ (Keeps-gets _) λ target.
      Keeps-if (not (exists target)) _ _ (λ _. Keeps-pure tt)
        (λ _.
          Keeps-if (is_dir target) _ _ (λ _. Keeps-raise _)
            (λ _. put_original-Kept p specs apart op none m (delete_settled op e)))

  pub apply_operation-Kept : (op : Operation) → Memᴰ (spec op) specs → Kept (apply_operation p op)
  unfolding apply_operation safe_path
  apply_operation-Kept op m = rw (apart.safe (spec op) m) (
      Keeps-pure-bind op.path _ (
        Keeps-bind _ _ (Keeps-gets _) λ target.
          Keeps-if (operation_is_applied p target op) _ _ (λ _. Keeps-pure _)
            (λ _.
              Keeps-if (not (operation_is_baseline p target op)) _ _ (λ _. Keeps-raise _)
                (λ _. change_target-Kept op.action op refl m))))

  abbrev pub IsForwardOp : Operation → Type 0
  IsForwardOp op = is_rolled_back op.status ≡ false

  -- The operations that are done and those that are to come make up a forward journal.
  pub forward_journal :
      (j : Journal) (done rest : List Operation)
      → map spec done ++ map spec rest ≡ specs
      → All IsForwardOp done
      → All IsForwardOp rest
      → IsForward specs (record j { operations = done ++ rest })
  forward_journal j done rest same fd fr = record {
    same = map-append spec done rest ∙ same;
    forward = All-append IsForwardOp done rest fd fr;
  }

  pub marked_specs :
      (status : OperationStatus) (done rest : List Operation) (op : Operation)
      → map spec (done ++ mark_status status op ∷ []) ++ map spec rest
        ≡ map spec done ++ map spec (op ∷ rest)
  unfolding mark_status
  marked_specs status done rest op =
      ap (λ l. l ++ map spec rest) (map-append spec done (mark_status status op ∷ []))
      ∙ append_assoc (map spec done) (spec op ∷ []) (map spec rest)

  apply_operations-Kept :
      (j : Journal) (done rest : List Operation)
      → map spec done ++ map spec rest ≡ specs
      → All IsForwardOp done
      → All IsForwardOp rest
      → ((op : Operation) → Memᴰ op rest → Memᴰ (spec op) specs)
      → Kept (apply_operations p j done rest)
  unfolding apply_operations
  apply_operations-Kept j done [] same fd fr mem = Keeps-pure done
  apply_operations-Kept j done (op ∷ rest) same fd fr mem =
      let op' : Operation = mark_status OperationStatus.applied op in
      let fo : IsForwardOp op' = unfold mark_status in refl in
      let same' : map spec (done ++ op' ∷ []) ++ map spec rest ≡ specs =
        marked_specs OperationStatus.applied done rest op ∙ same in
      Keeps-bind _ _ (apply_operation-Kept op (mem op (Memᴰ.head refl))) λ _.
        Keeps-bind _ _
          (persist_delivery_journal-Kept p specs apart
            (record j { operations = done ++ op' ∷ rest })
            (forward_journal j done (op' ∷ rest) (unfold mark_status in same) fd (fo, fr.1)))
          λ _.
            apply_operations-Kept j (done ++ op' ∷ []) rest same'
              (All-append IsForwardOp done (op' ∷ []) fd (fo, tt)) fr.1 (λ o m. mem o (Memᴰ.tail m))

  pub Memᴰ-spec :
      (op : Operation) {ops : List Operation} → Memᴰ op ops → Memᴰ (spec op) (map spec ops)
  Memᴰ-spec op (Memᴰ.head e) = Memᴰ.head (ap spec e)
  Memᴰ-spec op (Memᴰ.tail m) = Memᴰ.tail (Memᴰ-spec op m)

  apply_operations-Gives :
      (j : Journal) (done rest : List Operation)
      → Gives
          (λ ops. ops ≡ done ++ map (mark_status OperationStatus.applied) rest)
          (apply_operations p j done rest)
  unfolding apply_operations
  apply_operations-Gives j done [] = Gives-pure done (sym (append-nil done))
  apply_operations-Gives j done (op ∷ rest) = Gives-bind _ _ λ _. Gives-bind _ _ λ _.
      subst
        (λ l.
          Gives (λ ops. ops ≡ l)
            (apply_operations p j (done ++ mark_status OperationStatus.applied op ∷ []) rest))
        (append_assoc done (mark_status OperationStatus.applied op ∷ [])
          (map (mark_status OperationStatus.applied) rest))
        (apply_operations-Gives j (done ++ mark_status OperationStatus.applied op ∷ []) rest)

  applied_forward :
      (ops : List Operation)
      → (map spec (map (mark_status OperationStatus.applied) ops) ≡ map spec ops)
        × All IsForwardOp (map (mark_status OperationStatus.applied) ops)
  unfolding mark_status
  applied_forward [] = (refl, tt)
  applied_forward (op ∷ ops) =
      (ap (λ l. spec op ∷ l) (applied_forward ops).0, (refl, (applied_forward ops).1))

  run_apply-Kept : (j : Journal) → IsForward specs j → Kept (run_apply p j)
  unfolding run_apply
  run_apply-Kept j f =
      let started : Journal = record j { status = JournalStatus.applying } in
      let mem : (op : Operation) → Memᴰ op j.operations → Memᴰ (spec op) specs =
        λ op m. subst (λ l. Memᴰ (spec op) l) f.same (Memᴰ-spec op m) in
      Keeps-bind _ _
        (persist_delivery_journal-Kept p specs apart started
          (record { same = f.same; forward = f.forward }))
        λ _.
          Keeps-bind-Gives _ _ (apply_operations-Gives started [] j.operations)
            (apply_operations-Kept started [] j.operations f.same tt f.forward mem)
            λ ops e.
              Keeps-bind _ _
                (persist_delivery_journal-Kept p specs apart
                  (record started { status = JournalStatus.verifying; operations = ops })
                  (record {
                    same = rw e ((applied_forward j.operations).0 ∙ f.same);
                    forward = rw e (applied_forward j.operations).1;
                  }))
                λ _. Keeps-pure _

  apply_delivery_journal-Kept :
      (j : Journal) → IsForward specs j → Kept (apply_delivery_journal p j)
  unfolding apply_delivery_journal
  apply_delivery_journal-Kept j f =
      Keeps-if (is_terminal j.status) _ _ (λ _. Keeps-pure j) (λ _. run_apply-Kept j f)

  -- The application of a forward journal, wherever it stops, at its end, at an exception or at a
  -- crash before any effect, leads from a recoverable state to a recoverable state, when the paths
  -- of the operations are apart.
  pub apply_delivery_journal-IsRecoverable :
      (j : Journal) (w : World Journal)
      → IsRecoverable p specs w
      → IsForward specs j
      → IsRecoverable p specs (apply_delivery_journal p j w).1
  apply_delivery_journal-IsRecoverable j w h f = (apply_delivery_journal-Kept j f).at w h
