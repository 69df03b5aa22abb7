-- ===== src/Delivery/Prepared.antt =====
-- What the preparation of a delivery leaves: a forward journal and a recoverable state.
use ai_agent_workflow.Prelude.{
  ℕ, String, ◌≡◌, refl, sym, ap, ◌∙◌, true, false, Option, none, some, List, [], ◌∷◌, map, arith,
  str_eq, eq_iff, eq_refl, ok, subst, All,
}
use mathlib.Core.List.Memᴰ
use mathlib.Core.List.{Memᴰ}
use ai_agent_workflow.Prelude.Dict.{Dict}
use ai_agent_workflow.Engine.Tables.{member}
use ai_agent_workflow.Delivery.Files.{
  Tree, Platform, World, raised, apply_conflict, raise, pure, gets, ◌>>=◌,
}
use ai_agent_workflow.Delivery.Journal.{Operation, Journal, is_terminal, persist_delivery_journal}
use ai_agent_workflow.Delivery.Prepare.{
  selected_paths, conflicts_of, new_operation, new_journal, clear_backup, unless_conflicts,
  prepare_selected, lift, prepare_delivery_journal,
}
use ai_agent_workflow.Delivery.Ends.{
  Ends, Ends-pure, Ends-effect, Ends-bind, Ends-read, Ends-pure-bind,
}
use ai_agent_workflow.Delivery.Invariant.{IsIntact, IsApart, AllIntact}
use ai_agent_workflow.Delivery.Forward.{IsForward, IsRecoverable}
use ai_agent_workflow.Delivery.Placed.{prepared, prepared_forward, prepared-IsIntact, IsPlaced}
use ai_agent_workflow.Delivery.Backups.{IsBackedUp, prepare_operations-Ends}

module _ (p : Platform) where
  member_of : (paths : List String) (s : String) → Memᴰ s paths → member s paths ≡ true
  member_of [] s m = elim m [ ]
  member_of (t ∷ paths) s (Memᴰ.head e) = rw e (rw eq_refl refl)
  member_of (t ∷ paths) s (Memᴰ.tail m) = rw (member_of paths s m) (ground arith)

  pub prepared-IsApart :
      (original isolated : Tree) (paths : List String)
      → IsPlaced p original paths
      → IsApart p (map (prepared p original isolated) paths)
  unfolding new_operation
  prepared-IsApart original isolated paths placed = record {
    safe = λ s m.
        let (a, ma, ea) = Memᴰ.of_map (prepared p original isolated) paths m in
        subst (λ (o : Operation). p.safe_relative o.path ≡ some o.path) ea (placed.normal a ma);
    own = λ s t ms mt e.
        let (a, ma, ea) = Memᴰ.of_map (prepared p original isolated) paths ms in
        let (b, mb, eb) = Memᴰ.of_map (prepared p original isolated) paths mt in
        sym ea
        ∙ ap (prepared p original isolated) (
            ap (λ (o : Operation). o.path) ea
            ∙ (eq_iff s.path t.path).0 e
            ∙ sym (ap (λ (o : Operation). o.path) eb))
        ∙ eb;
    beside = λ s t ms mt.
        let (a, ma, ea) = Memᴰ.of_map (prepared p original isolated) paths ms in
        let (b, mb, eb) = Memᴰ.of_map (prepared p original isolated) paths mt in
        subst (λ (o : Operation). All (λ d. str_eq d o.path ≡ false) (p.parents s.path)) eb
          (subst (λ (o : Operation). All (λ d. str_eq d b ≡ false) (p.parents o.path)) ea
            (placed.beside a b ma mb));
  }

  pub prepared-AllIntact :
      (paths : List String) (w w' : World Journal)
      → IsPlaced p w.original paths
      → IsBackedUp p paths w w'
      → AllIntact p (map (prepared p w.original w.isolated) paths) w'
  prepared-AllIntact paths w w' placed backed s m =
      let (a, ma, ea) = Memᴰ.of_map (prepared p w.original w.isolated) paths m in
      subst (IsIntact p w'.original w'.isolated w'.backup) ea (
        rw (backed.same_original, backed.same_isolated)
          (prepared-IsIntact p w.original w.isolated w'.backup a
            (λ f. backed.backups a ∙ rw (member_of paths a ma, f) refl) (placed.no_dir a ma)
            (placed.clear a ma)))

-- What a preparation of the paths leaves: the project as it was, and a saved journal without
-- progress, with the paths and one operation for each of them, from which the delivery can be applied
-- and rolled back.
pub record IsPrepared (p : Platform) (paths : List String) (w : World Journal) (j : Journal)
    (w' : World Journal) : Type 0 where
  pub untouched : w'.original ≡ w.original
  pub saved : w'.disk ≡ some j
  pub files : j.changed_files ≡ paths
  pub operations : j.operations ≡ map (prepared p w.original w.isolated) paths
  pub pending : is_terminal j.status ≡ false
  pub alive : w'.steps_left ≡ none
  pub apart : IsApart p (map (prepared p w.original w.isolated) paths)
  pub forward : IsForward (map (prepared p w.original w.isolated) paths) j
  pub recoverable : IsRecoverable p (map (prepared p w.original w.isolated) paths) w'

module _ (p : Platform) (baseline : Option (Dict (Option String))) (transaction_id run_id : String)
    (token : Option ℕ) where
  new_journal-IsPrepared :
      (paths : List String) (w w' : World Journal) (ops : List Operation)
      → IsPlaced p w.original paths
      → ops ≡ map (prepared p w.original w.isolated) paths
      → IsBackedUp p paths w w'
      → let j = new_journal transaction_id run_id token paths ops in
        IsPrepared p paths w j (record w' { disk = some j })
  new_journal-IsPrepared paths w w' ops placed e backed =
      let specs : List Operation = map (prepared p w.original w.isolated) paths in
      let all : IsForward specs (new_journal transaction_id run_id token paths ops) = record {
        same = rw e (prepared_forward p w.original w.isolated paths).0;
        forward = rw e (prepared_forward p w.original w.isolated paths).1;
      } in
      record {
        untouched = backed.same_original;
        saved = refl;
        files = refl;
        operations = e;
        pending = refl;
        alive = backed.alive;
        apart = prepared-IsApart p w.original w.isolated paths placed;
        forward = all;
        recoverable = record {
          intact = prepared-AllIntact p paths w w' placed backed;
          saved = λ k eq. subst (IsForward specs) (cc) all;
        };
      }

  -- A preparation sees no more of a world than its two trees.
  IsPrepared-trees :
      (paths : List String) (w w1 w' : World Journal) (j : Journal)
      → w1.original ≡ w.original
      → w1.isolated ≡ w.isolated
      → IsPrepared p paths w1 j w'
      → IsPrepared p paths w j w'
  IsPrepared-trees paths w w1 w' j o i h =
      let same : map (prepared p w1.original w1.isolated) paths
          ≡ map (prepared p w.original w.isolated) paths =
        rw (o, i) refl in
      record {
        untouched = h.untouched ∙ o;
        saved = h.saved;
        files = h.files;
        operations = h.operations ∙ same;
        pending = h.pending;
        alive = h.alive;
        apart = subst (λ l. IsApart p l) same h.apart;
        forward = subst (λ l. IsForward l j) same h.forward;
        recoverable = subst (λ l. IsRecoverable p l w') same h.recoverable;
      }

  prepare_selected-Ends :
      (paths : List String) (w : World Journal)
      → IsPlaced p w.original paths
      → conflicts_of p baseline w.original paths ≡ []
      → w.steps_left ≡ none
      → Ends
          (IsPrepared p paths w)
          (prepare_selected p baseline transaction_id run_id token paths)
          w
  unfolding prepare_selected unless_conflicts clear_backup persist_delivery_journal
  prepare_selected-Ends paths w placed none_conflict alive =
      Ends-read w (λ w. conflicts_of p baseline w.original paths) _
        (rw none_conflict (
          Ends-bind w _ _
            (Ends-effect
              {Q = λ _ w'.
                (w'.original ≡ w.original) × (w'.isolated ≡ w.isolated) × (w'.steps_left ≡ none)}
              w _ alive (refl, refl, alive))
            λ _ w1 (o, i, a).
              Ends-bind w1 _ _ (prepare_operations-Ends p paths w1 placed.normal a)
                λ ops w2 (ops_are, backed).
                  let j : Journal = new_journal transaction_id run_id token paths ops in
                  Ends-bind w2 _ _
                    (Ends-effect {Q = λ _ w'. IsPrepared p paths w j w'} w2 _ backed.alive (
                      IsPrepared-trees paths w w1 _ j o i (
                        new_journal-IsPrepared paths w1 w2 ops
                          (subst (λ t. IsPlaced p t paths) (sym o) placed) ops_are backed)))
                    λ _ w3 done. Ends-pure w3 j done))

  pub prepare_delivery_journal_conflict :
      (changed_files paths : List String) (c : String) (cs : List String) (w : World Journal)
      → selected_paths p changed_files ≡ ok paths
      → conflicts_of p baseline w.original paths ≡ c ∷ cs
      → prepare_delivery_journal p changed_files baseline transaction_id run_id token w
        ≡ (raised (apply_conflict (c ∷ cs)), w)
  unfolding prepare_delivery_journal lift prepare_selected unless_conflicts ◌>>=◌ pure gets raise
  prepare_delivery_journal_conflict changed_files paths c cs w selected e = rw (selected, e) refl

  -- With no crash to come, the preparation of a delivery of safe paths, that are placed as
  -- `IsPlaced` says and of which none has changed since the baseline, returns. It leaves the project
  -- as it was and a saved journal without progress, whose changed files are the selected paths, with
  -- the operation that `prepared` makes for each of them, in their order. These operations are apart,
  -- and the state is recoverable.
  pub prepare_delivery_journal-IsPrepared :
      (changed_files paths : List String) (w : World Journal)
      → selected_paths p changed_files ≡ ok paths
      → IsPlaced p w.original paths
      → conflicts_of p baseline w.original paths ≡ []
      → w.steps_left ≡ none
      → Ends
          (IsPrepared p paths w)
          (prepare_delivery_journal p changed_files baseline transaction_id run_id token)
          w
  unfolding prepare_delivery_journal lift
  prepare_delivery_journal-IsPrepared changed_files paths w selected placed none_conflict alive =
      rw selected
        (Ends-pure-bind w paths _ (prepare_selected-Ends paths w placed none_conflict alive))
