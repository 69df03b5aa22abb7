-- ===== src/Delivery/Backups.antt =====
-- The backups that a preparation makes.
use ai_agent_workflow.Prelude.{
  String, ◌≡◌, inl, inr, refl, ap, ◌∙◌, Bool, true, false, ◌&&◌, ◌||◌, Option, none, some, List, [],
  ◌∷◌, map, arith, str_eq, eq_iff, if◌then◌else◌, Bool-cases, subst,
}
use mathlib.Core.List.{Memᴰ}
use ai_agent_workflow.Engine.Tables.{member}
use ai_agent_workflow.Delivery.Files.{Node, Tree, set_node, Platform, World, is_file}
use ai_agent_workflow.Delivery.Journal.{Journal, safe_path, checked_path}
use ai_agent_workflow.Delivery.Prepare.{put_backup, prepare_operation, prepare_operations}
use ai_agent_workflow.Delivery.Ends.{
  Ends, Ends-pure, Ends-if, Ends-effect, Ends-bind, Ends-read, Ends-pure-bind,
}
use ai_agent_workflow.Delivery.Placed.{prepared}

module _ (p : Platform) where
  -- The trees after the preparation of some paths.
  pub record IsBackedUp (paths : List String) (w w' : World Journal) : Type 0 where
    pub same_original : w'.original ≡ w.original
    pub same_isolated : w'.isolated ≡ w.isolated
    pub alive : w'.steps_left ≡ none
    pub backups :
        (t : String)
        → w'.backup t
          ≡ (if member t paths && is_file (w.original t) then w.original t else w.backup t)

  backup_made :
      (original : Tree) (b : Option Node) (s t : String)
      → is_file (original s) ≡ true
      → (if str_eq s t then original s else b)
        ≡ (if member t (s ∷ []) && is_file (original t) then original t else b)
  backup_made original b s t f = elim (Bool-cases (str_eq s t)) [
    | inl e ↦
        let same : s ≡ t = (eq_iff s t).0 e in
        let f' : is_file (original t) ≡ true = subst (λ x. is_file (original x) ≡ true) same f in
        rw (e, f') (ap original same)
    | inr e ↦ rw e refl
  ]

  backup_none :
      (original : Tree) (b : Option Node) (s t : String)
      → is_file (original s) ≡ false
      → b ≡ (if member t (s ∷ []) && is_file (original t) then original t else b)
  backup_none original b s t f = elim (Bool-cases (str_eq s t)) [
    | inl e ↦
        let f' : is_file (original t) ≡ false =
          subst (λ x. is_file (original x) ≡ false) ((eq_iff s t).0 e) f in
        rw (e, f') refl
    | inr e ↦ rw e refl
  ]

  backups_joined :
      (a b f : Bool) (x y : Option Node)
      → (if b && f then x else (if (a || false) && f then x else y))
        ≡ (if (a || b) && f then x else y)
  backups_joined true true f x y = ground arith
  backups_joined true false f x y = refl
  backups_joined false b f x y = refl

  prepare_operation-Ends :
      (s : String) (w : World Journal)
      → p.safe_relative s ≡ some s
      → w.steps_left ≡ none
      → Ends
          (λ op w'. (op ≡ prepared p w.original w.isolated s) × IsBackedUp (s ∷ []) w w')
          (prepare_operation p s)
          w
  unfolding prepare_operation safe_path checked_path put_backup set_node
  prepare_operation-Ends s w normal alive = rw normal (
      Ends-pure-bind w s _ (
        Ends-read w (λ w. w.isolated s) _
          (Ends-read w (λ w. w.original s) _
            (Ends-bind w _ _
              (Ends-if {Q = λ _ w'. IsBackedUp (s ∷ []) w w'} w (is_file (w.original s)) _ _
                (λ f. Ends-effect w _ alive (record {
                  same_original = refl;
                  same_isolated = refl;
                  alive = alive;
                  backups = λ t. backup_made w.original _ s t f;
                }))
                (λ f. Ends-pure w tt (record {
                  same_original = refl;
                  same_isolated = refl;
                  alive = alive;
                  backups = λ t. backup_none w.original _ s t f;
                })))
              λ _ w' backed. Ends-pure w' _ (refl, backed)))))

  IsBackedUp-join :
      (s : String) (rest : List String) (u v w : World Journal)
      → IsBackedUp (s ∷ []) u v
      → IsBackedUp rest v w
      → IsBackedUp (s ∷ rest) u w
  IsBackedUp-join s rest u v w a b = record {
    same_original = b.same_original ∙ a.same_original;
    same_isolated = b.same_isolated ∙ a.same_isolated;
    alive = b.alive;
    backups = λ t.
        b.backups t
        ∙ rw (a.backups t, a.same_original)
            (backups_joined (str_eq s t) (member t rest) (is_file (u.original t)) (u.original t)
              (u.backup t));
  }

  pub prepare_operations-Ends :
      (paths : List String) (w : World Journal)
      → ((s : String) → Memᴰ s paths → p.safe_relative s ≡ some s)
      → w.steps_left ≡ none
      → Ends
          (λ ops w'. (ops ≡ map (prepared p w.original w.isolated) paths) × IsBackedUp paths w w')
          (prepare_operations p paths)
          w
  unfolding prepare_operations
  prepare_operations-Ends [] w normal alive = Ends-pure w [] (
    refl,
    record { same_original = refl; same_isolated = refl; alive = alive; backups = λ t. refl },
  )
  prepare_operations-Ends (s ∷ rest) w normal alive =
      Ends-bind w _ _ (prepare_operation-Ends s w (normal s (Memᴰ.head refl)) alive)
        λ op w1 (op_is, backed).
          Ends-bind w1 _ _
            (prepare_operations-Ends rest w1 (λ t m. normal t (Memᴰ.tail m)) backed.alive)
            λ ops w2 (ops_are, backed'). Ends-pure w2 _ (
              rw (op_is, ops_are, backed.same_original, backed.same_isolated) refl,
              IsBackedUp-join s rest w w1 w2 backed backed',
            )
