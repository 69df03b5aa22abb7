-- ===== src/Delivery/Changes.antt =====
-- The changes of the original tree that apply and rollback make, in a world without crashes.
use ai_agent_workflow.Prelude.{
  String, ◌≡◌, refl, ◌∙◌, Bool, true, false, not, Option, none, some, List, [], ◌∷◌, arith, str_eq,
  eq_refl, All,
}
use mathlib.Core.List.{Memᴰ}
use ai_agent_workflow.Delivery.Files.{
  Node, file, dir, set_node, Platform, World, is_file, is_dir, set_original, put_original,
  make_dir_at, make_dirs, atomic_copy,
}
use ai_agent_workflow.Delivery.Journal.{
  Operation, Journal, persist_delivery_journal, operation_is_applied, operation_is_baseline,
}
use ai_agent_workflow.Delivery.Ends.{
  Ends, Ends-pure, Ends-if, Ends-effect, Ends-bind, Ends-read, Ends-weaken,
}
use ai_agent_workflow.Delivery.Invariant.{
  spec, is_settled, IsApart, AllIntact, target-AllIntact, parent-AllIntact, All-map-le,
}

abbrev pub everywhere : Operation → Bool
everywhere s = true

abbrev pub elsewhere : Operation → Operation → Bool
elsewhere op s = not (str_eq op.path s.path)

module _ (p : Platform) (specs : List Operation) (apart : IsApart p specs) where
  -- Every operation is intact and no crash is to come.
  pub record IsCalm (w : World Journal) : Type 0 where
    pub intact : AllIntact p specs w
    pub alive : w.steps_left ≡ none

  -- A calm world, from a world in which the nodes at the paths of the operations that pass the test
  -- were the same.
  pub record IsAfter (test : Operation → Bool) (w w' : World Journal) : Type 0 where
    pub calm : IsCalm w'
    pub others :
        (s : Operation) → Memᴰ s specs → test s ≡ true → w'.original s.path ≡ w.original s.path

  pub IsAfter-refl : (test : Operation → Bool) (w : World Journal) → IsCalm w → IsAfter test w w
  IsAfter-refl test w calm = record { calm = calm; others = λ s m e. refl }

  pub IsAfter-trans :
      (test : Operation → Bool) (u v w : World Journal)
      → IsAfter everywhere u v
      → IsAfter test v w
      → IsAfter test u w
  IsAfter-trans test u v w a b = record {
    calm = b.calm;
    others = λ s m e. b.others s m e ∙ a.others s m refl;
  }

  pub persist-Ends :
      (j : Journal) (w : World Journal)
      → IsCalm w
      → Ends (λ _ w'. IsAfter everywhere w w' × (w'.disk ≡ some j)) (persist_delivery_journal j) w
  unfolding persist_delivery_journal
  persist-Ends j w calm =
      Ends-effect w (λ w. record w { disk = some j }) calm.alive
        (
          record {
            calm = record { intact = calm.intact; alive = calm.alive };
            others = λ s m e. refl;
          },
          refl,
        )

  -- A settled entry at the path of an operation.
  pub put_original-Ends :
      (op : Operation) (entry : Option Node) (w : World Journal)
      → Memᴰ (spec op) specs
      → is_settled p entry op ≡ true
      → IsCalm w
      → Ends
          (λ _ w'. IsAfter (elsewhere op) w w' × (w'.original op.path ≡ entry))
          (put_original op.path entry)
          w
  unfolding put_original set_original
  put_original-Ends op entry w m settled calm =
      Ends-effect w (set_original op.path entry) calm.alive (
        record {
          calm = record {
            intact =
                target-AllIntact p specs apart op entry w.original w.isolated w.backup m settled
                  calm.intact;
            alive = calm.alive;
          };
          others = λ s ms e. unfold set_node in ground arith;
        },
        unfold set_node in rw eq_refl,
      )

  make_dir_at-Ends :
      (d : String) (entry : Option Node) (w : World Journal)
      → is_file entry ≡ false
      → ((s : Operation) → Memᴰ s specs → str_eq d s.path ≡ false)
      → IsCalm w
      → Ends
          (λ _ w'.
            IsAfter everywhere w w'
            × ((e : String) → is_file (w.original e) ≡ false → is_file (w'.original e) ≡ false))
          (make_dir_at entry d)
          w
  unfolding make_dir_at put_original set_original
  make_dir_at-Ends d none w f above calm = Ends-effect w (set_original d (some dir)) calm.alive (
    record {
      calm = record {
        intact = parent-AllIntact p specs apart d w.original w.isolated w.backup above calm.intact;
        alive = calm.alive;
      };
      others = λ s ms e. unfold set_node in rw (above s ms);
    },
    λ e h. unfold set_node in ground arith,
  )
  make_dir_at-Ends d (some dir) w f above calm =
      Ends-pure w tt (IsAfter-refl everywhere w calm, λ e h. h)
  make_dir_at-Ends d (some (file c)) w f above calm = cc

  pub make_dirs-Ends :
      (ds : List String) (w : World Journal)
      → All (λ d. is_file (w.original d) ≡ false) ds
      → ((s : Operation) → Memᴰ s specs → All (λ d. str_eq d s.path ≡ false) ds)
      → IsCalm w
      → Ends (λ _ w'. IsAfter everywhere w w') (make_dirs ds) w
  unfolding make_dirs
  make_dirs-Ends [] w clear above calm = Ends-pure w tt (IsAfter-refl everywhere w calm)
  make_dirs-Ends (d ∷ rest) w clear above calm =
      Ends-read w (λ w. w.original d) _
        (Ends-bind w _ _ (make_dir_at-Ends d (w.original d) w clear.0 (λ s m. (above s m).0) calm)
          λ _ w' (after, keeps).
            Ends-weaken
              (make_dirs-Ends rest w'
                (All-map-le (λ e. is_file (w.original e) ≡ false)
                  (λ e. is_file (w'.original e) ≡ false) rest keeps clear.1)
                (λ s m. (above s m).1) after.calm)
              λ _ w'' after'. IsAfter-trans everywhere w w' w'' after after')

  settled_not_dir :
      (op : Operation) (entry : Option Node) → is_settled p entry op ≡ true → is_dir entry ≡ false
  unfolding operation_is_applied operation_is_baseline
  settled_not_dir op entry h = ground arith

  pub target_not_dir :
      (op : Operation) (w : World Journal)
      → Memᴰ (spec op) specs
      → IsCalm w
      → is_dir (w.original op.path) ≡ false
  target_not_dir op w m calm =
      settled_not_dir (spec op) (w.original op.path) (calm.intact (spec op) m).settled

  -- The directories above the target of an operation are made.
  pub parents-Ends :
      (op : Operation) (w : World Journal)
      → Memᴰ (spec op) specs
      → IsCalm w
      → Ends (λ _ w'. IsAfter everywhere w w') (make_dirs (p.parents op.path)) w
  parents-Ends op w m calm =
      make_dirs-Ends (p.parents op.path) w (calm.intact (spec op) m).clear
        (λ s ms. apart.beside (spec op) s m ms) calm

  -- A copy of a file to the path of an operation.
  pub atomic_copy-Ends :
      (op : Operation) (source : Option Node) (w : World Journal)
      → Memᴰ (spec op) specs
      → is_file source ≡ true
      → is_settled p source op ≡ true
      → IsCalm w
      → Ends
          (λ _ w'. IsAfter (elsewhere op) w w' × (w'.original op.path ≡ source))
          (atomic_copy source op.path)
          w
  unfolding atomic_copy
  atomic_copy-Ends op (some (file c)) w m f settled calm =
      Ends-read w (λ w. w.original op.path) _
        (Ends-if w (is_dir (w.original op.path)) _ _ (λ e. cc (e, target_not_dir op w m calm))
          (λ _. put_original-Ends op (some (file c)) w m settled calm))
  atomic_copy-Ends op (some dir) w m f settled calm = cc
  atomic_copy-Ends op none w m f settled calm = cc
