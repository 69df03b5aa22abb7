-- ===== src/Delivery/Forward.antt =====
-- Journals without a rollback, recoverable states, and the single changes that keep them.
use ai_agent_workflow.Prelude.{
  String, ◌≡◌, refl, true, false, Option, none, some, List, [], ◌∷◌, map, str_eq, subst, All,
}
use mathlib.Core.List.{Memᴰ}
use ai_agent_workflow.Delivery.Files.{
  Node, file, dir, Platform, World, is_file, is_dir, set_original, put_original, make_dir_at,
  make_dirs, atomic_copy,
}
use ai_agent_workflow.Delivery.Journal.{Operation, Journal, Step, persist_delivery_journal}
use ai_agent_workflow.Delivery.Rollback.{is_rolled_back}
use ai_agent_workflow.Delivery.Keeps.{
  Keeps, Keeps-pure, Keeps-raise, Keeps-gets, Keeps-if, Keeps-effect, Keeps-bind,
}
use ai_agent_workflow.Delivery.Invariant.{
  spec, is_settled, IsApart, AllIntact, target-AllIntact, parent-AllIntact,
}

-- A saved journal has the prepared operations, none of them rolled back.
pub record IsForward (specs : List Operation) (j : Journal) : Type 0 where
  pub same : map spec j.operations ≡ specs
  pub forward : All (λ op. is_rolled_back op.status ≡ false) j.operations

-- Every operation is intact, and what the journal file holds is a forward journal.
pub record IsRecoverable (p : Platform) (specs : List Operation) (w : World Journal) : Type 0 where
  pub intact : AllIntact p specs w
  pub saved : (j : Journal) → w.disk ≡ some j → IsForward specs j

module _ (p : Platform) (specs : List Operation) (apart : IsApart p specs) where
  abbrev pub Kept : {A : Type 0} → Step A → Type 0
  Kept = Keeps (IsRecoverable p specs)

  pub persist_delivery_journal-Kept :
      (j : Journal) → IsForward specs j → Kept (persist_delivery_journal j)
  unfolding persist_delivery_journal
  persist_delivery_journal-Kept j f =
      Keeps-effect (λ w. record w { disk = some j })
        λ w steps h. record { intact = h.intact; saved = λ k e. subst (IsForward specs) (cc) f }

  pub put_original-Kept :
      (op : Operation) (entry : Option Node)
      → Memᴰ (spec op) specs
      → is_settled p entry op ≡ true
      → Kept (put_original op.path entry)
  unfolding put_original
  put_original-Kept op entry m settled = Keeps-effect (set_original op.path entry) λ w steps h.
      record {
        intact =
            target-AllIntact p specs apart op entry w.original w.isolated w.backup m settled
              h.intact;
        saved = h.saved;
      }

  put_dir-Kept :
      (d : String)
      → ((s : Operation) → Memᴰ s specs → str_eq d s.path ≡ false)
      → Kept (put_original d (some dir))
  unfolding put_original
  put_dir-Kept d above = Keeps-effect (set_original d (some dir)) λ w steps h. record {
    intact = parent-AllIntact p specs apart d w.original w.isolated w.backup above h.intact;
    saved = h.saved;
  }

  make_dir_at-Kept :
      (entry : Option Node) (d : String)
      → ((s : Operation) → Memᴰ s specs → str_eq d s.path ≡ false)
      → Kept (make_dir_at entry d)
  unfolding make_dir_at
  make_dir_at-Kept none d above = put_dir-Kept d above
  make_dir_at-Kept (some dir) d above = Keeps-pure tt
  make_dir_at-Kept (some (file c)) d above = Keeps-raise _

  pub make_dirs-Kept :
      (ds : List String)
      → ((s : Operation) → Memᴰ s specs → All (λ d. str_eq d s.path ≡ false) ds)
      → Kept (make_dirs ds)
  unfolding make_dirs
  make_dirs-Kept [] above = Keeps-pure tt
  make_dirs-Kept (d ∷ rest) above = Keeps-bind _ _ (Keeps-gets _) λ entry.
      Keeps-bind _ _ (make_dir_at-Kept entry d (λ s m. (above s m).0))
        λ _. make_dirs-Kept rest (λ s m. (above s m).1)

  pub atomic_copy-Kept :
      (source : Option Node) (op : Operation)
      → Memᴰ (spec op) specs
      → (is_file source ≡ true → is_settled p source op ≡ true)
      → Kept (atomic_copy source op.path)
  unfolding atomic_copy
  atomic_copy-Kept (some (file c)) op m settled = Keeps-bind _ _ (Keeps-gets _) λ target.
      Keeps-if (is_dir target) _ _ (λ _. Keeps-raise _)
        (λ _. put_original-Kept op (some (file c)) m (settled refl))
  atomic_copy-Kept (some dir) op m settled = Keeps-raise _
  atomic_copy-Kept none op m settled = Keeps-raise _
  -- A entry that matches the source is what a write leaves.
