-- ===== src/Delivery/Invariant.antt =====
-- The state of a delivery between two effects, and which changes of the original tree keep it.
use ai_agent_workflow.Prelude.{
  String, ◌≡◌, inl, inr, Bool, true, false, ◌||◌, Option, some, List, [], ◌∷◌, arith, str_eq,
  eq_iff, if◌then◌else◌, Bool-cases, all, subst, All,
}
use mathlib.Core.List.{Memᴰ}
use ai_agent_workflow.Delivery.Files.{Node, dir, Tree, set_node, Platform, World, is_file}
use ai_agent_workflow.Delivery.Journal.{
  write, OperationStatus, Operation, Journal, operation_is_applied, operation_is_baseline,
}
use ai_agent_workflow.Delivery.Apply.{source_matches}
use ai_agent_workflow.Delivery.Rollback.{backup_matches}

-- An operation without its progress.
abbrev pub spec : Operation → Operation
spec op = record op { status = OperationStatus.prepared }

-- A entry is what the operation found, or what it leaves.
abbrev pub is_settled : Platform → Option Node → Operation → Bool
is_settled p entry op = operation_is_applied p entry op || operation_is_baseline p entry op

-- The backup and the source of an operation are as they were recorded, no file stands in the place
-- of a directory above its target, and the target is settled.
pub record IsIntact (p : Platform) (original isolated backup : Tree) (op : Operation) : Type 0 where
  pub backed : op.existed ≡ true → backup_matches p op (backup op.path) ≡ true
  pub sourced : op.action ≡ write → source_matches p op (isolated op.path) ≡ true
  pub clear : All (λ d. is_file (original d) ≡ false) (p.parents op.path)
  pub settled : is_settled p (original op.path) op ≡ true

-- The paths of the operations are relative and safe, each belongs to one operation, and none is a
-- directory above another.
pub record IsApart (p : Platform) (specs : List Operation) : Type 0 where
  pub safe : (s : Operation) → Memᴰ s specs → p.safe_relative s.path ≡ some s.path
  pub own : (s t : Operation) → Memᴰ s specs → Memᴰ t specs → str_eq s.path t.path ≡ true → s ≡ t
  pub beside :
      (s t : Operation)
      → Memᴰ s specs
      → Memᴰ t specs
      → All (λ d. str_eq d t.path ≡ false) (p.parents s.path)

abbrev pub AllIntact : Platform → List Operation → World Journal → Type 0
AllIntact p specs w = (s : Operation) → Memᴰ s specs → IsIntact p w.original w.isolated w.backup s

pub str_eq-flip : (a b : String) → str_eq a b ≡ false → str_eq b a ≡ false
str_eq-flip a b h = ground (arith, eq_iff a b, eq_iff b a)

pub All-map-le {ℓ} :
    {A : Type ℓ} (P Q : A → Type 0) (xs : List A) → ((x : A) → P x → Q x) → All P xs → All Q xs
All-map-le P Q [] f a = a
All-map-le P Q (x ∷ xs) f a = (f x a.0, All-map-le P Q xs f a.1)

All-both {ℓ} :
    {A : Type ℓ} (P Q R : A → Type 0) (xs : List A)
    → ((x : A) → P x → Q x → R x)
    → All P xs
    → All Q xs
    → All R xs
All-both P Q R [] f a b = a
All-both P Q R (x ∷ xs) f a b = (f x a.0 b.0, All-both P Q R xs f a.1 b.1)

module _ (p : Platform) (specs : List Operation) (apart : IsApart p specs) where
  spec-settled :
      (entry : Option Node) (op : Operation)
      → is_settled p entry op ≡ true
      → is_settled p entry (spec op) ≡ true
  unfolding operation_is_applied operation_is_baseline
  spec-settled entry op h = ground arith

  pub spec-baseline :
      (entry : Option Node) (op : Operation)
      → operation_is_baseline p entry op ≡ true
      → operation_is_baseline p entry (spec op) ≡ true
  unfolding operation_is_baseline
  spec-baseline entry op h = h

  -- A settled entry at the path of one of the operations.
  pub target-AllIntact :
      (op : Operation) (entry : Option Node) (original isolated backup : Tree)
      → Memᴰ (spec op) specs
      → is_settled p entry op ≡ true
      → ((s : Operation) → Memᴰ s specs → IsIntact p original isolated backup s)
      → (s : Operation) → Memᴰ s specs
      → IsIntact p (set_node original op.path entry) isolated backup s
  unfolding set_node
  target-AllIntact op entry original isolated backup m settled all s ms = record {
    backed = (all s ms).backed;
    sourced = (all s ms).sourced;
    clear =
        All-both (λ d. str_eq d op.path ≡ false) (λ d. is_file (original d) ≡ false)
          (λ d. is_file (if str_eq op.path d then entry else original d) ≡ false) (p.parents s.path)
          (λ d e f. rw (str_eq-flip d op.path e) f) (apart.beside s (spec op) ms m)
          (all s ms).clear;
    settled = elim (Bool-cases (str_eq op.path s.path)) [
      | inl e ↦ rw e (
          subst (λ (t : Operation). is_settled p entry t ≡ true) (apart.own (spec op) s m ms e)
            (spec-settled entry op settled))
      | inr e ↦ rw e (all s ms).settled
    ];
  }

  -- A new directory above the path of one of the operations.
  pub parent-AllIntact :
      (d : String) (original isolated backup : Tree)
      → ((s : Operation) → Memᴰ s specs → str_eq d s.path ≡ false)
      → ((s : Operation) → Memᴰ s specs → IsIntact p original isolated backup s)
      → (s : Operation) → Memᴰ s specs
      → IsIntact p (set_node original d (some dir)) isolated backup s
  unfolding set_node
  parent-AllIntact d original isolated backup above all s ms = record {
    backed = (all s ms).backed;
    sourced = (all s ms).sourced;
    clear =
        All-map-le (λ e. is_file (original e) ≡ false)
          (λ e. is_file (if str_eq d e then some dir else original e) ≡ false) (p.parents s.path)
          (λ e f. ground arith) (all s ms).clear;
    settled = rw (above s ms) (all s ms).settled;
  }
