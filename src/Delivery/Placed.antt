-- ===== src/Delivery/Placed.antt =====
-- The operations that a preparation makes, for paths that are well placed.
use ai_agent_workflow.Prelude.{
  String, ◌≡◌, inl, inr, refl, ap, true, false, Option, none, some, List, [], ◌∷◌, map, arith,
  str_eq, eq_refl, Bool-cases, All,
}
use mathlib.Core.List.{Memᴰ}
use ai_agent_workflow.Delivery.Files.{Node, file, dir, Tree, Platform, same_sha, is_file, is_dir}
use ai_agent_workflow.Delivery.Journal.{Operation, operation_is_baseline}
use ai_agent_workflow.Delivery.Rollback.{is_rolled_back}
use ai_agent_workflow.Delivery.Prepare.{new_operation}
use ai_agent_workflow.Delivery.Invariant.{spec, IsIntact}

same_sha_refl : (sha : Option String) → same_sha sha sha ≡ true
unfolding same_sha
same_sha_refl none = refl
same_sha_refl (some s) = eq_refl s

module _ (p : Platform) (original isolated : Tree) where
  -- The operation for a path.
  abbrev pub prepared : String → Operation
  prepared path = new_operation p path (original path) (isolated path)

  pub prepared_forward :
      (paths : List String)
      → (map spec (map prepared paths) ≡ map prepared paths)
        × All (λ op. is_rolled_back op.status ≡ false) (map prepared paths)
  unfolding new_operation
  prepared_forward [] = (refl, tt)
  prepared_forward (path ∷ rest) =
      (ap (λ l. prepared path ∷ l) (prepared_forward rest).0, (refl, (prepared_forward rest).1))

  new-baseline :
      (path : String) (entry source : Option Node)
      → is_dir entry ≡ false
      → operation_is_baseline p entry (new_operation p path entry source) ≡ true
  unfolding new_operation operation_is_baseline
  new-baseline path none source h = refl
  new-baseline path (some (file c)) source h = same_sha_refl _
  new-baseline path (some dir) source h = cc

  pub prepared-IsIntact :
      (backup : Tree) (path : String)
      → (is_file (original path) ≡ true → backup path ≡ original path)
      → is_dir (original path) ≡ false
      → All (λ d. is_file (original d) ≡ false) (p.parents path)
      → IsIntact p original isolated backup (prepared path)
  unfolding new_operation operation_is_baseline
  prepared-IsIntact backup path saved not_dir clear = record {
    backed = λ e. rw (saved e) (rw e (same_sha_refl _));
    sourced = λ e. elim (Bool-cases (is_file (isolated path))) [
      | inl f ↦ rw f (same_sha_refl _)
      | inr f ↦ cc (rw f at e)
    ];
    clear = clear;
    settled = rw (new-baseline path (original path) (isolated path) not_dir) (ground arith);
  }

-- Where the paths of a delivery stand: each is in normal form, no directory stands at one, no file
-- in the place of a directory above one, and none is a directory above another.
pub record IsPlaced (p : Platform) (original : Tree) (paths : List String) : Type 0 where
  pub normal : (s : String) → Memᴰ s paths → p.safe_relative s ≡ some s
  pub no_dir : (s : String) → Memᴰ s paths → is_dir (original s) ≡ false
  pub clear : (s : String) → Memᴰ s paths → All (λ d. is_file (original d) ≡ false) (p.parents s)
  pub beside :
      (s t : String) → Memᴰ s paths → Memᴰ t paths → All (λ d. str_eq d t ≡ false) (p.parents s)
