-- ===== src/Delivery/Files.antt =====
-- Files, crashes and exceptions: what the delivery does to the disk, one effect at a time.
use ai_agent_workflow.Prelude.{
  ℕ, zero, suc, String, Bool, true, false, Option, none, some, List, [], ◌∷◌, str_eq, if◌then◌else◌,
  is_some,
}

-- A file with its contents, or a directory.
pub data Node : Type 0 where
  file : String → Node
  dir : Node

-- What stands at each path below one root.
abbrev pub Tree : Type 0
Tree = String → Option Node

unfoldable pub set_node : Tree → String → Option Node → Tree
set_node tree path entry q = if str_eq path q then entry else tree q

abbrev pub exists : Option Node → Bool
exists = is_some

abbrev pub is_dir : Option Node → Bool
is_dir (some dir) = true
is_dir _ = false

abbrev pub is_file : Option Node → Bool
is_file (some (file c)) = true
is_file _ = false

-- What the code takes from hashlib and pathlib: the hexadecimal SHA-256 of the contents, the path
-- of `_safe_relative(...).as_posix()` unless it raises, and the directories above a relative path,
-- outermost first, which `mkdir(parents=True)` makes.
pub record Platform : Type 0 where
  pub sha256 : String → String
  pub safe_relative : String → Option String
  pub parents : String → List String

-- Exceptions: `DeliveryJournalError` by its messages, and `OSError`.
pub data Error : Type 0 where
  unsafe_path : String → Error
  apply_conflict : List String → Error
  conflict_during_resume : String → Error
  source_changed : String → Error
  target_is_directory : String → Error
  backup_missing_or_changed : String → Error
  rollback_target_is_directory : String → Error
  os_error : Error

pub data Outcome (A : Type 0) : Type 0 where
  done : A → Outcome A
  raised : Error → Outcome A
  crashed : Outcome A

-- The three trees and the journal file, of journals of the type `J`. The process crashes at the
-- effect that `steps_left` leaves no step for, and never if that is `none`.
pub record World (J : Type 0) : Type 0 where
  pub original : Tree
  pub isolated : Tree
  pub backup : Tree
  pub disk : Option J
  pub steps_left : Option ℕ

abbrev pub Exec : Type 0 → Type 0 → Type 0
Exec J A = World J → Outcome A × World J

module _ {J A : Type 0} where
  unfoldable pub pure : A → Exec J A
  pure a w = (done a, w)

  unfoldable pub raise : Error → Exec J A
  raise e w = (raised e, w)

  unfoldable pub gets : (World J → A) → Exec J A
  gets f w = (done (f w), w)

unfoldable pub spend : {J : Type 0} → Option ℕ → (World J → World J) → Exec J (Unit {0})
spend none f w = (done tt, f w)
spend (some zero) f w = (crashed, w)
spend (some (suc n)) f w = (done tt, f (record w { steps_left = some n }))

-- One change of the disk, all or nothing.
unfoldable pub effect : {J : Type 0} → (World J → World J) → Exec J (Unit {0})
unfolding spend
effect f w = spend w.steps_left f w

module _ {J A B : Type 0} where
  abbrev pub continue : Outcome A → (A → Exec J B) → Exec J B
  continue (done a) f w = f a w
  continue (raised e) f w = (raised e, w)
  continue crashed f w = (crashed, w)

  infixl 5 ◌>>=◌ ◌>>◌
  unfoldable pub ◌>>=◌ : Exec J A → (A → Exec J B) → Exec J B
  ◌>>=◌ m f w = continue (m w).0 f (m w).1

  abbrev pub ◌>>◌ : Exec J A → Exec J B → Exec J B
  m >> n = m >>= λ _. n

unfoldable pub set_original : {J : Type 0} → String → Option Node → World J → World J
set_original path entry w = record w { original = set_node w.original path entry }

-- `path.unlink()` of a file below the original root, and the `os.replace` of `_atomic_copy`.
unfoldable pub put_original : {J : Type 0} → String → Option Node → Exec J (Unit {0})
unfolding set_original
put_original path entry = effect (set_original path entry)

unfoldable pub make_dir_at : {J : Type 0} → Option Node → String → Exec J (Unit {0})
make_dir_at none path = put_original path (some dir)
make_dir_at (some dir) path = pure tt
make_dir_at (some (file c)) path = raise os_error

-- `mkdir(parents=True, exist_ok=True)`: a file on the way is an `OSError`.
unfoldable pub make_dirs : {J : Type 0} → List String → Exec J (Unit {0})
unfolding make_dir_at
make_dirs [] = pure tt
make_dirs (path ∷ rest) = do
  entry ← gets (λ w. w.original path)
  make_dir_at entry path
  make_dirs rest

-- `_atomic_copy(source, target)`: a copy beside the target, then a replacement, which fails on a
-- directory. Only the replacement shows at the path.
unfoldable pub atomic_copy : {J : Type 0} → Option Node → String → Exec J (Unit {0})
atomic_copy (some (file c)) path = do
  target ← gets (λ w. w.original path)
  if is_dir target then raise os_error else put_original path (some (file c))
atomic_copy _ path = raise os_error

-- `file_sha256`
unfoldable pub file_sha256 : Platform → Option Node → Option String
file_sha256 p (some (file c)) = some (p.sha256 c)
file_sha256 p _ = none

unfoldable pub same_sha : Option String → Option String → Bool
same_sha none none = true
same_sha (some a) (some b) = str_eq a b
same_sha _ _ = false
