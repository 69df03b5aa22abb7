-- ===== src/Delivery/FirstDelivery.antt =====
-- The preparation of the delivery of the two files.
use ai_agent_workflow.Prelude.{◌≡◌, refl, sym, false, none, some, List, [], ◌∷◌, str_eq, subst, All}
use mathlib.Core.List.{Memᴰ}
use ai_agent_workflow.Delivery.Files.{World, file_sha256, same_sha}
use ai_agent_workflow.Delivery.Journal.{Journal}
use ai_agent_workflow.Delivery.Ends.{Ends}
use ai_agent_workflow.Delivery.Prepare.{
  selected_paths, add_path, conflicts_of, prepare_delivery_journal,
}
use ai_agent_workflow.Delivery.Placed.{IsPlaced}
use ai_agent_workflow.Delivery.Prepared.{IsPrepared, prepare_delivery_journal-IsPrepared}
use ai_agent_workflow.Delivery.Untouched.{prepare_delivery_journal_untouched}
use ai_agent_workflow.Prelude.{ok, String, Option}
use ai_agent_workflow.Prelude.Dict.{Dict, get}
use ai_agent_workflow.Delivery.Files.{is_dir, is_file}
use ai_agent_workflow.Delivery.Examples.{platform, project, workspace, start}

-- The paths as a caller may list them, and the hash of the one file that is there.
abbrev pub changed : List String
changed = "docs/b.md" ∷ "a.py" ∷ "docs/b.md" ∷ []

abbrev pub paths : List String
paths = "a.py" ∷ "docs/b.md" ∷ []

abbrev baseline : Option (Dict (Option String))
baseline = some (("a.py", some "old") ∷ [])

abbrev pub before : World Journal
before = record {
  original = project;
  isolated = workspace;
  backup = λ path. none;
  disk = none;
  steps_left = none;
}

pub sorted : selected_paths platform changed ≡ ok paths
unfolding selected_paths add_path
sorted = refl

path_cases : (P : String → Type 0) → P "a.py" → P "docs/b.md" → (s : String) → Memᴰ s paths → P s
path_cases P a b s (Memᴰ.head e) = subst P (sym e) a
path_cases P a b s (Memᴰ.tail (Memᴰ.head e)) = subst P (sym e) b
path_cases P a b s (Memᴰ.tail (Memᴰ.tail m)) = elim m [ ]

pub paths-IsPlaced : IsPlaced platform project paths
paths-IsPlaced = record {
  normal = λ s m. refl;
  no_dir = path_cases (λ s. is_dir (project s) ≡ false) refl refl;
  clear =
      path_cases (λ s. All (λ d. is_file (project d) ≡ false) (platform.parents s)) tt (refl, tt);
  beside = λ s t ms mt.
      path_cases (λ s. All (λ d. str_eq d t ≡ false) (platform.parents s)) tt
        (path_cases (λ t. str_eq "docs" t ≡ false) refl refl t mt, tt) s ms;
}

no_conflict : conflicts_of platform baseline project paths ≡ []
unfolding conflicts_of file_sha256 same_sha get
no_conflict = refl

prepare_delivery_journal-IsPrepared_example :
    Ends
      (IsPrepared platform paths before)
      (prepare_delivery_journal platform changed baseline "delivery-1" "run-1" (some 1))
      before
prepare_delivery_journal-IsPrepared_example =
    prepare_delivery_journal-IsPrepared platform baseline "delivery-1" "run-1" (some 1) changed
      paths before sorted paths-IsPlaced no_conflict refl

prepare_delivery_journal_untouched_example :
    (prepare_delivery_journal platform changed baseline "delivery-1" "run-1"
      (some 1)
      start).1.original
    ≡ project
prepare_delivery_journal_untouched_example =
    prepare_delivery_journal_untouched platform changed baseline "delivery-1" "run-1" (some 1) start
