-- ===== src/Delivery/Examples.antt =====
-- A delivery of two files that crashes half way, and its rollback.
use ai_agent_workflow.Prelude.{
  ◌≡◌, refl, sym, true, false, none, some, List, [], ◌∷◌, str_eq, if◌then◌else◌, subst, All,
}
use mathlib.Core.List.{Memᴰ}
use ai_agent_workflow.Delivery.Files.{
  file, Tree, Platform, World, file_sha256, same_sha, effect, ◌>>=◌, pure, gets, put_original,
  make_dirs, atomic_copy, set_node,
}
use ai_agent_workflow.Delivery.Journal.{
  Action, OperationStatus, Operation, JournalStatus, Journal, operation_is_applied,
  operation_is_baseline, persist_delivery_journal, safe_path, mark_status,
}
use ai_agent_workflow.Delivery.Apply.{
  write_target, change_target, apply_operation, apply_operations, run_apply, apply_delivery_journal,
}
use ai_agent_workflow.Delivery.Rollback.{rollback_delivery_journal}
use ai_agent_workflow.Delivery.Ends.{Ends}
use ai_agent_workflow.Delivery.Invariant.{IsIntact, IsApart}
use ai_agent_workflow.Delivery.Forward.{IsForward, IsRecoverable}
use ai_agent_workflow.Delivery.Restores.{IsRolledBack, crash_then_rollback}
use ai_agent_workflow.Delivery.Resumes.{IsDelivered, crash_then_resume}
use ai_agent_workflow.Delivery.Journal.{is_terminal}

-- A digest that is the contents, every path safe, and one path below a directory.
abbrev pub platform : Platform
platform = record {
  sha256 = λ c. c;
  safe_relative = λ path. some path;
  parents = λ path. if str_eq path "docs/b.md" then "docs" ∷ [] else [];
}

abbrev pub change_a : Operation
change_a = record {
  path = "a.py";
  action = Action.write;
  status = OperationStatus.prepared;
  existed = true;
  target_before_sha256 = some "old";
  source_sha256 = some "new";
}

abbrev add_b : Operation
add_b = record {
  path = "docs/b.md";
  action = Action.write;
  status = OperationStatus.prepared;
  existed = false;
  target_before_sha256 = none;
  source_sha256 = some "text";
}

abbrev pub both : List Operation
both = change_a ∷ add_b ∷ []

abbrev pub prepared_journal : Journal
prepared_journal = record {
  transaction_id = "delivery-1";
  run_id = "run-1";
  status = JournalStatus.prepared;
  fencing_token = some 1;
  changed_files = "a.py" ∷ "docs/b.md" ∷ [];
  operations = both;
  rollback = none;
}

abbrev pub project : Tree
project path = if str_eq path "a.py" then some (file "old") else none

abbrev pub workspace : Tree
workspace path =
    if str_eq path "a.py"
    then some (file "new")
    else if str_eq path "docs/b.md"
    then some (file "text")
    else none

-- The process crashes at its fifth change of the disk.
abbrev pub start : World Journal
start = record {
  original = project;
  isolated = workspace;
  backup = project;
  disk = some prepared_journal;
  steps_left = some 4;
}

prepared-IsForward : IsForward both prepared_journal
prepared-IsForward = record { same = refl; forward = (refl, (refl, tt)) }

change_a-IsIntact : IsIntact platform project workspace project change_a
unfolding file_sha256 same_sha operation_is_applied operation_is_baseline
change_a-IsIntact = record { backed = λ e. refl; sourced = λ e. refl; clear = tt; settled = refl }

add_b-IsIntact : IsIntact platform project workspace project add_b
unfolding file_sha256 same_sha operation_is_applied operation_is_baseline
add_b-IsIntact = record {
  backed = λ e. cc;
  sourced = λ e. refl;
  clear = (refl, tt);
  settled = refl;
}

both_cases : (P : Operation → Type 0) → P change_a → P add_b → (s : Operation) → Memᴰ s both → P s
both_cases P a b s (Memᴰ.head e) = subst P (sym e) a
both_cases P a b s (Memᴰ.tail (Memᴰ.head e)) = subst P (sym e) b
both_cases P a b s (Memᴰ.tail (Memᴰ.tail m)) = elim m [ ]

pub start-IsRecoverable : IsRecoverable platform both start
start-IsRecoverable = record {
  intact =
      both_cases (IsIntact platform project workspace project) change_a-IsIntact add_b-IsIntact;
  saved = λ j e. subst (IsForward both) (cc) prepared-IsForward;
}

both_pairs :
    (P : Operation → Operation → Type 0)
    → P change_a change_a
    → P change_a add_b
    → P add_b change_a
    → P add_b add_b
    → (s t : Operation) → Memᴰ s both
    → Memᴰ t both
    → P s t
both_pairs P aa ab ba bb s t ms mt =
    both_cases (λ s. P s t) (both_cases (P change_a) aa ab t mt) (both_cases (P add_b) ba bb t mt) s
      ms

pub both-IsApart : IsApart platform both
both-IsApart = record {
  safe = λ s m. refl;
  own =
      both_pairs (λ s t. str_eq s.path t.path ≡ true → s ≡ t) (λ e. refl) (λ e. cc) (λ e. cc)
        (λ e. refl);
  beside =
      both_pairs (λ s t. All (λ d. str_eq d t.path ≡ false) (platform.parents s.path)) tt tt
        (refl, tt) (refl, tt);
}

abbrev half_done : Journal
half_done = record prepared_journal {
  status = JournalStatus.applying;
  operations = record change_a { status = OperationStatus.applied } ∷ add_b ∷ [];
}

crashes : (apply_delivery_journal platform prepared_journal start).1.disk ≡ some half_done
unfolding apply_delivery_journal run_apply apply_operations apply_operation change_target
    write_target ◌>>=◌ persist_delivery_journal effect safe_path pure gets operation_is_applied
    same_sha file_sha256 operation_is_baseline make_dirs atomic_copy put_original set_node
    mark_status
crashes = refl

crash_then_rollback_example :
    Ends
      (IsRolledBack platform both)
      (rollback_delivery_journal platform half_done)
      (record (apply_delivery_journal platform prepared_journal start).1 { steps_left = none })
crash_then_rollback_example =
    crash_then_rollback platform both both-IsApart prepared_journal start half_done
      start-IsRecoverable prepared-IsForward crashes

unfinished : is_terminal half_done.status ≡ false
unfinished = refl

crash_then_resume_example :
    Ends
      (IsDelivered platform both)
      (apply_delivery_journal platform half_done)
      (record (apply_delivery_journal platform prepared_journal start).1 { steps_left = none })
crash_then_resume_example =
    crash_then_resume platform both both-IsApart prepared_journal start half_done
      start-IsRecoverable prepared-IsForward crashes unfinished
