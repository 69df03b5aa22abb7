-- ===== src/Retry/Progress.antt =====
-- Snapshots of the progress of a run and their comparison (app/workflow_runtime/progress_evaluator.py):
-- `compare_progress`. The values of a snapshot are those of `capture_progress`, which counts: none is
-- negative.
use ai_agent_workflow.Prelude.{
  ℕ, zero, suc, ◌/◌, ◌%◌, String, str_append, Bool, true, false, not, ◌&&◌, ◌||◌, Option, none,
  some, List, [], ◌∷◌, ◌++◌, str_eq, if◌then◌else◌, ltb,
}
use ai_agent_workflow.Retry.Records.{Comparison}

pub data Measure : Type 0 where
  required_failures tasks_failed scope_violations : Measure
  tasks_passed acceptance_passed validation_passed changed_file_count : Measure

pub record Snapshot : Type 0 where
  pub measured : Measure → ℕ
  pub checkpoint : String
  pub file_digest : String

abbrev pub key_of : Measure → String
key_of Measure.required_failures = "required_failures"
key_of Measure.tasks_failed = "tasks_failed"
key_of Measure.scope_violations = "scope_violations"
key_of Measure.tasks_passed = "tasks_passed"
key_of Measure.acceptance_passed = "acceptance_passed"
key_of Measure.validation_passed = "validation_passed"
key_of Measure.changed_file_count = "changed_file_count"

abbrev pub lower_is_better : List Measure
lower_is_better = Measure.required_failures ∷ Measure.tasks_failed ∷ Measure.scope_violations ∷ []

abbrev pub higher_is_better : List Measure
higher_is_better =
    Measure.tasks_passed ∷ Measure.acceptance_passed ∷ Measure.validation_passed
    ∷ Measure.changed_file_count ∷ []

-- `key not in {"changed_file_count"}`
abbrev pub may_not_fall : Measure → Bool
may_not_fall Measure.changed_file_count = false
may_not_fall key = true

abbrev pub text_at : ℕ → List String → String
text_at n [] = ""
text_at zero (text ∷ texts) = text
text_at (suc n) (text ∷ texts) = text_at n texts

abbrev pub digit : ℕ → String
digit n = text_at n ("0" ∷ "1" ∷ "2" ∷ "3" ∷ "4" ∷ "5" ∷ "6" ∷ "7" ∷ "8" ∷ "9" ∷ [])

-- At most `fuel` digits: a number n has at most n + 1.
abbrev pub digits : ℕ → ℕ → String
digits zero n = ""
digits (suc fuel) n =
    let rest = digits fuel (n / 10) in
    if ltb n 10 then digit n else str_append rest (digit (n % 10))

-- `str` of an int that is not negative.
abbrev pub decimal : ℕ → String
decimal n = digits (suc n) n

-- `f"{key}:{before}->{after}"`
unfoldable pub note : Measure → ℕ → ℕ → String
note key before after =
    str_append (key_of key)
      (str_append ":" (str_append (decimal before) (str_append "->" (decimal after))))

-- The two lists that `compare_progress` builds.
pub record Notes : Type 0 where
  pub reasons : List String
  pub regressions : List String

abbrev pub reason : Notes → String → Notes
reason notes text = record { reasons = notes.reasons ++ text ∷ []; regressions = notes.regressions }

abbrev pub regression : Notes → String → Notes
regression notes text = record {
  reasons = notes.reasons;
  regressions = notes.regressions ++ text ∷ [];
}

-- The body of the loop over `lower_is_better`, and of that over `higher_is_better`.
unfoldable pub note_lower : Measure → ℕ → ℕ → Notes → Notes
note_lower key before after notes =
    if ltb after before
    then reason notes (note key before after)
    else if ltb before after
    then regression notes (note key before after)
    else notes

unfoldable pub note_higher : Measure → ℕ → ℕ → Notes → Notes
note_higher key before after notes =
    if ltb before after
    then reason notes (note key before after)
    else if ltb after before && may_not_fall key
    then regression notes (note key before after)
    else notes

unfoldable pub note_each :
    (Measure → ℕ → ℕ → Notes → Notes) → Snapshot → Snapshot → List Measure → Notes → Notes
note_each step previous current [] notes = notes
note_each step previous current (key ∷ keys) notes =
    note_each step previous current keys
      (step key (previous.measured key) (current.measured key) notes)

abbrev pub is_empty : List String → Bool
is_empty [] = true
is_empty (text ∷ texts) = false

unfoldable pub note_checkpoint : Snapshot → Snapshot → Notes → Notes
note_checkpoint previous current notes =
    if not (str_eq previous.checkpoint current.checkpoint) && not (str_eq current.checkpoint "")
    then reason notes "checkpoint advanced"
    else notes

unfoldable pub note_files : Snapshot → Snapshot → Notes → Notes
note_files previous current notes =
    if not (str_eq previous.file_digest current.file_digest) && is_empty notes.regressions
    then reason notes "candidate files changed"
    else notes

abbrev pub state_of : Bool → Bool → Bool → String
state_of improved regressed changed =
    if improved
    then "improved"
    else if regressed
    then "regressed"
    else if changed
    then "changed"
    else "unchanged"

unfoldable pub comparison_from : Notes → Comparison
comparison_from notes =
    let improved = not (is_empty notes.reasons) && is_empty notes.regressions in
    let regressed = not (is_empty notes.regressions) && is_empty notes.reasons in
    let changed = not (is_empty notes.reasons) || not (is_empty notes.regressions) in
    record {
      state = state_of improved regressed changed;
      improved = improved;
      reasons = notes.reasons;
      regressions = notes.regressions;
    }

unfoldable pub all_notes : Snapshot → Snapshot → Notes
all_notes previous current =
    let lower =
      note_each note_lower previous current lower_is_better
        (record { reasons = []; regressions = [] }) in
    let counted = note_each note_higher previous current higher_is_better lower in
    note_files previous current (note_checkpoint previous current counted)

unfoldable pub compare_progress : Option Snapshot → Snapshot → Comparison
compare_progress none current = record {
  state = "initial";
  improved = false;
  reasons = [];
  regressions = [];
}
compare_progress (some previous) current = comparison_from (all_notes previous current)
