-- ===== src/Retry/Repairs.antt =====
-- Snapshots of a repair, and their comparison.
use ai_agent_workflow.Prelude.{
  ℕ, ◌≡◌, ◌≢◌, refl, true, some, [], ◌∷◌, String, arith, eq_iff, false≢true,
}
use ai_agent_workflow.Retry.Progress.{
  Measure, Snapshot, compare_progress, all_notes, note_each, note_lower, note_higher, note,
  note_checkpoint, note_files, comparison_from,
}
use ai_agent_workflow.Retry.Improves.{improved_when}
use ai_agent_workflow.Retry.Steady.{IsNoWorse, files_improve_both_ways}

abbrev counts : ℕ → ℕ → Measure → ℕ
counts failures passed Measure.required_failures = failures
counts failures passed Measure.tasks_passed = passed
counts failures passed key = 0

abbrev taken : ℕ → ℕ → String → Snapshot
taken failures passed files = record {
  measured = counts failures passed;
  checkpoint = "";
  file_digest = files;
}

fewer_failures :
    (compare_progress (some (taken 12 0 "a")) (taken 9 0 "a")).reasons
    ≡ "required_failures:12->9" ∷ []
unfolding compare_progress all_notes note_each note_lower note_higher note note_checkpoint
    note_files comparison_from
fewer_failures = refl

mixed : (compare_progress (some (taken 1 0 "a")) (taken 2 1 "b")).state ≡ "changed"
unfolding compare_progress all_notes note_each note_lower note_higher note note_checkpoint
    note_files comparison_from
mixed = refl

improved_when_example : (compare_progress (some (taken 2 0 "a")) (taken 1 0 "a")).improved ≡ true
improved_when_example = improved_when (taken 2 0 "a") (taken 1 0 "a")

first_repair : (compare_progress (some (taken 2 0 "a")) (taken 1 0 "b")).improved ≡ true
unfolding compare_progress all_notes note_each note_lower note_higher note note_checkpoint
    note_files comparison_from
first_repair = refl

second_repair : (compare_progress (some (taken 1 0 "b")) (taken 0 1 "c")).improved ≡ true
unfolding compare_progress all_notes note_each note_lower note_higher note note_checkpoint
    note_files comparison_from
second_repair = refl

a-IsNoWorse : IsNoWorse (taken 1 0 "a") (taken 1 0 "b")
a-IsNoWorse = ground arith

b-IsNoWorse : IsNoWorse (taken 1 0 "b") (taken 1 0 "a")
b-IsNoWorse = ground arith

other_files : (taken 1 0 "a").file_digest ≢ (taken 1 0 "b").file_digest
other_files e = false≢true ((eq_iff "a" "b").1 e)

files_improve_both_ways_example :
    ((compare_progress (some (taken 1 0 "a")) (taken 1 0 "b")).improved ≡ true)
    × ((compare_progress (some (taken 1 0 "b")) (taken 1 0 "a")).improved ≡ true)
files_improve_both_ways_example =
    files_improve_both_ways (taken 1 0 "a") (taken 1 0 "b") a-IsNoWorse b-IsNoWorse other_files
