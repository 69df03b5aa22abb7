-- ===== src/Retry/Improves.antt =====
-- When `compare_progress` says that a run has improved (app/workflow_runtime/progress_evaluator.py).
use ai_agent_workflow.Prelude.{
  ℕ, String, ◌≡◌, refl, ◌∙◌, ap, Bool, true, false, not, ◌&&◌, ◌||◌, some, List, [], ◌∷◌, ◌++◌,
  str_eq, ltb, leb, all, arith,
}
use ai_agent_workflow.Retry.Progress.{
  Measure, Snapshot, Notes, note, note_lower, note_higher, note_each, is_empty, may_not_fall,
  lower_is_better, higher_is_better, note_checkpoint, note_files, comparison_from, all_notes,
  compare_progress,
}

pub is_empty-append : (xs : List String) (x : String) → is_empty (xs ++ x ∷ []) ≡ false
is_empty-append [] x = refl
is_empty-append (y ∷ ys) x = refl

-- Whether a number is no better than before, and whether it is no worse.
abbrev pub no_better_lower : Measure → ℕ → ℕ → Bool
no_better_lower key before after = not (ltb after before)

abbrev pub no_worse_lower : Measure → ℕ → ℕ → Bool
no_worse_lower key before after = not (ltb before after)

abbrev pub no_better_higher : Measure → ℕ → ℕ → Bool
no_better_higher key before after = not (ltb before after)

abbrev pub no_worse_higher : Measure → ℕ → ℕ → Bool
no_worse_higher key before after = not (ltb after before && may_not_fall key)

pub ltb-asym : (a b : ℕ) → ltb a b ≡ true → ltb b a ≡ false
ltb-asym a b h = ground arith

pub note_lower-reasons :
    (key : Measure) (before after : ℕ) (notes : Notes)
    → is_empty (note_lower key before after notes).reasons
      ≡ (is_empty notes.reasons && no_better_lower key before after)
unfolding note_lower
note_lower-reasons key before after notes =
    ground (arith, is_empty-append notes.reasons (note key before after))

pub note_lower-regressions :
    (key : Measure) (before after : ℕ) (notes : Notes)
    → is_empty (note_lower key before after notes).regressions
      ≡ (is_empty notes.regressions && no_worse_lower key before after)
unfolding note_lower
note_lower-regressions key before after notes =
    ground (arith, is_empty-append notes.regressions (note key before after), ltb-asym after before)

pub note_higher-reasons :
    (key : Measure) (before after : ℕ) (notes : Notes)
    → is_empty (note_higher key before after notes).reasons
      ≡ (is_empty notes.reasons && no_better_higher key before after)
unfolding note_higher
note_higher-reasons key before after notes =
    ground (arith, is_empty-append notes.reasons (note key before after))

pub note_higher-regressions :
    (key : Measure) (before after : ℕ) (notes : Notes)
    → is_empty (note_higher key before after notes).regressions
      ≡ (is_empty notes.regressions && no_worse_higher key before after)
unfolding note_higher
note_higher-regressions key before after notes =
    ground (arith, is_empty-append notes.regressions (note key before after), ltb-asym before after)

-- What a loop leaves of the lists.
module _ (step : Measure → ℕ → ℕ → Notes → Notes) (test : Measure → ℕ → ℕ → Bool)
    (part : Notes → List String)
    (keeps : (key : Measure) (before after : ℕ) (notes : Notes)
      → is_empty (part (step key before after notes))
        ≡ (is_empty (part notes) && test key before after))
    (previous current : Snapshot) where
  pub note_each-empty :
      (keys : List Measure) (notes : Notes)
      → is_empty (part (note_each step previous current keys notes)) ≡ (
          is_empty (part notes)
          && all (λ key. test key (previous.measured key) (current.measured key)) keys)
  unfolding note_each
  note_each-empty [] notes = ground arith
  note_each-empty (key ∷ keys) notes = ground (
    arith,
    note_each-empty keys (step key (previous.measured key) (current.measured key) notes),
    keeps key (previous.measured key) (current.measured key) notes,
  )

-- Whether no number got worse, whether one got better, and whether there is a new checkpoint.
abbrev pub no_worse : Snapshot → Snapshot → Bool
no_worse previous current =
    all (λ key. no_worse_lower key (previous.measured key) (current.measured key)) lower_is_better
    && all (λ key. no_worse_higher key (previous.measured key) (current.measured key))
        higher_is_better

abbrev pub no_better : Snapshot → Snapshot → Bool
no_better previous current =
    all (λ key. no_better_lower key (previous.measured key) (current.measured key)) lower_is_better
    && all (λ key. no_better_higher key (previous.measured key) (current.measured key))
        higher_is_better

abbrev pub is_advanced : Snapshot → Snapshot → Bool
is_advanced previous current =
    not (str_eq previous.checkpoint current.checkpoint) && not (str_eq current.checkpoint "")

abbrev pub is_changed : Snapshot → Snapshot → Bool
is_changed previous current = not (str_eq previous.file_digest current.file_digest)

abbrev pub no_notes : Notes
no_notes = record { reasons = []; regressions = [] }

abbrev pub after_lower : Snapshot → Snapshot → Notes
after_lower previous current = note_each note_lower previous current lower_is_better no_notes

abbrev pub after_counts : Snapshot → Snapshot → Notes
after_counts previous current =
    note_each note_higher previous current higher_is_better (after_lower previous current)

module _ (previous current : Snapshot) where
  pub after_counts-regressions :
      is_empty (after_counts previous current).regressions ≡ no_worse previous current
  after_counts-regressions =
      note_each-empty note_higher no_worse_higher (λ notes. notes.regressions)
        note_higher-regressions previous current higher_is_better (after_lower previous current)
      ∙ ap
          (λ b.
            b
            && all (λ key. no_worse_higher key (previous.measured key) (current.measured key))
                higher_is_better)
          (note_each-empty note_lower no_worse_lower (λ notes. notes.regressions)
            note_lower-regressions previous current lower_is_better no_notes)

  pub after_counts-reasons :
      is_empty (after_counts previous current).reasons ≡ no_better previous current
  after_counts-reasons =
      note_each-empty note_higher no_better_higher (λ notes. notes.reasons) note_higher-reasons
        previous current higher_is_better (after_lower previous current)
      ∙ ap
          (λ b.
            b
            && all (λ key. no_better_higher key (previous.measured key) (current.measured key))
                higher_is_better)
          (note_each-empty note_lower no_better_lower (λ notes. notes.reasons) note_lower-reasons
            previous current lower_is_better no_notes)

-- The two tests that follow the loops.
pub tail_improves :
    (previous current : Snapshot) (notes : Notes)
    → (comparison_from
        (note_files previous current (note_checkpoint previous current notes))).improved
      ≡ (is_empty notes.regressions
          && (not (is_empty notes.reasons)
              || (is_advanced previous current || is_changed previous current)))
unfolding comparison_from note_files note_checkpoint
tail_improves previous current notes = ground (
  arith,
  is_empty-append notes.reasons "checkpoint advanced",
  is_empty-append notes.reasons "candidate files changed",
  is_empty-append (notes.reasons ++ "checkpoint advanced" ∷ []) "candidate files changed",
)

-- No failure and no violation is added, and nothing that passed is lost.
abbrev pub is_no_setback : Snapshot → Snapshot → Bool
is_no_setback previous current =
    let before = previous.measured in
    let after = current.measured in
    leb (after Measure.required_failures) (before Measure.required_failures)
    && (leb (after Measure.tasks_failed) (before Measure.tasks_failed)
        && (leb (after Measure.scope_violations) (before Measure.scope_violations)
            && (leb (before Measure.tasks_passed) (after Measure.tasks_passed)
                && (leb (before Measure.acceptance_passed) (after Measure.acceptance_passed)
                    && leb (before Measure.validation_passed) (after Measure.validation_passed)))))

-- A failure or violation is gone, more has passed, or more files are changed.
abbrev pub is_gain : Snapshot → Snapshot → Bool
is_gain previous current =
    let before = previous.measured in
    let after = current.measured in
    ltb (after Measure.required_failures) (before Measure.required_failures)
    || (ltb (after Measure.tasks_failed) (before Measure.tasks_failed)
        || (ltb (after Measure.scope_violations) (before Measure.scope_violations)
            || (ltb (before Measure.tasks_passed) (after Measure.tasks_passed)
                || (ltb (before Measure.acceptance_passed) (after Measure.acceptance_passed)
                    || (ltb (before Measure.validation_passed) (after Measure.validation_passed)
                        || ltb (before Measure.changed_file_count)
                            (after Measure.changed_file_count))))))

no_worse_lem :
    (previous current : Snapshot) → no_worse previous current ≡ is_no_setback previous current
no_worse_lem previous current = ground arith

no_better_lem :
    (previous current : Snapshot) → not (no_better previous current) ≡ is_gain previous current
no_better_lem previous current = ground arith

-- The same on the tables of the comparison.
pub improved_by_tables :
    (previous current : Snapshot)
    → (compare_progress (some previous) current).improved ≡ (
        no_worse previous current
        && (not (no_better previous current)
            || (is_advanced previous current || is_changed previous current)))
unfolding compare_progress all_notes
improved_by_tables previous current =
    tail_improves previous current (after_counts previous current)
    ∙ ap
        (λ b.
          b
          && (not (is_empty (after_counts previous current).reasons)
              || (is_advanced previous current || is_changed previous current)))
        (after_counts-regressions previous current)
    ∙ ap
        (λ b.
          no_worse previous current
          && (not b || (is_advanced previous current || is_changed previous current)))
        (after_counts-reasons previous current)

-- A run has improved over a snapshot if and only if none of the required failures, failed tasks and
-- scope violations rose and none of the passed tasks, acceptances and validations fell, and one of the
-- first three fell, one of the others or the number of changed files rose, there is a new checkpoint,
-- or the files differ. The number of changed files may fall.
pub improved_when :
    (previous current : Snapshot)
    → (compare_progress (some previous) current).improved ≡ (
        is_no_setback previous current
        && (is_gain previous current
            || (is_advanced previous current || is_changed previous current)))
improved_when previous current =
    improved_by_tables previous current
    ∙ rw (no_worse_lem previous current, no_better_lem previous current) refl
