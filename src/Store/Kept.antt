-- ===== src/Store/Kept.antt =====
-- Every operation of the two stores keeps the runs of the file legal, also over any sequence of
-- operations in which some are refused.
use ai_agent_workflow.Prelude.{
  ℕ, String, ◌≡◌, refl, Bool, true, Option, none, some, List, arith, or_else, Result, ok, ◌>>=◌,
  >>=-eq-ok, ok_inj, subst, All,
}
use ai_agent_workflow.Engine.Tables.{run_transitions, allows, table_for, validate_transition}
use ai_agent_workflow.Engine.Edges.{validate_transition-allows}
use ai_agent_workflow.Engine.History.{append_transition}
use ai_agent_workflow.Store.Records.{Step, Run}
use ai_agent_workflow.Store.Runs.{
  Runs, mutate_run, Extra, update_extra, apply_transition, moved_run, extra_reason,
}
use ai_agent_workflow.Store.Steps.{with_step}
use ai_agent_workflow.Store.Loops.{with_step-All, mutate_run-All, saved}
use ai_agent_workflow.Store.Legal.{
  IsLegalStep, IsLegalRun, run_target_known, append_transition-IsHistory,
}

-- A run that gets other steps, all legal, and keeps its status and history.
pub with_steps-IsLegalRun :
    (r r' : Run)
    → IsLegalRun r
    → r'.status ≡ r.status
    → r'.transitions ≡ r.transitions
    → All IsLegalStep r'.steps
    → IsLegalRun r'
with_steps-IsLegalRun r r' legal e0 e1 steps = record {
  known = rw e0 legal.known;
  history = rw e1 legal.history;
  steps = steps;
}

saved-IsLegalRun : (r : Run) → IsLegalRun r → IsLegalRun (saved r)
saved-IsLegalRun r legal = with_steps-IsLegalRun r (saved r) legal refl refl legal.steps

abbrev pub IsLegalFile : Runs → Type 0
IsLegalFile = All IsLegalRun

-- An extra update that writes no status, no history and no steps.
abbrev pub IsBesideState : Option Extra → Type 0
IsBesideState none = Unit
IsBesideState (some extra) =
    (r : Run)
    → ((extra.update r).status ≡ r.status)
      × ((extra.update r).transitions ≡ r.transitions)
      × ((extra.update r).steps ≡ r.steps)

update_extra-IsLegalRun :
    (extra : Option Extra)
    → IsBesideState extra
    → (r : Run) → IsLegalRun r
    → IsLegalRun (update_extra extra r)
unfolding update_extra
update_extra-IsLegalRun none k r legal = legal
update_extra-IsLegalRun (some extra) k r legal =
    let (status, transitions, steps) = k r in
    with_steps-IsLegalRun r (extra.update r) legal status transitions (rw steps legal.steps)

module _ (status : String) (error error_code : Option String) (ended : Bool) (extra : Option Extra)
    (now : ℕ) (run : Run) where
  abbrev moved : Run
  moved = moved_run status error error_code ended extra now run

  moved_fields :
      (moved.status ≡ some status)
      × (moved.transitions
          ≡ some (
              append_transition run.transitions "run"
                (some (or_else run.status ""))
                status
                (extra_reason extra)
                now))
      × (moved.steps ≡ run.steps)
  unfolding moved_run
  moved_fields = (ground arith, ground arith, ground arith)

  pub apply_transition-IsLegalRun :
      (r' : Run)
      → IsBesideState extra
      → IsLegalRun run
      → apply_transition status error error_code ended extra now run ≡ ok r'
      → IsLegalRun (saved r')
  apply_transition-IsLegalRun r' k legal e =
      let (d, valid, e2) =
        >>=-eq-ok (validate_transition "run" (some (or_else run.status "")) status true)
          (λ d. ok (update_extra extra moved)) {b = r'} (unfold apply_transition in e) in
      let edge : allows run_transitions (or_else run.status "") status ≡ true =
        unfold table_for in
        validate_transition-allows "run" (some (or_else run.status "")) status d valid in
      let (f0, f1, f2) = moved_fields in
      let moved_legal : IsLegalRun moved = record {
        known = rw f0 (run_target_known (or_else run.status "") status edge);
        history = rw f1 (
            append_transition-IsHistory run_transitions run.transitions "run" _ status _ now
              legal.history edge);
        steps = rw f2 legal.steps;
      } in
      saved-IsLegalRun r'
        (subst IsLegalRun (ok_inj e2) (update_extra-IsLegalRun extra k moved moved_legal))

module _ {E : Type 0} (runs : Runs) (run_id : String) (runs' : Runs) (found : Option Run)
    (legal : IsLegalFile runs) where
  -- One change of the steps of one run.
  pub change-IsLegalFile :
      (fn : Run → Result E Run)
      → ((r r' : Run) → IsLegalRun r → fn r ≡ ok r' → IsLegalRun r')
      → mutate_run runs run_id fn ≡ ok (runs', found)
      → IsLegalFile runs'
  change-IsLegalFile fn keep e =
      mutate_run-All IsLegalRun fn (λ r r' l h. saved-IsLegalRun r' (keep r r' l h)) runs run_id
        runs' found legal e

  pub change_step-IsLegalFile :
      (fn : Step → Result E Step) (key : String) (finish : Run → List Step → Run)
      → ((s s' : Step) → IsLegalStep s → fn s ≡ ok s' → IsLegalStep s')
      → ((r : Run) (steps : List Step)
          → IsLegalRun r
          → All IsLegalStep steps
          → IsLegalRun (finish r steps))
      → mutate_run runs run_id (λ r. with_step key fn r.steps >>= λ steps. ok (finish r steps))
        ≡ ok (runs', found)
      → IsLegalFile runs'
  change_step-IsLegalFile fn key finish keep finish_keep e =
      change-IsLegalFile (λ r. with_step key fn r.steps >>= λ steps. ok (finish r steps))
        (λ r r' l h.
          let (steps, h1, h2) =
            >>=-eq-ok (with_step key fn r.steps) (λ steps. ok (finish r steps)) {b = r'} h in
          subst IsLegalRun (ok_inj h2) (
            finish_keep r steps l (with_step-All IsLegalStep key fn keep r.steps steps l.steps h1)))
        e
