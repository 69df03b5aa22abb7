-- ===== src/Store/Operations.antt =====
-- Sequences of store operations, as the controller issues them: a refused one leaves the file.
use ai_agent_workflow.Prelude.{
  ℕ, String, ◌≡◌, refl, ap, Bool, Option, some, List, [], ◌∷◌, ◌++◌, or_else, Result, ok, err,
  ◌>>=◌, >>=-eq-ok, ok_inj, subst, All,
}
use ai_agent_workflow.Store.Records.{Event, Run}
use ai_agent_workflow.Store.Runs.{Runs, Extra, mutate_run, apply_transition, transition_status}
use ai_agent_workflow.Store.Steps.{
  mark_step, mark, note_event, append_event, reset_step, reset_run, reset_from, reset_counts_run,
  reset_retry_count, reset_retry_counts_from, bump_retry, increment_retry, with_step, retry_value,
  get_step,
}
use ai_agent_workflow.Store.Loops.{from_index-All, mutate_run-All}
use ai_agent_workflow.Store.Legal.{
  IsLegalStep, IsLegalRun, mark_step-IsLegalStep, note_event-IsLegalStep, reset_step-IsLegalStep,
  reset_retry_count-IsLegalStep, bump_retry-IsLegalStep,
}
use ai_agent_workflow.Store.Kept.{
  with_steps-IsLegalRun, IsLegalFile, IsBesideState, apply_transition-IsLegalRun,
  change-IsLegalFile, change_step-IsLegalFile,
}

-- A call of a store, with its arguments and its clock.
pub data Operation : Type 0 where
  transition : String → String → Option String → Option String → Bool → Option Extra → ℕ → Operation
  mark_of : String → String → String → Option String → Option String → ℕ → Operation
  event : String → String → Event → ℕ → Operation
  reset : String → ℕ → ℕ → Operation
  reset_counts : String → ℕ → ℕ → Operation
  retry : String → String → ℕ → Operation

-- The file after a call: the old one if the call raised.
abbrev pub after : {E B : Type 0} → Runs → (B → Runs) → Result E B → Runs
after runs f (ok b) = f b
after runs f (err e) = runs

pub perform : Runs → Operation → Runs
perform runs (transition run_id status error error_code ended extra now) =
    after runs (λ p. p.0) (transition_status runs run_id status error error_code ended extra now)
perform runs (mark_of run_id key status error error_code now) =
    after runs (λ p. p.0) (mark runs run_id key status error error_code now)
perform runs (event run_id key e now) = after runs (λ p. p.0) (append_event runs run_id key e now)
perform runs (reset run_id start now) = after runs (λ p. p.0) (reset_from runs run_id start now)
perform runs (reset_counts run_id start now) =
    after runs (λ p. p.0) (reset_retry_counts_from runs run_id start now)
perform runs (retry run_id key now) = after runs (λ p. p.0) (increment_retry runs run_id key now)

pub perform_all : Runs → List Operation → Runs
perform_all runs [] = runs
perform_all runs (op ∷ rest) = perform_all (perform runs op) rest

after_keeps :
    {E B : Type 0} (P : Runs → Type 0) (runs : Runs) (f : B → Runs) (r : Result E B)
    → P runs
    → ((b : B) → r ≡ ok b → P (f b))
    → P (after runs f r)
after_keeps P runs f (ok b) h k = k b refl
after_keeps P runs f (err e) h k = h

-- The extra update of a transition writes no status, no history and no steps.
abbrev pub IsBeside : Operation → Type 0
IsBeside (transition run_id status error error_code ended extra now) = IsBesideState extra
IsBeside _ = Unit

reset_run-IsLegalRun : (start now : ℕ) (r : Run) → IsLegalRun r → IsLegalRun (reset_run start now r)
unfolding reset_run
reset_run-IsLegalRun start now r legal = record {
  known = refl;
  history = legal.history;
  steps = from_index-All IsLegalStep reset_step reset_step-IsLegalStep start r.steps legal.steps;
}

reset_counts_run-IsLegalRun :
    (start now : ℕ) (r : Run) → IsLegalRun r → IsLegalRun (reset_counts_run start now r)
unfolding reset_counts_run
reset_counts_run-IsLegalRun start now r legal = with_steps-IsLegalRun r _ legal refl refl (
    from_index-All IsLegalStep (reset_retry_count now)
      (λ s l. reset_retry_count-IsLegalStep s l now) start r.steps legal.steps)

module _ (runs : Runs) (legal : IsLegalFile runs) where
  -- A call that changes one run outright.
  rewrite-IsLegalFile :
      (fn : Run → Run) (run_id : String)
      → ((r : Run) → IsLegalRun r → IsLegalRun (fn r))
      → IsLegalFile (after runs (λ p. p.0) (mutate_run {E = ⊥} runs run_id (λ r. ok (fn r))))
  rewrite-IsLegalFile fn run_id keep =
      after_keeps IsLegalFile runs (λ p. p.0) (mutate_run {E = ⊥} runs run_id (λ r. ok (fn r)))
        legal
        λ p e.
          change-IsLegalFile runs run_id p.0 p.1 legal (λ r. ok (fn r))
            (λ r r' l h. subst IsLegalRun (ok_inj h) (keep r l)) e

  transition_status-IsLegalFile :
      (run_id status : String) (error error_code : Option String) (ended : Bool)
      (extra : Option Extra) (now : ℕ)
      → IsBesideState extra
      → IsLegalFile (perform runs (transition run_id status error error_code ended extra now))
  transition_status-IsLegalFile run_id status error error_code ended extra now k =
      unfold perform transition_status in
      after_keeps IsLegalFile runs (λ p. p.0)
        (mutate_run runs run_id (apply_transition status error error_code ended extra now)) legal
        λ p e.
          mutate_run-All IsLegalRun (apply_transition status error error_code ended extra now)
            (λ r r' l h.
              apply_transition-IsLegalRun status error error_code ended extra now r r' k l h)
            runs run_id p.0 p.1 legal e

  mark-IsLegalFile :
      (run_id key status : String) (error error_code : Option String) (now : ℕ)
      → IsLegalFile (perform runs (mark_of run_id key status error error_code now))
  mark-IsLegalFile run_id key status error error_code now =
      unfold perform mark in
      after_keeps IsLegalFile runs (λ p. p.0) (mark runs run_id key status error error_code now)
        legal
        λ p e.
          change_step-IsLegalFile runs run_id p.0 p.1 legal (mark_step status error error_code now)
            key (λ r steps. record r { steps = steps; updated_at = some now })
            (λ s s' l h. mark_step-IsLegalStep status error error_code now s s' l h)
            (λ r steps l a. with_steps-IsLegalRun r _ l refl refl a) e

  append_event-IsLegalFile :
      (run_id key : String) (e : Event) (now : ℕ)
      → IsLegalFile (perform runs (event run_id key e now))
  append_event-IsLegalFile run_id key ev now =
      unfold perform append_event in
      after_keeps IsLegalFile runs (λ p. p.0) (append_event runs run_id key ev now) legal
        λ p e.
          change_step-IsLegalFile runs run_id p.0 p.1 legal (λ s. ok (note_event ev s)) key
            (λ r steps. record r {
              steps = steps;
              timeline = some (or_else r.timeline [] ++ ev ∷ []);
              updated_at = some now;
            })
            (λ s s' l h. subst IsLegalStep (ok_inj h) (note_event-IsLegalStep s l ev))
            (λ r steps l a. with_steps-IsLegalRun r _ l refl refl a) e

  increment_retry-IsLegalFile :
      (run_id key : String) (now : ℕ) → IsLegalFile (perform runs (retry run_id key now))
  increment_retry-IsLegalFile run_id key now =
      unfold perform in
      after_keeps IsLegalFile runs (λ p. p.0) (increment_retry runs run_id key now) legal
        λ p e.
          let fn : Run → Result ⊥ Run = λ r.
            with_step key (λ s. ok (bump_retry s)) r.steps >>= λ steps.
            ok (record r { steps = steps; updated_at = some now }) in
          let (q, h1, h2) =
            >>=-eq-ok (mutate_run runs run_id fn)
              (λ (q : Runs × Option Run). ok (q.0, q.1, retry_value (get_step runs run_id key)))
              {b = p} (unfold increment_retry in e) in
          subst IsLegalFile (ap (λ (p : Runs × Option Run × ℕ). p.0) (ok_inj h2)) (
            change_step-IsLegalFile runs run_id q.0 q.1 legal (λ s. ok (bump_retry s)) key
              (λ r steps. record r { steps = steps; updated_at = some now })
              (λ s s' l h. subst IsLegalStep (ok_inj h) (bump_retry-IsLegalStep s l))
              (λ r steps l a. with_steps-IsLegalRun r _ l refl refl a) h1)

  perform-IsLegalFile : (op : Operation) → IsBeside op → IsLegalFile (perform runs op)
  perform-IsLegalFile (transition run_id status error error_code ended extra now) k =
      transition_status-IsLegalFile run_id status error error_code ended extra now k
  perform-IsLegalFile (mark_of run_id key status error error_code now) k =
      mark-IsLegalFile run_id key status error error_code now
  perform-IsLegalFile (event run_id key e now) k = append_event-IsLegalFile run_id key e now
  perform-IsLegalFile (reset run_id start now) k =
      unfold perform reset_from in
      rewrite-IsLegalFile (reset_run start now) run_id (reset_run-IsLegalRun start now)
  perform-IsLegalFile (reset_counts run_id start now) k =
      unfold perform reset_retry_counts_from in
      rewrite-IsLegalFile (reset_counts_run start now) run_id
        (reset_counts_run-IsLegalRun start now)
  perform-IsLegalFile (retry run_id key now) k = increment_retry-IsLegalFile run_id key now

-- From a file of legal runs, any sequence of calls of `transition_status`, `mark`, `append_event`,
-- `reset_from`, `reset_retry_counts_from` and `increment_retry`, refused ones included, leaves a file
-- of legal runs, provided that the extra fields of each transition are none of the status, the
-- history and the steps. In a legal run the statuses are known, each entry of a history is a pair of
-- the transition table, a history has at most a hundred entries, a running step shows no end, error
-- or failure, and a step that has ended has the time of its end.
pub perform_all-IsLegalFile :
    (runs : Runs) (ops : List Operation)
    → IsLegalFile runs
    → All IsBeside ops
    → IsLegalFile (perform_all runs ops)
unfolding perform_all
perform_all-IsLegalFile runs [] legal k = legal
perform_all-IsLegalFile runs (op ∷ rest) legal k =
    perform_all-IsLegalFile (perform runs op) rest (perform-IsLegalFile runs legal op k.0) k.1
