-- ===== src/Store/Legal.antt =====
-- The invariant of a stored step and run, and that every operation of the stores keeps it.
use ai_agent_workflow.Prelude.{
  ℕ, ◌≤◌, String, ◌≡◌, refl, true, false, Option, none, some, List, [], ◌∷◌, arith, str_eq, eq_iff,
  is_some, or_else, truthy_or, length, ok, >>=-eq-ok, ok_inj, subst, All,
}
use ai_agent_workflow.Prelude.Dict.{Dict}
use ai_agent_workflow.Engine.Tables.{
  member, run_transitions, step_transitions, allows, table_for, validate_transition,
}
use ai_agent_workflow.Engine.Edges.{allows_sound, validate_transition-allows}
use ai_agent_workflow.Engine.History.{
  Transition, append_transition, append_transition-All, length-append_transition,
}
use ai_agent_workflow.Store.Records.{Event, Failure, Step, Run}
use ai_agent_workflow.Store.Steps.{
  ends_step, marked, mark_step, note_event, reset_step, reset_retry_count, bump_retry,
}

abbrev pub step_statuses : List String
step_statuses =
    "" ∷ "pending" ∷ "running" ∷ "passed" ∷ "failed" ∷ "skipped" ∷ "waiting_input" ∷ "cancelled"
    ∷ []

abbrev pub run_statuses : List String
run_statuses =
    "" ∷ "queued" ∷ "running" ∷ "waiting_input" ∷ "cancelling" ∷ "failed" ∷ "cancelled" ∷ "done"
    ∷ []

-- An entry of a history is a pair that the table allows.
abbrev pub IsEdge : Dict (List String) → Transition → Type 0
IsEdge table t = allows table (or_else t.from "") t.to ≡ true

pub record IsHistory (table : Dict (List String)) (transitions : Option (List Transition))
    : Type 0 where
  pub edges : All (IsEdge table) (or_else transitions [])
  pub short : length (or_else transitions []) ≤ 100

-- A step's status is known, a running step shows no end and no error, and a step that has ended
-- has the time of its end.
pub record IsLegalStep (s : Step) : Type 0 where
  pub known : member (or_else s.status "") step_statuses ≡ true
  pub running_clean :
      str_eq (or_else s.status "") "running" ≡ true
      → (s.ended_at ≡ none) × (s.error ≡ none) × (s.error_code ≡ none) × (s.failure ≡ none)
  pub ended_timed : ends_step (or_else s.status "") ≡ true → is_some s.ended_at ≡ true
  pub history : IsHistory step_transitions s.transitions

pub record IsLegalRun (r : Run) : Type 0 where
  pub known : member (or_else r.status "") run_statuses ≡ true
  pub history : IsHistory run_transitions r.transitions
  pub steps : All IsLegalStep r.steps

-- A status that is allowed after another is known.
pub step_target_known :
    (source target : String)
    → allows step_transitions source target ≡ true
    → member target step_statuses ≡ true
unfolding allows
step_target_known source target h =
    allows_sound (λ s t. member t step_statuses) step_transitions source target refl h

pub run_target_known :
    (source target : String)
    → allows run_transitions source target ≡ true
    → member target run_statuses ≡ true
run_target_known source target h =
    allows_sound (λ s t. member t run_statuses) run_transitions source target refl h

-- One more valid entry keeps a history legal.
pub append_transition-IsHistory :
    (table : Dict (List String)) (transitions : Option (List Transition)) (kind : String)
    (source : Option String) (target : String) (reason : Option String) (now : ℕ)
    → IsHistory table transitions
    → allows table (or_else source "") target ≡ true
    → IsHistory table (some (append_transition transitions kind source target reason now))
append_transition-IsHistory table transitions kind source target reason now h valid = record {
  edges =
      append_transition-All transitions kind source target reason now (IsEdge table) h.edges valid;
  short = length-append_transition transitions kind source target reason now;
}

running-ends : (status : String) → str_eq status "running" ≡ true → ends_step status ≡ false
running-ends status h = rw ((eq_iff status "running").0 h)

module _ (status : String) (error error_code : Option String) (now : ℕ) (s : Step) where
  status-marked : (marked status error error_code now s).status ≡ some status
  unfolding marked
  status-marked = ground arith

  transitions-marked :
      (marked status error error_code now s).transitions
      ≡ some (
          append_transition s.transitions "step"
            (some (or_else s.status ""))
            status
            (some (truthy_or error (truthy_or error_code "step status update")))
            now)
  unfolding marked
  transitions-marked = ground arith

  marked-running_clean :
      str_eq status "running" ≡ true
      → let s' = marked status error error_code now s in
        (s'.ended_at ≡ none) × (s'.error ≡ none) × (s'.error_code ≡ none) × (s'.failure ≡ none)
  unfolding marked
  marked-running_clean h = rw (h, running-ends status h) (refl, refl, refl, refl)

  marked-ended_timed :
      ends_step status ≡ true → is_some (marked status error error_code now s).ended_at ≡ true
  unfolding marked
  marked-ended_timed h = rw h

  marked-IsLegalStep :
      IsLegalStep s
      → allows step_transitions (or_else s.status "") status ≡ true
      → IsLegalStep (marked status error error_code now s)
  marked-IsLegalStep legal valid = record {
    known = rw status-marked (step_target_known (or_else s.status "") status valid);
    running_clean = rw status-marked marked-running_clean;
    ended_timed = rw status-marked marked-ended_timed;
    history = rw transitions-marked (
        append_transition-IsHistory step_transitions s.transitions "step" _ status _ now
          legal.history valid);
  }

  -- A step that `mark` has written is legal if it was so before.
  pub mark_step-IsLegalStep :
      (s' : Step) → IsLegalStep s → mark_step status error error_code now s ≡ ok s' → IsLegalStep s'
  mark_step-IsLegalStep s' legal e =
      let (d, valid, e2) =
        >>=-eq-ok (validate_transition "step" (some (or_else s.status "")) status true)
          (λ d. ok (marked status error error_code now s)) {b = s'} (unfold mark_step in e) in
      subst IsLegalStep (ok_inj e2) (
        marked-IsLegalStep legal (
          unfold table_for in
          validate_transition-allows "step" (some (or_else s.status "")) status d valid))

-- The fields that the invariant reads.
abbrev core :
    Step
    → Option String
      × Option ℕ
      × Option String
      × Option String
      × Option Failure
      × Option (List Transition)
core s = (s.status, s.ended_at, s.error, s.error_code, s.failure, s.transitions)

same-IsLegalStep : (s s' : Step) → core s' ≡ core s → IsLegalStep s → IsLegalStep s'
same-IsLegalStep s s' e legal =
    let e0 : s'.status ≡ s.status = cc in
    let e1 : s'.ended_at ≡ s.ended_at = cc in
    let e2 : s'.error ≡ s.error = cc in
    let e3 : s'.error_code ≡ s.error_code = cc in
    let e4 : s'.failure ≡ s.failure = cc in
    let e5 : s'.transitions ≡ s.transitions = cc in
    record {
      known = rw e0 legal.known;
      running_clean = rw (e0, e1, e2, e3, e4) legal.running_clean;
      ended_timed = rw (e0, e1) legal.ended_timed;
      history = rw e5 legal.history;
    }

module _ (s : Step) (legal : IsLegalStep s) where
  pub note_event-IsLegalStep : (event : Event) → IsLegalStep (note_event event s)
  note_event-IsLegalStep event =
      same-IsLegalStep s (note_event event s) (unfold note_event in ground arith) legal

  pub reset_step-IsLegalStep : IsLegalStep (reset_step s)
  unfolding reset_step
  reset_step-IsLegalStep = record {
    known = refl;
    running_clean = λ h. (refl, refl, refl, refl);
    ended_timed = λ h. cc;
    history = legal.history;
  }

  pub reset_retry_count-IsLegalStep : (now : ℕ) → IsLegalStep (reset_retry_count now s)
  unfolding reset_retry_count
  reset_retry_count-IsLegalStep now = same-IsLegalStep s _ refl legal

  pub bump_retry-IsLegalStep : IsLegalStep (bump_retry s)
  unfolding bump_retry
  bump_retry-IsLegalStep = same-IsLegalStep s _ refl legal
