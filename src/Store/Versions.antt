-- ===== src/Store/Versions.antt =====
-- What a change of one run does to the file: that run is saved with the next version, and every
-- other run is as it was.
use ai_agent_workflow.Prelude.{
  ℕ, ◌+◌, String, ◌≡◌, refl, sym, ap, ◌∙◌, inl, inr, Bool, true, false, Option, none, some, [], ◌∷◌,
  arith, str_eq, eq_iff, eq_refl, if◌then◌else◌, or_else, Bool-cases, Result, ok, err,
}
use ai_agent_workflow.Engine.Tables.{
  run_transitions, allows, refusal, invalid_transition, validate_transition,
}
use ai_agent_workflow.Store.Records.{Run}
use ai_agent_workflow.Store.Runs.{
  Runs, get_run, mutate_run, Extra, update_extra, moved_run, apply_transition, transition_status,
}
use ai_agent_workflow.Store.Loops.{saved}

-- The file after a change of the run of that id.
pub record IsChanged (runs : Runs) (run_id : String) (r' : Run) (runs' : Runs) : Type 0 where
  pub found : get_run runs' run_id ≡ some r'
  pub others : (j : String) → str_eq run_id j ≡ false → get_run runs' j ≡ get_run runs j

module _ {E : Type 0} (fn : Run → Result E Run) (run_id : String) where
  pub mutate_run_missing :
      (runs : Runs) → get_run runs run_id ≡ none → mutate_run runs run_id fn ≡ ok (runs, none)
  unfolding mutate_run get_run
  mutate_run_missing [] h = refl
  mutate_run_missing (r ∷ rest) h = elim (Bool-cases (str_eq r.id run_id)) [
    | inl hit ↦ cc (rw hit at h)
    | inr miss ↦ rw miss (rw (mutate_run_missing rest (rw miss at h)))
  ]

  pub mutate_run_raises :
      (runs : Runs) (r : Run) (e : E)
      → get_run runs run_id ≡ some r
      → fn r ≡ err e
      → mutate_run runs run_id fn ≡ err e
  unfolding mutate_run get_run
  mutate_run_raises [] r e h f = cc
  mutate_run_raises (s ∷ rest) r e h f = elim (Bool-cases (str_eq s.id run_id)) [
    | inl hit ↦
        let same : s ≡ r = cc (rw hit at h) in let raised : fn s ≡ err e = cc in rw hit (rw raised)
    | inr miss ↦ rw miss (rw (mutate_run_raises rest r e (rw miss at h) f))
  ]

  pub mutate_run_saves :
      (runs : Runs) (r r' : Run)
      → get_run runs run_id ≡ some r
      → fn r ≡ ok r'
      → r'.id ≡ r.id
      → (runs' : Runs) × (mutate_run runs run_id fn ≡ ok (runs', some (saved r')))
        × IsChanged runs run_id (saved r') runs'
  unfolding mutate_run get_run
  mutate_run_saves [] r r' h f i = cc
  mutate_run_saves (s ∷ rest) r r' h f i = elim (Bool-cases (str_eq s.id run_id)) [
    | inl hit ↦
        let same : s ≡ r = cc (rw hit at h) in
        let returned : fn s ≡ ok r' = cc in
        let key : s.id ≡ run_id = (eq_iff s.id run_id).0 hit in
        let key' : r'.id ≡ run_id = i ∙ sym (ap (λ (x : Run). x.id) same) ∙ key in
        (
          saved r' ∷ rest,
          rw hit (rw returned),
          record { found = rw (key', eq_refl); others = λ j other. rw (key', key, other) refl },
        )
    | inr miss ↦
        let (rest', e, changed) = mutate_run_saves rest r r' (rw miss at h) f i in
        (
          s ∷ rest',
          rw miss (rw e),
          record {
            found = rw miss changed.found;
            others = λ j other.
                ap (λ (o : Option Run). if str_eq s.id j then some s else o)
                  (changed.others j other);
          },
        )
  ]

module _ (status : String) (error error_code : Option String) (ended : Bool) (now : ℕ) (runs : Runs)
    (run_id : String) (r : Run) (stored : get_run runs run_id ≡ some r) where
  abbrev edge : Bool
  edge = allows run_transitions (or_else r.status "") status

  id-moved_run :
      (extra : Option Extra) → (moved_run status error error_code ended extra now r).id ≡ r.id
  unfolding moved_run
  id-moved_run extra = ground arith

  -- A transition that the table does not allow raises, whatever the other arguments.
  pub transition_status_refused :
      (extra : Option Extra)
      → edge ≡ false
      → transition_status runs run_id status error error_code ended extra now
        ≡ err (invalid_transition (refusal "run" (or_else r.status "") status))
  unfolding transition_status
  transition_status_refused extra no_edge =
      mutate_run_raises (apply_transition status error error_code ended extra now) run_id runs r _
        stored (unfold apply_transition validate_transition in rw no_edge)

  -- A transition that the table allows, with no extra update, saves the run with the new status and
  -- the next version, and leaves the other runs as they were.
  pub transition_status_saves :
      edge ≡ true
      → let r' = saved (moved_run status error error_code ended none now r) in
        (runs' : Runs) × (transition_status runs run_id status error error_code ended none now
          ≡ ok (runs', some r'))
        × IsChanged runs run_id r' runs'
        × (r'.status ≡ some status)
        × (r'.state_version ≡ r.state_version + 1)
  unfolding transition_status
  transition_status_saves yes_edge =
      let (runs', e, changed) =
        mutate_run_saves (apply_transition status error error_code ended none now) run_id runs r
          (moved_run status error error_code ended none now r) stored
          (unfold apply_transition validate_transition update_extra in rw yes_edge)
          (id-moved_run none) in
      (runs', e, changed, unfold moved_run in ground arith, unfold moved_run in ground arith)
