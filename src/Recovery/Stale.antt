-- ===== src/Recovery/Stale.antt =====
-- Recovered runs no longer block their project.
use ai_agent_workflow.Prelude.{
  String, ◌≡◌, refl, sym, ap, ◌∙◌, Bool, true, false, not, ◌&&◌, ◌||◌, Option, none, some, List, [],
  ◌∷◌, if◌then◌else◌, Bool-cases, inl, inr, arith, all,
}
use ai_agent_workflow.Recovery.Owners.{Process}
use ai_agent_workflow.Recovery.Runs.{
  Run, is_active_run, active_run_owner_is_live, mark_stale_active_run_interrupted,
}
use ai_agent_workflow.Recovery.Stores.{
  is_excluded, is_of_project, is_stale, recover_stale_active_runs_for_project,
  find_active_run_for_project, is_foreign_live, interrupted, mark_interrupted_store_runs,
}

pub mark_stale-is_active :
    (now : String) (reason : Option String) (run : Run)
    → is_active_run (mark_stale_active_run_interrupted now reason run) ≡ false
unfolding is_active_run mark_stale_active_run_interrupted
mark_stale-is_active now reason run = refl

module _ (process : Process) (resolved : String → Option String) (now project_path : String) where
  abbrev pub recover : List Run → List Run × List Run
  recover runs = recover_stale_active_runs_for_project process resolved now project_path runs

  pub recover-nil : recover [] ≡ ([], [])
  unfolding recover_stale_active_runs_for_project
  recover-nil = refl

  pub recover-stale :
      (run : Run) (runs : List Run)
      → is_stale process resolved project_path run ≡ true
      → recover (run ∷ runs) ≡ (
        mark_stale_active_run_interrupted now none run ∷ (recover runs).0,
        mark_stale_active_run_interrupted now none run ∷ (recover runs).1,
      )
  unfolding recover_stale_active_runs_for_project
  recover-stale run runs h = rw (h, recover_stale_active_runs_for_project) refl

  pub recover-other :
      (run : Run) (runs : List Run)
      → is_stale process resolved project_path run ≡ false
      → recover (run ∷ runs) ≡ (run ∷ (recover runs).0, (recover runs).1)
  unfolding recover_stale_active_runs_for_project
  recover-other run runs h = rw (h, recover_stale_active_runs_for_project) refl

  pub is_stale-marked :
      (run : Run)
      → is_stale process resolved project_path (mark_stale_active_run_interrupted now none run)
        ≡ false
  is_stale-marked run = rw (mark_stale-is_active now none run)

  pub recover-recover : (runs : List Run) → recover (recover runs).0 ≡ ((recover runs).0, [])
  recover-recover [] = rw recover-nil recover-nil
  recover-recover (run ∷ runs) = elim (Bool-cases (is_stale process resolved project_path run)) [
    | inl e ↦ rw (recover-stale run runs e) (
        recover-other (mark_stale_active_run_interrupted now none run) (recover runs).0
          (is_stale-marked run)
        ∙ rw (recover-recover runs))
    | inr e ↦
        rw (recover-other run runs e)
          (recover-other run (recover runs).0 e ∙ rw (recover-recover runs))
  ]

  abbrev pub found : Option String → List Run → Option Run
  found exclude runs = find_active_run_for_project process resolved project_path exclude runs

  abbrev pub blocks : Option String → Run → Bool
  blocks exclude run =
      not (is_excluded exclude run)
      && (is_active_run run
          && (is_of_project process resolved project_path run
              && active_run_owner_is_live process run))

  pub found-pass :
      (exclude : Option String) (run : Run) (runs : List Run)
      → blocks exclude run ≡ false
      → found exclude (run ∷ runs) ≡ found exclude runs
  unfolding find_active_run_for_project
  found-pass exclude run runs h = rw (h, find_active_run_for_project)

  pub found-cons :
      (exclude : Option String) (run : Run) (runs others : List Run)
      → found exclude runs ≡ found exclude others
      → found exclude (run ∷ runs) ≡ found exclude (run ∷ others)
  unfolding find_active_run_for_project
  found-cons exclude run runs others h =
      ap (λ (rest : Option Run). if blocks exclude run then some run else rest) h

  pub stale-blocks :
      (excluded active ours live : Bool)
      → (active && (ours && not live)) ≡ true
      → (not excluded && (active && (ours && live))) ≡ false
  stale-blocks excluded active ours live h = ground arith

  pub inactive-blocks : (excluded rest : Bool) → (not excluded && (false && rest)) ≡ false
  inactive-blocks true rest = refl
  inactive-blocks false rest = refl

  pub blocks-stale :
      (exclude : Option String) (run : Run)
      → is_stale process resolved project_path run ≡ true
      → blocks exclude run ≡ false
  blocks-stale exclude run h =
      stale-blocks (is_excluded exclude run) (is_active_run run)
        (is_of_project process resolved project_path run) (active_run_owner_is_live process run) h

  pub blocks-marked :
      (exclude : Option String) (run : Run)
      → blocks exclude (mark_stale_active_run_interrupted now none run) ≡ false
  blocks-marked exclude run =
      rw (mark_stale-is_active now none run) (
        inactive-blocks (is_excluded exclude (mark_stale_active_run_interrupted now none run))
          false)

  pub found-recover :
      (exclude : Option String) (runs : List Run)
      → found exclude (recover runs).0 ≡ found exclude runs
  found-recover exclude [] = ap (λ (r : List Run × List Run). found exclude r.0) recover-nil
  found-recover exclude (run ∷ runs) =
      elim (Bool-cases (is_stale process resolved project_path run)) [
        | inl e ↦ rw (recover-stale run runs e) (
            found-pass exclude (mark_stale_active_run_interrupted now none run) (recover runs).0
              (blocks-marked exclude run)
            ∙ found-recover exclude runs
            ∙ sym (found-pass exclude run runs (blocks-stale exclude run e)))
        | inr e ↦
            rw (recover-other run runs e)
              (found-cons exclude run (recover runs).0 runs (found-recover exclude runs))
      ]

  -- Recovering the stale runs of a project settles it: a second call recovers nothing and changes no
  -- run, and the run that is found to block the project is the same as before.
  pub recovery_settles :
      (exclude : Option String) (runs : List Run)
      → (recover (recover runs).0 ≡ ((recover runs).0, []))
        × (found exclude (recover runs).0 ≡ found exclude runs)
  recovery_settles exclude runs = (recover-recover runs, found-recover exclude runs)

-- After the runs of a stopped server are marked, a run is active only if another live process owns it.
module _ (process : Process) (now : String) where
  abbrev pub marked : List Run → List Run × List Run
  marked runs = mark_interrupted_store_runs process now runs

  pub marked-nil : marked [] ≡ ([], [])
  unfolding mark_interrupted_store_runs
  marked-nil = refl

  abbrev pub is_settled : Run → Bool
  is_settled run = not (is_active_run run) || is_foreign_live process run.run_owner

  pub is_settled-interrupted : (run : Run) → is_settled (interrupted process now run) ≡ true
  unfolding is_active_run interrupted
  is_settled-interrupted run = refl

  pub marked-kept :
      (run : Run) (runs : List Run)
      → is_settled run ≡ true
      → marked (run ∷ runs) ≡ (run ∷ (marked runs).0, (marked runs).1)
  unfolding mark_interrupted_store_runs
  marked-kept run runs h = rw (h, mark_interrupted_store_runs)

  pub marked-interrupted :
      (run : Run) (runs : List Run)
      → is_settled run ≡ false
      → marked (run ∷ runs) ≡ (
        interrupted process now run ∷ (marked runs).0,
        interrupted process now run ∷ (marked runs).1,
      )
  unfolding mark_interrupted_store_runs
  marked-interrupted run runs h = rw (h, mark_interrupted_store_runs)

  pub interrupted_are_settled : (runs : List Run) → all is_settled (marked runs).0 ≡ true
  interrupted_are_settled [] = ap (λ (r : List Run × List Run). all is_settled r.0) marked-nil
  interrupted_are_settled (run ∷ runs) = elim (Bool-cases (is_settled run)) [
    | inl e ↦ rw (marked-kept run runs e) (rw (e, interrupted_are_settled runs))
    | inr e ↦
        rw (marked-interrupted run runs e)
          (rw (is_settled-interrupted run, interrupted_are_settled runs))
  ]
