-- ===== src/Slots/Overrun.antt =====
-- A limit that changes while calls run.
use ai_agent_workflow.Prelude.{◌≡◌, refl, subst, ◌+◌, ◌<◌, arith, String, [], ◌∷◌, eq_refl}
use ai_agent_workflow.Slots.Pool.{
  Environment, Slot, Pool, normalize_provider, provider_limit, new_slot, request_in, slot_for, Move,
  MoveIn, Step, start,
}
use ai_agent_workflow.Slots.Runs.{Reach}
use ai_agent_workflow.Slots.Capped.{running_in}

module _ (env lower_env : Environment) (name : String) where
  abbrev provider : String
  provider = normalize_provider name

  -- The call that runs in the first semaphore, and one that runs in the second.
  abbrev first_running : Slot
  first_running = record (new_slot provider (provider_limit env provider)) {
    value = 1;
    waiting = 0;
    running = 1;
  }

  abbrev second_running : Slot
  second_running = record (new_slot provider (provider_limit lower_env provider)) {
    value = 0;
    waiting = 0;
    running = 1;
  }

  waits_anew :
      provider_limit env provider ≡ 2
      → provider_limit lower_env provider ≡ 1
      → slot_for lower_env name (record { slots = first_running ∷ []; retired = [] }) ≡ record {
        slots = new_slot provider (provider_limit lower_env provider) ∷ [];
        retired = first_running ∷ [];
      }
  unfolding slot_for request_in
  waits_anew e f = rw (eq_refl provider, e, f) refl

  -- When the limit of a provider falls from two to one while a call runs, a pool can be reached in which
  -- the provider has more running calls than its limit: the new limit gets a semaphore of its own.
  pub lower_limit_overruns :
      provider_limit env provider ≡ 2
      → provider_limit lower_env provider ≡ 1
      → (p : Pool) × Reach p
        × (provider_limit lower_env provider
            < running_in provider p.slots + running_in provider p.retired)
  unfolding slot_for request_in
  lower_limit_overruns e f =
      let one : Reach (record { slots = first_running ∷ []; retired = [] }) =
        Reach.next env (Reach.next env Reach.begin (Step.request name start))
          (Step.current _ (first_running ∷ []) (MoveIn.here [] (Move.acquire _ 1 0 e refl))) in
      let two : Reach (record {
        slots = new_slot provider (provider_limit lower_env provider) ∷ [];
        retired = first_running ∷ [];
      }) =
        subst Reach (waits_anew e f) (Reach.next lower_env one (Step.request name _)) in
      (
        record { slots = second_running ∷ []; retired = first_running ∷ [] },
        Reach.next lower_env two
            (Step.current _ (second_running ∷ []) (MoveIn.here [] (Move.acquire _ 0 0 f refl))),
        rw (eq_refl provider, f) (omega arith),
      )
