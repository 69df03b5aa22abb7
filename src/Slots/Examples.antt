-- ===== src/Slots/Examples.antt =====
-- Two calls of one provider.
use ai_agent_workflow.Prelude.{
  ◌≡◌, refl, ◌≤◌, ◌<◌, ◌+◌, String, none, some, [], ◌∷◌, str_eq, if◌then◌else◌,
}
use ai_agent_workflow.Prelude.Letters.{strip, lower, upper, replace}
use ai_agent_workflow.Lease.Lifetimes.{Parsed}
use ai_agent_workflow.Slots.Pool.{
  Environment, Slot, Pool, normalize_provider, provider_limit, clamped, request_in, slot_for, Move,
  MoveIn, Step, start,
}
use ai_agent_workflow.Slots.Runs.{Reach}
use ai_agent_workflow.Slots.Capped.{ReachUnder, running_in, running_within}
use ai_agent_workflow.Slots.Overrun.{lower_limit_overruns}

-- The numbers that the example uses.
abbrev int_of : String → Parsed
int_of text =
    if str_eq text "2"
    then Parsed.number 2
    else if str_eq text "1"
    then Parsed.number 1
    else Parsed.unparsable

abbrev limited_to : String → Environment
limited_to limit = record {
  value_of = λ key. if str_eq key "AIWF_QWEN_SERVE_MAX_CONCURRENCY" then some limit else none;
  int_of = int_of;
}

limit_is_two : provider_limit (limited_to "2") (normalize_provider " Qwen-Serve") ≡ 2
unfolding provider_limit normalize_provider strip lower upper replace clamped
limit_is_two = refl

limit_is_one : provider_limit (limited_to "1") (normalize_provider " Qwen-Serve") ≡ 1
unfolding provider_limit normalize_provider strip lower upper replace clamped
limit_is_one = refl

lower_limit_overruns_example :
    (p : Pool) × Reach p
    × (provider_limit (limited_to "1") (normalize_provider " Qwen-Serve")
        < running_in (normalize_provider " Qwen-Serve") p.slots
          + running_in (normalize_provider " Qwen-Serve") p.retired)
lower_limit_overruns_example =
    lower_limit_overruns (limited_to "2") (limited_to "1") " Qwen-Serve" limit_is_two limit_is_one

abbrev one_call : Slot
one_call = record { provider = "qwen_serve"; limit = 2; value = 1; waiting = 0; running = 1 }

one_runs : ReachUnder (limited_to "2") (record { slots = one_call ∷ []; retired = [] })
unfolding slot_for request_in provider_limit normalize_provider strip lower upper replace clamped
one_runs =
    ReachUnder.next (ReachUnder.next ReachUnder.begin (Step.request " Qwen-Serve" start))
      (Step.current _ (one_call ∷ []) (MoveIn.here [] (Move.acquire _ 1 0 refl refl)))

running_within_example :
    running_in "qwen_serve" (one_call ∷ []) + running_in "qwen_serve" []
    ≤ provider_limit (limited_to "2") "qwen_serve"
running_within_example = running_within (limited_to "2") "qwen_serve" one_runs
