-- ===== src/Circuit/Examples.antt =====
-- A circuit of two failures and a cooldown of one second.
use ai_agent_workflow.Prelude.{◌+◌, ◌≡◌, refl, true, false, List, [], ◌∷◌, leb, any}
use ai_agent_workflow.Circuit.Breaker.{
  opened, half_open, Circuit, fresh, Settings, threshold, is_opened, is_half_open, Circuits,
  allow_circuit,
}
use ai_agent_workflow.Circuit.Bounds.{
  IsSound, fresh-IsSound, Call, serve_all, fresh-serve_all-IsSound, fail_all, fail_all-opens,
}
use ai_agent_workflow.Circuit.Probes.{allow_all, probe_is_alone}

abbrev settings : Settings
settings = record { failures = 2; cooldown_ms = 1000 }

abbrev some_calls : List Call
some_calls =
    Call.failure "timeout" true 10
    ∷ Call.failure "timeout" true 20
    ∷ Call.allow 1500
    ∷ Call.success 1600
    ∷ []

abbrev one_failure : Circuit
one_failure = record fresh { failure_count = 1; last_error = "timeout" }

abbrev tripped : Circuit
tripped = record {
  state = opened;
  failure_count = 2;
  opened_at = 20;
  next_probe_at = 1020;
  last_error = "timeout";
  last_success_at = 0;
  half_open_in_flight = false;
}

abbrev probing : Circuit
probing = record tripped { state = half_open; half_open_in_flight = true }

fresh-serve_all-IsSound_example : IsSound settings (serve_all settings fresh some_calls)
fresh-serve_all-IsSound_example = fresh-serve_all-IsSound settings some_calls

fail_all-opens_example :
    let c' = fail_all settings fresh (("timeout", 10) ∷ ("timeout", 20) ∷ []) in
    (c'.failure_count ≡ fresh.failure_count + 2)
    × (is_opened c'.state ≡ leb (threshold settings) (fresh.failure_count + 2))
    × (is_half_open c'.state ≡ false)
fail_all-opens_example =
    fail_all-opens settings fresh (("timeout", 10) ∷ ("timeout", 20) ∷ []) (fresh-IsSound settings)
      (λ e. cc)

lets_probe : allow_circuit 1500 tripped ≡ (probing, true, true)
unfolding allow_circuit
lets_probe = refl

probe_is_alone_example :
    ((allow_all probing (1501 ∷ 9000 ∷ [])).0 ≡ probing)
    × (any (λ b. b) (allow_all probing (1501 ∷ 9000 ∷ [])).1 ≡ false)
probe_is_alone_example = probe_is_alone tripped probing 1500 (1501 ∷ 9000 ∷ []) lets_probe

at_threshold : one_failure.failure_count + 1 ≡ threshold settings
unfolding threshold
at_threshold = refl

abbrev two_providers : Circuits
two_providers = ("codex", tripped) ∷ ("qwen", fresh) ∷ []
