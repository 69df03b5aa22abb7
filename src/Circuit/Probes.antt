-- ===== src/Circuit/Probes.antt =====
-- When an open circuit lets a call through, and that it lets one through at a time.
use ai_agent_workflow.Prelude.{
  ℕ, ◌+◌, ◌-◌, ◌*◌, ◌≤◌, min, max, String, ◌≡◌, refl, ap, ◌∙◌, Bool, true, false, ◌||◌, List, [],
  ◌∷◌, arith, leb, any,
}
use ai_agent_workflow.Circuit.Breaker.{
  closed, opened, half_open, Circuit, Settings, threshold, cooldown, is_half_open, allow_circuit,
  succeed, fail,
}

-- Calls of `allow` at the given times, with their answers.
pub allow_all : Circuit → List ℕ → Circuit × List Bool
allow_all c [] = (c, [])
allow_all c (now ∷ rest) =
    let (c', allowed, probe) = allow_circuit now c in
    let (c'', answers) = allow_all c' rest in (c'', allowed ∷ answers)

in_flight_refuses :
    (c : Circuit) (now : ℕ)
    → c.state ≡ half_open
    → c.half_open_in_flight ≡ true
    → allow_circuit now c ≡ (c, false, false)
unfolding allow_circuit
in_flight_refuses c now s f = ground arith

allow_all_refuses :
    (c : Circuit) (times : List ℕ)
    → c.state ≡ half_open
    → c.half_open_in_flight ≡ true
    → ((allow_all c times).0 ≡ c) × (any (λ b. b) (allow_all c times).1 ≡ false)
unfolding allow_all
allow_all_refuses c [] s f = (refl, refl)
allow_all_refuses c (now ∷ rest) s f =
    rw (in_flight_refuses c now s f) (allow_all_refuses c rest s f)

probe_in_flight :
    (c c' : Circuit) (now : ℕ)
    → allow_circuit now c ≡ (c', true, true)
    → (c'.state ≡ half_open) × (c'.half_open_in_flight ≡ true)
unfolding allow_circuit
probe_in_flight c c' now e = ground arith

-- After a call was let through as a probe, every later call is refused at any time, and the
-- circuit stays as the probe left it, until the result of the probe is recorded.
pub probe_is_alone :
    (c c' : Circuit) (now : ℕ) (times : List ℕ)
    → allow_circuit now c ≡ (c', true, true)
    → ((allow_all c' times).0 ≡ c') × (any (λ b. b) (allow_all c' times).1 ≡ false)
probe_is_alone c c' now times e =
    let (s, f) = probe_in_flight c c' now e in allow_all_refuses c' times s f

opened-allows :
    (c : Circuit) (u : ℕ)
    → c.state ≡ opened
    → ((allow_circuit u c).1 ≡ leb c.next_probe_at u)
      × ((allow_circuit u c).2 ≡ leb c.next_probe_at u)
unfolding allow_circuit
opened-allows c u s = (ground arith, ground arith)

opened_due :
    (c : Circuit) (t : ℕ)
    → c.state ≡ opened
    → c.next_probe_at ≤ t
    → allow_circuit t c ≡ (record c { state = half_open; half_open_in_flight = true }, true, true)
unfolding allow_circuit
opened_due c t s due = ground arith

-- The wait of a circuit that opens with the given count of failures.
abbrev pub wait : Settings → ℕ → ℕ
wait cfg count = cooldown cfg * min 8 (max 1 (count + 1 - threshold cfg))

wait-threshold :
    (cfg : Settings) (count : ℕ) → count ≡ threshold cfg → wait cfg count ≡ cooldown cfg
wait-threshold cfg count e =
    let once : min 8 (max 1 (count + 1 - threshold cfg)) ≡ 1 = omega arith in
    ap (λ m. cooldown cfg * m) once ∙ omega arith

fail-opens :
    (cfg : Settings) (error : String) (t : ℕ) (c : Circuit)
    → (is_half_open c.state || leb (threshold cfg) (c.failure_count + 1)) ≡ true
    → let c' = fail cfg error true t c in
      (c'.state ≡ opened)
      × (c'.next_probe_at ≡ t + wait cfg (c.failure_count + 1))
      × (c'.failure_count ≡ c.failure_count + 1)
unfolding fail
fail-opens cfg error t c h = rw h (refl, refl, refl)

module _ (cfg : Settings) (error : String) (t u : ℕ) (c : Circuit) where
  -- The transient failure that takes a closed circuit to its threshold, at time t, closes it to
  -- calls for exactly one cooldown: a call at time u is let through, as the probe, when
  -- t + cooldown ≤ u, and not before.
  pub trip_waits :
      c.state ≡ closed
      → c.failure_count + 1 ≡ threshold cfg
      → let answer = allow_circuit u (fail cfg error true t c) in
        (answer.1 ≡ leb (t + cooldown cfg) u) × (answer.2 ≡ leb (t + cooldown cfg) u)
  trip_waits s n =
      let (o, at, _) = fail-opens cfg error t c (ground arith) in
      let due : (fail cfg error true t c).next_probe_at ≡ t + cooldown cfg =
        at ∙ ap (λ w. t + w) (wait-threshold cfg (c.failure_count + 1) n) in
      let (a, b) = opened-allows (fail cfg error true t c) u o in
      (a ∙ ap (λ x. leb x u) due, b ∙ ap (λ x. leb x u) due)

  -- An open circuit whose time has come lets a call through, and if that probe fails the circuit is
  -- open again for its wait at the new count, of one cooldown for each failure from the threshold
  -- on, eight at most: the next call is let through when that time has passed.
  pub failed_probe_waits :
      c.state ≡ opened
      → c.next_probe_at ≤ t
      → let c' = fail cfg error true t (allow_circuit t c).0 in
        ((allow_circuit t c).1 ≡ true)
        × (c'.failure_count ≡ c.failure_count + 1)
        × ((allow_circuit u c').1 ≡ leb (t + wait cfg (c.failure_count + 1)) u)
  failed_probe_waits s due = rw (opened_due c t s due) (
      let probe : Circuit = record c { state = half_open; half_open_in_flight = true } in
      let (o, at, n) = fail-opens cfg error t probe refl in
      (refl, n, (opened-allows (fail cfg error true t probe) u o).0 ∙ ap (λ x. leb x u) at))

-- A probe that succeeds leaves a circuit that lets every call through and counts no failure.
pub probe_success_closes :
    (c : Circuit) (t u : ℕ)
    → (allow_circuit u (succeed t c) ≡ (succeed t c, true, false))
      × ((succeed t c).failure_count ≡ 0)
unfolding allow_circuit succeed
probe_success_closes c t u = (refl, refl)
