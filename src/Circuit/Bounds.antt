-- ===== src/Circuit/Bounds.antt =====
-- The invariant of one circuit, and when repeated failures open it.
use ai_agent_workflow.Prelude.{
  ℕ, suc, ◌+◌, ◌-◌, ◌*◌, ◌≤◌, ◌<◌, min, max, String, ◌≡◌, ap, ◌∙◌, ◌≢◌, Bool, true, false, List, [],
  ◌∷◌, arith, leb, length,
}
use ai_agent_workflow.Circuit.Breaker.{
  closed, opened, half_open, Circuit, fresh, Settings, threshold, cooldown, is_opened, is_half_open,
  allow_circuit, succeed, fail,
}

-- A closed circuit is below its threshold and any other has reached it, an open one waits between
-- one and eight cooldowns, and only a half-open one has a probe in flight.
pub record IsSound (cfg : Settings) (c : Circuit) : Type 0 where
  pub below : c.state ≡ closed → c.failure_count < threshold cfg
  pub reached : c.state ≢ closed → threshold cfg ≤ c.failure_count
  pub waits : c.state ≡ opened → c.opened_at + cooldown cfg ≤ c.next_probe_at
  pub waits_at_most : c.state ≡ opened → c.next_probe_at ≤ c.opened_at + cooldown cfg * 8
  pub probing : c.half_open_in_flight ≡ true → c.state ≡ half_open

pub fresh-IsSound : (cfg : Settings) → IsSound cfg fresh
unfolding threshold
fresh-IsSound cfg = ground arith

pub data Call : Type 0 where
  allow : ℕ → Call
  success : ℕ → Call
  failure : String → Bool → ℕ → Call

pub serve : Settings → Circuit → Call → Circuit
serve cfg c (allow now) = (allow_circuit now c).0
serve cfg c (success now) = succeed now c
serve cfg c (failure error transient now) = fail cfg error transient now c

pub serve_all : Settings → Circuit → List Call → Circuit
serve_all cfg c [] = c
serve_all cfg c (call ∷ rest) = serve_all cfg (serve cfg c call) rest

allow_circuit-IsSound :
    (cfg : Settings) (now : ℕ) (c : Circuit) → IsSound cfg c → IsSound cfg (allow_circuit now c).0
unfolding allow_circuit
allow_circuit-IsSound cfg now c h = ground arith

succeed-IsSound :
    (cfg : Settings) (now : ℕ) (c : Circuit) → IsSound cfg c → IsSound cfg (succeed now c)
unfolding succeed threshold
succeed-IsSound cfg now c h = ground arith

multiple_bounds : (a m : ℕ) → 1 ≤ m → m ≤ 8 → (a ≤ a * m) × (a * m ≤ a * 8)
multiple_bounds a m low high = (grind arith, grind arith)

-- The wait is between one and eight cooldowns.
wait_bounds : (a k : ℕ) → (a ≤ a * min 8 (max 1 k)) × (a * min 8 (max 1 k) ≤ a * 8)
wait_bounds a k = multiple_bounds a (min 8 (max 1 k)) (omega arith) (omega arith)

fail-IsSound :
    (cfg : Settings) (error : String) (transient : Bool) (now : ℕ) (c : Circuit)
    → IsSound cfg c
    → IsSound cfg (fail cfg error transient now c)
unfolding fail
fail-IsSound cfg error transient now c h =
    ground (arith, wait_bounds (cooldown cfg) (c.failure_count + 1 + 1 - threshold cfg))

-- The invariant holds after any calls, from a fresh circuit.
pub serve_all-IsSound :
    (cfg : Settings) (c : Circuit) (calls : List Call)
    → IsSound cfg c
    → IsSound cfg (serve_all cfg c calls)
unfolding serve_all serve
serve_all-IsSound cfg c [] h = h
serve_all-IsSound cfg c (allow now ∷ rest) h =
    serve_all-IsSound cfg (allow_circuit now c).0 rest (allow_circuit-IsSound cfg now c h)
serve_all-IsSound cfg c (success now ∷ rest) h =
    serve_all-IsSound cfg (succeed now c) rest (succeed-IsSound cfg now c h)
serve_all-IsSound cfg c (failure error transient now ∷ rest) h =
    serve_all-IsSound cfg (fail cfg error transient now c) rest
      (fail-IsSound cfg error transient now c h)

-- Whatever calls were made of a fresh circuit, it satisfies the invariant.
pub fresh-serve_all-IsSound :
    (cfg : Settings) (calls : List Call) → IsSound cfg (serve_all cfg fresh calls)
fresh-serve_all-IsSound cfg calls = serve_all-IsSound cfg fresh calls (fresh-IsSound cfg)

fail-counts :
    (cfg : Settings) (error : String) (now : ℕ) (c : Circuit)
    → c.state ≢ half_open
    → ((fail cfg error true now c).failure_count ≡ c.failure_count + 1)
      × ((fail cfg error true now c).state ≢ half_open)
unfolding fail
fail-counts cfg error now c s = (ground arith, ground arith)

-- Transient failures, one after another, at the given times.
pub fail_all : Settings → Circuit → List (String × ℕ) → Circuit
fail_all cfg c [] = c
fail_all cfg c ((error, now) ∷ rest) = fail_all cfg (fail cfg error true now c) rest

-- A sound circuit that is closed or open has, after a run of transient failures, counted each of
-- them, is open exactly when the count has reached the threshold, and is not half-open.
pub fail_all-opens :
    (cfg : Settings) (c : Circuit) (failures : List (String × ℕ))
    → IsSound cfg c
    → c.state ≢ half_open
    → let c' = fail_all cfg c failures in
      (c'.failure_count ≡ c.failure_count + length failures)
      × (is_opened c'.state ≡ leb (threshold cfg) (c.failure_count + length failures))
      × (is_half_open c'.state ≡ false)
unfolding fail_all
fail_all-opens cfg c [] h s = ground arith
fail_all-opens cfg c ((error, now) ∷ rest) h s =
    let c' : Circuit = fail cfg error true now c in
    let (counted, still) = fail-counts cfg error now c s in
    let (a, b, d) = fail_all-opens cfg c' rest (fail-IsSound cfg error true now c h) still in
    let sum : c'.failure_count + length rest ≡ c.failure_count + suc (length rest) = omega arith in
    (a ∙ sum, b ∙ ap (leb (threshold cfg)) sum, d)
