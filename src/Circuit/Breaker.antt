-- ===== src/Circuit/Breaker.antt =====
-- `Circuit` and `ModelCircuitBreaker` of app/services/model_circuit_breaker.py. Times are whole
-- milliseconds, so the rounding to three decimals in `_snapshot` changes nothing; `now` is the
-- argument or `time.monotonic()`. The lock makes each method one step.
use ai_agent_workflow.Prelude.{
  ℕ, ◌+◌, ◌-◌, ◌*◌, min, max, String, Bool, true, false, ◌&&◌, ◌||◌, [], map, leb, if◌then◌else◌,
  or_else, clip,
}
use ai_agent_workflow.Prelude.Dict.{Dict, get, put}

pub data State : Type 0 where
  closed opened half_open : State

pub record Circuit : Type 0 where
  pub state : State
  pub failure_count : ℕ
  pub opened_at : ℕ
  pub next_probe_at : ℕ
  pub last_error : String
  pub last_success_at : ℕ
  pub half_open_in_flight : Bool

abbrev pub fresh : Circuit
fresh = record {
  state = closed;
  failure_count = 0;
  opened_at = 0;
  next_probe_at = 0;
  last_error = "";
  last_success_at = 0;
  half_open_in_flight = false;
}

-- The two environment variables as numbers, before the bounds from below.
pub record Settings : Type 0 where
  pub failures : ℕ
  pub cooldown_ms : ℕ

unfoldable pub threshold : Settings → ℕ
threshold cfg = max 1 cfg.failures

unfoldable pub cooldown : Settings → ℕ
cooldown cfg = max 1000 cfg.cooldown_ms

abbrev pub is_opened : State → Bool
is_opened opened = true
is_opened _ = false

abbrev pub is_half_open : State → Bool
is_half_open half_open = true
is_half_open _ = false

abbrev pub is_closed : State → Bool
is_closed closed = true
is_closed _ = false

pub record Snapshot : Type 0 where
  pub circuit : Circuit
  pub provider : String
  pub retry_after_ms : ℕ

unfoldable pub snapshot_of : String → Circuit → ℕ → Snapshot
snapshot_of key circuit current = record {
  circuit = circuit;
  provider = key;
  retry_after_ms = if is_opened circuit.state then circuit.next_probe_at - current else 0;
}

-- An open circuit whose time has come is half open, with no probe in flight.
half_opened : ℕ → Circuit → Circuit
half_opened current c =
    if is_opened c.state && leb c.next_probe_at current
    then record c { state = half_open; half_open_in_flight = false }
    else c

-- The circuit after `allow`, whether the call is allowed, and whether it is a probe.
admit : Circuit → Circuit × Bool × Bool
admit c =
    if is_half_open c.state
    then (if c.half_open_in_flight
        then (c, false, false)
        else (record c { half_open_in_flight = true }, true, true))
    else (c, is_closed c.state, false)

unfoldable pub allow_circuit : ℕ → Circuit → Circuit × Bool × Bool
unfolding half_opened admit
allow_circuit current c = admit (half_opened current c)

unfoldable pub succeed : ℕ → Circuit → Circuit
succeed current c = record c {
  state = closed;
  failure_count = 0;
  last_error = "";
  last_success_at = current;
  half_open_in_flight = false;
  next_probe_at = 0;
}

trip : Settings → ℕ → Circuit → Circuit
trip cfg current c =
    if is_half_open c.state || leb (threshold cfg) c.failure_count
    then record c {
      state = opened;
      opened_at = current;
      next_probe_at = current + cooldown cfg * min 8 (max 1 (c.failure_count + 1 - threshold cfg));
    }
    else c

unfoldable pub fail : Settings → String → Bool → ℕ → Circuit → Circuit
unfolding trip
fail cfg error transient current c =
    let noted = record c { half_open_in_flight = false; last_error = clip 500 error } in
    if transient
    then trip cfg current (record noted { failure_count = c.failure_count + 1 })
    else noted

-- `self._circuits`
abbrev pub Circuits : Type 0
Circuits = Dict Circuit

-- `self._circuits.setdefault(key, Circuit())`
abbrev pub circuit_at : Circuits → String → Circuit
circuit_at circuits key = or_else (get circuits key) fresh

pub record Answer : Type 0 where
  pub allowed : Bool
  pub probe : Bool
  pub snapshot : Snapshot

unfoldable pub allow : String → ℕ → Circuits → Circuits × Answer
allow key current circuits =
    let (c, allowed, probe) = allow_circuit current (circuit_at circuits key) in
    (
      put circuits key c,
      record { allowed = allowed; probe = probe; snapshot = snapshot_of key c current },
    )

unfoldable pub record_success : String → ℕ → Circuits → Circuits × Snapshot
record_success key current circuits =
    let c = succeed current (circuit_at circuits key) in
    (put circuits key c, snapshot_of key c current)

unfoldable pub record_failure :
    Settings → String → String → Bool → ℕ → Circuits → Circuits × Snapshot
record_failure cfg key error transient current circuits =
    let c = fail cfg error transient current (circuit_at circuits key) in
    (put circuits key c, snapshot_of key c current)

unfoldable pub snapshot : String → ℕ → Circuits → Circuits × Snapshot
snapshot key current circuits =
    let c = circuit_at circuits key in (put circuits key c, snapshot_of key c current)

unfoldable pub snapshots : ℕ → Circuits → Dict Snapshot
snapshots current = map (λ (key, c). (key, snapshot_of key c current))

unfoldable pub reset : Circuits → Circuits
reset circuits = []
