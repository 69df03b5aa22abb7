-- ===== src/Lease/Lifetimes.antt =====
-- The lifetime of a lease and the interval of its heartbeat, from the environment.
use ai_agent_workflow.Prelude.{ℕ, ◌+◌, ◌-◌, ◌/◌, ◌≤◌, min, max, arith, ◌==◌, if◌then◌else◌}

-- What `int(os.environ.get(...))` gives.
pub data Parsed : Type 0 where
  unparsable negative : Parsed
  number : ℕ → Parsed

unfoldable pub lease_ttl_seconds : Parsed → ℕ
lease_ttl_seconds unparsable = 90
lease_ttl_seconds negative = 10
lease_ttl_seconds (number n) = max 10 n

-- `max(1, min(configured or default, max(1, ttl - 2)))`
bounded_heartbeat : Parsed → ℕ → ℕ
bounded_heartbeat negative ttl = 1
bounded_heartbeat unparsable ttl = max 1 (min (max 2 (ttl / 3)) (max 1 (ttl - 2)))
bounded_heartbeat (number n) ttl =
    max 1 (min (if n == 0 then max 2 (ttl / 3) else n) (max 1 (ttl - 2)))

abbrev pub ttl_or : ℕ → ℕ → ℕ
ttl_or ttl default = if ttl == 0 then default else ttl

-- `ttl_sec` of `None` is 0 here: both are replaced by the default.
unfoldable pub lease_heartbeat_seconds : Parsed → Parsed → ℕ → ℕ
unfolding bounded_heartbeat
lease_heartbeat_seconds env_ttl env_heartbeat ttl_sec =
    bounded_heartbeat env_heartbeat (ttl_or ttl_sec (lease_ttl_seconds env_ttl))

-- Whatever the environment holds, the time between two heartbeats is at least one second, and at
-- least two seconds shorter than the lifetime of the lease, if that is three seconds or more.
pub heartbeat_before_expiry :
    (env_ttl env_heartbeat : Parsed) (ttl_sec : ℕ)
    → 3 ≤ ttl_or ttl_sec (lease_ttl_seconds env_ttl)
    → (1 ≤ lease_heartbeat_seconds env_ttl env_heartbeat ttl_sec)
      × (lease_heartbeat_seconds env_ttl env_heartbeat ttl_sec + 2
          ≤ ttl_or ttl_sec (lease_ttl_seconds env_ttl))
unfolding lease_heartbeat_seconds
heartbeat_before_expiry env_ttl env_heartbeat ttl_sec h = ground arith
