-- ===== src/Lease/Tokens.antt =====
-- The lease of a run: acquire, assert, renew, release. Times are whole seconds; an expiry that does
-- not parse is `none`. `now` is the argument or the clock, and `ttl` the lifetime after
-- `int(ttl_sec or lease_ttl_seconds())`.
use ai_agent_workflow.Prelude.{
  ℕ, ◌+◌, max, String, Bool, true, false, not, ◌&&◌, Option, none, some, str_eq, leb, ◌==◌,
  if◌then◌else◌, truthy_or, Result, ok, err, ◌>>=◌,
}

pub record Owner : Type 0 where
  pub instance_id : Option String
  pub id : Option String
  pub pid : Option String

unfoldable pub owner_id_of : Owner → String
owner_id_of owner =
    truthy_or owner.instance_id (truthy_or owner.id (truthy_or owner.pid "controller"))

pub record Lease : Type 0 where
  pub owner_id : String
  pub owner : Owner
  pub acquired_at : Option ℕ
  pub heartbeat_at : Option ℕ
  pub expires_at : Option ℕ
  pub ttl_sec : ℕ
  pub fencing_token : ℕ
  pub released_at : Option ℕ

-- The keys of the run document that the leases use.
pub record RunLeases : Type 0 where
  pub run_lease : Option Lease
  pub last_run_lease : Option Lease
  pub run_lease_epoch : ℕ

-- One constructor for each message of a `RunLeaseConflict`.
pub data RunLeaseConflict : Type 0 where
  held_by : String → RunLeaseConflict
  missing expired : RunLeaseConflict
  owner_changed : String → RunLeaseConflict
  token_changed : ℕ → ℕ → RunLeaseConflict

unfoldable pub lease_is_expired : Option Lease → ℕ → Bool
lease_is_expired none now = true
lease_is_expired (some l) now = elim l.expires_at [ none ↦ true | some t ↦ leb t now ]

abbrev pub token_of : Option Lease → ℕ
token_of none = 0
token_of (some l) = l.fencing_token

unfoldable pub next_fencing_token : RunLeases → ℕ
next_fencing_token run =
    max (max (token_of run.run_lease) (token_of run.last_run_lease)) run.run_lease_epoch + 1

-- A lease that has not expired, of the given owner or of another.
abbrev live_of : Bool → Option Lease → String → ℕ → Bool
live_of same none owner_id now = false
live_of same (some l) owner_id now =
    not (lease_is_expired (some l) now)
    && (if same then str_eq l.owner_id owner_id else not (str_eq l.owner_id owner_id))

abbrev pub live_other_owner : Option Lease → String → ℕ → Bool
live_other_owner = live_of false

abbrev pub same_live_owner : Option Lease → String → ℕ → Bool
same_live_owner = live_of true

abbrev pub acquired_at_of : Option Lease → Option ℕ
acquired_at_of none = none
acquired_at_of (some l) = l.acquired_at

abbrev pub holder : Option Lease → String
holder none = ""
holder (some l) = l.owner_id

-- The lease that `acquire_run_lease` writes.
unfoldable pub new_lease : RunLeases → Owner → ℕ → ℕ → Lease
new_lease run owner ttl now =
    let current = run.run_lease in
    let owner_id = owner_id_of owner in
    let same = same_live_owner current owner_id now in
    record {
      owner_id = owner_id;
      owner = owner;
      acquired_at = if same then acquired_at_of current else some now;
      heartbeat_at = some now;
      expires_at = some (now + ttl);
      ttl_sec = ttl;
      fencing_token = if same then token_of current else next_fencing_token run;
      released_at = none;
    }

unfoldable pub acquire_run_lease :
    RunLeases → Owner → ℕ → ℕ → Result RunLeaseConflict (RunLeases × Lease)
acquire_run_lease run owner ttl now =
    if live_other_owner run.run_lease (owner_id_of owner) now
    then err (held_by (holder run.run_lease))
    else let lease = new_lease run owner ttl now in
      ok (record run { run_lease = some lease; run_lease_epoch = lease.fencing_token }, lease)

-- Checks in the order of the source; the lease comes back.
unfoldable pub assert_lease : Option Lease → String → ℕ → ℕ → Result RunLeaseConflict Lease
assert_lease none owner_id fencing_token now = err missing
assert_lease (some l) owner_id fencing_token now =
    if lease_is_expired (some l) now
    then err expired
    else if not (str_eq l.owner_id owner_id)
    then err (owner_changed l.owner_id)
    else if not (l.fencing_token == fencing_token)
    then err (token_changed fencing_token l.fencing_token)
    else ok l

unfoldable pub assert_run_lease : RunLeases → String → ℕ → ℕ → Result RunLeaseConflict Lease
unfolding assert_lease
assert_run_lease run owner_id fencing_token now =
    assert_lease run.run_lease owner_id fencing_token now

unfoldable pub renew_run_lease :
    RunLeases → Owner → ℕ → ℕ → Option ℕ → Result RunLeaseConflict (RunLeases × Lease)
renew_run_lease run owner ttl now (some token) = do
  lease ← assert_run_lease run (owner_id_of owner) token now
  acquire_run_lease run owner ttl now
renew_run_lease run owner ttl now none =
    if live_other_owner run.run_lease (owner_id_of owner) now
    then err (held_by (holder run.run_lease))
    else acquire_run_lease run owner ttl now

abbrev pub other_owner : Option String → Lease → Bool
other_owner none l = false
other_owner (some owner_id) l = not (str_eq owner_id "") && not (str_eq l.owner_id owner_id)

abbrev pub other_token : Option ℕ → Lease → Bool
other_token none l = false
other_token (some token) l = not (l.fencing_token == token)

release_lease : RunLeases → Option Lease → Option String → Option ℕ → ℕ → RunLeases × Bool
release_lease run none owner_id fencing_token now = (run, false)
release_lease run (some l) owner_id fencing_token now =
    if other_owner owner_id l
    then (run, false)
    else if other_token fencing_token l
    then (run, false)
    else (
      record run { last_run_lease = some (record l { released_at = some now }); run_lease = none },
      true,
    )

unfoldable pub release_run_lease : RunLeases → Option String → Option ℕ → ℕ → RunLeases × Bool
unfolding release_lease
release_run_lease run owner_id fencing_token now =
    release_lease run run.run_lease owner_id fencing_token now
