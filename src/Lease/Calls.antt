-- ===== src/Lease/Calls.antt =====
-- Calls on the leases of a run, and what a sequence of them keeps.
use ai_agent_workflow.Prelude.{
  ℕ, ◌≤◌, ◌<◌, String, ◌≡◌, refl, sym, ap, ◌∙◌, inl, inr, true, false, ◌||◌, Option, none, some,
  List, [], ◌∷◌, arith, eq_iff, Bool-cases, Option-cases, &&-split, Result, ok, err, ◌>>=◌, subst,
}
use native.Mathlib.Nat.{le_refl, le_trans}
use ai_agent_workflow.Lease.Tokens.{
  Owner, owner_id_of, Lease, RunLeases, RunLeaseConflict, token_of, next_fencing_token,
  live_other_owner, same_live_owner, new_lease, acquire_run_lease, assert_run_lease,
  renew_run_lease, release_run_lease, other_owner, other_token,
}

-- The lease in force has the token of the epoch, and the released one has no later token.
pub record IsFenced (run : RunLeases) : Type 0 where
  pub current : (l : Lease) → run.run_lease ≡ some l → l.fencing_token ≡ run.run_lease_epoch
  pub last : token_of run.last_run_lease ≤ run.run_lease_epoch

-- A call on the leases of a run, with its arguments.
pub data Call : Type 0 where
  acquire : Owner → ℕ → ℕ → Call
  renew : Owner → ℕ → ℕ → Option ℕ → Call
  release : Option String → Option ℕ → ℕ → Call

-- A refused call leaves the run as it was.
abbrev pub after : RunLeases → Result RunLeaseConflict (RunLeases × Lease) → RunLeases
after run (ok p) = p.0
after run (err e) = run

unfoldable pub serve : RunLeases → Call → RunLeases
serve run (acquire owner ttl now) = after run (acquire_run_lease run owner ttl now)
serve run (renew owner ttl now token) = after run (renew_run_lease run owner ttl now token)
serve run (release owner_id token now) = (release_run_lease run owner_id token now).0

unfoldable pub serve_all : RunLeases → List Call → RunLeases
serve_all run [] = run
serve_all run (call ∷ rest) = serve_all (serve run call) rest

-- What a call can do: nothing, a lease with a new token, the same token for the same owner, or a
-- release.
pub data Effect (run run' : RunLeases) : Type 0 where
  nothing : run' ≡ run → Effect run run'
  given :
      (l : Lease)
      → run'.run_lease ≡ some l
      → l.fencing_token ≡ run'.run_lease_epoch
      → run'.last_run_lease ≡ run.last_run_lease
      → next_fencing_token run ≤ run'.run_lease_epoch
      → Effect run run'
  kept :
      (l l' : Lease)
      → run.run_lease ≡ some l
      → run'.run_lease ≡ some l'
      → l'.owner_id ≡ l.owner_id
      → l'.fencing_token ≡ l.fencing_token
      → run'.last_run_lease ≡ run.last_run_lease
      → run'.run_lease_epoch ≡ l.fencing_token
      → Effect run run'
  released :
      (l l' : Lease)
      → run.run_lease ≡ some l
      → run'.run_lease ≡ none
      → run'.last_run_lease ≡ some l'
      → l'.fencing_token ≡ l.fencing_token
      → run'.run_lease_epoch ≡ run.run_lease_epoch
      → Effect run run'

pub next_fencing_token_above :
    (run : RunLeases)
    → (token_of run.run_lease < next_fencing_token run)
      × (token_of run.last_run_lease < next_fencing_token run)
      × (run.run_lease_epoch < next_fencing_token run)
unfolding next_fencing_token
next_fencing_token_above run = (omega arith, omega arith, omega arith)

same_live_owner_holds :
    (current : Option Lease) (owner_id : String) (now : ℕ)
    → same_live_owner current owner_id now ≡ true
    → (l : Lease) × (current ≡ some l) × (l.owner_id ≡ owner_id)
same_live_owner_holds none owner_id now h = cc
same_live_owner_holds (some l) owner_id now h =
    (l, refl, (eq_iff l.owner_id owner_id).0 (&&-split _ _ h).1)

module _ (run : RunLeases) (owner : Owner) (ttl now : ℕ) where
  abbrev lease : Lease
  lease = new_lease run owner ttl now

  pub acquire_free :
      live_other_owner run.run_lease (owner_id_of owner) now ≡ false
      → acquire_run_lease run owner ttl now
        ≡ ok (record run { run_lease = some lease; run_lease_epoch = lease.fencing_token }, lease)
  unfolding acquire_run_lease
  acquire_free free = rw free

  pub lease_new :
      same_live_owner run.run_lease (owner_id_of owner) now ≡ false
      → lease.fencing_token ≡ next_fencing_token run
  unfolding new_lease
  lease_new other = rw other

  pub lease_kept :
      same_live_owner run.run_lease (owner_id_of owner) now ≡ true
      → (lease.fencing_token ≡ token_of run.run_lease) × (lease.owner_id ≡ owner_id_of owner)
  unfolding new_lease
  lease_kept same = rw same (refl, refl)

  acquire-Effect : Effect run (after run (acquire_run_lease run owner ttl now))
  acquire-Effect = elim (Bool-cases (live_other_owner run.run_lease (owner_id_of owner) now)) [
    | inl held ↦ nothing (unfold acquire_run_lease in rw held)
    | inr free ↦
        rw (acquire_free free)
          (elim (Bool-cases (same_live_owner run.run_lease (owner_id_of owner) now)) [
            | inl same ↦
                let (l, e, o) = same_live_owner_holds run.run_lease (owner_id_of owner) now same in
                let (t, i) = lease_kept same in
                let t' : lease.fencing_token ≡ l.fencing_token = t ∙ ap token_of e in
                kept l lease e refl (i ∙ sym o) t' refl t'
            | inr other ↦ given lease refl refl refl (omega (arith, lease_new other))
          ])
  ]

  renew-Effect :
      (token : Option ℕ) → Effect run (after run (renew_run_lease run owner ttl now token))
  unfolding renew_run_lease
  renew-Effect none = elim (Bool-cases (live_other_owner run.run_lease (owner_id_of owner) now)) [
    | inl held ↦ nothing (rw held)
    | inr free ↦ rw free acquire-Effect
  ]
  renew-Effect (some token) = by_assertion (assert_run_lease run (owner_id_of owner) token now)
    where
      by_assertion :
          (r : Result RunLeaseConflict Lease)
          → Effect run (after run (r >>= λ l. acquire_run_lease run owner ttl now))
      by_assertion (ok l) = acquire-Effect
      by_assertion (err e) = nothing refl

release_run_lease-Effect :
    (run : RunLeases) (owner_id : Option String) (token : Option ℕ) (now : ℕ)
    → Effect run (release_run_lease run owner_id token now).0
release_run_lease-Effect run owner_id token now = elim (Option-cases run.run_lease) [
  | inl no_lease ↦ nothing (unfold release_run_lease in ground arith)
  | inr (l, e) ↦ elim (Bool-cases (other_owner owner_id l || other_token token l)) [
    | inl other ↦ nothing (unfold release_run_lease in ground arith)
    | inr same ↦
        released l (record l { released_at = some now }) e
          (unfold release_run_lease in ground arith) (unfold release_run_lease in ground arith) refl
          (unfold release_run_lease in ground arith)
  ]
]

pub serve-Effect : (run : RunLeases) (call : Call) → Effect run (serve run call)
unfolding serve
serve-Effect run (acquire owner ttl now) = acquire-Effect run owner ttl now
serve-Effect run (renew owner ttl now token) = renew-Effect run owner ttl now token
serve-Effect run (release owner_id token now) = release_run_lease-Effect run owner_id token now

pub Effect-IsFenced : {run run' : RunLeases} → Effect run run' → IsFenced run → IsFenced run'
Effect-IsFenced (nothing e) h = subst IsFenced (sym e) h
Effect-IsFenced {run} {run'} (given l e t last le) h = record {
  current = λ m f. cc;
  last = rw last (omega (arith, h.last, next_fencing_token_above run));
}
Effect-IsFenced {run} {run'} (kept l l' e e' o t last ep) h = record {
  current = λ m f. cc;
  last = rw last (omega (arith, h.last, h.current l e));
}
Effect-IsFenced {run} {run'} (released l l' e e' last t ep) h = record {
  current = λ m f. cc;
  last = rw last (omega (arith, h.current l e));
}

-- Whatever calls are made, refused ones included, a fenced run stays fenced.
pub serve_all-IsFenced :
    (run : RunLeases) (calls : List Call) → IsFenced run → IsFenced (serve_all run calls)
unfolding serve_all
serve_all-IsFenced run [] h = h
serve_all-IsFenced run (call ∷ rest) h =
    serve_all-IsFenced (serve run call) rest (Effect-IsFenced (serve-Effect run call) h)

pub Effect-epoch :
    {run run' : RunLeases}
    → Effect run run'
    → IsFenced run
    → run.run_lease_epoch ≤ run'.run_lease_epoch
Effect-epoch (nothing e) h = rw e (le_refl _)
Effect-epoch {run} (given l e t last le) h = omega (arith, next_fencing_token_above run)
Effect-epoch (kept l l' e e' o t last ep) h = omega (arith, h.current l e)
Effect-epoch (released l l' e e' last t ep) h = omega arith

-- The epoch never goes back.
pub serve_all-epoch :
    (run : RunLeases) (calls : List Call)
    → IsFenced run
    → run.run_lease_epoch ≤ (serve_all run calls).run_lease_epoch
unfolding serve_all
serve_all-epoch run [] h = le_refl _
serve_all-epoch run (call ∷ rest) h =
    le_trans (Effect-epoch (serve-Effect run call) h)
      (serve_all-epoch (serve run call) rest (Effect-IsFenced (serve-Effect run call) h))
