-- ===== src/Lease/Holding.antt =====
-- Who holds the lease of a run, from when and until when.
use ai_agent_workflow.Prelude.{
  ℕ, ◌+◌, ◌≤◌, ◌<◌, String, ◌≡◌, refl, sym, ap, ◌∙◌, ◌≢◌, inl, inr, true, false, not, ◌&&◌, none,
  some, arith, str_eq, eq_iff, leb, Bool-cases, ok, err, ok_inj,
}
use ai_agent_workflow.Lease.Tokens.{
  Owner, owner_id_of, Lease, RunLeases, held_by, lease_is_expired, token_of, live_other_owner,
  same_live_owner, holder, acquired_at_of, new_lease, acquire_run_lease, assert_lease,
  assert_run_lease, renew_run_lease,
}
use ai_agent_workflow.Lease.Calls.{acquire_free, lease_new, lease_kept, next_fencing_token_above}

acquire_busy :
    (run : RunLeases) (owner : Owner) (ttl now : ℕ)
    → live_other_owner run.run_lease (owner_id_of owner) now ≡ true
    → acquire_run_lease run owner ttl now ≡ err (held_by (holder run.run_lease))
unfolding acquire_run_lease
acquire_busy run owner ttl now busy = rw busy

renew_busy :
    (run : RunLeases) (owner : Owner) (ttl now : ℕ)
    → live_other_owner run.run_lease (owner_id_of owner) now ≡ true
    → renew_run_lease run owner ttl now none ≡ err (held_by (holder run.run_lease))
unfolding renew_run_lease
renew_busy run owner ttl now busy = rw busy

assert_passes :
    (run : RunLeases) (id : String) (now : ℕ) (l : Lease)
    → run.run_lease ≡ some l
    → l.owner_id ≡ id
    → lease_is_expired (some l) now ≡ false
    → assert_run_lease run id l.fencing_token now ≡ ok l
unfolding assert_run_lease assert_lease
assert_passes run id now l held mine alive =
    rw (held, alive, (eq_iff l.owner_id id).1 mine) (ground arith)

renew_passes :
    (run : RunLeases) (owner : Owner) (ttl now token : ℕ) (l : Lease)
    → assert_run_lease run (owner_id_of owner) token now ≡ ok l
    → renew_run_lease run owner ttl now (some token) ≡ acquire_run_lease run owner ttl now
unfolding renew_run_lease
renew_passes run owner ttl now token l pass = rw pass

lease_keeps_time :
    (run : RunLeases) (owner : Owner) (ttl now : ℕ)
    → same_live_owner run.run_lease (owner_id_of owner) now ≡ true
    → (new_lease run owner ttl now).acquired_at ≡ acquired_at_of run.run_lease
unfolding new_lease
lease_keeps_time run owner ttl now same = rw same

-- What an acquisition that returns has written.
acquired :
    (run run' : RunLeases) (owner : Owner) (ttl now : ℕ) (l : Lease)
    → acquire_run_lease run owner ttl now ≡ ok (run', l)
    → (run'.run_lease ≡ some l)
      × (l.owner_id ≡ owner_id_of owner)
      × (l.expires_at ≡ some (now + ttl))
      × (run'.run_lease_epoch ≡ l.fencing_token)
unfolding new_lease
acquired run run' owner ttl now l h =
    elim (Bool-cases (live_other_owner run.run_lease (owner_id_of owner) now)) [
      | inl held ↦ cc (acquire_busy run owner ttl now held, h)
      | inr free ↦
          let e : (
            record run {
              run_lease = some (new_lease run owner ttl now);
              run_lease_epoch = (new_lease run owner ttl now).fencing_token;
            },
            new_lease run owner ttl now,
          )
              ≡ (run', l) =
            ok_inj (sym (acquire_free run owner ttl now free) ∙ h) in
          (
            ap (λ (p : RunLeases × Lease). p.0.run_lease) (sym e)
                ∙ ap (λ (p : RunLeases × Lease). some p.1) e,
            ap (λ (p : RunLeases × Lease). p.1.owner_id) (sym e),
            ap (λ (p : RunLeases × Lease). p.1.expires_at) (sym e),
            ap (λ (p : RunLeases × Lease). p.0.run_lease_epoch) (sym e)
                ∙ ap (λ (p : RunLeases × Lease). p.1.fencing_token) e,
          )
    ]

live-is_expired :
    (l : Lease) (t u : ℕ) → l.expires_at ≡ some t → lease_is_expired (some l) u ≡ leb t u
unfolding lease_is_expired
live-is_expired l t u e = rw e

-- The tests of a call at time u, on a lease that expires at time t.
module _ (run : RunLeases) (l : Lease) (t u : ℕ) (id : String) (held : run.run_lease ≡ some l)
    (until : l.expires_at ≡ some t) where
  live_other-eq :
      live_other_owner run.run_lease id u ≡ (not (leb t u) && not (str_eq l.owner_id id))
  live_other-eq = rw held (rw (live-is_expired l t u until))

  same_live-eq : same_live_owner run.run_lease id u ≡ (not (leb t u) && str_eq l.owner_id id)
  same_live-eq = rw held (rw (live-is_expired l t u until))

early_not_leb : (t u : ℕ) → u < t → leb t u ≡ false
early_not_leb t u h = ground arith

module _ (run run' : RunLeases) (owner : Owner) (ttl now : ℕ) (l : Lease)
    (got : acquire_run_lease run owner ttl now ≡ ok (run', l)) where
  -- From an acquisition at time now until the lease expires, ttl later, no other owner can acquire
  -- it or renew it without a token, and its holder passes the assertion with its token.
  pub lease_excludes :
      (other : Owner) (ttl' u : ℕ)
      → u < now + ttl
      → owner_id_of owner ≢ owner_id_of other
      → (acquire_run_lease run' other ttl' u ≡ err (held_by (owner_id_of owner)))
        × (renew_run_lease run' other ttl' u none ≡ err (held_by (owner_id_of owner)))
        × (assert_run_lease run' (owner_id_of owner) l.fencing_token u ≡ ok l)
  lease_excludes other ttl' u early ne =
      let (held, id, until, ep) = acquired run run' owner ttl now l got in
      let named : str_eq l.owner_id (owner_id_of other) ≡ false =
        ground (arith, eq_iff l.owner_id (owner_id_of other)) in
      let in_time : leb (now + ttl) u ≡ false = early_not_leb (now + ttl) u early in
      let busy : live_other_owner run'.run_lease (owner_id_of other) u ≡ true =
        live_other-eq run' l (now + ttl) u (owner_id_of other) held until ∙ rw (in_time, named) in
      let name : holder run'.run_lease ≡ owner_id_of owner = rw held id in
      (
        acquire_busy run' other ttl' u busy ∙ ap (λ n. err (held_by n)) name,
        renew_busy run' other ttl' u busy ∙ ap (λ n. err (held_by n)) name,
        assert_passes run' (owner_id_of owner) u l held id
            (live-is_expired l (now + ttl) u until ∙ in_time),
      )

  -- From an acquisition at time now until the lease expires, ttl later, its holder renews
  -- it with its token: the token and the time of the acquisition stay, and the lease then lasts for
  -- the new lifetime from that moment.
  pub lease_renews :
      (ttl' u : ℕ)
      → u < now + ttl
      → let l' = new_lease run' owner ttl' u in
        (renew_run_lease run' owner ttl' u (some l.fencing_token)
          ≡ ok (record run' { run_lease = some l'; run_lease_epoch = l.fencing_token }, l'))
        × (l'.fencing_token ≡ l.fencing_token)
        × (l'.acquired_at ≡ l.acquired_at)
        × (l'.expires_at ≡ some (u + ttl'))
  lease_renews ttl' u early =
      let (held, id, until, ep) = acquired run run' owner ttl now l got in
      let in_time : leb (now + ttl) u ≡ false = early_not_leb (now + ttl) u early in
      let mine : str_eq l.owner_id (owner_id_of owner) ≡ true =
        (eq_iff l.owner_id (owner_id_of owner)).1 id in
      let free : live_other_owner run'.run_lease (owner_id_of owner) u ≡ false =
        live_other-eq run' l (now + ttl) u (owner_id_of owner) held until ∙ rw (in_time, mine) in
      let same : same_live_owner run'.run_lease (owner_id_of owner) u ≡ true =
        same_live-eq run' l (now + ttl) u (owner_id_of owner) held until ∙ rw (in_time, mine) in
      let kept : (new_lease run' owner ttl' u).fencing_token ≡ l.fencing_token =
        (lease_kept run' owner ttl' u same).0 ∙ ap token_of held in
      (
        renew_passes run' owner ttl' u l.fencing_token l (
              assert_passes run' (owner_id_of owner) u l held id
                (live-is_expired l (now + ttl) u until ∙ in_time))
            ∙ acquire_free run' owner ttl' u free
            ∙ ap
                (λ e. ok (
                  record run' {
                    run_lease = some (new_lease run' owner ttl' u);
                    run_lease_epoch = e;
                  },
                  new_lease run' owner ttl' u,
                ))
                kept,
        kept,
        lease_keeps_time run' owner ttl' u same ∙ ap acquired_at_of held,
        (unfold new_lease in refl),
      )

  -- When the lease of an acquisition at time now has expired, ttl later, any owner can acquire it,
  -- and gets a later token.
  pub lease_taken_over :
      (other : Owner) (ttl' u : ℕ)
      → now + ttl ≤ u
      → let l' = new_lease run' other ttl' u in
        (acquire_run_lease run' other ttl' u
          ≡ ok (record run' { run_lease = some l'; run_lease_epoch = l'.fencing_token }, l'))
        × (l.fencing_token < l'.fencing_token)
        × (l'.acquired_at ≡ some u)
  lease_taken_over other ttl' u late =
      let (held, id, until, ep) = acquired run run' owner ttl now l got in
      let gone : leb (now + ttl) u ≡ true = ground arith in
      let free : live_other_owner run'.run_lease (owner_id_of other) u ≡ false =
        live_other-eq run' l (now + ttl) u (owner_id_of other) held until ∙ rw gone in
      let fresh : same_live_owner run'.run_lease (owner_id_of other) u ≡ false =
        same_live-eq run' l (now + ttl) u (owner_id_of other) held until ∙ rw gone in
      (
        acquire_free run' other ttl' u free,
        omega (arith, lease_new run' other ttl' u fresh, next_fencing_token_above run'),
        (unfold new_lease in rw fresh),
      )
