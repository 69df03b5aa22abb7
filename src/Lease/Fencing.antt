-- ===== src/Lease/Fencing.antt =====
-- Fencing tokens, under any sequence of calls.
use ai_agent_workflow.Prelude.{
  ℕ, ◌<◌, String, ◌≡◌, sym, ◌∙◌, ◌≢◌, ◌⊎◌, inl, inr, false, Option, none, some, List, [], ◌∷◌,
  arith, eq_iff, ok, subst,
}
use ai_agent_workflow.Lease.Tokens.{
  Lease, RunLeases, lease_is_expired, assert_lease, assert_run_lease,
}
use ai_agent_workflow.Lease.Calls.{
  IsFenced, Call, serve, serve_all, Effect, nothing, given, kept, released,
  next_fencing_token_above, serve-Effect, Effect-IsFenced, serve_all-IsFenced, Effect-epoch,
  serve_all-epoch,
}

assert_lease_checked :
    (current : Option Lease) (owner_id : String) (token now : ℕ) (l : Lease)
    → assert_lease current owner_id token now ≡ ok l
    → (current ≡ some l)
      × (l.owner_id ≡ owner_id)
      × (l.fencing_token ≡ token)
      × (lease_is_expired (some l) now ≡ false)
unfolding assert_lease
assert_lease_checked none owner_id token now l h = cc
assert_lease_checked (some k) owner_id token now l h = ground (arith, eq_iff k.owner_id owner_id)

-- What an assertion that returns has checked.
pub assert_run_lease_checked :
    (run : RunLeases) (owner_id : String) (token now : ℕ) (l : Lease)
    → assert_run_lease run owner_id token now ≡ ok l
    → (run.run_lease ≡ some l)
      × (l.owner_id ≡ owner_id)
      × (l.fencing_token ≡ token)
      × (lease_is_expired (some l) now ≡ false)
unfolding assert_run_lease
assert_run_lease_checked run owner_id token now l h =
    assert_lease_checked run.run_lease owner_id token now l h

-- In a fenced run, once a token is behind the epoch, no assertion with it returns, whatever calls
-- are made, by whom and at what time.
pub token_superseded :
    (run : RunLeases) (calls : List Call) (owner_id : String) (token now : ℕ) (l : Lease)
    → IsFenced run
    → token < run.run_lease_epoch
    → assert_run_lease (serve_all run calls) owner_id token now ≢ ok l
token_superseded run calls owner_id token now l h behind e =
    let (held, o, t, x) = assert_run_lease_checked (serve_all run calls) owner_id token now l e in
    absurd
      (omega (arith, serve_all-epoch run calls h, (serve_all-IsFenced run calls h).current l held))

-- The token is out of date, or belongs to that owner.
abbrev OwnedBy : String → ℕ → RunLeases → Type 0
OwnedBy owner_id token run =
    (token < run.run_lease_epoch)
    ⊎ ((run.run_lease_epoch ≡ token)
        × ((l : Lease) → run.run_lease ≡ some l → l.owner_id ≡ owner_id))

Effect-OwnedBy :
    (owner_id : String) (token : ℕ) {run run' : RunLeases}
    → Effect run run'
    → IsFenced run
    → OwnedBy owner_id token run
    → OwnedBy owner_id token run'
Effect-OwnedBy owner_id token ef h (inl behind) = inl (omega (arith, Effect-epoch ef h))
Effect-OwnedBy owner_id token (nothing e) h (inr o) = subst (OwnedBy owner_id token) (sym e) (inr o)
Effect-OwnedBy owner_id token {run} (given l e t last le) h (inr (now, o)) =
    inl (omega (arith, next_fencing_token_above run))
Effect-OwnedBy owner_id token (kept l l' e e' same t last ep) h (inr (now, o)) =
    inr (omega (arith, h.current l e), λ m f. cc (o l e))
Effect-OwnedBy owner_id token (released l l' e e' last t ep) h (inr (now, o)) =
    inr (ep ∙ now, λ m f. cc)

serve_all-OwnedBy :
    (owner_id : String) (token : ℕ) (run : RunLeases) (calls : List Call)
    → IsFenced run
    → OwnedBy owner_id token run
    → OwnedBy owner_id token (serve_all run calls)
unfolding serve_all
serve_all-OwnedBy owner_id token run [] h o = o
serve_all-OwnedBy owner_id token run (call ∷ rest) h o =
    let ef : Effect run (serve run call) = serve-Effect run call in
    serve_all-OwnedBy owner_id token (serve run call) rest (Effect-IsFenced ef h)
      (Effect-OwnedBy owner_id token ef h o)

-- In a fenced run, a token that an assertion accepts for one owner is never accepted for another,
-- whatever calls are made in between and at what times.
pub token_names_owner :
    (run : RunLeases) (calls : List Call) (a b : String) (token now later : ℕ) (l m : Lease)
    → IsFenced run
    → assert_run_lease run a token now ≡ ok l
    → assert_run_lease (serve_all run calls) b token later ≡ ok m
    → b ≡ a
token_names_owner run calls a b token now later l m h first second =
    let (held, o, t, x) = assert_run_lease_checked run a token now l first in
    let (held', o', t', x') =
      assert_run_lease_checked (serve_all run calls) b token later m second in
    let at_first : OwnedBy a token run = inr (omega (arith, h.current l held), λ k f. cc) in
    elim (serve_all-OwnedBy a token run calls h at_first) [
      | inl behind ↦ absurd (omega (arith, (serve_all-IsFenced run calls h).current m held'))
      | inr (now, same) ↦ sym o' ∙ same m held'
    ]
