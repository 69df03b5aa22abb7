-- ===== src/Lease/Examples.antt =====
-- Two controllers and one run.
use ai_agent_workflow.Prelude.{
  ◌≤◌, ◌<◌, ◌≡◌, ◌≢◌, refl, some, none, List, [], ◌∷◌, arith, ok, err, eq_iff, false≢true,
}
use ai_agent_workflow.Lease.Lifetimes.{unparsable, lease_ttl_seconds, ttl_or}
use ai_agent_workflow.Lease.Tokens.{
  Owner, owner_id_of, Lease, RunLeases, held_by, lease_is_expired, next_fencing_token, new_lease,
  acquire_run_lease, assert_lease, assert_run_lease, renew_run_lease,
}
use ai_agent_workflow.Lease.Calls.{IsFenced, Call, serve, serve_all}
use ai_agent_workflow.Lease.Fencing.{token_superseded, token_names_owner}
use ai_agent_workflow.Lease.Attempts.{
  Attempt, RunAttempts, Begun, attempt_limit, latest, change_latest, change_first, begin_after,
  begin_attempt, finish_found, finish_attempt,
}
use ai_agent_workflow.Lease.Once.{completed_once, full_number_repeats}
use ai_agent_workflow.Prelude.{ℕ, String, zero, suc, ◌++◌, length}
use ai_agent_workflow.Lease.Holding.{lease_excludes, lease_taken_over}

abbrev first : Owner
first = record { instance_id = some "controller-1"; id = none; pid = none }

abbrev second : Owner
second = record { instance_id = none; id = some "controller-2"; pid = some "77" }

abbrev unleased : RunLeases
unleased = record { run_lease = none; last_run_lease = none; run_lease_epoch = 0 }

abbrev first_lease : Lease
first_lease = record {
  owner_id = "controller-1";
  owner = first;
  acquired_at = some 100;
  heartbeat_at = some 100;
  expires_at = some 190;
  ttl_sec = 90;
  fencing_token = 1;
  released_at = none;
}

abbrev leased : RunLeases
leased = record { run_lease = some first_lease; last_run_lease = none; run_lease_epoch = 1 }

first_gets : acquire_run_lease unleased first 90 100 ≡ ok (leased, first_lease)
unfolding acquire_run_lease new_lease owner_id_of next_fencing_token
first_gets = refl

leased-IsFenced : IsFenced leased
leased-IsFenced = record { current = λ l e. cc; last = omega arith }

first_asserts : assert_run_lease leased "controller-1" 1 150 ≡ ok first_lease
unfolding assert_run_lease assert_lease lease_is_expired
first_asserts = refl

-- A heartbeat, then a controller that comes too early.
abbrev some_calls : List Call
some_calls = Call.renew first 90 150 (some 1) ∷ Call.acquire second 90 160 ∷ []

token_superseded_example :
    assert_run_lease (serve_all leased some_calls) "controller-0" 0 170 ≢ ok first_lease
token_superseded_example =
    token_superseded leased some_calls "controller-0" 0 170 first_lease leased-IsFenced
      (omega arith)

abbrev renewed_lease : Lease
renewed_lease = record first_lease { heartbeat_at = some 150; expires_at = some 240 }

still_asserts :
    assert_run_lease (serve_all leased some_calls) "controller-1" 1 200 ≡ ok renewed_lease
unfolding serve_all serve assert_run_lease assert_lease lease_is_expired renew_run_lease
    acquire_run_lease new_lease owner_id_of
still_asserts = refl

token_names_owner_example : first_lease.owner_id ≡ first_lease.owner_id
token_names_owner_example =
    token_names_owner leased some_calls "controller-1" "controller-1" 1 150 200 first_lease
      renewed_lease leased-IsFenced first_asserts still_asserts

two_ids : owner_id_of first ≢ owner_id_of second
unfolding owner_id_of
two_ids e = false≢true ((eq_iff "controller-1" "controller-2").1 e)

lease_excludes_example :
    (acquire_run_lease leased second 90 189 ≡ err (held_by (owner_id_of first)))
    × (renew_run_lease leased second 90 189 none ≡ err (held_by (owner_id_of first)))
    × (assert_run_lease leased (owner_id_of first) first_lease.fencing_token 189 ≡ ok first_lease)
lease_excludes_example =
    lease_excludes unleased leased first 90 100 first_lease first_gets second 90 189 (omega arith)
      two_ids

lease_taken_over_example :
    let l' = new_lease leased second 60 190 in
    (acquire_run_lease leased second 60 190
      ≡ ok (record leased { run_lease = some l'; run_lease_epoch = l'.fencing_token }, l'))
    × (first_lease.fencing_token < l'.fencing_token)
    × (l'.acquired_at ≡ some 190)
lease_taken_over_example =
    lease_taken_over unleased leased first 90 100 first_lease first_gets second 60 190 (omega arith)

ninety : 3 ≤ ttl_or 0 (lease_ttl_seconds unparsable)
unfolding lease_ttl_seconds
ninety = omega arith

abbrev attempt : String → Attempt
attempt key = record {
  number = 1;
  step_key = "code";
  idempotency_key = key;
  owner_id = "controller-1";
  status = "running";
  started_at = 100;
  resumed_at = none;
  ended_at = none;
  error = none;
}

abbrev no_attempts : RunAttempts
no_attempts = record { attempts = []; active_attempt = none }

abbrev one_attempt : RunAttempts
one_attempt = record { attempts = attempt "k1" ∷ []; active_attempt = some 1 }

abbrev done_attempt : Attempt
done_attempt = record (attempt "k1") { status = "completed"; ended_at = some 120 }

abbrev one_done : RunAttempts
one_done = record { attempts = done_attempt ∷ []; active_attempt = none }

begins :
    begin_attempt no_attempts "code" "k1" "controller-1" 100
    ≡ ok (one_attempt, Begun.started (attempt "k1"))
unfolding begin_attempt begin_after latest
begins = refl

finishes : finish_attempt one_attempt "k1" "completed" none 120 ≡ (one_done, some done_attempt)
unfolding finish_attempt finish_found latest change_latest change_first
finishes = refl

completed_once_example :
    begin_attempt one_done "code" "k1" "controller-2" 130
    ≡ ok (one_done, Begun.duplicate_completed done_attempt)
completed_once_example =
    completed_once one_attempt one_done "code" "k1" "controller-2" none 120 130 done_attempt
      finishes

abbrev other_id : String
other_id = "controller-2"

others : (attempt "k1").owner_id ≢ other_id
others e = false≢true ((eq_iff "controller-1" "controller-2").1 e)

abbrev copies : ℕ → List Attempt
copies zero = []
copies (suc n) = attempt "k1" ∷ copies n

abbrev full_run : RunAttempts
full_run = record { attempts = copies 200; active_attempt = some 200 }

abbrev next_run : RunAttempts
next_run = record {
  attempts = copies 199 ++ record (attempt "k2") { number = 201 } ∷ [];
  active_attempt = some 201;
}

full : length full_run.attempts ≡ 200
full = refl

new_key : latest "k2" full_run.attempts ≡ none
unfolding latest
new_key = refl

begins_next :
    begin_attempt full_run "code" "k2" "controller-1" 100
    ≡ ok (next_run, Begun.started (record (attempt "k2") { number = 201 }))
unfolding begin_attempt begin_after latest
begins_next = refl

full_number_repeats_example :
    (length next_run.attempts ≡ attempt_limit) × (next_run.active_attempt ≡ some 201)
full_number_repeats_example =
    full_number_repeats full_run next_run "code" "k2" "controller-1" 100
      (Begun.started (record (attempt "k2") { number = 201 })) full new_key begins_next
