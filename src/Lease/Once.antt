-- ===== src/Lease/Once.antt =====
-- An attempt is carried out by one owner at a time, and once if it is completed.
use mathlib.Core.List.{reverse, reverse-reverse, reverse-cons}
use ai_agent_workflow.Prelude.{
  ℕ, ◌+◌, ◌≡◌, ◌≢◌, refl, sym, ap, ◌∙◌, inl, inr, String, Bool, true, false, not, ◌&&◌, Option,
  none, some, List, [], ◌∷◌, ◌++◌, arith, str_eq, eq_iff, eq_refl, find, length, last?,
  last?-keep_last, length-keep_last, length-append, Bool-cases, ok, err, ok_inj, subst,
}
use ai_agent_workflow.Lease.Attempts.{
  Attempt, RunAttempts, duplicate_active, Begun, has_key, latest, change_first, change_latest,
  resume, new_attempt, attempt_limit, begin_after, begin_attempt, finished, finish_found,
  finish_attempt,
}

find-change_first :
    (key : String) (f : Attempt → Attempt) (attempts : List Attempt) (a : Attempt)
    → ((b : Attempt) → (f b).idempotency_key ≡ b.idempotency_key)
    → find (has_key key) attempts ≡ some a
    → find (has_key key) (change_first key f attempts) ≡ some (f a)
unfolding change_first
find-change_first key f [] a same h = cc
find-change_first key f (b ∷ rest) a same h = elim (Bool-cases (has_key key b)) [
  | inl e ↦
      let found : b ≡ a = cc (rw e at h) in
      let hit : has_key key (f b) ≡ true = ap (λ k. str_eq k key) (same b) ∙ e in
      rw e (rw hit (ap (λ (x : Attempt). some (f x)) found))
  | inr e ↦ rw e (rw e (find-change_first key f rest a same (rw e at h)))
]

latest-change_latest :
    (key : String) (f : Attempt → Attempt) (attempts : List Attempt) (a : Attempt)
    → ((b : Attempt) → (f b).idempotency_key ≡ b.idempotency_key)
    → latest key attempts ≡ some a
    → latest key (change_latest key f attempts) ≡ some (f a)
unfolding latest change_latest
latest-change_latest key f attempts a same h =
    rw reverse-reverse (find-change_first key f (reverse attempts) a same h)

find-append :
    (p : Attempt → Bool) (xs ys : List Attempt) (a : Attempt)
    → find p xs ≡ some a
    → find p (xs ++ ys) ≡ some a
find-append p [] ys a h = cc
find-append p (x ∷ xs) ys a h = elim (Bool-cases (p x)) [
  | inl e ↦ rw e (rw e at h)
  | inr e ↦ rw e (find-append p xs ys a (rw e at h))
]

-- The last attempt of a list is the latest one of its key.
latest_last :
    (key : String) (attempts : List Attempt) (a : Attempt)
    → last? attempts ≡ some a
    → has_key key a ≡ true
    → latest key attempts ≡ some a
unfolding latest
latest_last key [] a h k = cc
latest_last key (x ∷ []) a h k = let same : x ≡ a = cc in rw same (rw k refl)
latest_last key (x ∷ y ∷ rest) a h k =
    rw (reverse-cons x (y ∷ rest))
      (find-append (has_key key) _ _ a (latest_last key (y ∷ rest) a h k))

some_value : {x y : Attempt} → ◌≡◌ {A = Option Attempt} (some x) (some y) → x ≡ y
some_value h = cc

completed_found :
    (found : Option Attempt) (run run' : RunAttempts) (step_key key owner_id : String)
    (error : Option String) (now later : ℕ) (a : Attempt)
    → latest key run.attempts ≡ found
    → finish_found found run key "completed" error now ≡ (run', some a)
    → begin_after (latest key run'.attempts) run' step_key key owner_id later
      ≡ ok (run', Begun.duplicate_completed a)
unfolding finish_found begin_after
completed_found none run run' step_key key owner_id error now later a l h =
    cc (ap (λ (q : RunAttempts × Option Attempt). q.1) h)
completed_found (some b) run run' step_key key owner_id error now later a l h =
    let done : Attempt → Attempt = finished "completed" error now in
    let same : done b ≡ a = some_value (ap (λ (q : RunAttempts × Option Attempt). q.1) h) in
    let latest_done : latest key (change_latest key done run.attempts) ≡ some (done b) =
      latest-change_latest key done run.attempts b (λ x. refl) l in
    subst
      (λ (r : RunAttempts).
        begin_after (latest key r.attempts) r step_key key owner_id later
        ≡ ok (r, Begun.duplicate_completed a))
      (ap (λ (q : RunAttempts × Option Attempt). q.0) h)
      (rw latest_done (
        ap
          (λ x.
            ok (
              (finish_found (some b) run key "completed" error now).0,
              Begun.duplicate_completed x,
            ))
          same))

-- Whoever begins an attempt that was finished as completed gets it back as a duplicate, and the run
-- stays as it was.
pub completed_once :
    (run run' : RunAttempts) (step_key key owner_id : String) (error : Option String)
    (now later : ℕ) (a : Attempt)
    → finish_attempt run key "completed" error now ≡ (run', some a)
    → begin_attempt run' step_key key owner_id later ≡ ok (run', Begun.duplicate_completed a)
unfolding finish_attempt begin_attempt
completed_once run run' step_key key owner_id error now later a h =
    completed_found (latest key run.attempts) run run' step_key key owner_id error now later a refl
      h

abbrev pub is_duplicate : Begun → Bool
is_duplicate (Begun.duplicate_completed a) = true
is_duplicate _ = false

-- What a begun attempt leaves as the latest of its key.
IsRunning : String → String → RunAttempts → Type 0
IsRunning key owner_id run =
    (a : Attempt) × (latest key run.attempts ≡ some a)
    × (a.status ≡ "running")
    × (a.owner_id ≡ owner_id)

begun_found :
    (found : Option Attempt) (run run' : RunAttempts) (step_key key owner_id : String) (now : ℕ)
    (begun : Begun)
    → latest key run.attempts ≡ found
    → begin_after found run step_key key owner_id now ≡ ok (run', begun)
    → is_duplicate begun ≡ false
    → IsRunning key owner_id run'
unfolding begin_after IsRunning
begun_found none run run' step_key key owner_id now begun l h fresh =
    let a : Attempt = new_attempt run step_key key owner_id now in
    subst (IsRunning key owner_id) (ap (λ (q : RunAttempts × Begun). q.0) (ok_inj h)) (
      a,
      latest_last key _ a (last?-keep_last attempt_limit run.attempts a (omega arith))
          (eq_refl key),
      refl,
      refl,
    )
begun_found (some a) run run' step_key key owner_id now begun l h fresh =
    elim (Bool-cases (str_eq a.status "running" && not (str_eq a.owner_id owner_id))) [
      | inl e ↦ cc (rw e at h)
      | inr e ↦ elim (Bool-cases (str_eq a.status "completed")) [
        | inl c ↦
            cc (ap (λ (q : RunAttempts × Begun). is_duplicate q.1) (ok_inj (rw (e, c) at h)), fresh)
        | inr c ↦
            subst (IsRunning key owner_id)
              (ap (λ (q : RunAttempts × Begun). q.0) (ok_inj (rw (e, c) at h)))
              (
                resume owner_id now a,
                latest-change_latest key (resume owner_id now) run.attempts a (λ x. refl) l,
                refl,
                refl,
              )
      ]
    ]

running_excludes :
    (a : Attempt) (run : RunAttempts) (step_key key other : String) (later : ℕ)
    → a.status ≡ "running"
    → a.owner_id ≢ other
    → begin_after (some a) run step_key key other later ≡ err (duplicate_active step_key)
unfolding begin_after
running_excludes a run step_key key other later s ne =
    let differs : str_eq a.owner_id other ≡ false = ground (arith, eq_iff a.owner_id other) in
    let active : str_eq a.status "running" ≡ true = (eq_iff a.status "running").1 s in
    rw (active, differs) refl

-- Once an attempt is begun, and not as the duplicate of a completed one, a call for the same key by
-- another owner is refused, whatever step and time it names.
pub begun_excludes :
    (run run' : RunAttempts) (step_key key owner_id step_key' other : String) (now later : ℕ)
    (begun : Begun)
    → begin_attempt run step_key key owner_id now ≡ ok (run', begun)
    → is_duplicate begun ≡ false
    → owner_id ≢ other
    → begin_attempt run' step_key' key other later ≡ err (duplicate_active step_key')
unfolding begin_attempt IsRunning
begun_excludes run run' step_key key owner_id step_key' other now later begun h fresh ne =
    let (a, l, s, o) : IsRunning key owner_id run' =
      begun_found (latest key run.attempts) run run' step_key key owner_id now begun refl h fresh in
    rw l (running_excludes a run' step_key' key other later s (λ e. ne (sym o ∙ e)))

-- In a run that holds the most attempts it can, a call for a new key leaves as many attempts again,
-- and the active attempt is number 201: all attempts from the 201st on have the same id.
pub full_number_repeats :
    (run run' : RunAttempts) (step_key key owner_id : String) (now : ℕ) (begun : Begun)
    → length run.attempts ≡ attempt_limit
    → latest key run.attempts ≡ none
    → begin_attempt run step_key key owner_id now ≡ ok (run', begun)
    → (length run'.attempts ≡ attempt_limit) × (run'.active_attempt ≡ some 201)
unfolding begin_attempt begin_after
full_number_repeats run run' step_key key owner_id now begun full new h =
    let a : Attempt = new_attempt run step_key key owner_id now in
    let number : a.number ≡ 201 = ap (λ n. n + 1) full in
    let many : length (run.attempts ++ a ∷ []) ≡ length run.attempts + 1 =
      length-append run.attempts (a ∷ []) in
    subst (λ (r : RunAttempts). (length r.attempts ≡ attempt_limit) × (r.active_attempt ≡ some 201))
      (ap (λ (q : RunAttempts × Begun). q.0) (ok_inj (rw new at h)))
      (omega (arith, length-keep_last attempt_limit (run.attempts ++ a ∷ [])), ap some number)
