-- ===== src/Retry/Repeats.antt =====
-- The same failure again and again, without progress, is not retried as it is for ever.
use ai_agent_workflow.Prelude.Members.{All-reverse}
use mathlib.Core.List.{reverse, reverse-cons, reverse-append, append_assoc, append-nil}
use ai_agent_workflow.Prelude.{
  ℕ, zero, suc, ◌+◌, ◌-◌, ◌≤◌, String, ◌≡◌, refl, sym, ap, ◌∙◌, inl, inr, Bool, true, false, not,
  ◌&&◌, Option, some, List, [], ◌∷◌, ◌++◌, arith, str_eq, eq_refl, if◌then◌else◌, or_else,
  truthy_or, drop, length, length-append, drop-append, All, All-append, Bool-cases, &&-split, subst,
}
use ai_agent_workflow.Retry.Records.{
  Attempt, or_text, is_text, history_limit, task_of, Judgement, GuardedRun, Entry, Failed,
}
use ai_agent_workflow.Retry.Guard.{
  count_loop, scope_of, class_of, current_signature, new_entry, recorded, attempt_of,
  record_failure_attempt,
}
use ai_agent_workflow.Retry.Decide.{
  HardReason, Limits, is_retry, hard_reason, soft_reason, decision, soft_decision,
  should_stop_retry,
}

or_text_self : (s : String) → is_text (or_text (some s) (some s)) s ≡ true
or_text_self s = elim (Bool-cases (str_eq s "")) [
  | inl e ↦ rw e (eq_refl s)
  | inr e ↦ rw e (eq_refl s)
]

truthy_or_self : (s : String) → truthy_or (some s) s ≡ s
truthy_or_self s = elim (Bool-cases (str_eq s "")) [ inl e ↦ rw e refl | inr e ↦ rw e refl ]

pair_above :
    (b : Bool) (same n : ℕ) (later : ℕ × ℕ)
    → same ≤ later.0
    → same ≤ (if b then (same, n) else later).0
pair_above true same n later h = omega arith
pair_above false same n later h = h

bump_above : (b : Bool) (n : ℕ) → n ≤ (if b then n + 1 else n)
bump_above b n = ground arith

length-reverse : {A : Type 0} (xs : List A) → length (reverse xs) ≡ length xs
length-reverse [] = refl
length-reverse (x ∷ xs) =
    rw (reverse-cons x xs) (omega (arith, length-append (reverse xs) (x ∷ []), length-reverse xs))

module _ {Snapshot : Type 0} (judge : Judgement Snapshot) (f : Failed Snapshot) where
  -- An entry of the same failure, with the same state of the project.
  abbrev repeats : Entry Snapshot → Bool
  repeats item =
      scope_of judge f item
      && (is_text item.fingerprint (judge.fingerprint f.error)
          && str_eq (or_else item.progress_signature "") (current_signature judge f))

  new_entry-repeats : (history : List (Entry Snapshot)) → repeats (new_entry judge history f) ≡ true
  new_entry-repeats history =
      rw
        (
          or_text_self f.step_key,
          truthy_or_self (class_of judge f),
          eq_refl (task_of f.task_id),
          eq_refl (class_of judge f),
          eq_refl (judge.fingerprint f.error),
          eq_refl (current_signature judge f),
        )
        refl

  abbrev loop : List (Entry Snapshot) → ℕ → ℕ → ℕ × ℕ
  loop =
      count_loop judge.is_no_file_change (scope_of judge f) (current_signature judge f)
        (judge.fingerprint f.error)

  loop_above :
      (items : List (Entry Snapshot)) (same no_change : ℕ) → same ≤ (loop items same no_change).0
  unfolding count_loop
  loop_above [] same no_change = omega arith
  loop_above (item ∷ rest) same no_change =
      let same' : ℕ =
        if scope_of judge f item && is_text item.fingerprint (judge.fingerprint f.error)
        then same + 1
        else same in
      let no_change' : ℕ =
        if scope_of judge f item && judge.is_no_file_change (or_else item.message "")
        then no_change + 1
        else no_change in
      let up : same ≤ (loop rest same' no_change').0 = omega (
        arith,
        loop_above rest same' no_change',
        bump_above (scope_of judge f item && is_text item.fingerprint (judge.fingerprint f.error))
            same,
      ) in
      pair_above
        (scope_of judge f item
          && not (str_eq (or_else item.progress_signature "") (current_signature judge f)))
        same no_change (loop rest same' no_change') up

  loop_counts :
      (items rest : List (Entry Snapshot)) (same no_change : ℕ)
      → All (λ item. repeats item ≡ true) items
      → same + length items ≤ (loop (items ++ rest) same no_change).0
  unfolding count_loop
  loop_counts [] rest same no_change h = omega (arith, loop_above rest same no_change)
  loop_counts (item ∷ items) rest same no_change h =
      let (s, t) = &&-split (scope_of judge f item) _ h.0 in
      let (fp, sig) = &&-split (is_text item.fingerprint (judge.fingerprint f.error)) _ t in
      let k =
        loop_counts items rest (same + 1)
          (if judge.is_no_file_change (or_else item.message "") then no_change + 1 else no_change)
          h.1 in
      rw (s, fp, sig) (omega (arith, k))

  -- The last entries of a history repeat the failure.
  record EndsRepeating (n : ℕ) (history : List (Entry Snapshot)) : Type 0 where
    before : List (Entry Snapshot)
    last : List (Entry Snapshot)
    split : history ≡ before ++ last
    all : All (λ item. repeats item ≡ true) last
    many : length last ≡ n

  recorded_ends :
      (n : ℕ) (run : GuardedRun Snapshot)
      → n + 1 ≤ 200
      → EndsRepeating n run.history
      → EndsRepeating (n + 1) (recorded judge run f).history
  unfolding recorded
  recorded_ends n run small e =
      let entry : Entry Snapshot = new_entry judge run.history f in
      let last' : List (Entry Snapshot) = e.last ++ entry ∷ [] in
      let k : ℕ = length (run.history ++ entry ∷ []) - history_limit in
      let joined : run.history ++ entry ∷ [] ≡ e.before ++ last' =
        ap (λ l. l ++ entry ∷ []) e.split ∙ append_assoc e.before e.last (entry ∷ []) in
      record {
        before = drop k e.before;
        last = last';
        split =
            ap (drop k) joined
            ∙ drop-append k e.before last' (
                omega (
                  arith,
                  length-append run.history (entry ∷ []),
                  ap length e.split,
                  length-append e.before e.last,
                  e.many,
                ));
        all =
            All-append (λ item. repeats item ≡ true) e.last (entry ∷ []) e.all
              (new_entry-repeats run.history, tt);
        many = omega (arith, length-append e.last (entry ∷ []), e.many);
      }

  -- How often the guard sees the failure.
  ends_counted :
      (n : ℕ) (history : List (Entry Snapshot))
      → EndsRepeating n history
      → n ≤ (loop (reverse history) 0 0).0
  ends_counted n history e =
      let flipped : reverse history ≡ reverse e.last ++ reverse e.before =
        ap reverse e.split ∙ reverse-append e.before e.last in
      rw flipped (
        omega (
          arith,
          length-reverse e.last,
          e.many,
          loop_counts (reverse e.last) (reverse e.before) 0 0
              (All-reverse (λ item. repeats item ≡ true) e.last e.all),
        ))

  module _ (limits : Limits) where
    -- The run after the same failure n times.
    pub repeated : GuardedRun Snapshot → ℕ → GuardedRun Snapshot
    repeated run zero = run
    repeated run (suc n) = (should_stop_retry judge limits (repeated run n) f).0

    repeated_ends :
        (run : GuardedRun Snapshot) (n : ℕ) → n ≤ 200 → EndsRepeating n (repeated run n).history
    unfolding repeated should_stop_retry record_failure_attempt
    repeated_ends run zero small = record {
      before = run.history;
      last = [];
      split = sym (append-nil run.history);
      all = tt;
      many = refl;
    }
    repeated_ends run (suc n) small =
        subst (λ k. EndsRepeating k (repeated run (suc n)).history) (omega arith)
          (recorded_ends n (repeated run n) (omega arith) (repeated_ends run n (omega arith)))

    soft_not_retry :
        (scope : String) (hard : Option HardReason) (a : Attempt)
        → limits.repeated_failure ≤ a.same_failure_count
        → is_retry (decision scope hard (soft_reason limits a)) ≡ false
    unfolding decision soft_decision soft_reason
    soft_not_retry scope hard a h = ground arith

    -- The same failure n + 1 times in a row, with the same state of the project and from any run,
    -- stops the run or rotates the session of the agent at the last of them, if n + 1 is at least the
    -- limit for repeated failures and at most the length of the history that is kept.
    pub repeats_are_noticed :
        (run : GuardedRun Snapshot) (n : ℕ)
        → limits.repeated_failure ≤ n + 1
        → n + 1 ≤ 200
        → is_retry (should_stop_retry judge limits (repeated run n) f).1 ≡ false
    unfolding should_stop_retry record_failure_attempt attempt_of
    repeats_are_noticed run n enough small = soft_not_retry _ (hard_reason _) _ (
        omega (
          arith,
          ends_counted (n + 1) _
              (recorded_ends n (repeated run n) small (repeated_ends run n (omega arith))),
        ))
