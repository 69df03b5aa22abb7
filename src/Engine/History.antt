-- ===== src/Engine/History.antt =====
-- The bounded history that each record keeps: `append_transition` of
-- app/workflow_engine/state_machine.py.
use mathlib.Core.List.{append-nil, append_assoc}
use ai_agent_workflow.Prelude.{
  keep_last-append, ℕ, ◌≤◌, String, ◌≡◌, sym, ap, ◌∙◌, inl, inr, Option, some, List, [], ◌∷◌, ◌++◌,
  map, arith, ltb, if◌then◌else◌, or_else, truthy_or, Bool-cases, length, keep_last,
  length-keep_last, keep_last_all, All, All-append, All-drop, last?, last?-keep_last,
}

pub record Transition : Type 0 where
  pub kind : String
  pub from : Option String
  pub to : String
  pub reason : String
  pub at : ℕ

abbrev pub history_limit : ℕ
history_limit = 100

bounded : List Transition → List Transition
bounded entries =
    if ltb history_limit (length entries) then keep_last history_limit entries else entries

bounded-eq-keep_last :
    (entries : List Transition) → bounded entries ≡ keep_last history_limit entries
unfolding bounded
bounded-eq-keep_last entries = elim (Bool-cases (ltb history_limit (length entries))) [
  | inl e ↦ rw e
  | inr e ↦ rw e (sym (keep_last_all history_limit entries (ground arith)))
]

abbrev pub new_transition : String → Option String → String → Option String → ℕ → Transition
new_transition kind source target reason now = record {
  kind = kind;
  from = source;
  to = target;
  reason = truthy_or reason "status update";
  at = now;
}

-- `record.setdefault("transitions", [])` with the new entry, cut to the last hundred; `now` is the
-- value of `utc_now()`.
unfoldable pub append_transition :
    Option (List Transition) → String → Option String → String → Option String → ℕ → List Transition
unfolding bounded
append_transition transitions kind source target reason now =
    bounded (or_else transitions [] ++ new_transition kind source target reason now ∷ [])

module _ (transitions : Option (List Transition)) (kind : String) (source : Option String)
    (target : String) (reason : Option String) (now : ℕ) where
  abbrev pub appended : List Transition
  appended = append_transition transitions kind source target reason now

  abbrev entry : Transition
  entry = new_transition kind source target reason now

  pub append_transition-eq-keep_last :
      appended ≡ keep_last history_limit (or_else transitions [] ++ entry ∷ [])
  append_transition-eq-keep_last =
      unfold append_transition in bounded-eq-keep_last (or_else transitions [] ++ entry ∷ [])

  -- What holds of every old entry and of the new one holds of the history after the call.
  pub append_transition-All {κ} :
      (P : Transition → Type κ) → All P (or_else transitions []) → P entry → All P appended
  append_transition-All P old new =
      rw append_transition-eq-keep_last
        (All-drop P _ _ (All-append P (or_else transitions []) (entry ∷ []) old (new, tt)))

  pub length-append_transition : length appended ≤ history_limit
  length-append_transition =
      rw append_transition-eq-keep_last
        (omega (arith, length-keep_last history_limit (or_else transitions [] ++ entry ∷ [])))

  pub last?-append_transition : last? appended ≡ some entry
  last?-append_transition =
      rw append_transition-eq-keep_last
        (last?-keep_last history_limit (or_else transitions []) entry (omega arith))

-- One call of `append_transition` for each request, in order.
pub record Request : Type 0 where
  pub kind : String
  pub source : Option String
  pub target : String
  pub reason : Option String
  pub now : ℕ

abbrev pub requested : Request → Transition
requested r = new_transition r.kind r.source r.target r.reason r.now

unfoldable pub append_all : List Transition → List Request → List Transition
append_all entries [] = entries
append_all entries (r ∷ rest) =
    append_all (append_transition (some entries) r.kind r.source r.target r.reason r.now) rest

-- From a history within its bound, any number of calls leaves the last hundred of the old entries
-- and the new ones, in their order.
pub append_all-eq-keep_last :
    (entries : List Transition) (requests : List Request)
    → length entries ≤ history_limit
    → append_all entries requests ≡ keep_last history_limit (entries ++ map requested requests)
unfolding append_all
append_all-eq-keep_last entries [] h = rw append-nil (sym (keep_last_all history_limit entries h))
append_all-eq-keep_last entries (r ∷ rest) h =
    let next : List Transition =
      append_transition (some entries) r.kind r.source r.target r.reason r.now in
    append_all-eq-keep_last next rest
      (length-append_transition (some entries) r.kind r.source r.target r.reason r.now)
    ∙ ap (λ l. keep_last history_limit (l ++ map requested rest))
        (append_transition-eq-keep_last (some entries) r.kind r.source r.target r.reason r.now)
    ∙ keep_last-append history_limit (entries ++ requested r ∷ []) (map requested rest)
    ∙ ap (keep_last history_limit) (append_assoc entries (requested r ∷ []) (map requested rest))
