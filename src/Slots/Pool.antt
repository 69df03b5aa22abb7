-- ===== src/Slots/Pool.antt =====
-- The slots of the providers in one event loop (app/core/provider_slots.py). The environment, and what
-- `int` makes of a text, are parameters.
use ai_agent_workflow.Prelude.{
  ◌≡◌, ℕ, suc, ◌+◌, min, max, String, str_append, Option, some, List, [], ◌∷◌, str_eq,
  if◌then◌else◌, ◌==◌, truthy_or, or_else,
}
use ai_agent_workflow.Prelude.Letters.{strip, lower, upper, replace}
use ai_agent_workflow.Lease.Lifetimes.{Parsed}

pub record Environment : Type 0 where
  pub value_of : String → Option String
  pub int_of : String → Parsed

-- A semaphore, with the calls that wait for it and those that run in it.
pub record Slot : Type 0 where
  pub provider : String
  pub limit : ℕ
  pub value : ℕ
  pub waiting : ℕ
  pub running : ℕ

-- `_LOOP_PROVIDER_SLOTS` with its limits, and the semaphores that were replaced but may still be held.
pub record Pool : Type 0 where
  pub slots : List Slot
  pub retired : List Slot

unfoldable pub normalize_provider : String → String
unfolding strip lower replace
normalize_provider name =
    let value = replace b'-' "_" (lower (strip (truthy_or (some name) "agent"))) in
    truthy_or (some value) "agent"

unfoldable pub clamped : Parsed → ℕ
clamped Parsed.unparsable = 2
clamped Parsed.negative = 1
clamped (Parsed.number n) = max 1 (min 16 n)

unfoldable pub provider_limit : Environment → String → ℕ
unfolding normalize_provider upper clamped
provider_limit env name =
    let specific =
      env.value_of
        (str_append "AIWF_" (str_append (upper (normalize_provider name)) "_MAX_CONCURRENCY")) in
    let default = or_else (env.value_of "AIWF_AGENT_MAX_CONCURRENCY") "2" in
    clamped (env.int_of (truthy_or specific (truthy_or (some default) "2")))

abbrev pub new_slot : String → ℕ → Slot
new_slot provider limit = record {
  provider = provider;
  limit = limit;
  value = limit;
  waiting = 1;
  running = 0;
}

abbrev pub joined : Slot → Slot
joined slot = record slot { waiting = slot.waiting + 1 }

unfoldable pub request_in : String → ℕ → List Slot → List Slot → Pool
request_in provider limit [] retired = record {
  slots = new_slot provider limit ∷ [];
  retired = retired;
}
request_in provider limit (slot ∷ rest) retired =
    let later = request_in provider limit rest retired in
    if str_eq slot.provider provider
    then (if slot.limit == limit
        then record { slots = joined slot ∷ rest; retired = retired }
        else record { slots = new_slot provider limit ∷ rest; retired = slot ∷ retired })
    else record { slots = slot ∷ later.slots; retired = later.retired }

-- `_slot_for`, after which the call waits for the semaphore.
unfoldable pub slot_for : Environment → String → Pool → Pool
unfolding normalize_provider provider_limit request_in
slot_for env name pool =
    request_in (normalize_provider name) (provider_limit env (normalize_provider name)) pool.slots
      pool.retired

-- What can happen at a semaphore: a waiting call gets it, a running call ends, a waiting call is
-- cancelled.
pub data Move : Slot → Slot → Type 0 where
  acquire :
      (s : Slot) (v n : ℕ)
      → s.value ≡ suc v
      → s.waiting ≡ suc n
      → Move s (record s { value = v; waiting = n; running = s.running + 1 })
  release :
      (s : Slot) (n : ℕ)
      → s.running ≡ suc n
      → Move s (record s { value = s.value + 1; running = n })
  cancel : (s : Slot) (n : ℕ) → s.waiting ≡ suc n → Move s (record s { waiting = n })

pub data MoveIn : List Slot → List Slot → Type 0 where
  here : {s t : Slot} (rest : List Slot) → Move s t → MoveIn (s ∷ rest) (t ∷ rest)
  there : (s : Slot) {xs ys : List Slot} → MoveIn xs ys → MoveIn (s ∷ xs) (s ∷ ys)

-- A step in an environment: a call asks for a slot, or something happens at a semaphore, a current or
-- a replaced one.
pub data Step (env : Environment) : Pool → Pool → Type 0 where
  request : (name : String) (p : Pool) → Step env p (slot_for env name p)
  current : (p : Pool) (xs : List Slot) → MoveIn p.slots xs → Step env p (record p { slots = xs })
  replaced :
      (p : Pool) (xs : List Slot) → MoveIn p.retired xs → Step env p (record p { retired = xs })

abbrev pub start : Pool
start = record { slots = []; retired = [] }
