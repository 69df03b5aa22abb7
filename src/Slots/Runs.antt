-- ===== src/Slots/Runs.antt =====
-- Every semaphore counts its running calls, whatever the environment is at each step.
use ai_agent_workflow.Prelude.{
  ◌≡◌, ℕ, ◌+◌, ◌≤◌, arith, String, List, [], ◌∷◌, str_eq, ◌==◌, Bool-cases, inl, inr, All,
}
use ai_agent_workflow.Lease.Lifetimes.{Parsed}
use ai_agent_workflow.Slots.Pool.{
  Environment, Slot, Pool, normalize_provider, clamped, provider_limit, request_in, slot_for, Move,
  MoveIn, Step, start,
}

-- Steps, in an environment that may change between them.
pub data Reach : Pool → Type 0 where
  begin : Reach start
  next : {p q : Pool} (env : Environment) → Reach p → Step env p q → Reach q

-- What is free and what is running make up the limit, which is between 1 and 16.
abbrev pub IsSound : Slot → Type 0
IsSound s = (s.value + s.running ≡ s.limit) × (1 ≤ s.limit) × (s.limit ≤ 16)

abbrev pub IsSoundPool : Pool → Type 0
IsSoundPool p = All IsSound p.slots × All IsSound p.retired

clamped_between : (n : Parsed) → (1 ≤ clamped n) × (clamped n ≤ 16)
unfolding clamped
clamped_between Parsed.unparsable = (omega arith, omega arith)
clamped_between Parsed.negative = (omega arith, omega arith)
clamped_between (Parsed.number n) = (omega arith, omega arith)

limit_between :
    (env : Environment) (name : String)
    → (1 ≤ provider_limit env name) × (provider_limit env name ≤ 16)
unfolding provider_limit
limit_between env name = clamped_between _

request_in-IsSound :
    (provider : String) (limit : ℕ) (slots retired : List Slot)
    → 1 ≤ limit
    → limit ≤ 16
    → All IsSound slots
    → All IsSound retired
    → IsSoundPool (request_in provider limit slots retired)
unfolding request_in
request_in-IsSound provider limit [] retired l u h k = (((omega arith, l, u), tt), k)
request_in-IsSound provider limit (s ∷ rest) retired l u h k =
    let later = request_in-IsSound provider limit rest retired l u h.1 k in
    elim (Bool-cases (str_eq s.provider provider)) [
      | inl e ↦ elim (Bool-cases (s.limit == limit)) [
        | inl f ↦ rw (e, f) (h, k)
        | inr f ↦ rw (e, f) (((omega arith, l, u), h.1), (h.0, k))
      ]
      | inr e ↦ rw e ((h.0, later.0), later.1)
    ]

Move-IsSound : {s t : Slot} → Move s t → IsSound s → IsSound t
Move-IsSound (Move.acquire s v n e f) h = (omega arith, h.1, h.2)
Move-IsSound (Move.release s n e) h = (omega arith, h.1, h.2)
Move-IsSound (Move.cancel s n e) h = h

MoveIn-IsSound : {xs ys : List Slot} → MoveIn xs ys → All IsSound xs → All IsSound ys
MoveIn-IsSound (MoveIn.here rest m) h = (Move-IsSound m h.0, h.1)
MoveIn-IsSound (MoveIn.there s m) h = (h.0, MoveIn-IsSound m h.1)

Step-IsSound : (env : Environment) {p q : Pool} → Step env p q → IsSoundPool p → IsSoundPool q
unfolding slot_for
Step-IsSound env (Step.request name p) h =
    let (l, u) = limit_between env (normalize_provider name) in
    request_in-IsSound _ _ p.slots p.retired l u h.0 h.1
Step-IsSound env (Step.current p xs m) h = (MoveIn-IsSound m h.0, h.1)
Step-IsSound env (Step.replaced p xs m) h = (h.0, MoveIn-IsSound m h.1)

-- In every pool that can be reached, by whatever steps and with whatever changes of the environment,
-- the free places and the running calls of each semaphore make up its limit, which is between 1 and 16.
pub Reach-IsSound : {p : Pool} → Reach p → IsSoundPool p
Reach-IsSound Reach.begin = (tt, tt)
Reach-IsSound (Reach.next env r s) = Step-IsSound env s (Reach-IsSound r)
