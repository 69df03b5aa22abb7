-- ===== src/Slots/Capped.antt =====
-- As long as the environment stays as it is, no provider has more running calls than its limit.
use ai_agent_workflow.Prelude.{
  ◌≡◌, refl, subst, ℕ, ◌+◌, ◌≤◌, arith, String, true, false, List, [], ◌∷◌, str_eq, ◌==◌, eq_iff,
  Bool-cases, inl, inr, if◌then◌else◌, All,
}
use ai_agent_workflow.Slots.Pool.{
  Environment, Slot, Pool, normalize_provider, provider_limit, request_in, slot_for, Move, MoveIn,
  Step, start,
}

-- The running calls of a provider.
abbrev pub running_in : String → List Slot → ℕ
running_in provider [] = 0
running_in provider (s ∷ rest) =
    let others = running_in provider rest in
    if str_eq s.provider provider then s.running + others else others

module _ (env : Environment) where
  pub data ReachUnder : Pool → Type 0 where
    begin : ReachUnder start
    next : {p q : Pool} → ReachUnder p → Step env p q → ReachUnder q

  -- The limit of a slot is that of its provider, and what runs in it is within.
  abbrev IsCurrent : Slot → Type 0
  IsCurrent s = (s.limit ≡ provider_limit env s.provider) × (s.value + s.running ≡ s.limit)

  abbrev IsApartFrom : String → List Slot → Type 0
  IsApartFrom provider slots = All (λ s. str_eq s.provider provider ≡ false) slots

  -- The slots are current, and their providers are different.
  abbrev AreCurrent : List Slot → Type 0
  AreCurrent [] = Unit
  AreCurrent (s ∷ rest) = IsCurrent s × IsApartFrom s.provider rest × AreCurrent rest

  none_running :
      (provider : String) (slots : List Slot)
      → IsApartFrom provider slots
      → running_in provider slots ≡ 0
  none_running provider [] h = refl
  none_running provider (s ∷ rest) h = rw h.0 (none_running provider rest h.1)

  capped :
      (provider : String) (slots : List Slot)
      → AreCurrent slots
      → running_in provider slots ≤ provider_limit env provider
  capped provider [] h = omega arith
  capped provider (s ∷ rest) (c, apart, later) = elim (Bool-cases (str_eq s.provider provider)) [
    | inl e ↦
        let same = (eq_iff s.provider provider).0 e in
        let none_more = none_running provider rest (subst (λ x. IsApartFrom x rest) same apart) in
        let limit = subst (λ x. s.limit ≡ provider_limit env x) same c.0 in
        rw (e, none_more) (omega arith)
    | inr e ↦ rw e (capped provider rest later)
  ]

  apart_after :
      (other provider : String) (limit : ℕ) (slots retired : List Slot)
      → str_eq provider other ≡ false
      → IsApartFrom other slots
      → IsApartFrom other (request_in provider limit slots retired).slots
  unfolding request_in
  apart_after other provider limit [] retired d h = (d, tt)
  apart_after other provider limit (s ∷ rest) retired d h =
      elim (Bool-cases (str_eq s.provider provider)) [
        | inl e ↦ elim (Bool-cases (s.limit == limit)) [
          | inl f ↦ rw (e, f) h
          | inr f ↦ rw (e, f) (d, h.1)
        ]
        | inr e ↦ rw e (h.0, apart_after other provider limit rest retired d h.1)
      ]

  same_limit : (n m : ℕ) → n ≡ m → n == m ≡ true
  same_limit n m e = ground arith

  distinct : (a b : String) → str_eq a b ≡ false → str_eq b a ≡ false
  distinct a b h = ground (arith, eq_iff a b, eq_iff b a)

  request-AreCurrent :
      (provider : String) (slots : List Slot)
      → AreCurrent slots
      → AreCurrent (request_in provider (provider_limit env provider) slots []).slots
        × ((request_in provider (provider_limit env provider) slots []).retired ≡ [])
  unfolding request_in
  request-AreCurrent provider [] h = (((refl, omega arith), tt, tt), refl)
  request-AreCurrent provider (s ∷ rest) (c, apart, later) =
      elim (Bool-cases (str_eq s.provider provider)) [
        | inl e ↦
            let limit =
              subst (λ x. s.limit ≡ provider_limit env x) ((eq_iff s.provider provider).0 e) c.0 in
            rw (e, same_limit _ _ limit) ((c, apart, later), refl)
        | inr e ↦
            let rest_of = request-AreCurrent provider rest later in
            rw e (
              (
                c,
                apart_after s.provider provider _ rest [] (distinct s.provider provider e) apart,
                rest_of.0,
              ),
              rest_of.1,
            )
      ]

  Move-IsCurrent : {s t : Slot} → Move s t → IsCurrent s → (t.provider ≡ s.provider) × IsCurrent t
  Move-IsCurrent (Move.acquire s v n e f) h = (refl, (h.0, omega arith))
  Move-IsCurrent (Move.release s n e) h = (refl, (h.0, omega arith))
  Move-IsCurrent (Move.cancel s n e) h = (refl, h)

  MoveIn-apart :
      (other : String) {xs ys : List Slot}
      → MoveIn xs ys
      → AreCurrent xs
      → IsApartFrom other xs
      → IsApartFrom other ys
  MoveIn-apart other (MoveIn.here rest m) c h = (rw (Move-IsCurrent m c.0).0 h.0, h.1)
  MoveIn-apart other (MoveIn.there s m) c h = (h.0, MoveIn-apart other m c.2 h.1)

  MoveIn-AreCurrent : {xs ys : List Slot} → MoveIn xs ys → AreCurrent xs → AreCurrent ys
  MoveIn-AreCurrent (MoveIn.here {s} {t} rest m) c =
      ((Move-IsCurrent m c.0).1, rw (Move-IsCurrent m c.0).0 c.1, c.2)
  MoveIn-AreCurrent (MoveIn.there s m) c =
      (c.0, MoveIn-apart s.provider m c.2 c.1, MoveIn-AreCurrent m c.2)

  none_moves : {xs ys : List Slot} → MoveIn xs ys → xs ≡ [] → ys ≡ []
  none_moves (MoveIn.here rest m) e = cc
  none_moves (MoveIn.there s m) e = cc

  Step-AreCurrent :
      {p q : Pool}
      → Step env p q
      → AreCurrent p.slots × (p.retired ≡ [])
      → AreCurrent q.slots × (q.retired ≡ [])
  unfolding slot_for
  Step-AreCurrent (Step.request name p) h =
      rw h.1 (request-AreCurrent (normalize_provider name) p.slots h.0)
  Step-AreCurrent (Step.current p xs m) h = (MoveIn-AreCurrent m h.0, h.1)
  Step-AreCurrent (Step.replaced p xs m) h = (h.0, none_moves m h.1)

  reach-AreCurrent : {p : Pool} → ReachUnder p → AreCurrent p.slots × (p.retired ≡ [])
  reach-AreCurrent ReachUnder.begin = (tt, refl)
  reach-AreCurrent (ReachUnder.next r s) = Step-AreCurrent s (reach-AreCurrent r)

  -- In an environment that stays as it is, however calls ask for slots, get them, end and are
  -- cancelled, no provider has more running calls than its limit.
  pub running_within :
      {p : Pool} (provider : String)
      → ReachUnder p
      → running_in provider p.slots + running_in provider p.retired ≤ provider_limit env provider
  running_within provider r =
      let (c, none_retired) = reach-AreCurrent r in
      rw none_retired (omega (arith, capped provider _ c))
