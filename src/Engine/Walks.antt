-- ===== src/Engine/Walks.antt =====
-- Sequences of strict validations, one after another, as the stores make them.
use ai_agent_workflow.Prelude.{
  String, ◌≡◌, refl, Bool, true, false, ◌||◌, some, List, [], ◌∷◌, arith, any, Result, ok, ◌>>=◌,
  >>=-eq-ok, ok_inj, subst,
}
use ai_agent_workflow.Engine.Tables.{
  member, run_transitions, allows, table_for, InvalidTransition, TransitionDecision,
  validate_transition,
}
use ai_agent_workflow.Engine.Edges.{allows_sound, validate_transition-allows}

-- The status after validating each target in turn, from the status before.
unfoldable pub follow : String → String → List String → Result InvalidTransition String
follow kind status [] = ok status
follow kind status (target ∷ rest) = do
  decision ← validate_transition kind (some status) target true
  follow kind decision.target rest

decision_target :
    (kind status target : String) (d : TransitionDecision)
    → validate_transition kind (some status) target true ≡ ok d
    → d.target ≡ target
unfolding validate_transition
decision_target kind status target d h = ground arith

-- A set of statuses that is left only through given exits is left only by a walk that visits an
-- exit.
module _ (kind : String) (inside exits : List String)
    (closed : (source target : String)
      → allows (table_for kind) source target ≡ true
      → member source inside ≡ true
      → (member target inside || member target exits) ≡ true) where
  pub follow_inside :
      (status : String) (targets : List String) (last : String)
      → member status inside ≡ true
      → any (λ t. member t exits) targets ≡ false
      → follow kind status targets ≡ ok last
      → member last inside ≡ true
  unfolding follow
  follow_inside status [] last m x e = subst (λ s. member s inside ≡ true) (ok_inj e) m
  follow_inside status (target ∷ rest) last m x e =
      let (d, e1, e2) =
        >>=-eq-ok (validate_transition kind (some status) target true)
          (λ d. follow kind d.target rest) {b = last} e in
      let edge : allows (table_for kind) status target ≡ true =
        validate_transition-allows kind (some status) target d e1 in
      let out : (member target exits ≡ false) × (any (λ t. member t exits) rest ≡ false) =
        (ground arith, ground arith) in
      let next : member target inside ≡ true = ground (arith, closed status target edge m) in
      follow_inside target rest last next out.1 (rw (decision_target kind status target d e1) at e2)

implies : Bool → Bool → Bool
implies true b = b
implies false b = true

implies_mp : (a b : Bool) → implies a b ≡ true → a ≡ true → b ≡ true
unfolding implies
implies_mp true b h e = h
implies_mp false b h e = cc

abbrev stays : List String → List String → String → String → Bool
stays inside exits source target =
    implies (member source inside) (member target inside || member target exits)

abbrev pub stopping : List String
stopping = "cancelling" ∷ "cancelled" ∷ "failed" ∷ []

abbrev pub restarts : List String
restarts = "queued" ∷ "running" ∷ []

-- From a cancelling, cancelled or failed run, strict validations that never go through `queued` or
-- `running` end in one of these three statuses again: such a run is never `done` by itself.
pub follow-stopping :
    (status : String) (targets : List String) (last : String)
    → member status stopping ≡ true
    → any (λ t. member t restarts) targets ≡ false
    → follow "run" status targets ≡ ok last
    → member last stopping ≡ true
follow-stopping = follow_inside "run" stopping restarts λ source target edge m.
    implies_mp _ _
      (allows_sound (stays stopping restarts) run_transitions source target (unfold implies in refl)
        (unfold table_for in edge))
      m
