-- ===== src/Delivery/Progress.antt =====
-- What one operation that is carried out leaves to do.
use ai_agent_workflow.Prelude.{
  ◌≡◌, refl, sym, Bool, true, Option, List, [], ◌∷◌, str_eq, ◌⊎◌, inl, inr, Bool-cases, subst,
}
use mathlib.Core.List.{Memᴰ}
use ai_agent_workflow.Delivery.Files.{Node, Platform, World}
use ai_agent_workflow.Delivery.Journal.{Operation, Journal}
use ai_agent_workflow.Delivery.Invariant.{spec, IsApart}
use ai_agent_workflow.Delivery.Changes.{IsAfter, elsewhere, everywhere}

-- Each operation is among those that are left, or its target passes the test.
abbrev pub IsDoneOrLeft :
    (Option Node → Operation → Bool) → List Operation → List Operation → World Journal → Type 0
IsDoneOrLeft test specs left w =
    (s : Operation) → Memᴰ s specs → Memᴰ s left ⊎ (test (w.original s.path) s ≡ true)

module _ (p : Platform) (specs : List Operation) (apart : IsApart p specs)
    (test : Option Node → Operation → Bool) where
  pub one_done :
      (op : Operation) (rest : List Operation) (w w' : World Journal)
      → Memᴰ (spec op) specs
      → IsAfter p specs apart (elsewhere op) w w'
      → test (w'.original op.path) (spec op) ≡ true
      → IsDoneOrLeft test specs (spec op ∷ rest) w
      → IsDoneOrLeft test specs rest w'
  one_done op rest w w' m after passes left s ms = elim (Bool-cases (str_eq op.path s.path)) [
    | inl e ↦ inr (
        subst (λ (t : Operation). test (w'.original t.path) t ≡ true) (apart.own (spec op) s m ms e)
          passes)
    | inr e ↦ elim (left s ms) [
      | inl (Memᴰ.head eq) ↦
          inr (subst (λ (t : Operation). test (w'.original t.path) t ≡ true) (sym eq) passes)
      | inl (Memᴰ.tail t) ↦ inl t
      | inr b ↦ inr (rw (after.others s ms (rw e)) b)
    ]
  ]

  -- A change of the journal file changes no target.
  pub none_done :
      (left : List Operation) (w w' : World Journal)
      → IsAfter p specs apart everywhere w w'
      → IsDoneOrLeft test specs left w
      → IsDoneOrLeft test specs left w'
  none_done left w w' after h s ms = elim (h s ms) [
    | inl t ↦ inl t
    | inr b ↦ inr (rw (after.others s ms refl) b)
  ]

  pub nothing_left :
      (w : World Journal)
      → IsDoneOrLeft test specs [] w
      → (s : Operation) → Memᴰ s specs
      → test (w.original s.path) s ≡ true
  nothing_left w h s ms = elim (h s ms) [ inl t ↦ elim t [ ] | inr b ↦ b ]
