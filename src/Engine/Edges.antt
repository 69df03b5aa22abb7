-- ===== src/Engine/Edges.antt =====
-- Facts about every pair that a table allows, from a check of the pairs that it lists.
use ai_agent_workflow.Prelude.{
  String, ◌≡◌, Bool, true, ◌&&◌, Option, List, [], ◌∷◌, all, or_else, inl, inr, Bool-cases, ok,
  arith, str_eq, eq_iff, &&-split,
}
use ai_agent_workflow.Prelude.Dict.{Dict, get}
use ai_agent_workflow.Engine.Tables.{
  member, table_for, allows, TransitionDecision, validate_transition,
}

-- Every pair of the table passes the test.
abbrev pub all_edges : (String → String → Bool) → Dict (List String) → Bool
all_edges p [] = true
all_edges p ((source, targets) ∷ table) = all (p source) targets && all_edges p table

all-member :
    (p : String → Bool) (xs : List String) (x : String)
    → all p xs ≡ true
    → member x xs ≡ true
    → p x ≡ true
all-member p [] x a m = cc
all-member p (y ∷ xs) x a m =
    let parts = &&-split (p y) (all p xs) a in
    elim (Bool-cases (str_eq y x)) [
      | inl e ↦ rw (← (eq_iff y x).0 e) parts.0
      | inr e ↦ all-member p xs x parts.1 (rw e at m)
    ]

-- What holds of the listed pairs holds of the allowed pairs.
pub allows_sound :
    (p : String → String → Bool) (table : Dict (List String)) (source target : String)
    → all_edges p table ≡ true
    → allows table source target ≡ true
    → p source target ≡ true
unfolding allows get
allows_sound p [] source target a m = cc
allows_sound p ((s, targets) ∷ table) source target a m =
    let parts = &&-split (all (p s) targets) (all_edges p table) a in
    elim (Bool-cases (str_eq s source)) [
      | inl e ↦ rw (← (eq_iff s source).0 e) (all-member (p s) targets target parts.0 (rw e at m))
      | inr e ↦ allows_sound p table source target parts.1 (rw e at m)
    ]

-- A strict validation that returns has an allowed pair.
pub validate_transition-allows :
    (kind : String) (source : Option String) (target : String) (d : TransitionDecision)
    → validate_transition kind source target true ≡ ok d
    → allows (table_for kind) (or_else source "") target ≡ true
unfolding validate_transition
validate_transition-allows kind source target d h = ground arith
