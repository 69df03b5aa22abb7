-- ===== src/Engine/Examples.antt =====
-- A history and a walk through the run statuses.
use ai_agent_workflow.Prelude.{◌≡◌, refl, true, some, none, List, [], ◌∷◌, ok}
use ai_agent_workflow.Engine.Tables.{member, validate_transition, allows, table_for}
use ai_agent_workflow.Prelude.Dict.{get}
use ai_agent_workflow.Engine.History.{Transition, Request, requested}
use ai_agent_workflow.Engine.Walks.{follow, stopping, follow-stopping}

abbrev request : Request
request = record {
  kind = "run";
  source = some "queued";
  target = "running";
  reason = none;
  now = 5;
}

abbrev old : List Transition
old = requested request ∷ []

cancels : follow "run" "cancelling" ("cancelled" ∷ []) ≡ ok "cancelled"
unfolding follow validate_transition allows table_for get
cancels = refl

follow-stopping_example : member "cancelled" stopping ≡ true
follow-stopping_example =
    follow-stopping "cancelling" ("cancelled" ∷ []) "cancelled" refl refl cancels
