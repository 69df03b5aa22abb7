-- ===== src/Atomic/Commit.antt =====
-- A commit of a delivered journal, and the rules for the stages of a delivery.
use ai_agent_workflow.Prelude.{
  ◌≡◌, refl, ◌∙◌, false, Option, none, some, List, [], ◌∷◌, map, All, String,
}
use ai_agent_workflow.Delivery.Files.{Platform, Error, World, raised, apply_conflict}
use ai_agent_workflow.Delivery.Journal.{
  OperationStatus, Operation, JournalStatus, Journal, Step, mark_status, is_terminal,
}
use ai_agent_workflow.Delivery.Apply.{commit_operation, commit_delivery_journal}
use ai_agent_workflow.Delivery.Rollback.{is_rolled_back}
use ai_agent_workflow.Delivery.Ends.{Ends, Ends-pure, Ends-bind}
use ai_agent_workflow.Delivery.Invariant.{spec, IsApart}
use ai_agent_workflow.Delivery.Forward.{IsForward}
use ai_agent_workflow.Delivery.Changes.{IsCalm, IsAfter, everywhere, persist-Ends}
use ai_agent_workflow.Lease.Tokens.{RunLeaseConflict}
use ai_agent_workflow.Atomic.Requests.{DeliveryAnswer, caught, unless, by_status}

pub spec-commit :
    (status : OperationStatus) (op : Operation) → spec (commit_operation status op) ≡ spec op
unfolding commit_operation mark_status
spec-commit OperationStatus.applied op = refl
spec-commit OperationStatus.prepared op = refl
spec-commit OperationStatus.committed op = refl
spec-commit OperationStatus.rolled_back op = refl

pub commit-forward :
    (status : OperationStatus) (op : Operation)
    → is_rolled_back op.status ≡ false
    → is_rolled_back (commit_operation status op).status ≡ false
unfolding commit_operation mark_status
commit-forward OperationStatus.applied op h = refl
commit-forward OperationStatus.prepared op h = h
commit-forward OperationStatus.committed op h = h
commit-forward OperationStatus.rolled_back op h = h

pub commits-forward :
    (ops : List Operation)
    → All (λ op. is_rolled_back op.status ≡ false) ops
    → (map spec (map (λ op. commit_operation op.status op) ops) ≡ map spec ops)
      × All (λ op. is_rolled_back op.status ≡ false) (map (λ op. commit_operation op.status op) ops)
commits-forward [] h = (refl, tt)
commits-forward (op ∷ ops) h =
    let (same, forward) = commits-forward ops h.1 in
    ((λ i. spec-commit op.status op i ∷ same i), (commit-forward op.status op h.0, forward))

module _ (p : Platform) (specs : List Operation) (apart : IsApart p specs) where
  -- What a commit leaves: a saved journal that is committed, and the files as they were.
  abbrev pub Committed : World Journal → Journal → World Journal → Type 0
  Committed w closed w' =
      (closed.status ≡ JournalStatus.committed)
      × (w'.disk ≡ some closed)
      × IsForward specs closed
      × IsAfter p specs apart everywhere w w'

  pub commit_delivery_journal-Ends :
      (j : Journal) (w : World Journal)
      → IsForward specs j
      → IsCalm p specs apart w
      → Ends (Committed w) (commit_delivery_journal j) w
  unfolding commit_delivery_journal
  commit_delivery_journal-Ends j w f calm =
      Ends-bind w _ _ (persist-Ends p specs apart _ w calm) λ _ w1 (after, saved). Ends-pure w1 _ (
        refl,
        saved,
        record {
          same = (commits-forward j.operations f.forward).0 ∙ f.same;
          forward = (commits-forward j.operations f.forward).1;
        },
        after,
      )

module _ {Q : DeliveryAnswer → World Journal → Type 0} where
  pub Ends-caught :
      {R : Journal → World Journal → Type 0} (w : World Journal) (m : Step Journal)
      (handler : Error → Step DeliveryAnswer) (next : Journal → Step DeliveryAnswer)
      → Ends R m w
      → ((j : Journal) (w' : World Journal) → R j w' → Ends Q (next j) w')
      → Ends Q (caught m handler next) w
  unfolding caught
  Ends-caught w m handler next em en =
      let after : Ends Q (next em.value) em.world = en em.value em.world em.holds in
      record {
        value = after.value;
        world = after.world;
        returns = rw em.returns after.returns;
        holds = after.holds;
      }

  -- A conflict with the baseline is caught.
  pub Ends-conflict :
      (w : World Journal) (m : Step Journal) (handler : Error → Step DeliveryAnswer)
      (next : Journal → Step DeliveryAnswer) (conflicts : List String)
      → m w ≡ (raised (apply_conflict conflicts), w)
      → Ends Q (handler (apply_conflict conflicts)) w
      → Ends Q (caught m handler next) w
  unfolding caught
  Ends-conflict w m handler next conflicts e eh = record {
    value = eh.value;
    world = eh.world;
    returns = rw e eh.returns;
    holds = eh.holds;
  }

  pub Ends-unless :
      (w : World Journal) (conflict : Option RunLeaseConflict)
      (handler : RunLeaseConflict → Step DeliveryAnswer) (next : Step DeliveryAnswer)
      → ((c : RunLeaseConflict) → conflict ≡ some c → Ends Q (handler c) w)
      → Ends Q next w
      → Ends Q (unless conflict handler next) w
  Ends-unless w none handler next eh en = en
  Ends-unless w (some c) handler next eh en = eh c refl

  -- A journal that is not committed or rolled back.
  pub Ends-by_status :
      (w : World Journal) (status : JournalStatus)
      (committed rolled_back pending : Step DeliveryAnswer)
      → is_terminal status ≡ false
      → Ends Q pending w
      → Ends Q (by_status status committed rolled_back pending) w
  Ends-by_status w JournalStatus.prepared c r n e h = h
  Ends-by_status w JournalStatus.applying c r n e h = h
  Ends-by_status w JournalStatus.verifying c r n e h = h
  Ends-by_status w JournalStatus.rolling_back c r n e h = h
  Ends-by_status w JournalStatus.committed c r n e h = cc
  Ends-by_status w JournalStatus.rolled_back c r n e h = cc
