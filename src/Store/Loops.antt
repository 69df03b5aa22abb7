-- ===== src/Store/Loops.antt =====
-- What the loops of the stores keep: a change of the first match, of the items from an index on,
-- and of one run of the file.
use ai_agent_workflow.Prelude.{
  ℕ, zero, suc, ◌+◌, String, ◌≡◌, ap, inl, inr, Option, some, List, [], ◌∷◌, map, str_eq,
  Bool-cases, Result, ok, >>=-eq-ok, ok_inj, subst, All,
}
use ai_agent_workflow.Store.Records.{Step, Run}
use ai_agent_workflow.Store.Runs.{Runs, mutate_run}
use ai_agent_workflow.Store.Steps.{with_step, from_index}

module _ {E : Type 0} (P : Step → Type 0) where
  pub with_step-All :
      (key : String) (fn : Step → Result E Step)
      → ((s s' : Step) → P s → fn s ≡ ok s' → P s')
      → (steps steps' : List Step) → All P steps
      → with_step key fn steps ≡ ok steps'
      → All P steps'
  unfolding with_step
  with_step-All key fn keep [] steps' a e = subst (All P) (ok_inj e) tt
  with_step-All key fn keep (s ∷ rest) steps' a e = elim (Bool-cases (str_eq s.key key)) [
    | inl hit ↦
        let (s', e1, e2) = >>=-eq-ok (fn s) (λ s'. ok (s' ∷ rest)) (rw hit at e) in
        subst (All P) (ok_inj e2) (keep s s' a.0 e1, a.1)
    | inr miss ↦
        let (rest', e1, e2) =
          >>=-eq-ok (with_step key fn rest) (λ rest'. ok (s ∷ rest')) (rw miss at e) in
        subst (All P) (ok_inj e2) (a.0, with_step-All key fn keep rest rest' a.1 e1)
  ]

module _ (P : Step → Type 0) (fn : Step → Step) (keep : (s : Step) → P s → P (fn s)) where
  map-All : (steps : List Step) → All P steps → All P (map fn steps)
  map-All [] a = a
  map-All (s ∷ rest) a = (keep s a.0, map-All rest a.1)

  pub from_index-All : (n : ℕ) (steps : List Step) → All P steps → All P (from_index n fn steps)
  unfolding from_index
  from_index-All zero steps a = map-All steps a
  from_index-All (suc n) [] a = a
  from_index-All (suc n) (s ∷ rest) a = (a.0, from_index-All n rest a.1)

abbrev pub saved : Run → Run
saved r = record r { state_version = r.state_version + 1 }

module _ {E : Type 0} (P : Run → Type 0) (fn : Run → Result E Run)
    (keep : (r r' : Run) → P r → fn r ≡ ok r' → P (saved r')) where
  pub mutate_run-All :
      (runs : Runs) (run_id : String) (runs' : Runs) (found : Option Run)
      → All P runs
      → mutate_run runs run_id fn ≡ ok (runs', found)
      → All P runs'
  unfolding mutate_run
  mutate_run-All [] run_id runs' found a e =
      subst (All P) (ap (λ (p : Runs × Option Run). p.0) (ok_inj e)) tt
  mutate_run-All (r ∷ rest) run_id runs' found a e = elim (Bool-cases (str_eq r.id run_id)) [
    | inl hit ↦
        let (r', e1, e2) =
          >>=-eq-ok (fn r) (λ r'. ok (saved r' ∷ rest, some (saved r'))) (rw hit at e) in
        subst (All P) (ap (λ (p : Runs × Option Run). p.0) (ok_inj e2)) (keep r r' a.0 e1, a.1)
    | inr miss ↦
        let (p, e1, e2) =
          >>=-eq-ok (mutate_run rest run_id fn) (λ (p : Runs × Option Run). ok (r ∷ p.0, p.1))
            (rw miss at e) in
        subst (All P) (ap (λ (p : Runs × Option Run). p.0) (ok_inj e2))
          (a.0, mutate_run-All rest run_id p.0 p.1 a.1 e1)
  ]
