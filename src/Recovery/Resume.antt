-- ===== src/Recovery/Resume.antt =====
-- Where an interrupted run goes on (`build_restart_recovery`).
use ai_agent_workflow.Prelude.{
  ℕ, suc, ◌+◌, ◌<◌, String, ◌≡◌, refl, Bool, true, false, Option, none, some, List, [], ◌∷◌, str_eq,
  eq_iff, if◌then◌else◌, length, Bool-cases, inl, inr, arith,
}
use ai_agent_workflow.Recovery.Runs.{
  Step, Run, Scan, scan, is_complete, is_open, build_restart_recovery,
}

-- The place of the first step that is neither finished nor of an unknown status.
abbrev pub shifted : Option ℕ → Option ℕ
shifted none = none
shifted (some k) = some (suc k)

abbrev pub first_open : List Step → Option ℕ
first_open [] = none
first_open (step ∷ steps) = if is_open step.status then some 0 else shifted (first_open steps)

pub complete-is_open : (status : String) → is_complete status ≡ true → is_open status ≡ false
complete-is_open status h = elim (Bool-cases (str_eq status "passed")) [
  | inl e ↦ rw ((eq_iff status "passed").0 e)
  | inr e ↦ rw ((eq_iff status "skipped").0 (ground (arith, e, h)))
]

pub shifted-some :
    (o : Option ℕ) {k : ℕ} → shifted o ≡ some k → (j : ℕ) × (o ≡ some j) × (k ≡ suc j)
shifted-some none h = cc
shifted-some (some j) h = (j, refl, ground arith)

pub shifted-resume :
    (past : Scan) (index k : ℕ) (rest : Option ℕ)
    → shifted rest ≡ some k
    → ((j : ℕ) → rest ≡ some j → past.resume ≡ index + 1 + j)
    → past.resume ≡ index + k
shifted-resume past index k rest h ih =
    let (j, e, below) = shifted-some rest h in omega (arith, ih j e, below)

-- The three branches of the loop, on the outcomes of its tests.
pub scan-by_test :
    (complete open_ : Bool) (past found : Scan) (index k : ℕ) (rest : Option ℕ)
    → (complete ≡ true → open_ ≡ false)
    → (if open_ then some 0 else shifted rest) ≡ some k
    → ((j : ℕ) → rest ≡ some j → past.resume ≡ index + 1 + j)
    → (if complete then past else if open_ then record found { resume = index } else past).resume
      ≡ index + k
scan-by_test true true past found index k rest apart h ih = cc (apart refl)
scan-by_test true false past found index k rest apart h ih = shifted-resume past index k rest h ih
scan-by_test false true past found index k rest apart h ih = ground arith
scan-by_test false false past found index k rest apart h ih = shifted-resume past index k rest h ih

-- A loop that passes a step by goes on with the next index, whatever it has found.
pub scan-first_open :
    (index : ℕ) (found : Scan) (steps : List Step) (k : ℕ)
    → first_open steps ≡ some k
    → (scan index found steps).resume ≡ index + k
unfolding scan
scan-first_open index found [] k h = cc
scan-first_open index found (step ∷ steps) k h =
    let next : Scan =
      if is_complete step.status
      then record { last_index = some index; last_key = step.key; resume = index + 1 }
      else found in
    scan-by_test (is_complete step.status) (is_open step.status) (scan (index + 1) next steps) found
      index k (first_open steps) (complete-is_open step.status) h
      (λ j e. scan-first_open (index + 1) next steps j e)

pub first_open-lt-length :
    (steps : List Step) (k : ℕ) → first_open steps ≡ some k → k < length steps
first_open-lt-length [] k h = cc
first_open-lt-length (step ∷ steps) k h = elim (Bool-cases (is_open step.status)) [
  | inl e ↦ let first : ◌≡◌ {A = Option ℕ} (some 0) (some k) = rw e at h in ground arith
  | inr e ↦
      let later : shifted (first_open steps) ≡ some k = rw e at h in
      let (n, f, below) = shifted-some (first_open steps) later in
      omega (arith, below, first_open-lt-length steps n f)
]

-- A run with a step that is open goes on with the first such step: no open step is left out and no
-- finished step before it is done again.
pub resumes_at_first_open :
    (run : Run) (k : ℕ)
    → first_open run.steps ≡ some k
    → (build_restart_recovery run).resume_index ≡ k
unfolding build_restart_recovery
resumes_at_first_open run k h = omega (
  arith,
  scan-first_open 0 (record { last_index = none; last_key = none; resume = 0 }) run.steps k h,
  first_open-lt-length run.steps k h,
)
