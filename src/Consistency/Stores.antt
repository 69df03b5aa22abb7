-- ===== src/Consistency/Stores.antt =====
-- `check_store_consistency` (app/workflow_runtime/run_consistency.py). The workspace of each run is a
-- parameter.
use ai_agent_workflow.Prelude.{
  ℕ, ◌+◌, arith, String, ◌≡◌, ◌↔◌, ◌∙◌, refl, sym, Bool, true, false, not, Option, none, some, List,
  [], ◌∷◌, map, any, select, length, ◌==◌, str_eq, eq_iff, Bool-cases, inl, inr, if◌then◌else◌, All,
}
use ai_agent_workflow.Prelude.Dict.{Dict, get, put, get-put}
use ai_agent_workflow.Recovery.Owners.{Process}
use ai_agent_workflow.Recovery.Runs.{Run, run_project_path}
use ai_agent_workflow.Recovery.Locks.{LockFile, LockFiles}
use ai_agent_workflow.Consistency.Issues.{Folder, Issue, RunCheck, report_of, is_severe}
use ai_agent_workflow.Consistency.Checks.{all_issues, check_run_consistency}
use ai_agent_workflow.Consistency.Severe.{severe-all_issues}
use ai_agent_workflow.Consistency.Passes.{IsConsistent, fails_when-IsConsistent}

pub record StoreReport : Type 0 where
  pub status : String
  pub checked_at : String
  pub run_count : ℕ
  pub error_count : ℕ
  pub warning_count : ℕ
  pub runs : List RunCheck

abbrev pub sum : (RunCheck → ℕ) → List RunCheck → ℕ
sum f [] = 0
sum f (report ∷ reports) = f report + sum f reports

-- The lock that the cache has, or else that is read and put there.
abbrev pub lock_found :
    LockFiles → Dict LockFile → String → Option LockFile → LockFile × Dict LockFile
lock_found files cache project (some lock) = (lock, cache)
lock_found files cache project none = (files project, put cache project (files project))

unfoldable pub cached_lock : LockFiles → Dict LockFile → String → LockFile × Dict LockFile
unfolding get put
cached_lock files cache project =
    if str_eq project ""
    then (LockFile.absent, cache)
    else lock_found files cache project (get cache project)

pass_if : (b : Bool) → ◌≡◌ {A = String} (if b then "PASS" else "FAIL") "PASS" ↔ (b ≡ true)
pass_if true = (λ h. refl, λ h. refl)
pass_if false = (λ h. (eq_iff "FAIL" "PASS").1 h, λ h. cc)

left_zero : (n m : ℕ) → n + m == 0 ≡ true → n == 0 ≡ true
left_zero n m h = ground arith

right_zero : (n m : ℕ) → n + m == 0 ≡ true → m == 0 ≡ true
right_zero n m h = ground arith

both_zero : (n m : ℕ) → n == 0 ≡ true → m == 0 ≡ true → n + m == 0 ≡ true
both_zero n m h k = ground arith

-- The lock of the project of a run.
abbrev pub lock_of : LockFiles → Run → LockFile
lock_of files run =
    if str_eq (run_project_path run) "" then LockFile.absent else files (run_project_path run)

module _ (process : Process) (now : String) (folder_of : Run → Folder) (files : LockFiles) where
  unfoldable pub check_runs : Dict LockFile → List Run → List RunCheck
  unfolding cached_lock check_run_consistency run_project_path
  check_runs cache [] = []
  check_runs cache (run ∷ runs) =
      let (lock, cache') = cached_lock files cache (run_project_path run) in
      check_run_consistency process now run (folder_of run) lock ∷ check_runs cache' runs

  unfoldable pub check_store_consistency : List Run → StoreReport
  unfolding check_runs
  check_store_consistency runs =
      let reports = check_runs [] runs in
      let errors = sum (λ report. report.error_count) reports in
      record {
        status = if errors == 0 then "PASS" else "FAIL";
        checked_at = now;
        run_count = length reports;
        error_count = errors;
        warning_count = sum (λ report. report.warning_count) reports;
        runs = reports;
      }

  abbrev pub report_on : Run → RunCheck
  report_on run = check_run_consistency process now run (folder_of run) (lock_of files run)

  -- Each lock in the cache is the one that the file holds.
  abbrev IsRead : Dict LockFile → Type 0
  IsRead cache =
      (project : String) (lock : LockFile) → get cache project ≡ some lock → lock ≡ files project

  put-IsRead :
      (cache : Dict LockFile) (project : String)
      → IsRead cache
      → IsRead (put cache project (files project))
  put-IsRead cache project h other lock f =
      let g = sym (get-put cache project other (files project)) ∙ f in
      elim (Bool-cases (str_eq project other)) [
        | inl e ↦ cc (rw e at g, (eq_iff project other).0 e)
        | inr e ↦ h other lock (rw e at g)
      ]

  found-IsRead :
      (cache : Dict LockFile) (project : String) (found : Option LockFile)
      → IsRead cache
      → get cache project ≡ found
      → ((lock_found files cache project found).0 ≡ files project)
        × IsRead (lock_found files cache project found).1
  found-IsRead cache project (some lock) h e = (h project lock e, h)
  found-IsRead cache project none h e = (refl, put-IsRead cache project h)

  cached-IsRead :
      (cache : Dict LockFile) (run : Run)
      → IsRead cache
      → ((cached_lock files cache (run_project_path run)).0 ≡ lock_of files run)
        × IsRead (cached_lock files cache (run_project_path run)).1
  unfolding cached_lock
  cached-IsRead cache run h = elim (Bool-cases (str_eq (run_project_path run) "")) [
    | inl e ↦ rw e (refl, h)
    | inr e ↦ rw e (found-IsRead cache (run_project_path run) _ h refl)
  ]

  check_runs-eq-map :
      (runs : List Run) (cache : Dict LockFile)
      → IsRead cache
      → check_runs cache runs ≡ map report_on runs
  unfolding check_runs
  check_runs-eq-map [] cache h = refl
  check_runs-eq-map (run ∷ runs) cache h =
      let (same, read) = cached-IsRead cache run h in rw (same, check_runs-eq-map runs _ read) refl

  no_errors :
      (issues : List Issue) → length (select is_severe issues) == 0 ≡ not (any is_severe issues)
  no_errors [] = refl
  no_errors (issue ∷ issues) = ground (arith, no_errors issues)

  error_free :
      (run : Run)
      → (report_on run).error_count == 0 ≡ true
        ↔ IsConsistent run (folder_of run) (lock_of files run)
  unfolding check_run_consistency report_of
  error_free run =
      rw
        (
          no_errors (all_issues run (folder_of run) process (lock_of files run)),
          (severe-all_issues run (folder_of run) process (lock_of files run)).at,
        )
        (
          λ h. (fails_when-IsConsistent run (folder_of run) (lock_of files run)).0 (ground arith),
          λ c. rw ((fails_when-IsConsistent run (folder_of run) (lock_of files run)).1 c) refl,
        )

  no_sum :
      (runs : List Run)
      → sum (λ report. report.error_count) (map report_on runs) == 0 ≡ true
        ↔ All (λ run. IsConsistent run (folder_of run) (lock_of files run)) runs
  no_sum [] = (λ h. tt, λ h. refl)
  no_sum (run ∷ runs) =
      let errors = (report_on run).error_count in
      let rest = sum (λ report. report.error_count) (map report_on runs) in
      (
        λ h. (
          (error_free run).0 (left_zero errors rest h),
          (no_sum runs).0 (right_zero errors rest h),
        ),
        λ c. both_zero errors rest ((error_free run).1 c.0) ((no_sum runs).1 c.1),
      )

  -- The store passes exactly when each run is consistent with its workspace and with the lock of its
  -- project as the file holds it, though the check reads each lock once and goes on with its copy.
  pub store_passes_when-IsConsistent :
      (runs : List Run)
      → (check_store_consistency runs).status ≡ "PASS"
        ↔ All (λ run. IsConsistent run (folder_of run) (lock_of files run)) runs
  unfolding check_store_consistency
  store_passes_when-IsConsistent runs =
      rw (check_runs-eq-map runs [] (unfold get in λ project lock e. cc))
        (λ h. (no_sum runs).0 ((pass_if _).0 h), λ c. rw ((no_sum runs).1 c) refl)
