-- ===== src/Consistency/Passes.antt =====
-- When a run passes the check of its consistency.
use ai_agent_workflow.Prelude.{
  arith, String, ◌≡◌, ◌↔◌, ◌∙◌, if◌then◌else◌, refl, ap, sym, Bool, true, false, false≢true, not,
  ◌&&◌, ◌||◌, Option, none, some, List, [], ◌∷◌, any, str_eq, eq_iff, Bool-cases, inl, inr, All,
}
use ai_agent_workflow.Prelude.Letters.{is_in}
use ai_agent_workflow.Delivery.Invariant.{str_eq-flip}
use ai_agent_workflow.Recovery.Owners.{Process}
use ai_agent_workflow.Recovery.Runs.{Run, is_terminal_run, mark_stale_active_run_interrupted}
use ai_agent_workflow.Recovery.Locks.{LockFile, same_id, is_absent, id_in_file}
use ai_agent_workflow.Consistency.Issues.{Line, StateFile, Folder, report_of}
use ai_agent_workflow.Consistency.Checks.{
  has_text, event_types_of, is_failed, check_run_consistency,
}
use ai_agent_workflow.Consistency.Severe.{state_fails, is_bad, fails, severe-all_issues}

-- A line that is no JSON, or an event with the name that stands for such a line.
abbrev pub is_marked : Line → Bool
is_marked Line.invalid = true
is_marked (Line.typed name) = str_eq name "__INVALID_JSON__"
is_marked line = false

-- What a run, its workspace and the lock of its project must be.
pub record IsConsistent (run : Run) (folder : Folder) (file : LockFile) : Type 0 where
  pub named : has_text run.id ≡ true
  pub placed : folder.exists ≡ true
  pub saved : folder.state_json ≡ StateFile.state (some run.status)
  pub ended : is_terminal_run run ≡ true → has_text run.ended_at ≡ true
  pub no_failed_step : run.status ≡ "done" → All (λ step. is_failed step ≡ false) run.steps
  pub explained : run.status ≡ "failed" → has_text run.error || has_text run.error_code ≡ true
  pub readable : All (λ line. is_marked line ≡ false) folder.events_jsonl
  pub indexed : is_bad folder.index_json ≡ false
  pub unlocked :
      is_terminal_run run ≡ true → is_absent file ≡ false → same_id (id_in_file file) run.id ≡ false

flip : (a b : String) → str_eq a b ≡ str_eq b a
flip a b = elim (Bool-cases (str_eq a b)) [
  | inl e ↦ rw e (sym ((eq_iff b a).1 (sym ((eq_iff a b).0 e))))
  | inr e ↦ rw e (sym (str_eq-flip a b e))
]

marked_lines :
    (lines : List Line) → is_in "__INVALID_JSON__" (event_types_of lines) ≡ any is_marked lines
unfolding event_types_of
marked_lines [] = refl
marked_lines (Line.blank ∷ lines) = marked_lines lines
marked_lines (Line.untyped ∷ lines) = marked_lines lines
marked_lines (Line.invalid ∷ lines) = refl
marked_lines (Line.typed name ∷ lines) = elim (Bool-cases (str_eq name "")) [
  | inl e ↦ rw (e, (eq_iff name "").0 e) (marked_lines lines)
  | inr e ↦ rw (e, marked_lines lines) (rw (flip name "__INVALID_JSON__") refl)
]

none_of_all {ℓ} :
    {A : Type ℓ} (p : A → Bool) (xs : List A) → any p xs ≡ false ↔ All (λ x. p x ≡ false) xs
none_of_all p [] = (λ h. tt, λ h. refl)
none_of_all p (x ∷ xs) = (
  λ h. (ground arith, (none_of_all p xs).0 (ground arith)),
  λ h. rw (h.0, (none_of_all p xs).1 h.1),
)

same_state :
    (run : Run) (file : StateFile)
    → state_fails run file ≡ false ↔ (file ≡ StateFile.state (some run.status))
same_state run StateFile.no_state = (λ h. cc, λ h. cc)
same_state run (StateFile.state none) = (λ h. cc, λ h. cc)
same_state run (StateFile.state (some status)) = (
  λ h. ap (λ s. StateFile.state (some s)) ((eq_iff status run.status).0 (ground arith)),
  λ e. rw ((eq_iff status run.status).1 (cc e)) refl,
)

excluded : (a b : Bool) → (a ≡ true → b ≡ false) → a && b ≡ false
excluded true b f = f refl
excluded false b f = refl

fails-IsConsistent :
    (run : Run) (folder : Folder) (file : LockFile)
    → fails run folder file ≡ false
    → IsConsistent run folder file
fails-IsConsistent run folder file h = record {
  named = ground arith;
  placed = ground arith;
  saved = (same_state run folder.state_json).0 (ground arith);
  ended = λ t. ground arith;
  no_failed_step =
      λ e. (none_of_all is_failed run.steps).0 (ground (arith, (eq_iff run.status "done").1 e));
  explained = λ e. ground (arith, (eq_iff run.status "failed").1 e);
  readable =
      (none_of_all is_marked folder.events_jsonl).0
        (sym (marked_lines folder.events_jsonl) ∙ ground arith);
  indexed = ground arith;
  unlocked = λ t a. ground arith;
}

IsConsistent-fails :
    (run : Run) (folder : Folder) (file : LockFile)
    → IsConsistent run folder file
    → fails run folder file ≡ false
IsConsistent-fails run folder file c =
    rw
      (
        c.named,
        c.placed,
        (same_state run folder.state_json).1 c.saved,
        excluded (is_terminal_run run) (not (has_text run.ended_at)) (λ e. rw (c.ended e) refl),
        excluded (str_eq run.status "done") (any is_failed run.steps) (λ e.
            (none_of_all is_failed run.steps).1
              (c.no_failed_step ((eq_iff run.status "done").0 e))),
        excluded (str_eq run.status "failed") (not (has_text run.error || has_text run.error_code))
            (λ e. rw (c.explained ((eq_iff run.status "failed").0 e)) refl),
        marked_lines folder.events_jsonl,
        (none_of_all is_marked folder.events_jsonl).1 c.readable,
        c.indexed,
      )
      (excluded (not (is_absent file)) (same_id (id_in_file file) run.id && is_terminal_run run)
        (λ a. ground (arith, c.unlocked)))

pub fails_when-IsConsistent :
    (run : Run) (folder : Folder) (file : LockFile)
    → fails run folder file ≡ false ↔ IsConsistent run folder file
fails_when-IsConsistent run folder file =
    (fails-IsConsistent run folder file, IsConsistent-fails run folder file)

pass_when : (b : Bool) → ◌≡◌ {A = String} (if b then "FAIL" else "PASS") "PASS" ↔ (b ≡ false)
pass_when true = (λ h. sym ((eq_iff "FAIL" "PASS").1 h), λ h. cc)
pass_when false = (λ h. refl, λ h. refl)

-- A run passes the check exactly when it is consistent: it has an id, its workspace exists and holds
-- its status and no line that is no JSON, its index of artifacts can be read or is missing, a run that
-- has ended has its end and no lock, one that is done has no failed step, and one that has failed has
-- an error.
pub passes_when-IsConsistent :
    (process : Process) (now : String) (run : Run) (folder : Folder) (file : LockFile)
    → (check_run_consistency process now run folder file).status ≡ "PASS"
      ↔ IsConsistent run folder file
unfolding check_run_consistency report_of
passes_when-IsConsistent process now run folder file =
    rw (severe-all_issues run folder process file).at (
      λ h. (fails_when-IsConsistent run folder file).0 ((pass_when _).0 h),
      λ c. (pass_when _).1 ((fails_when-IsConsistent run folder file).1 c),
    )

-- A run that is recovered as interrupted passes the check: it has an id, its workspace exists, holds
-- the new status and nothing that cannot be read, the time is a text, and the lock of the project is
-- not of this run.
pub recovered_passes :
    (process : Process) (checked_at now : String) (reason : Option String) (run : Run)
    (folder : Folder) (file : LockFile)
    → has_text run.id ≡ true
    → has_text (some now) ≡ true
    → folder.exists ≡ true
    → folder.state_json ≡ StateFile.state (some "failed")
    → All (λ line. is_marked line ≡ false) folder.events_jsonl
    → is_bad folder.index_json ≡ false
    → (is_absent file ≡ false → same_id (id_in_file file) run.id ≡ false)
    → (check_run_consistency process checked_at
        (mark_stale_active_run_interrupted now reason run)
        folder
        file).status
      ≡ "PASS"
unfolding mark_stale_active_run_interrupted
recovered_passes process checked_at now reason run folder file named at placed saved readable
      indexed free =
    (passes_when-IsConsistent process checked_at (mark_stale_active_run_interrupted now reason run)
        folder file).1
      (record {
        named = named;
        placed = placed;
        saved = saved;
        ended = λ t. at;
        no_failed_step = λ e. elim (false≢true ((eq_iff "failed" "done").1 e)) [ ];
        explained = λ e. ground arith;
        readable = readable;
        indexed = indexed;
        unlocked = λ t. free;
      })
