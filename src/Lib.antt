-- ===== src/Lib.antt =====
-- A model of the core of the AI agent workflow: the parts that decide what happens to a run, its
-- steps, its leases, its model providers and its delivered files.
--
-- The parts and how they interact. A run is a document with a list of steps. Its statuses and
-- those of its steps change through the state machine (app/workflow_engine/state_machine.py),
-- which checks each change against a table and keeps a bounded history; the run store
-- (app/stores/run_store.py) and the step store (app/stores/step_store.py) call it inside
-- `mutate_run`, which also counts versions. A controller works on a run only under a lease with a
-- fencing token (app/workflow_runtime/run_lease.py). Calls of a model provider pass a circuit
-- breaker (app/services/model_circuit_breaker.py). When a run is finished its files are copied
-- from the isolated workspace to the project by a journalled transaction
-- (app/workflow_runtime/delivery_journal.py), which survives a crash. When a step fails the retry
-- guard (app/workflow_runtime/retry_guard.py) decides whether it is tried again. A completed task
-- leaves a checkpoint (app/workflow_runtime/task_checkpoints.py). What failed is classified
-- (app/workflow_runtime/failure_classifier.py), and from its class follow the step to go back to
-- (app/workflow_runtime/retry_policy.py) and the prompt of a repair
-- (app/workflow_runtime/repair_policy.py). A run is done when the completion gate
-- (app/workflow_runtime/completion_gate.py) passes it. A run whose process is gone is recovered, and
-- the lock of its project is freed (app/workflow_runtime/run_lifecycle.py). The risk of a change
-- (app/workflow_runtime/risk_engine.py) decides where a run waits for an approval. The delivery as a
-- whole (app/workflow_runtime/atomic_delivery.py) applies, validates and then commits or rolls back.
-- A check (app/workflow_runtime/run_consistency.py) compares runs with their workspaces, and slots
-- (app/core/provider_slots.py) bound the calls of a provider that run at once.
--
-- Which file models which part.
-- + Prelude: Boolean tests, lists over the native numbers, results, texts, dictionaries.
--   Prelude/Letters has the methods of `str` for ASCII texts: a character outside ASCII has no
--   other case and is no space.
-- + Engine/Tables, Engine/History: `RUN_TRANSITIONS`, `STEP_TRANSITIONS`, `validate_transition`
--   and `append_transition`. Engine/Edges and Engine/Walks prove what the tables allow, in one
--   step and in many.
-- + Store/Records, Store/Runs, Store/Steps: the documents, `FileRunStore` and `FileStepStore`. A
--   call that raises is an `err` and has no new file, as `mutate` of app/persistence/json_store.py
--   saves only after the call has returned. Store/Legal, Store/Kept, Store/Operations: the
--   invariant of the file. Store/Versions: what a transition does to one run and to the others.
-- + Circuit/Breaker: `Circuit` and `ModelCircuitBreaker`, times in milliseconds. The lock makes
--   each method one step, so interleaved calls are sequences of calls. Circuit/Bounds,
--   Circuit/Probes, Circuit/Keys: its invariant, its probes, its keys.
-- + Lease/Lifetimes, Lease/Tokens: the lifetimes from the environment, and the operations on
--   `run_lease`, `last_run_lease` and `run_lease_epoch`, with the time as an argument.
--   Lease/Calls, Lease/Fencing: tokens under any sequence of calls. Lease/Holding: one lease,
--   until it expires and after. Lease/Attempts, Lease/Once: `begin_attempt` and `finish_attempt`.
-- + Delivery/Files: three trees of files, the journal file, and actions on them that return, raise
--   or crash. The process crashes at the effect for which `steps_left` leaves no step, so a
--   theorem about every `steps_left` is one about a crash before any effect. Hashing, the check of
--   relative paths and the directories above a path are a parameter (`Platform`), of which the
--   theorems use only the named hypotheses of `IsApart` and `IsPlaced`. Delivery/Journal,
--   Delivery/Prepare, Delivery/Apply, Delivery/Rollback: `prepare_delivery_journal`,
--   `apply_delivery_journal`, `commit_delivery_journal` and `rollback_delivery_journal`.
--   Delivery/Keeps and Delivery/Ends: rules for invariants and for results of actions.
--   Delivery/Invariant, Delivery/Forward, Delivery/Recoverable: the state between two effects of
--   an application. Delivery/Placed, Delivery/Backups, Delivery/Prepared, Delivery/Untouched: what
--   a preparation leaves, at its end and wherever it stops. Delivery/Changes, Delivery/Progress:
--   single changes in a world without a crash. Delivery/Restoring, Delivery/Restores,
--   Delivery/Resumes: a rollback and a second application from such a state. Delivery/Skips: a
--   rollback of what is marked as rolled back.
-- + Atomic/Policy, Atomic/Requests, Atomic/Deliver: `evaluate_delivery_validation`
--   (autopilot_policy.py) and `deliver_isolated_changes` (atomic_delivery.py of
--   app/workflow_runtime), which runs the journal under the lease. The leases and the time at each
--   check, the verdict on a project, the changed files and the identifier of a transaction are a
--   parameter (`Surroundings`, `DeliveryRequest`); a validation changes no file of the project.
--   Atomic/Commit: rules for the stages, and the commit. Atomic/Answers: the specification, what
--   each answer says. Atomic/AllOrNothing, Atomic/Whole, Atomic/Installs: that the code keeps it.
--   Atomic/Allowed: what the policy asks for.
-- + Retry/Budget, Retry/Records, Retry/Guard, Retry/Decide: `recovery_budget`,
--   `record_failure_attempt`, `clear_retry_history` and `should_stop_retry`. What the guard takes
--   from the classification of a message and from snapshots of the project is a parameter
--   (`Judgement`). Retry/Stops: the cumulative budgets. Retry/Repeats: the loop over the history.
-- + Retry/Progress: `compare_progress` of app/workflow_runtime/progress_evaluator.py.
--   Retry/Improves and Retry/Steady: when it reports an improvement, and improvements in sequence.
-- + Checkpoint/Archives, Checkpoint/Restore: `_iter_project_files`, `create_task_checkpoint`,
--   `_prune_old_checkpoints` and `restore_task_checkpoint`. A project is its regular files; what
--   the file system answers on a restore is a parameter (`FileSystem`). Checkpoint/Extracts,
--   Checkpoint/Restoring: what an extraction leaves, and what a checkpoint restores.
-- + Failure/Codes, Failure/Classes, Failure/Messages, Failure/Markers: the tables of
--   `classify_failure`, in the texts of the source. Failure/Classify, Failure/Runs:
--   `classify_failure`, `classify_step_failure`, `classify_run_failures`. Failure/Named: error
--   codes.
-- + Target/Records, Target/Choose: `retry_target_for_step`, `escalated_retry_target_for_step` and
--   `retry_target_for_failure`. Target/Exists, Target/Found: their target. Target/Repair:
--   `policy_for_failure` and `render_repair_prompt`.
-- + Completion/Records, Completion/Gate: `evaluate_completion` and `require_completion`.
--   Completion/Checks, Completion/Passes: each check, and all of them.
-- + Recovery/Owners, Recovery/Runs, Recovery/Stores, Recovery/Locks:
--   app/runtime_modules/run_owner.py and app/workflow_runtime/run_lifecycle.py. Recovery/Resume,
--   Recovery/Stale, Recovery/Guards, Recovery/Held: where a run goes on, what a recovery leaves, what a
--   lock does in one call and in many.
-- + Consistency/Issues, Consistency/Checks, Consistency/Stores: `check_run_consistency` and
--   `check_store_consistency` of app/workflow_runtime/run_consistency.py. Consistency/Severe,
--   Consistency/Passes: which issues are errors, and when a run passes.
-- + Scoring/Levels, Scoring/Risk, Scoring/Stability: `assess_risk`, `should_pause_for_approval` and
--   `compute_workflow_stability_score`. Scoring/Pauses, Scoring/Bounds: what they say.
-- + Slots/Pool: app/core/provider_slots.py for one event loop, as a step relation. Slots/Runs,
--   Slots/Capped, Slots/Overrun: the limits, in an environment that changes and in one that does not.
-- + The Examples modules, Delivery/FirstDelivery and Delivery/Remarked hold concrete runs and
--   apply each theorem that has hypotheses.
--
-- Bounds and fuel. There is no fuel: every loop is a recursion over a list. Integers of the source
-- are Python's, without a bound; those that are modelled are never negative.
--
-- Not modelled: the texts for the user interface in state_machine.py, SQL and file input and
-- output, prompts, the web interface and the command line.
pub mod Prelude
pub mod Engine
pub mod Failure
pub mod Store
pub mod Circuit
pub mod Lease
pub mod Delivery
pub mod Atomic
pub mod Consistency
pub mod Retry
pub mod Target
pub mod Checkpoint
pub mod Recovery
pub mod Scoring
pub mod Slots
pub mod Completion
