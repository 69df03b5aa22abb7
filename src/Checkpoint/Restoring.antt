-- ===== src/Checkpoint/Restoring.antt =====
-- What a checkpoint restores.
use Prim.Native.Char.{Char}
use Prim.Native.String.{len}
use ai_agent_workflow.Prelude.{
  ℕ, suc, ◌+◌, ◌||◌, any, Bool-cases, ◌≤◌, String, ◌≡◌, refl, ap, ◌∙◌, inl, inr, Bool, true, false,
  Option, none, List, [], ◌∷◌, ◌++◌, arith, eq_refl, leb, ltb, length, length-append, ok, err,
  subst, not, select,
}
use ai_agent_workflow.Checkpoint.Archives.{
  CheckpointId, same_id, Files, Checkpoint, Checkpoints, set_at, is_covered, iter_project_files,
  CheckpointLimits, kept_count, archived, delete_all, cut_last, prune_old_checkpoints, next_id,
  new_checkpoint, written, create_task_checkpoint,
}
use ai_agent_workflow.Checkpoint.Restore.{
  archive_not_found, FileSystem, unlink_files, extract_all, restore_members, restore_files,
  restore_task_checkpoint,
}
use ai_agent_workflow.Checkpoint.Extracts.{
  IsDistinct, passing, over, get-select, select-IsDistinct, IsPlaceable, first_outside-none,
  extract_all-get,
}
use ai_agent_workflow.Prelude.Dict.{get}

same_id_refl : (a : CheckpointId) → same_id a a ≡ true
same_id_refl a = rw (eq_refl a.task) (ground arith)

unfoldable pub bytes : Files → ℕ
bytes [] = 0
bytes ((path, content) ∷ rest) = len content + bytes rest

-- Files within the limit are all archived.
archived_all :
    (limit total : ℕ) (files : Files)
    → total + bytes files ≤ limit
    → archived limit total files ≡ (files, [], total + bytes files)
unfolding archived bytes
archived_all limit total [] h = let e : total ≡ total + 0 = omega arith in ap (λ n. ([], [], n)) e
archived_all limit total ((path, content) ∷ rest) h =
    let fits : leb (total + len content) limit ≡ true = ground arith in
    let later : archived limit (total + len content) rest
        ≡ (rest, [], total + len content + bytes rest) =
      archived_all limit (total + len content) rest (omega arith) in
    let e : total + len content + bytes rest ≡ total + (len content + bytes rest) = omega arith in
    rw fits (rw later (ap (λ n. ((path, content) ∷ rest, [], n)) e))

cut_last-short : {A : Type 0} (n : ℕ) (xs : List A) → length xs ≤ n → cut_last n xs ≡ []
unfolding cut_last
cut_last-short n [] h = refl
cut_last-short n (x ∷ xs) h =
    let all : ltb n (suc (length xs)) ≡ false = ground arith in rw all refl

or_false : (a b : Bool) → (a || b) ≡ false → (a ≡ false) × (b ≡ false)
or_false a b h = ground arith

-- The last record is not among those that are pruned.
any-cut_last :
    {A : Type 0} (p : A → Bool) (n : ℕ) (xs : List A) (c : A)
    → 1 ≤ n
    → any p xs ≡ false
    → any p (cut_last n (xs ++ c ∷ [])) ≡ false
unfolding cut_last
any-cut_last p n [] c one h = rw (cut_last-short n (c ∷ []) one) refl
any-cut_last p n (x ∷ xs) c one h =
    let (here, later) = or_false (p x) _ h in
    let rest : any p (cut_last n (xs ++ c ∷ [])) ≡ false = any-cut_last p n xs c one later in
    elim (Bool-cases (ltb n (suc (length (xs ++ c ∷ []))))) [
      | inl e ↦ rw e (rw (here, rest) refl)
      | inr e ↦ rw e refl
    ]

delete_all_misses :
    {V : Type 0} (stale : List Checkpoint) (files : CheckpointId → Option V) (id : CheckpointId)
    → any (λ (c : Checkpoint). same_id c.id id) stale ≡ false
    → delete_all stale files id ≡ files id
unfolding delete_all set_at
delete_all_misses [] files id h = refl
delete_all_misses (c ∷ rest) files id h =
    let (here, later) = or_false (same_id c.id id) _ h in
    delete_all_misses rest (set_at files c.id none) id later ∙ rw here refl

-- Pruning keeps the files of the last record, if its id is no other record's.
prune_keeps :
    (limits : CheckpointLimits) (run : Checkpoints) (old : List Checkpoint) (c : Checkpoint)
    → run.task_checkpoints ≡ old ++ c ∷ []
    → any (λ (o : Checkpoint). same_id o.id c.id) old ≡ false
    → ((prune_old_checkpoints limits run).archives c.id ≡ run.archives c.id)
      × ((prune_old_checkpoints limits run).manifests c.id ≡ run.manifests c.id)
unfolding prune_old_checkpoints
prune_keeps limits run old c recorded new =
    let stale : List Checkpoint = cut_last (kept_count limits) run.task_checkpoints in
    let misses : any (λ (o : Checkpoint). same_id o.id c.id) stale ≡ false =
      ap (λ l. any (λ (o : Checkpoint). same_id o.id c.id) (cut_last (kept_count limits) l))
        recorded
      ∙ any-cut_last (λ (o : Checkpoint). same_id o.id c.id) (kept_count limits) old c (omega arith)
          new in
    elim (Bool-cases (leb (length run.task_checkpoints) (kept_count limits))) [
      | inl e ↦ rw e (refl, refl)
      | inr e ↦ rw e (
        delete_all_misses stale run.archives c.id misses,
        delete_all_misses stale run.manifests c.id misses,
      )
    ]

-- Pruning deletes the files of the oldest record, when there is one record too many.
prune_loses :
    (limits : CheckpointLimits) (run : Checkpoints) (oldest : Checkpoint) (rest : List Checkpoint)
    → run.task_checkpoints ≡ oldest ∷ rest
    → length rest ≡ kept_count limits
    → (prune_old_checkpoints limits run).archives oldest.id ≡ none
unfolding prune_old_checkpoints
prune_loses limits run oldest rest recorded full =
    let over : leb (length (oldest ∷ rest)) (kept_count limits) ≡ false = ground arith in
    let one : cut_last (kept_count limits) (oldest ∷ rest) ≡ oldest ∷ [] =
      unfold cut_last in
      rw (cut_last-short (kept_count limits) rest (omega arith)) (ground arith) in
    rw (recorded, over, one)
      (unfold delete_all in unfold set_at in rw (same_id_refl oldest.id) refl)

-- The extraction of the covered files of one project over the files of another.
replaced :
    (limits later : CheckpointLimits) (fs : FileSystem) (project current : Files)
    → IsDistinct project
    → IsDistinct current
    → IsPlaceable fs (iter_project_files limits project)
    → let (restored, answer) =
        extract_all fs (iter_project_files limits project) (unlink_files later current) in
      (answer ≡ ok tt)
      × ((path : String)
          → get restored path
            ≡ over
                (passing (is_covered limits) path (get project path))
                (passing (λ file. not (is_covered later file)) path (get current path)))
unfolding iter_project_files unlink_files
replaced limits later fs project current once once' placeable =
    let (returns, at) =
      extract_all-get fs (select (is_covered limits) project)
        (select (λ file. not (is_covered later file)) current) placeable
        (select-IsDistinct (is_covered limits) project once) in
    (
      returns,
      λ path.
          at path
          ∙ rw
              (
                get-select (is_covered limits) project path once,
                get-select (λ file. not (is_covered later file)) current path once',
              )
              refl,
    )

module _ (is_alnum : Char → Bool) (limits : CheckpointLimits) (run : Checkpoints)
    (task_id step_key : String) (project : Files) (later : CheckpointLimits) (fs : FileSystem)
    (current : Files) where
  -- A checkpoint whose id no record has, of a project whose covered files fit into the limit, restores
  -- them, also if older checkpoints are pruned. Whatever the project is by then, the call returns, and
  -- at each path stands the covered file of the checkpointed project, if there is one, else a file
  -- that was there at the call and is not covered under the limits of that time, and else nothing.
  -- Both projects have no path twice, and the archived paths are inside the project and can be
  -- written.
  pub create_then_restore :
      any (λ (c : Checkpoint). same_id c.id (next_id is_alnum run task_id)) run.task_checkpoints
        ≡ false
      → bytes (iter_project_files limits project) ≤ limits.max_total_bytes
      → IsDistinct project
      → IsDistinct current
      → IsPlaceable fs (iter_project_files limits project)
      → let (run', c) = create_task_checkpoint is_alnum limits run task_id step_key project in
        let (restored, answer) = restore_task_checkpoint later fs run' c.id current in
        (answer ≡ ok tt)
        × ((path : String)
            → get restored path
              ≡ over
                  (passing (is_covered limits) path (get project path))
                  (passing (λ file. not (is_covered later file)) path (get current path)))
  unfolding create_task_checkpoint restore_task_checkpoint written set_at restore_files
      restore_members
  create_then_restore new fits once once' placeable =
      let c : Checkpoint = new_checkpoint is_alnum limits run task_id step_key project in
      let covered : Files = iter_project_files limits project in
      let all : archived limits.max_total_bytes 0 covered ≡ (covered, [], 0 + bytes covered) =
        archived_all limits.max_total_bytes 0 covered (omega arith) in
      let (archives, manifests) =
        prune_keeps limits (written is_alnum limits run task_id step_key project)
          run.task_checkpoints c refl new in
      rw (archives, manifests)
        (rw (same_id_refl c.id) (
          rw all (
            rw (first_outside-none fs covered placeable)
              (replaced limits later fs project current once once' placeable))))

  -- In a run that has as many checkpoints as are kept, of which the oldest has the id that the next
  -- checkpoint gets, the next checkpoint cannot be restored: its archive is pruned with the oldest.
  pub full_checkpoint_is_lost :
      (oldest : Checkpoint) (rest : List Checkpoint)
      → run.task_checkpoints ≡ oldest ∷ rest
      → length (oldest ∷ rest) ≡ kept_count limits
      → oldest.id ≡ next_id is_alnum run task_id
      → let (run', c) = create_task_checkpoint is_alnum limits run task_id step_key project in
        restore_task_checkpoint later fs run' c.id current ≡ (current, err (archive_not_found c.id))
  unfolding create_task_checkpoint restore_task_checkpoint written restore_files
  full_checkpoint_is_lost oldest rest recorded full same =
      let c : Checkpoint = new_checkpoint is_alnum limits run task_id step_key project in
      let gone : (prune_old_checkpoints limits
              (written is_alnum limits run task_id step_key project)).archives
            oldest.id
          ≡ none =
        prune_loses limits (written is_alnum limits run task_id step_key project) oldest
          (rest ++ c ∷ []) (ap (λ l. l ++ c ∷ []) recorded)
          (omega (arith, length-append rest (c ∷ []), full)) in
      let gone' : (prune_old_checkpoints limits
              (written is_alnum limits run task_id step_key project)).archives
            c.id
          ≡ none =
        subst
          (λ i.
            (prune_old_checkpoints limits
                (written is_alnum limits run task_id step_key project)).archives
              i
            ≡ none)
          same gone in
      rw gone' refl
