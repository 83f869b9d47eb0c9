-- ===== src/Store/Blockers.antt =====
-- internal/store/task_blocker.go: the explanation of a BLOCKED task. The table's key is the task;
-- `trim` is strings.TrimSpace.
use mar.Prelude.{
  ℕ, ◌≡◌, refl, Bool, true, ◌&&◌, ◌||◌, not, List, [], ◌∷◌, Option, none, some, ◌==◌, if◌then◌else◌,
  any, arith, inl, inr, Bool-cases, Distinct, ==_refl,
}
use mar.Sql.{find_where, count_where, update_where}
use mar.Domain.Task.{Task, TaskState, state_eq, state_eq_iff, blocked, preflight, workspace_ready}
use mar.Domain.Blocker.{is_blank_phase, TaskBlocker}
use mar.Store.{
  Db, ok, err, Tx, done, not_found, state_conflict, constraint_failed, bad_blocker, by_id,
  get_task_row, set_state, ◌>>◌,
}
use mar.Store.Tasks.{move_task, is_settled}
use mar.Store.Tame.{On, On-if, On-ok, task_ids}
use mar.Store.Integration.Places.{state_of, update_where-Moves}
use mar.Store.Integration.Kept.{On-then, On-map}

-- WHERE task_id = ?
abbrev pub blocks_task : ℕ → TaskBlocker → Bool
blocks_task id b = b.task_id == id

-- validateTaskBlocker
unfoldable pub validate_task_blocker : TaskBlocker → Bool
validate_task_blocker b =
    not (b.task_id == 0 || is_blank_phase b.phase || b.code == 0 || b.detail == 0)

-- DELETE FROM task_blockers WHERE task_id = ?
unfoldable pub delete_blockers : ℕ → List TaskBlocker → List TaskBlocker
delete_blockers id [] = []
delete_blockers id (b ∷ bs) =
    let rest = delete_blockers id bs in if blocks_task id b then rest else b ∷ rest

-- clearTaskBlockerTx, and ClearTaskBlocker
unfoldable pub clear_task_blocker : ℕ → Tx (Unit {0})
clear_task_blocker id db = done (record db { blockers = delete_blockers id db.blockers })

-- CurrentTaskBlocker
unfoldable pub current_task_blocker : ℕ → Db → Option TaskBlocker
current_task_blocker id db = find_where (blocks_task id) db.blockers

-- WHERE id = ? AND state = ? AND run_epoch = 0, without an attempt or a workspace of the task
abbrev pub is_untouched : ℕ → TaskState → Db → Task → Bool
is_untouched task from db t =
    t.id == task
    && (state_eq t.state from
        && (t.run_epoch == 0
            && (not (any (λ a. a.task_id == t.id) db.attempts)
                && not (any (λ w. w.task_id == t.id) db.workspaces))))

-- recoverNoWorkspaceToPreflight
unfoldable pub recover_no_workspace_to_preflight : ℕ → TaskState → ℕ → Tx (Unit {0})
recover_no_workspace_to_preflight task from now db =
    (move_task (is_untouched task from db) (set_state preflight now) state_conflict
        >> clear_task_blocker task)
      db

-- RecoverBlockedWithoutWorkspaceToPreflight
unfoldable pub recover_blocked_without_workspace_to_preflight : ℕ → ℕ → Tx (Unit {0})
recover_blocked_without_workspace_to_preflight task = recover_no_workspace_to_preflight task blocked

-- RecoverWorkspaceReadyWithoutWorkspaceToPreflight
unfoldable pub recover_workspace_ready_without_workspace_to_preflight : ℕ → ℕ → Tx (Unit {0})
recover_workspace_ready_without_workspace_to_preflight task =
    recover_no_workspace_to_preflight task workspace_ready

module _ (trim : ℕ → ℕ) where
  -- The row as the INSERT has it.
  abbrev pub new_row : TaskBlocker → ℕ → TaskBlocker
  new_row b now = record b {
    code = trim b.code;
    detail = trim b.detail;
    recovery = trim b.recovery;
    created_at = if b.created_at == 0 then now else b.created_at;
    updated_at = now;
  }

  -- ON CONFLICT … DO UPDATE: all but the time of creation.
  abbrev pub renew : TaskBlocker → ℕ → TaskBlocker → TaskBlocker
  renew b now old = record (new_row b now) { task_id = old.task_id; created_at = old.created_at }

  -- upsertTaskBlockerTx
  unfoldable pub upsert_task_blocker_tx : TaskBlocker → ℕ → Tx (Unit {0})
  upsert_task_blocker_tx b now db =
      if not (validate_task_blocker b)
      then err bad_blocker
      else if any (blocks_task b.task_id) db.blockers
      then done
          (record db { blockers = update_where (blocks_task b.task_id) (renew b now) db.blockers })
      else if any (by_id b.task_id) db.tasks
      then done (record db { blockers = new_row b now ∷ db.blockers })
      else err constraint_failed

  -- BlockTask
  unfoldable pub block_task : ℕ → TaskState → TaskBlocker → ℕ → Tx (Unit {0})
  block_task task from blocker now db =
      let b = record blocker { task_id = task } in
      if not (validate_task_blocker b)
      then err bad_blocker
      else (move_task (is_settled task from db) (set_state blocked now) state_conflict
            >> upsert_task_blocker_tx b now)
          db

  -- SetTaskBlocker; the UPDATE of the task's time may affect no row.
  unfoldable pub set_task_blocker : TaskBlocker → ℕ → Tx (Unit {0})
  set_task_blocker b now db =
      if not (validate_task_blocker b) then err bad_blocker else elim (get_task_row b.task_id db) [
        | none ↦ err not_found
        | some t ↦
            if not (state_eq t.state blocked)
            then err state_conflict
            else upsert_task_blocker_tx b now (record db {
              tasks =
                  update_where (λ x. x.id == b.task_id && state_eq x.state blocked)
                    (λ x. record x { updated_at = now }) db.tasks;
            })
      ]

  -- The blocker that a task has says what it was given.
  abbrev pub Says : ℕ → TaskBlocker → Db → Type 0
  Says task b db =
      (row : TaskBlocker) × (current_task_blocker task db ≡ some row)
      × (row.phase ≡ b.phase)
      × (row.code ≡ trim b.code)
      × (row.detail ≡ trim b.detail)
      × (row.recovery ≡ trim b.recovery)

  any_found :
      (id : ℕ) (bs : List TaskBlocker)
      → any (blocks_task id) bs ≡ true
      → (r : TaskBlocker) × (find_where (blocks_task id) bs ≡ some r)
  unfolding find_where
  any_found id [] h = cc
  any_found id (x ∷ xs) h = elim (Bool-cases (blocks_task id x)) [
    | inl y ↦ (x, rw y refl)
    | inr n ↦ let (r, e) = any_found id xs (ground arith) in (r, rw n e)
  ]

  renewed :
      (b : TaskBlocker) (now : ℕ) (bs : List TaskBlocker) (r : TaskBlocker)
      → find_where (blocks_task b.task_id) bs ≡ some r
      → find_where (blocks_task b.task_id) (update_where (blocks_task b.task_id) (renew b now) bs)
        ≡ some (renew b now r)
  unfolding find_where update_where
  renewed b now [] r e = cc
  renewed b now (x ∷ xs) r e = ground (arith, renewed b now xs r)

  upsert-Says :
      (b : TaskBlocker) (now : ℕ) (db : Db)
      → On
          (λ _ db'. Says b.task_id b db' × (db'.tasks ≡ db.tasks))
          (upsert_task_blocker_tx b now db)
  unfolding upsert_task_blocker_tx current_task_blocker find_where
  upsert-Says b now db =
      let P = λ (_ : Unit {0}) (db' : Db). Says b.task_id b db' × (db'.tasks ≡ db.tasks) in
      On-if P (not (validate_task_blocker b)) _ _ (λ _. tt)
        λ _.
          On-if P (any (blocks_task b.task_id) db.blockers) _ _
            (λ y.
              let (r, e) = any_found b.task_id db.blockers y in
              ((renew b now r, renewed b now db.blockers r e, refl, refl, refl, refl), refl))
            λ _.
              On-if P (any (by_id b.task_id) db.tasks) _ _
                (λ _. ((new_row b now, rw (==_refl b.task_id) refl, refl, refl, refl, refl), refl))
                (λ _. tt)

  block_task-Says :
      (task : ℕ) (from : TaskState) (b : TaskBlocker) (now : ℕ) (db : Db)
      → Distinct (task_ids db.tasks)
      → On
          (λ _ db'.
            (state_of task db.tasks ≡ some from)
            × (state_of task db'.tasks ≡ some blocked)
            × Says task b db')
          (block_task task from b now db)
  unfolding block_task
  block_task-Says task from b now db keys =
      let P = λ (_ : Unit {0}) (db' : Db).
        (state_of task db.tasks ≡ some from)
        × (state_of task db'.tasks ≡ some blocked)
        × Says task b db' in
      let given = record b { task_id = task } in
      let hit = is_settled task from db in
      On-if P (not (validate_task_blocker given)) _ _ (λ _. tt)
        λ _.
          On-then P
            (λ db'. (state_of task db.tasks ≡ some from) × (state_of task db'.tasks ≡ some blocked))
            (move_task hit (set_state blocked now) state_conflict)
            (upsert_task_blocker_tx given now) db
            (On-if _ (count_where hit db.tasks == 1) _ _
              (λ one.
                let m =
                  update_where-Moves hit (set_state blocked now) task from blocked db.tasks
                    (λ t h. (ground arith, (state_eq_iff t.state from).0 (ground arith)))
                    (λ t. (refl, λ _. refl)) keys one in
                (m.before, m.after))
              (λ _. tt))
            λ db' both.
              On-map _ P (upsert_task_blocker_tx given now db')
                (λ _ db'' says. (both.0, rw (says.1) (both.1), says.0)) (upsert-Says given now db')

  -- A task that BlockTask blocks, where the key of tasks is unique, was in the state that the
  -- caller named, is BLOCKED, and its current blocker is what the caller gave, with its texts
  -- trimmed.
  pub block_task_explains :
      (task : ℕ) (from : TaskState) (b : TaskBlocker) (now : ℕ) (db db' : Db)
      → Distinct (task_ids db.tasks)
      → block_task task from b now db ≡ ok (tt, db')
      → (state_of task db.tasks ≡ some from)
        × (state_of task db'.tasks ≡ some blocked)
        × Says task b db'
  block_task_explains task from b now db db' keys h =
      On-ok
        (λ (_ : Unit {0}) d.
          (state_of task db.tasks ≡ some from)
          × (state_of task d.tasks ≡ some blocked)
          × Says task b d)
        (block_task task from b now db) (block_task-Says task from b now db keys) h
