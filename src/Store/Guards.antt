-- ===== src/Store/Guards.antt =====
-- internal/store/sqlite.go and recovery.go: which calls need authority, and which exclude it.
use mar.Prelude.{
  ℕ, ◌≡◌, Bool, true, ◌&&◌, List, [], ◌∷◌, none, some, ◌==◌, arith, inl, inr, Bool-cases, any,
  ==_iff,
}
use mar.Sql.{count_where, find_where}
use mar.Domain.Task.{Task, ExecutionAttempt, TaskState, is_active}
use mar.Store.{Db, ok, validate_attempt_authority_tx, is_attempt, by_id}
use mar.Store.Tasks.{
  transition_task_for_attempt, heartbeat_attempt, logical_fence_attempt, is_attempt_task,
  is_current_active, is_current,
}
use mar.Sql.Keys.{row_of_key, count_where-any}
use mar.Store.Recovery.{is_active_attempt}
use mar.Store.Safety.{Keyed}

pub ==-holds : (a b : ℕ) → (a == b) ≡ true → a ≡ b
==-holds a b h = (==_iff a b).0 h

-- An ACTIVE row of the attempt, and the task at its epoch: the check of authority passes.
authority_of_rows :
    (task attempt epoch : ℕ) (db : Db) (t : Task)
    → Keyed db
    → find_where (by_id task) db.tasks ≡ some t
    → (t.run_epoch == epoch) ≡ true
    → any (is_active_attempt task attempt epoch) db.attempts ≡ true
    → validate_attempt_authority_tx task attempt epoch db ≡ none
unfolding validate_attempt_authority_tx
authority_of_rows task attempt epoch db t v found at some_active =
    let (a, row, act) =
      row_of_key (λ x. x.id) attempt (is_active_attempt task attempt epoch)
        (is_attempt task attempt epoch) db.attempts (λ x h. ground arith) (λ x h. ground arith)
        v.attempt_keys some_active in
    ground arith

current_authority :
    (task attempt epoch : ℕ) (db : Db)
    → Keyed db
    → is_current task epoch db ≡ true
    → any (is_active_attempt task attempt epoch) db.attempts ≡ true
    → validate_attempt_authority_tx task attempt epoch db ≡ none
current_authority task attempt epoch db v now_current some_active =
    let (t, found, hit) =
      row_of_key (λ x. x.id) task (λ x. x.id == task && x.run_epoch == epoch) (by_id task) db.tasks
        (λ x h. ground arith) (λ x h. ground arith) v.task_keys now_current in
    authority_of_rows task attempt epoch db t v found (ground arith) some_active

any-implies {ℓ} :
    {R : Type ℓ} (p q : R → Bool) (xs : List R)
    → ((x : R) → p x ≡ true → q x ≡ true)
    → any p xs ≡ true
    → any q xs ≡ true
any-implies p q [] pq h = cc
any-implies p q (x ∷ xs) pq h = ground (arith, pq x, any-implies p q xs pq)

any-and {ℓ} :
    {R : Type ℓ} (p : R → Bool) (b : Bool) (xs : List R) → any (λ x. p x && b) xs ≡ true → b ≡ true
any-and p b [] h = cc
any-and p b (x ∷ xs) h = ground (arith, any-and p b xs)

any-current :
    (task attempt epoch : ℕ) (db : Db) (xs : List ExecutionAttempt)
    → any (is_current_active task attempt epoch db) xs ≡ true
    → (any (is_active_attempt task attempt epoch) xs ≡ true) × (is_current task epoch db ≡ true)
any-current task attempt epoch db [] h = cc
any-current task attempt epoch db (x ∷ xs) h = ground (arith, any-current task attempt epoch db xs)

counted_authority :
    (task attempt epoch : ℕ) (db : Db)
    → Keyed db
    → (count_where (is_current_active task attempt epoch db) db.attempts == 1) ≡ true
    → validate_attempt_authority_tx task attempt epoch db ≡ none
counted_authority task attempt epoch db v one =
    let (some_active, now_current) = any-current task attempt epoch db db.attempts (
      count_where-any (is_current_active task attempt epoch db) db.attempts 0 (==-holds _ 1 one)) in
    current_authority task attempt epoch db v now_current some_active

-- With unique keys, a heartbeat that succeeds comes from an attempt that passes the authority
-- check: it is ACTIVE, at the task's epoch.
heartbeat_attempt_needs_authority :
    (task attempt epoch now lease_deadline : ℕ) (db db' : Db)
    → Keyed db
    → heartbeat_attempt task attempt epoch now lease_deadline db ≡ ok (tt, db')
    → validate_attempt_authority_tx task attempt epoch db ≡ none
unfolding heartbeat_attempt
heartbeat_attempt_needs_authority task attempt epoch now lease_deadline db db' v h =
    elim (Bool-cases (count_where (is_current_active task attempt epoch db) db.attempts == 1)) [
      | inl one ↦ counted_authority task attempt epoch db v one
      | inr none_or_more ↦ let h' = rw none_or_more at h in ground arith
    ]

-- With unique keys, a logical fence that succeeds takes an authority that was there.
logical_fence_attempt_needs_authority :
    (task attempt epoch now : ℕ) (db db' : Db)
    → Keyed db
    → logical_fence_attempt task attempt epoch now db ≡ ok (tt, db')
    → validate_attempt_authority_tx task attempt epoch db ≡ none
unfolding logical_fence_attempt
logical_fence_attempt_needs_authority task attempt epoch now db db' v h =
    elim (Bool-cases (count_where (is_current_active task attempt epoch db) db.attempts == 1)) [
      | inl one ↦ counted_authority task attempt epoch db v one
      | inr none_or_more ↦ let h' = rw none_or_more at h in ground arith
    ]

-- With unique keys, TransitionTaskForAttempt succeeds only for an attempt that passes the
-- authority check.
pub transition_task_for_attempt_needs_authority :
    (task attempt epoch : ℕ) (from to : TaskState) (now : ℕ) (db db' : Db)
    → Keyed db
    → transition_task_for_attempt task attempt epoch from to now db ≡ ok (tt, db')
    → validate_attempt_authority_tx task attempt epoch db ≡ none
unfolding transition_task_for_attempt
transition_task_for_attempt_needs_authority task attempt epoch from to now db db' v h =
    elim (Bool-cases (count_where (is_attempt_task task attempt epoch from db) db.tasks == 1)) [
      | inr none_or_more ↦ let h' = rw none_or_more at h in ground arith
      | inl one ↦
          let (t, found, hit) =
            row_of_key (λ x. x.id) task (is_attempt_task task attempt epoch from db) (by_id task)
              db.tasks (λ x p. ground arith) (λ x p. ground arith) v.task_keys
              (count_where-any (is_attempt_task task attempt epoch from db) db.tasks 0
                (==-holds _ 1 one)) in
          let some_active : any
                (λ a. is_attempt t.id attempt epoch a && is_active a.authority_state) db.attempts
              ≡ true =
            ground arith in
          let same : t.id ≡ task = ground arith in
          authority_of_rows task attempt epoch db t v found (ground arith) (
            any-implies _ (is_active_attempt task attempt epoch) db.attempts (λ a p. ground arith)
              some_active)
    ]
