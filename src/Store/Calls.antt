-- ===== src/Store/Calls.antt =====
-- internal/store/sqlite.go and recovery.go: the calls that give no attempt more authority.
use mar.Prelude.{ℕ, ◌≡◌, refl, Bool, true, not, ◌==◌, arith, inl, inr, Bool-cases, ltb}
use mar.Sql.{count_where, update_where}
use mar.Domain.Task.{Task, ExecutionAttempt, TaskState, is_active, is_terminated, state_eq, blocked}
use mar.Store.{Db, Error, Result, ok, err, set_state, Result-cases}
use mar.Store.Tasks.{
  move_task, orchestrator_transition, recover_task_to_workspace_ready, heartbeat_attempt,
  logical_fence_attempt, confirm_attempt_terminated, transition_task_for_attempt, fence,
  is_unterminated, terminate,
}
use mar.Store.Recovery.{
  require_physical_recovery, require_expired_physical_recovery, fence_active, block_unblocked,
  recovery_rows, has_lease, blocked_after, is_active_attempt,
}
use mar.Store.Tame.{
  Tame, Tame-refl, Tame-trans, Leads, Leads-if, Leads->>=, move_task-Tame, move_attempt-Tame,
  Demoted-update_where, Weaker,
}

pub move_state-Tame :
    (hit : Task → Bool) (to : TaskState) (now : ℕ) (e : Error) (db : Db)
    → Leads (Tame db) (move_task hit (set_state to now) e db)
move_state-Tame hit to now e db = move_task-Tame hit (set_state to now) e db (λ t. (refl, refl))

pub orchestrator_transition-Tame :
    (task : ℕ) (from to : TaskState) (now : ℕ) (db : Db)
    → Leads (Tame db) (orchestrator_transition task from to now db)
unfolding orchestrator_transition
orchestrator_transition-Tame task from to now db = move_state-Tame _ to now _ db

pub recover_task_to_workspace_ready-Tame :
    (task : ℕ) (from : TaskState) (now : ℕ) (db : Db)
    → Leads (Tame db) (recover_task_to_workspace_ready task from now db)
unfolding recover_task_to_workspace_ready
recover_task_to_workspace_ready-Tame task from now db = move_state-Tame _ _ now _ db

pub transition_task_for_attempt-Tame :
    (task attempt epoch : ℕ) (from to : TaskState) (now : ℕ) (db : Db)
    → Leads (Tame db) (transition_task_for_attempt task attempt epoch from to now db)
unfolding transition_task_for_attempt
transition_task_for_attempt-Tame task attempt epoch from to now db = move_state-Tame _ to now _ db

fence-Weaker :
    (now : ℕ) (a : ExecutionAttempt) → is_active a.authority_state ≡ true → Weaker a (fence now a)
fence-Weaker now a h = ground arith

pub heartbeat_attempt-Tame :
    (task attempt epoch now lease_deadline : ℕ) (db : Db)
    → Leads (Tame db) (heartbeat_attempt task attempt epoch now lease_deadline db)
unfolding heartbeat_attempt
heartbeat_attempt-Tame task attempt epoch now lease_deadline db =
    move_attempt-Tame _ _ _ db (λ a h. (refl, refl, refl, omega arith))

pub logical_fence_attempt-Tame :
    (task attempt epoch now : ℕ) (db : Db)
    → Leads (Tame db) (logical_fence_attempt task attempt epoch now db)
unfolding logical_fence_attempt
logical_fence_attempt-Tame task attempt epoch now db =
    move_attempt-Tame _ _ _ db (λ a h. fence-Weaker now a (ground arith))

terminate-Weaker : (status now : ℕ) (a : ExecutionAttempt) → Weaker a (terminate status now a)
terminate-Weaker status now a = ground arith

pub confirm_attempt_terminated-Tame :
    (task attempt epoch status now : ℕ) (db : Db)
    → Leads (Tame db) (confirm_attempt_terminated task attempt epoch status now db)
unfolding confirm_attempt_terminated
confirm_attempt_terminated-Tame task attempt epoch status now db =
    let same = Tame-refl db in
    let moved : Tame db (record db {
      attempts =
          update_where (is_unterminated task attempt epoch) (terminate status now) db.attempts;
    }) =
      record {
        epochs = λ id. refl;
        keys = λ d. d;
        attempts = Demoted-update_where _ _ db.attempts (λ a h. terminate-Weaker status now a);
      } in
    ground arith

fence_active-Tame :
    (a : ExecutionAttempt) (task attempt epoch now : ℕ) (db : Db)
    → Leads (Tame db) (fence_active a task attempt epoch now db)
fence_active-Tame a task attempt epoch now db = elim (Bool-cases (is_active a.authority_state)) [
  | inl y ↦ rw y (
      move_attempt-Tame (is_active_attempt task attempt epoch) (fence now) _ db
        (λ x h. fence-Weaker now x (ground arith)))
  | inr n ↦ rw n (Tame-refl db)
]

block_unblocked-Tame :
    (t : Task) (task epoch now : ℕ) (db : Db)
    → Leads (Tame db) (block_unblocked t task epoch now db)
block_unblocked-Tame t task epoch now db = elim (Bool-cases (state_eq t.state blocked)) [
  | inl y ↦ rw y (Tame-refl db)
  | inr n ↦ rw n (move_state-Tame _ blocked now _ db)
]

pub require_physical_recovery-Tame :
    (task attempt epoch now : ℕ) (db : Db)
    → Leads (Tame db) (require_physical_recovery task attempt epoch now db)
unfolding require_physical_recovery
require_physical_recovery-Tame task attempt epoch now db =
    elim (Result-cases (recovery_rows task attempt epoch db)) [
      | inl (e, h) ↦ rw (h, require_physical_recovery) tt
      | inr ((t, a), h) ↦
          rw (h, require_physical_recovery)
            (elim (Bool-cases (is_terminated a.authority_state)) [
              | inl y ↦ rw y tt
              | inr n ↦ rw n (
                  Leads->>= (fence_active a task attempt epoch now)
                    (λ _. block_unblocked t task epoch now) db
                    (fence_active-Tame a task attempt epoch now db)
                    (λ _ db'. block_unblocked-Tame t task epoch now db'))
            ])
    ]

Leads-trans {ℓ} :
    {A : Type ℓ} (db db' : Db) (r : Result (A × Db))
    → Tame db db'
    → Leads (Tame db') r
    → Leads (Tame db) r
Leads-trans db db' (err e) p h = tt
Leads-trans db db' (ok (a, db'')) p h = Tame-trans p h

blocked_after-Tame :
    (t : Task) (task epoch now : ℕ) (db : Db) → Leads (Tame db) (blocked_after t task epoch now db)
blocked_after-Tame t task epoch now db =
    Leads->>= (block_unblocked t task epoch now) (λ _ db'. ok (true, db')) db
      (block_unblocked-Tame t task epoch now db) (λ _ db'. Tame-refl db')

pub fence_where-Tame :
    (hit : ExecutionAttempt → Bool) (now : ℕ) (db : Db)
    → ((a : ExecutionAttempt) → hit a ≡ true → is_active a.authority_state ≡ true)
    → Tame db (record db { attempts = update_where hit (fence now) db.attempts })
fence_where-Tame hit now db h = record {
  epochs = λ id. refl;
  keys = λ d. d;
  attempts = Demoted-update_where hit (fence now) db.attempts (λ a k. fence-Weaker now a (h a k));
}

pub require_expired_physical_recovery-Tame :
    (task attempt epoch now : ℕ) (db : Db)
    → Leads (Tame db) (require_expired_physical_recovery task attempt epoch now db)
unfolding require_expired_physical_recovery
require_expired_physical_recovery-Tame task attempt epoch now db =
    elim (Result-cases (recovery_rows task attempt epoch db)) [
      | inl (e, h) ↦ rw (h, require_expired_physical_recovery) tt
      | inr ((t, a), h) ↦
          let hit = has_lease a task attempt epoch in
          let fenced : Tame db (record db { attempts = update_where hit (fence now) db.attempts }) =
            fence_where-Tame hit now db (λ x k. ground arith) in
          let rest =
            blocked_after-Tame t task epoch now
              (record db { attempts = update_where hit (fence now) db.attempts }) in
          rw (h, require_expired_physical_recovery)
            (Leads-if (Tame db) (is_terminated a.authority_state) _ _ (λ _. Tame-refl db)
              λ _.
                Leads-if (Tame db) (not (is_active a.authority_state)) _ _
                  (λ _. blocked_after-Tame t task epoch now db)
                  λ _.
                    Leads-if (Tame db) (ltb now a.lease_deadline) _ _ (λ _. Tame-refl db)
                      λ _.
                        Leads-if (Tame db) (not (count_where hit db.attempts == 1)) _ _
                          (λ _. Tame-refl db) λ _. Leads-trans db _ _ fenced rest)
    ]
