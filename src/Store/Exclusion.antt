-- ===== src/Store/Exclusion.antt =====
-- internal/store/sqlite.go and recovery.go: what a call that succeeds excludes.
use mar.Prelude.{
  ℕ, ◌+◌, ◌≡◌, ◌≢◌, subst, true, List, [], ◌∷◌, none, some, ◌==◌, arith, inl, inr, Bool-cases, any,
  ==_refl,
}
use mar.Sql.{count_where, find_where}
use mar.Domain.Task.{Task, ExecutionAttempt, TaskState}
use mar.Store.{Db, ok, validate_attempt_authority_tx, live_attempts}
use mar.Store.Tasks.{orchestrator_transition, begin_attempt, is_settled}
use mar.Sql.Keys.{count_where-any}
use mar.Store.Guards.{==-holds}
use mar.Store.Tame.{On-ok, epoch_of}
use mar.Store.Fencing.{Begins, begin_attempt-Begins}
use mar.Store.Authority.{Authorized-validate, validate-Authorized, attempt_row, live_attempts-found}

-- What no live attempt leaves: nobody passes the authority check.
pub none_live-refused :
    (task attempt epoch : ℕ) (db : Db)
    → (live_attempts task db.attempts == 0) ≡ true
    → validate_attempt_authority_tx task attempt epoch db ≢ none
none_live-refused task attempt epoch db z h =
    let a = validate-Authorized task attempt epoch db h in
    let n = live_attempts-found task attempt epoch db.attempts a.row a.found a.row_active in
    ground arith

settled-none_live :
    (task : ℕ) (from : TaskState) (db : Db) (ts : List Task)
    → any (is_settled task from db) ts ≡ true
    → (live_attempts task db.attempts == 0) ≡ true
settled-none_live task from db [] h = cc
settled-none_live task from db (t ∷ ts) h = elim (Bool-cases (is_settled task from db t)) [
  | inr miss ↦ settled-none_live task from db ts (ground arith)
  | inl hit ↦
      let same : t.id ≡ task = ground arith in
      let live : (live_attempts t.id db.attempts == 0) ≡ true = ground arith in
      subst (λ i. (live_attempts i db.attempts == 0) ≡ true) same live
]

-- OrchestratorTransition succeeds only where every attempt of the task has ended, so that no
-- attempt passes the authority check.
pub orchestrator_transition_excludes :
    (task : ℕ) (from to : TaskState) (now : ℕ) (db db' : Db) (attempt epoch : ℕ)
    → orchestrator_transition task from to now db ≡ ok (tt, db')
    → (live_attempts task db.attempts ≡ 0)
      × (validate_attempt_authority_tx task attempt epoch db ≢ none)
unfolding orchestrator_transition
orchestrator_transition_excludes task from to now db db' attempt epoch h =
    elim (Bool-cases (count_where (is_settled task from db) db.tasks == 1)) [
      | inr none_or_more ↦ let h' = rw none_or_more at h in absurd (ground arith)
      | inl one ↦
          let live =
            settled-none_live task from db db.tasks
              (count_where-any (is_settled task from db) db.tasks 0 (==-holds _ 1 one)) in
          (==-holds _ 0 live, none_live-refused task attempt epoch db live)
    ]

-- BeginAttempt gives the new attempt authority at the epoch after the task's, where no attempt of
-- the task could still change it.
pub begin_attempt_authorizes :
    (task attempt worker supervisor now lease_deadline : ℕ) (db db' : Db) (a : ExecutionAttempt)
    → begin_attempt task attempt worker supervisor now lease_deadline db ≡ ok (a, db')
    → (live_attempts task db.attempts ≡ 0)
      × (a.run_epoch ≡ epoch_of task db.tasks + 1)
      × (validate_attempt_authority_tx task a.id a.run_epoch db' ≡ none)
unfolding find_where
begin_attempt_authorizes task attempt worker supervisor now lease_deadline db db' a h =
    let b =
      On-ok (Begins task db) _
        (begin_attempt-Begins task attempt worker supervisor now lease_deadline db) h in
    let now_at = b.epochs task in
    let there = b.added in
    let alive = b.is_active_now in
    let at = b.next_epoch in
    let mine = b.of_task in
    let self = ==_refl task in
    let self_id = ==_refl a.id in
    let self_epoch = ==_refl a.run_epoch in
    let found_new : attempt_row task a.id a.run_epoch db' ≡ some a = rw there (ground arith) in
    (
      b.nothing_live,
      at,
      Authorized-validate task a.id a.run_epoch db' (ground arith) (record {
        row = a;
        found = found_new;
        row_active = ground arith;
        at_epoch = ground arith;
      }),
    )
