-- ===== src/Service/Retry.antt =====
-- internal/service/convergence_budget.go: when a task without attempts left may run once more.
use mar.Prelude.{
  ℕ, ◌-◌, ◌≤◌, ◌<◌, ◌≡◌, inl, inr, refl, ap, sym, subst, ◌∙◌, Bool, true, ◌&&◌, Option, none, some,
  ◌==◌, arith, Option-cases,
}
use mar.Domain.Task.{ExecutionAttempt, is_terminated}
use mar.Domain.Control.{TaskControl, SteerPayload, kind_eq, steer, steer_valid, is_blocked_choice}
use mar.Store.{Db, Result-cases, ok, err}
use mar.Store.ControlQueries.{latest_task_control}
use mar.Service.Budget.{
  TaskConvergenceUsage, TaskConvergenceBudget, max_attempts, budget_of, current_attempt_by_task,
  manual_attempt_override_allowed, manual_attempt_override_approved, task_convergence_budget,
  budget_of-none,
}

-- The latest control of the task is a steer to go on with a blocked task, written after its current
-- attempt was confirmed dead.
pub record Approved (digest : TaskControl → Option ℕ) (decode : ℕ → Option SteerPayload) (task : ℕ)
    (db : Db) : Type 0 where
  pub control : TaskControl
  pub payload : SteerPayload
  pub attempt : ExecutionAttempt
  pub ended : ℕ
  pub latest : latest_task_control digest task db ≡ ok (some control)
  pub steers : kind_eq control.kind steer ≡ true
  pub decoded : decode control.payload ≡ some payload
  pub chooses : (steer_valid payload && is_blocked_choice payload.kind) ≡ true
  pub current : current_attempt_by_task task db.attempts ≡ some attempt
  pub dead : is_terminated attempt.authority_state ≡ true
  pub ended_at : attempt.terminated_at ≡ some ended
  pub after : ended < control.created_at

ok_injective {ℓ} : {A : Type ℓ} {a : A} (b : A) → ok a ≡ ok b → a ≡ b
ok_injective b e = ap (λ r. elim r [ ok x ↦ x | err _ ↦ b ]) e

one_left :
    (u : TaskConvergenceUsage) (retry : Bool)
    → (max_attempts - u.attempts == 0) ≡ true
    → retry ≡ true
    → (budget_of u retry).remaining_attempts ≡ 1
unfolding budget_of
one_left u retry gone again = rw (gone, again) refl

module _ (digest : TaskControl → Option ℕ) (decode : ℕ → Option SteerPayload) where
  allowed-Approved :
      (task : ℕ) (db : Db) (c : Option TaskControl) (a : Option ExecutionAttempt)
      → latest_task_control digest task db ≡ ok c
      → current_attempt_by_task task db.attempts ≡ a
      → manual_attempt_override_allowed digest decode c a ≡ true
      → Approved digest decode task db
  unfolding manual_attempt_override_allowed
  allowed-Approved task db none a l k h = cc
  allowed-Approved task db (some c) none l k h = cc
  allowed-Approved task db (some c) (some a) l k h = elim (Option-cases (decode c.payload)) [
    | inl e ↦ let h' = rw e at h in absurd (ground arith)
    | inr (p, e) ↦ elim (Option-cases a.terminated_at) [
      | inl t ↦ let h' = rw (e, t) at h in absurd (ground arith)
      | inr (ended, t) ↦
          let h' = rw (e, t) at h in
          record {
            control = c;
            payload = p;
            attempt = a;
            ended = ended;
            latest = l;
            steers = ground arith;
            decoded = e;
            chooses = ground arith;
            current = k;
            dead = ground arith;
            ended_at = t;
            after = ground arith;
          }
    ]
  ]

  manual_attempt_override_approved-Approved :
      (task : ℕ) (db : Db)
      → manual_attempt_override_approved digest decode task db ≡ ok true
      → Approved digest decode task db
  unfolding manual_attempt_override_approved
  manual_attempt_override_approved-Approved task db h =
      elim (Result-cases (latest_task_control digest task db)) [
        | inl (x, e) ↦ let h' = rw (e, manual_attempt_override_approved) at h in cc
        | inr (c, e) ↦
            let h' = rw (e, manual_attempt_override_approved) at h in
            allowed-Approved task db c (current_attempt_by_task task db.attempts) e refl
              (ok_injective true h')
      ]

  -- A task that has used its attempts may run again, its budget says, only where the owner wrote a
  -- steer that chooses to go on after the last attempt was confirmed dead, and then for one
  -- attempt.
  pub task_convergence_budget_retries :
      (task : ℕ) (u : TaskConvergenceUsage) (db : Db) (b : TaskConvergenceBudget)
      → task_convergence_budget digest decode task u db ≡ ok b
      → b.exhausted_reason ≡ none
      → max_attempts ≤ u.attempts
      → Approved digest decode task db × (b.remaining_attempts ≡ 1)
  unfolding task_convergence_budget
  task_convergence_budget_retries task u db b h free used =
      let gone : (max_attempts - u.attempts == 0) ≡ true = ground arith in
      elim (Result-cases (manual_attempt_override_approved digest decode task db)) [
        | inl (x, e) ↦ let h' = rw (gone, e, task_convergence_budget) at h in cc
        | inr (retry, e) ↦
            let h' = rw (gone, e, task_convergence_budget) at h in
            let same : budget_of u retry ≡ b = ok_injective b h' in
            let within = budget_of-none u retry (ap (λ x. x.exhausted_reason) same ∙ free) in
            let left : b.remaining_attempts ≡ 1 =
              sym (ap (λ x. x.remaining_attempts) same) ∙ one_left u retry gone (ground arith) in
            let yes : retry ≡ true = ground arith in
            (
              manual_attempt_override_approved-Approved task db (
                  subst (λ x. manual_attempt_override_approved digest decode task db ≡ ok x) yes e),
              left,
            )
      ]
