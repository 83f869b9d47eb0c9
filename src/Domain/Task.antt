-- ===== src/Domain/Task.antt =====
-- internal/domain/task.go: states of tasks and attempts, and the owner's view of a task's life.
-- A text that the code only compares is a number; times are numbers.
use mar.Prelude.{
  ℕ, zero, suc, ◌≡◌, refl, ap, sym, ◌∙◌, Bool, true, false, ◌↔◌, Option, List, [], ◌∷◌, arith, ◌==◌,
}

pub data TaskState : Type 0 where
  submitted preflight waiting_resource workspace_ready running verifying : TaskState
  reviewing ready_to_integrate integrating verified complete input_required : TaskState
  blocked retry_wait failed cancelled : TaskState

pub data LifecycleStatus : Type 0 where
  queued in_progress needs_input held_up succeeded lost called_off : LifecycleStatus

pub record LifecycleProjection : Type 0 where
  pub status : LifecycleStatus
  pub phase : TaskState

lifecycle_status : TaskState → LifecycleStatus
lifecycle_status submitted = queued
lifecycle_status preflight = queued
lifecycle_status waiting_resource = queued
lifecycle_status workspace_ready = queued
lifecycle_status retry_wait = queued
lifecycle_status running = in_progress
lifecycle_status verifying = in_progress
lifecycle_status reviewing = in_progress
lifecycle_status ready_to_integrate = in_progress
lifecycle_status integrating = in_progress
lifecycle_status verified = in_progress
lifecycle_status input_required = needs_input
lifecycle_status blocked = held_up
lifecycle_status complete = succeeded
lifecycle_status failed = lost
lifecycle_status cancelled = called_off

-- ProjectTaskLifecycle
unfoldable pub project_task_lifecycle : TaskState → LifecycleProjection
unfolding lifecycle_status
project_task_lifecycle s = record { status = lifecycle_status s; phase = s }

pub data AttemptAuthorityState : Type 0 where
  active logically_fenced terminating physically_terminated : AttemptAuthorityState

abbrev pub is_active : AttemptAuthorityState → Bool
is_active active = true
is_active _ = false

abbrev pub is_terminated : AttemptAuthorityState → Bool
is_terminated physically_terminated = true
is_terminated _ = false

-- The columns of a task that the store reads or writes one by one; `contract_hash` stands for the
-- rest of the contract.
pub record Project : Type 0 where
  pub id : ℕ
  pub root : ℕ
  pub created_at : ℕ

pub record Task : Type 0 where
  pub id : ℕ
  pub idempotency_key : ℕ
  pub project_id : ℕ
  pub contract_hash : ℕ
  pub state : TaskState
  pub run_epoch : ℕ
  pub created_at : ℕ
  pub updated_at : ℕ

pub record ExecutionAttempt : Type 0 where
  pub id : ℕ
  pub task_id : ℕ
  pub run_epoch : ℕ
  pub worker_id : ℕ
  pub supervisor_id : ℕ
  pub authority_state : AttemptAuthorityState
  pub started_at : ℕ
  pub heartbeat_at : ℕ
  pub lease_deadline : ℕ
  pub terminated_at : Option ℕ
  pub terminal_status : ℕ

position : TaskState → ℕ
position submitted = 0
position preflight = 1
position waiting_resource = 2
position workspace_ready = 3
position running = 4
position verifying = 5
position reviewing = 6
position ready_to_integrate = 7
position integrating = 8
position verified = 9
position complete = 10
position input_required = 11
position blocked = 12
position retry_wait = 13
position failed = 14
position cancelled = 15

states : List TaskState
states =
    submitted ∷ preflight ∷ waiting_resource ∷ workspace_ready ∷ running ∷ verifying ∷ reviewing
    ∷ ready_to_integrate ∷ integrating ∷ verified ∷ complete ∷ input_required ∷ blocked ∷ retry_wait
    ∷ failed ∷ cancelled ∷ []

nth : List TaskState → ℕ → TaskState
nth [] i = submitted
nth (x ∷ xs) zero = x
nth (x ∷ xs) (suc i) = nth xs i

nth-position : (s : TaskState) → nth states (position s) ≡ s
unfolding nth states position
nth-position submitted = refl
nth-position _ = refl

-- `==` of two task states
unfoldable pub state_eq : TaskState → TaskState → Bool
unfolding position
state_eq a b = position a == position b

pub state_eq_iff : (a b : TaskState) → (state_eq a b ≡ true) ↔ (a ≡ b)
unfolding state_eq
state_eq_iff a b = (
  λ h.
      let e : position a ≡ position b = ground arith in
      sym (nth-position a) ∙ ap (nth states) e ∙ nth-position b,
  λ e. let p = ap position e in ground arith,
)

pub state_eq_refl : (a : TaskState) → state_eq a a ≡ true
state_eq_refl a = (state_eq_iff a a).1 refl
