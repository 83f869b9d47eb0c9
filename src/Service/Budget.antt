-- ===== src/Service/Budget.antt =====
-- internal/service/convergence_budget.go: the budget of a task and of a cognition episode. Usage is
-- counted in natural numbers, times in nanoseconds; sums stay below the range of int64.
use mar.Prelude.{
  ℕ, ◌+◌, ◌-◌, ◌<◌, ◌≡◌, ◌⊎◌, Bool, true, false, ◌&&◌, not, Option, none, some, List, [], ◌∷◌, ◌==◌,
  if◌then◌else◌, ltb, leb, arith,
}
use mar.Domain.Task.{
  TaskState, ExecutionAttempt, is_terminated, workspace_ready, retry_wait, blocked,
}
use mar.Domain.Control.{TaskControl, kind_eq, steer, SteerPayload, steer_valid, is_blocked_choice}
use mar.Store.{Db, Result, ok, err, Tx, state_conflict, get_task}
use mar.Store.Tasks.{orchestrator_transition}
use mar.Store.Controls.{integrity_valid}
use mar.Store.ControlQueries.{latest_task_control}

abbrev pub max_episode_decisions : ℕ
max_episode_decisions = 12

abbrev pub max_episode_control_calls : ℕ
max_episode_control_calls = 40

abbrev pub max_episode_payload_bytes : ℕ
max_episode_payload_bytes = 524288

abbrev pub max_model_decisions : ℕ
max_model_decisions = 24

abbrev pub max_worker_tool_calls : ℕ
max_worker_tool_calls = 64

abbrev pub max_model_tokens : ℕ
max_model_tokens = 300000

-- 30 minutes
abbrev pub max_active_execution : ℕ
max_active_execution = 1800000000000

abbrev pub max_attempts : ℕ
max_attempts = 3

pub record WebEpisodeUsage : Type 0 where
  pub decisions : ℕ
  pub control_calls : ℕ
  pub payload_bytes : ℕ
  pub worker_tool_calls : ℕ
  pub model_total_tokens : ℕ

pub record TaskConvergenceUsage : Type 0 where
  pub model_decisions : ℕ
  pub worker_tool_calls : ℕ
  pub model_total_tokens : ℕ
  pub active_execution : ℕ
  pub attempts : ℕ
  pub no_progress_streak : ℕ

pub data Reason : Type 0 where
  decision_limit control_call_limit payload_byte_limit : Reason
  no_progress model_decision_limit worker_tool_call_limit model_token_limit : Reason
  active_execution_limit attempt_limit : Reason

-- webEpisodeExhaustionReason; `none` is the empty text.
unfoldable pub web_episode_exhaustion_reason : WebEpisodeUsage → ℕ → ℕ → Option Reason
web_episode_exhaustion_reason u calls bytes =
    if leb max_episode_decisions u.decisions
    then some decision_limit
    else if ltb max_episode_control_calls (u.control_calls + calls)
    then some control_call_limit
    else if ltb max_episode_payload_bytes (u.payload_bytes + bytes)
    then some payload_byte_limit
    else none

pub record TaskConvergenceBudget : Type 0 where
  pub usage : TaskConvergenceUsage
  pub remaining_model_decisions : ℕ
  pub remaining_worker_tool_calls : ℕ
  pub remaining_model_tokens : ℕ
  pub remaining_active_execution : ℕ
  pub remaining_attempts : ℕ
  pub exhausted_reason : Option Reason
  pub no_progress_seen : Bool

-- The `switch` over what remains.
abbrev pub reason_of : Bool → ℕ → ℕ → ℕ → ℕ → ℕ → Option Reason
reason_of stuck decisions calls tokens active attempts =
    if stuck
    then some no_progress
    else if decisions == 0
    then some model_decision_limit
    else if calls == 0
    then some worker_tool_call_limit
    else if tokens == 0
    then some model_token_limit
    else if active == 0
    then some active_execution_limit
    else if attempts == 0
    then some attempt_limit
    else none

-- The budget that remains after a usage; `retry` is the answer of the manual override, asked only
-- where no attempt remains. A remainder stops at 0, as the subtraction does.
unfoldable pub budget_of : TaskConvergenceUsage → Bool → TaskConvergenceBudget
budget_of u retry =
    let decisions = max_model_decisions - u.model_decisions in
    let calls = max_worker_tool_calls - u.worker_tool_calls in
    let tokens = max_model_tokens - u.model_total_tokens in
    let active = max_active_execution - u.active_execution in
    let left = max_attempts - u.attempts in
    let attempts = if left == 0 && retry then 1 else left in
    let stuck = leb 2 u.no_progress_streak in
    record {
      usage = u;
      remaining_model_decisions = decisions;
      remaining_worker_tool_calls = calls;
      remaining_model_tokens = tokens;
      remaining_active_execution = active;
      remaining_attempts = attempts;
      exhausted_reason = reason_of stuck decisions calls tokens active attempts;
      no_progress_seen = stuck;
    }

-- The later of an attempt and the latest of the others.
abbrev later : ExecutionAttempt → Option ExecutionAttempt → ExecutionAttempt
later a none = a
later a (some b) = if ltb b.run_epoch a.run_epoch then a else b

-- CurrentAttemptByTask: ORDER BY run_epoch DESC LIMIT 1
unfoldable pub current_attempt_by_task : ℕ → List ExecutionAttempt → Option ExecutionAttempt
current_attempt_by_task task [] = none
current_attempt_by_task task (a ∷ rest) =
    let others = current_attempt_by_task task rest in
    if a.task_id == task then some (later a others) else others

-- `digest` is IntegrityDigest of a control, and `decode` json.Unmarshal of its payload.
module _ (digest : TaskControl → Option ℕ) (decode : ℕ → Option SteerPayload) where
  abbrev pub is_blocked_choice_payload : Option SteerPayload → Bool
  is_blocked_choice_payload none = false
  is_blocked_choice_payload (some p) = steer_valid p && is_blocked_choice p.kind

  abbrev pub is_after : ℕ → Option ℕ → Bool
  is_after at none = false
  is_after at (some ended) = ltb ended at

  -- manualAttemptOverrideAllowed
  unfoldable pub manual_attempt_override_allowed :
      Option TaskControl → Option ExecutionAttempt → Bool
  manual_attempt_override_allowed none attempt = false
  manual_attempt_override_allowed (some c) none = false
  manual_attempt_override_allowed (some c) (some a) =
      kind_eq c.kind steer
      && (integrity_valid digest c
          && (is_terminated a.authority_state
              && (is_blocked_choice_payload (decode c.payload)
                  && is_after c.created_at a.terminated_at)))

  -- manualAttemptOverrideApproved
  unfoldable pub manual_attempt_override_approved : ℕ → Db → Result Bool
  manual_attempt_override_approved task db = elim (latest_task_control digest task db) [
    | err e ↦ err e
    | ok c ↦ ok (manual_attempt_override_allowed c (current_attempt_by_task task db.attempts))
  ]

  -- TaskConvergenceBudget, with the usage of the task
  unfoldable pub task_convergence_budget :
      ℕ → TaskConvergenceUsage → Db → Result TaskConvergenceBudget
  task_convergence_budget task u db =
      if not (max_attempts - u.attempts == 0)
      then ok (budget_of u false)
      else elim (manual_attempt_override_approved task db) [
        | err e ↦ err e
        | ok retry ↦ ok (budget_of u retry)
      ]

-- BlockForConvergenceBudget
abbrev block_from : ℕ → TaskState → ℕ → Tx (Unit {0})
block_from task workspace_ready now = orchestrator_transition task workspace_ready blocked now
block_from task retry_wait now = orchestrator_transition task retry_wait blocked now
block_from task _ now = λ db. err state_conflict

unfoldable pub block_for_convergence_budget : ℕ → ℕ → Tx (Unit {0})
block_for_convergence_budget task now db = elim (get_task task db) [
  | err e ↦ err e
  | ok t ↦ block_from task t.state now db
]

-- No limit is reached; that of attempts may be where a manual retry was approved.
abbrev pub Within : TaskConvergenceUsage → Bool → Type 0
Within u retry =
    (u.no_progress_streak < 2)
    × (u.model_decisions < max_model_decisions)
    × (u.worker_tool_calls < max_worker_tool_calls)
    × (u.model_total_tokens < max_model_tokens)
    × (u.active_execution < max_active_execution)
    × ((u.attempts < max_attempts) ⊎ (retry ≡ true))

pub budget_of-none :
    (u : TaskConvergenceUsage) (retry : Bool)
    → (budget_of u retry).exhausted_reason ≡ none
    → Within u retry
unfolding budget_of
budget_of-none u retry h = ground arith

pub Within-budget_of :
    (u : TaskConvergenceUsage) (retry : Bool)
    → Within u retry
    → (budget_of u retry).exhausted_reason ≡ none
unfolding budget_of
Within-budget_of u retry h = ground arith
