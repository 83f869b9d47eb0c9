-- ===== src/Service/Tests.antt =====
-- internal/service/convergence_budget.go: a task that used its attempts, and the owner's steer.
use mar.Prelude.{ℕ, ◌≡◌, refl, true, [], ◌∷◌, Option, none, some, arith}
use mar.Domain.Task.{ExecutionAttempt, physically_terminated}
use mar.Domain.Control.{TaskControl, steer, SteerPayload, steer_blocked_choice, steer_valid}
use mar.Store.{Db, ok}
use mar.Store.ControlQueries.{latest_task_control, latest_where}
use mar.Store.Controls.{integrity_valid}
use mar.Service.Budget.{
  TaskConvergenceUsage, budget_of, current_attempt_by_task, manual_attempt_override_allowed,
  manual_attempt_override_approved, task_convergence_budget,
}
use mar.Service.Retry.{Approved, task_convergence_budget_retries}

abbrev go_on : TaskControl
go_on = record {
  id = 1;
  task_id = 5;
  version = 1;
  idempotency_key = 2;
  kind = steer;
  payload = 3;
  integrity_hash = 9;
  created_at = 20;
}

abbrev last_attempt : ExecutionAttempt
last_attempt = record {
  id = 7;
  task_id = 5;
  run_epoch = 3;
  worker_id = 1;
  supervisor_id = 1;
  authority_state = physically_terminated;
  started_at = 4;
  heartbeat_at = 5;
  lease_deadline = 6;
  terminated_at = some 10;
  terminal_status = 1;
}

abbrev stopped : Db
stopped = record {
  projects = [];
  tasks = [];
  attempts = last_attempt ∷ [];
  effects = [];
  controls = go_on ∷ [];
  integrations = [];
  results = [];
  evidence = [];
  workspaces = [];
  blockers = [];
}

abbrev nine : TaskControl → Option ℕ
nine c = some 9

abbrev choice : ℕ → Option SteerPayload
choice payload = some (record { kind = steer_blocked_choice; message = payload })

abbrev used : TaskConvergenceUsage
used = record {
  model_decisions = 5;
  worker_tool_calls = 6;
  model_total_tokens = 7;
  active_execution = 8;
  attempts = 3;
  no_progress_streak = 1;
}

one_more : task_convergence_budget nine choice 5 used stopped ≡ ok (budget_of used true)
unfolding task_convergence_budget manual_attempt_override_approved manual_attempt_override_allowed
    current_attempt_by_task latest_task_control latest_where integrity_valid steer_valid
one_more = refl

one_more_open : (budget_of used true).exhausted_reason ≡ none
unfolding budget_of
one_more_open = refl

task_convergence_budget_retries_example :
    Approved nine choice 5 stopped × ((budget_of used true).remaining_attempts ≡ 1)
task_convergence_budget_retries_example =
    task_convergence_budget_retries nine choice 5 used stopped (budget_of used true) one_more
      one_more_open (omega arith)
