-- ===== src/Scheduler/StepTests.antt =====
-- internal/scheduler and internal/store: a step that serves one waiting task, and the theorems at it.
use mar.Prelude.{ℕ, ◌+◌, ◌≡◌, refl, true, false, [], ◌∷◌, none, some}
use mar.Sql.{count_where}
use mar.Domain.Task.{Task, state_eq, waiting_resource, blocked}
use mar.Domain.Blocker.{TaskBlocker, phase_workspace}
use mar.Store.{Db, ok}
use mar.Store.Blockers.{
  block_task, Says, block_task_explains, validate_task_blocker, upsert_task_blocker_tx,
}
use mar.Store.Integration.Places.{state_of}
use mar.Governor.{Snapshot}
use mar.Scheduler.Step.{Config, Outside, Scheduler, step}
use mar.Scheduler.Release.{step_governor}

abbrev waiting_task : Task
waiting_task = record {
  id = 5;
  idempotency_key = 50;
  project_id = 1;
  contract_hash = 500;
  state = waiting_resource;
  run_epoch = 0;
  created_at = 1;
  updated_at = 1;
}

abbrev waiting_store : Db
waiting_store = record {
  projects = record { id = 1; root = 8; created_at = 0 } ∷ [];
  tasks = waiting_task ∷ [];
  attempts = [];
  effects = [];
  controls = [];
  integrations = [];
  results = [];
  evidence = [];
  workspaces = [];
  blockers = [];
}

abbrev idle_machine : Snapshot
idle_machine = record {
  cpu_percent = 0;
  cpu_known = true;
  memory_load_percent = 10;
  available_ram_bytes = 1000;
  free_disk_bytes = 1000;
  mar_disk_used_bytes = 0;
  user_interactive = false;
  io_pressure_percent = 0;
  io_pressure_known = false;
}

abbrev quiet : Outside ℕ
quiet = record {
  reconcile_checkpoint_transactions = none;
  reclaim_terminal = none;
  prune_rebuildable_caches = none;
  checkpoint_blocked_workspaces = none;
  ensure_read_only = λ id books. (record books { world = books.world + 1 }, some id);
  ensure_mutable = λ id books. (record books { world = books.world + 1 }, some id);
  read_sensor = λ books. (books, some idle_machine);
  invalidate_disk_usage = λ books. books;
  contract = λ t. record { priority = []; local_file_write = true; local_git_write = false };
  claim_text = λ id. id + 100;
}

abbrev limits : Config
limits = record {
  aging_interval = 10;
  workspace_ram_reservation = 5;
  workspace_disk_reservation = 5;
  pressure_reclaim_limit = 8;
}

abbrev resting : Scheduler ℕ
resting = record {
  governor = record {
    cfg = record {
      max_cpu_percent = 80000;
      max_memory_load_percent = 80000;
      max_io_pressure_percent = 0;
      min_free_ram_bytes = 10;
      min_free_disk_bytes = 10;
      max_mar_disk_bytes = 0;
      max_heavy_jobs = 1;
      max_heavy_jobs_per_project = 1;
      max_heavy_jobs_interactive = 0;
    };
    active = [];
  };
  books = record { db = waiting_store; dispatches = []; world = 0 };
  last_idle_checkpoint = none;
}

step_governor_example : (step quiet limits 9 resting).0.governor ≡ resting.governor
step_governor_example = step_governor quiet limits 9 resting

abbrev no_space : TaskBlocker
no_space = record {
  task_id = 5;
  phase = phase_workspace;
  code = 3;
  detail = 4;
  recovery = 0;
  created_at = 0;
  updated_at = 0;
}

abbrev blocked_store : Db
blocked_store = record waiting_store {
  tasks = record waiting_task { state = blocked; updated_at = 9 } ∷ [];
  blockers = record no_space { created_at = 9; updated_at = 9 } ∷ [];
}

blocked_answer :
    block_task (λ t. t) 5 waiting_resource no_space 9 waiting_store ≡ ok (tt, blocked_store)
unfolding block_task validate_task_blocker upsert_task_blocker_tx state_eq mar.Sql.count_where
    mar.Sql.update_where
blocked_answer = refl

block_task_explains_example :
    (state_of 5 waiting_store.tasks ≡ some waiting_resource)
    × (state_of 5 blocked_store.tasks ≡ some blocked)
    × Says (λ t. t) 5 no_space blocked_store
block_task_explains_example =
    block_task_explains (λ t. t) 5 waiting_resource no_space 9 waiting_store blocked_store
      (refl, tt) blocked_answer
