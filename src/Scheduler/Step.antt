-- ===== src/Scheduler/Step.antt =====
-- internal/scheduler/scheduler.go: one scheduling decision. The workspace provisioner and the
-- sensor are outside: what they do is a change of the store and of a world `W`, and an interface
-- that the provisioner does not have is `none`. The mutex makes Step one step.
use mar.Prelude.{
  ℕ, ◌-◌, Bool, true, false, ◌&&◌, ◌||◌, not, List, [], ◌∷◌, ◌++◌, map, Option, none, some, ◌==◌,
  if◌then◌else◌, ltb, is_empty,
}
use mar.Sql.{find_where}
use mar.Domain.Task.{Task, state_eq, waiting_resource, blocked}
use mar.Store.{Db, get_task_row}
use mar.Store.Tasks.{orchestrator_transition}
use mar.Store.Scheduling.{
  ProjectScheduleState, list_waiting_tasks, list_project_schedule_states, record_project_dispatch,
}
use mar.Store.History.{settle}
use mar.Governor.{
  Governor, Claim, Snapshot, Decision, DenialReason, host_disk_reserve, mar_disk_budget, Error,
  Result, ok, err, search, try_acquire, release, run_if_idle_exclusive,
}
use mar.Scheduler.{Waiting, select_task, priority_rank}

pub record Config : Type 0 where
  pub aging_interval : ℕ
  pub workspace_ram_reservation : ℕ
  pub workspace_disk_reservation : ℕ
  pub pressure_reclaim_limit : ℕ

-- Config.withDefaults
unfoldable pub with_defaults : Config → Config
with_defaults c =
    if c.pressure_reclaim_limit == 0 then record c { pressure_reclaim_limit = 8 } else c

-- Config.validate
unfoldable pub config_valid : Config → Bool
config_valid c = not (c.aging_interval == 0) && not (c.pressure_reclaim_limit == 0)

pub data StepAction : Type 0 where
  no_action action_idle action_waiting_resource action_workspace_ready action_blocked : StepAction

-- idleCheckpointBatch, and idleCheckpointInterval in nanoseconds
abbrev pub idle_checkpoint_batch : ℕ
idle_checkpoint_batch = 2

abbrev pub idle_checkpoint_interval : ℕ
idle_checkpoint_interval = 30000000000

-- The fields of a contract that a decision reads.
pub record Contract : Type 0 where
  pub priority : List ℕ
  pub local_file_write : Bool
  pub local_git_write : Bool

-- What the provisioner and the sensor act on.
pub record Books {ℓ} (W : Type ℓ) : Type ℓ where
  pub db : Db
  pub dispatches : List ProjectScheduleState
  pub world : W

-- A call that counts what it did, and may fail all the same.
abbrev pub Counted {ℓ} : Type ℓ → Type 0 → Type ℓ
Counted W N = Books W → Books W × N × Option Error

-- The provisioner, the sensor, the decoding of contracts, and the text "workspace:" + id.
pub record Outside {ℓ} (W : Type ℓ) : Type ℓ where
  pub reconcile_checkpoint_transactions : Option (ℕ → Counted W ℕ)
  pub reclaim_terminal : Option (ℕ → Counted W ℕ)
  pub prune_rebuildable_caches : Option (Counted W ℕ)
  pub checkpoint_blocked_workspaces : Option (ℕ → Counted W (ℕ × ℕ))
  pub ensure_read_only : ℕ → Books W → Books W × Option ℕ
  pub ensure_mutable : ℕ → Books W → Books W × Option ℕ
  pub read_sensor : Books W → Books W × Option Snapshot
  pub invalidate_disk_usage : Books W → Books W
  pub contract : Task → Contract
  pub claim_text : ℕ → ℕ

pub data Fault : Type 0 where
  reconcile_failed idle_checkpoint_failed acquire_failed : Error → Fault
  reclaim_failed : List Error → Fault
  workspace_failed dispatch_failed : Fault

pub record StepResult : Type 0 where
  pub action : StepAction
  pub task_id : ℕ
  pub project_id : ℕ
  pub denial_reasons : List DenialReason
  pub workspace : Option ℕ
  pub reclaimed_terminal_workspaces : ℕ
  pub reclaimed_cache_bytes : ℕ
  pub checkpointed_blocked_workspaces : ℕ
  pub checkpointed_workspace_bytes : ℕ

-- StepResult{}
abbrev pub no_result : StepResult
no_result = record {
  action = no_action;
  task_id = 0;
  project_id = 0;
  denial_reasons = [];
  workspace = none;
  reclaimed_terminal_workspaces = 0;
  reclaimed_cache_bytes = 0;
  checkpointed_blocked_workspaces = 0;
  checkpointed_workspace_bytes = 0;
}

pub record Scheduler {ℓ} (W : Type ℓ) : Type ℓ where
  pub governor : Governor
  pub books : Books W
  pub last_idle_checkpoint : Option ℕ

-- The local variables of Step between its attempts to acquire.
pub record Progress {ℓ} (W : Type ℓ) : Type ℓ where
  pub governor : Governor
  pub books : Books W
  pub reply : Result (Bool × Decision)
  pub reclaimed : ℕ
  pub cache_bytes : ℕ
  pub checkpointed : ℕ
  pub checkpoint_bytes : ℕ
  pub faults : List Error

-- hasDiskPressure
unfoldable pub has_disk_pressure : List DenialReason → Bool
has_disk_pressure [] = false
has_disk_pressure (host_disk_reserve ∷ rs) = true
has_disk_pressure (mar_disk_budget ∷ rs) = true
has_disk_pressure (r ∷ rs) = has_disk_pressure rs

-- !decision.Allowed && hasDiskPressure(decision.Reasons); an error of TryAcquire ends the step.
abbrev pub is_pressed : Result (Bool × Decision) → Bool
is_pressed (ok (_, d)) = not d.allowed && has_disk_pressure d.reasons
is_pressed (err e) = false

abbrev pub as_list : Option Error → List Error
as_list none = []
as_list (some e) = e ∷ []

abbrev pub waiting_of : (Task → Contract) → Task → Waiting
waiting_of contract t = record {
  id = t.id;
  project_id = t.project_id;
  priority = (contract t).priority;
  updated_at = t.updated_at;
  created_at = t.created_at;
}

abbrev pub last_dispatch_of : Option ProjectScheduleState → Option ℕ
last_dispatch_of none = none
last_dispatch_of (some s) = s.last_dispatched_at

module _ {ℓ} {W : Type ℓ} (out : Outside W) (cfg : Config) where
  -- TryAcquire, with a reading of the sensor: the books after it, and the rest.
  unfoldable pub acquire :
      Claim → Governor → Books W → Books W × Governor × Result (Bool × Decision)
  acquire claim g books =
      let (books', reading) = out.read_sensor books in
      let (g', reply) = try_acquire g reading claim in (books', g', reply)

  abbrev pub acquired : Progress W → Books W × Governor × Result (Bool × Decision) → Progress W
  acquired p (books, governor, reply) = record p {
    governor = governor;
    books = books;
    reply = reply;
  }

  -- InvalidateMARDiskUsageCache and TryAcquire once more.
  abbrev pub acquire_again : Claim → Progress W → Progress W
  acquire_again claim p = acquired p (acquire claim p.governor (out.invalidate_disk_usage p.books))

  abbrev pub reclaimed_with : Claim → Progress W → Books W × ℕ × Option Error → Progress W
  reclaimed_with claim p (books, n, e) =
      let p' = record p { books = books; reclaimed = n; faults = as_list e } in
      if ltb 0 n then acquire_again claim p' else p'

  -- ReclaimTerminal under disk pressure
  unfoldable pub reclaim_stage : Claim → Progress W → Progress W
  reclaim_stage claim p = if not (is_pressed p.reply) then p else elim out.reclaim_terminal [
    | none ↦ p
    | some reclaim ↦ reclaimed_with claim p (reclaim cfg.pressure_reclaim_limit p.books)
  ]

  -- The callback of RunIfIdleExclusive, on the books and the count.
  abbrev pub counting : {N : Type 0} → Counted W N → Books W × N → (Books W × N) × Option Error
  counting call (books, _) = let (books', n, e) = call books in ((books', n), e)

  abbrev pub pruned_with : Claim → Progress W → (Books W × ℕ) × Bool × Option Error → Progress W
  pruned_with claim p ((books, n), ran, e) =
      let p' = record p { books = books; cache_bytes = n; faults = p.faults ++ as_list e } in
      if ran && ltb 0 n then acquire_again claim p' else p'

  -- PruneRebuildableCaches under disk pressure, while nothing is active
  unfoldable pub prune_stage : Claim → Progress W → Progress W
  prune_stage claim p = if not (is_pressed p.reply) then p else elim out.prune_rebuildable_caches [
    | none ↦ p
    | some prune ↦
        pruned_with claim p
          (run_if_idle_exclusive p.governor (some (counting prune)) (p.books, p.cache_bytes))
  ]

  abbrev pub checkpointed_with : Claim → Progress W → Books W × (ℕ × ℕ) × Option Error → Progress W
  checkpointed_with claim p (books, (n, bytes), e) =
      let p' = record p {
        books = books;
        checkpointed = n;
        checkpoint_bytes = bytes;
        faults = p.faults ++ as_list e;
      } in
      if ltb 0 n || ltb 0 bytes then acquire_again claim p' else p'

  -- CheckpointBlockedWorkspaces under disk pressure
  unfoldable pub checkpoint_stage : Claim → Progress W → Progress W
  checkpoint_stage claim p =
      if not (is_pressed p.reply) then p else elim out.checkpoint_blocked_workspaces [
        | none ↦ p
        | some checkpoint ↦
            checkpointed_with claim p (checkpoint cfg.pressure_reclaim_limit p.books)
      ]

  abbrev pub first_progress : Books W × Governor × Result (Bool × Decision) → Progress W
  first_progress (books, governor, reply) = record {
    governor = governor;
    books = books;
    reply = reply;
    reclaimed = 0;
    cache_bytes = 0;
    checkpointed = 0;
    checkpoint_bytes = 0;
    faults = [];
  }

  -- The attempts to acquire: the first one, and those after each reclamation.
  unfoldable pub attempts : Claim → Governor → Books W → Progress W
  attempts claim g books =
      checkpoint_stage claim
        (prune_stage claim (reclaim_stage claim (first_progress (acquire claim g books))))

  -- A step that ends, with the scheduler after it.
  abbrev pub Ending : Type ℓ
  Ending = Scheduler W × StepResult × Option Fault

  abbrev pub reclaim_fault : List Error → Option Fault
  reclaim_fault [] = none
  reclaim_fault (e ∷ es) = some (reclaim_failed (e ∷ es))

  abbrev pub counted : Progress W → StepAction → Task → List DenialReason → Option ℕ → StepResult
  counted p action t reasons workspace = record {
    action = action;
    task_id = t.id;
    project_id = t.project_id;
    denial_reasons = reasons;
    workspace = workspace;
    reclaimed_terminal_workspaces = p.reclaimed;
    reclaimed_cache_bytes = p.cache_bytes;
    checkpointed_blocked_workspaces = p.checkpointed;
    checkpointed_workspace_bytes = p.checkpoint_bytes;
  }

  -- EnsureReadOnly for a task that may write neither files nor git, else EnsureMutable.
  abbrev pub ensure_workspace : Task → Books W → Books W × Option ℕ
  ensure_workspace t books =
      if not (out.contract t).local_file_write && not (out.contract t).local_git_write
      then out.ensure_read_only t.id books
      else out.ensure_mutable t.id books

  -- After a workspace failed: a task that still waits is BLOCKED.
  abbrev pub block_waiting : ℕ → ℕ → Db → Db
  block_waiting task now db = elim (get_task_row task db) [
    | none ↦ db
    | some t ↦
        if state_eq t.state waiting_resource
        then settle db (orchestrator_transition task waiting_resource blocked now db)
        else db
  ]

  -- After the workspace: its failure, or the dispatch that is recorded.
  unfoldable pub finish :
      Progress W → Task → ℕ → Books W × Option ℕ → Books W × StepResult × Option Fault
  finish p t now (books, none) = (
    record books { db = block_waiting t.id now books.db },
    record no_result { action = action_blocked; task_id = t.id; project_id = t.project_id },
    some workspace_failed,
  )
  finish p t now (books, some workspace) =
      elim (record_project_dispatch t.project_id now books.db books.dispatches) [
        | none ↦ (books, no_result, some dispatch_failed)
        | some rows ↦ (
          record books { dispatches = rows },
          counted p action_workspace_ready t [] (some workspace),
          none,
        )
      ]

  abbrev pub ended_with : Scheduler W → Governor → Books W × StepResult × Option Fault → Ending
  ended_with s g (books, result, fault) = (record s { governor = g; books = books }, result, fault)

  -- `defer lease.Release()`
  abbrev pub let_go : Bool → ℕ → Governor → Governor
  let_go leased id g = if leased then release g id else g

  -- What follows the last attempt.
  unfoldable pub conclude : Scheduler W → Claim → Task → ℕ → Progress W → Ending
  conclude s claim t now p = elim p.reply [
    | err e ↦ ended_with s p.governor (p.books, no_result, some (acquire_failed e))
    | ok (leased, d) ↦
        if not d.allowed
        then ended_with s p.governor
            (p.books, counted p action_waiting_resource t d.reasons none, reclaim_fault p.faults)
        else ended_with s (let_go leased claim.id p.governor)
            (finish p t now (ensure_workspace t p.books))
  ]

  abbrev pub workspace_claim : Task → Claim
  workspace_claim t = record {
    id = out.claim_text t.id;
    project_id = t.project_id;
    class = search;
    ram_bytes = cfg.workspace_ram_reservation;
    disk_bytes = cfg.workspace_disk_reservation;
    heavy = false;
    priority = priority_rank (out.contract t).priority;
  }

  abbrev pub idle_result : ℕ → ℕ → StepResult
  idle_result n bytes = record no_result {
    action = action_idle;
    checkpointed_blocked_workspaces = n;
    checkpointed_workspace_bytes = bytes;
  }

  abbrev pub idle_with : Scheduler W → (Books W × (ℕ × ℕ)) × Bool × Option Error → Ending
  idle_with s ((books, (n, bytes)), ran, some e) =
      (record s { books = books }, idle_result n bytes, some (idle_checkpoint_failed e))
  idle_with s ((books, (n, bytes)), ran, none) = (
    record s {
      books = if ran && (ltb 0 n || ltb 0 bytes) then out.invalidate_disk_usage books else books;
    },
    idle_result n bytes,
    none,
  )

  -- CheckpointBlockedWorkspaces while nothing is active
  unfoldable pub idle_checkpoint : Scheduler W → Ending
  idle_checkpoint s = elim out.checkpoint_blocked_workspaces [
    | none ↦ (s, record no_result { action = action_idle }, none)
    | some call ↦ idle_with s (
        run_if_idle_exclusive s.governor (some (counting (call idle_checkpoint_batch)))
          (s.books, (0, 0)))
  ]

  abbrev pub is_rested : ℕ → Option ℕ → Bool
  is_rested now none = false
  is_rested now (some last) = ltb (now - last) idle_checkpoint_interval

  -- No task waits: at most one checkpoint in each interval.
  unfoldable pub idle_step : ℕ → Scheduler W → Ending
  idle_step now s =
      if is_rested now s.last_idle_checkpoint
      then (s, record no_result { action = action_idle }, none)
      else idle_checkpoint (record s { last_idle_checkpoint = some now })

  abbrev pub by_task : ℕ → Task → Bool
  by_task id t = t.id == id

  -- selectTask of the waiting tasks, as the row of the task.
  unfoldable pub chosen : ℕ → Books W → List Task → Option Task
  chosen now books waiting =
      elim (select_task (λ id. last_dispatch_of (list_project_schedule_states books.dispatches id))
        now cfg.aging_interval (map (waiting_of out.contract) waiting)) [
          | none ↦ none
          | some w ↦ find_where (by_task w.id) waiting
        ]

  unfoldable pub decide : ℕ → Scheduler W → Ending
  decide now s =
      let waiting = list_waiting_tasks s.books.db in
      if is_empty waiting then idle_step now s else elim (chosen now s.books waiting) [
        | none ↦ (s, no_result, none)
        | some t ↦
            let claim = workspace_claim t in
            conclude s claim t now (attempts claim s.governor s.books)
      ]

  abbrev pub reconciled : ℕ → Scheduler W → Books W × ℕ × Option Error → Ending
  reconciled now s (books, n, some e) =
      (record s { books = books }, no_result, some (reconcile_failed e))
  reconciled now s (books, n, none) = decide now (record s { books = books })

  -- Step
  unfoldable pub step : ℕ → Scheduler W → Ending
  step now s = elim out.reconcile_checkpoint_transactions [
    | none ↦ decide now s
    | some reconcile ↦ reconciled now s (reconcile cfg.pressure_reclaim_limit s.books)
  ]
