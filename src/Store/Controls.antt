-- ===== src/Store/Controls.antt =====
-- internal/store/control.go: controls of a task, and its cancellation.
use mar.Prelude.{
  ℕ, ◌+◌, Bool, true, false, ◌&&◌, ◌||◌, not, List, [], ◌∷◌, Option, none, some, ◌==◌,
  if◌then◌else◌, ltb, any,
}
use mar.Sql.{find_where, count_where}
use mar.Domain.Task.{ExecutionAttempt, TaskState, state_eq, is_active, running, input_required}
use mar.Domain.Control.{TaskControl, ControlKind, kind_eq, input}
use mar.Store.{
  Db, Result, ok, err, Tx, not_found, state_conflict, stale_attempt, control_idempotency_conflict,
  control_integrity, bad_control, constraint_failed, get_task_row, set_state, ◌>>◌, ◌>>=◌,
}
use mar.Store.Tasks.{move_task}

-- containsTaskState
unfoldable pub contains_task_state : List TaskState → TaskState → Bool
contains_task_state [] target = false
contains_task_state (s ∷ ss) target = state_eq s target || contains_task_state ss target

-- SELECT COALESCE(MAX(version), 0) … WHERE task_id = ?
unfoldable pub max_version : ℕ → List TaskControl → ℕ
max_version task [] = 0
max_version task (c ∷ cs) =
    let rest = max_version task cs in
    if c.task_id == task then (if ltb rest c.version then c.version else rest) else rest

abbrev pub by_control_key : ℕ → ℕ → TaskControl → Bool
by_control_key task key c = c.task_id == task && c.idempotency_key == key

-- A row with the control's primary key, or a unique pair of it.
abbrev pub control_collides : TaskControl → TaskControl → Bool
control_collides new c =
    c.id == new.id
    || (c.task_id == new.task_id && c.version == new.version)
    || (c.task_id == new.task_id && c.idempotency_key == new.idempotency_key)

-- taskControlState
unfoldable pub task_control_state : ℕ → Db → Result (TaskState × ℕ)
task_control_state task db = elim (get_task_row task db) [
  | none ↦ err not_found
  | some t ↦ ok (t.state, t.run_epoch)
]

-- The control of the next version, before it has its hash.
abbrev pub draft_control : ℕ → ℕ → ℕ → ControlKind → ℕ → ℕ → Db → TaskControl
draft_control control task key kind payload now db = record {
  id = control;
  task_id = task;
  version = max_version task db.controls + 1;
  idempotency_key = key;
  kind = kind;
  payload = payload;
  integrity_hash = 0;
  created_at = now;
}

-- A control that is written, and then a change of the store in the same transaction.
abbrev pub then_keep : Tx TaskControl → Tx (Unit {0}) → Tx TaskControl
then_keep m k = m >>= λ c. k >> λ db. ok (c, db)

abbrev pub current_active : ℕ → ℕ → List ExecutionAttempt → ℕ
current_active task epoch =
    count_where λ a. a.task_id == task && (a.run_epoch == epoch && is_active a.authority_state)

-- The UPDATE that lets the task run on.
abbrev pub resume : ℕ → ℕ → ℕ → Tx (Unit {0})
resume task epoch now =
    move_task (λ t. t.id == task && (state_eq t.state input_required && t.run_epoch == epoch))
      (set_state running now) state_conflict

-- `digest` is IntegrityDigest, SHA-256 over canonical JSON; `none` is its error.
module _ (digest : TaskControl → Option ℕ) where
  -- IntegrityValid; texts that strings.EqualFold and strings.TrimSpace make equal are one hash.
  unfoldable pub integrity_valid : TaskControl → Bool
  integrity_valid c = elim (digest c) [ none ↦ false | some h ↦ c.integrity_hash == h ]

  -- existingTaskControl: `none` where the key is new.
  unfoldable pub existing_task_control : ℕ → ℕ → ControlKind → ℕ → Db → Result (Option TaskControl)
  existing_task_control task key kind payload db =
      elim (find_where (by_control_key task key) db.controls) [
        | none ↦ ok none
        | some c ↦
            if not (integrity_valid c)
            then err control_integrity
            else if not (kind_eq c.kind kind) || not (c.payload == payload)
            then err control_idempotency_conflict
            else ok (some c)
      ]

  -- insertTaskControlTx
  unfoldable pub insert_task_control_tx : ℕ → ℕ → ℕ → ControlKind → ℕ → ℕ → Tx TaskControl
  insert_task_control_tx control task key kind payload now db =
      let draft = draft_control control task key kind payload now db in
      elim (digest draft) [
        | none ↦ err bad_control
        | some h ↦
            if any (control_collides draft) db.controls
            then err constraint_failed
            else ok (
              record draft { integrity_hash = h },
              record db { controls = record draft { integrity_hash = h } ∷ db.controls },
            )
      ]

  -- What the three publishing calls share: an existing control is answered again, a new one is
  -- the transaction `fresh`.
  abbrev pub answer_or :
      ℕ → ℕ → ControlKind → ℕ → (TaskState × ℕ → Tx TaskControl) → Tx (TaskControl × Bool)
  answer_or task key kind payload fresh db = elim (existing_task_control task key kind payload db) [
    | err e ↦ err e
    | ok (some c) ↦ ok ((c, false), db)
    | ok none ↦ elim (task_control_state task db) [
      | err e ↦ err e
      | ok s ↦ elim (fresh s db) [ err e ↦ err e | ok (c, db') ↦ ok ((c, true), db') ]
    ]
  ]

  abbrev pub fresh_control :
      ℕ → ℕ → ℕ → ControlKind → ℕ → List TaskState → ℕ → TaskState × ℕ → Tx TaskControl
  fresh_control control task key kind payload allowed now s db =
      if contains_task_state allowed s.0
      then insert_task_control_tx control task key kind payload now db
      else err state_conflict

  -- PublishTaskControl
  unfoldable pub publish_task_control :
      ℕ → ℕ → ℕ → ControlKind → ℕ → List TaskState → ℕ → Tx (TaskControl × Bool)
  publish_task_control control task key kind payload allowed now =
      answer_or task key kind payload (fresh_control control task key kind payload allowed now)

  abbrev pub fresh_input : ℕ → ℕ → ℕ → ℕ → ℕ → TaskState × ℕ → Tx TaskControl
  fresh_input control task key payload now s db =
      if not (state_eq s.0 input_required) || s.1 == 0
      then err state_conflict
      else if not (current_active task s.1 db.attempts == 1)
      then err stale_attempt
      else then_keep (insert_task_control_tx control task key input payload now)
          (resume task s.1 now) db

  -- PublishTaskInput
  unfoldable pub publish_task_input : ℕ → ℕ → ℕ → ℕ → ℕ → Tx (TaskControl × Bool)
  publish_task_input control task key payload now =
      answer_or task key input payload (fresh_input control task key payload now)
