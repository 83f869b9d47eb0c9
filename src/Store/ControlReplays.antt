-- ===== src/Store/ControlReplays.antt =====
-- internal/store/control.go: a control that is requested again.
use mar.Prelude.{ℕ, ◌≡◌, Option, some}
use mar.Domain.Task.{Task}
use mar.Domain.Control.{TaskControl, ControlKind}
use mar.Store.{Db, ok, Tx}
use mar.Store.Controls.{existing_task_control}
use mar.Store.Tame.{On}

-- `c` answers a request for a control of this key, kind and payload.
abbrev pub Answers : (TaskControl → Option ℕ) → ℕ → ℕ → ControlKind → ℕ → TaskControl → Db → Type 0
Answers digest task key kind payload c db =
    existing_task_control digest task key kind payload db ≡ ok (some c)

-- The digest does not read the hash that it is compared with.
abbrev pub IgnoresHash : (TaskControl → Option ℕ) → Type 0
IgnoresHash digest = (c : TaskControl) (h : ℕ) → digest (record c { integrity_hash = h }) ≡ digest c

-- A change of the store that leaves the controls as they are.
abbrev pub KeepsControls : Tx (Unit {0}) → Type 0
KeepsControls k = (db : Db) → On (λ _ db'. db'.controls ≡ db.controls) (k db)
