-- ===== src/Domain/Control.antt =====
-- internal/domain/control.go: the owner's controls of a task.
-- A text is a number, and every blank text is 0.
use mar.Prelude.{ℕ, Bool, true, false, ◌&&◌, not, ◌==◌}

pub data ControlKind : Type 0 where
  steer input cancel : ControlKind

abbrev pub kind_eq : ControlKind → ControlKind → Bool
kind_eq steer steer = true
kind_eq input input = true
kind_eq cancel cancel = true
kind_eq _ _ = false

pub record TaskControl : Type 0 where
  pub id : ℕ
  pub task_id : ℕ
  pub version : ℕ
  pub idempotency_key : ℕ
  pub kind : ControlKind
  pub payload : ℕ
  pub integrity_hash : ℕ
  pub created_at : ℕ

-- The texts of a steer's kind: those that are valid, and any other.
pub data SteerKind : Type 0 where
  steer_context steer_priority steer_blocked_choice steer_additional_verification : SteerKind
  steer_cancel other_steer : SteerKind

pub record SteerPayload : Type 0 where
  pub kind : SteerKind
  pub message : ℕ

abbrev is_known_steer : SteerKind → Bool
is_known_steer other_steer = false
is_known_steer _ = true

-- SteerPayload.Validate
unfoldable pub steer_valid : SteerPayload → Bool
steer_valid p = is_known_steer p.kind && not (p.message == 0)

abbrev pub is_blocked_choice : SteerKind → Bool
is_blocked_choice steer_blocked_choice = true
is_blocked_choice _ = false
