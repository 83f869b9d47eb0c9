-- ===== src/Domain/Blocker.antt =====
-- internal/domain/blocker.go: why a task is BLOCKED. A text is a number, and every blank text is 0.
use mar.Prelude.{ℕ, Bool, true, false}

pub data BlockerPhase : Type 0 where
  blank_phase phase_preflight phase_workspace phase_execution phase_invariant : BlockerPhase
  phase_verify phase_integrate : BlockerPhase

abbrev pub is_blank_phase : BlockerPhase → Bool
is_blank_phase blank_phase = true
is_blank_phase _ = false

-- The zero time is 0.
pub record TaskBlocker : Type 0 where
  pub task_id : ℕ
  pub phase : BlockerPhase
  pub code : ℕ
  pub detail : ℕ
  pub recovery : ℕ
  pub created_at : ℕ
  pub updated_at : ℕ
