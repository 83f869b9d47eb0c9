-- ===== src/Domain.antt =====
-- internal/domain: the states and records of the control plane.
pub mod Task
pub mod Effect
pub mod Control
pub mod Goal
pub mod Integration
pub mod Blocker
pub mod Verification
