-- ===== src/Aci.antt =====
-- internal/aci: the agent's view of the files of its workspace. A text is the list of its bytes.
pub mod Strings
pub mod Paths
pub mod Files
pub mod Edits
pub mod Guarded
pub mod Writes
mod Tests
