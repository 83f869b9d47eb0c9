-- ===== src/Store/Verification/Outcomes.antt =====
-- internal/store/verification.go: what a stored outcome says of the evidence.
use mar.Domain.Task.{Task}
