-- ===== src/Store/Integration/OutcomeTests.antt =====
-- internal/store/verification.go: the outcome that makes the store of the publication's tests.
use mar.Prelude.{[], ◌∷◌, none}
use mar.Domain.Task.{Task, verifying, verified, active}
use mar.Store.{Db}
use mar.Store.Integration.Tests.{passing, verified_row, verified_store}
use mar.Store.Verification.{Promised}

abbrev verifying_task : Task
verifying_task = record {
  id = 5;
  idempotency_key = 50;
  project_id = 1;
  contract_hash = 31;
  state = verifying;
  run_epoch = 1;
  created_at = 1;
  updated_at = 1;
}

abbrev verifying_store : Db
verifying_store = record verified_store {
  tasks = verifying_task ∷ [];
  attempts =
      record {
        id = 9;
        task_id = 5;
        run_epoch = 1;
        worker_id = 10;
        supervisor_id = 11;
        authority_state = active;
        started_at = 1;
        heartbeat_at = 2;
        lease_deadline = 20;
        terminated_at = none;
        terminal_status = 0;
      }
      ∷ [];
  results = [];
  evidence = [];
}

abbrev judged_store : Db
judged_store = record verifying_store {
  tasks = record verifying_task { state = verified; updated_at = 7 } ∷ [];
  results = verified_row ∷ [];
  evidence = passing ∷ [];
}

abbrev promised : Promised
promised = record { base_revision = 32; verification_profile = 62; acceptance = 67 ∷ [] }
