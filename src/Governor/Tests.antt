-- ===== src/Governor/Tests.antt =====
-- Runs of the governor, and its theorems at concrete inputs.
use mathlib.Core.List.{Permᴰ}
use mar.Prelude.{
  ℕ, ◌+◌, ◌≤◌, ◌≡◌, refl, true, false, List, [], ◌∷◌, ◌↔◌, none, some, arith, is_empty,
}
use mar.Governor.{
  Claim, build, search, Snapshot, Config, Governor, Desk, exists, insert, evaluate_locked,
  memory_reserve, reserved, heavy_jobs, find_lease, release_lease, saturating_add, reserve_reasons,
  heavy_reasons, deny, run_if_idle_exclusive, pressure_reasons, pressure, Decision, try_acquire, ok,
  admit, validate_claim, delete,
}
use mar.Governor.Sums.{total}
use mar.Governor.Admission.{Fits, InRange, Reserves, HeavyRoom, evaluate_locked-allowed_iff}
use mar.Governor.Capacity.{Capped, try_acquire_reserves}
use mar.Governor.Leases.{Kept}
use mar.Governor.History.{
  Call, acquires, releases, run, opened, is_released, run-opened-Kept, run-opened-Capped,
  release_lease_spent, release_lease_frees,
}
use mar.Governor.Reservations.{reserved-run-opened, evaluate_locked-perm}
use mar.Governor.Pressure.{
  Calm, IsUnpressed, try_acquire-pressure, pressure_reasons-empty_iff,
  run_if_idle_exclusive-pending,
}

abbrev limits : Config
limits = record {
  max_cpu_percent = 90000;
  max_memory_load_percent = 85000;
  max_io_pressure_percent = 0;
  min_free_ram_bytes = 1000;
  min_free_disk_bytes = 2000;
  max_mar_disk_bytes = 50000;
  max_heavy_jobs = 2;
  max_heavy_jobs_per_project = 1;
  max_heavy_jobs_interactive = 1;
}

abbrev quiet : Snapshot
quiet = record {
  cpu_percent = 10000;
  cpu_known = true;
  memory_load_percent = 40000;
  available_ram_bytes = 8000;
  free_disk_bytes = 9000;
  mar_disk_used_bytes = 100;
  user_interactive = false;
  io_pressure_percent = 0;
  io_pressure_known = false;
}

abbrev compile : Claim
compile = record {
  id = 11;
  project_id = 1;
  class = build;
  ram_bytes = 4000;
  disk_bytes = 500;
  heavy = true;
  priority = 0;
}

abbrev lookup : Claim
lookup = record compile { id = 12; project_id = 2; class = search; heavy = false }

abbrev idle : Governor
idle = record { cfg = limits; active = [] }

abbrev history : List Call
history =
    acquires (some quiet) compile
    ∷ acquires (some quiet) lookup
    ∷ acquires none lookup
    ∷ releases 0
    ∷ acquires (some quiet) compile
    ∷ []

-- The second claim would leave less than the RAM reserve.
ram_refused :
    (evaluate_locked (record idle { active = (11, compile) ∷ [] }) quiet lookup).reasons
    ≡ memory_reserve ∷ []
unfolding evaluate_locked reserve_reasons heavy_reasons deny exists reserved heavy_jobs
    saturating_add
ram_refused = refl

quiet-InRange : InRange limits quiet compile
quiet-InRange = omega arith

compile_allowed : (evaluate_locked idle quiet compile).allowed ≡ true
unfolding evaluate_locked reserve_reasons heavy_reasons deny exists reserved heavy_jobs
    saturating_add
compile_allowed = refl

evaluate_locked-allowed_iff_example :
    ((evaluate_locked idle quiet compile).allowed ≡ true)
    ↔ (Reserves limits [] quiet compile × (true ≡ true → HeavyRoom limits [] quiet compile))
evaluate_locked-allowed_iff_example =
    evaluate_locked-allowed_iff idle quiet compile (omega arith) quiet-InRange

abbrev busy : Governor
busy = record idle { active = (11, compile) ∷ [] }

abbrev leased : Decision
leased = evaluate_locked idle quiet compile

compile-leased : try_acquire idle (some quiet) compile ≡ (busy, ok (true, leased))
unfolding try_acquire admit validate_claim evaluate_locked reserve_reasons heavy_reasons deny exists
    reserved heavy_jobs saturating_add insert delete
compile-leased = refl

try_acquire_reserves_example :
    (exists 11 busy.active ≡ true)
    × (total (λ x. x.ram_bytes) busy.active ≡ total (λ x. x.ram_bytes) [] + compile.ram_bytes)
    × (total (λ x. x.disk_bytes) busy.active ≡ total (λ x. x.disk_bytes) [] + compile.disk_bytes)
    × (1000 + total (λ x. x.ram_bytes) busy.active ≤ 8000)
    × (2000 + total (λ x. x.disk_bytes) busy.active ≤ 9000)
    × Fits busy.active
try_acquire_reserves_example =
    try_acquire_reserves idle busy quiet compile leased (omega arith) quiet-InRange compile-leased

run-opened-Kept_example : Kept (run (opened limits) history)
run-opened-Kept_example = run-opened-Kept limits history

run-opened-Capped_example : Capped limits (run (opened limits) history).governor.active
run-opened-Capped_example = run-opened-Capped limits history

abbrev held : Desk
held = record {
  governor = record { cfg = limits; active = (11, compile) ∷ [] };
  leases = record { token = 0; claim_id = 11; released = false } ∷ [];
  next_token = 1;
}

abbrev spent : Desk
spent = record {
  governor = record { cfg = limits; active = [] };
  leases = record { token = 0; claim_id = 11; released = true } ∷ [];
  next_token = 1;
}

-- The same claim is acquired anew, and the first lease is released once more.
release_lease_spent_example :
    release_lease (run spent (acquires (some quiet) compile ∷ [])) 0
    ≡ run spent (acquires (some quiet) compile ∷ [])
unfolding find_lease
release_lease_spent_example =
    release_lease_spent spent (acquires (some quiet) compile ∷ []) 0
      (record { held = refl; once = tt; fresh = omega arith }) refl

release_lease_frees_example :
    (exists 11 held.governor.active ≡ true)
    × (exists 11 (release_lease held 0).governor.active ≡ false)
    × (is_released 0 (release_lease held 0).leases ≡ true)
unfolding find_lease
release_lease_frees_example =
    release_lease_frees held 0 11 (record { token = 0; claim_id = 11; released = false })
      (record { held = refl; once = (refl, tt); fresh = omega arith }) refl refl

reserved-run-opened_example :
    let active = (run (opened limits) history).governor.active in
    (reserved (λ x. x.ram_bytes) active ≡ total (λ x. x.ram_bytes) active)
    × (reserved (λ x. x.disk_bytes) active ≡ total (λ x. x.disk_bytes) active)
reserved-run-opened_example = reserved-run-opened limits history (omega arith)

evaluate_locked-perm_example :
    evaluate_locked
      (record { cfg = limits; active = (11, compile) ∷ (12, lookup) ∷ [] })
      quiet
      lookup
    ≡ evaluate_locked
        (record { cfg = limits; active = (12, lookup) ∷ (11, compile) ∷ [] })
        quiet
        lookup
evaluate_locked-perm_example =
    evaluate_locked-perm limits ((11, compile) ∷ (12, lookup) ∷ [])
      ((12, lookup) ∷ (11, compile) ∷ []) quiet lookup (Permᴰ.swap refl refl)

pressure_reasons-empty_iff_example :
    (is_empty (pressure_reasons limits ((11, compile) ∷ []) quiet) ≡ true)
    ↔ Calm limits ((11, compile) ∷ []) quiet
pressure_reasons-empty_iff_example =
    pressure_reasons-empty_iff limits ((11, compile) ∷ []) quiet compile (omega arith) quiet-InRange

try_acquire-pressure_example : IsUnpressed (pressure busy (some quiet))
try_acquire-pressure_example =
    try_acquire-pressure idle busy quiet compile leased (omega arith) quiet-InRange refl
      (omega arith) compile-leased

run_if_idle_exclusive-pending_example :
    run_if_idle_exclusive held.governor (some (λ (n : ℕ). (n + 1, none))) 5 ≡ (5, false, none)
run_if_idle_exclusive-pending_example =
    run_if_idle_exclusive-pending held (λ n. (n + 1, none)) 5
      (record { held = refl; once = (refl, tt); fresh = omega arith })
