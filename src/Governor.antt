-- ===== src/Governor.antt =====
-- internal/resourcegov/governor.go: admission of resource claims.
-- A uint64 is a number below 2 ^ 64 whose sums wrap. A percentage (float64) is a number of
-- thousandths of a percent; it is only compared. A text is a number, and the empty text is 0.
-- The map `active` is an association list, newest entry first. The sensor is outside: a reading is
-- an argument, and `none` is its error. A mutex makes each method one step.
pub mod Sums
pub mod Admission
pub mod Capacity
pub mod Leases
pub mod History
pub mod Reservations
pub mod Pressure
mod Tests
use mar.Prelude.{
  ℕ, suc, ◌+◌, ◌-◌, ◌%◌, ◌^◌, Bool, true, false, ◌&&◌, ◌||◌, List, [], ◌∷◌, ◌++◌, Option, none,
  some, ltb, leb, ◌==◌, if◌then◌else◌, length, is_empty,
}

pub data WorkloadClass : Type 0 where
  unset search model_wait static_analysis unit_test build browser integration_test : WorkloadClass

pub record Claim : Type 0 where
  pub id : ℕ
  pub project_id : ℕ
  pub class : WorkloadClass
  pub ram_bytes : ℕ
  pub disk_bytes : ℕ
  pub heavy : Bool
  pub priority : ℕ

pub data Error : Type 0 where
  no_claim_id no_project_id no_class snapshot_failed bad_max_cpu bad_max_memory bad_max_io : Error
  bad_max_heavy bad_max_heavy_project no_callback callback_failed : Error

pub data Result {ℓ} (A : Type ℓ) : Type ℓ where
  ok : A → Result A
  err : Error → Result A

abbrev is_unset : WorkloadClass → Bool
is_unset unset = true
is_unset _ = false

-- Claim.validate
unfoldable pub validate_claim : Claim → Option Error
validate_claim c =
    if c.id == 0
    then some no_claim_id
    else if c.project_id == 0
    then some no_project_id
    else if is_unset c.class
    then some no_class
    else none

-- The fields of a reading that the governor looks at.
pub record Snapshot : Type 0 where
  pub cpu_percent : ℕ
  pub cpu_known : Bool
  pub memory_load_percent : ℕ
  pub available_ram_bytes : ℕ
  pub free_disk_bytes : ℕ
  pub mar_disk_used_bytes : ℕ
  pub user_interactive : Bool
  pub io_pressure_percent : ℕ
  pub io_pressure_known : Bool

pub record Config : Type 0 where
  pub max_cpu_percent : ℕ
  pub max_memory_load_percent : ℕ
  pub max_io_pressure_percent : ℕ
  pub min_free_ram_bytes : ℕ
  pub min_free_disk_bytes : ℕ
  pub max_mar_disk_bytes : ℕ
  pub max_heavy_jobs : ℕ
  pub max_heavy_jobs_per_project : ℕ
  pub max_heavy_jobs_interactive : ℕ

abbrev pub hundred_percent : ℕ
hundred_percent = 100000

-- Config.validate; the fields are not negative here, so `<= 0` is a test for 0.
unfoldable pub validate_config : Config → Option Error
validate_config c =
    if c.max_cpu_percent == 0 || ltb hundred_percent c.max_cpu_percent
    then some bad_max_cpu
    else if c.max_memory_load_percent == 0 || ltb hundred_percent c.max_memory_load_percent
    then some bad_max_memory
    else if ltb hundred_percent c.max_io_pressure_percent
    then some bad_max_io
    else if c.max_heavy_jobs == 0
    then some bad_max_heavy
    else if c.max_heavy_jobs_per_project == 0
    then some bad_max_heavy_project
    else none

pub data DenialReason : Type 0 where
  duplicate_claim cpu_pressure memory_pressure memory_reserve io_pressure : DenialReason
  host_disk_reserve mar_disk_budget heavy_capacity project_heavy_capacity : DenialReason
  interactive_capacity : DenialReason

pub record Decision : Type 0 where
  pub allowed : Bool
  pub reasons : List DenialReason
  pub snapshot : Snapshot
  pub active_claims : ℕ
  pub active_heavy_jobs : ℕ
  pub project_active_heavy_jobs : ℕ
  pub reserved_ram_bytes : ℕ
  pub reserved_disk_bytes : ℕ

abbrev pub Active : Type 0
Active = List (ℕ × Claim)

pub record Governor : Type 0 where
  pub cfg : Config
  pub active : Active

unfoldable pub new : Config → Result Governor
new cfg = elim (validate_config cfg) [
  | some e ↦ err e
  | none ↦ ok (record { cfg = cfg; active = [] })
]

abbrev pub max_uint64 : ℕ
max_uint64 = 2 ^ 64 - 1

-- saturatingAdd: `^uint64(0) - a < b`.
unfoldable pub saturating_add : ℕ → ℕ → ℕ
saturating_add a b = if ltb (max_uint64 - a) b then max_uint64 else a + b

-- `_, exists := g.active[id]`
unfoldable pub exists : ℕ → Active → Bool
exists id [] = false
exists id ((k, c) ∷ rest) = id == k || exists id rest

-- `delete(g.active, id)`
unfoldable pub delete : ℕ → Active → Active
delete id [] = []
delete id ((k, c) ∷ rest) = let rest' = delete id rest in if id == k then rest else (k, c) ∷ rest'

-- `g.active[id] = c`
unfoldable pub insert : ℕ → Claim → Active → Active
unfolding delete
insert id c active = (id, c) ∷ delete id active

-- The loop `decision.ReservedRAMBytes += active.RAMBytes` and its fellow; uint64 sums wrap.
unfoldable pub reserved : (Claim → ℕ) → Active → ℕ
reserved size [] = 0
reserved size ((k, c) ∷ rest) = (reserved size rest + size c) % 2 ^ 64

-- The counters of the same loop: heavy claims that `counted` selects.
unfoldable pub heavy_jobs : (Claim → Bool) → Active → ℕ
heavy_jobs counted [] = 0
heavy_jobs counted ((k, c) ∷ rest) =
    let n = heavy_jobs counted rest in if c.heavy && counted c then suc n else n

abbrev pub every : Claim → Bool
every c = true

abbrev pub of_project : ℕ → Claim → Bool
of_project p c = c.project_id == p

-- `if c { reasons = append(reasons, r) }`
unfoldable pub deny : Bool → DenialReason → List DenialReason → List DenialReason
deny c r rs = if c then rs ++ r ∷ [] else rs

-- The reasons that hold for every workload: duplicates and the physical reserves.
unfoldable pub reserve_reasons : Config → Active → Snapshot → Claim → List DenialReason
reserve_reasons cfg active s c =
    let held_ram = reserved (λ x. x.ram_bytes) active in
    let held_disk = reserved (λ x. x.disk_bytes) active in
    let required_ram =
      saturating_add cfg.min_free_ram_bytes (saturating_add held_ram c.ram_bytes) in
    let required_disk =
      saturating_add cfg.min_free_disk_bytes (saturating_add held_disk c.disk_bytes) in
    let projected = saturating_add s.mar_disk_used_bytes (saturating_add held_disk c.disk_bytes) in
    deny (ltb 0 cfg.max_mar_disk_bytes && ltb cfg.max_mar_disk_bytes projected) mar_disk_budget (
      deny (ltb s.free_disk_bytes required_disk) host_disk_reserve (
        deny (ltb s.available_ram_bytes required_ram) memory_reserve
          (deny (exists c.id active) duplicate_claim [])))

-- The reasons that hold for heavy work only.
unfoldable pub heavy_reasons :
    Config → Active → Snapshot → Claim → List DenialReason → List DenialReason
heavy_reasons cfg active s c rs =
    let jobs = heavy_jobs every active in
    deny
      (s.user_interactive
        && ltb 0 cfg.max_heavy_jobs_interactive
        && leb cfg.max_heavy_jobs_interactive jobs)
      interactive_capacity
      (deny (leb cfg.max_heavy_jobs_per_project (heavy_jobs (of_project c.project_id) active))
        project_heavy_capacity
        (deny (leb cfg.max_heavy_jobs jobs) heavy_capacity (
          deny
            (s.io_pressure_known
              && ltb 0 cfg.max_io_pressure_percent
              && leb cfg.max_io_pressure_percent s.io_pressure_percent)
            io_pressure
            (deny (leb cfg.max_memory_load_percent s.memory_load_percent) memory_pressure
              (deny (s.cpu_known && leb cfg.max_cpu_percent s.cpu_percent) cpu_pressure rs)))))

-- evaluateLocked
unfoldable pub evaluate_locked : Governor → Snapshot → Claim → Decision
evaluate_locked g s c =
    let base = reserve_reasons g.cfg g.active s c in
    let reasons = if c.heavy then heavy_reasons g.cfg g.active s c base else base in
    record {
      allowed = is_empty reasons;
      reasons = reasons;
      snapshot = s;
      active_claims = length g.active;
      active_heavy_jobs = heavy_jobs every g.active;
      project_active_heavy_jobs = heavy_jobs (of_project c.project_id) g.active;
      reserved_ram_bytes = reserved (λ x. x.ram_bytes) g.active;
      reserved_disk_bytes = reserved (λ x. x.disk_bytes) g.active;
    }

-- Evaluate
unfoldable pub evaluate : Governor → Option Snapshot → Claim → Result Decision
evaluate g reading c = elim (validate_claim c) [
  | some e ↦ err e
  | none ↦ elim reading [ none ↦ err snapshot_failed | some s ↦ ok (evaluate_locked g s c) ]
]

-- What `TryAcquire` does once it has a valid claim and a reading; `true` is a lease on the claim.
unfoldable pub admit : Governor → Snapshot → Claim → Governor × Bool × Decision
admit g s c =
    let d = evaluate_locked g s c in
    if d.allowed then (record g { active = insert c.id c g.active }, true, d) else (g, false, d)

abbrev reply : Governor × Bool × Decision → Governor × Result (Bool × Decision)
reply (g, leased, d) = (g, ok (leased, d))

-- TryAcquire
unfoldable pub try_acquire :
    Governor → Option Snapshot → Claim → Governor × Result (Bool × Decision)
try_acquire g reading c = elim (validate_claim c) [
  | some e ↦ (g, err e)
  | none ↦ elim reading [ none ↦ (g, err snapshot_failed) | some s ↦ reply (admit g s c) ]
]

-- Governor.release
unfoldable pub release : Governor → ℕ → Governor
release g id = record g { active = delete id g.active }

-- Pressure
unfoldable pub pressure_reasons : Config → Active → Snapshot → List DenialReason
pressure_reasons cfg active s =
    let required_ram = saturating_add cfg.min_free_ram_bytes (reserved (λ x. x.ram_bytes) active) in
    let required_disk =
      saturating_add cfg.min_free_disk_bytes (reserved (λ x. x.disk_bytes) active) in
    deny (ltb 0 cfg.max_mar_disk_bytes && leb cfg.max_mar_disk_bytes s.mar_disk_used_bytes)
      mar_disk_budget
      (deny (ltb s.free_disk_bytes required_disk) host_disk_reserve (
        deny
          (s.io_pressure_known
            && ltb 0 cfg.max_io_pressure_percent
            && leb cfg.max_io_pressure_percent s.io_pressure_percent)
          io_pressure
          (deny (ltb s.available_ram_bytes required_ram) memory_reserve (
            deny (leb cfg.max_memory_load_percent s.memory_load_percent) memory_pressure
              (deny (s.cpu_known && leb cfg.max_cpu_percent s.cpu_percent) cpu_pressure [])))))

unfoldable pub pressure : Governor → Option Snapshot → Result Decision
pressure g none = err snapshot_failed
pressure g (some s) =
    let reasons = pressure_reasons g.cfg g.active s in
    ok (record {
      allowed = is_empty reasons;
      reasons = reasons;
      snapshot = s;
      active_claims = length g.active;
      active_heavy_jobs = heavy_jobs every g.active;
      project_active_heavy_jobs = 0;
      reserved_ram_bytes = reserved (λ x. x.ram_bytes) g.active;
      reserved_disk_bytes = reserved (λ x. x.disk_bytes) g.active;
    })

-- RunIfIdleExclusive: the callback acts on a world `W` that does not hold the governor. The
-- result says whether it ran, and its error.
unfoldable pub run_if_idle_exclusive {ℓ} :
    {W : Type ℓ} → Governor → Option (W → W × Option Error) → W → W × Bool × Option Error
run_if_idle_exclusive g none w = (w, false, some no_callback)
run_if_idle_exclusive g (some fn) w =
    let (w', e) = fn w in if is_empty g.active then (w', true, e) else (w, false, none)

-- A lease that `TryAcquire` handed out: `released` is the state of its `sync.Once`.
pub record Lease : Type 0 where
  pub token : ℕ
  pub claim_id : ℕ
  pub released : Bool

-- The governor with all the leases it ever handed out, newest first.
pub record Desk : Type 0 where
  pub governor : Governor
  pub leases : List Lease
  pub next_token : ℕ

unfoldable pub find_lease : ℕ → List Lease → Option Lease
find_lease t [] = none
find_lease t (l ∷ ls) = if t == l.token then some l else find_lease t ls

unfoldable pub mark_released : ℕ → List Lease → List Lease
mark_released t [] = []
mark_released t (l ∷ ls) =
    let rest = mark_released t ls in
    if t == l.token then record l { released = true } ∷ ls else l ∷ rest

abbrev hand_out : Desk → Claim → Governor × Result (Bool × Decision) → Desk
hand_out d c (g, ok (true, _)) = record {
  governor = g;
  leases = record { token = d.next_token; claim_id = c.id; released = false } ∷ d.leases;
  next_token = suc d.next_token;
}
hand_out d c (g, ok (false, _)) = record d { governor = g }
hand_out d c (g, err _) = record d { governor = g }

-- A call of TryAcquire whose lease, if any, the caller keeps.
unfoldable pub acquire_lease : Desk → Option Snapshot → Claim → Desk
acquire_lease d reading c = hand_out d c (try_acquire d.governor reading c)

-- Lease.Release: the `sync.Once` runs the release at most once for each lease.
unfoldable pub release_lease : Desk → ℕ → Desk
release_lease d token = elim (find_lease token d.leases) [
  | none ↦ d
  | some l ↦ if l.released then d else record d {
    governor = release d.governor l.claim_id;
    leases = mark_released token d.leases;
  }
]
