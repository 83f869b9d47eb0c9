-- ===== src/Governor/Pressure.antt =====
-- internal/resourcegov/governor.go: live pressure on admitted work, and idle maintenance.
use mar.Prelude.{
  ◌+◌, ◌≤◌, ◌<◌, ◌≡◌, refl, true, false, [], ◌∷◌, arith, is_empty, ◌⊎◌, ◌↔◌, ◌∙◌, sym, ap,
  if◌then◌else◌, Option, none, some, List, subst,
}
use mar.Governor.{
  Claim, Active, Config, Snapshot, Governor, insert, Desk, Error, evaluate_locked, pressure_reasons,
  run_if_idle_exclusive, pressure, try_acquire, Decision, DenialReason, Result, ok, err,
}
use mar.Governor.Sums.{total, reserved-total, saturating_add-gt}
use mar.Governor.Admission.{Fits, InRange, evaluate_locked-allowed_iff, is_empty-deny}
use mar.Governor.Capacity.{insert_reserves, try_acquire-leased}
use mar.Governor.Leases.{Kept, pending, ids}

-- No live limit is crossed, in arithmetic without bounds.
pub record Calm (cfg : Config) (active : Active) (s : Snapshot) : Type 0 where
  pub cpu : (s.cpu_known ≡ false) ⊎ (s.cpu_percent < cfg.max_cpu_percent)
  pub memory : s.memory_load_percent < cfg.max_memory_load_percent
  pub ram : cfg.min_free_ram_bytes + total (λ x. x.ram_bytes) active ≤ s.available_ram_bytes
  pub io :
      (s.io_pressure_known ≡ false)
      ⊎ (cfg.max_io_pressure_percent ≡ 0)
      ⊎ (s.io_pressure_percent < cfg.max_io_pressure_percent)
  pub disk : cfg.min_free_disk_bytes + total (λ x. x.disk_bytes) active ≤ s.free_disk_bytes
  pub budget : (cfg.max_mar_disk_bytes ≡ 0) ⊎ (s.mar_disk_used_bytes < cfg.max_mar_disk_bytes)

-- While the reservations fit in 64 bits and no reading or limit stands at the greatest uint64,
-- Pressure finds no reason exactly when no live limit is crossed by the reading and the true sums
-- of the reservations.
pub pressure_reasons-empty_iff :
    (cfg : Config) (active : Active) (s : Snapshot) (c : Claim)
    → Fits active
    → InRange cfg s c
    → (is_empty (pressure_reasons cfg active s) ≡ true) ↔ Calm cfg active s
unfolding pressure_reasons
pressure_reasons-empty_iff cfg active s c f r =
    simp
      (
        is_empty-deny,
        reserved-total (λ x. x.ram_bytes) active f.ram_fits,
        reserved-total (λ x. x.disk_bytes) active f.disk_fits,
      )
      (ground (
        arith,
        saturating_add-gt s.available_ram_bytes cfg.min_free_ram_bytes
            (total (λ x. x.ram_bytes) active),
        saturating_add-gt s.free_disk_bytes cfg.min_free_disk_bytes
            (total (λ x. x.disk_bytes) active),
      ))

admitted-Calm :
    (g : Governor) (s : Snapshot) (c : Claim)
    → Fits g.active
    → InRange g.cfg s c
    → c.heavy ≡ true
    → 0 < c.disk_bytes
    → (evaluate_locked g s c).allowed ≡ true
    → Calm g.cfg (insert c.id c g.active) s
admitted-Calm g s c f r heavy disk h =
    let (reserves, room) = (evaluate_locked-allowed_iff g s c f r).0 h in
    let heavy_room = room heavy in
    let (ram_covered, disk_covered, _) = insert_reserves g s c f r h in
    record {
      cpu = heavy_room.cpu;
      memory = heavy_room.memory;
      ram = ram_covered;
      io = heavy_room.io;
      disk = disk_covered;
      budget = ground arith;
    }

-- The answer of Pressure allows the work to go on and gives no reason.
abbrev pub IsUnpressed : Result Decision → Type 0
IsUnpressed (ok d) = (d.allowed ≡ true) × (d.reasons ≡ [])
IsUnpressed (err e) = ⊥

empty_reasons : (xs : List DenialReason) → is_empty xs ≡ true → xs ≡ []
empty_reasons [] h = refl
empty_reasons (x ∷ xs) h = cc

-- While the reservations fit in 64 bits and no reading or limit stands at the greatest uint64:
-- after TryAcquire has handed out a lease on heavy work that reserves some disk, Pressure, asked
-- with the same reading, finds no reason to end admitted work.
pub try_acquire-pressure :
    (g g' : Governor) (s : Snapshot) (c : Claim) (d : Decision)
    → Fits g.active
    → InRange g.cfg s c
    → c.heavy ≡ true
    → 0 < c.disk_bytes
    → try_acquire g (some s) c ≡ (g', ok (true, d))
    → IsUnpressed (pressure g' (some s))
unfolding pressure
try_acquire-pressure g g' s c d f r heavy disk h =
    let (allowed, stored) = try_acquire-leased g g' s c d h in
    let active = insert c.id c g.active in
    let fits = (insert_reserves g s c f r allowed).2 in
    let calm = admitted-Calm g s c f r heavy disk allowed in
    let none_left = (pressure_reasons-empty_iff g.cfg active s c fits r).1 calm in
    subst (λ (k : Governor). IsUnpressed (pressure k (some s))) stored
      (none_left, empty_reasons (pressure_reasons g.cfg active s) none_left)

is_empty-ids : (active : Active) → is_empty (ids active) ≡ is_empty active
is_empty-ids [] = refl
is_empty-ids (x ∷ xs) = refl

-- Where the active claims agree with the leases (Kept), RunIfIdleExclusive runs its callback
-- exactly when every lease is released; otherwise the world of the callback is untouched and no
-- error is given.
pub run_if_idle_exclusive-pending {ℓ} :
    {W : Type ℓ} (d : Desk) (fn : W → W × Option Error) (w : W)
    → Kept d
    → run_if_idle_exclusive d.governor (some fn) w
      ≡ (if is_empty (pending d.leases) then ((fn w).0, true, (fn w).1) else (w, false, none))
unfolding run_if_idle_exclusive
run_if_idle_exclusive-pending d fn w v =
    rw (ap is_empty (sym v.held) ∙ is_empty-ids d.governor.active)
