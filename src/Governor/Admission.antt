-- ===== src/Governor/Admission.antt =====
-- internal/resourcegov/governor.go: when a claim is admitted, in arithmetic without bounds.
use mar.Prelude.{
  ◌+◌, ◌^◌, ◌≤◌, ◌<◌, ◌≡◌, refl, Bool, true, false, ◌&&◌, not, List, [], ◌∷◌, arith, is_empty, ◌⊎◌,
  ◌↔◌, inl, inr, Bool-cases,
}
use mar.Governor.{
  Claim, Active, Config, Snapshot, Governor, DenialReason, max_uint64, exists, heavy_jobs, every,
  of_project, deny, reserve_reasons, heavy_reasons, evaluate_locked,
}
use mar.Governor.Sums.{total, reserved-total, saturating_add-gt₂}

-- The true sums of the reservations fit in 64 bits.
pub record Fits (active : Active) : Type 0 where
  pub ram_fits : total (λ x. x.ram_bytes) active < 2 ^ 64
  pub disk_fits : total (λ x. x.disk_bytes) active < 2 ^ 64

-- A reading, a claim and the limits are 64-bit values, and no limit that the code compares with
-- stands at the maximum, where saturation hides an overflow.
pub record InRange (cfg : Config) (s : Snapshot) (c : Claim) : Type 0 where
  pub min_ram : cfg.min_free_ram_bytes ≤ max_uint64
  pub min_disk : cfg.min_free_disk_bytes ≤ max_uint64
  pub max_disk : cfg.max_mar_disk_bytes < max_uint64
  pub available_ram : s.available_ram_bytes < max_uint64
  pub free_disk : s.free_disk_bytes < max_uint64
  pub used_disk : s.mar_disk_used_bytes ≤ max_uint64

-- The physical reserves hold after the claim is added, and its id is new.
pub record Reserves (cfg : Config) (active : Active) (s : Snapshot) (c : Claim) : Type 0 where
  pub fresh : exists c.id active ≡ false
  pub ram :
      cfg.min_free_ram_bytes + (total (λ x. x.ram_bytes) active + c.ram_bytes)
      ≤ s.available_ram_bytes
  pub disk :
      cfg.min_free_disk_bytes + (total (λ x. x.disk_bytes) active + c.disk_bytes)
      ≤ s.free_disk_bytes
  pub budget :
      (cfg.max_mar_disk_bytes ≡ 0)
      ⊎ (s.mar_disk_used_bytes + (total (λ x. x.disk_bytes) active + c.disk_bytes)
          ≤ cfg.max_mar_disk_bytes)

-- No live pressure and room under every limit on heavy jobs.
pub record HeavyRoom (cfg : Config) (active : Active) (s : Snapshot) (c : Claim) : Type 0 where
  pub cpu : (s.cpu_known ≡ false) ⊎ (s.cpu_percent < cfg.max_cpu_percent)
  pub memory : s.memory_load_percent < cfg.max_memory_load_percent
  pub io :
      (s.io_pressure_known ≡ false)
      ⊎ (cfg.max_io_pressure_percent ≡ 0)
      ⊎ (s.io_pressure_percent < cfg.max_io_pressure_percent)
  pub jobs : heavy_jobs every active < cfg.max_heavy_jobs
  pub project_jobs : heavy_jobs (of_project c.project_id) active < cfg.max_heavy_jobs_per_project
  pub interactive :
      (s.user_interactive ≡ false)
      ⊎ (cfg.max_heavy_jobs_interactive ≡ 0)
      ⊎ (heavy_jobs every active < cfg.max_heavy_jobs_interactive)

pub is_empty-deny :
    (b : Bool) (r : DenialReason) (rs : List DenialReason)
    → is_empty (deny b r rs) ≡ not b && is_empty rs
unfolding deny
is_empty-deny true r [] = refl
is_empty-deny true r (x ∷ rs) = refl
is_empty-deny false r rs = refl

reserve_reasons-empty :
    (cfg : Config) (active : Active) (s : Snapshot) (c : Claim)
    → Fits active
    → InRange cfg s c
    → (is_empty (reserve_reasons cfg active s c) ≡ true) ↔ Reserves cfg active s c
unfolding reserve_reasons
reserve_reasons-empty cfg active s c f r =
    let ram = reserved-total (λ x. x.ram_bytes) active f.ram_fits in
    let disk = reserved-total (λ x. x.disk_bytes) active f.disk_fits in
    simp (is_empty-deny, ram, disk)
      (ground (
        arith,
        saturating_add-gt₂ s.available_ram_bytes cfg.min_free_ram_bytes
            (total (λ x. x.ram_bytes) active) c.ram_bytes,
        saturating_add-gt₂ s.free_disk_bytes cfg.min_free_disk_bytes
            (total (λ x. x.disk_bytes) active) c.disk_bytes,
        saturating_add-gt₂ cfg.max_mar_disk_bytes s.mar_disk_used_bytes
            (total (λ x. x.disk_bytes) active) c.disk_bytes,
      ))

heavy_reasons-empty :
    (cfg : Config) (active : Active) (s : Snapshot) (c : Claim) (rs : List DenialReason)
    → (is_empty (heavy_reasons cfg active s c rs) ≡ true)
      ↔ ((is_empty rs ≡ true) × HeavyRoom cfg active s c)
unfolding heavy_reasons
heavy_reasons-empty cfg active s c rs = simp is_empty-deny (ground arith)

-- A claim is admitted exactly when its id is new, the free RAM and disk cover the reserve, all
-- reservations and the claim, the disk budget (if one is set) covers use and reservations, and
-- heavy work meets no live pressure and has room under each limit on heavy jobs. The sums are the
-- true ones: neither the wrapping sums nor the saturation changes a decision while the
-- reservations fit in 64 bits and no reading or limit stands at the greatest uint64.
pub evaluate_locked-allowed_iff :
    (g : Governor) (s : Snapshot) (c : Claim)
    → Fits g.active
    → InRange g.cfg s c
    → ((evaluate_locked g s c).allowed ≡ true)
      ↔ (Reserves g.cfg g.active s c × (c.heavy ≡ true → HeavyRoom g.cfg g.active s c))
unfolding evaluate_locked
evaluate_locked-allowed_iff g s c f r =
    let base = reserve_reasons-empty g.cfg g.active s c f r in
    let heavy = heavy_reasons-empty g.cfg g.active s c (reserve_reasons g.cfg g.active s c) in
    elim (Bool-cases c.heavy) [
      | inl e ↦ simp e (
        (λ h. ((base.0 ((heavy.0 h).0)), λ _. (heavy.0 h).1)),
        λ h. heavy.1 (base.1 h.0, h.1 refl),
      )
      | inr e ↦ simp e ((λ h. (base.0 h, λ k. cc)), λ h. base.1 h.0)
    ]

pub reserve_reasons-fresh :
    (cfg : Config) (active : Active) (s : Snapshot) (c : Claim)
    → is_empty (reserve_reasons cfg active s c) ≡ true
    → exists c.id active ≡ false
unfolding reserve_reasons
reserve_reasons-fresh cfg active s c h = let h' = simp is_empty-deny at h in ground arith

-- What an admission means with no assumption on ranges: a new id, and room for heavy work.
pub allowed-fresh :
    (g : Governor) (s : Snapshot) (c : Claim)
    → (evaluate_locked g s c).allowed ≡ true
    → (exists c.id g.active ≡ false) × (c.heavy ≡ true → HeavyRoom g.cfg g.active s c)
unfolding evaluate_locked
allowed-fresh g s c h =
    let fresh = reserve_reasons-fresh g.cfg g.active s c in
    let heavy = heavy_reasons-empty g.cfg g.active s c (reserve_reasons g.cfg g.active s c) in
    elim (Bool-cases c.heavy) [
      | inl e ↦ let h' = simp e at h in (fresh (heavy.0 h').0, λ _. (heavy.0 h').1)
      | inr e ↦ let h' = simp e at h in (fresh h', λ k. cc)
    ]
