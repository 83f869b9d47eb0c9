-- ===== src/Governor/Capacity.antt =====
-- internal/resourcegov/governor.go: what holds of the active claims after any calls.
use mar.Prelude.{
  ℕ, suc, ◌+◌, ◌≤◌, ◌≡◌, refl, Bool, true, false, ◌&&◌, arith, inl, inr, Bool-cases, if◌then◌else◌,
  Option, some, Option-cases, ap, subst, ==_refl,
}
use mar.Governor.{
  Claim, Active, Config, Snapshot, Governor, exists, insert, validate_claim, heavy_jobs, every,
  of_project, evaluate_locked, admit, try_acquire, release, Decision, ok,
}
use mar.Governor.Sums.{total, delete-absent, total-delete-le, heavy_jobs-delete-le}
use mar.Governor.Admission.{Fits, InRange, HeavyRoom, evaluate_locked-allowed_iff, allowed-fresh}

-- No limit on heavy jobs is exceeded.
pub record Capped (cfg : Config) (active : Active) : Type 0 where
  pub jobs_capped : heavy_jobs every active ≤ cfg.max_heavy_jobs
  pub project_capped : (p : ℕ) → heavy_jobs (of_project p) active ≤ cfg.max_heavy_jobs_per_project

heavy_jobs-insert :
    (counted : Claim → Bool) (c : Claim) (active : Active)
    → exists c.id active ≡ false
    → heavy_jobs counted (insert c.id c active) ≡ (
        if c.heavy && counted c then suc (heavy_jobs counted active) else heavy_jobs counted active)
unfolding insert heavy_jobs
heavy_jobs-insert counted c active h = rw (delete-absent c.id active h) refl

pub insert-Capped :
    (cfg : Config) (active : Active) (s : Snapshot) (c : Claim)
    → exists c.id active ≡ false
    → (c.heavy ≡ true → HeavyRoom cfg active s c)
    → Capped cfg active
    → Capped cfg (insert c.id c active)
insert-Capped cfg active s c h room v = record {
  jobs_capped = ground (arith, heavy_jobs-insert every c active h, room);
  project_capped =
      λ p. ground (arith, heavy_jobs-insert (of_project p) c active h, room, v.project_capped p);
}

admit_cases {ℓ} :
    (P : Governor → Type ℓ) (g : Governor) (s : Snapshot) (c : Claim)
    → P g
    → ((evaluate_locked g s c).allowed ≡ true → P (record g { active = insert c.id c g.active }))
    → P (admit g s c).0
unfolding admit
admit_cases P g s c same added = elim (Bool-cases (evaluate_locked g s c).allowed) [
  | inl h ↦ rw (h, admit) (added h)
  | inr h ↦ rw (h, admit) same
]

-- A call leaves the governor alone, or enters the claim after a decision that allows it.
pub try_acquire_cases {ℓ} :
    (P : Governor → Type ℓ) (g : Governor) (reading : Option Snapshot) (c : Claim)
    → P g
    → ((s : Snapshot)
        → reading ≡ some s
        → (evaluate_locked g s c).allowed ≡ true
        → P (record g { active = insert c.id c g.active }))
    → P (try_acquire g reading c).0
unfolding try_acquire
try_acquire_cases P g reading c same added = elim (Option-cases (validate_claim c)) [
  | inr (e, bad) ↦ rw (bad, try_acquire) same
  | inl fine ↦ elim (Option-cases reading) [
    | inl lost ↦ rw (fine, lost, try_acquire) same
    | inr (s, e) ↦ rw (fine, e, try_acquire) (admit_cases P g s c same (added s e))
  ]
]

-- Whatever the readings are, a call of TryAcquire keeps the number of heavy jobs within
-- MaxHeavyJobs, and that of each project within MaxHeavyJobsPerProject.
pub try_acquire-Capped :
    (g : Governor) (reading : Option Snapshot) (c : Claim)
    → Capped g.cfg g.active
    → Capped g.cfg (try_acquire g reading c).0.active
try_acquire-Capped g reading c v =
    try_acquire_cases (λ h. Capped g.cfg h.active) g reading c v
      λ s _ h.
        let (fresh, room) = allowed-fresh g s c h in insert-Capped g.cfg g.active s c fresh room v

pub release-Capped :
    (g : Governor) (id : ℕ) → Capped g.cfg g.active → Capped g.cfg (release g id).active
unfolding release
release-Capped g id v = record {
  jobs_capped = omega (arith, heavy_jobs-delete-le every id g.active, v.jobs_capped);
  project_capped =
      λ p. omega (arith, heavy_jobs-delete-le (of_project p) id g.active, v.project_capped p);
}

total-insert :
    (size : Claim → ℕ) (c : Claim) (active : Active)
    → exists c.id active ≡ false
    → total size (insert c.id c active) ≡ total size active + size c
unfolding insert
total-insert size c active h = rw (delete-absent c.id active h)

pub insert_reserves :
    (g : Governor) (s : Snapshot) (c : Claim)
    → Fits g.active
    → InRange g.cfg s c
    → (evaluate_locked g s c).allowed ≡ true
    → let active = insert c.id c g.active in
      (g.cfg.min_free_ram_bytes + total (λ x. x.ram_bytes) active ≤ s.available_ram_bytes)
      × (g.cfg.min_free_disk_bytes + total (λ x. x.disk_bytes) active ≤ s.free_disk_bytes)
      × Fits active
insert_reserves g s c f r h =
    let v = ((evaluate_locked-allowed_iff g s c f r).0 h).0 in
    let ram = total-insert (λ x. x.ram_bytes) c g.active v.fresh in
    let disk = total-insert (λ x. x.disk_bytes) c g.active v.fresh in
    (omega arith, omega arith, omega arith)

exists-insert : (c : Claim) (active : Active) → exists c.id (insert c.id c active) ≡ true
unfolding exists insert
exists-insert c active = let self = ==_refl c.id in ground arith

-- A lease is handed out only by a decision that allows the claim, which is then stored.
pub try_acquire-leased :
    (g g' : Governor) (s : Snapshot) (c : Claim) (d : Decision)
    → try_acquire g (some s) c ≡ (g', ok (true, d))
    → ((evaluate_locked g s c).allowed ≡ true) × (record g { active = insert c.id c g.active } ≡ g')
unfolding try_acquire admit
try_acquire-leased g g' s c d h = elim (Option-cases (validate_claim c)) [
  | inr (e, bad) ↦ let h' = rw (bad, try_acquire) at h in cc
  | inl fine ↦ elim (Bool-cases (evaluate_locked g s c).allowed) [
    | inr n ↦ let h' = rw (fine, n, try_acquire, admit) at h in cc
    | inl y ↦ let h' = rw (fine, y, try_acquire, admit) at h in (y, ap (λ p. p.0) h')
  ]
]

-- While the reservations fit in 64 bits and no reading or limit stands at the greatest uint64, a
-- call of TryAcquire that hands out a lease stores the claim and reserves what it promised: the
-- reservations grow by those of the claim, the free RAM and the free disk of the reading cover the
-- configured reserve and all reservations, as true sums, and these sums fit in 64 bits again.
pub try_acquire_reserves :
    (g g' : Governor) (s : Snapshot) (c : Claim) (d : Decision)
    → Fits g.active
    → InRange g.cfg s c
    → try_acquire g (some s) c ≡ (g', ok (true, d))
    → (exists c.id g'.active ≡ true)
      × (total (λ x. x.ram_bytes) g'.active ≡ total (λ x. x.ram_bytes) g.active + c.ram_bytes)
      × (total (λ x. x.disk_bytes) g'.active ≡ total (λ x. x.disk_bytes) g.active + c.disk_bytes)
      × (g.cfg.min_free_ram_bytes + total (λ x. x.ram_bytes) g'.active ≤ s.available_ram_bytes)
      × (g.cfg.min_free_disk_bytes + total (λ x. x.disk_bytes) g'.active ≤ s.free_disk_bytes)
      × Fits g'.active
try_acquire_reserves g g' s c d f r h =
    let (allowed, stored) = try_acquire-leased g g' s c d h in
    let v = ((evaluate_locked-allowed_iff g s c f r).0 allowed).0 in
    let (ram_covered, disk_covered, fits) = insert_reserves g s c f r allowed in
    subst
      (λ (k : Governor).
        (exists c.id k.active ≡ true)
        × (total (λ x. x.ram_bytes) k.active ≡ total (λ x. x.ram_bytes) g.active + c.ram_bytes)
        × (total (λ x. x.disk_bytes) k.active ≡ total (λ x. x.disk_bytes) g.active + c.disk_bytes)
        × (g.cfg.min_free_ram_bytes + total (λ x. x.ram_bytes) k.active ≤ s.available_ram_bytes)
        × (g.cfg.min_free_disk_bytes + total (λ x. x.disk_bytes) k.active ≤ s.free_disk_bytes)
        × Fits k.active)
      stored
      (
        exists-insert c g.active,
        total-insert (λ x. x.ram_bytes) c g.active v.fresh,
        total-insert (λ x. x.disk_bytes) c g.active v.fresh,
        ram_covered,
        disk_covered,
        fits,
      )

pub try_acquire-Fits :
    (g : Governor) (reading : Option Snapshot) (c : Claim)
    → Fits g.active
    → ((s : Snapshot) → reading ≡ some s → InRange g.cfg s c)
    → Fits (try_acquire g reading c).0.active
try_acquire-Fits g reading c f r =
    try_acquire_cases (λ h. Fits h.active) g reading c f
      λ s e h. (insert_reserves g s c f (r s e) h).2

pub release-Fits : (g : Governor) (id : ℕ) → Fits g.active → Fits (release g id).active
unfolding release
release-Fits g id f = omega (
  arith,
  total-delete-le (λ x. x.ram_bytes) id g.active,
  total-delete-le (λ x. x.disk_bytes) id g.active,
)
