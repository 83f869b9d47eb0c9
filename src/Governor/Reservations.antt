-- ===== src/Governor/Reservations.antt =====
-- internal/resourcegov/governor.go: the reservations over a history of calls.
use mathlib.Core.List.{Permᴰ}
use mar.Prelude.{
  ℕ, suc, ◌≡◌, refl, Bool, List, [], ◌∷◌, arith, ◌∙◌, sym, ap, subst, inl, inr, Bool-cases, none,
  some, Option-cases, length, All,
}
use mar.Governor.{
  Claim, Active, Config, Snapshot, exists, Desk, find_lease, release_lease, evaluate_locked,
  reserved, heavy_jobs, every, of_project, reserve_reasons, heavy_reasons,
}
use mar.Governor.Sums.{total, reserved-total}
use mar.Governor.Admission.{Fits, InRange}
use mar.Governor.Capacity.{insert_reserves, release-Fits}
use mar.Governor.Leases.{acquire_lease_cases}
use mar.Governor.History.{Call, acquires, releases, step, run, opened, cfg-step}

-- The values of a call are 64-bit ones, and no reading or limit stands at the greatest uint64.
abbrev pub CallInRange : Config → Call → Type 0
CallInRange cfg (acquires none c) = Unit {0}
CallInRange cfg (acquires (some s) c) = InRange cfg s c
CallInRange cfg (releases t) = Unit {0}

release_lease-Fits :
    (d : Desk) (t : ℕ) → Fits d.governor.active → Fits (release_lease d t).governor.active
unfolding release_lease
release_lease-Fits d t v = elim (Option-cases (find_lease t d.leases)) [
  | inl gone ↦ rw (gone, release_lease) v
  | inr (l, e) ↦ elim (Bool-cases l.released) [
    | inl h ↦ rw (e, release_lease) (simp h v)
    | inr h ↦ rw (e, release_lease) (simp h (release-Fits d.governor l.claim_id v))
  ]
]

step-Fits :
    (d : Desk) (c : Call)
    → CallInRange d.governor.cfg c
    → Fits d.governor.active
    → Fits (step d c).governor.active
unfolding step
step-Fits d (acquires none c) r v =
    acquire_lease_cases (λ e. Fits e.governor.active) d none c v (λ s e h. cc)
step-Fits d (acquires (some s) c) r v =
    acquire_lease_cases (λ e. Fits e.governor.active) d (some s) c v
      λ s' e h.
        let same = ap {B = Snapshot} (λ o. elim o [ none ↦ s | some x ↦ x ]) e in
        (insert_reserves d.governor s' c v (subst (λ x. InRange d.governor.cfg x c) same r) h).2
step-Fits d (releases t) r v = release_lease-Fits d t v

run-Fits :
    (d : Desk) (cs : List Call) (cfg : Config)
    → d.governor.cfg ≡ cfg
    → All (CallInRange cfg) cs
    → Fits d.governor.active
    → Fits (run d cs).governor.active
unfolding run
run-Fits d [] cfg e r v = v
run-Fits d (c ∷ cs) cfg e r v =
    run-Fits (step d c) cs cfg (cfg-step d c ∙ e) r.1
      (step-Fits d c (subst (λ x. CallInRange x c) (sym e) r.0) v)

-- After any history of calls whose readings and limits are 64-bit values short of the greatest
-- one, the wrapping sums of the reserved RAM and disk that the governor computes are the true
-- sums over the active claims.
pub reserved-run-opened :
    (cfg : Config) (cs : List Call)
    → All (CallInRange cfg) cs
    → let active = (run (opened cfg) cs).governor.active in
      (reserved (λ x. x.ram_bytes) active ≡ total (λ x. x.ram_bytes) active)
      × (reserved (λ x. x.disk_bytes) active ≡ total (λ x. x.disk_bytes) active)
reserved-run-opened cfg cs r =
    let f = run-Fits (opened cfg) cs cfg refl r (omega arith) in
    (reserved-total _ _ f.ram_fits, reserved-total _ _ f.disk_fits)

reserved-perm : (size : Claim → ℕ) {a b : Active} → Permᴰ a b → reserved size a ≡ reserved size b
unfolding reserved
reserved-perm size Permᴰ.nil = refl
reserved-perm size (Permᴰ.cons e p) = ground (arith, e, reserved-perm size p)
reserved-perm size (Permᴰ.swap e f) = ground (arith, e, f)
reserved-perm size (Permᴰ.trans p q) = reserved-perm size p ∙ reserved-perm size q

heavy_jobs-perm :
    (counted : Claim → Bool) {a b : Active}
    → Permᴰ a b
    → heavy_jobs counted a ≡ heavy_jobs counted b
unfolding heavy_jobs
heavy_jobs-perm counted Permᴰ.nil = refl
heavy_jobs-perm counted (Permᴰ.cons e p) = rw e (ground (arith, heavy_jobs-perm counted p))
heavy_jobs-perm counted (Permᴰ.swap e f) = rw (e, f) (ground arith)
heavy_jobs-perm counted (Permᴰ.trans p q) = heavy_jobs-perm counted p ∙ heavy_jobs-perm counted q

exists-perm : (id : ℕ) {a b : Active} → Permᴰ a b → exists id a ≡ exists id b
unfolding exists
exists-perm id Permᴰ.nil = refl
exists-perm id (Permᴰ.cons e p) = rw e (ground (arith, exists-perm id p))
exists-perm id (Permᴰ.swap e f) = rw (e, f) (ground arith)
exists-perm id (Permᴰ.trans p q) = exists-perm id p ∙ exists-perm id q

length-perm : {a b : Active} → Permᴰ a b → length a ≡ length b
length-perm Permᴰ.nil = refl
length-perm (Permᴰ.cons e p) = ap suc (length-perm p)
length-perm (Permᴰ.swap e f) = refl
length-perm (Permᴰ.trans p q) = length-perm p ∙ length-perm q

-- The decision does not depend on the order in which Go walks the map of active claims.
pub evaluate_locked-perm :
    (cfg : Config) (a b : Active) (s : Snapshot) (c : Claim)
    → Permᴰ a b
    → evaluate_locked (record { cfg = cfg; active = a }) s c
      ≡ evaluate_locked (record { cfg = cfg; active = b }) s c
unfolding evaluate_locked reserve_reasons heavy_reasons
evaluate_locked-perm cfg a b s c p = simp (
  exists-perm c.id p,
  length-perm p,
  reserved-perm (λ x. x.ram_bytes) p,
  reserved-perm (λ x. x.disk_bytes) p,
  heavy_jobs-perm every p,
  heavy_jobs-perm (of_project c.project_id) p,
)
