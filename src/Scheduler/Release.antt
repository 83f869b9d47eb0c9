-- ===== src/Scheduler/Release.antt =====
-- internal/scheduler/scheduler.go: what a step holds while it works, and gives back.
use mar.Prelude.{
  ℕ, ◌≡◌, refl, ap, ◌∙◌, Bool, true, false, not, Option, none, some, if◌then◌else◌, arith, inl, inr,
  Bool-cases, Option-cases, is_empty,
}
use mar.Domain.Task.{Task}
use mar.Store.Scheduling.{list_waiting_tasks}
use mar.Governor.{
  Active, Governor, Claim, Snapshot, Decision, Error, Result, ok, err, try_acquire, release, exists,
  insert, delete, evaluate_locked, validate_claim, admit, run_if_idle_exclusive,
}
use mar.Governor.Sums.{delete-absent}
use mar.Governor.Admission.{allowed-fresh}
use mar.Scheduler.Step.{
  Config, Books, Outside, Scheduler, Progress, acquire, acquire_again, is_pressed, reclaim_stage,
  prune_stage, checkpoint_stage, attempts, conclude, decide, step, idle_step, chosen,
  workspace_claim, counting, reclaimed_with, pruned_with, checkpointed_with, idle_with,
  idle_checkpoint, is_rested, reconciled, idle_checkpoint_batch,
}

-- The governor `g` after attempts to acquire `claim`: it holds the claim, which it did not before,
-- and the decision allows it; or it is as it was, and the decision does not.
abbrev pub Holds : Governor → Claim → Governor → Result (Bool × Decision) → Type 0
Holds g claim g' (err e) = g' ≡ g
Holds g claim g' (ok (true, d)) =
    (d.allowed ≡ true)
    × (exists claim.id g.active ≡ false)
    × (g' ≡ record g { active = insert claim.id claim g.active })
Holds g claim g' (ok (false, d)) = (d.allowed ≡ false) × (g' ≡ g)

try_acquire-Holds :
    (g : Governor) (reading : Option Snapshot) (claim : Claim)
    → Holds g claim (try_acquire g reading claim).0 (try_acquire g reading claim).1
unfolding try_acquire admit
try_acquire-Holds g reading claim = elim (Option-cases (validate_claim claim)) [
  | inr (e, bad) ↦ rw (bad, try_acquire) refl
  | inl fine ↦ elim (Option-cases reading) [
    | inl lost ↦ rw (fine, lost, try_acquire) refl
    | inr (s, e) ↦ elim (Bool-cases (evaluate_locked g s claim).allowed) [
      | inl h ↦ rw (fine, e, try_acquire, h, admit) (refl, (allowed-fresh g s claim h).0, refl)
      | inr h ↦ rw (fine, e, try_acquire, h, admit) (refl, refl)
    ]
  ]
]

pressed-same :
    (g g' : Governor) (claim : Claim) (reply : Result (Bool × Decision))
    → Holds g claim g' reply
    → is_pressed reply ≡ true
    → g' ≡ g
pressed-same g g' claim (err e) h p = h
pressed-same g g' claim (ok (true, d)) h p = absurd (ground (arith, h.0))
pressed-same g g' claim (ok (false, d)) h p = h.1

delete-insert :
    (c : Claim) (active : Active)
    → exists c.id active ≡ false
    → delete c.id (insert c.id c active) ≡ active
unfolding delete insert
delete-insert c active h = ground (arith, delete-absent c.id active h)

release-Holds :
    (g g' : Governor) (claim : Claim) (leased : Bool) (d : Decision)
    → Holds g claim g' (ok (leased, d))
    → d.allowed ≡ true
    → release g' claim.id ≡ g
unfolding release insert delete
release-Holds g g' claim true d h a =
    ap (λ x. release x claim.id) h.2
    ∙ ap (λ l. record g { active = l }) (delete-insert claim g.active h.1)
release-Holds g g' claim false d h a = absurd (ground (arith, h.0))

module _ {ℓ} {W : Type ℓ} (out : Outside W) (cfg : Config) (claim : Claim) (g : Governor) where
  abbrev Sound : Progress W → Type 0
  Sound p = Holds g claim p.governor p.reply

  again-Sound : (p : Progress W) → p.governor ≡ g → Sound (acquire_again out cfg claim p)
  unfolding acquire
  again-Sound p e =
      let (books, reading) = out.read_sensor (out.invalidate_disk_usage p.books) in
      rw e (try_acquire-Holds g reading claim)

  -- A stage that runs only under pressure keeps what holds of the progress.
  stage-Sound :
      {X : Type ℓ} (o : Option X) (p : Progress W) (use_it : X → Progress W)
      → Sound p
      → ((x : X) → is_pressed p.reply ≡ true → Sound (use_it x))
      → Sound (if not (is_pressed p.reply) then p else elim o [ none ↦ p | some x ↦ use_it x ])
  stage-Sound none p use_it h f = elim (Bool-cases (is_pressed p.reply)) [
    | inl y ↦ rw y h
    | inr n ↦ rw n h
  ]
  stage-Sound (some x) p use_it h f = elim (Bool-cases (is_pressed p.reply)) [
    | inl y ↦ rw y (f x y)
    | inr n ↦ rw n h
  ]

  -- Another attempt, if the reclamation did something.
  retry-Sound :
      (b : Bool) (p q : Progress W)
      → Sound p
      → is_pressed p.reply ≡ true
      → q.governor ≡ p.governor
      → q.reply ≡ p.reply
      → Sound (if b then acquire_again out cfg claim q else q)
  retry-Sound true p q h y same r =
      again-Sound q (same ∙ pressed-same g p.governor claim p.reply h y)
  retry-Sound false p q h y same r = rw (same, r) h

  reclaim-Sound : (p : Progress W) → Sound p → Sound (reclaim_stage out cfg claim p)
  unfolding reclaim_stage
  reclaim-Sound p h =
      stage-Sound out.reclaim_terminal p
        (λ reclaim. reclaimed_with out cfg claim p (reclaim cfg.pressure_reclaim_limit p.books)) h
        λ reclaim y. retry-Sound _ p _ h y refl refl

  prune-Sound : (p : Progress W) → Sound p → Sound (prune_stage out cfg claim p)
  unfolding prune_stage
  prune-Sound p h =
      stage-Sound out.prune_rebuildable_caches p
        (λ prune. pruned_with out cfg claim p (
          run_if_idle_exclusive p.governor (some (counting out cfg prune))
            (p.books, p.cache_bytes)))
        h λ prune y. retry-Sound _ p _ h y refl refl

  checkpoint-Sound : (p : Progress W) → Sound p → Sound (checkpoint_stage out cfg claim p)
  unfolding checkpoint_stage
  checkpoint-Sound p h =
      stage-Sound out.checkpoint_blocked_workspaces p
        (λ call. checkpointed_with out cfg claim p (call cfg.pressure_reclaim_limit p.books)) h
        λ call y. retry-Sound _ p _ h y refl refl

  attempts-Sound : (books : Books W) → Sound (attempts out cfg claim g books)
  unfolding attempts acquire
  attempts-Sound books =
      checkpoint-Sound _
        (prune-Sound _ (reclaim-Sound _ (try_acquire-Holds g (out.read_sensor books).1 claim)))

module _ {ℓ} {W : Type ℓ} (out : Outside W) (cfg : Config) where
  conclude_governor :
      (s : Scheduler W) (claim : Claim) (t : Task) (now : ℕ) (p : Progress W)
      (reply : Result (Bool × Decision))
      → Holds s.governor claim p.governor reply
      → (conclude out cfg s claim t now (record p { reply = reply })).0.governor ≡ s.governor
  unfolding conclude
  conclude_governor s claim t now p (err e) h = h
  conclude_governor s claim t now p (ok (true, d)) h =
      rw (h.0) (release-Holds s.governor p.governor claim true d h h.0)
  conclude_governor s claim t now p (ok (false, d)) h = rw (h.0) (h.1)

  idle_with_governor :
      (s : Scheduler W) (r : (Books W × (ℕ × ℕ)) × Bool × Option Error)
      → (idle_with out cfg s r).0.governor ≡ s.governor
  idle_with_governor s ((books, (n, bytes)), ran, some e) = refl
  idle_with_governor s ((books, (n, bytes)), ran, none) = refl

  idle_checkpoint_governor : (s : Scheduler W) → (idle_checkpoint out cfg s).0.governor ≡ s.governor
  unfolding idle_checkpoint
  idle_checkpoint_governor s = elim (Option-cases out.checkpoint_blocked_workspaces) [
    | inl e ↦ rw (e, idle_checkpoint) refl
    | inr (call, e) ↦
        rw (e, idle_checkpoint)
          (idle_with_governor s (
            run_if_idle_exclusive s.governor (some (counting out cfg (call idle_checkpoint_batch)))
              (s.books, (0, 0))))
  ]

  idle_governor : (now : ℕ) (s : Scheduler W) → (idle_step out cfg now s).0.governor ≡ s.governor
  unfolding idle_step
  idle_governor now s = elim (Bool-cases (is_rested out cfg now s.last_idle_checkpoint)) [
    | inl y ↦ rw (y, idle_step) refl
    | inr n ↦
        rw (n, idle_step) (idle_checkpoint_governor (record s { last_idle_checkpoint = some now }))
  ]

  decide_governor : (now : ℕ) (s : Scheduler W) → (decide out cfg now s).0.governor ≡ s.governor
  unfolding decide
  decide_governor now s = elim (Bool-cases (is_empty (list_waiting_tasks s.books.db))) [
    | inl y ↦ rw (y, decide) (idle_governor now s)
    | inr n ↦ elim (Option-cases (chosen out cfg now s.books (list_waiting_tasks s.books.db))) [
      | inl e ↦ rw (n, e, decide) refl
      | inr (t, e) ↦
          let claim = workspace_claim out cfg t in
          let p = attempts out cfg claim s.governor s.books in
          let h = attempts-Sound out cfg claim s.governor s.books in
          rw (n, e, decide) (conclude_governor s claim t now p p.reply h)
    ]
  ]

  reconciled_governor :
      (now : ℕ) (s : Scheduler W) (r : Books W × ℕ × Option Error)
      → (reconciled out cfg now s r).0.governor ≡ s.governor
  reconciled_governor now s (books, n, some e) = refl
  reconciled_governor now s (books, n, none) = decide_governor now (record s { books = books })

  -- Whatever the provisioner, the sensor and the store do, and however the step ends, it leaves the
  -- governor as it was: the claim for a workspace is released, and no other claim is touched.
  pub step_governor : (now : ℕ) (s : Scheduler W) → (step out cfg now s).0.governor ≡ s.governor
  unfolding step
  step_governor now s = elim (Option-cases out.reconcile_checkpoint_transactions) [
    | inl e ↦ rw (e, step) (decide_governor now s)
    | inr (reconcile, e) ↦
        rw (e, step) (reconciled_governor now s (reconcile cfg.pressure_reclaim_limit s.books))
  ]
