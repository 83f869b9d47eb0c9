-- ===== src/Governor/Leases.antt =====
-- internal/resourcegov/governor.go: leases and the claims they hold, over any history of calls.
use mar.Prelude.{
  ℕ, suc, ◌<◌, ◌≡◌, refl, true, false, ◌||◌, List, [], ◌∷◌, arith, ◌∙◌, sym, ap, inl, inr,
  Bool-cases, if◌then◌else◌, Option, none, some, Option-cases, map, contains, Distinct, ◌==◌,
}
use mar.Governor.{
  Claim, Active, Snapshot, exists, insert, delete, Lease, Desk, find_lease, mark_released,
  acquire_lease, release_lease, try_acquire, release, evaluate_locked, admit, Error, validate_claim,
}
use mar.Governor.Sums.{delete-absent}
use mar.Governor.Admission.{allowed-fresh}

abbrev pub ids : Active → List ℕ
ids = map (λ e. e.0)

-- The claims of the leases that are not released, newest first.
abbrev pub pending : List Lease → List ℕ
pending [] = []
pending (l ∷ ls) = if l.released then pending ls else l.claim_id ∷ pending ls

-- Tokens fall along the list and stay under the bound.
abbrev pub Below : ℕ → List Lease → Type 0
Below n [] = Unit {0}
Below n (l ∷ ls) = (l.token < n) × Below l.token ls

pub record Kept (d : Desk) : Type 0 where
  pub held : ids d.governor.active ≡ pending d.leases
  pub once : Distinct (pending d.leases)
  pub fresh : Below d.next_token d.leases

abbrev pub remove : ℕ → List ℕ → List ℕ
remove k [] = []
remove k (x ∷ xs) = let rest = remove k xs in if k == x then xs else x ∷ rest

pub exists-contains : (k : ℕ) (active : Active) → exists k active ≡ contains k (ids active)
unfolding exists
exists-contains k [] = refl
exists-contains k ((j, c) ∷ rest) = ap (◌||◌ (k == j)) (exists-contains k rest)

pub ids-delete : (k : ℕ) (active : Active) → ids (delete k active) ≡ remove k (ids active)
unfolding delete
ids-delete k [] = refl
ids-delete k ((j, c) ∷ rest) = ground (arith, ids-delete k rest)

ids-insert :
    (c : Claim) (active : Active)
    → exists c.id active ≡ false
    → ids (insert c.id c active) ≡ c.id ∷ ids active
unfolding insert
ids-insert c active h = rw (delete-absent c.id active h)

pub find_lease-pending :
    (t : ℕ) (ls : List Lease) (l : Lease)
    → find_lease t ls ≡ some l
    → l.released ≡ false
    → contains l.claim_id (pending ls) ≡ true
unfolding find_lease
find_lease-pending t [] l e n = cc
find_lease-pending t (x ∷ ls) l e n = ground (arith, find_lease-pending t ls l)

pending-mark_released :
    (t : ℕ) (ls : List Lease) (l : Lease)
    → find_lease t ls ≡ some l
    → l.released ≡ false
    → Distinct (pending ls)
    → pending (mark_released t ls) ≡ remove l.claim_id (pending ls)
unfolding find_lease mark_released
pending-mark_released t [] l e n d = cc
pending-mark_released t (x ∷ ls) l e n d =
    ground (arith, pending-mark_released t ls l, find_lease-pending t ls l)

contains-remove_absent :
    (j k : ℕ) (xs : List ℕ) → contains j xs ≡ false → contains j (remove k xs) ≡ false
contains-remove_absent j k [] h = refl
contains-remove_absent j k (x ∷ xs) h = ground (arith, contains-remove_absent j k xs)

remove-Distinct : (k : ℕ) (xs : List ℕ) → Distinct xs → Distinct (remove k xs)
remove-Distinct k [] d = tt
remove-Distinct k (x ∷ xs) d =
    ground (arith, remove-Distinct k xs d.1, contains-remove_absent x k xs d.0)

pub contains-remove :
    (j k : ℕ) (xs : List ℕ)
    → Distinct xs
    → contains j (remove k xs) ≡ (if j == k then false else contains j xs)
contains-remove j k [] d = ground arith
contains-remove j k (x ∷ xs) d = ground (arith, contains-remove j k xs d.1)

mark_released-Below : (t n : ℕ) (ls : List Lease) → Below n ls → Below n (mark_released t ls)
unfolding mark_released
mark_released-Below t n [] b = tt
mark_released-Below t n (l ∷ ls) b = ground (arith, mark_released-Below t l.token ls b.1)

-- The desk after a claim was let in.
abbrev pub leased : Desk → Claim → Desk
leased d c = record {
  governor = record { cfg = d.governor.cfg; active = insert c.id c d.governor.active };
  leases = record { token = d.next_token; claim_id = c.id; released = false } ∷ d.leases;
  next_token = suc d.next_token;
}

admit_lease :
    (d : Desk) (s : Snapshot) (c : Claim)
    → validate_claim c ≡ none
    → (evaluate_locked d.governor s c).allowed ≡ true
    → acquire_lease d (some s) c ≡ leased d c
unfolding acquire_lease try_acquire admit
admit_lease d s c fine h = ground arith

deny_lease :
    (d : Desk) (s : Snapshot) (c : Claim)
    → (evaluate_locked d.governor s c).allowed ≡ false
    → acquire_lease d (some s) c ≡ d
unfolding acquire_lease try_acquire admit
deny_lease d s c h = ground arith

refuse_lease :
    (d : Desk) (reading : Option Snapshot) (c : Claim) (e : Error)
    → validate_claim c ≡ some e
    → acquire_lease d reading c ≡ d
unfolding acquire_lease try_acquire
refuse_lease d reading c e bad = ground arith

blind_lease : (d : Desk) (c : Claim) → acquire_lease d none c ≡ d
unfolding acquire_lease try_acquire
blind_lease d c = ground arith

-- A call of TryAcquire gives no lease and changes nothing, or lets the claim in and leases it.
pub acquire_lease_cases {ℓ} :
    (P : Desk → Type ℓ) (d : Desk) (reading : Option Snapshot) (c : Claim)
    → P d
    → ((s : Snapshot)
        → reading ≡ some s
        → (evaluate_locked d.governor s c).allowed ≡ true
        → P (leased d c))
    → P (acquire_lease d reading c)
acquire_lease_cases P d none c same added = rw (blind_lease d c) same
acquire_lease_cases P d (some s) c same added = elim (Option-cases (validate_claim c)) [
  | inr (e, bad) ↦ rw (refuse_lease d (some s) c e bad) same
  | inl fine ↦ elim (Bool-cases (evaluate_locked d.governor s c).allowed) [
    | inl h ↦ rw (admit_lease d s c fine h) (added s refl h)
    | inr h ↦ rw (deny_lease d s c h) same
  ]
]

pub acquire_lease-Kept :
    (d : Desk) (reading : Option Snapshot) (c : Claim) → Kept d → Kept (acquire_lease d reading c)
acquire_lease-Kept d reading c v = acquire_lease_cases Kept d reading c v λ s e h.
    let new_id = (allowed-fresh d.governor s c h).0 in
    let unheld =
      sym (ap (contains c.id) v.held) ∙ sym (exists-contains c.id d.governor.active) ∙ new_id in
    record {
      held = ids-insert c d.governor.active new_id ∙ ap (◌∷◌ c.id) v.held;
      once = (unheld, v.once);
      fresh = (omega arith, v.fresh);
    }

pub release_lease-Kept : (d : Desk) (t : ℕ) → Kept d → Kept (release_lease d t)
unfolding release_lease release
release_lease-Kept d t v = elim (Option-cases (find_lease t d.leases)) [
  | inl gone ↦ rw (gone, release_lease) v
  | inr (l, e) ↦ elim (Bool-cases l.released) [
    | inl h ↦ rw (e, release_lease) (simp h v)
    | inr h ↦
        rw (e, release_lease)
          (simp h (record {
            held =
                ids-delete l.claim_id d.governor.active
                ∙ ap (remove l.claim_id) v.held
                ∙ sym (pending-mark_released t d.leases l e h v.once);
            once =
                rw (pending-mark_released t d.leases l e h v.once)
                  (remove-Distinct l.claim_id _ v.once);
            fresh = mark_released-Below t d.next_token d.leases v.fresh;
          }))
  ]
]
