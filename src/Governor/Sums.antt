-- ===== src/Governor/Sums.antt =====
-- internal/resourcegov/governor.go: the sums over the active claims, without their wrap-around.
use mar.Prelude.{ℕ, ◌+◌, ◌^◌, ◌≤◌, ◌<◌, ◌≡◌, refl, Bool, false, [], ◌∷◌, arith, ltb}
use mar.Governor.{Claim, Active, max_uint64, saturating_add, exists, delete, reserved, heavy_jobs}

-- The sum of a size over the claims, as a number with no bound.
abbrev pub total : (Claim → ℕ) → Active → ℕ
total size [] = 0
total size ((k, c) ∷ rest) = total size rest + size c

-- While the true sum fits in 64 bits, the wrapping sum is the true sum.
pub reserved-total :
    (size : Claim → ℕ) (active : Active)
    → total size active < 2 ^ 64
    → reserved size active ≡ total size active
unfolding reserved
reserved-total size [] h = refl
reserved-total size ((k, c) ∷ rest) h = omega (arith, reserved-total size rest (omega arith))

pub delete-absent :
    (id : ℕ) (active : Active) → exists id active ≡ false → delete id active ≡ active
unfolding delete exists
delete-absent id [] h = refl
delete-absent id ((k, c) ∷ rest) h = ground (arith, delete-absent id rest)

pub total-delete-le :
    (size : Claim → ℕ) (id : ℕ) (active : Active)
    → total size (delete id active) ≤ total size active
unfolding delete
total-delete-le size id [] = omega arith
total-delete-le size id ((k, c) ∷ rest) = ground (arith, total-delete-le size id rest)

pub heavy_jobs-delete-le :
    (counted : Claim → Bool) (id : ℕ) (active : Active)
    → heavy_jobs counted (delete id active) ≤ heavy_jobs counted active
unfolding delete heavy_jobs
heavy_jobs-delete-le counted id [] = omega arith
heavy_jobs-delete-le counted id ((k, c) ∷ rest) =
    ground (arith, heavy_jobs-delete-le counted id rest)

-- A saturated sum exceeds a limit below the maximum exactly when the true sum does.
pub saturating_add-gt :
    (limit a b : ℕ)
    → a ≤ max_uint64
    → limit < max_uint64
    → ltb limit (saturating_add a b) ≡ ltb limit (a + b)
unfolding saturating_add
saturating_add-gt limit a b ha h = ground arith

pub saturating_add-gt₂ :
    (limit a b c : ℕ)
    → a ≤ max_uint64
    → b ≤ max_uint64
    → limit < max_uint64
    → ltb limit (saturating_add a (saturating_add b c)) ≡ ltb limit (a + (b + c))
unfolding saturating_add
saturating_add-gt₂ limit a b c ha hb h = ground arith
