-- ===== src/Store/Integration/Queries.antt =====
-- internal/store/integration.go: the queries that the daemon makes of publications.
use mar.Prelude.{
  ℕ, Bool, true, false, ◌&&◌, ◌||◌, List, [], ◌∷◌, Option, none, some, ◌==◌, ltb, if◌then◌else◌,
}
use mar.Domain.Integration.{IntegrationStatus, prepared, dispatched, IntegrationAttempt}
use mar.Store.{Db, Result, ok, err}
use mar.Store.Integration.{Digests}
use mar.Store.Integration.Calls.{scan_integration_attempt}

-- The later of an attempt and the latest of the others.
abbrev later : IntegrationAttempt → Option IntegrationAttempt → IntegrationAttempt
later a none = a
later a (some b) = if ltb b.version a.version then a else b

-- SELECT … FROM integration_attempts WHERE task_id = ? ORDER BY version DESC LIMIT 1
unfoldable latest_integration : ℕ → List IntegrationAttempt → Option IntegrationAttempt
latest_integration task [] = none
latest_integration task (a ∷ rest) =
    let others = latest_integration task rest in
    if a.task_id == task then some (later a others) else others

-- WHERE status IN (PREPARED, DISPATCHED)
abbrev is_listed : IntegrationStatus → Bool
is_listed prepared = true
is_listed dispatched = true
is_listed _ = false

-- ORDER BY updated_at ASC, integration_attempt_id ASC
abbrev is_earlier : IntegrationAttempt → IntegrationAttempt → Bool
is_earlier a b = ltb a.updated_at b.updated_at || (a.updated_at == b.updated_at && ltb a.id b.id)

unfoldable insert_earlier : IntegrationAttempt → List IntegrationAttempt → List IntegrationAttempt
insert_earlier a [] = a ∷ []
insert_earlier a (b ∷ rest) =
    let others = insert_earlier a rest in if is_earlier a b then a ∷ b ∷ rest else b ∷ others

unfoldable pending_rows : List IntegrationAttempt → List IntegrationAttempt
pending_rows [] = []
pending_rows (a ∷ rest) =
    let others = pending_rows rest in if is_listed a.status then insert_earlier a others else others

module _ (d : Digests) where
  -- LatestIntegrationAttempt
  unfoldable latest_integration_attempt : ℕ → Db → Result (Option IntegrationAttempt)
  latest_integration_attempt task db = elim (latest_integration task db.integrations) [
    | none ↦ ok none
    | some a ↦ elim (scan_integration_attempt d a) [ err e ↦ err e | ok x ↦ ok (some x) ]
  ]

  -- The loop of ListPendingIntegrationAttempts: one row that fails its check fails the list.
  unfoldable scan_rows : List IntegrationAttempt → Result (List IntegrationAttempt)
  scan_rows [] = ok []
  scan_rows (a ∷ rest) =
      let others = scan_rows rest in
      elim (scan_integration_attempt d a) [
        | err e ↦ err e
        | ok x ↦ elim others [ err e ↦ err e | ok xs ↦ ok (x ∷ xs) ]
      ]

  -- ListPendingIntegrationAttempts
  unfoldable list_pending_integration_attempts : Db → Result (List IntegrationAttempt)
  list_pending_integration_attempts db = scan_rows (pending_rows db.integrations)
