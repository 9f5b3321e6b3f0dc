-- ===== src/Outbox/Claiming.antt =====
-- `_claim_due_entries_stmt` and `_claim_batch` of `TelemetryOutboxWorker`.
use creditlens.Base.{
  ℕ, ◌+◌, Bool, true, false, Option, none, some, List, [], ◌∷◌, map, ◌&&◌, ◌||◌, not, ltb, leb,
  ◌==◌, if◌then◌else◌, take, filter, contains, update_where,
}
use creditlens.Base.Text.{codes}
use creditlens.Outbox.Row.{Row, Table, Config, Claim, Status, is_pending, is_processing}

-- The columns are nullable; a comparison with NULL selects nothing.
unfoldable pub lease_expired : ℕ → Row → Bool
unfolding is_processing
lease_expired now r = elim r.locked_until [
  | none ↦ false
  | some until ↦ is_processing r.status && leb until now
]

unfoldable pub is_due : ℕ → Row → Bool
unfolding is_pending lease_expired
is_due now r = (is_pending r.status && leb r.available_at now) || lease_expired now r

unfoldable pub in_tenant : Option ℕ → Row → Bool
in_tenant none r = true
in_tenant (some t) r = r.tenant_id == t

-- `order_by(available_at, created_at)`
unfoldable pub not_after : Row → Row → Bool
not_after a b =
    if a.available_at == b.available_at
    then leb a.created_at b.created_at
    else ltb a.available_at b.available_at

unfoldable pub insert_row : Row → Table → Table
unfolding not_after
insert_row r [] = r ∷ []
insert_row r (x ∷ xs) = if not_after r x then r ∷ x ∷ xs else x ∷ insert_row r xs

unfoldable pub order_rows : Table → Table
unfolding insert_row
order_rows [] = []
order_rows (x ∷ xs) = insert_row x (order_rows xs)

-- `locked` tells the rows that another transaction holds: `SKIP LOCKED` passes over them, and is
-- asked for on PostgreSQL alone.
unfoldable pub selectable : Config → (ℕ → Bool) → ℕ → Row → Bool
unfolding is_due in_tenant
selectable cfg locked now r =
    is_due now r && in_tenant cfg.tenant r && not (cfg.postgresql && locked r.id)

unfoldable pub claim_due_entries : Config → (ℕ → Bool) → ℕ → ℕ → Table → Table
unfolding selectable order_rows
claim_due_entries cfg locked now batch_size table =
    take batch_size (order_rows (filter (selectable cfg locked now) table))

unfoldable pub exhaust : ℕ → Row → Row
exhaust now r = record r {
  status = Status.dead;
  locked_at = none;
  locked_until = none;
  last_error_code = some (codes "TELEMETRY_ATTEMPTS_EXHAUSTED");
  delivered_at = none;
  dead_at = some now;
}

unfoldable pub lease_to : Config → ℕ → Row → Row
lease_to cfg now r = record r {
  status = Status.processing;
  attempts = r.attempts + 1;
  locked_at = some now;
  locked_until = some (now + cfg.lease);
  last_error_code = none;
  delivered_at = none;
  dead_at = none;
}

-- The last lease ran out: no attempt is left.
unfoldable pub is_exhausted : Config → Row → Bool
unfolding is_processing
is_exhausted cfg r = is_processing r.status && leb cfg.max_attempts r.attempts

-- The body of the loop of `_claim_batch`, on its row.
unfoldable pub claim_entry : Config → ℕ → Row → Row
unfolding is_exhausted exhaust lease_to
claim_entry cfg now r = if is_exhausted cfg r then exhaust now r else lease_to cfg now r

-- The claims that the loop appends.
unfoldable pub claims_of : Config → Table → List Claim
unfolding is_exhausted is_processing
claims_of cfg [] = []
claims_of cfg (r ∷ rs) =
    let rest = claims_of cfg rs in
    if is_exhausted cfg r
    then rest
    else record {
      outbox_id = r.id;
      invocation_id = r.invocation_id;
      attempt = r.attempts + 1;
      reclaimed = is_processing r.status;
    }
      ∷ rest

unfoldable pub count_exhausted : Config → Table → ℕ
unfolding is_exhausted
count_exhausted cfg [] = 0
count_exhausted cfg (r ∷ rs) = (if is_exhausted cfg r then 1 else 0) + count_exhausted cfg rs

-- `_ClaimBatch`
pub record ClaimBatch : Type 0 where
  pub claims : List Claim
  pub exhausted_leases : ℕ

-- The entries are the session's objects of the selected rows, so the loop updates the table.
unfoldable pub claim_batch : Config → (ℕ → Bool) → ℕ → ℕ → Table → Table × ClaimBatch
unfolding claim_due_entries claim_entry claims_of count_exhausted
claim_batch cfg locked now batch_size table =
    let entries : Table = claim_due_entries cfg locked now batch_size table in
    (
      update_where (λ r. contains r.id (map (λ e. e.id) entries)) (claim_entry cfg now) table,
      record { claims = claims_of cfg entries; exhausted_leases = count_exhausted cfg entries },
    )
