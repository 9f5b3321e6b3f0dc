-- ===== src/Outbox/Tests.antt =====
-- Runs of the worker on a small table, and its theorems at concrete inputs.
use creditlens.Base.{
  ℕ, ◌≡◌, refl, ◌≤◌, Bool, true, false, Option, none, some, [], ◌∷◌, arith, All, length, find,
  contains,
}
use creditlens.Base.Text.{codes}
use creditlens.Outbox.Row.{Row, Table, Config, Claim, Status, configure, has_id, safe_error_code}
use creditlens.Outbox.Claiming.{claim_batch, claim_due_entries}
use creditlens.Outbox.Delivery.{
  Invocation, Delivery, Export, sent, raised, Batch, finished, Stats, owns_claim, mark_delivered,
  mark_failure, lost_lease, backoff, process_batch,
}
use creditlens.Outbox.Lifecycle.{
  check_lifecycle, check_error_code, check_topic, safe_error_code-check,
}
use creditlens.Outbox.Ownership.{IsFound}
use creditlens.Outbox.Fencing.{claim_batch-owns, reclaimed-fences}
use creditlens.Outbox.Keeps.{IsConsistent, LeavesIfRun, process_batch-IsConsistent}
use creditlens.Outbox.Counts.{
  settled, process_batch-counts, backoff_bounds, backoff-doubling_wait, doubling_wait,
}
use creditlens.Outbox.Terminal.{process_batch-keeps_final}

abbrev settings : Config
settings = record {
  max_attempts = 2;
  lease = 60;
  base_backoff = 5;
  max_backoff = 300;
  tenant = none;
  postgresql = true;
}

abbrev waiting : Row
waiting = record {
  id = 1;
  tenant_id = 7;
  case_id = 8;
  run_id = 9;
  invocation_id = 11;
  topic = codes "INVOCATION_TERMINATED";
  status = Status.pending;
  attempts = 0;
  available_at = 100;
  locked_at = none;
  locked_until = none;
  last_error_code = none;
  created_at = 90;
  delivered_at = none;
  dead_at = none;
}

-- A worker took this row at 10 and was not heard of again.
abbrev abandoned : Row
abandoned = record waiting {
  id = 2;
  invocation_id = 12;
  status = Status.processing;
  attempts = 1;
  locked_at = some 10;
  locked_until = some 70;
}

abbrev acknowledged : Row
acknowledged = record waiting {
  id = 3;
  invocation_id = 13;
  status = Status.delivered;
  attempts = 1;
  delivered_at = some 50;
}

abbrev table : Table
table = waiting ∷ abandoned ∷ acknowledged ∷ []

abbrev invocation : ℕ → Invocation ℕ
invocation i = record {
  invocation_id = i;
  tenant_id = 7;
  case_id = 8;
  run_id = 9;
  payload_redacted = i;
  payload_sha256 = i ∷ [];
}

abbrev no_lock : ℕ → Bool
no_lock i = false

abbrev clock : Claim → ℕ
clock c = 200

abbrev alone : Claim → Table → Table
alone c t = t

-- The exporter refuses the row of the second invocation.
abbrev export : ℕ → Delivery → ℕ → Export
export e d key = elim (contains 12 (key ∷ [])) [
  | true ↦ raised (some (codes "HTTP_503"))
  | false ↦ sent
]

abbrev run_batch : ℕ → Option Batch
run_batch n =
    process_batch (λ p. some p) (λ e. e) (λ e. e ∷ []) (invocation 11 ∷ invocation 12 ∷ []) export
      settings no_lock 150 clock alone n table

table-IsConsistent : IsConsistent settings table
unfolding has_id check_lifecycle check_error_code check_topic
table-IsConsistent = ground arith

safe_error_code-check_example :
    check_error_code
      (some (safe_error_code (some (codes "bad code")) (codes "TELEMETRY_EXPORT_FAILED")))
    ≡ true
unfolding check_error_code
safe_error_code-check_example =
    safe_error_code-check (some (codes "bad code")) (codes "TELEMETRY_EXPORT_FAILED") refl

process_batch-IsConsistent_example : LeavesIfRun (IsConsistent settings) (run_batch 32)
process_batch-IsConsistent_example =
    process_batch-IsConsistent (λ p. some p) (λ e. e) (λ e. e ∷ [])
      (invocation 11 ∷ invocation 12 ∷ []) export settings alone (λ c t h. h) no_lock 150 clock 32
      table (omega arith) table-IsConsistent

claim_batch-owns_example :
    All
      (λ c.
        owns_claim (find (has_id c.outbox_id) (claim_batch settings no_lock 150 32 table).0) c
        ≡ true)
      (claim_batch settings no_lock 150 32 table).1.claims
claim_batch-owns_example = claim_batch-owns settings no_lock 150 32 table table-IsConsistent.unique

-- The claim of the worker that was not heard of again.
abbrev stale : Claim
stale = record { outbox_id = 2; invocation_id = 12; attempt = 1; reclaimed = false }

reclaimed-fences_example :
    let later = (claim_batch settings no_lock 150 32 table).0 in
    (mark_delivered 160 stale later ≡ (later, false))
    × (mark_failure settings 160 stale none later ≡ (later, lost_lease))
unfolding has_id owns_claim claim_due_entries
reclaimed-fences_example = reclaimed-fences settings no_lock 150 32 table stale refl refl 160 none

process_batch-keeps_final_example : LeavesIfRun (λ t. IsFound t acknowledged) (run_batch 32)
unfolding has_id
process_batch-keeps_final_example =
    process_batch-keeps_final (λ p. some p) (λ e. e) (λ e. e ∷ [])
      (invocation 11 ∷ invocation 12 ∷ []) export settings alone acknowledged (λ c t h. h) refl
      no_lock 150 clock 32 table table-IsConsistent.unique refl

abbrev counts : Stats
counts = record {
  claimed = 2;
  reclaimed = 1;
  delivered = 1;
  retried = 0;
  dead = 1;
  lost_leases = 0;
}

abbrev final_table : Table
final_table =
    record waiting { status = Status.delivered; attempts = 1; delivered_at = some 200 }
    ∷ record abandoned {
      status = Status.dead;
      attempts = 2;
      locked_at = none;
      locked_until = none;
      last_error_code = some (codes "HTTP_503");
      dead_at = some 200;
    }
    ∷ acknowledged
    ∷ []

run_batch-counts : run_batch 32 ≡ some (finished counts final_table)
unfolding process_batch
run_batch-counts = refl

process_batch-counts_example :
    (settled counts ≡ length (claim_due_entries settings no_lock 150 32 table))
    × (settled counts ≤ 32)
    × (◌≤◌ 32 1000)
process_batch-counts_example =
    process_batch-counts (λ p. some p) (λ e. e) (λ e. e ∷ []) (invocation 11 ∷ invocation 12 ∷ [])
      export settings alone no_lock 150 clock 32 table final_table counts run_batch-counts

backoff_bounds_example : (5 ≤ backoff settings 3) × (backoff settings 3 ≤ 300)
unfolding configure
backoff_bounds_example = backoff_bounds settings settings 3 refl

backoff-doubling_wait_example : backoff settings 4 ≡ doubling_wait settings 3
unfolding configure
backoff-doubling_wait_example = backoff-doubling_wait settings settings 3 refl
