-- ===== src/Outbox/Delivery.antt =====
-- The rest of `TelemetryOutboxWorker`: loading, exporting and finalising a claim, and the batch.
-- The envelope's schema and its hash (observability/invocation.py), the exporter, the clock and the
-- work of other workers between two short transactions are parameters.
use creditlens.Base.{
  ℕ, ◌+◌, ◌-◌, ◌*◌, ◌^◌, min, Bool, true, false, Option, none, some, List, [], ◌∷◌, ◌&&◌, leb, ◌==◌,
  if◌then◌else◌, length, is_some, find, update_where, filter,
}
use creditlens.Base.Text.{Text, codes, text_eq}
use creditlens.Outbox.Row.{
  Row, Table, Config, Claim, Status, is_processing, has_id, safe_error_code,
}
use creditlens.Outbox.Claiming.{ClaimBatch, claim_batch}

unfoldable pub owns_row : Row → Claim → Bool
unfolding is_processing
owns_row r c =
    is_processing r.status
    && r.attempts == c.attempt
    && r.invocation_id == c.invocation_id
    && is_some r.locked_at
    && is_some r.locked_until

-- `_owns_claim`
unfoldable pub owns_claim : Option Row → Claim → Bool
unfolding owns_row
owns_claim none c = false
owns_claim (some r) c = owns_row r c

-- The columns of `InvocationRecord` that the worker reads.
pub record Invocation (Payload : Type 0) : Type 0 where
  pub invocation_id : ℕ
  pub tenant_id : ℕ
  pub case_id : ℕ
  pub run_id : ℕ
  pub payload_redacted : Payload
  pub payload_sha256 : Text

unfoldable pub bindings_match : {Payload : Type 0} → Invocation Payload → Row → Bool
bindings_match record_ outbox =
    record_.invocation_id == outbox.invocation_id
    && record_.tenant_id == outbox.tenant_id
    && record_.case_id == outbox.case_id
    && record_.run_id == outbox.run_id

-- `TelemetryDelivery`
pub record Delivery : Type 0 where
  pub invocation_id : ℕ
  pub tenant_id : ℕ
  pub case_id : ℕ
  pub run_id : ℕ
  pub topic : Text

-- `locked_at` and the other columns that an acknowledged row clears.
unfoldable pub acknowledge : ℕ → Row → Row
acknowledge now r = record r {
  status = Status.delivered;
  locked_at = none;
  locked_until = none;
  last_error_code = none;
  delivered_at = some now;
  dead_at = none;
}

-- `_mark_delivered`
unfoldable pub mark_delivered : ℕ → Claim → Table → Table × Bool
unfolding owns_claim acknowledge has_id
mark_delivered now c table =
    if owns_claim (find (has_id c.outbox_id) table) c
    then (update_where (has_id c.outbox_id) (acknowledge now) table, true)
    else (table, false)

pub data Outcome : Type 0 where
  retried died lost_lease : Outcome

-- The seconds that a failed attempt waits; attempts count from 1, and the source's seconds are floats.
unfoldable pub backoff : Config → ℕ → ℕ
backoff cfg attempt = min (cfg.base_backoff * 2 ^ (attempt - 1)) cfg.max_backoff

unfoldable pub fail_row : Config → ℕ → Claim → Text → Row → Row
unfolding backoff
fail_row cfg now c code r =
    if leb cfg.max_attempts c.attempt
    then record r {
      status = Status.dead;
      locked_at = none;
      locked_until = none;
      last_error_code = some code;
      delivered_at = none;
      dead_at = some now;
    }
    else record r {
      status = Status.pending;
      available_at = now + backoff cfg c.attempt;
      locked_at = none;
      locked_until = none;
      last_error_code = some code;
      delivered_at = none;
      dead_at = none;
    }

-- `_mark_failure`; of the error only its declared code is read.
unfoldable pub mark_failure : Config → ℕ → Claim → Option Text → Table → Table × Outcome
unfolding owns_claim fail_row safe_error_code has_id
mark_failure cfg now c error table =
    let code : Text = safe_error_code error (codes "TELEMETRY_EXPORT_FAILED") in
    if owns_claim (find (has_id c.outbox_id) table) c
    then (
      update_where (has_id c.outbox_id) (fail_row cfg now c code) table,
      (if leb cfg.max_attempts c.attempt then died else retried),
    )
    else (table, lost_lease)

-- `TelemetryWorkerStats`
pub record Stats : Type 0 where
  pub claimed : ℕ
  pub reclaimed : ℕ
  pub delivered : ℕ
  pub retried : ℕ
  pub dead : ℕ
  pub lost_leases : ℕ

unfoldable pub count_failure : Outcome → Stats → Stats
count_failure Outcome.retried s = record s { retried = s.retried + 1 }
count_failure Outcome.died s = record s { dead = s.dead + 1 }
count_failure Outcome.lost_lease s = record s { lost_leases = s.lost_leases + 1 }

unfoldable pub count_delivery : Bool → Stats → Stats
count_delivery true s = record s { delivered = s.delivered + 1 }
count_delivery false s = record s { lost_leases = s.lost_leases + 1 }

-- How an export ends: it returns, it raises with a declared code or none, or it is cancelled.
pub data Export : Type 0 where
  sent : Export
  raised : Option Text → Export
  cancelled : Export

-- How a batch ends: with its counts, or by the cancellation that it passes on.
pub data Batch : Type 0 where
  finished : Stats → Table → Batch
  cancelled : Table → Batch

unfoldable pub initial_stats : ClaimBatch → Stats
initial_stats b = record {
  claimed = length b.claims;
  reclaimed = length (filter (λ c. c.reclaimed) b.claims);
  delivered = 0;
  retried = 0;
  dead = b.exhausted_leases;
  lost_leases = 0;
}

-- The next turn of the loop, unless the batch was cancelled.
unfoldable pub then_continue : Batch → (Stats → Table → Batch) → Batch
then_continue (finished s table) next = next s table
then_continue (Batch.cancelled table) next = Batch.cancelled table

module _ {Payload Envelope : Type 0} (model_validate : Payload → Option Envelope)
    (envelope_id : Envelope → ℕ) (hash_envelope : Envelope → Text)
    (invocations : List (Invocation Payload)) (export : Envelope → Delivery → ℕ → Export) where
  unfoldable pub check_envelope : Invocation Payload → Claim → Option Envelope
  check_envelope rec c = elim (model_validate rec.payload_redacted) [
    | none ↦ none
    | some e ↦
        if envelope_id e == c.invocation_id && text_eq (hash_envelope e) rec.payload_sha256
        then some e
        else none
  ]

  unfoldable pub load_row : Row → Claim → Option (Envelope × Delivery)
  unfolding owns_row bindings_match check_envelope
  load_row outbox c = elim (find (λ rec. rec.invocation_id == c.invocation_id) invocations) [
    | none ↦ none
    | some rec ↦
        if owns_row outbox c && bindings_match rec outbox
        then elim (check_envelope rec c) [
          | none ↦ none
          | some e ↦ some (
            e,
            record {
              invocation_id = outbox.invocation_id;
              tenant_id = outbox.tenant_id;
              case_id = outbox.case_id;
              run_id = outbox.run_id;
              topic = outbox.topic;
            },
          )
        ]
        else none
  ]

  -- `_load_envelope`: `none` is `TelemetryPayloadInvalid`.
  unfoldable pub load_envelope : Table → Claim → Option (Envelope × Delivery)
  unfolding load_row has_id
  load_envelope table c = elim (find (has_id c.outbox_id) table) [
    | none ↦ none
    | some outbox ↦ load_row outbox c
  ]

  -- The body of the `try` of `process_batch`.
  unfoldable pub attempt_export : Table → Claim → Export
  unfolding load_envelope
  attempt_export table c = elim (load_envelope table c) [
    | none ↦ raised (some (codes "TELEMETRY_PAYLOAD_INVALID"))
    | some (e, delivery) ↦ export e delivery c.invocation_id
  ]

  -- Its handlers: the claim is finalised on the table that other workers have left meanwhile.
  unfoldable pub finalize : Config → ℕ → Claim → Export → Stats → Table → Batch
  unfolding mark_delivered mark_failure count_failure count_delivery
  finalize cfg now c sent s table =
      finished (count_delivery (mark_delivered now c table).1 s) (mark_delivered now c table).0
  finalize cfg now c (raised error) s table =
      finished (count_failure (mark_failure cfg now c error table).1 s)
        (mark_failure cfg now c error table).0
  finalize cfg now c Export.cancelled s table = Batch.cancelled table

  unfoldable pub process_claims :
      Config → (Claim → ℕ) → (Claim → Table → Table) → List Claim → Stats → Table → Batch
  unfolding attempt_export finalize then_continue
  process_claims cfg now others [] s table = finished s table
  process_claims cfg now others (c ∷ cs) s table =
      then_continue (finalize cfg (now c) c (attempt_export table c) s (others c table))
        (process_claims cfg now others cs)

  -- `process_batch`; `none` is the `ValueError` of a batch size out of range.
  unfoldable pub process_batch :
      Config → (ℕ → Bool) → ℕ → (Claim → ℕ) → (Claim → Table → Table) → ℕ → Table → Option Batch
  unfolding process_claims claim_batch initial_stats
  process_batch cfg locked start now others batch_size table =
      if leb 1 batch_size && leb batch_size 1000
      then (let (table', batch) = claim_batch cfg locked start batch_size table in
          some (process_claims cfg now others batch.claims (initial_stats batch) table'))
      else none
