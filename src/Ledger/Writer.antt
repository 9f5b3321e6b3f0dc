-- ===== src/Ledger/Writer.antt =====
-- `InvocationWriter.record` (observability/writer.py).
use creditlens.Base.{ℕ, Bool, true, false, Option, none, some, ◌∷◌, ◌&&◌, ◌==◌, if◌then◌else◌, find}
use creditlens.Base.Text.{text_eq}
use creditlens.Base.Result.{Result, ok, err}
use creditlens.Outbox.Row.{Row, Status}
use creditlens.Ledger.Tables.{
  InvocationEnvelope, InvocationRecord, Ledger, InvocationWriter, LedgerError,
  InvocationRecordResult, EnvelopeCodec, same_optional, or_own, contradicts, invocation_topic,
  is_of_invocation, row_of_invocation, is_taken, invocation_identity_conflict,
  invocation_audit_persist_error, integrity_error, validation_error,
}

module _ (codec : EnvelopeCodec) (w : InvocationWriter) where
  open codec use {dump, load, revalidate, hash_envelope}

  -- `_with_context`
  unfoldable pub with_context : InvocationEnvelope → Result LedgerError InvocationEnvelope
  unfolding or_own contradicts same_optional
  with_context e =
      let actor_role = or_own e.actor_role w.actor_role in
      let task_id = or_own e.task_id w.task_id in
      if contradicts e.actor_role w.actor_role
      then err invocation_audit_persist_error
      else if contradicts e.task_id w.task_id
      then err invocation_audit_persist_error
      else if same_optional actor_role e.actor_role && same_optional task_id e.task_id
      then ok e
      else elim (revalidate (record e { actor_role = actor_role; task_id = task_id })) [
        | some resolved ↦ ok resolved
        | none ↦ err validation_error
      ]

  unfoldable pub record_of : InvocationEnvelope → InvocationRecord
  record_of e = record {
    invocation_id = e.invocation_id;
    tenant_id = w.tenant_id;
    case_id = w.case_id;
    run_id = w.run_id;
    contract_version = e.contract_version;
    kind = e.kind;
    name = e.name;
    provider = e.provider;
    model = e.model;
    version = e.version;
    actor_role = e.actor_role;
    task_id = e.task_id;
    status = e.status;
    ended_at = e.ended_at;
    payload_redacted = dump e;
    payload_sha256 = hash_envelope e;
  }

  unfoldable pub outbox_of : ℕ → ℕ → InvocationEnvelope → Row
  unfolding invocation_topic
  outbox_of fresh now e = record {
    id = fresh;
    tenant_id = w.tenant_id;
    case_id = w.case_id;
    run_id = w.run_id;
    invocation_id = e.invocation_id;
    topic = invocation_topic;
    status = Status.pending;
    attempts = 0;
    available_at = now;
    locked_at = none;
    locked_until = none;
    last_error_code = none;
    created_at = now;
    delivered_at = none;
    dead_at = none;
  }

  -- The payload of a row is an envelope with the columns of the row.
  unfoldable pub matches_columns : InvocationRecord → InvocationEnvelope → Bool
  unfolding same_optional
  matches_columns r p =
      p.invocation_id == r.invocation_id
      && text_eq p.kind r.kind
      && text_eq p.name r.name
      && same_optional p.provider r.provider
      && same_optional p.model r.model
      && same_optional p.version r.version
      && same_optional p.actor_role r.actor_role
      && same_optional p.task_id r.task_id
      && text_eq p.status r.status
      && p.ended_at == r.ended_at
      && text_eq (hash_envelope p) r.payload_sha256

  unfoldable pub payload_matches : InvocationRecord → Bool
  unfolding matches_columns
  payload_matches r = elim (load r.payload_redacted) [ none ↦ false | some p ↦ matches_columns r p ]

  unfoldable pub record_matches : InvocationRecord → InvocationEnvelope → Bool
  unfolding payload_matches
  record_matches r e =
      r.invocation_id == e.invocation_id
      && r.tenant_id == w.tenant_id
      && r.case_id == w.case_id
      && r.run_id == w.run_id
      && text_eq r.contract_version e.contract_version
      && text_eq r.payload_sha256 (hash_envelope e)
      && payload_matches r

  unfoldable pub outbox_matches : Row → InvocationEnvelope → Bool
  unfolding invocation_topic
  outbox_matches r e =
      r.tenant_id == w.tenant_id
      && r.case_id == w.case_id
      && r.run_id == w.run_id
      && r.invocation_id == e.invocation_id
      && text_eq r.topic invocation_topic

  unfoldable pub validate_outbox :
      InvocationRecord → Option Row → InvocationEnvelope → Result LedgerError InvocationRecordResult
  unfolding outbox_matches
  validate_outbox r none e = err invocation_audit_persist_error
  validate_outbox r (some row) e =
      if outbox_matches row e
      then ok (record { record_row = r; outbox_row = row; envelope = e; created = false })
      else err invocation_audit_persist_error

  -- `_validate_existing`, with the row of the outbox that `_load_existing` reads
  unfoldable pub validate_existing :
      InvocationRecord → InvocationEnvelope → Ledger → Result LedgerError InvocationRecordResult
  unfolding record_matches validate_outbox row_of_invocation
  validate_existing r e db =
      if record_matches r e
      then validate_outbox r (find (row_of_invocation e.invocation_id) db.outbox) e
      else err invocation_identity_conflict

  -- What a failed flush leads to.
  unfoldable pub after_integrity_error :
      InvocationEnvelope → Ledger → Result LedgerError InvocationRecordResult
  unfolding validate_existing is_of_invocation
  after_integrity_error e db =
      if w.sqlite
      then err integrity_error
      else elim (find (is_of_invocation e.invocation_id) db.invocations) [
        | none ↦ err integrity_error
        | some r ↦ validate_existing r e db
      ]

  unfoldable pub flush_rows :
      ℕ → ℕ → InvocationEnvelope → Ledger → Result LedgerError InvocationRecordResult × Ledger
  unfolding is_taken after_integrity_error record_of outbox_of
  flush_rows fresh now e db =
      if is_taken e.invocation_id db then (after_integrity_error e db, db) else (
        ok (record {
          record_row = record_of e;
          outbox_row = outbox_of fresh now e;
          envelope = e;
          created = true;
        }),
        record {
          invocations = record_of e ∷ db.invocations;
          outbox = outbox_of fresh now e ∷ db.outbox;
        },
      )

  -- `record` of a resolved envelope: `others` is what other sessions commit between the read and
  -- the flush.
  unfoldable pub record_resolved :
      ℕ
      → ℕ
      → (Ledger → Ledger)
      → InvocationEnvelope
      → Ledger
      → Result LedgerError InvocationRecordResult × Ledger
  unfolding validate_existing flush_rows is_of_invocation
  record_resolved fresh now others e db =
      elim (find (is_of_invocation e.invocation_id) db.invocations) [
        | some r ↦ (validate_existing r e db, db)
        | none ↦ flush_rows fresh now e (others db)
      ]

  -- `record`
  unfoldable pub record_invocation :
      ℕ
      → ℕ
      → (Ledger → Ledger)
      → InvocationEnvelope
      → Ledger
      → Result LedgerError InvocationRecordResult × Ledger
  unfolding with_context record_resolved
  record_invocation fresh now others e db = elim (with_context e) [
    | err x ↦ (err x, db)
    | ok resolved ↦ record_resolved fresh now others resolved db
  ]
