-- ===== src/Ledger/Recorded.antt =====
-- What a call of `InvocationWriter.record` (observability/writer.py) leaves on the tables.
use creditlens.Base.{
  ℕ, ◌≡◌, refl, subst, true, false, Option, none, some, ◌∷◌, if-cases, option_case, find, arith,
}
use creditlens.Base.Text.{text_eq_sound}
use creditlens.Base.Result.{Result, ok, err, ok_cancel}
use creditlens.Outbox.Row.{Row}
use creditlens.Ledger.Tables.{
  InvocationEnvelope, InvocationRecord, Ledger, InvocationWriter, InvocationRecordResult,
  EnvelopeCodec, LedgerError, integrity_error, is_of_invocation, row_of_invocation, is_taken,
}
use creditlens.Ledger.Writer.{
  with_context, record_of, outbox_of, record_matches, outbox_matches, validate_outbox,
  validate_existing, after_integrity_error, flush_rows, record_resolved, record_invocation,
}
use creditlens.Ledger.Found.{first_row, first_record}

module _ (codec : EnvelopeCodec) (w : InvocationWriter) where
  open codec use {hash_envelope}

  abbrev Answer : Type 0
  Answer = Result LedgerError InvocationRecordResult × Ledger

  -- The rows of a result are on the tables under the id of the envelope, are of the writer's tenant,
  -- case and run, and the row has the hash of the envelope.
  pub record IsStored (r : InvocationRecordResult) (db : Ledger) : Type 0 where
    pub stored : find (is_of_invocation r.envelope.invocation_id) db.invocations ≡ some r.record_row
    pub queued : find (row_of_invocation r.envelope.invocation_id) db.outbox ≡ some r.outbox_row
    pub record_tenant : r.record_row.tenant_id ≡ w.tenant_id
    pub record_case : r.record_row.case_id ≡ w.case_id
    pub record_run : r.record_row.run_id ≡ w.run_id
    pub digest : r.record_row.payload_sha256 ≡ hash_envelope r.envelope
    pub row_tenant : r.outbox_row.tenant_id ≡ w.tenant_id
    pub row_case : r.outbox_row.case_id ≡ w.case_id
    pub row_run : r.outbox_row.run_id ≡ w.run_id

  abbrev Stores : Answer → Type 0
  Stores o = (r : InvocationRecordResult) → o.0 ≡ ok r → IsStored r o.1

  matching-IsStored :
      (row : InvocationRecord) (sent : Row) (e : InvocationEnvelope) (db : Ledger)
      → find (is_of_invocation e.invocation_id) db.invocations ≡ some row
      → find (row_of_invocation e.invocation_id) db.outbox ≡ some sent
      → record_matches codec w row e ≡ true
      → outbox_matches codec w sent e ≡ true
      → IsStored (record { record_row = row; outbox_row = sent; envelope = e; created = false }) db
  unfolding record_matches outbox_matches
  matching-IsStored row sent e db is_found is_sent h k = record {
    stored = is_found;
    queued = is_sent;
    record_tenant = ground arith;
    record_case = ground arith;
    record_run = ground arith;
    digest = text_eq_sound _ _ (ground arith);
    row_tenant = ground arith;
    row_case = ground arith;
    row_run = ground arith;
  }

  sent-Stores :
      (row : InvocationRecord) (e : InvocationEnvelope) (db : Ledger) (sent : Option Row)
      → find (is_of_invocation e.invocation_id) db.invocations ≡ some row
      → find (row_of_invocation e.invocation_id) db.outbox ≡ sent
      → record_matches codec w row e ≡ true
      → Stores (validate_outbox codec w row sent e, db)
  unfolding validate_outbox
  sent-Stores row e db none is_found is_sent matching = λ r h. cc
  sent-Stores row e db (some o) is_found is_sent matching =
      if-cases (λ x. Stores (x, db)) (outbox_matches codec w o e) _ _
        (λ same r h.
          subst (λ x. IsStored x db) (ok_cancel _ r h)
            (matching-IsStored row o e db is_found is_sent matching same))
        (λ other r h. cc)

  existing-Stores :
      (row : InvocationRecord) (e : InvocationEnvelope) (db : Ledger)
      → find (is_of_invocation e.invocation_id) db.invocations ≡ some row
      → Stores (validate_existing codec w row e db, db)
  unfolding validate_existing
  existing-Stores row e db is_found =
      if-cases (λ x. Stores (x, db)) (record_matches codec w row e) _ _
        (λ same. sent-Stores row e db _ is_found refl same) (λ other r h. cc)

  integrity-Stores :
      (e : InvocationEnvelope) (db : Ledger) → Stores (after_integrity_error codec w e db, db)
  unfolding after_integrity_error
  integrity-Stores e db =
      if-cases (λ x. Stores (x, db)) w.sqlite _ _ (λ local r h. cc)
        (λ server.
          option_case (λ x. Stores (x, db)) (find (is_of_invocation e.invocation_id) db.invocations)
            (err integrity_error) (λ row. validate_existing codec w row e db) (λ gone r h. cc)
            (λ row is_found. existing-Stores row e db is_found))

  flush_rows-Stores :
      (fresh now : ℕ) (e : InvocationEnvelope) (db : Ledger)
      → Stores (flush_rows codec w fresh now e db)
  unfolding flush_rows record_of outbox_of
  flush_rows-Stores fresh now e db =
      if-cases Stores (is_taken e.invocation_id db) _ _ (λ taken. integrity-Stores e db)
        (λ free r h.
          subst
            (λ x. IsStored x (record {
              invocations = record_of codec w e ∷ db.invocations;
              outbox = outbox_of codec w fresh now e ∷ db.outbox;
            }))
            (ok_cancel _ r h)
            (record {
              stored = first_record codec w e db.invocations;
              queued = first_row codec w fresh now e db.outbox;
              record_tenant = refl;
              record_case = refl;
              record_run = refl;
              digest = refl;
              row_tenant = refl;
              row_case = refl;
              row_run = refl;
            }))

  record_resolved-Stores :
      (fresh now : ℕ) (others : Ledger → Ledger) (e : InvocationEnvelope) (db : Ledger)
      → Stores (record_resolved codec w fresh now others e db)
  unfolding record_resolved
  record_resolved-Stores fresh now others e db =
      option_case Stores (find (is_of_invocation e.invocation_id) db.invocations)
        (flush_rows codec w fresh now e (others db))
        (λ row. (validate_existing codec w row e db, db))
        (λ missing. flush_rows-Stores fresh now e (others db))
        (λ row is_found. existing-Stores row e db is_found)

  -- A call of `record` that returns leaves its two rows on the tables, the first under their
  -- invocation's id and those that it returns: both are of the writer's tenant, case and run, and the
  -- row of the invocation has the hash of the envelope that the call returns, whether the call wrote
  -- them, found them, or met them in a race.
  pub record_invocation-IsStored :
      (fresh now : ℕ) (others : Ledger → Ledger) (e : InvocationEnvelope) (db : Ledger)
      (r : InvocationRecordResult)
      → (record_invocation codec w fresh now others e db).0 ≡ ok r
      → IsStored r (record_invocation codec w fresh now others e db).1
  unfolding record_invocation
  record_invocation-IsStored fresh now others e db = resolved_stores (with_context codec w e)
    where
      resolved_stores :
          (c : Result LedgerError InvocationEnvelope)
          → Stores (elim c [
            | err x ↦ (err x, db)
            | ok resolved ↦ record_resolved codec w fresh now others resolved db
          ])
      resolved_stores (err x) = λ r h. cc
      resolved_stores (ok resolved) = record_resolved-Stores fresh now others resolved db
