-- ===== src/Ledger/Found.antt =====
-- Where an invocation is found after it was recorded (observability/writer.py, `InvocationWriter.record`).
use creditlens.Base.{
  if-cases, option_case, ℕ, ◌≡◌, refl, sym, ◌∙◌, ap, true, false, Option, none, some, List, ◌∷◌,
  ==_refl, if-split, find, inl, inr,
}
use creditlens.Base.Text.{Text, text_eq_refl}
use creditlens.Base.Result.{Result, ok, err, ok_cancel}
use creditlens.Outbox.Row.{Row}
use creditlens.Ledger.Tables.{
  InvocationEnvelope, InvocationRecord, Ledger, InvocationWriter, InvocationRecordResult,
  EnvelopeCodec, LedgerError, integrity_error, same_optional, is_of_invocation, row_of_invocation,
  is_taken,
}
use creditlens.Ledger.Writer.{
  record_of, outbox_of, matches_columns, payload_matches, record_matches, outbox_matches,
  validate_outbox, validate_existing, after_integrity_error, flush_rows, record_resolved,
}

same_optional_refl : (a : Option Text) → same_optional a a ≡ true
unfolding same_optional
same_optional_refl none = refl
same_optional_refl (some t) = text_eq_refl t

module _ (codec : EnvelopeCodec) (w : InvocationWriter) where
  open codec use {dump, load}

  abbrev Answer : Type 0
  Answer = Result LedgerError InvocationRecordResult × Ledger

  -- The result of an invocation that was recorded before.
  abbrev pub found_again : InvocationRecordResult → InvocationRecordResult
  found_again r = record r { created = false }

  matches_columns-record_of :
      (e : InvocationEnvelope) → matches_columns codec w (record_of codec w e) e ≡ true
  unfolding matches_columns record_of
  matches_columns-record_of e = simp (==_refl, text_eq_refl, same_optional_refl)

  payload_matches-record_of :
      (e : InvocationEnvelope)
      → load (dump e) ≡ some e
      → payload_matches codec w (record_of codec w e) ≡ true
  unfolding payload_matches record_of
  payload_matches-record_of e reads = rw (payload_matches, reads) (matches_columns-record_of e)

  record_matches-record_of :
      (e : InvocationEnvelope)
      → load (dump e) ≡ some e
      → record_matches codec w (record_of codec w e) e ≡ true
  unfolding record_matches record_of
  record_matches-record_of e reads =
      simp (==_refl, text_eq_refl) (payload_matches-record_of e reads)

  outbox_matches-outbox_of :
      (fresh now : ℕ) (e : InvocationEnvelope)
      → outbox_matches codec w (outbox_of codec w fresh now e) e ≡ true
  unfolding outbox_matches outbox_of
  outbox_matches-outbox_of fresh now e = simp (==_refl, text_eq_refl)

  pub validate_existing-matching :
      (r : InvocationRecord) (row : Row) (e : InvocationEnvelope) (db : Ledger)
      → record_matches codec w r e ≡ true
      → find (row_of_invocation e.invocation_id) db.outbox ≡ some row
      → outbox_matches codec w row e ≡ true
      → validate_existing codec w r e db
        ≡ ok (record { record_row = r; outbox_row = row; envelope = e; created = false })
  unfolding validate_existing
  validate_existing-matching r row e db recorded found sent =
      rw (validate_existing, recorded, found, validate_outbox, sent) refl

  pub first_row :
      (fresh now : ℕ) (e : InvocationEnvelope) (rows : List Row)
      → find (row_of_invocation e.invocation_id) (outbox_of codec w fresh now e ∷ rows)
        ≡ some (outbox_of codec w fresh now e)
  unfolding row_of_invocation outbox_of
  first_row fresh now e rows = simp (==_refl)

  pub first_record :
      (e : InvocationEnvelope) (records : List InvocationRecord)
      → find (is_of_invocation e.invocation_id) (record_of codec w e ∷ records)
        ≡ some (record_of codec w e)
  unfolding is_of_invocation record_of
  first_record e records = simp (==_refl)

  -- The envelope is on the tables, and reads as the result.
  pub record IsThere (e : InvocationEnvelope) (r : InvocationRecordResult) (db : Ledger)
      : Type 0 where
    pub row : InvocationRecord
    pub found : find (is_of_invocation e.invocation_id) db.invocations ≡ some row
    pub valid : validate_existing codec w row e db ≡ ok (found_again r)

  abbrev Leaves : InvocationEnvelope → InvocationRecordResult → Answer → Type 0
  Leaves e r o = o.0 ≡ ok r → IsThere e r o.1

  validate_outbox-found_again :
      (row : InvocationRecord) (sent : Option Row) (e : InvocationEnvelope)
      (r : InvocationRecordResult)
      → validate_outbox codec w row sent e ≡ ok r
      → found_again r ≡ r
  unfolding validate_outbox
  validate_outbox-found_again row none e r h = cc
  validate_outbox-found_again row (some o) e r h =
      elim (if-split (λ x. x ≡ ok r) (outbox_matches codec w o e) (ok _) (err _) h) [
        | inl (same, good) ↦ ap found_again (sym (ok_cancel _ r good)) ∙ ok_cancel _ r good
        | inr (other, bad) ↦ cc
      ]

  validate_existing-found_again :
      (row : InvocationRecord) (e : InvocationEnvelope) (db : Ledger) (r : InvocationRecordResult)
      → validate_existing codec w row e db ≡ ok r
      → found_again r ≡ r
  unfolding validate_existing
  validate_existing-found_again row e db r h =
      elim (if-split (λ x. x ≡ ok r) (record_matches codec w row e) _ (err _) h) [
        | inl (same, sent) ↦ validate_outbox-found_again row _ e r sent
        | inr (other, bad) ↦ cc
      ]

  found-IsThere :
      (row : InvocationRecord) (e : InvocationEnvelope) (db : Ledger) (r : InvocationRecordResult)
      → find (is_of_invocation e.invocation_id) db.invocations ≡ some row
      → validate_existing codec w row e db ≡ ok r
      → IsThere e r db
  found-IsThere row e db r is_found is_valid = record {
    row = row;
    found = is_found;
    valid = is_valid ∙ ap ok (sym (validate_existing-found_again row e db r is_valid));
  }

  after_integrity_error-IsThere :
      (e : InvocationEnvelope) (db : Ledger) (r : InvocationRecordResult)
      → after_integrity_error codec w e db ≡ ok r
      → IsThere e r db
  unfolding after_integrity_error
  after_integrity_error-IsThere e db r h =
      elim (if-split (λ x. x ≡ ok r) w.sqlite (err integrity_error) _ h) [
        | inl (local, bad) ↦ cc
        | inr (server, kept) ↦
            option_case (λ x. x ≡ ok r → IsThere e r db)
              (find (is_of_invocation e.invocation_id) db.invocations) (err integrity_error)
              (λ row. validate_existing codec w row e db) (λ gone bad. cc)
              (λ row is_found is_valid. found-IsThere row e db r is_found is_valid) kept
      ]

  flush_rows-Leaves :
      (fresh now : ℕ) (e : InvocationEnvelope) (db : Ledger) (r : InvocationRecordResult)
      → load (dump e) ≡ some e
      → Leaves e r (flush_rows codec w fresh now e db)
  unfolding flush_rows
  flush_rows-Leaves fresh now e db r reads =
      if-cases (Leaves e r) (is_taken e.invocation_id db) _ _
        (λ taken h. after_integrity_error-IsThere e db r h)
        (λ free h. record {
          row = record_of codec w e;
          found = first_record e db.invocations;
          valid =
              validate_existing-matching (record_of codec w e) (outbox_of codec w fresh now e) e
                (record {
                  invocations = record_of codec w e ∷ db.invocations;
                  outbox = outbox_of codec w fresh now e ∷ db.outbox;
                })
                (record_matches-record_of e reads) (first_row fresh now e db.outbox)
                (outbox_matches-outbox_of fresh now e)
              ∙ ap (λ x. ok (found_again x)) (ok_cancel _ r h);
        })

  pub record_resolved-Leaves :
      (fresh now : ℕ) (others : Ledger → Ledger) (e : InvocationEnvelope) (db : Ledger)
      (r : InvocationRecordResult)
      → load (dump e) ≡ some e
      → Leaves e r (record_resolved codec w fresh now others e db)
  unfolding record_resolved
  record_resolved-Leaves fresh now others e db r reads =
      option_case (Leaves e r) (find (is_of_invocation e.invocation_id) db.invocations)
        (flush_rows codec w fresh now e (others db))
        (λ row. (validate_existing codec w row e db, db))
        (λ missing. flush_rows-Leaves fresh now e (others db) r reads)
        (λ row is_found is_valid. found-IsThere row e db r is_found is_valid)
