-- ===== src/Ledger/Again.antt =====
-- Recording an invocation twice (observability/writer.py, `InvocationWriter.record`).
use creditlens.Base.{
  ℕ, ◌≡◌, refl, sym, ◌∙◌, ap, true, false, Option, none, some, if-split, find, inl, inr,
}
use creditlens.Base.Result.{Result, ok, err, ok_cancel}
use creditlens.Outbox.Row.{Row}
use creditlens.Ledger.Tables.{
  InvocationEnvelope, InvocationRecord, Ledger, InvocationWriter, InvocationRecordResult,
  EnvelopeCodec, LedgerError, is_of_invocation, row_of_invocation,
}
use creditlens.Ledger.Writer.{
  with_context, record_matches, outbox_matches, validate_outbox, validate_existing, record_resolved,
  record_invocation,
}
use creditlens.Ledger.Found.{
  IsThere, found_again, record_resolved-Leaves, validate_existing-matching,
}

module _ (codec : EnvelopeCodec) (w : InvocationWriter) where
  open codec use {dump, load}

  abbrev Answer : Type 0
  Answer = Result LedgerError InvocationRecordResult × Ledger

  -- The row of the outbox is the same but for what the worker writes.
  pub record SameDelivery (sent later : Row) : Type 0 where
    pub tenant : later.tenant_id ≡ sent.tenant_id
    pub case : later.case_id ≡ sent.case_id
    pub run : later.run_id ≡ sent.run_id
    pub invocation : later.invocation_id ≡ sent.invocation_id
    pub topic : later.topic ≡ sent.topic

  SameDelivery-matches :
      (sent later : Row) (e : InvocationEnvelope)
      → SameDelivery sent later
      → outbox_matches codec w later e ≡ outbox_matches codec w sent e
  unfolding outbox_matches
  SameDelivery-matches sent later e h = rw (h.tenant, h.case, h.run, h.invocation, h.topic) refl

  -- What a result says of the rows that it was read from.
  record IsRead (row : InvocationRecord) (e : InvocationEnvelope) (r : InvocationRecordResult)
      : Type 0 where
    same_row : row ≡ r.record_row
    recorded : record_matches codec w row e ≡ true
    sent : outbox_matches codec w r.outbox_row e ≡ true
    same_envelope : e ≡ r.envelope

  outbox-IsRead :
      (row : InvocationRecord) (o : Option Row) (e : InvocationEnvelope)
      (r : InvocationRecordResult)
      → record_matches codec w row e ≡ true
      → validate_outbox codec w row o e ≡ ok (found_again codec w r)
      → IsRead row e r
  unfolding validate_outbox
  outbox-IsRead row none e r recorded h = cc
  outbox-IsRead row (some o) e r recorded h =
      elim (if-split (λ x. x ≡ ok (found_again codec w r)) (outbox_matches codec w o e) (ok _)
        (err _) h) [
          | inl (same, good) ↦
              let result = ok_cancel _ (found_again codec w r) good in
              record {
                same_row = ap (λ x. x.record_row) result;
                recorded = recorded;
                sent =
                    ap (λ x. outbox_matches codec w x e) (sym (ap (λ x. x.outbox_row) result))
                    ∙ same;
                same_envelope = ap (λ x. x.envelope) result;
              }
          | inr (other, bad) ↦ cc
        ]

  valid-IsRead :
      (row : InvocationRecord) (e : InvocationEnvelope) (db : Ledger) (r : InvocationRecordResult)
      → validate_existing codec w row e db ≡ ok (found_again codec w r)
      → IsRead row e r
  unfolding validate_existing
  valid-IsRead row e db r h =
      elim (if-split (λ x. x ≡ ok (found_again codec w r)) (record_matches codec w row e) _ (err _)
        h) [ inl (same, kept) ↦ outbox-IsRead row _ e r same kept | inr (other, bad) ↦ cc ]

  -- The result again, with the row of the outbox as it stands later.
  abbrev pub read_later : InvocationRecordResult → Row → InvocationRecordResult
  read_later r later = record r { outbox_row = later; created = false }

  IsThere-read :
      (fresh now : ℕ) (others : Ledger → Ledger) (e : InvocationEnvelope) (db after : Ledger)
      (r : InvocationRecordResult) (later : Row)
      → IsThere codec w e r db
      → find (is_of_invocation r.envelope.invocation_id) after.invocations ≡ some r.record_row
      → find (row_of_invocation r.envelope.invocation_id) after.outbox ≡ some later
      → SameDelivery r.outbox_row later
      → record_resolved codec w fresh now others e after ≡ (ok (read_later r later), after)
  unfolding record_resolved
  IsThere-read fresh now others e db after r later there kept sent same =
      let h = valid-IsRead there.row e db r there.valid in
      let is_e = ap (λ x. x.invocation_id) h.same_envelope in
      let kept_row = ap (λ i. find (is_of_invocation i) after.invocations) is_e ∙ kept in
      let sent_row = ap (λ i. find (row_of_invocation i) after.outbox) is_e ∙ sent in
      let recorded = ap (λ x. record_matches codec w x e) (sym h.same_row) ∙ h.recorded in
      let valid =
        validate_existing-matching codec w r.record_row later e after recorded sent_row
          (SameDelivery-matches r.outbox_row later e same ∙ h.sent)
        ∙ ap
            (λ x. ok (record {
              record_row = r.record_row;
              outbox_row = later;
              envelope = x;
              created = false;
            }))
            h.same_envelope in
      rw (record_resolved, kept_row, valid) refl

  -- An invocation that was recorded is recorded once: where the first call returned, a later one with
  -- the same envelope writes nothing and returns the row of the invocation and the row of the outbox
  -- as it stands by then, not created; on any later ledger that keeps the row of the invocation and
  -- the tenant, case, run, invocation and topic of the other, whatever the worker has made of the
  -- delivery, and if the envelope with the writer's context can be read back from its JSON.
  pub record_invocation-again :
      (fresh now fresh_later now_later : ℕ) (others others_later : Ledger → Ledger)
      (e : InvocationEnvelope) (db after : Ledger) (r : InvocationRecordResult) (later : Row)
      → ((x : InvocationEnvelope) → with_context codec w e ≡ ok x → load (dump x) ≡ some x)
      → (record_invocation codec w fresh now others e db).0 ≡ ok r
      → find (is_of_invocation r.envelope.invocation_id) after.invocations ≡ some r.record_row
      → find (row_of_invocation r.envelope.invocation_id) after.outbox ≡ some later
      → SameDelivery r.outbox_row later
      → record_invocation codec w fresh_later now_later others_later e after
        ≡ (ok (read_later r later), after)
  unfolding record_invocation
  record_invocation-again fresh now fresh_later now_later others others_later e db after r later
        reads h kept sent same =
      resolved_again (with_context codec w e) reads h
    where
      attempt : Result LedgerError InvocationEnvelope → ℕ → ℕ → (Ledger → Ledger) → Ledger → Answer
      attempt c i t o d = elim c [
        | err x ↦ (err x, d)
        | ok resolved ↦ record_resolved codec w i t o resolved d
      ]

      resolved_again :
          (c : Result LedgerError InvocationEnvelope)
          → ((x : InvocationEnvelope) → c ≡ ok x → load (dump x) ≡ some x)
          → (attempt c fresh now others db).0 ≡ ok r
          → attempt c fresh_later now_later others_later after ≡ (ok (read_later r later), after)
      resolved_again (err x) back h = cc
      resolved_again (ok resolved) back h =
          IsThere-read fresh_later now_later others_later resolved _ after r later
            (record_resolved-Leaves codec w fresh now others resolved db r (back resolved refl) h)
            kept sent same
