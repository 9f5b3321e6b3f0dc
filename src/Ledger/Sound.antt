-- ===== src/Ledger/Sound.antt =====
-- The invariant of the ledger's tables (infrastructure/postgres/models.py) under
-- `InvocationWriter.record` (observability/writer.py).
use creditlens.Base.{
  ℕ, ◌≡◌, ◌<◌, refl, ap, true, false, Option, none, some, List, [], ◌∷◌, if-cases, option_case,
  find, is_some, ||_false, All, All-imp,
}
use creditlens.Base.Result.{Result, ok, err}
use creditlens.Outbox.Row.{Row, Config, Table}
use creditlens.Outbox.Lifecycle.{IsLawful, check_lifecycle, check_error_code, check_topic}
use creditlens.Ledger.Tables.{
  InvocationEnvelope, InvocationRecord, Ledger, InvocationWriter, InvocationRecordResult,
  EnvelopeCodec, LedgerError, is_of_invocation, row_of_invocation, invocation_topic, is_taken,
}
use creditlens.Ledger.Writer.{
  with_context, record_of, outbox_of, validate_existing, flush_rows, record_resolved,
  record_invocation,
}
use creditlens.Ledger.Found.{first_record}

-- No two rows have one invocation.
abbrev pub DistinctRows : Table → Type 0
DistinctRows [] = Unit
DistinctRows (r ∷ rs) = (find (row_of_invocation r.invocation_id) rs ≡ none) × DistinctRows rs

abbrev pub DistinctInvocations : List InvocationRecord → Type 0
DistinctInvocations [] = Unit
DistinctInvocations (r ∷ rs) =
    (find (is_of_invocation r.invocation_id) rs ≡ none) × DistinctInvocations rs

-- The row may stand on the outbox and its invocation is on the ledger.
abbrev pub IsBacked : Config → List InvocationRecord → Row → Type 0
IsBacked cfg records r =
    IsLawful cfg r × (is_some (find (is_of_invocation r.invocation_id) records) ≡ true)

pub record IsSound (cfg : Config) (db : Ledger) : Type 0 where
  pub backed : All (IsBacked cfg db.invocations) db.outbox
  pub distinct_rows : DistinctRows db.outbox
  pub distinct_invocations : DistinctInvocations db.invocations

nothing {ℓ} : {A : Type ℓ} (o : Option A) → is_some o ≡ false → o ≡ none
nothing none h = refl
nothing (some a) h = cc

module _ (codec : EnvelopeCodec) (w : InvocationWriter) (cfg : Config) where
  abbrev Answer : Type 0
  Answer = Result LedgerError InvocationRecordResult × Ledger

  outbox_of-IsLawful :
      (fresh now : ℕ) (e : InvocationEnvelope)
      → 0 < cfg.max_attempts
      → IsLawful cfg (outbox_of codec w fresh now e)
  unfolding outbox_of invocation_topic check_lifecycle check_error_code check_topic
  outbox_of-IsLawful fresh now e some_attempt = record {
    lifecycle = refl;
    error_code = refl;
    topic = refl;
    limit = some_attempt;
  }

  IsBacked-more :
      (record_row : InvocationRecord) (records : List InvocationRecord) (r : Row)
      → IsBacked cfg records r
      → IsBacked cfg (record_row ∷ records) r
  IsBacked-more record_row records r h = (
    h.0,
    if-cases (λ x. is_some x ≡ true) (is_of_invocation r.invocation_id record_row) _ _
        (λ same. refl) (λ other. h.1),
  )

  is_taken-free :
      (i : ℕ) (db : Ledger)
      → is_taken i db ≡ false
      → (find (is_of_invocation i) db.invocations ≡ none)
        × (find (row_of_invocation i) db.outbox ≡ none)
  unfolding is_taken
  is_taken-free i db h =
      let (new, unsent) =
        ||_false (is_some (find (is_of_invocation i) db.invocations))
          (is_some (find (row_of_invocation i) db.outbox)) h in
      (nothing _ new, nothing _ unsent)

  flush_rows-IsSound :
      (fresh now : ℕ) (e : InvocationEnvelope) (db : Ledger)
      → 0 < cfg.max_attempts
      → IsSound cfg db
      → IsSound cfg (flush_rows codec w fresh now e db).1
  unfolding flush_rows record_of outbox_of is_of_invocation
  flush_rows-IsSound fresh now e db some_attempt h =
      if-cases (λ (o : Answer). IsSound cfg o.1) (is_taken e.invocation_id db) _ _ (λ taken. h)
        (λ free.
          let (new, unsent) = is_taken-free e.invocation_id db free in
          record {
            backed = (
              (
                outbox_of-IsLawful fresh now e some_attempt,
                ap is_some (first_record codec w e db.invocations),
              ),
              All-imp (IsBacked cfg db.invocations) _ db.outbox
                  (IsBacked-more (record_of codec w e) db.invocations) h.backed,
            );
            distinct_rows = (unsent, h.distinct_rows);
            distinct_invocations = (new, h.distinct_invocations);
          })

  -- `record` keeps the tables sound, whether it returns or raises: a row waits, is leased, delivered or
  -- dead as the constraints ask and within the limit on attempts, its invocation is on the ledger, and
  -- no invocation has two rows on either table; if the limit allows an attempt and the other sessions
  -- keep the tables sound.
  pub record_invocation-IsSound :
      (fresh now : ℕ) (others : Ledger → Ledger) (e : InvocationEnvelope) (db : Ledger)
      → 0 < cfg.max_attempts
      → ((x : Ledger) → IsSound cfg x → IsSound cfg (others x))
      → IsSound cfg db
      → IsSound cfg (record_invocation codec w fresh now others e db).1
  unfolding record_invocation record_resolved
  record_invocation-IsSound fresh now others e db some_attempt keeps h =
      resolved_sound (with_context codec w e)
    where
      recorded : Result LedgerError InvocationEnvelope → Answer
      recorded c = elim c [
        | err x ↦ (err x, db)
        | ok resolved ↦ record_resolved codec w fresh now others resolved db
      ]

      resolved_sound : (c : Result LedgerError InvocationEnvelope) → IsSound cfg (recorded c).1
      resolved_sound (err x) = h
      resolved_sound (ok resolved) =
          option_case (λ (o : Answer). IsSound cfg o.1)
            (find (is_of_invocation resolved.invocation_id) db.invocations)
            (flush_rows codec w fresh now resolved (others db))
            (λ row. (validate_existing codec w row resolved db, db))
            (λ missing. flush_rows-IsSound fresh now resolved (others db) some_attempt (keeps db h))
            (λ row is_found. h)
