-- ===== src/Outbox/Keeps.antt =====
-- A whole batch keeps every constraint of the table, however its exports end.
use creditlens.Base.{
  ℕ, ◌<◌, ◌≡◌, refl, Bool, true, Option, none, some, List, [], ◌∷◌, ◌&&◌, leb, arith, ==_iff, subst,
  All-update_where_with, Bool-cases, inl, inr, All, find, update_where,
}
use creditlens.Base.Text.{Text, codes}
use creditlens.Outbox.Row.{Row, Table, Config, Claim, has_id, safe_error_code}
use creditlens.Outbox.Claiming.{claim_batch, claim_entry, selectable, is_due}
use creditlens.Outbox.Delivery.{
  Invocation, Delivery, Export, sent, raised, Batch, finished, Stats, then_continue, owns_claim,
  owns_row, mark_delivered, mark_failure, acknowledge, fail_row, finalize, process_claims,
  process_batch,
}
use creditlens.Outbox.Lifecycle.{
  IsLawful, claim_entry-IsLawful, acknowledge-IsLawful, fail_row-IsLawful, safe_error_code-check,
  check_error_code,
}
use creditlens.Outbox.Unique.{HasUniqueInvocations, HasUniqueInvocations-update_where}
use creditlens.Outbox.Ownership.{
  HasUniqueIds, IsFound, rows-IsFound, selected-selectable, id-claim_entry,
  HasUniqueIds-update_where,
}

abbrev pub AllLawful : Config → Table → Type 0
AllLawful cfg table = All (IsLawful cfg) table

fallback-check : check_error_code (some (codes "TELEMETRY_EXPORT_FAILED")) ≡ true
unfolding check_error_code
fallback-check = refl

-- The primary key, the unique key on invocations and, on every row, the CHECK constraints. Beyond
-- what the database enforces, no row has had more attempts than the limit, and one that waits has
-- had fewer.
pub record IsConsistent (cfg : Config) (table : Table) : Type 0 where
  pub unique : HasUniqueIds table
  pub unique_invocations : HasUniqueInvocations table
  pub lawful : AllLawful cfg table

-- The rows that a finalisation writes are those that the claim owns.
owned_row :
    (c : Claim) (table : Table) (r : Row)
    → owns_claim (find (has_id c.outbox_id) table) c ≡ true
    → has_id c.outbox_id r ≡ true
    → IsFound table r
    → owns_row r c ≡ true
unfolding owns_claim has_id
owned_row c table r own same found =
    subst (λ o. owns_claim o c ≡ true)
      (subst (λ i. find (has_id i) table ≡ some r) ((==_iff r.id c.outbox_id).0 same) found) own

invocation_id-claim_entry :
    (cfg : Config) (now : ℕ) (r : Row) → (claim_entry cfg now r).invocation_id ≡ r.invocation_id
unfolding claim_entry
invocation_id-claim_entry cfg now r = ground arith

module _ (cfg : Config) where
  pub claim_batch-IsConsistent :
      (locked : ℕ → Bool) (now n : ℕ) (table : Table)
      → 0 < cfg.lease
      → IsConsistent cfg table
      → IsConsistent cfg (claim_batch cfg locked now n table).0
  unfolding claim_batch selectable
  claim_batch-IsConsistent locked now n table pos h = record {
    unique =
        HasUniqueIds-update_where _ (claim_entry cfg now) table (id-claim_entry cfg now) h.unique;
    unique_invocations =
        HasUniqueInvocations-update_where _ (claim_entry cfg now) table
          (invocation_id-claim_entry cfg now) h.unique_invocations;
    lawful =
        All-update_where_with (IsFound table) (IsLawful cfg) _ (claim_entry cfg now) table
          (λ r chosen found lawful.
            claim_entry-IsLawful cfg now r pos
              (due r (selected-selectable cfg locked now n table h.unique r found chosen)) lawful)
          (rows-IsFound table h.unique) h.lawful;
  }
    where
      due : (r : Row) → selectable cfg locked now r ≡ true → is_due now r ≡ true
      due r s = ground arith

  -- A finalisation that writes: the row passes the constraints afterwards.
  finalized :
      (c : Claim) (table : Table) (f : Row → Row)
      → owns_claim (find (has_id c.outbox_id) table) c ≡ true
      → ((r : Row) → (f r).id ≡ r.id)
      → ((r : Row) → (f r).invocation_id ≡ r.invocation_id)
      → ((r : Row) → owns_row r c ≡ true → IsLawful cfg r → IsLawful cfg (f r))
      → IsConsistent cfg table
      → IsConsistent cfg (update_where (has_id c.outbox_id) f table)
  finalized c table f own same same_invocation keep h = record {
    unique = HasUniqueIds-update_where _ f table same h.unique;
    unique_invocations =
        HasUniqueInvocations-update_where _ f table same_invocation h.unique_invocations;
    lawful =
        All-update_where_with (IsFound table) (IsLawful cfg) _ f table
          (λ r hit found. keep r (owned_row c table r own hit found)) (rows-IsFound table h.unique)
          h.lawful;
  }

  pub mark_delivered-IsConsistent :
      (now : ℕ) (c : Claim) (table : Table)
      → IsConsistent cfg table
      → IsConsistent cfg (mark_delivered now c table).0
  unfolding mark_delivered
  mark_delivered-IsConsistent now c table h =
      elim (Bool-cases (owns_claim (find (has_id c.outbox_id) table) c)) [
        | inr lost ↦ rw lost h
        | inl own ↦ rw own (
            finalized c table (acknowledge now) own (λ r. unfold acknowledge in refl)
              (λ r. unfold acknowledge in refl) (λ r. acknowledge-IsLawful cfg now r c) h)
      ]

  pub mark_failure-IsConsistent :
      (now : ℕ) (c : Claim) (error : Option Text) (table : Table)
      → IsConsistent cfg table
      → IsConsistent cfg (mark_failure cfg now c error table).0
  unfolding mark_failure
  mark_failure-IsConsistent now c error table h =
      elim (Bool-cases (owns_claim (find (has_id c.outbox_id) table) c)) [
        | inr lost ↦ rw lost h
        | inl own ↦ rw own (
            finalized c table
              (fail_row cfg now c (safe_error_code error (codes "TELEMETRY_EXPORT_FAILED"))) own
              (λ r. unfold fail_row in ground arith) (λ r. unfold fail_row in ground arith)
              (λ r o.
                fail_row-IsLawful cfg now r c _ o (safe_error_code-check error _ fallback-check))
              h)
      ]

-- What holds of the table that a batch leaves, finished or cancelled.
abbrev pub Leaves {ℓ} : (Table → Type ℓ) → Batch → Type ℓ
Leaves P (finished s t) = P t
Leaves P (Batch.cancelled t) = P t

abbrev pub LeavesIfRun {ℓ} : (Table → Type ℓ) → Option Batch → Type ℓ
LeavesIfRun P none = Unit
LeavesIfRun P (some b) = Leaves P b

pub Leaves-then_continue :
    {P : Table → Type 0} (b : Batch) (next : Stats → Table → Batch)
    → Leaves P b
    → ((s : Stats) (t : Table) → P t → Leaves P (next s t))
    → Leaves P (then_continue b next)
unfolding then_continue
Leaves-then_continue (finished s t) next h k = k s t h
Leaves-then_continue (Batch.cancelled t) next h k = h

module _ {Payload Envelope : Type 0} (model_validate : Payload → Option Envelope)
    (envelope_id : Envelope → ℕ) (hash_envelope : Envelope → Text)
    (invocations : List (Invocation Payload)) (export : Envelope → Delivery → ℕ → Export)
    (cfg : Config) (others : Claim → Table → Table)
    (others_keep : (c : Claim) (t : Table)
      → IsConsistent cfg t
      → IsConsistent cfg (others c t)) where
  finalize-IsConsistent :
      (now : ℕ) (c : Claim) (e : Export) (s : Stats) (table : Table)
      → IsConsistent cfg table
      → Leaves
          (IsConsistent cfg)
          (finalize model_validate envelope_id hash_envelope invocations export cfg now c e s table)
  unfolding finalize
  finalize-IsConsistent now c sent s table h = mark_delivered-IsConsistent cfg now c table h
  finalize-IsConsistent now c (raised e) s table h = mark_failure-IsConsistent cfg now c e table h
  finalize-IsConsistent now c Export.cancelled s table h = h

  abbrev run_claims : (Claim → ℕ) → List Claim → Stats → Table → Batch
  run_claims now =
      process_claims model_validate envelope_id hash_envelope invocations export cfg now others

  process_claims-IsConsistent :
      (now : Claim → ℕ) (cs : List Claim) (s : Stats) (table : Table)
      → IsConsistent cfg table
      → Leaves (IsConsistent cfg) (run_claims now cs s table)
  unfolding process_claims
  process_claims-IsConsistent now [] s table h = h
  process_claims-IsConsistent now (c ∷ cs) s table h =
      Leaves-then_continue {P = IsConsistent cfg} _ _
        (finalize-IsConsistent (now c) c _ s (others c table) (others_keep c table h))
        (process_claims-IsConsistent now cs)

  -- A batch keeps a table consistent, whatever was exported, however the exports ended, and wherever
  -- the batch was cancelled: identifiers and invocations stay unique, every row passes the CHECK
  -- constraints on the lifecycle, the error code and the topic, no row has had more attempts than the
  -- limit, and one that waits has had fewer; if it was so before, the lease is positive, and the other
  -- sessions keep it so.
  pub process_batch-IsConsistent :
      (locked : ℕ → Bool) (start : ℕ) (now : Claim → ℕ) (n : ℕ) (table : Table)
      → 0 < cfg.lease
      → IsConsistent cfg table
      → LeavesIfRun (IsConsistent cfg) (
          process_batch model_validate envelope_id hash_envelope invocations export cfg locked start
            now others n table)
  unfolding process_batch
  process_batch-IsConsistent locked start now n table pos h =
      elim (Bool-cases (leb 1 n && leb n 1000)) [
        | inr out ↦ rw out tt
        | inl fits ↦ rw fits (
            process_claims-IsConsistent now _ _ _
              (claim_batch-IsConsistent cfg locked start n table pos h))
      ]
