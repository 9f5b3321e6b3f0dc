-- ===== src/Outbox/Terminal.antt =====
-- A row that was delivered or given up is never written again.
use creditlens.Base.{
  ℕ, ◌≡◌, refl, Bool, true, false, Option, some, List, [], ◌∷◌, ◌&&◌, leb, arith, Bool-cases, inl,
  inr, find, update_where, contains, subst,
}
use creditlens.Base.Text.{Text}
use creditlens.Outbox.Row.{Row, Table, Config, Claim, Status, has_id}
use creditlens.Outbox.Claiming.{claim_batch, claim_due_entries, selectable}
use creditlens.Outbox.Delivery.{
  Invocation, Delivery, Export, sent, raised, Stats, owns_claim, owns_row, mark_delivered,
  mark_failure, acknowledge, fail_row, finalize, process_claims, process_batch,
}
use creditlens.Outbox.Ownership.{
  HasUniqueIds, IsFound, ids, selected-selectable, find-claim_batch, find-update_where,
}
use creditlens.Outbox.Keeps.{Leaves, LeavesIfRun, Leaves-then_continue}

abbrev pub is_final : Status → Bool
is_final Status.delivered = true
is_final Status.dead = true
is_final _ = false

final-not_selectable :
    (cfg : Config) (locked : ℕ → Bool) (now : ℕ) (r : Row)
    → is_final r.status ≡ true
    → selectable cfg locked now r ≡ false
unfolding selectable
final-not_selectable cfg locked now r h = ground arith

has_id-eq : (i : ℕ) (r : Row) → has_id i r ≡ true → r.id ≡ i
unfolding has_id
has_id-eq i r h = ground arith

final-not_owned : (r : Row) (c : Claim) → is_final r.status ≡ true → owns_row r c ≡ false
unfolding owns_row
final-not_owned r c h = ground arith

module _ (r : Row) (final : is_final r.status ≡ true) where
  claim_batch-keeps_final :
      (cfg : Config) (locked : ℕ → Bool) (now n : ℕ) (table : Table)
      → HasUniqueIds table
      → IsFound table r
      → IsFound (claim_batch cfg locked now n table).0 r
  claim_batch-keeps_final cfg locked now n table unique found =
      elim (Bool-cases (contains r.id (ids (claim_due_entries cfg locked now n table)))) [
        | inr passed ↦ rw (find-claim_batch cfg locked now n table r found, passed) refl
        | inl chosen ↦ absurd (
            cc (
              selected-selectable cfg locked now n table unique r found chosen,
              final-not_selectable cfg locked now r final,
            ))
      ]

  -- A claim that owns the row that it finds has found another row.
  finalized_other :
      (c : Claim) (f : Row → Row) (table : Table)
      → ((x : Row) → (f x).id ≡ x.id)
      → owns_claim (find (has_id c.outbox_id) table) c ≡ true
      → IsFound table r
      → IsFound (update_where (has_id c.outbox_id) f table) r
  unfolding owns_claim
  finalized_other c f table same own found = elim (Bool-cases (has_id c.outbox_id r)) [
    | inr other ↦ rw (find-update_where r.id (has_id c.outbox_id) f table r same found, other) refl
    | inl hit ↦ absurd (
        cc (
          subst (λ o. owns_claim o c ≡ true)
              (subst (λ i. find (has_id i) table ≡ some r) (has_id-eq c.outbox_id r hit) found) own,
          final-not_owned r c final,
        ))
  ]

  mark_delivered-keeps_final :
      (now : ℕ) (c : Claim) (table : Table)
      → IsFound table r
      → IsFound (mark_delivered now c table).0 r
  unfolding mark_delivered
  mark_delivered-keeps_final now c table found =
      elim (Bool-cases (owns_claim (find (has_id c.outbox_id) table) c)) [
        | inr lost ↦ rw lost found
        | inl own ↦
            rw own (
              finalized_other c (acknowledge now) table (λ x. unfold acknowledge in refl) own found)
      ]

  mark_failure-keeps_final :
      (cfg : Config) (now : ℕ) (c : Claim) (error : Option Text) (table : Table)
      → IsFound table r
      → IsFound (mark_failure cfg now c error table).0 r
  unfolding mark_failure
  mark_failure-keeps_final cfg now c error table found =
      elim (Bool-cases (owns_claim (find (has_id c.outbox_id) table) c)) [
        | inr lost ↦ rw lost found
        | inl own ↦
            rw own (finalized_other c _ table (λ x. unfold fail_row in ground arith) own found)
      ]

module _ {Payload Envelope : Type 0} (model_validate : Payload → Option Envelope)
    (envelope_id : Envelope → ℕ) (hash_envelope : Envelope → Text)
    (invocations : List (Invocation Payload)) (export : Envelope → Delivery → ℕ → Export)
    (cfg : Config) (others : Claim → Table → Table) (r : Row)
    (others_keep : (c : Claim) (t : Table) → IsFound t r → IsFound (others c t) r)
    (final : is_final r.status ≡ true) where
  finalize-keeps_final :
      (now : ℕ) (c : Claim) (e : Export) (s : Stats) (table : Table)
      → IsFound table r
      → Leaves
          (λ t. IsFound t r)
          (finalize model_validate envelope_id hash_envelope invocations export cfg now c e s table)
  unfolding finalize
  finalize-keeps_final now c sent s table h = mark_delivered-keeps_final r final now c table h
  finalize-keeps_final now c (raised e) s table h =
      mark_failure-keeps_final r final cfg now c e table h
  finalize-keeps_final now c Export.cancelled s table h = h

  process_claims-keeps_final :
      (now : Claim → ℕ) (cs : List Claim) (s : Stats) (table : Table)
      → IsFound table r
      → Leaves
          (λ t. IsFound t r)
          (process_claims model_validate envelope_id hash_envelope invocations export cfg now others
            cs s table)
  unfolding process_claims
  process_claims-keeps_final now [] s table h = h
  process_claims-keeps_final now (c ∷ cs) s table h =
      Leaves-then_continue {P = λ t. IsFound t r} _ _
        (finalize-keeps_final (now c) c _ s (others c table) (others_keep c table h))
        (process_claims-keeps_final now cs)

  -- A delivered or dead row is found unchanged after a batch.
  pub process_batch-keeps_final :
      (locked : ℕ → Bool) (start : ℕ) (now : Claim → ℕ) (n : ℕ) (table : Table)
      → HasUniqueIds table
      → IsFound table r
      → LeavesIfRun
          (λ t. IsFound t r)
          (process_batch model_validate envelope_id hash_envelope invocations export cfg locked
            start now others n table)
  unfolding process_batch
  process_batch-keeps_final locked start now n table unique found =
      elim (Bool-cases (leb 1 n && leb n 1000)) [
        | inr out ↦ rw out tt
        | inl fits ↦ rw fits (
            process_claims-keeps_final now _ _ _
              (claim_batch-keeps_final r final cfg locked start n table unique found))
      ]
