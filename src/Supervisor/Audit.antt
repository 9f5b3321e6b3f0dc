-- ===== src/Supervisor/Audit.antt =====
-- What the audit does to the claims, and what a report then shows: claims that the auditor accepted.
use creditlens.Base.{
  ℕ, ◌≡◌, refl, length, true, List, [], ◌∷◌, map, ◌&&◌, ◌==◌, filter, update_where, All, All-imp,
  All-update_where, contains, if◌then◌else◌, arith,
}
use creditlens.Base.Session.{◌>>=◌, Ends, Ends-bind, pure, modify}
use creditlens.Workflow.Status.{auditing}
use creditlens.Workflow.Records.{
  Run, ClaimRecord, ReportClaimEntry, ReviewStatus, Db, find_run, audit_completed, claims_of_run,
}
use creditlens.Workflow.Events.{Cursor, record_event, start_seq}
use creditlens.Report.Generate.{Locators, is_accepted, entry_of, content_of, locator_by_evidence}
use creditlens.Supervisor.Agents.{AuditResult}
use creditlens.Supervisor.Persist.{mark, apply_audit_to_claims}
use creditlens.Supervisor.Stages.{record_audit}
use creditlens.Supervisor.UnderWay.{IsAt, IsUnaudited, IsLedgerFailure, record_event-IsAt}

-- A claim of the run that a report may show is one of these.
abbrev pub IsBacked : ℕ → List ℕ → ClaimRecord → Type 0
IsBacked run ids x =
    (if (x.run_id == run) && is_accepted x.review_status then contains x.id ids else true) ≡ true

IsBacked-IsUnaudited :
    (run : ℕ) (ids : List ℕ) (x : ClaimRecord) → IsUnaudited run x → IsBacked run ids x
IsBacked-IsUnaudited run ids x h = rw h refl

module _ (P : ClaimRecord → Type 0) where
  mark-All :
      (status : ReviewStatus) (all_ids : List ℕ) (is : List ℕ) (cs : List ClaimRecord)
      → ((i : ℕ) → contains i is ≡ true → contains i all_ids ≡ true)
      → ((x : ClaimRecord)
          → contains x.id all_ids ≡ true
          → P x
          → P (record x { review_status = status }))
      → All P cs
      → All P (mark status is cs)
  unfolding mark
  mark-All status all_ids [] cs sub k h = h
  mark-All status all_ids (i ∷ is) cs sub k h =
      mark-All status all_ids is
        (update_where (λ c. c.id == i) (λ c. record c { review_status = status }) cs)
        (λ j m. sub j (ground (arith, m))) k
        (All-update_where P (λ c. c.id == i) (λ c. record c { review_status = status }) cs
          (λ x e p. k x (sub x.id (rw e refl)) p) h)

module _ (run : ℕ) (start : Db) where
  marks-IsBacked :
      (audit : AuditResult) (cs : List ClaimRecord)
      → All (IsUnaudited run) cs
      → All (IsBacked run audit.accepted_claim_ids) (
          mark ReviewStatus.pending audit.needs_human_review_claim_ids (
            mark ReviewStatus.needs_rework audit.rejected_claim_ids
              (mark ReviewStatus.audited audit.accepted_claim_ids cs)))
  unfolding is_accepted
  marks-IsBacked audit cs h =
      let ids : List ℕ = audit.accepted_claim_ids in
      mark-All (IsBacked run ids) ReviewStatus.pending audit.needs_human_review_claim_ids _ _
        (λ i m. m) (λ x m p. ground arith)
        (mark-All (IsBacked run ids) ReviewStatus.needs_rework audit.rejected_claim_ids _ _
          (λ i m. m) (λ x m p. ground arith)
          (mark-All (IsBacked run ids) ReviewStatus.audited ids ids cs (λ i m. m)
            (λ x m p. ground arith)
            (All-imp (IsUnaudited run) (IsBacked run ids) cs
              (λ x u. IsBacked-IsUnaudited run ids x u) h)))

  apply_audit-IsAt :
      (audit : AuditResult) (c : Cursor) (db : Db)
      → IsAt run start (IsUnaudited run) auditing c db
      → IsAt run start
          (IsBacked run audit.accepted_claim_ids)
          auditing
          c
          (apply_audit_to_claims audit db)
  unfolding apply_audit_to_claims find_run start_seq
  apply_audit-IsAt audit c db h = record {
    synced = record { row = h.synced.row; next = h.synced.next };
    same_run = h.same_run;
    status = h.status;
    reports = h.reports;
    decisions = h.decisions;
    claims = marks-IsBacked audit db.claims h.claims;
  }

  pub record_audit-IsAt :
      (audit : AuditResult) (c : Cursor) (db : Db)
      → IsAt run start (IsUnaudited run) auditing c db
      → Ends
          (IsAt run start (IsBacked run audit.accepted_claim_ids) auditing)
          IsLedgerFailure
          (record_audit audit c db)
  unfolding record_audit
  record_audit-IsAt audit c db h =
      Ends-bind (IsAt run start (IsUnaudited run) auditing)
        (IsAt run start (IsBacked run audit.accepted_claim_ids) auditing) IsLedgerFailure
        (record_event
          (audit_completed (length audit.accepted_claim_ids) (length audit.rejected_claim_ids)
            (length audit.needs_human_review_claim_ids))
          c)
        (λ c. modify (apply_audit_to_claims audit) >>= λ _. pure c) db
        (record_event-IsAt run start (IsUnaudited run) auditing _ c db h)
        λ c1 db1 h1. apply_audit-IsAt audit c1 db1 h1

-- The entries of a report carry identifiers of the list.
abbrev pub IsIn : List ℕ → ReportClaimEntry → Type 0
IsIn ids e = contains e.claim_id ids ≡ true

shown-IsIn :
    (run : ℕ) (ids : List ℕ) (d : Locators) (cs : List ClaimRecord)
    → All (IsBacked run ids) cs
    → All (IsIn ids) (
        map
          (entry_of d)
          (filter (λ c. is_accepted c.review_status) (filter (λ c. c.run_id == run) cs)))
unfolding entry_of
shown-IsIn run ids d [] h = tt
shown-IsIn run ids d (c ∷ cs) h = ground (arith, shown-IsIn run ids d cs h.1)

pub content_of-IsIn :
    (r : Run) (ids : List ℕ) (db : Db)
    → All (IsBacked r.id ids) db.claims
    → All (IsIn ids) (content_of r db).claims
unfolding content_of claims_of_run
content_of-IsIn r ids db h = shown-IsIn r.id ids (locator_by_evidence r.id db) db.claims h
