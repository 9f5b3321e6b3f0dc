-- ===== src/Supervisor/Reporting.antt =====
-- Every run of the supervisor ends as `IsOutcome` says, unless the ledger of invocations failed.
use creditlens.Base.{
  ℕ, ◌≡◌, refl, sym, ◌∙◌, ap, subst, Bool, false, Bool-cases, inl, inr, some, List, [], ◌∷◌, ◌++◌,
  All, if◌then◌else◌,
}
use creditlens.Base.Text.{Text}
use creditlens.Base.Session.{Ends, Ends-bind, Ends-if, Ends-handle, Ends-both, pure}
use creditlens.Workflow.Status.{RunStatus, auditing, human_review, reporting, completed, allowed}
use creditlens.Workflow.Records.{
  claims_of_run, ReportVersion, Run, ClaimRecord, ArtifactRecord, ReportContent, Db, verified_draft,
  find_run, report_failed,
}
use creditlens.Workflow.Events.{Cursor, record_event, start_seq}
use creditlens.Report.Generate.{content_of, persist_report_via_agent, passes_integrity}
use creditlens.Supervisor.Agents.{AgentArtifact, AuditResult, Agents}
use creditlens.Supervisor.Execute.{artifact_integrity_failed, RunOutcome, go_to, fail_run}
use creditlens.Supervisor.Stages.{
  needs_human, record_audit, complete_run, with_report, without_report, write_report, report_stage,
  after_audit, close,
}
use creditlens.Supervisor.UnderWay.{
  IsAt, IsUnaudited, IsLedgerFailure, go_to-IsAt, record_event-IsAt,
}
use creditlens.Supervisor.Audit.{IsBacked, record_audit-IsAt, content_of-IsIn}
use creditlens.Supervisor.Ending.{
  needs_human-clear, complete_run-content_of, draft_report, IsOutcome, fail_run-IsOutcome,
  human_review-IsOutcome, complete_run-IsAt,
}

module _ (integrity : Run → List ArtifactRecord → List ClaimRecord → Bool)
    (hash_content : ReportContent → Text) (now : ℕ) (g : Agents) (run : ℕ) (start : Db) where
  abbrev P : RunOutcome → Db → Type 0
  P out db = IsOutcome hash_content run start out db

  abbrev with_draft : Run → Db → Db
  with_draft r db = record db {
    reports = db.reports ++ draft_report hash_content r db.reports db ∷ [];
  }

  persist_report-Ends :
      (r : Run) (db : Db)
      → Ends
          (λ _ db'. db' ≡ with_draft r db)
          (λ _ db'. db' ≡ db)
          (persist_report_via_agent integrity artifact_integrity_failed hash_content r
            verified_draft db)
  unfolding persist_report_via_agent
  persist_report-Ends r db =
      elim (Bool-cases (passes_integrity integrity artifact_integrity_failed hash_content r db)) [
        | inl good ↦ rw good refl
        | inr bad ↦ rw bad refl
      ]

  -- The same run, on a table that has the draft.
  with_draft-IsAt :
      (Q : ClaimRecord → Type 0) (s : RunStatus) (c : Cursor) (db : Db)
      → IsAt run start Q s c db
      → IsAt run (with_draft c.run db) Q s c (with_draft c.run db)
  unfolding find_run start_seq
  with_draft-IsAt Q s c db h = record {
    synced = record { row = h.synced.row; next = h.synced.next };
    same_run = h.same_run;
    status = h.status;
    reports = refl;
    decisions = refl;
    claims = h.claims;
  }

  draft_report-same :
      (r r1 : Run) (rs rs1 : List ReportVersion) (x x1 : Db)
      → r.id ≡ r1.id
      → rs ≡ rs1
      → content_of r x ≡ content_of r1 x1
      → draft_report hash_content r rs x ≡ draft_report hash_content r1 rs1 x1
  draft_report-same r r1 rs rs1 x x1 i p c = cc

  module _ (artifacts : List AgentArtifact) (audit : AuditResult) where
    abbrev Q : ClaimRecord → Type 0
    Q x = IsBacked run audit.accepted_claim_ids x

    abbrev done : Cursor → RunOutcome
    done c = record { cursor = c; artifacts = artifacts; audit = some audit }

    -- The two states that a report stands between: before it, and after the run is completed.
    done-IsOutcome :
        (c c1 : Cursor) (db db1 : Db)
        → needs_human audit ≡ false
        → IsAt run start Q reporting c db
        → IsAt run (with_draft c.run db) Q completed c1 db1
        → content_of c1.run db1 ≡ content_of c.run db
        → P (done c1) db1
    done-IsOutcome c c1 db db1 clear h k same = inr (record {
      synced = k.synced;
      same_run = k.same_run;
      status = k.status;
      decisions = k.decisions ∙ h.decisions;
      report = (
        audit,
        refl,
        (needs_human-clear audit clear).0,
        (needs_human-clear audit clear).1,
        k.reports
            ∙ (ap (λ rs. rs ++ draft_report hash_content c.run db.reports db ∷ []) h.reports
                ∙ ap (λ v. start.reports ++ v ∷ [])
                    (draft_report-same c.run c1.run db.reports start.reports db db1
                      (h.same_run ∙ sym k.same_run) h.reports (sym same))),
        content_of-IsIn c1.run audit.accepted_claim_ids db1 (
            subst (λ i. All (IsBacked i audit.accepted_claim_ids) db1.claims) (sym k.same_run)
              k.claims),
      );
    })

    with_report-IsOutcome :
        (c : Cursor) (db : Db)
        → needs_human audit ≡ false
        → IsAt run start Q reporting c db
        → Ends P IsLedgerFailure
            (with_report integrity hash_content now g artifacts audit c (with_draft c.run db))
    unfolding with_report content_of claims_of_run
    with_report-IsOutcome c db clear h =
        let db0 : Db = with_draft c.run db in
        Ends-bind
          (λ c1 db1.
            IsAt run db0 Q completed c1 db1 × (content_of c1.run db1 ≡ content_of c.run db0))
          P IsLedgerFailure (complete_run now c) (λ c. pure (done c)) db0
          (Ends-both (IsAt run db0 Q completed)
            (λ c1 db1. content_of c1.run db1 ≡ content_of c.run db0) IsLedgerFailure
            (complete_run now c db0)
            (complete_run-IsAt hash_content run db0 now Q c db0
              (with_draft-IsAt Q reporting c db h))
            (complete_run-content_of hash_content run db0 now c db0 h.status))
          λ c1 db1 k. done-IsOutcome c c1 db db1 clear h k.0 k.1

    without_report-IsOutcome :
        (c : Cursor) (db : Db)
        → IsAt run start Q reporting c db
        → Ends P IsLedgerFailure (without_report integrity hash_content now g artifacts audit c db)
    unfolding without_report
    without_report-IsOutcome c db h =
        Ends-bind (IsAt run start Q reporting) P IsLedgerFailure (record_event report_failed c)
          (fail_run artifacts (some audit)) db
          (record_event-IsAt run start Q reporting report_failed c db h)
          λ c1 db1 h1.
            fail_run-IsOutcome hash_content run start Q reporting artifacts (some audit) c1 db1 h1

    write_report-IsOutcome :
        (c : Cursor) (db : Db)
        → needs_human audit ≡ false
        → IsAt run start Q reporting c db
        → Ends P IsLedgerFailure (write_report integrity hash_content now g artifacts audit c db)
    unfolding write_report
    write_report-IsOutcome c db clear h =
        Ends-handle (λ _ db'. db' ≡ with_draft c.run db) (λ _ db'. db' ≡ db) P IsLedgerFailure
          (persist_report_via_agent integrity artifact_integrity_failed hash_content c.run
            verified_draft)
          (λ _. with_report integrity hash_content now g artifacts audit c)
          (λ _. without_report integrity hash_content now g artifacts audit c) db
          (persist_report-Ends c.run db)
          (λ _ db1 e.
            subst
              (λ x.
                Ends P IsLedgerFailure
                  (with_report integrity hash_content now g artifacts audit c x))
              (sym e) (with_report-IsOutcome c db clear h))
          λ _ db1 e.
            subst
              (λ x.
                Ends P IsLedgerFailure
                  (without_report integrity hash_content now g artifacts audit c x))
              (sym e) (without_report-IsOutcome c db h)

    report_stage-IsOutcome :
        (c : Cursor) (db : Db)
        → needs_human audit ≡ false
        → IsAt run start Q auditing c db
        → Ends P IsLedgerFailure (report_stage integrity hash_content now g artifacts audit c db)
    unfolding report_stage allowed
    report_stage-IsOutcome c db clear h =
        Ends-bind (IsAt run start Q reporting) P IsLedgerFailure (go_to reporting c)
          (write_report integrity hash_content now g artifacts audit) db
          (go_to-IsAt run start Q auditing reporting c db refl h)
          λ c1 db1 h1. write_report-IsOutcome c1 db1 clear h1

    pub after_audit-IsOutcome :
        (c : Cursor) (db : Db)
        → IsAt run start (IsUnaudited run) auditing c db
        → Ends P IsLedgerFailure (after_audit integrity hash_content now g artifacts audit c db)
    unfolding after_audit
    after_audit-IsOutcome c db h =
        Ends-bind (IsAt run start Q auditing) P IsLedgerFailure (record_audit audit c)
          (λ c.
            if needs_human audit
            then close human_review artifacts (some audit) c
            else report_stage integrity hash_content now g artifacts audit c)
          db (record_audit-IsAt run start audit c db h)
          λ c1 db1 h1.
            Ends-if P IsLedgerFailure (needs_human audit)
              (close human_review artifacts (some audit) c1)
              (report_stage integrity hash_content now g artifacts audit c1) db1
              (λ _.
                human_review-IsOutcome hash_content run start Q artifacts (some audit) c1 db1 h1)
              λ clear. report_stage-IsOutcome c1 db1 clear h1
