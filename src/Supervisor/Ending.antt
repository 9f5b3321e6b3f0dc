-- ===== src/Supervisor/Ending.antt =====
-- How a run ends: stopped without a report, or completed with a draft of accepted claims.
use creditlens.Base.{
  not, arith, is_empty, ℕ, ◌+◌, ◌≡◌, refl, sym, subst, Bool, true, false, inl, ◌⊎◌, Option, none,
  some, List, [], ◌∷◌, ◌++◌, All,
}
use creditlens.Base.Text.{Text}
use creditlens.Base.Session.{Ends, Ends-bind, pure}
use creditlens.Workflow.Status.{
  RunStatus, need_more_info, data_quality_blocked, auditing, human_review, reporting, completed,
  allowed,
}
use creditlens.Workflow.Records.{Run, ClaimRecord, ReportContent, ReportVersion, Db, verified_draft}
use creditlens.Workflow.Events.{Cursor, transition, move_to, record_event, emit}
use creditlens.Workflow.Follows.{IsSynced}
use creditlens.Report.Generate.{content_of, last_version, locator_by_evidence}
use creditlens.Workflow.Records.{write_run, claims_of_run}
use creditlens.Supervisor.Agents.{AgentArtifact, AuditResult}
use creditlens.Supervisor.Execute.{RunOutcome, go_to, force_to, flush_run, fail_run}
use creditlens.Supervisor.Stages.{needs_human, complete_run, close, close_forced}
use creditlens.Supervisor.UnderWay.{
  IsAt, IsLedgerFailure, go_to-IsAt, force_to-IsAt, flush_run-IsAt,
}
use creditlens.Supervisor.Audit.{IsIn}

-- The states in which a run stops without a report.
unfoldable pub is_stop : RunStatus → Bool
is_stop data_quality_blocked = true
is_stop need_more_info = true
is_stop RunStatus.failed = true
is_stop human_review = true
is_stop _ = false

-- The draft that `persist` appends to the reports of the table.
abbrev pub draft_report : (ReportContent → Text) → Run → List ReportVersion → Db → ReportVersion
draft_report hash_content run reports db = record {
  run_id = run.id;
  version_no = last_version run.id reports + 1;
  status = verified_draft;
  content = content_of run db;
  content_hash = hash_content (content_of run db);
}

empty : (is : List ℕ) → not (is_empty is) ≡ false → is ≡ []
empty [] h = refl
empty (i ∷ is) h = cc

-- An audit that needs no human has rejected no claim and left none open.
pub needs_human-clear :
    (audit : AuditResult)
    → needs_human audit ≡ false
    → (audit.rejected_claim_ids ≡ []) × (audit.needs_human_review_claim_ids ≡ [])
unfolding needs_human
needs_human-clear audit h = (
  empty audit.rejected_claim_ids (ground (arith, h)),
  empty audit.needs_human_review_claim_ids (ground (arith, h)),
)

pub record IsStopped (run : ℕ) (start : Db) (out : RunOutcome) (db : Db) : Type 0 where
  pub synced : IsSynced out.cursor db
  pub same_run : out.cursor.run.id ≡ run
  pub status : is_stop out.cursor.run.status ≡ true
  pub reports : db.reports ≡ start.reports
  pub decisions : db.decisions ≡ start.decisions

-- One draft was added: made of the run's rows as they stand, of claims that the auditor accepted,
-- when the auditor had rejected none and wanted a human for none.
pub record IsReported (hash_content : ReportContent → Text) (run : ℕ) (start : Db)
    (out : RunOutcome) (db : Db) : Type 0 where
  pub synced : IsSynced out.cursor db
  pub same_run : out.cursor.run.id ≡ run
  pub status : out.cursor.run.status ≡ completed
  pub decisions : db.decisions ≡ start.decisions
  pub report :
      (audit : AuditResult) × (out.audit ≡ some audit)
      × (audit.rejected_claim_ids ≡ [])
      × (audit.needs_human_review_claim_ids ≡ [])
      × (db.reports
          ≡ start.reports ++ draft_report hash_content out.cursor.run start.reports db ∷ [])
      × All (IsIn audit.accepted_claim_ids) (content_of out.cursor.run db).claims

abbrev pub IsOutcome : (ReportContent → Text) → ℕ → Db → RunOutcome → Db → Type 0
IsOutcome hash_content run start out db =
    IsStopped run start out db ⊎ IsReported hash_content run start out db

module _ (hash_content : ReportContent → Text) (run : ℕ) (start : Db) where
  pub stopped-IsOutcome :
      (P : ClaimRecord → Type 0) (s : RunStatus) (out : RunOutcome) (db : Db)
      → is_stop s ≡ true
      → IsAt run start P s out.cursor db
      → IsOutcome hash_content run start out db
  stopped-IsOutcome P s out db stops h = inl (record {
    synced = h.synced;
    same_run = h.same_run;
    status = subst (λ z. is_stop z ≡ true) (sym h.status) stops;
    reports = h.reports;
    decisions = h.decisions;
  })

  pub fail_run-IsOutcome :
      (P : ClaimRecord → Type 0) (s : RunStatus) (artifacts : List AgentArtifact)
      (audit : Option AuditResult) (c : Cursor) (db : Db)
      → IsAt run start P s c db
      → Ends (IsOutcome hash_content run start) IsLedgerFailure (fail_run artifacts audit c db)
  unfolding fail_run is_stop
  fail_run-IsOutcome P s artifacts audit c db h =
      Ends-bind (IsAt run start P RunStatus.failed) (IsOutcome hash_content run start)
        IsLedgerFailure (force_to RunStatus.failed c)
        (λ c. pure (record { cursor = c; artifacts = artifacts; audit = audit })) db
        (force_to-IsAt run start P s RunStatus.failed c db h)
        λ c1 db1 h1.
          stopped-IsOutcome P RunStatus.failed
            (record { cursor = c1; artifacts = artifacts; audit = audit }) db1 refl h1

  pub close_forced-IsOutcome :
      (P : ClaimRecord → Type 0) (s to : RunStatus) (c : Cursor) (db : Db)
      → is_stop to ≡ true
      → IsAt run start P s c db
      → Ends (IsOutcome hash_content run start) IsLedgerFailure (close_forced to c db)
  close_forced-IsOutcome P s to c db stops h =
      Ends-bind (IsAt run start P to) (IsOutcome hash_content run start) IsLedgerFailure
        (force_to to c) (λ c. pure (record { cursor = c; artifacts = []; audit = none })) db
        (force_to-IsAt run start P s to c db h)
        λ c1 db1 h1.
          stopped-IsOutcome P to (record { cursor = c1; artifacts = []; audit = none }) db1 stops h1

  pub human_review-IsOutcome :
      (P : ClaimRecord → Type 0) (artifacts : List AgentArtifact) (audit : Option AuditResult)
      (c : Cursor) (db : Db)
      → IsAt run start P auditing c db
      → Ends
          (IsOutcome hash_content run start)
          IsLedgerFailure
          (close human_review artifacts audit c db)
  unfolding is_stop allowed
  human_review-IsOutcome P artifacts audit c db h =
      Ends-bind (IsAt run start P human_review) (IsOutcome hash_content run start) IsLedgerFailure
        (go_to human_review c)
        (λ c. pure (record { cursor = c; artifacts = artifacts; audit = audit })) db
        (go_to-IsAt run start P auditing human_review c db refl h)
        λ c1 db1 h1.
          stopped-IsOutcome P human_review
            (record { cursor = c1; artifacts = artifacts; audit = audit }) db1 refl h1

  pub complete_run-IsAt :
      (now : ℕ) (P : ClaimRecord → Type 0) (c : Cursor) (db : Db)
      → IsAt run start P reporting c db
      → Ends (IsAt run start P completed) IsLedgerFailure (complete_run now c db)
  unfolding complete_run allowed
  complete_run-IsAt now P c db h =
      Ends-bind (IsAt run start P completed) (IsAt run start P completed) IsLedgerFailure
        (go_to completed c) (λ c. flush_run (record c.run { completed_at = some now }) c) db
        (go_to-IsAt run start P reporting completed c db refl h)
        λ c1 db1 h1. flush_run-IsAt run start P completed _ c1 db1 refl h1.status h1

  to_completed : (c : Cursor) → c.run.status ≡ reporting → allowed c.run.status completed ≡ true
  unfolding allowed
  to_completed c h = rw h refl

  -- What the report was made of is on the table when the run is completed.
  pub complete_run-content_of :
      (now : ℕ) (c : Cursor) (db : Db)
      → c.run.status ≡ reporting
      → Ends
          (λ c' db'. content_of c'.run db' ≡ content_of c.run db)
          IsLedgerFailure
          (complete_run now c db)
  unfolding complete_run transition move_to record_event emit flush_run write_run content_of
      claims_of_run locator_by_evidence
  complete_run-content_of now c db h = rw (to_completed c h) refl
