-- ===== src/Workflow/Records.antt =====
-- The rows that a review run reads and writes (infrastructure/postgres/models.py), and the database
-- as the session sees it.
use creditlens.Base.{
  ℕ, Bool, true, false, Option, List, ◌&&◌, ◌==◌, find, update_where, filter, length,
}
use creditlens.Base.Text.{Text}
use creditlens.Workflow.Status.{RunStatus}

pub data Verdict : Type 0 where
  supported partially_supported contradicted insufficient_evidence : Verdict

pub data ReviewStatus : Type 0 where
  pending audited needs_rework human_approved human_rejected : ReviewStatus

unfoldable pub is_blocking : ReviewStatus → Bool
is_blocking ReviewStatus.pending = true
is_blocking ReviewStatus.needs_rework = true
is_blocking _ = false

-- The agents that a run can lack.
pub data Agent : Type 0 where
  policy financial risk challenger auditor : Agent

-- `ReviewRun`; of the manifest, what the workflow writes into it.
pub record Run : Type 0 where
  pub id : ℕ
  pub tenant_id : ℕ
  pub case_id : ℕ
  pub status : RunStatus
  pub state_version : ℕ
  pub as_of_date : ℕ
  pub degraded : Bool
  pub degraded_agents : List Agent
  pub risk_threshold_version : Option Text
  pub completed_at : Option ℕ

-- `ClaimRecord`, its payload flattened.
pub record ClaimRecord : Type 0 where
  pub id : ℕ
  pub run_id : ℕ
  pub artifact_id : ℕ
  pub category : Text
  pub statement : Text
  pub verdict : Verdict
  pub uncertainty_reason : Option Text
  pub review_status : ReviewStatus
  pub supporting : List ℕ
  pub opposing : List ℕ
  pub calculations : List ℕ
  pub source_claim_id : Option ℕ

-- Where a piece of evidence stands in its source.
pub record Locator : Type 0 where
  pub evidence_type : Text
  pub document_version_id : Option ℕ
  pub section_id : Option ℕ
  pub parse_run_id : Option ℕ
  pub page_number : Option ℕ
  pub content_hash : Text

-- `ArtifactRecord`: the references of its payload.
pub record ArtifactRecord : Type 0 where
  pub id : ℕ
  pub run_id : ℕ
  pub agent : Agent
  pub is_failed : Bool
  pub evidence : List (ℕ × Locator)

-- `EvidenceRecord`
pub record EvidenceRecord : Type 0 where
  pub evidence_key : ℕ
  pub run_id : ℕ
  pub locator : Locator

pub data HumanAction : Type 0 where
  approve_claim reject_claim request_changes request_more_information : HumanAction
  submit_report approve_report_draft : HumanAction
  other_action : Text → HumanAction

-- A target as it was sent: its spelling, by number, and the UUID that it spells, if it spells one.
pub record RawId : Type 0 where
  pub spelling : ℕ
  pub parsed : Option ℕ

-- `HumanDecision`
pub record HumanDecision : Type 0 where
  pub tenant_id : ℕ
  pub case_id : ℕ
  pub run_id : ℕ
  pub target_claim_ids : List RawId
  pub target_version : Option ℕ
  pub action : HumanAction
  pub reason_code : Text
  pub reason : Text
  pub reviewer_id : Option ℕ
  pub idempotency_key : Option Text

pub data Event : Type 0 where
  state_changed : RunStatus → RunStatus → Event
  human_decision : HumanAction → Event
  human_review_pending : ℕ → Event
  task_completed : Agent → ℕ → Event
  task_failed task_degraded : Agent → Event
  audit_failed report_failed : Event
  audit_completed : ℕ → ℕ → ℕ → Event

-- `RunEvent`
pub record RunEvent : Type 0 where
  pub run_id : ℕ
  pub sequence_no : ℕ
  pub event : Event

-- One entry of a report.
pub record ReportClaimEntry : Type 0 where
  pub claim_id : ℕ
  pub category : Text
  pub statement : Text
  pub verdict : Verdict
  pub review_status : ReviewStatus
  pub evidence_refs : List ℕ
  pub opposing_evidence_refs : List ℕ
  pub calculation_ids : List ℕ
  pub evidence_locators : List Locator
  pub opposing_evidence_locators : List Locator
  pub source_claim_id : Option ℕ

pub data Polarity : Type 0 where
  supporting opposing : Polarity

pub record ReportContent : Type 0 where
  pub run_id : ℕ
  pub as_of_date : ℕ
  pub claims : List ReportClaimEntry
  pub excluded_claims : ℕ
  pub missing_materials : List (Text × Option Text)
  pub references : List (ℕ × Polarity × Locator)
  pub degraded : Bool
  pub degraded_agents : List Agent

pub data ReportStatus : Type 0 where
  verified_draft approved_draft : ReportStatus

-- `ReportVersion`
pub record ReportVersion : Type 0 where
  pub run_id : ℕ
  pub version_no : ℕ
  pub status : ReportStatus
  pub content : ReportContent
  pub content_hash : Text

pub record Db : Type 0 where
  pub runs : List Run
  pub claims : List ClaimRecord
  pub artifacts : List ArtifactRecord
  pub evidence : List EvidenceRecord
  pub decisions : List HumanDecision
  pub events : List RunEvent
  pub reports : List ReportVersion

-- Writing the session's run object back to its row.
unfoldable pub write_run : Run → Db → Db
write_run r db = record db { runs = update_where (λ q. q.id == r.id) (λ _. r) db.runs }

unfoldable pub find_run : ℕ → Db → Option Run
find_run i db = find (λ r. r.id == i) db.runs

unfoldable pub find_claim : ℕ → Db → Option ClaimRecord
find_claim i db = find (λ c. c.id == i) db.claims

unfoldable pub claims_of_run : ℕ → Db → List ClaimRecord
claims_of_run i db = filter (λ c. c.run_id == i) db.claims

-- `_blocking_claims_remain`
unfoldable pub blocking_claims_remain : ℕ → Db → ℕ
unfolding is_blocking
blocking_claims_remain i db =
    length (filter (λ c. c.run_id == i && is_blocking c.review_status) db.claims)
