-- ===== src/Audit/Artifacts.antt =====
-- Artifacts as the auditor reads them, and its result (agents/contracts.py, agents/auditor.py).
use creditlens.Base.{ℕ, Bool, true, false, Option, none, List, []}
use creditlens.Base.Text.{Text}
use creditlens.Workflow.Records.{Verdict}
use creditlens.Supervisor.Agents.{ExecutionStatus}
use creditlens.Formulas.Decimal.{Decimal}
use creditlens.Formulas.Engine.{CalculationArtifact}

pub data EvidenceType : Type 0 where
  document_span table_cell sql_fact calculation policy_rule : EvidenceType

pub record AgentEvidenceRef : Type 0 where
  pub evidence_id : ℕ
  pub evidence_type : EvidenceType
  pub source_id : ℕ
  pub content_hash : Text
  pub document_version_id : Option ℕ
  pub section_id : Option ℕ
  pub parse_run_id : Option ℕ
  pub page_number : Option ℕ
  pub fact_id : Option ℕ
  pub calculation_id : Option ℕ
  pub valid_from : Option ℕ
  pub valid_to : Option ℕ
  pub source_available_at : ℕ

pub data AgentClaimCategory : Type 0 where
  eligibility_category financial_category cash_flow concentration related_party data_conflict
        missing_material exception :
      AgentClaimCategory

pub record AgentClaim : Type 0 where
  pub claim_id : ℕ
  pub category : AgentClaimCategory
  pub statement : Text
  pub verdict : Verdict
  pub supporting_evidence_ids : List ℕ
  pub opposing_evidence_ids : List ℕ
  pub calculation_ids : List ℕ
  pub as_of_date : ℕ
  pub uncertainty_reason : Option Text

pub data AnswerStatus : Type 0 where
  answered abstained needs_review : AnswerStatus

-- What a GroundedAnswerArtifact has beyond an AgentArtifact.
pub record GroundedAnswer : Type 0 where
  pub answer_status : AnswerStatus
  pub direct_answer : Option Text
  pub missing_information : List Text
  pub conflicts : List Text
  pub abstention_reason : Option Text
  pub refusal_reason_code : Option ℕ

module _ (dec : Decimal) where
  pub record AgentArtifact : Type 0 where
    pub producer : Text
    pub execution_status : ExecutionStatus
    pub claims : List AgentClaim
    pub evidence : List AgentEvidenceRef
    pub calculations : List (CalculationArtifact dec)
    pub grounded : Option GroundedAnswer

pub data ContractCode : Type 0 where
  supported_without_evidence : ContractCode
  unknown_evidence : ℕ → ContractCode
  unknown_calculation : ℕ → ContractCode
  missing_uncertainty_reason : ContractCode
  numeric_claim_without_fact : ContractCode
  as_of_date_mismatch : ContractCode
  forbidden_determination : Text → ContractCode

-- `claim:{claim_id}:{code}`
pub record ContractViolation : Type 0 where
  pub claim_id : ℕ
  pub code : ContractCode

-- A violation's text: a plain one, one that ends in an identifier, or one of the contract.
pub data Code : Type 0 where
  plain : Text → Code
  with_id : Text → ℕ → Code
  of_contract : ContractViolation → Code

-- The text of an identifier, or `grounded_answer`.
pub data Key : Type 0 where
  item : ℕ → Key
  whole_answer : Key

pub record AuditResult : Type 0 where
  pub accepted_claim_ids : List ℕ
  pub rejected_claim_ids : List ℕ
  pub needs_human_review_claim_ids : List ℕ
  pub violations : List (Key × List Code)
  pub replay_failures : List ℕ
  pub blocking_failures : List Code
  pub degraded : Bool
  pub grounded_answer_ok : Bool
  pub derived_answer_status : Option AnswerStatus
  pub review_normalization_required : Bool

unfoldable pub empty_result : AuditResult
empty_result = record {
  accepted_claim_ids = [];
  rejected_claim_ids = [];
  needs_human_review_claim_ids = [];
  violations = [];
  replay_failures = [];
  blocking_failures = [];
  degraded = false;
  grounded_answer_ok = true;
  derived_answer_status = none;
  review_normalization_required = false;
}
