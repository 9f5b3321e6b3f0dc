-- ===== src/Supervisor/Agents.antt =====
-- What the agents and the auditor hand to the supervisor: `AgentArtifact`, `AgentClaim`
-- (agents/contracts.py), `AuditResult` (agents/auditor.py). The agents are parameters: whatever an
-- agent does with the database it has read, it returns an artifact or raises.
use creditlens.Base.{ℕ, Bool, true, false, Option, none, some, List, [], ◌∷◌}
use creditlens.Base.Text.{Text}
use creditlens.Workflow.Records.{Agent, Verdict, Locator, Db, policy, financial, risk}

pub data ExecutionStatus : Type 0 where
  success partial degraded insufficient_evidence failed : ExecutionStatus

unfoldable pub is_failed_status : ExecutionStatus → Bool
is_failed_status ExecutionStatus.failed = true
is_failed_status _ = false

unfoldable pub is_degraded_status : ExecutionStatus → Bool
is_degraded_status ExecutionStatus.degraded = true
is_degraded_status _ = false

pub record AgentClaim : Type 0 where
  pub claim_id : ℕ
  pub category : Text
  pub statement : Text
  pub verdict : Verdict
  pub uncertainty_reason : Option Text
  pub supporting : List ℕ
  pub opposing : List ℕ
  pub calculations : List ℕ
  pub source_claim_id : Option ℕ

pub record AgentArtifact : Type 0 where
  pub artifact_id : ℕ
  pub producer : Agent
  pub execution_status : ExecutionStatus
  pub claims : List AgentClaim
  pub evidence : List (ℕ × Locator)

-- The error codes of a tool call that the gateway recorded while the agent ran.
pub data LedgerCode : Type 0 where
  invocation_id_conflict invocation_audit_persist_failed : LedgerCode
  other_code : ℕ → LedgerCode

pub data AgentResult : Type 0 where
  returned : AgentArtifact → List LedgerCode → AgentResult
  -- `InvocationIdentityConflict` or `InvocationAuditPersistError`
  ledger_raised : AgentResult
  raised : AgentResult

-- `_raise_if_invocation_audit_failed`, of the calls of this run since the cursor.
unfoldable pub invocation_audit_failed : List LedgerCode → Bool
invocation_audit_failed [] = false
invocation_audit_failed (invocation_id_conflict ∷ codes) = true
invocation_audit_failed (invocation_audit_persist_failed ∷ codes) = true
invocation_audit_failed (other_code n ∷ codes) = invocation_audit_failed codes

unfoldable pub checked : AgentResult → AgentResult
unfolding invocation_audit_failed
checked (returned a codes) = elim (invocation_audit_failed codes) [
  | true ↦ ledger_raised
  | false ↦ returned a codes
]
checked ledger_raised = ledger_raised
checked raised = raised

-- `AuditResult`, as far as the supervisor reads it.
pub record AuditResult : Type 0 where
  pub accepted_claim_ids : List ℕ
  pub rejected_claim_ids : List ℕ
  pub needs_human_review_claim_ids : List ℕ

-- The agents of a supervisor; `new_id` gives the identifiers of the artifacts that it makes itself.
pub record Agents : Type 0 where
  pub run_policy : Db → AgentResult
  pub run_financial : Db → AgentResult
  pub run_risk : Option (Db → AgentResult)
  pub threshold_version : Option Text
  pub run_challenger : List AgentArtifact → Db → AgentResult
  pub verify : List AgentArtifact → Db → Option AuditResult
  pub new_id : Agent → ℕ

-- One entry of `agent_tasks`.
pub record Task : Type 0 where
  pub agent : Agent
  pub run_agent : Db → AgentResult

-- The risk agent, where there is one.
unfoldable pub optional_tasks : Agents → List Task
optional_tasks g = elim g.run_risk [
  | none ↦ []
  | some f ↦ record { agent = risk; run_agent = f } ∷ []
]

unfoldable pub agent_tasks : Agents → List Task
unfolding optional_tasks
agent_tasks g =
    record { agent = policy; run_agent = g.run_policy }
    ∷ record { agent = financial; run_agent = g.run_financial }
    ∷ optional_tasks g

-- `_CRITICAL_AGENTS`
unfoldable pub is_critical : Agent → Bool
is_critical policy = true
is_critical financial = true
is_critical _ = false
