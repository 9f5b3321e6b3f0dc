-- ===== src/Supervisor/Persist.antt =====
-- `Supervisor._persist_artifacts`, `_persist_evidence` and `_apply_audit_to_claims`
-- (agents/supervisor.py).
use creditlens.Base.{
  ℕ, Bool, List, [], ◌∷◌, ◌++◌, map, ◌==◌, ◌&&◌, find, is_some, update_where, if◌then◌else◌,
}
use creditlens.Workflow.Records.{
  Run, ClaimRecord, ArtifactRecord, EvidenceRecord, Locator, ReviewStatus, Db,
}
use creditlens.Supervisor.Agents.{AgentArtifact, AgentClaim, AuditResult, is_failed_status}

unfoldable pub artifact_record : Run → AgentArtifact → ArtifactRecord
unfolding is_failed_status
artifact_record run a = record {
  id = a.artifact_id;
  run_id = run.id;
  agent = a.producer;
  is_failed = is_failed_status a.execution_status;
  evidence = a.evidence;
}

-- A new row's review status is the column's default.
unfoldable pub claim_record : Run → AgentArtifact → AgentClaim → ClaimRecord
claim_record run a c = record {
  id = c.claim_id;
  run_id = run.id;
  artifact_id = a.artifact_id;
  category = c.category;
  statement = c.statement;
  verdict = c.verdict;
  uncertainty_reason = c.uncertainty_reason;
  review_status = ReviewStatus.pending;
  supporting = c.supporting;
  opposing = c.opposing;
  calculations = c.calculations;
  source_claim_id = c.source_claim_id;
}

-- Whether the run has a row for the evidence already.
unfoldable pub has_evidence : Run → ℕ → List EvidenceRecord → Bool
has_evidence run key rows = is_some (find (λ e. e.run_id == run.id && e.evidence_key == key) rows)

-- `_persist_evidence`
unfoldable pub persist_evidence :
    Run → List (ℕ × Locator) → List EvidenceRecord → List EvidenceRecord
unfolding has_evidence
persist_evidence run [] rows = rows
persist_evidence run (ref ∷ refs) rows = persist_evidence run refs (
    if has_evidence run ref.0 rows
    then rows
    else rows ++ record { evidence_key = ref.0; run_id = run.id; locator = ref.1 } ∷ [])

unfoldable pub persist_artifact : Run → AgentArtifact → Db → Db
unfolding artifact_record claim_record persist_evidence
persist_artifact run a db = record db {
  artifacts = db.artifacts ++ artifact_record run a ∷ [];
  evidence = persist_evidence run a.evidence db.evidence;
  claims = db.claims ++ map (claim_record run a) a.claims;
}

-- `mark`
unfoldable pub mark : ReviewStatus → List ℕ → List ClaimRecord → List ClaimRecord
mark status [] claims = claims
mark status (i ∷ is) claims =
    mark status is (update_where (λ c. c.id == i) (λ c. record c { review_status = status }) claims)

unfoldable pub apply_audit_to_claims : AuditResult → Db → Db
unfolding mark
apply_audit_to_claims audit db = record db {
  claims = mark ReviewStatus.pending audit.needs_human_review_claim_ids (
      mark ReviewStatus.needs_rework audit.rejected_claim_ids
        (mark ReviewStatus.audited audit.accepted_claim_ids db.claims));
}
