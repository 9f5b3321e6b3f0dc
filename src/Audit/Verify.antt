-- ===== src/Audit/Verify.antt =====
-- `EvidenceAuditor.verify` and `_reject_evidence` (agents/auditor.py).
use creditlens.Base.{
  ℕ, Bool, true, false, Option, none, some, List, [], ◌∷◌, ◌++◌, map, ◌&&◌, ◌||◌, not, ◌==◌,
  if◌then◌else◌, contains, is_empty, is_some, any, filter,
}
use creditlens.Base.Text.{Text, codes, text_eq}
use creditlens.Base.Result.{Result, ok, ◌>>=◌}
use creditlens.Workflow.Records.{Verdict, partially_supported}
use creditlens.Supervisor.Agents.{is_failed_status}
use creditlens.Formulas.Decimal.{Decimal}
use creditlens.Formulas.Engine.{
  CalculationArtifact, FormulaDefinition, Inputs, EvalError, replay_calculation,
}
use creditlens.Cases.Tables.{CreditCase, CaseDb, TrustedRequestContext, SnapshotContext, get_case}
use creditlens.Audit.Artifacts.{
  AgentEvidenceRef, AgentClaimCategory, data_conflict, AgentClaim, AgentArtifact, unknown_evidence,
  unknown_calculation, ContractViolation, Code, plain, with_id, of_contract, Key, item,
  whole_answer, AuditResult, empty_result,
}
use creditlens.Audit.Contract.{validate_artifact_contract}
use creditlens.Audit.Evidence.{evidence_codes}

unfoldable pub same_key : Key → Key → Bool
same_key (item i) (item j) = i == j
same_key whole_answer whole_answer = true
same_key _ _ = false

-- `violations.setdefault(key, []).extend(codes)`
unfoldable pub add_violations : Key → List Code → List (Key × List Code) → List (Key × List Code)
unfolding same_key
add_violations k cs [] = (k, cs) ∷ []
add_violations k cs (v ∷ vs) =
    if same_key v.0 k then (v.0, v.1 ++ cs) ∷ vs else v ∷ add_violations k cs vs

-- `violations.get(key, [])`
unfoldable pub violations_of : Key → List (Key × List Code) → List Code
unfolding same_key
violations_of k [] = []
violations_of k (v ∷ vs) = if same_key v.0 k then v.1 else violations_of k vs

unfoldable pub same_code : Code → Code → Bool
same_code (plain a) (plain b) = text_eq a b
same_code (with_id a i) (with_id b j) = text_eq a b && i == j
same_code _ _ = false

unfoldable pub add_new_violation : Key → Code → List (Key × List Code) → List (Key × List Code)
unfolding add_violations violations_of same_code
add_new_violation k c vs =
    add_violations k (if any (same_code c) (violations_of k vs) then [] else c ∷ []) vs

abbrev pub Rejection : Type 0
Rejection = List ℕ × AuditResult

-- `_reject_evidence`, with the set of bad evidence beside the result.
unfoldable pub reject_evidence : ℕ → Text → Rejection → Rejection
unfolding add_new_violation
reject_evidence i code r =
    (i ∷ r.0, record r.1 { violations = add_new_violation (item i) (plain code) r.1.violations })

unfoldable pub reject_all : ℕ → List Text → Rejection → Rejection
unfolding reject_evidence
reject_all i [] r = r
reject_all i (code ∷ more) r = reject_all i more (reject_evidence i code r)

unfoldable pub accept : ℕ → AuditResult → AuditResult
accept i r = record r { accepted_claim_ids = r.accepted_claim_ids ++ i ∷ [] }

unfoldable pub reject_with : ℕ → List Code → AuditResult → AuditResult
unfolding add_violations
reject_with i cs r = record r {
  rejected_claim_ids = r.rejected_claim_ids ++ i ∷ [];
  violations = add_violations (item i) cs r.violations;
}

unfoldable pub ask_human : ℕ → AuditResult → AuditResult
ask_human i r = record r { needs_human_review_claim_ids = r.needs_human_review_claim_ids ++ i ∷ [] }

unfoldable pub reject_claims : Code → List AgentClaim → AuditResult → AuditResult
unfolding reject_with
reject_claims code [] r = r
reject_claims code (c ∷ cs) r = reject_claims code cs (reject_with c.claim_id (code ∷ []) r)

unfoldable pub is_data_conflict : AgentClaimCategory → Bool
is_data_conflict data_conflict = true
is_data_conflict _ = false

unfoldable pub is_partially_supported : Verdict → Bool
is_partially_supported partially_supported = true
is_partially_supported _ = false

-- A conflict of evidence, which keeps both sides for a human.
unfoldable pub is_conflict : AgentClaim → Bool
unfolding is_data_conflict is_partially_supported
is_conflict c =
    is_data_conflict c.category
    || (not (is_empty c.opposing_evidence_ids) && is_partially_supported c.verdict)

-- `claim_key in v`, for the text of a violation.
unfoldable pub mentions : ℕ → ContractViolation → Bool
mentions i v =
    v.claim_id == i
    || elim v.code [ unknown_evidence j ↦ j == i | unknown_calculation j ↦ j == i | _ ↦ false ]

-- The loop's body for a claim.
unfoldable pub judge_claim :
    List ContractViolation → List ℕ → List ℕ → AgentClaim → AuditResult → AuditResult
unfolding mentions reject_with ask_human accept is_conflict
judge_claim contract bad_evidence replay_failed c r =
    if any (λ v. v.claim_id == c.claim_id) contract
    then reject_with c.claim_id (map of_contract (filter (mentions c.claim_id) contract)) r
    else if any (λ i. contains i bad_evidence) c.supporting_evidence_ids
    then reject_with c.claim_id (plain (codes "INVALID_SUPPORTING_EVIDENCE") ∷ []) r
    else if any (λ i. contains i bad_evidence) c.opposing_evidence_ids
    then reject_with c.claim_id (plain (codes "INVALID_OPPOSING_EVIDENCE") ∷ []) r
    else if any (λ i. contains i replay_failed) c.calculation_ids
    then reject_with c.claim_id (plain (codes "REPLAY_FAILED") ∷ []) r
    else if is_conflict c
    then ask_human c.claim_id r
    else accept c.claim_id r

unfoldable pub judge_claims :
    List ContractViolation → List ℕ → List ℕ → List AgentClaim → AuditResult → AuditResult
unfolding judge_claim
judge_claims contract bad_evidence replay_failed [] r = r
judge_claims contract bad_evidence replay_failed (c ∷ cs) r =
    judge_claims contract bad_evidence replay_failed cs
      (judge_claim contract bad_evidence replay_failed c r)

unfoldable pub is_core : Text → Bool
is_core producer =
    text_eq producer (codes "policy_analyst") || text_eq producer (codes "financial_analyst")

-- The case, where it is of the context's tenant.
unfoldable pub own_case : TrustedRequestContext → Option CreditCase → Option CreditCase
own_case trusted none = none
own_case trusted (some c) = if c.tenant_id == trusted.tenant_id then some c else none

unfoldable pub block : Code → AuditResult → AuditResult
block code r = record r { blocking_failures = r.blocking_failures ++ code ∷ [] }

module _ (dec : Decimal) where
  unfoldable pub case_failed : List (AgentArtifact dec) → AuditResult → AuditResult
  unfolding reject_claims
  case_failed [] r = r
  case_failed (a ∷ more) r =
      case_failed more (reject_claims (plain (codes "CASE_VALIDATION_FAILED")) a.claims r)

  -- An artifact of an agent that failed.
  unfoldable pub audit_failed : AgentArtifact dec → AuditResult → AuditResult
  unfolding block reject_claims is_core
  audit_failed a r =
      if is_some a.grounded
      then reject_claims (plain (codes "GROUNDING_EXECUTION_FAILED")) a.claims
          (block (plain (codes "GROUNDING_EXECUTION_FAILED")) r)
      else if is_core a.producer
      then reject_claims (plain (codes "CORE_AGENT_FAILED:" ++ a.producer)) a.claims
          (block (plain (codes "CORE_AGENT_FAILED:" ++ a.producer)) r)
      else record r { degraded = true }

module _ (dec : Decimal) (hash_trace : FormulaDefinition dec → Inputs dec → Text)
    (formulas : List (FormulaDefinition dec)) (is_digit : ℕ → Bool) where
  -- The calculations that do not replay; the replayed artifact is dropped.
  unfoldable pub replay_all : List (CalculationArtifact dec) → Result EvalError (List ℕ)
  unfolding replay_calculation
  replay_all [] = ok []
  replay_all (k ∷ ks) = do
    replayed ← replay_calculation dec hash_trace formulas k k.calculation_id
    failed ← replay_all ks
    ok (if replayed.0 then failed else k.calculation_id ∷ failed)

  module _ (trusted : TrustedRequestContext) (snapshot : Option SnapshotContext) (db : CaseDb)
      (allow_grounded_document_numeric : Bool) where
    unfoldable pub check_evidence :
        CreditCase → AgentArtifact dec → List ℕ → List AgentEvidenceRef → Rejection → Rejection
    unfolding evidence_codes reject_all
    check_evidence case a replay_failed [] r = r
    check_evidence case a replay_failed (e ∷ es) r = check_evidence case a replay_failed es (
        reject_all e.evidence_id
          (evidence_codes dec trusted snapshot db case a.calculations replay_failed e) r)

    unfoldable pub judge_artifact :
        CreditCase → AgentArtifact dec → List ℕ → AuditResult → AuditResult
    unfolding check_evidence judge_claims validate_artifact_contract
    judge_artifact case a replay_failed r =
        let start = record r { replay_failures = r.replay_failures ++ replay_failed } in
        let (bad_evidence, checked) = check_evidence case a replay_failed a.evidence ([], start) in
        let contract =
          validate_artifact_contract dec is_digit trusted.as_of_date allow_grounded_document_numeric
            a in
        judge_claims contract bad_evidence replay_failed a.claims checked

    unfoldable pub audit_artifact :
        CreditCase → AgentArtifact dec → AuditResult → Result EvalError AuditResult
    unfolding audit_failed replay_all judge_artifact is_failed_status
    audit_artifact case a r =
        if is_failed_status a.execution_status
        then ok (audit_failed dec a r)
        else replay_all a.calculations >>= λ failed. ok (judge_artifact case a failed r)

    unfoldable pub audit_artifacts :
        CreditCase → List (AgentArtifact dec) → AuditResult → Result EvalError AuditResult
    unfolding audit_artifact
    audit_artifacts case [] r = ok r
    audit_artifacts case (a ∷ more) r = audit_artifact case a r >>= audit_artifacts case more

    unfoldable pub verify : List (AgentArtifact dec) → Result EvalError AuditResult
    unfolding own_case get_case case_failed block audit_artifacts
    verify artifacts = elim (own_case trusted (get_case trusted.case_id db)) [
      | none ↦
          ok (
            case_failed dec artifacts (block (plain (codes "CASE_VALIDATION_FAILED")) empty_result))
      | some case ↦ audit_artifacts case artifacts empty_result
    ]
