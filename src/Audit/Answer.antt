-- ===== src/Audit/Answer.antt =====
-- The claims of a grounded answer against the texts that they cite, and the checks of the answer
-- (`verify_grounded_answer`, agents/auditor.py).
use creditlens.Base.{
  ℕ, Bool, true, false, Option, none, some, List, [], ◌∷◌, ◌++◌, map, ◌&&◌, not, if◌then◌else◌,
  contains, is_empty, any, filter,
}
use creditlens.Base.Text.{Text, codes, text_eq}
use creditlens.Base.Result.{Result, ok, ◌>>=◌}
use creditlens.Supervisor.Agents.{ExecutionStatus, is_failed_status}
use creditlens.Formulas.Decimal.{Decimal}
use creditlens.Formulas.Engine.{FormulaDefinition, Inputs, EvalError}
use creditlens.Cases.Tables.{CaseDb, TrustedRequestContext, SnapshotContext}
use creditlens.Cases.Trusted.{distinct}
use creditlens.Retrieval.Expanding.{sorted_by}
use creditlens.Audit.Artifacts.{
  AgentEvidenceRef, AgentClaimCategory, AgentClaim, AgentArtifact, AnswerStatus, answered,
  abstained, needs_review, GroundedAnswer, Code, plain, whole_answer, AuditResult, empty_result,
}
use creditlens.Audit.Contract.{is_supported, is_blank}
use creditlens.Audit.Verify.{add_new_violation, block, verify}
use creditlens.Audit.Grounded.{
  NumericSpan, same_texts, status_text, execution_text, expected_execution, is_same_status,
  reject_claim, flag_claim, reject_answer_if, reject_unknown, same_members, cited_ids, cited_texts,
  has_duplicates, derive_status, requires_normalization,
}

-- The lexical guards, as the auditor uses them.
pub record Guards : Type 0 where
  -- `_answer_numeric_spans`
  pub numeric_spans : Text → List NumericSpan
  -- `_has_obvious_polarity_conflict`, `_has_threshold_direction_conflict`, `_has_structural_coverage`
  pub has_polarity_conflict : Text → List Text → Bool
  pub has_threshold_conflict : Text → List Text → Bool
  pub has_coverage : AgentClaimCategory → Text → List Text → Bool
  -- `str.isspace`
  pub is_space : ℕ → Bool

module _ (guards : Guards) where
  open guards use {
    numeric_spans, has_polarity_conflict, has_threshold_conflict, has_coverage, is_space,
  }

  unfoldable pub span_keys : List Text → List (List Text)
  span_keys [] = []
  span_keys (t ∷ ts) = map (λ s. s.key) (numeric_spans t) ++ span_keys ts

  -- Every span of a statement whose key no cited text has.
  unfoldable pub reject_spans : ℕ → List (List Text) → List NumericSpan → AuditResult → AuditResult
  unfolding reject_claim same_texts
  reject_spans i keys [] r = r
  reject_spans i keys (s ∷ ss) r = reject_spans i keys ss (
      if any (same_texts s.key) keys
      then r
      else reject_claim i (plain (codes "NUMERIC_TOKEN_NOT_IN_CITATION:" ++ s.display)) r)

  -- A flag on a claim that is supported and not rejected.
  unfoldable pub flag_if : Bool → AgentClaim → Text → AuditResult → AuditResult
  unfolding flag_claim is_supported
  flag_if b c code r =
      if is_supported c.verdict && not (contains c.claim_id r.rejected_claim_ids) && b
      then flag_claim c.claim_id (plain code) r
      else r

  unfoldable pub check_cited_claim :
      List ℕ → List AgentEvidenceRef → CaseDb → AgentClaim → AuditResult → AuditResult
  unfolding reject_claim cited_texts span_keys reject_spans flag_if
  check_cited_claim allowed es db c r =
      let texts = cited_texts c.supporting_evidence_ids es db in
      let in_context =
        if any (λ i. not (contains i allowed))
          (c.supporting_evidence_ids ++ c.opposing_evidence_ids)
        then reject_claim c.claim_id (plain (codes "CITATION_NOT_IN_PACKED_CONTEXT")) r
        else r in
      let quoted =
        reject_spans c.claim_id (span_keys texts) (numeric_spans c.statement) in_context in
      let agreed =
        flag_if (has_polarity_conflict c.statement texts) c
          (codes "POLARITY_CONFLICT_WITH_CITATION") quoted in
      let directed =
        flag_if (has_threshold_conflict c.statement texts) c
          (codes "THRESHOLD_DIRECTION_CONFLICT_WITH_CITATION") agreed in
      flag_if (not (has_coverage c.category c.statement texts)) c
        (codes "STRUCTURAL_COVERAGE_INSUFFICIENT") directed

  unfoldable pub check_claims :
      List ℕ → List AgentEvidenceRef → CaseDb → List AgentClaim → AuditResult → AuditResult
  unfolding check_cited_claim
  check_claims allowed es db [] r = r
  check_claims allowed es db (c ∷ cs) r =
      check_claims allowed es db cs (check_cited_claim allowed es db c r)

  unfoldable pub strip_left : Text → Text
  strip_left [] = []
  strip_left (c ∷ cs) = if is_space c then strip_left cs else c ∷ cs

  -- The text without its white space at the end.
  unfoldable pub strip_right : Text → Text
  strip_right [] = []
  strip_right (c ∷ cs) =
      let rest = strip_right cs in if is_empty rest && is_space c then [] else c ∷ rest

  unfoldable pub strip : Text → Text
  unfolding strip_left strip_right
  strip t = strip_right (strip_left t)

  unfoldable pub join : List Text → Text
  join [] = []
  join (t ∷ []) = t
  join (t ∷ (u ∷ us)) = t ++ codes " " ++ join (u ∷ us)

  -- The statements of the supported claims, in their order.
  unfoldable pub expected_answer : List AgentClaim → Text
  unfolding strip join is_supported
  expected_answer cs =
      strip (join (map (λ c. strip c.statement) (filter (λ c. is_supported c.verdict) cs)))

  unfoldable pub answer_text : Option Text → Text
  answer_text none = []
  answer_text (some t) = t

  unfoldable pub check_text :
      AnswerStatus → GroundedAnswer → List AgentClaim → AuditResult → AuditResult
  unfolding reject_answer_if is_blank expected_answer answer_text strip
  check_text abstained g cs r =
      reject_answer_if (is_blank g.abstention_reason) (plain (codes "ABSTENTION_REASON_REQUIRED")) (
        reject_answer_if (not (is_blank g.direct_answer))
          (plain (codes "ABSTENTION_MUST_NOT_HAVE_DIRECT_ANSWER")) r)
  check_text needs_review g cs r =
      reject_answer_if (not (is_blank g.direct_answer) && not r.review_normalization_required)
        (plain (codes "NEEDS_REVIEW_MUST_NOT_HAVE_DIRECT_ANSWER")) r
  check_text answered g cs r =
      reject_answer_if (not (text_eq (strip (answer_text g.direct_answer)) (expected_answer cs)))
        (plain (codes "DIRECT_ANSWER_NOT_EXACT_CLAIM_RENDERING")) r

  -- The result with the status that was derived.
  unfoldable pub mark_status : AnswerStatus → AnswerStatus → AuditResult → AuditResult
  unfolding requires_normalization
  mark_status actual derived r = record r {
    derived_answer_status = some derived;
    review_normalization_required = requires_normalization actual derived r;
  }

  unfoldable pub mismatch_code : AnswerStatus → AnswerStatus → Code
  unfolding status_text
  mismatch_code actual derived =
      plain
        (codes "ANSWER_STATUS_MISMATCH:" ++ status_text actual ++ codes ":" ++ status_text derived)

  -- The checks of the answer by the derived status, of a marked result.
  unfoldable pub check_marked :
      AnswerStatus → GroundedAnswer → List AgentClaim → AuditResult → AuditResult
  unfolding is_same_status reject_answer_if check_text has_duplicates mismatch_code
  check_marked derived g cs marked =
      let matched =
        reject_answer_if
          (not (is_same_status g.answer_status derived) && not marked.review_normalization_required)
          (mismatch_code g.answer_status derived) marked in
      reject_answer_if (has_duplicates (map (λ c. c.claim_id) cs))
        (plain (codes "DUPLICATE_CLAIM_ID")) (check_text derived g cs matched)

  -- The checks from the status on.
  unfoldable pub check_answer : GroundedAnswer → List AgentClaim → AuditResult → AuditResult
  unfolding derive_status mark_status check_marked
  check_answer g cs r =
      let derived = derive_status g cs r in
      check_marked derived g cs (mark_status g.answer_status derived r)

  -- The execution status is not the one that goes with the answer's.
  unfoldable pub breaks_matrix : ExecutionStatus → AnswerStatus → Bool
  unfolding expected_execution execution_text
  breaks_matrix execution actual =
      not (text_eq (execution_text (expected_execution actual)) (execution_text execution))

  unfoldable pub matrix_code : ExecutionStatus → AnswerStatus → Code
  unfolding execution_text status_text
  matrix_code execution actual = plain (
      codes "GROUNDING_STATUS_MATRIX_MISMATCH:"
      ++ execution_text execution
      ++ codes ":"
      ++ status_text actual)

  unfoldable pub failed_answer : Code → AuditResult
  unfolding block add_new_violation empty_result
  failed_answer code = record (block code empty_result) {
    violations = add_new_violation whole_answer code [];
    grounded_answer_ok = false;
  }

  module _ (dec : Decimal) where
    -- The checks of an answer whose artifact passed the audit without a blocking failure.
    unfoldable pub check_grounded :
        List ℕ → CaseDb → AgentArtifact dec → GroundedAnswer → AuditResult → AuditResult
    unfolding reject_unknown sorted_by distinct same_members cited_ids reject_answer_if check_claims
        check_answer
    check_grounded allowed db a g r =
        let evidence_ids = map (λ e. e.evidence_id) a.evidence in
        let unknown = filter (λ i. not (contains i allowed)) evidence_ids in
        let known = reject_unknown (sorted_by (λ i. i) (distinct unknown)) r in
        let cited =
          reject_answer_if (not (same_members evidence_ids (cited_ids a.claims)))
            (plain (codes "ARTIFACT_EVIDENCE_NOT_EXACTLY_CITED")) known in
        check_answer g a.claims (check_claims allowed a.evidence db a.claims cited)

    unfoldable pub check_audited :
        List ℕ → CaseDb → AgentArtifact dec → GroundedAnswer → AuditResult → AuditResult
    unfolding check_grounded
    check_audited allowed db a g r =
        if is_empty r.blocking_failures
        then check_grounded allowed db a g r
        else record r { grounded_answer_ok = false }

    unfoldable pub verify_grounded_answer :
        (FormulaDefinition dec → Inputs dec → Text)
        → List (FormulaDefinition dec)
        → (ℕ → Bool)
        → TrustedRequestContext
        → Option SnapshotContext
        → CaseDb
        → List ℕ
        → AgentArtifact dec
        → GroundedAnswer
        → Result EvalError AuditResult
    unfolding failed_answer is_failed_status breaks_matrix matrix_code verify check_audited
    verify_grounded_answer hash_trace formulas is_digit trusted snapshot db allowed a g =
        if is_failed_status a.execution_status
        then ok (failed_answer (plain (codes "GROUNDING_EXECUTION_FAILED")))
        else if breaks_matrix a.execution_status g.answer_status
        then ok (failed_answer (matrix_code a.execution_status g.answer_status))
        else verify dec hash_trace formulas is_digit trusted snapshot db true (a ∷ []) >>= λ r.
            ok (check_audited allowed db a g r)
