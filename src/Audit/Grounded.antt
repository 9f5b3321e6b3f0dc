-- ===== src/Audit/Grounded.antt =====
-- `EvidenceAuditor.verify_grounded_answer` (agents/auditor.py). The lexical guards on a statement and
-- its cited texts, and which characters are white space, are parameters.
use creditlens.Base.{
  ℕ, Bool, true, false, Option, none, some, List, [], ◌∷◌, ◌++◌, ◌&&◌, ◌||◌, not, ◌==◌,
  if◌then◌else◌, contains, is_empty, any, all, filter,
}
use creditlens.Base.Text.{Text, codes, text_eq}
use creditlens.Supervisor.Agents.{
  ExecutionStatus, success, partial, degraded, insufficient_evidence, failed,
}
use creditlens.Cases.Tables.{CaseDb, get_section}
use creditlens.Audit.Artifacts.{
  AgentEvidenceRef, AgentClaim, AnswerStatus, answered, abstained, needs_review, GroundedAnswer,
  Code, plain, with_id, item, whole_answer, AuditResult,
}
use creditlens.Audit.Contract.{is_supported}
use creditlens.Audit.Verify.{add_new_violation, violations_of, is_data_conflict}

pub record NumericSpan : Type 0 where
  pub display : Text
  pub key : List Text

unfoldable pub same_texts : List Text → List Text → Bool
same_texts [] [] = true
same_texts (a ∷ more) (b ∷ bs) = text_eq a b && same_texts more bs
same_texts _ _ = false

unfoldable pub status_text : AnswerStatus → Text
status_text answered = codes "ANSWERED"
status_text abstained = codes "ABSTAINED"
status_text needs_review = codes "NEEDS_REVIEW"

unfoldable pub execution_text : ExecutionStatus → Text
execution_text success = codes "SUCCESS"
execution_text partial = codes "PARTIAL"
execution_text degraded = codes "DEGRADED"
execution_text insufficient_evidence = codes "INSUFFICIENT_EVIDENCE"
execution_text failed = codes "FAILED"

-- GROUNDING_EXECUTION_STATUS_BY_ANSWER
unfoldable pub expected_execution : AnswerStatus → ExecutionStatus
expected_execution answered = success
expected_execution needs_review = partial
expected_execution abstained = insufficient_evidence

unfoldable pub is_same_status : AnswerStatus → AnswerStatus → Bool
unfolding status_text
is_same_status a b = text_eq (status_text a) (status_text b)

unfoldable pub reject_answer : Code → AuditResult → AuditResult
unfolding add_new_violation
reject_answer code r = record r {
  grounded_answer_ok = false;
  violations = add_new_violation whole_answer code r.violations;
}

unfoldable pub without : ℕ → List ℕ → List ℕ
without i is = filter (λ j. not (j == i)) is

unfoldable pub with_new : ℕ → List ℕ → List ℕ
with_new i is = if contains i is then is else is ++ i ∷ []

unfoldable pub reject_claim : ℕ → Code → AuditResult → AuditResult
unfolding without with_new add_new_violation
reject_claim i code r = record r {
  grounded_answer_ok = false;
  rejected_claim_ids = with_new i r.rejected_claim_ids;
  accepted_claim_ids = without i r.accepted_claim_ids;
  needs_human_review_claim_ids = without i r.needs_human_review_claim_ids;
  violations = add_new_violation (item i) code r.violations;
}

unfoldable pub flag_claim : ℕ → Code → AuditResult → AuditResult
unfolding without with_new add_new_violation
flag_claim i code r = if contains i r.rejected_claim_ids then r else record r {
  accepted_claim_ids = without i r.accepted_claim_ids;
  needs_human_review_claim_ids = with_new i r.needs_human_review_claim_ids;
  violations = add_new_violation (item i) code r.violations;
}

unfoldable pub reject_answer_if : Bool → Code → AuditResult → AuditResult
unfolding reject_answer
reject_answer_if b code r = if b then reject_answer code r else r

unfoldable pub reject_unknown : List ℕ → AuditResult → AuditResult
unfolding reject_answer
reject_unknown [] r = r
reject_unknown (i ∷ is) r =
    reject_unknown is (reject_answer (with_id (codes "EVIDENCE_NOT_IN_PACKED_CONTEXT:") i) r)

-- Both sets have the same members.
unfoldable pub same_members : List ℕ → List ℕ → Bool
same_members xs ys = all (λ i. contains i ys) xs && all (λ i. contains i xs) ys

unfoldable pub cited_ids : List AgentClaim → List ℕ
cited_ids [] = []
cited_ids (c ∷ cs) = (c.supporting_evidence_ids ++ c.opposing_evidence_ids) ++ cited_ids cs

-- `evidence_by_id.get`, of which the last one counts.
unfoldable pub evidence_by_id : ℕ → List AgentEvidenceRef → Option AgentEvidenceRef
evidence_by_id i [] = none
evidence_by_id i (e ∷ es) = elim (evidence_by_id i es) [
  | some later ↦ some later
  | none ↦ if e.evidence_id == i then some e else none
]

unfoldable pub section_texts : Option ℕ → CaseDb → List Text
unfolding get_section
section_texts none db = []
section_texts (some i) db = elim (get_section i db) [ none ↦ [] | some s ↦ s.text ∷ [] ]

unfoldable pub evidence_texts : Option AgentEvidenceRef → CaseDb → List Text
unfolding section_texts
evidence_texts none db = []
evidence_texts (some e) db = section_texts e.section_id db

-- The texts of the sections that a claim cites in its support.
unfoldable pub cited_texts : List ℕ → List AgentEvidenceRef → CaseDb → List Text
unfolding evidence_by_id evidence_texts
cited_texts [] es db = []
cited_texts (i ∷ is) es db = evidence_texts (evidence_by_id i es) db ++ cited_texts is es db

unfoldable pub has_duplicates : List ℕ → Bool
has_duplicates [] = false
has_duplicates (i ∷ is) = contains i is || has_duplicates is

unfoldable pub is_non_blocking : Code → Bool
is_non_blocking (plain t) =
    text_eq t (codes "POLARITY_CONFLICT_WITH_CITATION")
    || text_eq t (codes "STRUCTURAL_COVERAGE_INSUFFICIENT")
    || text_eq t (codes "THRESHOLD_DIRECTION_CONFLICT_WITH_CITATION")
is_non_blocking _ = false

unfoldable pub review_codes : List ℕ → AuditResult → List Code
unfolding violations_of
review_codes [] r = []
review_codes (i ∷ is) r = violations_of (item i) r.violations ++ review_codes is r

-- What of a claim calls for a review.
unfoldable pub is_doubtful : AgentClaim → Bool
unfolding is_data_conflict is_supported
is_doubtful c =
    is_data_conflict c.category
    || not (is_empty c.opposing_evidence_ids)
    || not (is_supported c.verdict)

unfoldable pub has_review_signal : GroundedAnswer → List AgentClaim → AuditResult → Bool
unfolding is_doubtful
has_review_signal g claims r =
    not (is_empty g.conflicts)
    || not (is_empty g.missing_information)
    || not (is_empty r.needs_human_review_claim_ids)
    || any is_doubtful claims

unfoldable pub derive_status : GroundedAnswer → List AgentClaim → AuditResult → AnswerStatus
unfolding has_review_signal
derive_status g claims r =
    if is_empty claims
    then abstained
    else if has_review_signal g claims r
    then needs_review
    else answered

unfoldable pub requires_normalization : AnswerStatus → AnswerStatus → AuditResult → Bool
unfolding is_same_status review_codes is_non_blocking
requires_normalization actual derived r =
    let found = review_codes r.needs_human_review_claim_ids r in
    is_same_status actual answered
    && is_same_status derived needs_review
    && not (is_empty r.needs_human_review_claim_ids)
    && not (is_empty found)
    && all is_non_blocking found
    && is_empty r.rejected_claim_ids
    && is_empty r.replay_failures
    && is_empty r.blocking_failures
    && r.grounded_answer_ok
