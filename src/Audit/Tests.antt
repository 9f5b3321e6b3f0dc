-- ===== src/Audit/Tests.antt =====
-- The audit of a claim on a section, a fact and a calculation.
use creditlens.Base.{
  ℕ, ◌≡◌, refl, Bool, true, false, none, some, List, [], ◌∷◌, ◌&&◌, leb, is_some, is_empty, All,
  count, filter, if◌then◌else◌, ◌==◌,
}
use creditlens.Base.Text.{Text, codes}
use creditlens.Base.Result.{ok}
use creditlens.Workflow.Records.{supported}
use creditlens.Supervisor.Agents.{ExecutionStatus}
use creditlens.Formulas.Tests.{whole, hash, leverage, computed}
use creditlens.Cases.Tables.{get_case}
use creditlens.Cases.Tests.{material, context, frozen}
use creditlens.Audit.Artifacts.{
  GroundedAnswer, answered, AgentEvidenceRef, EvidenceType, document_span, sql_fact, calculation,
  AgentClaim, AgentArtifact, financial_category, AuditResult, empty_result, item, of_contract,
  as_of_date_mismatch,
}
use creditlens.Audit.Grounded.{NumericSpan}
use creditlens.Audit.Verify.{verify, own_case}
use creditlens.Audit.Counted.{tally, judged_ids, verify-tally}
use creditlens.Audit.Answer.{Guards, verify_grounded_answer}
use creditlens.Audit.Grounding.{IsGrounded, verify_grounded_answer-IsGrounded}
use creditlens.Audit.Accepted.{IsVettedInCase, verify-IsVettedInCase}

abbrev is_ascii_digit : ℕ → Bool
is_ascii_digit c = leb 48 c && leb c 57

abbrev reference : ℕ → EvidenceType → ℕ → Text → AgentEvidenceRef
reference i type source digest = record {
  evidence_id = i;
  evidence_type = type;
  source_id = source;
  content_hash = digest;
  document_version_id = some 20;
  section_id = some 40;
  parse_run_id = some 30;
  page_number = some 3;
  fact_id = some 50;
  calculation_id = some 7;
  valid_from = none;
  valid_to = none;
  source_available_at = 150;
}

abbrev a_claim : ℕ → ℕ → List ℕ → AgentClaim
a_claim i day evidence = record {
  claim_id = i;
  category = financial_category;
  statement = codes "leverage 400%";
  verdict = supported;
  supporting_evidence_ids = evidence;
  opposing_evidence_ids = [];
  calculation_ids = 7 ∷ [];
  as_of_date = day;
  uncertainty_reason = none;
}

abbrev analysis : AgentArtifact whole
analysis = record {
  producer = codes "financial_analyst";
  execution_status = ExecutionStatus.success;
  claims = a_claim 60 100 (11 ∷ 12 ∷ 13 ∷ []) ∷ a_claim 61 101 (11 ∷ []) ∷ [];
  evidence =
      reference 11 document_span 40 (codes "h")
      ∷ reference 12 sql_fact 50 []
      ∷ reference 13 calculation 7 (codes "leverage")
      ∷ [];
  calculations = computed ∷ [];
  grounded = none;
}

abbrev audited : AuditResult
audited = record {
  accepted_claim_ids = 60 ∷ [];
  rejected_claim_ids = 61 ∷ [];
  needs_human_review_claim_ids = [];
  violations =
      (item 61, of_contract (record { claim_id = 61; code = as_of_date_mismatch }) ∷ []) ∷ [];
  replay_failures = [];
  blocking_failures = [];
  degraded = false;
  grounded_answer_ok = true;
  derived_answer_status = none;
  review_normalization_required = false;
}

verify-analysis :
    verify whole hash
      (leverage ∷ [])
      is_ascii_digit
      context
      (some frozen)
      material
      false
      (analysis ∷ [])
    ≡ ok audited
unfolding verify empty_result
verify-analysis = refl

verify-tally_example :
    tally 61 audited
    ≡ count 61
        (judged_ids whole (is_some (own_case context (get_case (some 1) material))) (analysis ∷ []))
verify-tally_example =
    verify-tally whole hash (leverage ∷ []) is_ascii_digit context (some frozen) material false 61
      (analysis ∷ []) audited verify-analysis

verify-IsVettedInCase_example :
    All
      (IsVettedInCase whole hash
        (leverage ∷ [])
        is_ascii_digit
        context
        (some frozen)
        material
        false
        (analysis ∷ []))
      (60 ∷ [])
verify-IsVettedInCase_example =
    verify-IsVettedInCase whole hash (leverage ∷ []) is_ascii_digit context (some frozen) material
      false (analysis ∷ []) audited verify-analysis

-- The digits of a text as its only span, if it has any.
abbrev simple_spans : Text → List NumericSpan
simple_spans t =
    let digits = filter is_ascii_digit t in
    if is_empty digits then [] else record { display = digits; key = digits ∷ [] } ∷ []

abbrev simple_guards : Guards
simple_guards = record {
  numeric_spans = simple_spans;
  has_polarity_conflict = λ t ts. false;
  has_threshold_conflict = λ t ts. false;
  has_coverage = λ c t ts. true;
  is_space = λ c. c == 32;
}

abbrev answer : GroundedAnswer
answer = record {
  answer_status = answered;
  direct_answer = some (codes "debt of 100");
  missing_information = [];
  conflicts = [];
  abstention_reason = none;
  refusal_reason_code = none;
}

abbrev quoting_claim : AgentClaim
quoting_claim = record (a_claim 62 100 (11 ∷ [])) {
  statement = codes "debt of 100";
  calculation_ids = [];
}

abbrev grounded_artifact : AgentArtifact whole
grounded_artifact = record analysis {
  claims = quoting_claim ∷ [];
  evidence = reference 11 document_span 40 (codes "h") ∷ [];
  calculations = [];
  grounded = some answer;
}

abbrev grounded_result : AuditResult
grounded_result = record {
  accepted_claim_ids = 62 ∷ [];
  rejected_claim_ids = [];
  needs_human_review_claim_ids = [];
  violations = [];
  replay_failures = [];
  blocking_failures = [];
  degraded = false;
  grounded_answer_ok = true;
  derived_answer_status = some answered;
  review_normalization_required = false;
}

verify_grounded_answer-answer :
    verify_grounded_answer simple_guards whole hash
      (leverage ∷ [])
      is_ascii_digit
      context
      (some frozen)
      material
      (11 ∷ [])
      grounded_artifact
      answer
    ≡ ok grounded_result
unfolding verify_grounded_answer
verify_grounded_answer-answer = refl

verify_grounded_answer-IsGrounded_example :
    IsGrounded simple_guards whole (11 ∷ []) material grounded_artifact answer grounded_result
verify_grounded_answer-IsGrounded_example =
    verify_grounded_answer-IsGrounded simple_guards whole (11 ∷ []) material grounded_artifact
      answer hash (leverage ∷ []) is_ascii_digit context (some frozen) grounded_result
      verify_grounded_answer-answer refl
