-- ===== src/Audit/Contract.antt =====
-- `validate_artifact_contract` (agents/contracts.py). Whether a character is a digit, which is a
-- table of Unicode, is a parameter.
use creditlens.Base.{
  ℕ, Bool, true, false, Option, none, some, List, [], ◌∷◌, ◌++◌, map, ◌&&◌, ◌||◌, not, ◌==◌,
  if◌then◌else◌, any, contains, is_empty, is_some,
}
use creditlens.Base.Text.{Text, codes}
use creditlens.Workflow.Records.{Verdict, supported, insufficient_evidence}
use creditlens.Formulas.Decimal.{Decimal}
use creditlens.Audit.Artifacts.{
  EvidenceType, document_span, table_cell, sql_fact, calculation, AgentClaimCategory,
  financial_category, cash_flow, AgentClaim, AgentArtifact, ContractCode,
  supported_without_evidence, unknown_evidence, unknown_calculation, missing_uncertainty_reason,
  numeric_claim_without_fact, as_of_date_mismatch, forbidden_determination, ContractViolation,
}

unfoldable pub is_supported : Verdict → Bool
is_supported supported = true
is_supported _ = false

unfoldable pub is_insufficient_evidence : Verdict → Bool
is_insufficient_evidence insufficient_evidence = true
is_insufficient_evidence _ = false

-- `not reason`, for a text or None
unfoldable pub is_blank : Option Text → Bool
is_blank none = true
is_blank (some t) = is_empty t

unfoldable pub when {ℓ} : {A : Type ℓ} → Bool → A → List A
when true a = a ∷ []
when false a = []

unfoldable pub starts_with : Text → Text → Bool
starts_with [] t = true
starts_with (x ∷ xs) [] = false
starts_with (x ∷ xs) (y ∷ ys) = x == y && starts_with xs ys

-- `part in text`
unfoldable pub is_part : Text → Text → Bool
unfolding starts_with
is_part part [] = is_empty part
is_part part (c ∷ cs) = starts_with part (c ∷ cs) || is_part part cs

abbrev numeric_hints : List Text
numeric_hints = codes "率" ∷ codes "倍" ∷ codes "金额" ∷ codes "元" ∷ codes "%" ∷ codes "百分之" ∷ []

abbrev pub banned_phrases : List Text
banned_phrases = codes "欺诈" ∷ codes "拒贷" ∷ codes "拒绝贷款" ∷ codes "批准贷款" ∷ []

unfoldable pub is_monetary : AgentClaimCategory → Bool
is_monetary financial_category = true
is_monetary cash_flow = true
is_monetary _ = false

unfoldable pub is_structured : EvidenceType → Bool
is_structured sql_fact = true
is_structured calculation = true
is_structured table_cell = true
is_structured _ = false

unfoldable pub is_document_span : EvidenceType → Bool
is_document_span document_span = true
is_document_span _ = false

-- One code for each identifier that is not known.
unfoldable pub unknown : (ℕ → ContractCode) → List ℕ → List ℕ → List ContractCode
unknown code known [] = []
unknown code known (i ∷ is) =
    let rest = unknown code known is in if contains i known then rest else code i ∷ rest

unfoldable pub forbidden : Text → List Text → List ContractCode
unfolding is_part
forbidden statement [] = []
forbidden statement (phrase ∷ phrases) =
    let rest = forbidden statement phrases in
    if is_part phrase statement then forbidden_determination phrase ∷ rest else rest

module _ (dec : Decimal) (is_digit : ℕ → Bool) where
  -- Whether the claim has supporting evidence of such a type.
  unfoldable pub is_backed_by : (EvidenceType → Bool) → AgentArtifact dec → AgentClaim → Bool
  is_backed_by allowed a c =
      any (λ e. contains e.evidence_id c.supporting_evidence_ids && allowed e.evidence_type)
        a.evidence

  -- A number of money or a ratio that nothing structured stands behind.
  unfoldable pub is_unbacked_number : Bool → AgentArtifact dec → AgentClaim → Bool
  unfolding is_part is_monetary is_structured is_document_span is_backed_by
  is_unbacked_number allow_grounded_document_numeric a c =
      any is_digit c.statement
      && any (λ hint. is_part hint c.statement) numeric_hints
      && is_monetary c.category
      && is_empty c.calculation_ids
      && not (is_backed_by is_structured a c)
      && not (
          allow_grounded_document_numeric
          && is_some a.grounded
          && is_backed_by is_document_span a c)

  unfoldable pub claim_codes : ℕ → Bool → AgentArtifact dec → AgentClaim → List ContractCode
  unfolding is_supported is_insufficient_evidence is_blank when unknown is_unbacked_number forbidden
  claim_codes as_of_date allow_grounded_document_numeric a c =
      let evidence_ids = map (λ e. e.evidence_id) a.evidence in
      let calculation_ids = map (λ k. k.calculation_id) a.calculations in
      when (is_supported c.verdict && is_empty c.supporting_evidence_ids) supported_without_evidence
      ++ unknown unknown_evidence evidence_ids
          (c.supporting_evidence_ids ++ c.opposing_evidence_ids)
      ++ unknown unknown_calculation calculation_ids c.calculation_ids
      ++ when (is_insufficient_evidence c.verdict && is_blank c.uncertainty_reason)
          missing_uncertainty_reason
      ++ when (is_unbacked_number allow_grounded_document_numeric a c) numeric_claim_without_fact
      ++ when (not (c.as_of_date == as_of_date)) as_of_date_mismatch
      ++ forbidden c.statement banned_phrases

  unfoldable pub claims_violations :
      ℕ → Bool → AgentArtifact dec → List AgentClaim → List ContractViolation
  unfolding claim_codes
  claims_violations as_of_date allowed a [] = []
  claims_violations as_of_date allowed a (c ∷ cs) =
      map (λ code. record { claim_id = c.claim_id; code = code })
        (claim_codes as_of_date allowed a c)
      ++ claims_violations as_of_date allowed a cs

  -- The violations of the artifact's claims; it is in order when there are none.
  unfoldable pub validate_artifact_contract : ℕ → Bool → AgentArtifact dec → List ContractViolation
  unfolding claims_violations
  validate_artifact_contract as_of_date allowed a = claims_violations as_of_date allowed a a.claims
