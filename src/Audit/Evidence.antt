-- ===== src/Audit/Evidence.antt =====
-- The checks of a piece of evidence in `EvidenceAuditor.verify` (agents/auditor.py), in the order of
-- the code: the codes that `_reject_evidence` is called with.
use creditlens.Base.{
  ℕ, Bool, false, Option, none, some, List, [], ◌∷◌, ◌++◌, ◌&&◌, ◌||◌, not, ◌==◌, leb, ltb,
  if◌then◌else◌, contains, is_empty, is_some, find,
}
use creditlens.Base.Text.{Text, codes, text_eq}
use creditlens.Formulas.Decimal.{Decimal}
use creditlens.Formulas.Engine.{CalculationArtifact}
use creditlens.Cases.Tables.{
  CreditCase, DocumentVersion, ParseRun, DocumentSection, FinancialFact, CaseDb,
  TrustedRequestContext, SnapshotContext, get_version, get_parse_run, get_section, get_fact,
  same_id, is_withdrawn, is_before_start, is_after_end,
}
use creditlens.Audit.Artifacts.{
  EvidenceType, document_span, table_cell, sql_fact, calculation, policy_rule, AgentEvidenceRef,
}
use creditlens.Audit.Contract.{when}

module _ (dec : Decimal) where
  -- The dict of calculations by their identifiers, of which the last one counts.
  unfoldable pub calculation_by_id :
      ℕ → List (CalculationArtifact dec) → Option (CalculationArtifact dec)
  calculation_by_id i [] = none
  calculation_by_id i (k ∷ ks) = elim (calculation_by_id i ks) [
    | some later ↦ some later
    | none ↦ if k.calculation_id == i then some k else none
  ]

  unfoldable pub found_calculation_codes :
      Option (CalculationArtifact dec) → List ℕ → AgentEvidenceRef → List Text
  unfolding when
  found_calculation_codes none replay_failed e = codes "CALCULATION_NOT_FOUND" ∷ []
  found_calculation_codes (some k) replay_failed e =
      when (not (text_eq e.content_hash k.trace_hash)) (codes "CALCULATION_CONTENT_HASH_MISMATCH")
      ++ when (contains k.calculation_id replay_failed) (codes "CALCULATION_REPLAY_FAILED")

  unfoldable pub calculation_codes :
      List (CalculationArtifact dec) → List ℕ → AgentEvidenceRef → List Text
  unfolding calculation_by_id found_calculation_codes when
  calculation_codes calculations replay_failed e = elim e.calculation_id [
    | none ↦ codes "MISSING_CALCULATION_ID" ∷ []
    | some i ↦
        when (not (e.source_id == i)) (codes "CALCULATION_SOURCE_MISMATCH")
        ++ found_calculation_codes (calculation_by_id i calculations) replay_failed e
  ]

-- A fact of another case, where it belongs to a case.
unfoldable pub is_other_case : Option ℕ → Option ℕ → Bool
unfolding same_id
is_other_case none here = false
is_other_case (some c) here = not (same_id here c)

module _ (trusted : TrustedRequestContext) (snapshot : Option SnapshotContext) (db : CaseDb) where
  module _ (case : CreditCase) where
    unfoldable pub found_fact_codes : Option FinancialFact → List Text
    unfolding is_other_case when
    found_fact_codes none = codes "FACT_NOT_FOUND" ∷ []
    found_fact_codes (some f) =
        when (not (f.tenant_id == trusted.tenant_id)) (codes "ACL_DENIED")
        ++ when (is_other_case f.case_id trusted.case_id) (codes "FACT_CASE_MISMATCH")
        ++ when (not (f.entity_id == case.borrower_entity_id)) (codes "FACT_ENTITY_MISMATCH")
        ++ when (ltb trusted.decision_cutoff_at f.source_available_at)
            (codes "FACT_NOT_AVAILABLE_AT_CUTOFF")
        ++ when (text_eq f.verification_status (codes "REJECTED")) (codes "FACT_REJECTED")

    unfoldable pub frozen_fact_codes : ℕ → List Text
    unfolding when
    frozen_fact_codes i = elim snapshot [
      | none ↦ codes "SNAPSHOT_REQUIRED" ∷ []
      | some s ↦ when (not (contains i s.allowed_fact_ids)) (codes "FACT_NOT_IN_SNAPSHOT")
    ]

    unfoldable pub fact_codes : AgentEvidenceRef → List Text
    unfolding found_fact_codes frozen_fact_codes get_fact when
    fact_codes e = elim e.fact_id [
      | none ↦ codes "MISSING_FACT_ID" ∷ []
      | some i ↦
          when (not (e.source_id == i)) (codes "FACT_SOURCE_MISMATCH")
          ++ found_fact_codes (get_fact i db)
          ++ frozen_fact_codes i
    ]

  unfoldable pub is_bound : ℕ → Bool
  unfolding same_id
  is_bound version = is_some (
      find (λ d. same_id trusted.case_id d.case_id && d.document_version_id == version)
        db.case_documents)

  unfoldable pub section_codes : ℕ → ℕ → ℕ → DocumentSection → AgentEvidenceRef → List Text
  unfolding when
  section_codes version parse_run page s e =
      when (not (text_eq s.text_hash e.content_hash)) (codes "CONTENT_HASH_MISMATCH")
      ++ when (not (s.tenant_id == trusted.tenant_id)) (codes "ACL_DENIED")
      ++ when (not (e.source_id == s.id)) (codes "SOURCE_SECTION_MISMATCH")
      ++ when (not (version == s.document_version_id)) (codes "DOCUMENT_VERSION_MISMATCH")
      ++ when (not (parse_run == s.parse_run_id)) (codes "PARSE_RUN_MISMATCH")
      ++ when (not (leb s.page_start page && leb page s.page_end)) (codes "PAGE_OUTSIDE_SECTION")

  unfoldable pub version_codes : Option DocumentVersion → List Text
  unfolding is_before_start is_after_end is_bound when
  version_codes none = codes "DOCUMENT_VERSION_NOT_FOUND" ∷ []
  version_codes (some v) =
      when (not (v.tenant_id == trusted.tenant_id)) (codes "ACL_DENIED")
      ++ when (is_before_start trusted.as_of_date v || is_after_end trusted.as_of_date v)
          (codes "OUT_OF_EFFECTIVE_DATE")
      ++ when (ltb trusted.decision_cutoff_at v.source_available_at)
          (codes "NOT_AVAILABLE_AT_CUTOFF")
      ++ when (not (is_bound v.id)) (codes "DOCUMENT_NOT_BOUND_TO_CASE")

  unfoldable pub parse_run_codes : ℕ → Option ParseRun → List Text
  unfolding is_withdrawn when
  parse_run_codes version none = codes "PARSE_RUN_NOT_FOUND" ∷ []
  parse_run_codes version (some p) =
      when (not (p.tenant_id == trusted.tenant_id)) (codes "ACL_DENIED")
      ++ when (not (p.document_version_id == version)) (codes "PARSE_RUN_VERSION_MISMATCH")
      ++ when (is_withdrawn p.activation_status) (codes "PARSE_RUN_REVOKED")

  unfoldable pub frozen_run_codes : ℕ → List Text
  unfolding when
  frozen_run_codes i = elim snapshot [
    | none ↦ codes "SNAPSHOT_REQUIRED" ∷ []
    | some s ↦ when (not (contains i s.allowed_parse_run_ids)) (codes "PARSE_RUN_NOT_IN_SNAPSHOT")
  ]

  -- The checks of a citation whose locator is complete.
  unfoldable pub located_codes : Option DocumentSection → ℕ → ℕ → ℕ → AgentEvidenceRef → List Text
  unfolding section_codes version_codes parse_run_codes frozen_run_codes get_version get_parse_run
  located_codes none version parse_run page e = codes "SECTION_NOT_FOUND" ∷ []
  located_codes (some s) version parse_run page e =
      section_codes version parse_run page s e
      ++ version_codes (get_version version db)
      ++ parse_run_codes version (get_parse_run parse_run db)
      ++ frozen_run_codes parse_run

  unfoldable pub missing_field : Bool → Text → List Text
  unfolding when
  missing_field is_missing field = when is_missing (codes "MISSING_DOCUMENT_LOCATOR:" ++ field)

  -- The fields of the locator that are missing.
  unfoldable pub missing_codes : AgentEvidenceRef → List Text
  unfolding missing_field
  missing_codes e =
      missing_field (not (is_some e.section_id)) (codes "section_id")
      ++ missing_field (not (is_some e.document_version_id)) (codes "document_version_id")
      ++ missing_field (not (is_some e.parse_run_id)) (codes "parse_run_id")
      ++ missing_field (not (is_some e.page_number)) (codes "page_number")
      ++ missing_field (is_empty e.content_hash) (codes "content_hash")

  -- The locator, where nothing is missing.
  unfoldable pub locator : Option ℕ → Option ℕ → Option ℕ → Option ℕ → Text → Option (ℕ × ℕ × ℕ × ℕ)
  locator (some section) (some version) (some parse_run) (some page) (c ∷ cs) =
      some (section, version, parse_run, page)
  locator _ _ _ _ _ = none

  unfoldable pub document_codes : AgentEvidenceRef → List Text
  unfolding locator located_codes missing_codes get_section
  document_codes e =
      elim (locator e.section_id e.document_version_id e.parse_run_id e.page_number
        e.content_hash) [
          | none ↦ missing_codes e
          | some l ↦ located_codes (get_section l.0 db) l.1 l.2 l.3 e
        ]

unfoldable pub has_document_locator : AgentEvidenceRef → Bool
has_document_locator e =
    is_some e.section_id
    || is_some e.document_version_id
    || is_some e.parse_run_id
    || is_some e.page_number

module _ (dec : Decimal) (trusted : TrustedRequestContext) (snapshot : Option SnapshotContext)
    (db : CaseDb) (case : CreditCase) where
  unfoldable pub codes_of_type :
      EvidenceType → List (CalculationArtifact dec) → List ℕ → AgentEvidenceRef → List Text
  unfolding calculation_codes fact_codes document_codes has_document_locator
  codes_of_type calculation calculations replay_failed e =
      calculation_codes dec calculations replay_failed e
  codes_of_type sql_fact calculations replay_failed e = fact_codes trusted snapshot db case e
  codes_of_type document_span calculations replay_failed e = document_codes trusted snapshot db e
  codes_of_type table_cell calculations replay_failed e =
      if has_document_locator e
      then document_codes trusted snapshot db e
      else codes "MISSING_TABLE_CELL_LOCATOR" ∷ []
  codes_of_type policy_rule calculations replay_failed e = []

  -- The body of the loop over the evidence of an artifact, with its calculations.
  unfoldable pub evidence_codes :
      List (CalculationArtifact dec) → List ℕ → AgentEvidenceRef → List Text
  unfolding codes_of_type
  evidence_codes calculations replay_failed e =
      codes_of_type e.evidence_type calculations replay_failed e
