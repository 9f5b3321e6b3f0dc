-- ===== src/Audit/Cited.antt =====
-- What evidence that passes every check is.
use creditlens.Base.{
  ℕ, ◌≡◌, ◌≤◌, ◌≢◌, refl, ap, Bool, true, false, Option, none, some, List, [], ◌∷◌, ◌++◌, ◌&&◌, not,
  ◌==◌, ==_iff, contains, is_empty, is_some, find-Exists, Exists, Exists-imp, not-false, &&_true,
}
use creditlens.Base.Text.{Text, codes}
use creditlens.Formulas.Decimal.{Decimal}
use creditlens.Formulas.Engine.{CalculationArtifact}
use creditlens.Cases.Tables.{
  CreditCase, DocumentVersion, ParseRun, DocumentSection, FinancialFact, CaseDb,
  TrustedRequestContext, SnapshotContext, get_version, get_parse_run, get_section, get_fact,
  same_id, is_withdrawn,
}
use creditlens.Cases.Validity.{IsInForce}
use creditlens.Audit.Artifacts.{AgentEvidenceRef}
use creditlens.Audit.Contract.{when}
use creditlens.Audit.Evidence.{
  frozen_fact_codes, is_bound, frozen_run_codes, missing_field, locator,
}

pub when_nil {ℓ} : {A : Type ℓ} (b : Bool) (a : A) → when b a ≡ [] → b ≡ false
unfolding when
when_nil true a h = cc
when_nil false a h = refl

pub same_id-eq : (o : Option ℕ) (i : ℕ) → same_id o i ≡ true → o ≡ some i
unfolding same_id
same_id-eq none i h = cc
same_id-eq (some j) i h = ap some ((==_iff j i).0 h)

-- The citation of a section: of its text, on one of its pages, from a version that is in force, was
-- available at the cutoff and is bound to the case, as a parse run of the snapshot has read it.
pub record IsCitation (trusted : TrustedRequestContext) (snapshot : Option SnapshotContext)
    (db : CaseDb) (e : AgentEvidenceRef) : Type 0 where
  pub section : DocumentSection
  pub version : DocumentVersion
  pub parse_run : ParseRun
  pub frozen : SnapshotContext
  pub page : ℕ
  pub of_section : e.section_id ≡ some section.id
  pub of_version : e.document_version_id ≡ some version.id
  pub of_parse_run : e.parse_run_id ≡ some parse_run.id
  pub of_page : e.page_number ≡ some page
  pub of_source : e.source_id ≡ section.id
  pub found_section : get_section section.id db ≡ some section
  pub found_version : get_version version.id db ≡ some version
  pub found_parse_run : get_parse_run parse_run.id db ≡ some parse_run
  pub same_text : section.text_hash ≡ e.content_hash
  pub first_page : section.page_start ≤ page
  pub last_page : page ≤ section.page_end
  pub section_of_version : section.document_version_id ≡ version.id
  pub section_of_parse_run : section.parse_run_id ≡ parse_run.id
  pub parse_run_of_version : parse_run.document_version_id ≡ version.id
  pub own_section : section.tenant_id ≡ trusted.tenant_id
  pub own_version : version.tenant_id ≡ trusted.tenant_id
  pub own_parse_run : parse_run.tenant_id ≡ trusted.tenant_id
  pub in_force : IsInForce trusted.as_of_date version
  pub available : version.source_available_at ≤ trusted.decision_cutoff_at
  pub bound :
      Exists
        (λ d. (trusted.case_id ≡ some d.case_id) × (d.document_version_id ≡ version.id))
        db.case_documents
  pub not_withdrawn : is_withdrawn parse_run.activation_status ≡ false
  pub is_frozen : snapshot ≡ some frozen
  pub in_snapshot : contains parse_run.id frozen.allowed_parse_run_ids ≡ true

-- A fact about the case's borrower, of this case or of none, that was available at the cutoff, is
-- not rejected and stands in the snapshot.
pub record IsFactReference (trusted : TrustedRequestContext) (snapshot : Option SnapshotContext)
    (db : CaseDb) (case : CreditCase) (e : AgentEvidenceRef) : Type 0 where
  pub fact : FinancialFact
  pub frozen : SnapshotContext
  pub of_fact : e.fact_id ≡ some fact.id
  pub of_source : e.source_id ≡ fact.id
  pub found_fact : get_fact fact.id db ≡ some fact
  pub own_fact : fact.tenant_id ≡ trusted.tenant_id
  pub of_case : (c : ℕ) → fact.case_id ≡ some c → trusted.case_id ≡ some c
  pub of_borrower : fact.entity_id ≡ case.borrower_entity_id
  pub available : fact.source_available_at ≤ trusted.decision_cutoff_at
  pub not_rejected : fact.verification_status ≢ codes "REJECTED"
  pub is_frozen : snapshot ≡ some frozen
  pub in_snapshot : contains fact.id frozen.allowed_fact_ids ≡ true

-- A calculation of the same artifact, under its trace hash, that replays.
pub record IsCalculationReference (dec : Decimal) (calculations : List (CalculationArtifact dec))
    (replay_failed : List ℕ) (e : AgentEvidenceRef) : Type 0 where
  pub calculated : CalculationArtifact dec
  pub of_calculation : e.calculation_id ≡ some calculated.calculation_id
  pub of_source : e.source_id ≡ calculated.calculation_id
  pub listed : Exists (λ k. k ≡ calculated) calculations
  pub same_trace : e.content_hash ≡ calculated.trace_hash
  pub replays : contains calculated.calculation_id replay_failed ≡ false

pub bound-Exists :
    (trusted : TrustedRequestContext) (snapshot : Option SnapshotContext) (db : CaseDb)
    (version : ℕ)
    → not (is_bound trusted snapshot db version) ≡ false
    → Exists
        (λ d. (trusted.case_id ≡ some d.case_id) × (d.document_version_id ≡ version))
        db.case_documents
unfolding is_bound
bound-Exists trusted snapshot db version h =
    Exists-imp (λ d. (same_id trusted.case_id d.case_id && d.document_version_id == version) ≡ true)
      (λ d. (trusted.case_id ≡ some d.case_id) × (d.document_version_id ≡ version))
      db.case_documents
      (λ d e.
        let both =
          &&_true (same_id trusted.case_id d.case_id) (d.document_version_id == version) e in
        (same_id-eq trusted.case_id d.case_id both.0, (==_iff _ _).0 both.1))
      (find-Exists _ db.case_documents (not-false _ h))

-- A locator with every field.
pub located-parts :
    (a b c d : Option ℕ) (t : Text) (trusted : TrustedRequestContext)
    (snapshot : Option SnapshotContext) (db : CaseDb) (f : ℕ → ℕ → ℕ → ℕ → List Text)
    → (elim (locator trusted snapshot db a b c d t) [
      | none ↦
          missing_field trusted snapshot db (not (is_some a)) (codes "section_id")
          ++ missing_field trusted snapshot db (not (is_some b)) (codes "document_version_id")
          ++ missing_field trusted snapshot db (not (is_some c)) (codes "parse_run_id")
          ++ missing_field trusted snapshot db (not (is_some d)) (codes "page_number")
          ++ missing_field trusted snapshot db (is_empty t) (codes "content_hash")
      | some l ↦ f l.0 l.1 l.2 l.3
    ])
      ≡ []
    → (s : ℕ) × (v : ℕ) × (p : ℕ) × (g : ℕ) × (a ≡ some s)
      × (b ≡ some v)
      × (c ≡ some p)
      × (d ≡ some g)
      × (f s v p g ≡ [])
unfolding locator missing_field when
located-parts none b c d t trusted snapshot db f h = cc
located-parts (some s) none c d t trusted snapshot db f h = cc
located-parts (some s) (some v) none d t trusted snapshot db f h = cc
located-parts (some s) (some v) (some p) none t trusted snapshot db f h = cc
located-parts (some s) (some v) (some p) (some g) [] trusted snapshot db f h = cc
located-parts (some s) (some v) (some p) (some g) (x ∷ xs) trusted snapshot db f h =
    (s, v, p, g, refl, refl, refl, refl, h)

pub frozen_run-parts :
    (trusted : TrustedRequestContext) (snapshot : Option SnapshotContext) (db : CaseDb) (i : ℕ)
    → frozen_run_codes trusted snapshot db i ≡ []
    → (s : SnapshotContext) × (snapshot ≡ some s) × (contains i s.allowed_parse_run_ids ≡ true)
unfolding frozen_run_codes
frozen_run-parts trusted none db i h = cc
frozen_run-parts trusted (some s) db i h = (s, refl, not-false _ (when_nil _ _ h))

pub frozen_fact-parts :
    (trusted : TrustedRequestContext) (snapshot : Option SnapshotContext) (db : CaseDb)
    (case : CreditCase) (i : ℕ)
    → frozen_fact_codes trusted snapshot db case i ≡ []
    → (s : SnapshotContext) × (snapshot ≡ some s) × (contains i s.allowed_fact_ids ≡ true)
unfolding frozen_fact_codes
frozen_fact-parts trusted none db case i h = cc
frozen_fact-parts trusted (some s) db case i h = (s, refl, not-false _ (when_nil _ _ h))
