-- ===== src/Cases/Tables.antt =====
-- The tables of credit cases and their material (infrastructure/postgres/models.py), with the columns
-- that the context, the snapshots, the retrieval and the audit read, and TrustedRequestContext
-- (retrieval/contracts.py). Times are normalised to UTC.
use creditlens.Base.{ℕ, Bool, true, false, Option, none, some, List, ◌==◌, find, leb, ltb}
use creditlens.Base.Text.{Text}

pub record CreditCase : Type 0 where
  pub id : ℕ
  pub tenant_id : ℕ
  pub borrower_entity_id : ℕ
  pub product_code : Text
  pub as_of_date : ℕ
  pub decision_cutoff_at : ℕ
  pub version : ℕ

pub record CaseMembership : Type 0 where
  pub case_id : ℕ
  pub user_id : ℕ
  pub revoked_at : Option ℕ

pub record CaseDocument : Type 0 where
  pub case_id : ℕ
  pub document_version_id : ℕ

pub data QualityStatus : Type 0 where
  pass warn blocked : QualityStatus

pub data ActivationStatus : Type 0 where
  candidate active superseded revoked tombstoned : ActivationStatus

pub record DocumentVersion : Type 0 where
  pub id : ℕ
  pub tenant_id : ℕ
  pub document_id : ℕ
  pub valid_from : Option ℕ
  pub valid_to : Option ℕ
  pub source_available_at : ℕ
  pub active_parse_run_id : Option ℕ
  pub quality_status : QualityStatus

pub record ParseRun : Type 0 where
  pub id : ℕ
  pub tenant_id : ℕ
  pub document_version_id : ℕ
  pub activation_status : ActivationStatus

pub record DocumentSection : Type 0 where
  pub id : ℕ
  pub tenant_id : ℕ
  pub document_version_id : ℕ
  pub parse_run_id : ℕ
  pub page_start : ℕ
  pub page_end : ℕ
  pub text : Text
  pub text_hash : Text
  pub quality_status : QualityStatus

pub record FinancialFact : Type 0 where
  pub id : ℕ
  pub tenant_id : ℕ
  pub case_id : Option ℕ
  pub entity_id : ℕ
  pub supersedes_fact_id : Option ℕ
  pub verification_status : Text
  pub source_available_at : ℕ

pub record CaseSnapshot : Type 0 where
  pub id : ℕ
  pub tenant_id : ℕ
  pub case_id : ℕ
  pub case_version : ℕ
  pub as_of_date : ℕ
  pub decision_cutoff_at : ℕ
  pub borrower_entity_id : ℕ
  pub acl_scope_hash : Text
  pub snapshot_hash : Text

pub record SnapshotDocument : Type 0 where
  pub snapshot_id : ℕ
  pub document_version_id : ℕ
  pub parse_run_id : ℕ

pub data IndexFamily : Type 0 where
  chunks summaries : IndexFamily

pub record SnapshotIndex : Type 0 where
  pub snapshot_id : ℕ
  pub index_family : IndexFamily
  pub physical_collection_name : Text

pub record SnapshotFact : Type 0 where
  pub snapshot_id : ℕ
  pub fact_id : ℕ

pub record CaseDb : Type 0 where
  pub cases : List CreditCase
  pub memberships : List CaseMembership
  pub case_documents : List CaseDocument
  pub versions : List DocumentVersion
  pub parse_runs : List ParseRun
  pub sections : List DocumentSection
  pub facts : List FinancialFact
  pub snapshots : List CaseSnapshot
  pub snapshot_documents : List SnapshotDocument
  pub snapshot_indexes : List SnapshotIndex
  pub snapshot_facts : List SnapshotFact

pub record TrustedRequestContext : Type 0 where
  pub request_id : ℕ
  pub tenant_id : ℕ
  pub user_id : Option ℕ
  pub purpose : Text
  pub case_id : Option ℕ
  pub borrower_entity_id : Option ℕ
  pub product_code : Text
  pub as_of_date : ℕ
  pub decision_cutoff_at : ℕ
  pub allowed_document_ids : List ℕ

-- What a run reads of a snapshot.
pub record SnapshotContext : Type 0 where
  pub snapshot_id : ℕ
  pub allowed_parse_run_ids : List ℕ
  pub allowed_fact_ids : List ℕ
  pub chunks_collection : Text
  pub summaries_collection : Text

-- `session.get`, by the primary key.
unfoldable pub get_case : Option ℕ → CaseDb → Option CreditCase
get_case none db = none
get_case (some i) db = find (λ c. c.id == i) db.cases

unfoldable pub get_version : ℕ → CaseDb → Option DocumentVersion
get_version i db = find (λ v. v.id == i) db.versions

unfoldable pub get_parse_run : ℕ → CaseDb → Option ParseRun
get_parse_run i db = find (λ p. p.id == i) db.parse_runs

unfoldable pub get_section : ℕ → CaseDb → Option DocumentSection
get_section i db = find (λ s. s.id == i) db.sections

unfoldable pub get_fact : ℕ → CaseDb → Option FinancialFact
get_fact i db = find (λ f. f.id == i) db.facts

unfoldable pub same_id : Option ℕ → ℕ → Bool
same_id none i = false
same_id (some j) i = j == i

unfoldable pub is_withdrawn : ActivationStatus → Bool
is_withdrawn revoked = true
is_withdrawn tombstoned = true
is_withdrawn _ = false

-- as_of_date ∈ [valid_from, valid_to), where an end that is missing is open.
unfoldable pub is_before_start : ℕ → DocumentVersion → Bool
is_before_start day v = elim v.valid_from [ none ↦ false | some start ↦ ltb day start ]

unfoldable pub is_after_end : ℕ → DocumentVersion → Bool
is_after_end day v = elim v.valid_to [ none ↦ false | some end ↦ leb end day ]
