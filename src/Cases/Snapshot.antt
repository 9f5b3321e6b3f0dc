-- ===== src/Cases/Snapshot.antt =====
-- `freeze_snapshot` and `load_snapshot_context` (application/snapshot_service.py). Rows come in the
-- order of their insertion; the canonical JSON and its SHA-256 are a parameter.
use creditlens.Base.{
  ℕ, Bool, true, false, Option, none, some, List, [], ◌∷◌, ◌++◌, map, ◌&&◌, not, ◌==◌, leb, filter,
  contains, is_empty, if◌then◌else◌,
}
use creditlens.Base.Result.{Result, ok, err}
use creditlens.Base.Text.{Text, codes, text_eq}
use creditlens.Cases.Tables.{
  CreditCase, CaseDocument, DocumentVersion, FinancialFact, CaseSnapshot, SnapshotIndex,
  IndexFamily, chunks, summaries, CaseDb, TrustedRequestContext, SnapshotContext, get_case,
}

-- The two reasons of CaseNotReadyError.
pub data NotReady : Type 0 where
  no_case no_parsed_material : NotReady

-- The versions that are bound to the case, by a join.
unfoldable pub bound_versions : ℕ → List CaseDocument → List DocumentVersion → List DocumentVersion
bound_versions case [] versions = []
bound_versions case (d ∷ ds) versions =
    let rest = bound_versions case ds versions in
    if d.case_id == case then filter (λ v. d.document_version_id == v.id) versions ++ rest else rest

-- Versions that have been parsed, each with its active parse run.
unfoldable pub members_of : List DocumentVersion → List (ℕ × ℕ)
members_of [] = []
members_of (v ∷ vs) = elim v.active_parse_run_id [
  | none ↦ members_of vs
  | some p ↦ (v.id, p) ∷ members_of vs
]

-- The facts that some fact supersedes.
unfoldable pub superseded_ids : List FinancialFact → List ℕ
superseded_ids [] = []
superseded_ids (f ∷ fs) = elim f.supersedes_fact_id [
  | none ↦ superseded_ids fs
  | some i ↦ i ∷ superseded_ids fs
]

unfoldable pub is_shared_or_own : ℕ → Option ℕ → Bool
is_shared_or_own case none = true
is_shared_or_own case (some c) = c == case

unfoldable pub is_eligible : CreditCase → ℕ → List ℕ → FinancialFact → Bool
unfolding is_shared_or_own
is_eligible case cutoff superseded f =
    f.tenant_id == case.tenant_id
    && f.entity_id == case.borrower_entity_id
    && is_shared_or_own case.id f.case_id
    && leb f.source_available_at cutoff
    && not (text_eq f.verification_status (codes "REJECTED"))
    && not (contains f.id superseded)

unfoldable pub eligible_ids : CreditCase → ℕ → List FinancialFact → List ℕ
unfolding is_eligible superseded_ids
eligible_ids case cutoff facts =
    map (λ f. f.id) (filter (is_eligible case cutoff (superseded_ids facts)) facts)

-- `summaries_collection or ""`
unfoldable pub or_empty : Option Text → Text
or_empty none = []
or_empty (some t) = t

-- What the digest of a snapshot is taken of.
pub record Canonical : Type 0 where
  pub case_version : ℕ
  pub members : List (ℕ × ℕ)
  pub facts : List ℕ
  pub collections : List Text
  pub acl_scope_hash : Text
  pub as_of_date : ℕ
  pub decision_cutoff_at : ℕ

module _ (digest : Canonical → Text) (fresh : ℕ) (trusted : TrustedRequestContext)
    (chunks_collection : Text) (summaries_collection : Option Text) (acl_hash : Text) where
  unfoldable pub canonical : CreditCase → List (ℕ × ℕ) → List ℕ → Canonical
  unfolding or_empty
  canonical case members fact_ids = record {
    case_version = case.version;
    members = members;
    facts = fact_ids;
    collections =
        filter (λ t. not (is_empty t)) (chunks_collection ∷ or_empty summaries_collection ∷ []);
    acl_scope_hash = acl_hash;
    as_of_date = trusted.as_of_date;
    decision_cutoff_at = trusted.decision_cutoff_at;
  }

  unfoldable pub snapshot_row : CreditCase → List (ℕ × ℕ) → List ℕ → CaseSnapshot
  unfolding canonical
  snapshot_row case members fact_ids = record {
    id = fresh;
    tenant_id = case.tenant_id;
    case_id = case.id;
    case_version = case.version;
    as_of_date = trusted.as_of_date;
    decision_cutoff_at = trusted.decision_cutoff_at;
    borrower_entity_id = case.borrower_entity_id;
    acl_scope_hash = acl_hash;
    snapshot_hash = digest (canonical case members fact_ids);
  }

  unfoldable pub index_row : IndexFamily → Text → SnapshotIndex
  index_row family name = record {
    snapshot_id = fresh;
    index_family = family;
    physical_collection_name = name;
  }

  unfoldable pub index_rows : List SnapshotIndex
  unfolding index_row or_empty
  index_rows =
      index_row chunks chunks_collection
      ∷ (if is_empty (or_empty summaries_collection)
          then []
          else index_row summaries (or_empty summaries_collection) ∷ [])

  unfoldable pub store_snapshot : CreditCase → List (ℕ × ℕ) → List ℕ → CaseDb → CaseDb
  unfolding snapshot_row index_rows
  store_snapshot case members fact_ids db = record db {
    snapshots = db.snapshots ++ snapshot_row case members fact_ids ∷ [];
    snapshot_documents =
        db.snapshot_documents
        ++ map (λ m. record { snapshot_id = fresh; document_version_id = m.0; parse_run_id = m.1 })
            members;
    snapshot_indexes = db.snapshot_indexes ++ index_rows;
    snapshot_facts =
        db.snapshot_facts ++ map (λ i. record { snapshot_id = fresh; fact_id = i }) fact_ids;
  }

  unfoldable pub frozen_context : List (ℕ × ℕ) → List ℕ → SnapshotContext
  unfolding or_empty
  frozen_context members fact_ids = record {
    snapshot_id = fresh;
    allowed_parse_run_ids = map (λ m. m.1) members;
    allowed_fact_ids = fact_ids;
    chunks_collection = chunks_collection;
    summaries_collection = or_empty summaries_collection;
  }

  unfoldable pub freeze_case :
      CaseDb → Option CreditCase → Result NotReady (SnapshotContext × CaseDb)
  unfolding bound_versions members_of eligible_ids store_snapshot frozen_context
  freeze_case db none = err no_case
  freeze_case db (some case) =
      let members = members_of (bound_versions case.id db.case_documents db.versions) in
      let fact_ids = eligible_ids case trusted.decision_cutoff_at db.facts in
      if is_empty members
      then err no_parsed_material
      else ok (frozen_context members fact_ids, store_snapshot case members fact_ids db)

  unfoldable pub freeze_snapshot : CaseDb → Result NotReady (SnapshotContext × CaseDb)
  unfolding freeze_case get_case
  freeze_snapshot db = freeze_case db (get_case trusted.case_id db)

unfoldable pub is_same_family : IndexFamily → IndexFamily → Bool
is_same_family chunks chunks = true
is_same_family summaries summaries = true
is_same_family _ _ = false

-- `by_family.get(family, "")`, of a dict in which the last row counts.
unfoldable pub collection_of : IndexFamily → List SnapshotIndex → Text → Text
unfolding is_same_family
collection_of family [] found = found
collection_of family (x ∷ xs) found =
    collection_of family xs
      (if is_same_family x.index_family family then x.physical_collection_name else found)

unfoldable pub load_snapshot_context : CaseDb → ℕ → SnapshotContext
unfolding collection_of
load_snapshot_context db i =
    let indexes = filter (λ x. x.snapshot_id == i) db.snapshot_indexes in
    record {
      snapshot_id = i;
      allowed_parse_run_ids =
          map (λ d. d.parse_run_id) (filter (λ d. d.snapshot_id == i) db.snapshot_documents);
      allowed_fact_ids = map (λ f. f.fact_id) (filter (λ f. f.snapshot_id == i) db.snapshot_facts);
      chunks_collection = collection_of chunks indexes [];
      summaries_collection = collection_of summaries indexes [];
    }
