-- ===== src/Cases/Tests.antt =====
-- A case with one parsed document and three facts: the context that is built, and the snapshot.
use creditlens.Base.{ℕ, ◌≡◌, ◌≢◌, refl, Option, none, some, [], ◌∷◌}
use creditlens.Base.Result.{ok, err}
use creditlens.Base.Text.{Text, codes}
use creditlens.Cases.Tables.{
  CreditCase, FinancialFact, CaseDb, TrustedRequestContext, SnapshotContext, QualityStatus,
  ActivationStatus, chunks, get_case,
}
use creditlens.Cases.Snapshot.{Canonical, freeze_snapshot, load_snapshot_context}
use creditlens.Cases.Frozen.{IsFresh, freeze-load}
use creditlens.Cases.Eligible.{Holds, freeze_snapshot-Holds}
use creditlens.Cases.Trusted.{build_trusted_context, acl_denied}
use creditlens.Cases.Authorised.{IsAuthorised, build_trusted_context-IsAuthorised}

abbrev pub small_case : CreditCase
small_case = record {
  id = 1;
  tenant_id = 5;
  borrower_entity_id = 6;
  product_code = codes "loan";
  as_of_date = 100;
  decision_cutoff_at = 200;
  version = 1;
}

abbrev a_fact : ℕ → Option ℕ → ℕ → FinancialFact
a_fact i supersedes available = record {
  id = i;
  tenant_id = 5;
  case_id = some 1;
  entity_id = 6;
  supersedes_fact_id = supersedes;
  verification_status = codes "UNVERIFIED";
  source_available_at = available;
}

abbrev pub material : CaseDb
material = record {
  cases = small_case ∷ [];
  memberships = record { case_id = 1; user_id = 70; revoked_at = none } ∷ [];
  case_documents = record { case_id = 1; document_version_id = 20 } ∷ [];
  versions =
      record {
        id = 20;
        tenant_id = 5;
        document_id = 2;
        valid_from = some 90;
        valid_to = none;
        source_available_at = 150;
        active_parse_run_id = some 30;
        quality_status = QualityStatus.pass;
      }
      ∷ [];
  parse_runs =
      record {
        id = 30;
        tenant_id = 5;
        document_version_id = 20;
        activation_status = ActivationStatus.active;
      }
      ∷ [];
  sections =
      record {
        id = 40;
        tenant_id = 5;
        document_version_id = 20;
        parse_run_id = 30;
        page_start = 2;
        page_end = 3;
        text = codes "debt 100";
        text_hash = codes "h";
        quality_status = QualityStatus.pass;
      }
      ∷ [];
  facts =
      a_fact 50 none 150 ∷ a_fact 51 none 150 ∷ a_fact 52 (some 51) 150 ∷ a_fact 53 none 201 ∷ [];
  snapshots = [];
  snapshot_documents = record { snapshot_id = 8; document_version_id = 20; parse_run_id = 29 } ∷ [];
  snapshot_indexes = [];
  snapshot_facts = record { snapshot_id = 8; fact_id = 51 } ∷ [];
}

abbrev pub context : TrustedRequestContext
context = record {
  request_id = 9;
  tenant_id = 5;
  user_id = some 70;
  purpose = codes "credit_review";
  case_id = some 1;
  borrower_entity_id = some 6;
  product_code = codes "loan";
  as_of_date = 100;
  decision_cutoff_at = 200;
  allowed_document_ids = 2 ∷ [];
}

abbrev pub frozen : SnapshotContext
frozen = record {
  snapshot_id = 3;
  allowed_parse_run_ids = 30 ∷ [];
  allowed_fact_ids = 50 ∷ 52 ∷ [];
  chunks_collection = codes "chunks";
  summaries_collection = [];
}

abbrev digest : Canonical → Text
digest c = c.acl_scope_hash

build-context : build_trusted_context material 9 5 1 (some 70) (codes "credit_review") ≡ ok context
unfolding build_trusted_context
build-context = refl

revoked-context :
    build_trusted_context material 9 5 1 (some 71) (codes "credit_review") ≡ err acl_denied
unfolding build_trusted_context
revoked-context = refl

abbrev after : CaseDb
after = record material {
  snapshots =
      record {
        id = 3;
        tenant_id = 5;
        case_id = 1;
        case_version = 1;
        as_of_date = 100;
        decision_cutoff_at = 200;
        borrower_entity_id = 6;
        acl_scope_hash = codes "acl";
        snapshot_hash = codes "acl";
      }
      ∷ [];
  snapshot_documents =
      record { snapshot_id = 8; document_version_id = 20; parse_run_id = 29 }
      ∷ record { snapshot_id = 3; document_version_id = 20; parse_run_id = 30 }
      ∷ [];
  snapshot_indexes =
      record { snapshot_id = 3; index_family = chunks; physical_collection_name = codes "chunks" }
      ∷ [];
  snapshot_facts =
      record { snapshot_id = 8; fact_id = 51 }
      ∷ record { snapshot_id = 3; fact_id = 50 }
      ∷ record { snapshot_id = 3; fact_id = 52 }
      ∷ [];
}

freeze-material :
    freeze_snapshot digest 3 context (codes "chunks") none (codes "acl") material
    ≡ ok (frozen, after)
unfolding freeze_snapshot
freeze-material = refl

material-IsFresh : IsFresh 3 material
material-IsFresh = record { no_document = (refl, tt); no_index = tt; no_fact = (refl, tt) }

freeze-load_example :
    (load_snapshot_context after 3 ≡ frozen)
    × ((j : ℕ) → j ≢ 3 → load_snapshot_context after j ≡ load_snapshot_context material j)
freeze-load_example =
    freeze-load digest 3 context (codes "chunks") none (codes "acl") material frozen after
      freeze-material material-IsFresh

freeze_snapshot-Holds_example :
    (case : CreditCase) × (get_case (some 1) material ≡ some case) × Holds case 200 material frozen
freeze_snapshot-Holds_example =
    freeze_snapshot-Holds digest 3 context (codes "chunks") none (codes "acl") material frozen after
      freeze-material

build_trusted_context-IsAuthorised_example : IsAuthorised material 5 1 (some 70) context
build_trusted_context-IsAuthorised_example =
    build_trusted_context-IsAuthorised material 9 5 1 (some 70) (codes "credit_review") context
      build-context
