-- ===== src/Retrieval/Verifying.antt =====
-- `verify_candidate` (retrieval/dense.py): the check of a retrieved section against the tables.
use creditlens.Base.{
  ℕ, Bool, true, false, Option, none, some, List, ◌&&◌, ◌||◌, not, ◌==◌, ltb, contains,
}
use creditlens.Base.Result.{Result, ok, ◌>>=◌, ◌>>◌, raise_if, need}
use creditlens.Base.Text.{Text, codes, text_eq}
use creditlens.Cases.Tables.{
  CaseDb, TrustedRequestContext, SnapshotContext, QualityStatus, blocked, get_section, get_version,
  get_parse_run, is_withdrawn, is_before_start, is_after_end,
}
use creditlens.Retrieval.Packing.{Candidate}

pub data Refusal : Type 0 where
  stale_index acl_denied quality_blocked parse_run_not_in_snapshot not_available_at_cutoff
        out_of_effective_date :
      Refusal

-- What the index stored beside the vector.
pub record Payload : Type 0 where
  pub document_id : Option ℕ
  pub document_type : Option Text

unfoldable pub is_quality_blocked : QualityStatus → Bool
is_quality_blocked blocked = true
is_quality_blocked _ = false

unfoldable pub is_foreign_document : Option ℕ → List ℕ → Bool
is_foreign_document none allowed = false
is_foreign_document (some d) allowed = not (contains d allowed)

unfoldable pub is_unfrozen : ℕ → Option SnapshotContext → Bool
is_unfrozen run none = false
is_unfrozen run (some s) = not (contains run s.allowed_parse_run_ids)

unfoldable pub is_policy : Option Text → Bool
is_policy none = false
is_policy (some t) = text_eq t (codes "REGULATION") || text_eq t (codes "INTERNAL_POLICY")

module _ (trusted : TrustedRequestContext) (snapshot : Option SnapshotContext) (db : CaseDb) where
  -- The reason of a refusal, or the candidate with the text of its section.
  unfoldable pub verify_candidate : Candidate → Payload → Result Refusal Candidate
  unfolding is_quality_blocked is_foreign_document is_unfrozen is_policy get_section get_version
      get_parse_run is_withdrawn is_before_start is_after_end
  verify_candidate c payload = do
    section ← need stale_index (get_section c.section_id db)
    raise_if (not (text_eq section.text_hash c.text_hash)) stale_index
    raise_if (not (section.tenant_id == trusted.tenant_id)) acl_denied
    raise_if (is_quality_blocked section.quality_status) quality_blocked
    raise_if (is_foreign_document payload.document_id trusted.allowed_document_ids) acl_denied
    parse_run ← need parse_run_not_in_snapshot (get_parse_run c.parse_run_id db)
    raise_if (is_withdrawn parse_run.activation_status) parse_run_not_in_snapshot
    raise_if (is_unfrozen c.parse_run_id snapshot) parse_run_not_in_snapshot
    version ← need stale_index (get_version c.document_version_id db)
    raise_if (is_quality_blocked version.quality_status) quality_blocked
    raise_if (ltb trusted.decision_cutoff_at version.source_available_at) not_available_at_cutoff
    raise_if (is_policy payload.document_type && is_before_start trusted.as_of_date version)
        out_of_effective_date
    raise_if (is_policy payload.document_type && is_after_end trusted.as_of_date version)
        out_of_effective_date
    ok (record c { text = section.text })
