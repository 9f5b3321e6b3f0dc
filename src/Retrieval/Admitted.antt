-- ===== src/Retrieval/Admitted.antt =====
-- What a candidate that passes the check is.
use creditlens.Base.{
  eq_of, ℕ, ◌≡◌, ◌≤◌, sym, subst, Bool, true, false, Option, none, some, List, ◌&&◌, ◌||◌,
  ltb-false, not-false, some_cancel, contains, arith,
}
use creditlens.Base.Result.{ok, after_check, after_need, ok_cancel}
use creditlens.Base.Text.{text_eq_sound}
use creditlens.Cases.Tables.{
  DocumentSection, DocumentVersion, ParseRun, CaseDb, TrustedRequestContext, SnapshotContext,
  get_section, get_version, get_parse_run, is_withdrawn, is_before_start, is_after_end,
}
use creditlens.Cases.Validity.{IsInForce, in_force}
use creditlens.Retrieval.Packing.{Candidate}
use creditlens.Retrieval.Verifying.{
  out_of_effective_date, Payload, is_quality_blocked, is_foreign_document, is_unfrozen, is_policy,
  verify_candidate,
}

module _ (trusted : TrustedRequestContext) (snapshot : Option SnapshotContext) (db : CaseDb) where
  -- A candidate whose section is on the tables and may be read.
  pub record IsAdmitted (c : Candidate) (payload : Payload) (admitted : Candidate) : Type 0 where
    pub section : DocumentSection
    pub version : DocumentVersion
    pub parse_run : ParseRun
    pub found_section : get_section c.section_id db ≡ some section
    pub found_version : get_version c.document_version_id db ≡ some version
    pub found_parse_run : get_parse_run c.parse_run_id db ≡ some parse_run
    pub same_text : section.text_hash ≡ c.text_hash
    pub own_section : section.tenant_id ≡ trusted.tenant_id
    pub allowed :
        (d : ℕ) → payload.document_id ≡ some d → contains d trusted.allowed_document_ids ≡ true
    pub section_passes : is_quality_blocked section.quality_status ≡ false
    pub version_passes : is_quality_blocked version.quality_status ≡ false
    pub not_withdrawn : is_withdrawn parse_run.activation_status ≡ false
    pub in_snapshot :
        (s : SnapshotContext)
        → snapshot ≡ some s
        → contains c.parse_run_id s.allowed_parse_run_ids ≡ true
    pub available : version.source_available_at ≤ trusted.decision_cutoff_at
    pub policy_in_force :
        is_policy payload.document_type ≡ true → IsInForce trusted.as_of_date version
    pub with_text : admitted ≡ record c { text = section.text }

  frozen_run :
      (run : ℕ) (o : Option SnapshotContext)
      → is_unfrozen run o ≡ false
      → (s : SnapshotContext) → o ≡ some s
      → contains run s.allowed_parse_run_ids ≡ true
  unfolding is_unfrozen
  frozen_run run none h s e = cc
  frozen_run run (some t) h s e =
      subst (λ x. contains run x.allowed_parse_run_ids ≡ true) (some_cancel t s e) (not-false _ h)

  allowed_document :
      (o : Option ℕ) (ids : List ℕ)
      → is_foreign_document o ids ≡ false
      → (d : ℕ) → o ≡ some d
      → contains d ids ≡ true
  unfolding is_foreign_document
  allowed_document none ids h d e = cc
  allowed_document (some i) ids h d e =
      subst (λ x. contains x ids ≡ true) (some_cancel i d e) (not-false _ h)

  neither : (p a b : Bool) → (p && a) ≡ false → (p && b) ≡ false → p ≡ true → (a || b) ≡ false
  neither p a b h k e = ground arith

  -- A candidate that passes has the text of its section: the section is the tenant's, has the hash
  -- of the candidate and is not blocked; a document that the payload names is an allowed one; the
  -- parse run is not withdrawn and stands in the snapshot, where there is one; the version is not
  -- blocked, was available at the cutoff and, if it is a policy, is in force.
  pub verify_candidate-IsAdmitted :
      (c : Candidate) (payload : Payload) (admitted : Candidate)
      → verify_candidate trusted snapshot db c payload ≡ ok admitted
      → IsAdmitted c payload admitted
  unfolding verify_candidate
  verify_candidate-IsAdmitted c payload admitted h =
      let (s, found_s, h1) = after_need _ _ _ admitted h in
      let (same, h2) = after_check _ _ _ admitted h1 in
      let (own, h3) = after_check _ _ _ admitted h2 in
      let (s_passes, h4) = after_check _ _ _ admitted h3 in
      let (of_document, h5) = after_check _ _ _ admitted h4 in
      let (p, found_p, h6) = after_need _ _ _ admitted h5 in
      let (not_withdrawn, h7) = after_check _ _ _ admitted h6 in
      let (is_frozen, h8) = after_check _ _ _ admitted h7 in
      let (v, found_v, h9) = after_need _ _ _ admitted h8 in
      let (v_passes, h10) = after_check _ _ _ admitted h9 in
      let (early, h11) = after_check _ _ _ admitted h10 in
      let (started, h12) =
        after_check (is_policy payload.document_type && is_before_start trusted.as_of_date v)
          out_of_effective_date _ admitted h11 in
      let (not_ended, done) =
        after_check (is_policy payload.document_type && is_after_end trusted.as_of_date v)
          out_of_effective_date _ admitted h12 in
      record {
        section = s;
        version = v;
        parse_run = p;
        found_section = found_s;
        found_version = found_v;
        found_parse_run = found_p;
        same_text = text_eq_sound _ _ (not-false _ same);
        own_section = eq_of _ _ own;
        allowed = allowed_document payload.document_id trusted.allowed_document_ids of_document;
        section_passes = s_passes;
        version_passes = v_passes;
        not_withdrawn = not_withdrawn;
        in_snapshot = frozen_run c.parse_run_id snapshot is_frozen;
        available = ltb-false _ _ early;
        policy_in_force = λ policy. in_force trusted.as_of_date v (
            neither (is_policy payload.document_type) (is_before_start trusted.as_of_date v)
              (is_after_end trusted.as_of_date v) started not_ended policy);
        with_text = sym (ok_cancel _ _ done);
      }
