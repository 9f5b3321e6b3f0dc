-- ===== src/Retrieval/Readable.antt =====
-- Packing with the check of the tables: what a prompt may read.
use creditlens.Base.{
  ℕ, ◌≡◌, ◌≤◌, refl, sym, ap, ◌∙◌, Bool, true, false, Option, some, List, All, All-imp, contains,
}
use creditlens.Base.Result.{Result, ok, err}
use creditlens.Cases.Tables.{
  DocumentSection, DocumentVersion, CaseDb, TrustedRequestContext, SnapshotContext, get_section,
  get_version,
}
use creditlens.Retrieval.Packing.{Candidate, PackedSection, Library, packed_candidate}
use creditlens.Retrieval.Expanding.{pack_context, expanded_section, expansion_candidate}
use creditlens.Retrieval.Verifying.{Refusal, Payload, verify_candidate}
use creditlens.Retrieval.Admitted.{verify_candidate-IsAdmitted}
use creditlens.Retrieval.Access.{pack_context-All}

module _ (trusted : TrustedRequestContext) (snapshot : Option SnapshotContext) (db : CaseDb)
    (payload_of : Candidate → Payload) where
  unfoldable is_returned : Result Refusal Candidate → Bool
  is_returned (ok c) = true
  is_returned (err e) = false

  -- The check as packing takes it: the payload of a sibling is made from its document.
  unfoldable pub passes : Candidate → Bool
  unfolding is_returned
  passes c = is_returned (verify_candidate trusted snapshot db c (payload_of c))

  -- The section is the tenant's, has the hash of what was packed, and its version was available at
  -- the cutoff; its parse run stands in the snapshot, where there is one.
  pub record IsReadable (s : PackedSection) : Type 0 where
    pub section : DocumentSection
    pub version : DocumentVersion
    pub found_section : get_section s.section_id db ≡ some section
    pub found_version : get_version s.document_version_id db ≡ some version
    pub same_text : section.text_hash ≡ s.text_hash
    pub own : section.tenant_id ≡ trusted.tenant_id
    pub available : version.source_available_at ≤ trusted.decision_cutoff_at
    pub in_snapshot :
        (f : SnapshotContext)
        → snapshot ≡ some f
        → contains s.parse_run_id f.allowed_parse_run_ids ≡ true

  -- The candidate as the check returned it.
  abbrev pub IsVerified : Candidate → Type 0
  IsVerified c =
      (found : Candidate) × (payload : Payload) × (verify_candidate trusted snapshot db found
          payload
        ≡ ok c)

  verified-IsReadable :
      (found : Candidate) (payload : Payload) (c : Candidate) (s : PackedSection)
      → verify_candidate trusted snapshot db found payload ≡ ok c
      → found.section_id ≡ s.section_id
      → found.document_version_id ≡ s.document_version_id
      → found.parse_run_id ≡ s.parse_run_id
      → found.text_hash ≡ s.text_hash
      → IsReadable s
  verified-IsReadable found payload c s h same_section same_version same_run same_hash =
      let a = verify_candidate-IsAdmitted trusted snapshot db found payload c h in
      record {
        section = a.section;
        version = a.version;
        found_section = ap (λ i. get_section i db) (sym same_section) ∙ a.found_section;
        found_version = ap (λ i. get_version i db) (sym same_version) ∙ a.found_version;
        same_text = a.same_text ∙ same_hash;
        own = a.own_section;
        available = a.available;
        in_snapshot =
            λ f e. ap (λ i. contains i f.allowed_parse_run_ids) (sym same_run) ∙ a.in_snapshot f e;
      }

  candidate-IsReadable : (c : Candidate) → IsVerified c → IsReadable (packed_candidate c)
  unfolding packed_candidate
  candidate-IsReadable c (found, payload, h) =
      let a = verify_candidate-IsAdmitted trusted snapshot db found payload c h in
      verified-IsReadable found payload c (packed_candidate c) h
        (sym (ap (λ x. x.section_id) a.with_text))
        (sym (ap (λ x. x.document_version_id) a.with_text))
        (sym (ap (λ x. x.parse_run_id) a.with_text)) (sym (ap (λ x. x.text_hash) a.with_text))

  returned-Σ : (r : Result Refusal Candidate) → is_returned r ≡ true → (c : Candidate) × (r ≡ ok c)
  unfolding is_returned
  returned-Σ (ok c) h = (c, refl)
  returned-Σ (err e) h = cc

  -- Every section of a packed context is readable, if the candidates are as the check returned them
  -- and the expansion uses the check: the section of its identifier is on the table, is the tenant's
  -- and has the hash of what was packed, the version was available at the cutoff, and the parse run
  -- stands in the snapshot, where there is one.
  pub pack_context-IsReadable :
      (token_budget doc_budget : ℕ) (lib : Library) (expand_adjacent : Bool)
      (candidates : List Candidate)
      → All IsVerified candidates
      → All IsReadable
          (pack_context passes token_budget doc_budget lib expand_adjacent candidates).sections
  unfolding expanded_section expansion_candidate passes
  pack_context-IsReadable token_budget doc_budget lib expand_adjacent candidates h =
      pack_context-All IsReadable passes token_budget doc_budget lib
        (λ rank v s passed.
          let c = expansion_candidate rank v s in
          let (admitted, ran) =
            returned-Σ (verify_candidate trusted snapshot db c (payload_of c)) passed in
          verified-IsReadable c (payload_of c) admitted (expanded_section rank v s) ran refl refl
            refl refl)
        expand_adjacent candidates
        (All-imp IsVerified (λ c. IsReadable (packed_candidate c)) candidates candidate-IsReadable
          h)
