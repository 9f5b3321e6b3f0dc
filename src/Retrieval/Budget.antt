-- ===== src/Retrieval/Budget.antt =====
-- What a packed context keeps to: the token budget, each document's quota, and one section per text.
use creditlens.Base.{
  ℕ, ◌+◌, ◌≤◌, ◌≡◌, refl, subst, if-cases, ltb-false, Bool, true, false, Option, none, some, List,
  [], ◌∷◌, map, ◌&&◌, not, ◌==◌, ltb, if◌then◌else◌, All, All-find,
}
use creditlens.Retrieval.Packing.{
  Candidate, PackedSection, PackedContext, DocumentVersion, DocumentSection, Library, Packing,
  estimate_tokens, empty_packing, usage, is_seen, add_section, drop_section, pack_candidates,
}
use creditlens.Retrieval.Expanding.{
  Expansion, expansions, expanded_section, expansion_candidate, has_document, count_expanded,
  find_version, pack_found, pack_version, pack_expansion, pack_expansions, expand, pack_context,
}
use creditlens.Retrieval.Totals.{total_of, document_total, is_distinct, IsMeasured}
use creditlens.Retrieval.Within.{
  IsWithin, drop_section-IsWithin, add_section-IsWithin, count_expanded-IsWithin, empty-IsWithin,
  pack_candidates-IsWithin,
}

-- The limits of a packed context.
pub record IsWithinLimits (token_budget doc_budget : ℕ) (c : PackedContext) : Type 0 where
  pub fits : c.total_tokens_est ≤ token_budget
  pub total : c.total_tokens_est ≡ total_of c.sections
  pub quota : (d : ℕ) → document_total d c.sections ≤ doc_budget
  pub distinct : is_distinct (map (λ s. s.text_hash) c.sections) ≡ true
  pub measured : All IsMeasured c.sections

module _ (verify_candidate : Candidate → Bool) (token_budget doc_budget : ℕ) (lib : Library)
    (documents : All (λ v. has_document v.document_id lib ≡ true) lib.versions) where
  abbrev V : Packing → Type 0
  V p = IsWithin token_budget doc_budget p

  pack_version-IsWithin :
      (rank : ℕ) (s : DocumentSection) (v : DocumentVersion) (p : Packing)
      → has_document v.document_id lib ≡ true
      → p.total_tokens + estimate_tokens s.text ≤ token_budget
      → V p
      → V (pack_version verify_candidate token_budget doc_budget lib rank s v p)
  unfolding pack_version expanded_section
  pack_version-IsWithin rank s v p known fits h =
      let q : PackedSection = expanded_section rank v s in
      let kept : Packing = count_expanded (add_section q p) in
      let over_quota : Bool = ltb doc_budget (usage v.document_id p.doc_usage + q.tokens_est) in
      let fresh : Packing = if is_seen s.text_hash p.seen_hashes then p else kept in
      let refused : Bool = not (verify_candidate (expansion_candidate rank v s)) in
      let checked : Packing = if refused then drop_section s.id p else fresh in
      if-cases V (has_document v.document_id lib && over_quota) p checked (λ _. h)
        λ quota.
          if-cases V refused (drop_section s.id p) fresh
            (λ _. drop_section-IsWithin token_budget doc_budget s.id p h)
            λ _.
              if-cases V (is_seen s.text_hash p.seen_hashes) p kept (λ _. h)
                λ new. count_expanded-IsWithin token_budget doc_budget (add_section q p) (
                  add_section-IsWithin token_budget doc_budget q p refl new fits
                    (ltb-false doc_budget _ (subst (λ b. (b && over_quota) ≡ false) known quota)) h)

  pack_found-IsWithin :
      (rank : ℕ) (s : DocumentSection) (found : Option DocumentVersion) (p : Packing)
      → ((v : DocumentVersion) → found ≡ some v → has_document v.document_id lib ≡ true)
      → p.total_tokens + estimate_tokens s.text ≤ token_budget
      → V p
      → V (pack_found verify_candidate token_budget doc_budget lib rank s found p)
  unfolding pack_found
  pack_found-IsWithin rank s none p known fits h = h
  pack_found-IsWithin rank s (some v) p known fits h =
      pack_version-IsWithin rank s v p (known v refl) fits h

  pack_expansion-IsWithin :
      (e : Expansion) (p : Packing)
      → V p
      → V (pack_expansion verify_candidate token_budget doc_budget lib e p)
  unfolding pack_expansion find_version
  pack_expansion-IsWithin e p h =
      let over_budget : Bool = ltb token_budget (p.total_tokens + estimate_tokens e.1.text) in
      let found : Option DocumentVersion = find_version e.1.document_version_id lib in
      if-cases V over_budget p
        (pack_found verify_candidate token_budget doc_budget lib e.0 e.1 found p) (λ _. h)
        λ fits.
          pack_found-IsWithin e.0 e.1 found p
            (λ v k.
              All-find (λ v. has_document v.document_id lib ≡ true)
                (λ v. v.id == e.1.document_version_id) lib.versions v documents k)
            (ltb-false token_budget _ fits) h

  pack_expansions-IsWithin :
      (es : List Expansion) (p : Packing)
      → V p
      → V (pack_expansions verify_candidate token_budget doc_budget lib es p)
  unfolding pack_expansions
  pack_expansions-IsWithin [] p h = h
  pack_expansions-IsWithin (e ∷ es) p h =
      pack_expansions-IsWithin es (pack_expansion verify_candidate token_budget doc_budget lib e p)
        (pack_expansion-IsWithin e p h)

  expand-IsWithin :
      (expand_adjacent : Bool) (p : Packing)
      → V p
      → V (expand verify_candidate token_budget doc_budget lib expand_adjacent p)
  unfolding expand
  expand-IsWithin expand_adjacent p h =
      if-cases V expand_adjacent
        (pack_expansions verify_candidate token_budget doc_budget lib (expansions lib p.packed) p) p
        (λ _. pack_expansions-IsWithin (expansions lib p.packed) p h) λ _. h

  -- If every version belongs to a document that is on the table, a packed context has at most the
  -- budgeted number of tokens, which is the sum over its sections of one for each character and at
  -- least one, at most the quota of them from any one document, and no two sections with the same
  -- text hash, whatever the candidates are and the access check answers, with expansion or without.
  pub pack_context-IsWithinLimits :
      (expand_adjacent : Bool) (candidates : List Candidate)
      → IsWithinLimits token_budget doc_budget
          (pack_context verify_candidate token_budget doc_budget lib expand_adjacent candidates)
  unfolding pack_context
  pack_context-IsWithinLimits expand_adjacent candidates =
      let p : Packing = pack_candidates token_budget doc_budget candidates empty_packing in
      let h : V (expand verify_candidate token_budget doc_budget lib expand_adjacent p) =
        expand-IsWithin expand_adjacent p (
          pack_candidates-IsWithin token_budget doc_budget candidates empty_packing
            (empty-IsWithin token_budget doc_budget)) in
      record {
        fits = h.fits;
        total = h.total;
        quota = λ d. subst (λ n. n ≤ doc_budget) (h.used d) (h.quota d);
        distinct = subst (λ hs. is_distinct hs ≡ true) h.hashes h.distinct;
        measured = h.measured;
      }
