-- ===== src/Retrieval/Access.antt =====
-- Where the sections of a packed context come from: the candidates, and siblings that passed the
-- access check.
use creditlens.Base.{
  ℕ, ◌+◌, ◌≡◌, Bool, true, Option, none, some, List, [], ◌∷◌, not, ◌&&◌, ltb, if◌then◌else◌,
  if-cases, not-false, All, All-append,
}
use creditlens.Retrieval.Packing.{
  Candidate, PackedSection, DocumentVersion, DocumentSection, Library, Packing, estimate_tokens,
  empty_packing, usage, is_seen, is_seen_heading, packed_candidate, add_section, note_heading,
  drop_section, pack_candidate, pack_candidates,
}
use creditlens.Retrieval.Expanding.{
  Expansion, expansions, expanded_section, expansion_candidate, has_document, count_expanded,
  find_version, pack_version, pack_found, pack_expansion, pack_expansions, expand, pack_context,
}

module _ (G : PackedSection → Type 0) where
  abbrev Keeps : Packing → Type 0
  Keeps p = All G p.packed

  add_section-Keeps : (s : PackedSection) (p : Packing) → G s → Keeps p → Keeps (add_section s p)
  unfolding add_section
  add_section-Keeps s p g h = All-append G p.packed (s ∷ []) h (g, tt)

  drop_section-Keeps : (i : ℕ) (p : Packing) → Keeps p → Keeps (drop_section i p)
  unfolding drop_section
  drop_section-Keeps i p h = h

  module _ (token_budget doc_budget : ℕ) where
    pack_candidate-Keeps :
        (c : Candidate) (p : Packing)
        → G (packed_candidate c)
        → Keeps p
        → Keeps (pack_candidate token_budget doc_budget c p)
    unfolding pack_candidate note_heading
    pack_candidate-Keeps c p g h =
        let s : PackedSection = packed_candidate c in
        let kept : Packing = note_heading c.heading_path (add_section s p) in
        let tokens : ℕ = estimate_tokens c.text in
        let over_quota : Bool = ltb doc_budget (usage c.document_id p.doc_usage + tokens) in
        let over_budget : Bool = ltb token_budget (p.total_tokens + tokens) in
        let dropped : Packing = drop_section c.section_id p in
        let in_budget : Packing = if over_quota then dropped else kept in
        let new_heading : Packing = if over_budget then dropped else in_budget in
        if-cases Keeps (is_seen c.text_hash p.seen_hashes) p
          (if is_seen_heading c.heading_path p.seen_headings then p else new_heading) (λ _. h)
          λ _.
            if-cases Keeps (is_seen_heading c.heading_path p.seen_headings) p new_heading (λ _. h)
              λ _.
                if-cases Keeps over_budget dropped in_budget
                  (λ _. drop_section-Keeps c.section_id p h)
                  λ _.
                    if-cases Keeps over_quota dropped kept
                      (λ _. drop_section-Keeps c.section_id p h) λ _. add_section-Keeps s p g h

    pack_candidates-Keeps :
        (cs : List Candidate) (p : Packing)
        → All (λ c. G (packed_candidate c)) cs
        → Keeps p
        → Keeps (pack_candidates token_budget doc_budget cs p)
    unfolding pack_candidates
    pack_candidates-Keeps [] p g h = h
    pack_candidates-Keeps (c ∷ cs) p g h =
        pack_candidates-Keeps cs (pack_candidate token_budget doc_budget c p) g.1
          (pack_candidate-Keeps c p g.0 h)

  module _ (verify_candidate : Candidate → Bool) (token_budget doc_budget : ℕ) (lib : Library)
      (passed : (rank : ℕ) (v : DocumentVersion) (s : DocumentSection)
        → verify_candidate (expansion_candidate rank v s) ≡ true
        → G (expanded_section rank v s)) where
    pack_version-Keeps :
        (rank : ℕ) (s : DocumentSection) (v : DocumentVersion) (p : Packing)
        → Keeps p
        → Keeps (pack_version verify_candidate token_budget doc_budget lib rank s v p)
    unfolding pack_version count_expanded
    pack_version-Keeps rank s v p h =
        let q : PackedSection = expanded_section rank v s in
        let kept : Packing = count_expanded (add_section q p) in
        let over_quota : Bool =
          ltb doc_budget (usage v.document_id p.doc_usage + estimate_tokens s.text) in
        let fresh : Packing = if is_seen s.text_hash p.seen_hashes then p else kept in
        let answer : Bool = verify_candidate (expansion_candidate rank v s) in
        let checked : Packing = if not answer then drop_section s.id p else fresh in
        if-cases Keeps (has_document v.document_id lib && over_quota) p checked (λ _. h)
          λ _.
            if-cases Keeps (not answer) (drop_section s.id p) fresh
              (λ _. drop_section-Keeps s.id p h)
              λ answered.
                if-cases Keeps (is_seen s.text_hash p.seen_hashes) p kept (λ _. h)
                  λ _. add_section-Keeps q p (passed rank v s (not-false answer answered)) h

    pack_found-Keeps :
        (rank : ℕ) (s : DocumentSection) (found : Option DocumentVersion) (p : Packing)
        → Keeps p
        → Keeps (pack_found verify_candidate token_budget doc_budget lib rank s found p)
    unfolding pack_found
    pack_found-Keeps rank s none p h = h
    pack_found-Keeps rank s (some v) p h = pack_version-Keeps rank s v p h

    pack_expansions-Keeps :
        (es : List Expansion) (p : Packing)
        → Keeps p
        → Keeps (pack_expansions verify_candidate token_budget doc_budget lib es p)
    unfolding pack_expansions pack_expansion
    pack_expansions-Keeps [] p h = h
    pack_expansions-Keeps (e ∷ es) p h =
        let over_budget : Bool = ltb token_budget (p.total_tokens + estimate_tokens e.1.text) in
        let found : Option DocumentVersion = find_version e.1.document_version_id lib in
        pack_expansions-Keeps es (pack_expansion verify_candidate token_budget doc_budget lib e p) (
          if-cases Keeps over_budget p
            (pack_found verify_candidate token_budget doc_budget lib e.0 e.1 found p) (λ _. h)
            λ _. pack_found-Keeps e.0 e.1 found p h)

    -- What holds of every candidate as it is packed, and of every sibling whose access check passes,
    -- holds of every section of the packed context, with expansion or without.
    pub pack_context-All :
        (expand_adjacent : Bool) (candidates : List Candidate)
        → All (λ c. G (packed_candidate c)) candidates
        → All G
            (pack_context verify_candidate token_budget doc_budget lib expand_adjacent
              candidates).sections
    unfolding pack_context expand
    pack_context-All expand_adjacent candidates g =
        let p : Packing = pack_candidates token_budget doc_budget candidates empty_packing in
        let h : Keeps p =
          pack_candidates-Keeps token_budget doc_budget candidates empty_packing g tt in
        if-cases Keeps expand_adjacent
          (pack_expansions verify_candidate token_budget doc_budget lib (expansions lib p.packed) p)
          p (λ _. pack_expansions-Keeps (expansions lib p.packed) p h) λ _. h
