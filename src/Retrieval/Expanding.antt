-- ===== src/Retrieval/Expanding.antt =====
-- The expansion of packed sections by their neighbours, and `pack_context` as a whole
-- (retrieval/context_packing.py).
use creditlens.Base.{
  ℕ, ◌+◌, Bool, true, false, Option, none, some, List, [], ◌∷◌, ◌++◌, map, ◌&&◌, ◌||◌, not, ◌==◌,
  ltb, leb, if◌then◌else◌, filter, find, contains,
}
use creditlens.Retrieval.Packing.{
  Candidate, PackedSection, PackedContext, DocumentSection, DocumentVersion, Library, Packing,
  estimate_tokens, empty_packing, usage, is_seen, add_section, drop_section, pack_candidates,
}

-- A sibling of a packed section, with that section's rank.
abbrev pub Expansion : Type 0
Expansion = ℕ × DocumentSection

unfoldable pub is_near : ℕ → ℕ → Bool
is_near a b = leb a (b + 1) && leb b (a + 1)

-- A stable sort by a key.
unfoldable pub insert_by {ℓ} : {A : Type ℓ} → (A → ℕ) → A → List A → List A
insert_by key x [] = x ∷ []
insert_by key x (y ∷ ys) =
    let rest = insert_by key x ys in if leb (key x) (key y) then x ∷ y ∷ ys else y ∷ rest

unfoldable pub sorted_by {ℓ} : {A : Type ℓ} → (A → ℕ) → List A → List A
unfolding insert_by
sorted_by key [] = []
sorted_by key (x ∷ xs) = insert_by key x (sorted_by key xs)

unfoldable pub find_section : ℕ → Library → Option DocumentSection
find_section i lib = find (λ s. s.id == i) lib.sections

unfoldable pub find_version : ℕ → Library → Option DocumentVersion
find_version i lib = find (λ v. v.id == i) lib.versions

unfoldable pub has_parent : ℕ → DocumentSection → Bool
has_parent parent s = elim s.parent_section_id [ none ↦ false | some q ↦ q == parent ]

-- The articles and paragraphs under the parent, by ordinal.
unfoldable pub siblings : ℕ → Library → List DocumentSection
unfolding sorted_by has_parent
siblings parent lib =
    sorted_by (λ s. s.ordinal)
      (filter (λ s. has_parent parent s && s.is_article_or_paragraph) lib.sections)

-- `expand_candidates` and `packed_ids`
unfoldable pub take_siblings :
    ℕ → DocumentSection → List DocumentSection → List Expansion × List ℕ → List Expansion × List ℕ
unfolding is_near
take_siblings rank s [] found = found
take_siblings rank s (q ∷ qs) found = take_siblings rank s qs (
    if (contains q.id found.1 || q.id == s.id) || not (is_near q.ordinal s.ordinal)
    then found
    else (found.0 ++ (rank, q) ∷ [], q.id ∷ found.1))

unfoldable pub expand_section :
    Library → PackedSection → List Expansion × List ℕ → List Expansion × List ℕ
unfolding find_section siblings take_siblings
expand_section lib s found = elim (find_section s.section_id lib) [
  | none ↦ found
  | some row ↦ elim row.parent_section_id [
    | none ↦ found
    | some parent ↦ take_siblings s.rank row (siblings parent lib) found
  ]
]

unfoldable pub expand_sections :
    Library → List PackedSection → List Expansion × List ℕ → List Expansion × List ℕ
unfolding expand_section
expand_sections lib [] found = found
expand_sections lib (s ∷ ss) found = expand_sections lib ss (expand_section lib s found)

-- `expand_candidates`, sorted by rank.
unfoldable pub expansions : Library → List PackedSection → List Expansion
unfolding expand_sections sorted_by
expansions lib packed =
    sorted_by (λ e. e.0) (expand_sections lib packed ([], map (λ s. s.section_id) packed)).0

unfoldable pub expanded_section : ℕ → DocumentVersion → DocumentSection → PackedSection
unfolding estimate_tokens
expanded_section rank v s = record {
  section_id = s.id;
  document_id = v.document_id;
  document_version_id = v.id;
  parse_run_id = s.parse_run_id;
  heading_path = s.heading_path;
  text = s.text;
  text_hash = s.text_hash;
  page_start = s.page_start;
  page_end = s.page_end;
  tokens_est = estimate_tokens s.text;
  rank = rank;
  expanded = true;
}

-- The candidate that the access check reads; its text is empty.
unfoldable pub expansion_candidate : ℕ → DocumentVersion → DocumentSection → Candidate
expansion_candidate rank v s = record {
  section_id = s.id;
  document_id = v.document_id;
  document_version_id = v.id;
  parse_run_id = s.parse_run_id;
  heading_path = s.heading_path;
  text = [];
  text_hash = s.text_hash;
  page_start = s.page_start;
  page_end = s.page_end;
  rank = rank;
}

unfoldable pub has_document : ℕ → Library → Bool
has_document d lib = contains d lib.documents

unfoldable pub count_expanded : Packing → Packing
count_expanded p = record p { expanded_count = p.expanded_count + 1 }

module _ (verify_candidate : Candidate → Bool) (token_budget doc_budget : ℕ) (lib : Library) where
  -- A sibling whose version is on the table.
  unfoldable pub pack_version : ℕ → DocumentSection → DocumentVersion → Packing → Packing
  unfolding has_document drop_section is_seen add_section expanded_section count_expanded
  pack_version rank s v p =
      if has_document v.document_id lib
        && ltb doc_budget (usage v.document_id p.doc_usage + estimate_tokens s.text)
      then p
      else if not (verify_candidate (expansion_candidate rank v s))
      then drop_section s.id p
      else if is_seen s.text_hash p.seen_hashes
      then p
      else count_expanded (add_section (expanded_section rank v s) p)

  -- A sibling whose version is missing is passed over.
  unfoldable pub pack_found : ℕ → DocumentSection → Option DocumentVersion → Packing → Packing
  unfolding pack_version
  pack_found rank s none p = p
  pack_found rank s (some v) p = pack_version rank s v p

  -- One iteration of the loop over the sorted expansions.
  unfoldable pub pack_expansion : Expansion → Packing → Packing
  unfolding find_version pack_found
  pack_expansion e p =
      if ltb token_budget (p.total_tokens + estimate_tokens e.1.text)
      then p
      else pack_found e.0 e.1 (find_version e.1.document_version_id lib) p

  unfoldable pub pack_expansions : List Expansion → Packing → Packing
  unfolding pack_expansion
  pack_expansions [] p = p
  pack_expansions (e ∷ es) p = pack_expansions es (pack_expansion e p)

  -- `expand_adjacent` and a trusted context; a packing that is empty has no siblings to take.
  unfoldable pub expand : (expand_adjacent : Bool) → Packing → Packing
  unfolding expansions pack_expansions
  expand expand_adjacent p =
      if expand_adjacent then pack_expansions (expansions lib p.packed) p else p

  unfoldable pub pack_context : (expand_adjacent : Bool) → List Candidate → PackedContext
  unfolding pack_candidates expand
  pack_context expand_adjacent candidates =
      let p : Packing =
        expand expand_adjacent (pack_candidates token_budget doc_budget candidates empty_packing) in
      record {
        sections = p.packed;
        total_tokens_est = p.total_tokens;
        budget = token_budget;
        dropped = p.dropped;
        expanded_count = p.expanded_count;
      }
