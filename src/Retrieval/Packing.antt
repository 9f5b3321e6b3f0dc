-- ===== src/Retrieval/Packing.antt =====
-- `pack_context` (retrieval/context_packing.py). `doc_budget`, which the code computes as
-- `int(token_budget * max_per_document_ratio)` on floats, and the access check `verify_candidate`
-- (retrieval/dense.py) are parameters.
use creditlens.Base.{
  ℕ, ◌+◌, max, Bool, true, false, Option, List, [], ◌∷◌, ◌++◌, ◌&&◌, not, ◌==◌, ltb, if◌then◌else◌,
  length, any, is_empty,
}
use creditlens.Base.Text.{Text, text_eq}

-- `RetrievedCandidate`, without its scores.
pub record Candidate : Type 0 where
  pub section_id : ℕ
  pub document_id : ℕ
  pub document_version_id : ℕ
  pub parse_run_id : ℕ
  pub heading_path : List Text
  pub text : Text
  pub text_hash : Text
  pub page_start : ℕ
  pub page_end : ℕ
  pub rank : ℕ

pub record PackedSection : Type 0 where
  pub section_id : ℕ
  pub document_id : ℕ
  pub document_version_id : ℕ
  pub parse_run_id : ℕ
  pub heading_path : List Text
  pub text : Text
  pub text_hash : Text
  pub page_start : ℕ
  pub page_end : ℕ
  pub tokens_est : ℕ
  pub rank : ℕ
  pub expanded : Bool

pub record PackedContext : Type 0 where
  pub sections : List PackedSection
  pub total_tokens_est : ℕ
  pub budget : ℕ
  pub dropped : List ℕ
  pub expanded_count : ℕ

-- `DocumentSection`, `DocumentVersion` and `Document`, as far as packing reads them.
pub record DocumentSection : Type 0 where
  pub id : ℕ
  pub parent_section_id : Option ℕ
  pub document_version_id : ℕ
  pub parse_run_id : ℕ
  pub is_article_or_paragraph : Bool
  pub ordinal : ℕ
  pub heading_path : List Text
  pub text : Text
  pub text_hash : Text
  pub page_start : ℕ
  pub page_end : ℕ

pub record DocumentVersion : Type 0 where
  pub id : ℕ
  pub document_id : ℕ

pub record Library : Type 0 where
  pub sections : List DocumentSection
  pub versions : List DocumentVersion
  pub documents : List ℕ

unfoldable pub estimate_tokens : Text → ℕ
estimate_tokens text = max 1 (length text)

-- The local variables of `pack_context`.
pub record Packing : Type 0 where
  pub doc_usage : List (ℕ × ℕ)
  pub packed : List PackedSection
  pub dropped : List ℕ
  pub seen_hashes : List Text
  pub seen_headings : List (List Text)
  pub total_tokens : ℕ
  pub expanded_count : ℕ

abbrev pub empty_packing : Packing
empty_packing = record {
  doc_usage = [];
  packed = [];
  dropped = [];
  seen_hashes = [];
  seen_headings = [];
  total_tokens = 0;
  expanded_count = 0;
}

-- `doc_usage.get(doc_id, 0)`; the newest entry of a key stands first.
unfoldable pub usage : ℕ → List (ℕ × ℕ) → ℕ
usage d [] = 0
usage d (e ∷ es) = if e.0 == d then e.1 else usage d es

unfoldable pub is_seen : Text → List Text → Bool
is_seen h seen = any (λ k. text_eq h k) seen

unfoldable pub same_path : List Text → List Text → Bool
same_path [] [] = true
same_path (x ∷ xs) (y ∷ ys) = text_eq x y && same_path xs ys
same_path _ _ = false

-- `heading_key and heading_key in seen_headings`
unfoldable pub is_seen_heading : List Text → List (List Text) → Bool
unfolding same_path
is_seen_heading key seen = not (is_empty key) && any (same_path key) seen

unfoldable pub packed_candidate : Candidate → PackedSection
unfolding estimate_tokens
packed_candidate c = record {
  section_id = c.section_id;
  document_id = c.document_id;
  document_version_id = c.document_version_id;
  parse_run_id = c.parse_run_id;
  heading_path = c.heading_path;
  text = c.text;
  text_hash = c.text_hash;
  page_start = c.page_start;
  page_end = c.page_end;
  tokens_est = estimate_tokens c.text;
  rank = c.rank;
  expanded = false;
}

-- The writes for one packed section.
unfoldable pub add_section : PackedSection → Packing → Packing
unfolding usage
add_section s p = record p {
  doc_usage = (s.document_id, usage s.document_id p.doc_usage + s.tokens_est) ∷ p.doc_usage;
  packed = p.packed ++ s ∷ [];
  seen_hashes = p.seen_hashes ++ s.text_hash ∷ [];
  total_tokens = p.total_tokens + s.tokens_est;
}

unfoldable pub note_heading : List Text → Packing → Packing
note_heading key p = record p {
  seen_headings = if is_empty key then p.seen_headings else key ∷ p.seen_headings;
}

unfoldable pub drop_section : ℕ → Packing → Packing
drop_section id p = record p { dropped = p.dropped ++ id ∷ [] }

module _ (token_budget doc_budget : ℕ) where
  -- One iteration of `for candidate in candidates`.
  unfoldable pub pack_candidate : Candidate → Packing → Packing
  unfolding is_seen is_seen_heading packed_candidate add_section note_heading drop_section
  pack_candidate c p =
      let tokens = estimate_tokens c.text in
      if is_seen c.text_hash p.seen_hashes
      then p
      else if is_seen_heading c.heading_path p.seen_headings
      then p
      else if ltb token_budget (p.total_tokens + tokens)
      then drop_section c.section_id p
      else if ltb doc_budget (usage c.document_id p.doc_usage + tokens)
      then drop_section c.section_id p
      else note_heading c.heading_path (add_section (packed_candidate c) p)

  unfoldable pub pack_candidates : List Candidate → Packing → Packing
  unfolding pack_candidate
  pack_candidates [] p = p
  pack_candidates (c ∷ cs) p = pack_candidates cs (pack_candidate c p)
