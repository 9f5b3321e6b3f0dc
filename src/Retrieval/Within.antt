-- ===== src/Retrieval/Within.antt =====
-- The local variables of `pack_context` agree with the sections packed so far.
use creditlens.Base.{
  ℕ, ◌+◌, ◌≤◌, ◌≡◌, refl, sym, ◌∙◌, ap, subst, ==_iff, if-cases, ltb-false, Bool, true, false,
  Bool-cases, inl, inr, List, [], ◌∷◌, ◌++◌, map, ◌==◌, ltb, if◌then◌else◌, All, All-append, arith,
}
use creditlens.Base.Text.{Text}
use creditlens.Retrieval.Packing.{
  Candidate, PackedSection, Packing, empty_packing, usage, is_seen, is_seen_heading,
  packed_candidate, add_section, note_heading, drop_section, pack_candidate, pack_candidates,
}
use creditlens.Retrieval.Expanding.{count_expanded}
use creditlens.Retrieval.Totals.{
  total_of, document_total, is_distinct, IsMeasured, total_of-append, document_total-append,
  is_distinct-append, map-append,
}

-- The local variables agree with the sections packed so far, which keep to the limits.
pub record IsWithin (token_budget doc_budget : ℕ) (p : Packing) : Type 0 where
  pub total : p.total_tokens ≡ total_of p.packed
  pub fits : p.total_tokens ≤ token_budget
  pub used : (d : ℕ) → usage d p.doc_usage ≡ document_total d p.packed
  pub quota : (d : ℕ) → usage d p.doc_usage ≤ doc_budget
  pub hashes : p.seen_hashes ≡ map (λ s. s.text_hash) p.packed
  pub distinct : is_distinct p.seen_hashes ≡ true
  pub measured : All IsMeasured p.packed

module _ (token_budget doc_budget : ℕ) where
  abbrev W : Packing → Type 0
  W p = IsWithin token_budget doc_budget p

  usage-add :
      (d : ℕ) (s : PackedSection) (u : List (ℕ × ℕ))
      → usage d ((s.document_id, usage s.document_id u + s.tokens_est) ∷ u)
        ≡ usage d u + (if s.document_id == d then s.tokens_est else 0)
  unfolding usage
  usage-add d s u = elim (Bool-cases (s.document_id == d)) [
    | inl same ↦ rw same (ap (λ i. usage i u + s.tokens_est) ((==_iff s.document_id d).0 same))
    | inr other ↦ rw other (omega arith)
  ]

  quota-add :
      (d : ℕ) (s : PackedSection) (u : List (ℕ × ℕ))
      → usage d u ≤ doc_budget
      → usage s.document_id u + s.tokens_est ≤ doc_budget
      → usage d u + (if s.document_id == d then s.tokens_est else 0) ≤ doc_budget
  quota-add d s u h k = elim (Bool-cases (s.document_id == d)) [
    | inl same ↦
        rw same
          (subst (λ i. usage i u + s.tokens_est ≤ doc_budget) ((==_iff s.document_id d).0 same) k)
    | inr other ↦ rw other (omega (arith, h))
  ]

  pub add_section-IsWithin :
      (s : PackedSection) (p : Packing)
      → IsMeasured s
      → is_seen s.text_hash p.seen_hashes ≡ false
      → p.total_tokens + s.tokens_est ≤ token_budget
      → usage s.document_id p.doc_usage + s.tokens_est ≤ doc_budget
      → W p
      → W (add_section s p)
  unfolding add_section
  add_section-IsWithin s p m new fits quota h = record {
    total = omega (arith, h.total, total_of-append p.packed s);
    fits = fits;
    used = λ d.
        usage-add d s p.doc_usage
        ∙ (ap (λ n. n + (if s.document_id == d then s.tokens_est else 0)) (h.used d)
            ∙ sym (document_total-append d p.packed s));
    quota = λ d.
        subst (λ n. n ≤ doc_budget) (sym (usage-add d s p.doc_usage))
          (quota-add d s p.doc_usage (h.quota d) quota);
    hashes = ap (λ z. z ++ s.text_hash ∷ []) h.hashes ∙ sym (map-append p.packed s);
    distinct = is_distinct-append p.seen_hashes s.text_hash h.distinct new;
    measured = All-append IsMeasured p.packed (s ∷ []) h.measured (m, tt);
  }

  pub drop_section-IsWithin : (i : ℕ) (p : Packing) → W p → W (drop_section i p)
  unfolding drop_section
  drop_section-IsWithin i p h = record {
    total = h.total;
    fits = h.fits;
    used = h.used;
    quota = h.quota;
    hashes = h.hashes;
    distinct = h.distinct;
    measured = h.measured;
  }

  note_heading-IsWithin : (key : List Text) (p : Packing) → W p → W (note_heading key p)
  unfolding note_heading
  note_heading-IsWithin key p h = record {
    total = h.total;
    fits = h.fits;
    used = h.used;
    quota = h.quota;
    hashes = h.hashes;
    distinct = h.distinct;
    measured = h.measured;
  }

  pub count_expanded-IsWithin : (p : Packing) → W p → W (count_expanded p)
  unfolding count_expanded
  count_expanded-IsWithin p h = record {
    total = h.total;
    fits = h.fits;
    used = h.used;
    quota = h.quota;
    hashes = h.hashes;
    distinct = h.distinct;
    measured = h.measured;
  }

  pub empty-IsWithin : W empty_packing
  unfolding total_of document_total usage is_distinct
  empty-IsWithin = record {
    total = refl;
    fits = omega arith;
    used = λ d. refl;
    quota = λ d. omega arith;
    hashes = refl;
    distinct = refl;
    measured = tt;
  }

  pack_candidate-IsWithin :
      (c : Candidate) (p : Packing) → W p → W (pack_candidate token_budget doc_budget c p)
  unfolding pack_candidate packed_candidate
  pack_candidate-IsWithin c p h =
      let s : PackedSection = packed_candidate c in
      let kept : Packing = note_heading c.heading_path (add_section s p) in
      let over_quota : Bool = ltb doc_budget (usage c.document_id p.doc_usage + s.tokens_est) in
      let over_budget : Bool = ltb token_budget (p.total_tokens + s.tokens_est) in
      let dropped : Packing = drop_section c.section_id p in
      let in_budget : Packing = if over_quota then dropped else kept in
      let new_heading : Packing = if over_budget then dropped else in_budget in
      if-cases W (is_seen c.text_hash p.seen_hashes) p
        (if is_seen_heading c.heading_path p.seen_headings then p else new_heading) (λ _. h)
        λ new.
          if-cases W (is_seen_heading c.heading_path p.seen_headings) p new_heading (λ _. h)
            λ _.
              if-cases W over_budget dropped in_budget (λ _. drop_section-IsWithin c.section_id p h)
                λ fits.
                  if-cases W over_quota dropped kept (λ _. drop_section-IsWithin c.section_id p h)
                    λ quota. note_heading-IsWithin c.heading_path (add_section s p) (
                      add_section-IsWithin s p refl new (ltb-false token_budget _ fits)
                        (ltb-false doc_budget _ quota) h)

  pub pack_candidates-IsWithin :
      (cs : List Candidate) (p : Packing) → W p → W (pack_candidates token_budget doc_budget cs p)
  unfolding pack_candidates
  pack_candidates-IsWithin [] p h = h
  pack_candidates-IsWithin (c ∷ cs) p h =
      pack_candidates-IsWithin cs (pack_candidate token_budget doc_budget c p)
        (pack_candidate-IsWithin c p h)
