-- ===== src/Retrieval/Fused.antt =====
-- What `rrf_fuse` (retrieval/fusion.py) returns.
use creditlens.Base.{
  ℕ, ◌+◌, ◌≤◌, ◌<◌, max, ◌≡◌, refl, ap, ◌∙◌, Bool, false, List, [], ◌∷◌, ◌++◌, ◌||◌, ◌==◌,
  if◌then◌else◌, if-cases, length, length-append, filter, filter-append, any, count, arith,
  Bool-cases, inl, inr, ||_false,
}
use creditlens.Base.Text.{Text, text_eq, text_eq_sound}
use creditlens.Retrieval.Packing.{Candidate}
use creditlens.Retrieval.Fusion.{
  Floats, FusedCandidate, Picking, is_skipped, append_pick, pick, pick_all, no_picks,
  fused_candidates, rrf_fuse,
}

module _ (floats : Floats) where
  unfoldable pub with_hash : Text → FusedCandidate floats → Bool
  with_hash t f = text_eq t f.candidate.text_hash

  unfoldable pub of_document : ℕ → FusedCandidate floats → Bool
  of_document d f = f.candidate.document_id == d

  -- How many of the list pass a test.
  abbrev pub how_many : (FusedCandidate floats → Bool) → List (FusedCandidate floats) → ℕ
  how_many p fs = length (filter p fs)

  how_many-snoc :
      (p : FusedCandidate floats → Bool) (fs : List (FusedCandidate floats))
      (f : FusedCandidate floats)
      → how_many p (fs ++ f ∷ []) ≡ how_many p fs + (if p f then 1 else 0)
  how_many-snoc p fs f =
      ground (arith, filter-append p fs (f ∷ []), length-append (filter p fs) (filter p (f ∷ [])))

  at_most_one : (n : ℕ) (b : Bool) → n ≤ (if b then 1 else 0) → n ≤ 1
  at_most_one n b h = ground arith

  module _ (cap limit : ℕ) where
    pub record IsPicking (p : Picking floats) : Type 0 where
      pub hashes :
          (t : Text)
          → how_many (with_hash t) p.picked ≤ (if any (text_eq t) p.seen_hashes then 1 else 0)
      pub documents : (d : ℕ) → how_many (of_document d) p.picked ≡ count d p.documents
      pub capped : (d : ℕ) → count d p.documents ≤ cap
      pub limited : length p.picked ≤ max limit 1
      pub going : p.stopped ≡ false → length p.picked < max limit 1

    once_more :
        (f : FusedCandidate floats) (p : Picking floats) (t : Text)
        → any (text_eq f.candidate.text_hash) p.seen_hashes ≡ false
        → how_many (with_hash t) p.picked ≤ (if any (text_eq t) p.seen_hashes then 1 else 0)
        → how_many (with_hash t) (p.picked ++ f ∷ [])
          ≤ (if text_eq t f.candidate.text_hash || any (text_eq t) p.seen_hashes then 1 else 0)
    unfolding with_hash
    once_more f p t new h = elim (Bool-cases (text_eq t f.candidate.text_hash)) [
      | inl same ↦
          let unseen : any (text_eq t) p.seen_hashes ≡ false =
            ap (λ x. any (text_eq x) p.seen_hashes) (text_eq_sound t f.candidate.text_hash same)
            ∙ new in
          ground (arith, how_many-snoc (with_hash t) p.picked f, same, unseen)
      | inr other ↦ ground (arith, how_many-snoc (with_hash t) p.picked f, other)
    ]

    append_pick-IsPicking :
        (f : FusedCandidate floats) (p : Picking floats)
        → is_skipped floats cap f p ≡ false
        → IsPicking p
        → IsPicking (append_pick floats limit f p)
    unfolding is_skipped append_pick with_hash of_document
    append_pick-IsPicking f p free h =
        let (open_or_new, uncapped) =
          ||_false (p.stopped || any (text_eq f.candidate.text_hash) p.seen_hashes) _ free in
        let (going, new) = ||_false p.stopped _ open_or_new in
        record {
          hashes = λ t. once_more f p t new (h.hashes t);
          documents = λ d. ground (arith, how_many-snoc (of_document d) p.picked f, h.documents d);
          capped = λ d. ground (arith, h.capped d, uncapped);
          limited = ground (arith, length-append p.picked (f ∷ []), h.going going);
          going = λ k. ground (arith, length-append p.picked (f ∷ []), h.going going);
        }

    pick-IsPicking :
        (f : FusedCandidate floats) (p : Picking floats)
        → IsPicking p
        → IsPicking (pick floats cap limit f p)
    unfolding pick
    pick-IsPicking f p h =
        if-cases IsPicking (is_skipped floats cap f p) p (append_pick floats limit f p)
          (λ skipped. h) (λ free. append_pick-IsPicking f p free h)

    pub pick_all-IsPicking :
        (fs : List (FusedCandidate floats)) (p : Picking floats)
        → IsPicking p
        → IsPicking (pick_all floats cap limit fs p)
    unfolding pick_all
    pick_all-IsPicking [] p h = h
    pick_all-IsPicking (f ∷ fs) p h = pick_all-IsPicking fs _ (pick-IsPicking f p h)

    pub no_picks-IsPicking : IsPicking (no_picks floats)
    unfolding no_picks
    no_picks-IsPicking = record {
      hashes = λ t. omega arith;
      documents = λ d. refl;
      capped = λ d. omega arith;
      limited = omega arith;
      going = λ k. ground arith;
    }

    -- What the fused list keeps to.
    pub record IsFused (fs : List (FusedCandidate floats)) : Type 0 where
      pub distinct_hashes : (t : Text) → how_many (with_hash t) fs ≤ 1
      pub document_cap : (d : ℕ) → how_many (of_document d) fs ≤ cap
      pub size : length fs ≤ max limit 1

    IsPicking-IsFused : (p : Picking floats) → IsPicking p → IsFused p.picked
    IsPicking-IsFused p h = record {
      distinct_hashes = λ t. at_most_one _ (any (text_eq t) p.seen_hashes) (h.hashes t);
      document_cap = λ d. ground (arith, h.documents d, h.capped d);
      size = h.limited;
    }

    -- The fused list has no text hash twice, no document more often than the cap and, where the limit is
    -- one at least, no more candidates than the limit; with the limit 0 it has one at most.
    pub rrf_fuse-IsFused :
        (ranked_lists : List (Text × List Candidate)) (rrf_k : ℕ)
        (route_weights : List (Text × floats.Float))
        → IsFused (rrf_fuse floats ranked_lists rrf_k route_weights cap limit)
    unfolding rrf_fuse
    rrf_fuse-IsFused ranked_lists rrf_k route_weights = IsPicking-IsFused _ (
        pick_all-IsPicking (fused_candidates floats ranked_lists rrf_k route_weights)
          (no_picks floats) no_picks-IsPicking)
