-- ===== src/Retrieval/Covered.antt =====
-- What `rrf_fuse` (retrieval/fusion.py) leaves out, and why.
use creditlens.Base.{
  Exists-append_left, Exists-append_right, ℕ, ◌≤◌, ◌≡◌, ◌⊎◌, sym, subst, true, false, inl, inr,
  List, [], ◌∷◌, if-cases, leb, leb→le, length, any, count, All, All-imp, Exists, Exists-imp,
  Exists-All, here, arith, Bool-cases,
}
use creditlens.Base.Text.{Text, text_eq, text_eq_refl, text_eq_sound}
use creditlens.Retrieval.Packing.{Candidate}
use creditlens.Retrieval.Fusion.{
  Floats, FusedCandidate, Picking, is_skipped, append_pick, pick, pick_all, no_picks,
  fused_candidates, rrf_fuse,
}
use creditlens.Retrieval.Fused.{
  of_document, how_many, IsPicking, pick_all-IsPicking, no_picks-IsPicking,
}
use creditlens.Retrieval.Ranked.{HasSection, fused_candidates-HasSection}

module _ (floats : Floats) (cap limit : ℕ) where
  -- Why a candidate needs no place: its text is there, its document is full, or the list is.
  abbrev pub IsSettled : List (FusedCandidate floats) → FusedCandidate floats → Type 0
  IsSettled fs f =
      Exists (λ x. x.candidate.text_hash ≡ f.candidate.text_hash) fs
      ⊎ ((cap ≤ how_many floats (of_document floats f.candidate.document_id) fs)
          ⊎ (limit ≤ length fs))

  -- The same, on the state of the loop.
  abbrev IsSettledIn : Picking floats → FusedCandidate floats → Type 0
  IsSettledIn p f =
      (any (text_eq f.candidate.text_hash) p.seen_hashes ≡ true)
      ⊎ ((leb cap (count f.candidate.document_id p.documents) ≡ true) ⊎ (p.stopped ≡ true))

  skipped-IsSettledIn :
      (f : FusedCandidate floats) (p : Picking floats)
      → is_skipped floats cap f p ≡ true
      → IsSettledIn p f
  unfolding is_skipped
  skipped-IsSettledIn f p h =
      elim (Bool-cases (any (text_eq f.candidate.text_hash) p.seen_hashes)) [
        | inl seen ↦ inl seen
        | inr new ↦ elim (Bool-cases p.stopped) [
          | inl over ↦ inr (inr over)
          | inr going ↦ inr (inl (ground (arith, h, new, going)))
        ]
      ]

  append_pick-IsSettledIn :
      (f : FusedCandidate floats) (p : Picking floats)
      → IsSettledIn (append_pick floats limit f p) f
  unfolding append_pick
  append_pick-IsSettledIn f p = inl (ground (arith, text_eq_refl f.candidate.text_hash))

  more-IsSettledIn :
      (f g : FusedCandidate floats) (p : Picking floats)
      → is_skipped floats cap g p ≡ false
      → IsSettledIn p f
      → IsSettledIn (append_pick floats limit g p) f
  unfolding append_pick is_skipped
  more-IsSettledIn f g p free (inl seen) = inl (ground (arith, seen))
  more-IsSettledIn f g p free (inr (inl full)) = inr (inl (ground (arith, full)))
  more-IsSettledIn f g p free (inr (inr over)) = ground (arith, free, over)

  pick-IsSettledIn :
      (f g : FusedCandidate floats) (p : Picking floats)
      → IsSettledIn p f
      → IsSettledIn (pick floats cap limit g p) f
  unfolding pick
  pick-IsSettledIn f g p h =
      if-cases (λ (s : Picking floats). IsSettledIn s f) (is_skipped floats cap g p) p
        (append_pick floats limit g p) (λ skipped. h) (λ free. more-IsSettledIn f g p free h)

  own_pick-IsSettledIn :
      (f : FusedCandidate floats) (p : Picking floats) → IsSettledIn (pick floats cap limit f p) f
  unfolding pick
  own_pick-IsSettledIn f p =
      if-cases (λ (s : Picking floats). IsSettledIn s f) (is_skipped floats cap f p) p
        (append_pick floats limit f p) (skipped-IsSettledIn f p)
        (λ free. append_pick-IsSettledIn f p)

  pick_all-keeps :
      (f : FusedCandidate floats) (gs : List (FusedCandidate floats)) (p : Picking floats)
      → IsSettledIn p f
      → IsSettledIn (pick_all floats cap limit gs p) f
  unfolding pick_all
  pick_all-keeps f [] p h = h
  pick_all-keeps f (g ∷ gs) p h = pick_all-keeps f gs _ (pick-IsSettledIn f g p h)

  pick_all-IsSettledIn :
      (fs : List (FusedCandidate floats)) (p : Picking floats)
      → All (IsSettledIn (pick_all floats cap limit fs p)) fs
  unfolding pick_all
  pick_all-IsSettledIn [] p = tt
  pick_all-IsSettledIn (f ∷ fs) p =
      let next = pick floats cap limit f p in
      (pick_all-keeps f fs next (own_pick-IsSettledIn f p), pick_all-IsSettledIn fs next)

  -- The hashes that were seen are those of picked candidates, and the loop stops at the limit.
  record IsListed (p : Picking floats) : Type 0 where
    listed :
        (t : Text)
        → any (text_eq t) p.seen_hashes ≡ true
        → Exists (λ x. x.candidate.text_hash ≡ t) p.picked
    full : p.stopped ≡ true → limit ≤ length p.picked

  append_pick-IsListed :
      (f : FusedCandidate floats) (p : Picking floats)
      → IsListed p
      → IsListed (append_pick floats limit f p)
  unfolding append_pick
  append_pick-IsListed f p h = record {
    listed = λ t seen. elim (Bool-cases (text_eq t f.candidate.text_hash)) [
      | inl same ↦
          Exists-append_right (λ x. x.candidate.text_hash ≡ t) p.picked (f ∷ [])
            (here (sym (text_eq_sound t f.candidate.text_hash same)))
      | inr other ↦
          Exists-append_left (λ x. x.candidate.text_hash ≡ t) p.picked (f ∷ [])
            (h.listed t (ground (arith, seen, other)))
    ];
    full = λ over. leb→le limit _ over;
  }

  pick_all-IsListed :
      (fs : List (FusedCandidate floats)) (p : Picking floats)
      → IsListed p
      → IsListed (pick_all floats cap limit fs p)
  unfolding pick_all pick
  pick_all-IsListed [] p h = h
  pick_all-IsListed (f ∷ fs) p h = pick_all-IsListed fs _ (
      if-cases IsListed (is_skipped floats cap f p) p (append_pick floats limit f p) (λ skipped. h)
        (λ free. append_pick-IsListed f p h))

  no_picks-IsListed : IsListed (no_picks floats)
  unfolding no_picks
  no_picks-IsListed = record { listed = λ t seen. cc; full = λ over. cc }

  IsSettledIn-IsSettled :
      (p : Picking floats) (f : FusedCandidate floats)
      → IsListed p
      → IsPicking floats cap limit p
      → IsSettledIn p f
      → IsSettled p.picked f
  IsSettledIn-IsSettled p f h k (inl seen) = inl (h.listed f.candidate.text_hash seen)
  IsSettledIn-IsSettled p f h k (inr (inl full)) =
      inr
        (inl (subst (λ n. cap ≤ n) (sym (k.documents f.candidate.document_id)) (leb→le cap _ full)))
  IsSettledIn-IsSettled p f h k (inr (inr over)) = inr (inr (h.full over))

  -- Every candidate of the ranked lists is accounted for: its section has a fused candidate whose
  -- text hash is in the result, or whose document is in it as often as the cap allows, or for which
  -- the result was at the limit.
  pub rrf_fuse-IsSettled :
      (ranked_lists : List (Text × List Candidate)) (rrf_k : ℕ)
      (route_weights : List (Text × floats.Float))
      → All
          (λ l.
            All
              (λ c.
                Exists
                  (λ f.
                    (f.candidate.section_id ≡ c.section_id)
                    × IsSettled (rrf_fuse floats ranked_lists rrf_k route_weights cap limit) f)
                  (fused_candidates floats ranked_lists rrf_k route_weights))
              l.1)
          ranked_lists
  unfolding rrf_fuse
  rrf_fuse-IsSettled ranked_lists rrf_k route_weights =
      let fused = fused_candidates floats ranked_lists rrf_k route_weights in
      let final = pick_all floats cap limit fused (no_picks floats) in
      let settled : All (IsSettled final.picked) fused =
        All-imp (IsSettledIn final) (IsSettled final.picked) fused
          (λ f h.
            IsSettledIn-IsSettled final f
              (pick_all-IsListed fused (no_picks floats) no_picks-IsListed)
              (pick_all-IsPicking floats cap limit fused (no_picks floats)
                (no_picks-IsPicking floats cap limit))
              h)
          (pick_all-IsSettledIn fused (no_picks floats)) in
      All-imp (λ l. All (λ c. HasSection floats c.section_id fused) l.1) _ ranked_lists
        (λ l h.
          All-imp (λ c. HasSection floats c.section_id fused) _ l.1
            (λ c e.
              Exists-imp (λ f. IsSettled final.picked f × (f.candidate.section_id ≡ c.section_id)) _
                fused (λ f k. (k.1, k.0))
                (Exists-All (IsSettled final.picked) (λ f. f.candidate.section_id ≡ c.section_id)
                  fused settled e))
            h)
        (fused_candidates-HasSection floats ranked_lists rrf_k route_weights)
