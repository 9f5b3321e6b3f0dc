-- ===== src/Retrieval/Ranked.antt =====
-- Every section of the ranked lists is among the candidates that `rrf_fuse` (retrieval/fusion.py) sorts.
use creditlens.Base.{
  ℕ, ◌+◌, ◌≡◌, refl, sym, Bool, true, false, inl, inr, List, [], ◌∷◌, if◌then◌else◌, if-cases,
  contains, All, All-imp, Exists, subst, here, there, ◌==◌, ==_iff, arith, Bool-cases, is_empty,
}
use creditlens.Base.Text.{Text}
use creditlens.Retrieval.Packing.{Candidate}
use creditlens.Retrieval.Fusion.{
  Floats, FusedCandidate, has_section, add_rank, add_channel, add_channels, route_weight,
  comes_before, insert_ranked, sort_ranked, default_route_weights, fused_candidates,
}

-- What holds of the new number and of those seen before holds of all that are seen now.
now_seen :
    (P : ℕ → Type 0) (new s : ℕ) (seen : List ℕ) (b : Bool)
    → contains s (if b then seen else new ∷ seen) ≡ true
    → P new
    → (contains s seen ≡ true → P s)
    → P s
now_seen P new s seen true known own before = before known
now_seen P new s seen false known own before = elim (Bool-cases (s == new)) [
  | inl same ↦ subst P (sym ((==_iff s new).0 same)) own
  | inr other ↦ before (ground (arith, known, other))
]

module _ (floats : Floats) where
  open floats use {Float, share}

  -- A candidate of the section is in the list.
  abbrev pub HasSection : ℕ → List (FusedCandidate floats) → Type 0
  HasSection s fs = Exists (λ f. f.candidate.section_id ≡ s) fs

  add_rank-HasSection :
      (channel : Text) (score : Float) (c : Candidate) (fs : List (FusedCandidate floats))
      → HasSection c.section_id (add_rank floats channel score c fs)
  unfolding add_rank has_section
  add_rank-HasSection channel score c [] = here refl
  add_rank-HasSection channel score c (f ∷ fs) =
      if-cases (HasSection c.section_id) (has_section floats c.section_id f) _
        (f ∷ add_rank floats channel score c fs) (λ same. here ((==_iff _ _).0 same))
        (λ other. there (add_rank-HasSection channel score c fs))

  add_rank-keeps :
      (channel : Text) (score : Float) (c : Candidate) (s : ℕ) (fs : List (FusedCandidate floats))
      → HasSection s fs
      → HasSection s (add_rank floats channel score c fs)
  unfolding add_rank
  add_rank-keeps channel score c s [] h = elim h [ ]
  add_rank-keeps channel score c s (f ∷ fs) h =
      if-cases (HasSection s) (has_section floats c.section_id f) _
        (f ∷ add_rank floats channel score c fs)
        (λ same. elim h [ here own ↦ here own | there later ↦ there later ])
        (λ other. elim h [
          | here own ↦ here own
          | there later ↦ there (add_rank-keeps channel score c s fs later)
        ])

  -- The candidates of a channel up to one of them.
  step :
      (channel : Text) (score : Float) (c : Candidate) (seen : List ℕ) (s : ℕ)
      (fs : List (FusedCandidate floats))
      → HasSection s fs
      → HasSection s (if contains c.section_id seen then fs else add_rank floats channel score c fs)
  step channel score c seen s fs h =
      if-cases (HasSection s) (contains c.section_id seen) fs (add_rank floats channel score c fs)
        (λ known. h) (λ new. add_rank-keeps channel score c s fs h)

  add_channel-keeps :
      (channel : Text) (weight : Float) (k : ℕ) (s : ℕ) (cs : List Candidate) (seen : List ℕ)
      (fs : List (FusedCandidate floats))
      → HasSection s fs
      → HasSection s (add_channel floats channel weight k seen cs fs)
  unfolding add_channel
  add_channel-keeps channel weight k s [] seen fs h = h
  add_channel-keeps channel weight k s (c ∷ cs) seen fs h =
      add_channel-keeps channel weight k s cs _ _
        (step channel (share weight (k + c.rank)) c seen s fs h)

  add_channel-HasSection :
      (channel : Text) (weight : Float) (k : ℕ) (cs : List Candidate) (seen : List ℕ)
      (fs : List (FusedCandidate floats))
      → ((s : ℕ) → contains s seen ≡ true → HasSection s fs)
      → All (λ c. HasSection c.section_id (add_channel floats channel weight k seen cs fs)) cs
  unfolding add_channel
  add_channel-HasSection channel weight k [] seen fs h = tt
  add_channel-HasSection channel weight k (c ∷ cs) seen fs h =
      let score = share weight (k + c.rank) in
      let next = if contains c.section_id seen then fs else add_rank floats channel score c fs in
      let own : HasSection c.section_id next =
        if-cases (HasSection c.section_id) (contains c.section_id seen) fs
          (add_rank floats channel score c fs) (h c.section_id)
          (λ new. add_rank-HasSection channel score c fs) in
      (
        add_channel-keeps channel weight k c.section_id cs _ _ own,
        add_channel-HasSection channel weight k cs _ _ (λ s known.
            now_seen (λ i. HasSection i next) c.section_id s seen (contains c.section_id seen) known
              own (λ before. step channel score c seen s fs (h s before))),
      )

  add_channels-keeps :
      (k : ℕ) (weights : List (Text × Float)) (s : ℕ) (ls : List (Text × List Candidate))
      (fs : List (FusedCandidate floats))
      → HasSection s fs
      → HasSection s (add_channels floats k weights ls fs)
  unfolding add_channels
  add_channels-keeps k weights s [] fs h = h
  add_channels-keeps k weights s (l ∷ ls) fs h =
      add_channels-keeps k weights s ls _
        (add_channel-keeps l.0 (route_weight floats l.0 weights) k s l.1 [] fs h)

  add_channels-HasSection :
      (k : ℕ) (weights : List (Text × Float)) (ls : List (Text × List Candidate))
      (fs : List (FusedCandidate floats))
      → All (λ l. All (λ c. HasSection c.section_id (add_channels floats k weights ls fs)) l.1) ls
  unfolding add_channels
  add_channels-HasSection k weights [] fs = tt
  add_channels-HasSection k weights (l ∷ ls) fs =
      let weight = route_weight floats l.0 weights in
      let next = add_channel floats l.0 weight k [] l.1 fs in
      (
        All-imp (λ c. HasSection c.section_id next)
            (λ c. HasSection c.section_id (add_channels floats k weights ls next)) l.1
            (λ c h. add_channels-keeps k weights c.section_id ls next h)
            (add_channel-HasSection l.0 weight k l.1 [] fs (λ s known. cc)),
        add_channels-HasSection k weights ls next,
      )

  module _ (P : FusedCandidate floats → Type 0) where
    insert_ranked-new :
        (f : FusedCandidate floats) (gs : List (FusedCandidate floats))
        → P f
        → Exists P (insert_ranked floats f gs)
    unfolding insert_ranked
    insert_ranked-new f [] h = here h
    insert_ranked-new f (g ∷ gs) h =
        if-cases (Exists P) (comes_before floats f g) _ (g ∷ insert_ranked floats f gs)
          (λ first. here h) (λ later. there (insert_ranked-new f gs h))

    insert_ranked-old :
        (f : FusedCandidate floats) (gs : List (FusedCandidate floats))
        → Exists P gs
        → Exists P (insert_ranked floats f gs)
    unfolding insert_ranked
    insert_ranked-old f [] e = elim e [ ]
    insert_ranked-old f (g ∷ gs) e =
        if-cases (Exists P) (comes_before floats f g) _ (g ∷ insert_ranked floats f gs)
          (λ first. there e)
          (λ later. elim e [ here h ↦ here h | there rest ↦ there (insert_ranked-old f gs rest) ])

    sort_ranked-Exists :
        (fs : List (FusedCandidate floats)) → Exists P fs → Exists P (sort_ranked floats fs)
    unfolding sort_ranked
    sort_ranked-Exists [] e = elim e [ ]
    sort_ranked-Exists (f ∷ fs) e = elim e [
      | here h ↦ insert_ranked-new f (sort_ranked floats fs) h
      | there rest ↦ insert_ranked-old f (sort_ranked floats fs) (sort_ranked-Exists fs rest)
    ]

  -- Every section of the ranked lists has a fused candidate.
  pub fused_candidates-HasSection :
      (ranked_lists : List (Text × List Candidate)) (rrf_k : ℕ)
      (route_weights : List (Text × Float))
      → All
          (λ l.
            All
              (λ c.
                HasSection c.section_id (fused_candidates floats ranked_lists rrf_k route_weights))
              l.1)
          ranked_lists
  unfolding fused_candidates
  fused_candidates-HasSection ranked_lists rrf_k route_weights =
      let weights =
        if is_empty route_weights then default_route_weights floats else route_weights in
      let merged = add_channels floats rrf_k weights ranked_lists [] in
      All-imp (λ l. All (λ c. HasSection c.section_id merged) l.1)
        (λ l. All (λ c. HasSection c.section_id (sort_ranked floats merged)) l.1) ranked_lists
        (λ l h.
          All-imp (λ c. HasSection c.section_id merged)
            (λ c. HasSection c.section_id (sort_ranked floats merged)) l.1
            (λ c e. sort_ranked-Exists (λ f. f.candidate.section_id ≡ c.section_id) merged e) h)
        (add_channels-HasSection rrf_k weights ranked_lists [])
