-- ===== src/Retrieval/Fusion.antt =====
-- `rrf_fuse` (retrieval/fusion.py). The arithmetic of scores and weights on floats is a parameter.
use creditlens.Base.{
  ℕ, ◌+◌, Bool, false, Option, none, some, List, [], ◌∷◌, ◌++◌, ◌&&◌, ◌||◌, not, ◌==◌, leb, ltb,
  if◌then◌else◌, length, any, is_empty, contains, count,
}
use creditlens.Base.Text.{Text, codes, text_eq}
use creditlens.Retrieval.Packing.{Candidate}

-- What the fusion uses of floats: 0.0, 1.0, `a + b`, `w / n` and `a > b`.
pub record Floats : Type 1 where
  pub Float : Type 0
  pub zero : Float
  pub one : Float
  pub plus : Float → Float → Float
  pub share : Float → ℕ → Float
  pub above : Float → Float → Bool

-- `channel.split(":", 1)[0]`
unfoldable pub before_colon : Text → Text
before_colon [] = []
before_colon (c ∷ cs) = if c == b':' then [] else c ∷ before_colon cs

module _ (floats : Floats) where
  open floats use {Float, zero, one, plus, share, above}

  pub record FusedCandidate : Type 0 where
    pub candidate : Candidate
    pub fusion_score : Float
    pub channel_ranks : List (Text × ℕ)

  unfoldable pub lookup_weight : Text → List (Text × Float) → Option Float
  lookup_weight channel [] = none
  lookup_weight channel (w ∷ ws) =
      if text_eq channel w.0 then some w.1 else lookup_weight channel ws

  -- DEFAULT_ROUTE_WEIGHTS
  unfoldable pub default_route_weights : List (Text × Float)
  default_route_weights =
      (codes "DENSE", one)
      ∷ (codes "SPARSE", one)
      ∷ (codes "SUMMARY", one)
      ∷ (codes "EXACT", one)
      ∷ []

  unfoldable pub route_weight : Text → List (Text × Float) → Float
  unfolding lookup_weight before_colon
  route_weight channel weights = elim (lookup_weight channel weights) [
    | some w ↦ w
    | none ↦ elim (lookup_weight (before_colon channel) weights) [ some w ↦ w | none ↦ one ]
  ]

  unfoldable pub has_section : ℕ → FusedCandidate → Bool
  has_section i f = f.candidate.section_id == i

  -- One more rank of a section: the first candidate of it is kept.
  unfoldable pub add_rank : Text → Float → Candidate → List FusedCandidate → List FusedCandidate
  unfolding has_section
  add_rank channel score c [] =
      record {
        candidate = c;
        fusion_score = plus zero score;
        channel_ranks = (channel, c.rank) ∷ [];
      }
      ∷ []
  add_rank channel score c (f ∷ fs) =
      let rest = add_rank channel score c fs in
      if has_section c.section_id f
      then record f {
        fusion_score = plus f.fusion_score score;
        channel_ranks = f.channel_ranks ++ (channel, c.rank) ∷ [];
      }
        ∷ fs
      else f ∷ rest

  -- The candidates of one channel, each section once.
  unfoldable pub add_channel :
      Text → Float → ℕ → List ℕ → List Candidate → List FusedCandidate → List FusedCandidate
  unfolding add_rank
  add_channel channel weight k seen [] fs = fs
  add_channel channel weight k seen (c ∷ cs) fs =
      let known = contains c.section_id seen in
      add_channel channel weight k (if known then seen else c.section_id ∷ seen) cs
        (if known then fs else add_rank channel (share weight (k + c.rank)) c fs)

  unfoldable pub add_channels :
      ℕ
      → List (Text × Float)
      → List (Text × List Candidate)
      → List FusedCandidate
      → List FusedCandidate
  unfolding add_channel route_weight
  add_channels k weights [] fs = fs
  add_channels k weights (l ∷ ls) fs =
      add_channels k weights ls (add_channel l.0 (route_weight l.0 weights) k [] l.1 fs)

  -- The order of the sorted list: a higher score first, then a higher section id.
  unfoldable pub comes_before : FusedCandidate → FusedCandidate → Bool
  comes_before f g =
      above f.fusion_score g.fusion_score
      || (not (above g.fusion_score f.fusion_score)
          && ltb g.candidate.section_id f.candidate.section_id)

  unfoldable pub insert_ranked : FusedCandidate → List FusedCandidate → List FusedCandidate
  unfolding comes_before
  insert_ranked f [] = f ∷ []
  insert_ranked f (g ∷ gs) =
      let rest = insert_ranked f gs in if comes_before f g then f ∷ g ∷ gs else g ∷ rest

  unfoldable pub sort_ranked : List FusedCandidate → List FusedCandidate
  unfolding insert_ranked
  sort_ranked [] = []
  sort_ranked (f ∷ fs) = insert_ranked f (sort_ranked fs)

  -- The loop over the sorted list: `documents` has one entry for each count of `doc_counts`, and
  -- `stopped` is set by the `break`.
  pub record Picking : Type 0 where
    pub seen_hashes : List Text
    pub documents : List ℕ
    pub picked : List FusedCandidate
    pub stopped : Bool

  unfoldable pub is_skipped : ℕ → FusedCandidate → Picking → Bool
  is_skipped cap f p =
      p.stopped
      || any (text_eq f.candidate.text_hash) p.seen_hashes
      || leb cap (count f.candidate.document_id p.documents)

  unfoldable pub append_pick : ℕ → FusedCandidate → Picking → Picking
  append_pick limit f p = record {
    seen_hashes = f.candidate.text_hash ∷ p.seen_hashes;
    documents = f.candidate.document_id ∷ p.documents;
    picked = p.picked ++ f ∷ [];
    stopped = leb limit (length (p.picked ++ f ∷ []));
  }

  unfoldable pub pick : ℕ → ℕ → FusedCandidate → Picking → Picking
  unfolding is_skipped append_pick
  pick cap limit f p = if is_skipped cap f p then p else append_pick limit f p

  unfoldable pub pick_all : ℕ → ℕ → List FusedCandidate → Picking → Picking
  unfolding pick
  pick_all cap limit [] p = p
  pick_all cap limit (f ∷ fs) p = pick_all cap limit fs (pick cap limit f p)

  unfoldable pub no_picks : Picking
  no_picks = record { seen_hashes = []; documents = []; picked = []; stopped = false }

  -- The list `fused`.
  unfoldable pub fused_candidates :
      List (Text × List Candidate) → ℕ → List (Text × Float) → List FusedCandidate
  unfolding default_route_weights add_channels sort_ranked
  fused_candidates ranked_lists rrf_k route_weights =
      let weights = if is_empty route_weights then default_route_weights else route_weights in
      sort_ranked (add_channels rrf_k weights ranked_lists [])

  unfoldable pub rrf_fuse :
      List (Text × List Candidate) → ℕ → List (Text × Float) → ℕ → ℕ → List FusedCandidate
  unfolding fused_candidates pick_all no_picks
  rrf_fuse ranked_lists rrf_k route_weights cap limit =
      (pick_all cap limit (fused_candidates ranked_lists rrf_k route_weights) no_picks).picked
