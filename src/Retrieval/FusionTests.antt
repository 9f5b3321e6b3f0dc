-- ===== src/Retrieval/FusionTests.antt =====
-- Fusion of two channels that share a section.
use creditlens.Base.{Exists, ℕ, ◌+◌, ◌/◌, ◌≡◌, refl, List, [], ◌∷◌, ltb, map, All}
use creditlens.Base.Text.{Text, codes}
use creditlens.Retrieval.Packing.{Candidate}
use creditlens.Retrieval.Fusion.{Floats, fused_candidates, rrf_fuse}
use creditlens.Retrieval.Fused.{IsFused, rrf_fuse-IsFused}
use creditlens.Retrieval.Covered.{IsSettled, rrf_fuse-IsSettled}

-- Millionths, in place of floats.
abbrev millionths : Floats
millionths = record {
  Float = ℕ;
  zero = 0;
  one = 1000000;
  plus = λ a b. a + b;
  share = λ w n. w / n;
  above = λ a b. ltb b a;
}

abbrev ranked : ℕ → ℕ → ℕ → Text → Candidate
ranked rank section document hash = record {
  section_id = section;
  document_id = document;
  document_version_id = 2;
  parse_run_id = 3;
  heading_path = [];
  text = hash;
  text_hash = hash;
  page_start = 1;
  page_end = 1;
  rank = rank;
}

-- Section 8 has the text of section 7, and document 1 is full after two sections.
abbrev channels : List (Text × List Candidate)
channels =
    (
      codes "DENSE:q1",
      ranked 1 7 1 (codes "a") ∷ ranked 2 8 1 (codes "a") ∷ ranked 3 9 1 (codes "c") ∷ [],
    )
    ∷ (
      codes "SPARSE",
      ranked 1 9 1 (codes "c") ∷ ranked 2 5 1 (codes "e") ∷ ranked 3 6 2 (codes "f") ∷ [],
    )
    ∷ []

fused-channels :
    map (λ f. f.candidate.section_id) (rrf_fuse millionths channels 60 [] 2 80) ≡ 9 ∷ 7 ∷ 6 ∷ []
unfolding rrf_fuse
fused-channels = refl

rrf_fuse-IsFused_example : IsFused millionths 2 80 (rrf_fuse millionths channels 60 [] 2 80)
rrf_fuse-IsFused_example = rrf_fuse-IsFused millionths 2 80 channels 60 []

rrf_fuse-IsSettled_example :
    All
      (λ l.
        All
          (λ c.
            Exists
              (λ f.
                (f.candidate.section_id ≡ c.section_id)
                × IsSettled millionths 2 80 (rrf_fuse millionths channels 60 [] 2 80) f)
              (fused_candidates millionths channels 60 []))
          l.1)
      channels
rrf_fuse-IsSettled_example = rrf_fuse-IsSettled millionths 2 80 channels 60 []
