-- ===== src/Retrieval/Tests.antt =====
-- Packing of two candidates and their neighbours, and the theorems on it.
use creditlens.Base.{
  ℕ, ◌≡◌, refl, Bool, true, false, some, List, [], ◌∷◌, not, ◌==◌, map, arith, All,
}
use creditlens.Base.Text.{Text, codes}
use creditlens.Base.Result.{ok}
use creditlens.Cases.Tests.{material, context, frozen}
use creditlens.Retrieval.Verifying.{Payload, verify_candidate}
use creditlens.Retrieval.Admitted.{IsAdmitted, verify_candidate-IsAdmitted}
use creditlens.Retrieval.Readable.{IsReadable, passes, pack_context-IsReadable}
use creditlens.Retrieval.Packing.{
  Candidate, DocumentSection, Library, PackedSection, packed_candidate,
}
use creditlens.Retrieval.Expanding.{
  pack_context, has_document, expansion_candidate, expanded_section,
}
use creditlens.Retrieval.Budget.{IsWithinLimits, pack_context-IsWithinLimits}
use creditlens.Retrieval.Access.{pack_context-All}

abbrev a_candidate : ℕ → Text → Candidate
a_candidate i text = record {
  section_id = i;
  document_id = 1;
  document_version_id = 2;
  parse_run_id = 3;
  heading_path = [];
  text = text;
  text_hash = text;
  page_start = 1;
  page_end = 1;
  rank = i;
}

abbrev a_section : ℕ → Text → DocumentSection
a_section i text = record {
  id = i;
  parent_section_id = some 50;
  document_version_id = 2;
  parse_run_id = 3;
  is_article_or_paragraph = true;
  ordinal = i;
  heading_path = [];
  text = text;
  text_hash = text;
  page_start = 1;
  page_end = 1;
}

abbrev a_library : Library
a_library = record {
  sections =
      a_section 4 (codes "withheld")
      ∷ a_section 5 (codes "debt ratio")
      ∷ a_section 6 (codes "coverage")
      ∷ [];
  versions = record { id = 2; document_id = 1 } ∷ [];
  documents = 1 ∷ [];
}

abbrev candidates : List Candidate
candidates = a_candidate 5 (codes "debt ratio") ∷ a_candidate 9 (codes "debt ratio") ∷ []

-- The access check that withholds section 4.
abbrev withholds : Candidate → Bool
withholds c = not (c.section_id == 4)

abbrev IsOpen : PackedSection → Type 0
IsOpen s = (s.section_id == 4) ≡ false

sections_packed :
    map (λ s. s.section_id) (pack_context withholds 100 60 a_library true candidates).sections
    ≡ 5 ∷ 6 ∷ []
unfolding pack_context expansion_candidate
sections_packed = refl

pack_context-IsWithinLimits_example :
    IsWithinLimits 100 60 (pack_context withholds 100 60 a_library true candidates)
unfolding has_document
pack_context-IsWithinLimits_example =
    pack_context-IsWithinLimits withholds 100 60 a_library (refl, tt) true candidates

pack_context-All_example :
    All IsOpen (pack_context withholds 100 60 a_library true candidates).sections
unfolding expansion_candidate expanded_section packed_candidate
pack_context-All_example =
    pack_context-All IsOpen withholds 100 60 a_library (λ rank v s h. ground (arith, h)) true
      candidates (refl, (refl, tt))

abbrev retrieved : Candidate
retrieved = record {
  section_id = 40;
  document_id = 2;
  document_version_id = 20;
  parse_run_id = 30;
  heading_path = [];
  text = [];
  text_hash = codes "h";
  page_start = 2;
  page_end = 3;
  rank = 1;
}

abbrev policy_payload : Payload
policy_payload = record { document_id = some 2; document_type = some (codes "INTERNAL_POLICY") }

abbrev admitted : Candidate
admitted = record retrieved { text = codes "debt 100" }

verify-retrieved :
    verify_candidate context (some frozen) material retrieved policy_payload ≡ ok admitted
unfolding verify_candidate
verify-retrieved = refl

verify_candidate-IsAdmitted_example :
    IsAdmitted context (some frozen) material retrieved policy_payload admitted
verify_candidate-IsAdmitted_example =
    verify_candidate-IsAdmitted context (some frozen) material retrieved policy_payload admitted
      verify-retrieved

pack_context-IsReadable_example :
    All
      (IsReadable context (some frozen) material (λ c. policy_payload))
      (pack_context
        (passes context (some frozen) material (λ c. policy_payload))
        100
        60
        a_library
        true
        (admitted ∷ [])).sections
pack_context-IsReadable_example =
    pack_context-IsReadable context (some frozen) material (λ c. policy_payload) 100 60 a_library
      true (admitted ∷ []) ((retrieved, policy_payload, verify-retrieved), tt)
