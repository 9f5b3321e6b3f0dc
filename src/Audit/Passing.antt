-- ===== src/Audit/Passing.antt =====
-- What an answer is that passes the checks of `verify_grounded_answer`: each of the steps, and all.
use creditlens.Base.{
  true_not_false, ℕ, ◌≡◌, refl, sym, ◌∙◌, ap, Bool, true, false, Bool-cases, inl, inr, List, [],
  ◌∷◌, ◌++◌, ◌&&◌, &&_true, not, not-false, if-split, contains, is_empty, any, any-All, all, filter,
  All, All-imp, arith,
}
use creditlens.Base.Text.{Text, codes}
use creditlens.Cases.Tables.{CaseDb}
use creditlens.Cases.Trusted.{distinct}
use creditlens.Retrieval.Expanding.{sorted_by, insert_by}
use creditlens.Audit.Artifacts.{AgentEvidenceRef, AgentClaim, Code, plain, AuditResult}
use creditlens.Audit.Contract.{is_supported}
use creditlens.Audit.Grounded.{
  NumericSpan, same_texts, reject_answer, reject_claim, flag_claim, reject_answer_if,
  reject_unknown, cited_texts,
}
use creditlens.Audit.Answer.{
  Guards, span_keys, reject_spans, flag_if, check_cited_claim, check_claims,
}

-- The result is one that still passes.
abbrev pub Passes : AuditResult → Type 0
Passes r = r.grounded_answer_ok ≡ true

pub if-Passes :
    (b : Bool) (code : Code) (r : AuditResult)
    → Passes (reject_answer_if b code r)
    → Passes r × (b ≡ false)
unfolding reject_answer_if reject_answer
if-Passes true code r h = cc
if-Passes false code r h = (h, refl)

pub unknown-Passes :
    (is : List ℕ) (r : AuditResult) → Passes (reject_unknown is r) → Passes r × (is ≡ [])
unfolding reject_unknown reject_answer
unknown-Passes [] r h = (h, refl)
unknown-Passes (i ∷ is) r h = let (before, rest) = unknown-Passes is _ h in cc

insert_by-nonempty :
    (key : ℕ → ℕ) (x : ℕ) (ys : List ℕ) → insert_by key x ys ≡ [] → is_empty (x ∷ ys) ≡ true
unfolding insert_by
insert_by-nonempty key x [] h = cc
insert_by-nonempty key x (y ∷ ys) h = ground (arith, h)

pub sorted_by-nil : (key : ℕ → ℕ) (xs : List ℕ) → sorted_by key xs ≡ [] → xs ≡ []
unfolding sorted_by
sorted_by-nil key [] h = refl
sorted_by-nil key (x ∷ xs) h = ground (arith, insert_by-nonempty key x (sorted_by key xs) h)

pub distinct-nil : (xs : List ℕ) → distinct xs ≡ [] → xs ≡ []
unfolding distinct
distinct-nil [] h = refl
distinct-nil (x ∷ xs) h =
    elim (if-split (λ ys. ys ≡ []) (contains x (distinct xs)) (distinct xs) (x ∷ distinct xs) h) [
      | inl (known, none_left) ↦ absurd (true_not_false (sym known ∙ ap (contains x) none_left))
      | inr (new, some_left) ↦ cc
    ]

pub filter_nil-All :
    (allowed is : List ℕ)
    → filter (λ i. not (contains i allowed)) is ≡ []
    → All (λ i. contains i allowed ≡ true) is
filter_nil-All allowed [] h = tt
filter_nil-All allowed (i ∷ is) h = elim (Bool-cases (contains i allowed)) [
  | inl known ↦ (known, filter_nil-All allowed is (ground (arith, known, h)))
  | inr new ↦ ground (arith, new, h)
]

pub all-All : (p : ℕ → Bool) (xs : List ℕ) → all p xs ≡ true → All (λ x. p x ≡ true) xs
all-All p [] h = tt
all-All p (x ∷ xs) h = let parts = &&_true (p x) (all p xs) h in (parts.0, all-All p xs parts.1)

module _ (guards : Guards) where
  open guards use {
    numeric_spans, has_polarity_conflict, has_threshold_conflict, has_coverage, is_space,
  }

  spans-Passes :
      (i : ℕ) (keys : List (List Text)) (ss : List NumericSpan) (r : AuditResult)
      → Passes (reject_spans guards i keys ss r)
      → Passes r × All (λ s. any (same_texts s.key) keys ≡ true) ss
  unfolding reject_spans reject_claim
  spans-Passes i keys [] r h = (h, tt)
  spans-Passes i keys (s ∷ ss) r h =
      let (before, rest) = spans-Passes i keys ss _ h in
      elim (if-split Passes (any (same_texts s.key) keys) r _ before) [
        | inl (quoted, passing) ↦ (passing, (quoted, rest))
        | inr (unquoted, failing) ↦ absurd (true_not_false (sym failing))
      ]

  flag-Passes :
      (b : Bool) (c : AgentClaim) (code : Text) (r : AuditResult)
      → Passes (flag_if guards b c code r)
      → Passes r
  unfolding flag_if flag_claim
  flag-Passes b c code r h =
      elim (if-split Passes
        (is_supported c.verdict && not (contains c.claim_id r.rejected_claim_ids) && b)
        (flag_claim c.claim_id (plain code) r) r h) [
          | inr (kept, passing) ↦ passing
          | inl (flagged, passing) ↦
              elim (if-split Passes (contains c.claim_id r.rejected_claim_ids) r _ passing) [
                | inl (rejected, same) ↦ same
                | inr (open_claim, same) ↦ same
              ]
        ]

  -- What a claim of a grounded answer has: its citations are of the packed context, and every number
  -- and date of the statement is quoted from a section that it cites in its support.
  pub record IsQuoted (allowed : List ℕ) (es : List AgentEvidenceRef) (db : CaseDb) (c : AgentClaim)
      : Type 0 where
    pub in_context :
        All (λ i. contains i allowed ≡ true) (c.supporting_evidence_ids ++ c.opposing_evidence_ids)
    pub quotes :
        All
          (λ s.
            any (same_texts s.key) (span_keys guards (cited_texts c.supporting_evidence_ids es db))
            ≡ true)
          (numeric_spans c.statement)

  all_known :
      (allowed is : List ℕ)
      → any (λ i. not (contains i allowed)) is ≡ false
      → All (λ i. contains i allowed ≡ true) is
  all_known allowed is h =
      All-imp (λ i. not (contains i allowed) ≡ false) (λ i. contains i allowed ≡ true) is
        (λ i k. not-false _ k) (any-All _ is h)

  check_cited_claim-Passes :
      (allowed : List ℕ) (es : List AgentEvidenceRef) (db : CaseDb) (c : AgentClaim)
      (r : AuditResult)
      → Passes (check_cited_claim guards allowed es db c r)
      → Passes r × IsQuoted allowed es db c
  unfolding check_cited_claim reject_claim
  check_cited_claim-Passes allowed es db c r h =
      let directed = flag-Passes _ c (codes "STRUCTURAL_COVERAGE_INSUFFICIENT") _ h in
      let agreed =
        flag-Passes _ c (codes "THRESHOLD_DIRECTION_CONFLICT_WITH_CITATION") _ directed in
      let quoted = flag-Passes _ c (codes "POLARITY_CONFLICT_WITH_CITATION") _ agreed in
      let (in_context, quotes) =
        spans-Passes c.claim_id (span_keys guards (cited_texts c.supporting_evidence_ids es db))
          (numeric_spans c.statement) _ quoted in
      let ids = c.supporting_evidence_ids ++ c.opposing_evidence_ids in
      elim (if-split Passes (any (λ i. not (contains i allowed)) ids) _ r in_context) [
        | inl (foreign, failing) ↦ absurd (true_not_false (sym failing))
        | inr (known, passing) ↦
            (passing, record { in_context = all_known allowed ids known; quotes = quotes })
      ]

  pub check_claims-Passes :
      (allowed : List ℕ) (es : List AgentEvidenceRef) (db : CaseDb) (cs : List AgentClaim)
      (r : AuditResult)
      → Passes (check_claims guards allowed es db cs r)
      → Passes r × All (IsQuoted allowed es db) cs
  unfolding check_claims
  check_claims-Passes allowed es db [] r h = (h, tt)
  check_claims-Passes allowed es db (c ∷ cs) r h =
      let (before, rest) = check_claims-Passes allowed es db cs _ h in
      let (start, own) = check_cited_claim-Passes allowed es db c r before in (start, (own, rest))
