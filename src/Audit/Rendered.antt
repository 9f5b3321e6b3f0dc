-- ===== src/Audit/Rendered.antt =====
-- What the text and the status of an answer are that passes the last checks of
-- `verify_grounded_answer` (agents/auditor.py).
use creditlens.Base.{
  ◌≡◌, refl, sym, ◌∙◌, subst, Bool, true, false, inl, inr, ◌⊎◌, some, List, map, ◌&&◌, not,
  not-false,
}
use creditlens.Base.Text.{codes, text_eq, text_eq_sound}
use creditlens.Audit.Artifacts.{
  AgentClaim, AnswerStatus, answered, abstained, needs_review, GroundedAnswer, Code, plain,
  AuditResult,
}
use creditlens.Audit.Contract.{is_blank}
use creditlens.Audit.Grounded.{
  is_same_status, reject_answer, reject_answer_if, has_duplicates, derive_status,
}
use creditlens.Audit.Answer.{
  Guards, strip, expected_answer, answer_text, check_text, check_answer, check_marked, mark_status,
  mismatch_code,
}
use creditlens.Audit.Passing.{Passes, if-Passes}
use creditlens.Audit.Deriving.{
  IsDerived, derive_status-IsDerived, same_status-eq, requires_normalization-status,
}

module _ (guards : Guards) where
  -- The answer's text fits the status that was derived.
  abbrev pub IsRendered : AnswerStatus → GroundedAnswer → List AgentClaim → Bool → Type 0
  IsRendered answered g cs normalized =
      strip guards (answer_text guards g.direct_answer) ≡ expected_answer guards cs
  IsRendered needs_review g cs normalized = (is_blank g.direct_answer ≡ true) ⊎ (normalized ≡ true)
  IsRendered abstained g cs normalized =
      (is_blank g.direct_answer ≡ true) × (is_blank g.abstention_reason ≡ false)

  blank_or_normalized : (b n : Bool) → (not b && not n) ≡ false → (b ≡ true) ⊎ (n ≡ true)
  blank_or_normalized true n h = inl refl
  blank_or_normalized false true h = inr refl
  blank_or_normalized false false h = cc

  text-Passes :
      (d : AnswerStatus) (g : GroundedAnswer) (cs : List AgentClaim) (r : AuditResult)
      → Passes (check_text guards d g cs r)
      → Passes r × IsRendered d g cs r.review_normalization_required
  unfolding check_text
  text-Passes abstained g cs r h =
      let (one, reasoned) =
        if-Passes (is_blank g.abstention_reason) (plain (codes "ABSTENTION_REASON_REQUIRED"))
          (reject_answer_if (not (is_blank g.direct_answer))
            (plain (codes "ABSTENTION_MUST_NOT_HAVE_DIRECT_ANSWER")) r)
          h in
      let (start, silent) =
        if-Passes (not (is_blank g.direct_answer))
          (plain (codes "ABSTENTION_MUST_NOT_HAVE_DIRECT_ANSWER")) r one in
      (start, (not-false _ silent, reasoned))
  text-Passes needs_review g cs r h =
      let (start, silent) =
        if-Passes (not (is_blank g.direct_answer) && not r.review_normalization_required)
          (plain (codes "NEEDS_REVIEW_MUST_NOT_HAVE_DIRECT_ANSWER")) r h in
      (start, blank_or_normalized (is_blank g.direct_answer) r.review_normalization_required silent)
  text-Passes answered g cs r h =
      let (start, exact) =
        if-Passes
          (not (
            text_eq (strip guards (answer_text guards g.direct_answer))
              (expected_answer guards cs)))
          (plain (codes "DIRECT_ANSWER_NOT_EXACT_CLAIM_RENDERING")) r h in
      (start, text_eq_sound _ _ (not-false _ exact))

  -- What the answer of a result is that passes, by the status that was derived.
  pub record IsAnswered (g : GroundedAnswer) (cs : List AgentClaim) (r : AuditResult) : Type 0 where
    pub status : AnswerStatus
    pub derived : r.derived_answer_status ≡ some status
    pub by_rule : IsDerived status g cs r.needs_human_review_claim_ids
    pub fits :
        (g.answer_status ≡ status)
        ⊎ ((r.review_normalization_required ≡ true)
            × (g.answer_status ≡ answered)
            × (status ≡ needs_review))
    pub rendered : IsRendered status g cs r.review_normalization_required
    pub distinct_claims : has_duplicates (map (λ c. c.claim_id) cs) ≡ false

  -- The marks of a result that the later checks keep.
  abbrev SameMarks : AuditResult → AuditResult → Type 0
  SameMarks r s =
      (r.derived_answer_status ≡ s.derived_answer_status)
      × (r.review_normalization_required ≡ s.review_normalization_required)
      × (r.needs_human_review_claim_ids ≡ s.needs_human_review_claim_ids)

  if-SameMarks :
      (b : Bool) (code : Code) (r : AuditResult) → SameMarks (reject_answer_if b code r) r
  unfolding reject_answer_if reject_answer
  if-SameMarks true code r = (refl, refl, refl)
  if-SameMarks false code r = (refl, refl, refl)

  text-SameMarks :
      (d : AnswerStatus) (g : GroundedAnswer) (cs : List AgentClaim) (r : AuditResult)
      → SameMarks (check_text guards d g cs r) r
  unfolding check_text
  text-SameMarks abstained g cs r =
      let inner =
        if-SameMarks (not (is_blank g.direct_answer))
          (plain (codes "ABSTENTION_MUST_NOT_HAVE_DIRECT_ANSWER")) r in
      let outer =
        if-SameMarks (is_blank g.abstention_reason) (plain (codes "ABSTENTION_REASON_REQUIRED"))
          _ in
      (outer.0 ∙ inner.0, outer.1 ∙ inner.1, outer.2 ∙ inner.2)
  text-SameMarks needs_review g cs r =
      if-SameMarks _ (plain (codes "NEEDS_REVIEW_MUST_NOT_HAVE_DIRECT_ANSWER")) r
  text-SameMarks answered g cs r =
      if-SameMarks _ (plain (codes "DIRECT_ANSWER_NOT_EXACT_CLAIM_RENDERING")) r

  -- The last checks, from the marked result on.
  marked-Passes :
      (d : AnswerStatus) (g : GroundedAnswer) (cs : List AgentClaim) (marked : AuditResult)
      → marked.derived_answer_status ≡ some d
      → IsDerived d g cs marked.needs_human_review_claim_ids
      → (marked.review_normalization_required ≡ true
          → (g.answer_status ≡ answered) × (d ≡ needs_review))
      → Passes (check_marked guards d g cs marked)
      → Passes marked × IsAnswered g cs (check_marked guards d g cs marked)
  unfolding check_marked
  marked-Passes d g cs marked is_derived by_rule normal h =
      let mismatched =
        not (is_same_status g.answer_status d) && not marked.review_normalization_required in
      let code = mismatch_code guards g.answer_status d in
      let duplicate : Code = plain (codes "DUPLICATE_CLAIM_ID") in
      let matched = reject_answer_if mismatched code marked in
      let texted = check_text guards d g cs matched in
      let repeated = has_duplicates (map (λ c. c.claim_id) cs) in
      let (passing, single) = if-Passes repeated duplicate texted h in
      let (fitting, rendered) = text-Passes d g cs matched passing in
      let (start, fits) = if-Passes mismatched code marked fitting in
      let at_match = if-SameMarks mismatched code marked in
      let at_text = text-SameMarks d g cs matched in
      let at_end = if-SameMarks repeated duplicate texted in
      let normalized = at_end.1 ∙ at_text.1 in
      (
        start,
        record {
          status = d;
          derived = at_end.0 ∙ at_text.0 ∙ at_match.0 ∙ is_derived;
          fits = elim (blank_or_normalized _ marked.review_normalization_required fits) [
            | inl same ↦ inl (same_status-eq g.answer_status d same)
            | inr marks ↦
                let (actual, reviewed) = normal marks in
                inr (normalized ∙ at_match.1 ∙ marks, actual, reviewed)
          ];
          by_rule = subst (IsDerived d g cs) (sym (at_end.2 ∙ at_text.2 ∙ at_match.2)) by_rule;
          rendered = subst (IsRendered d g cs) (sym normalized) rendered;
          distinct_claims = single;
        },
      )

  pub answer-Passes :
      (g : GroundedAnswer) (cs : List AgentClaim) (r : AuditResult)
      → Passes (check_answer guards g cs r)
      → Passes r × IsAnswered g cs (check_answer guards g cs r)
  unfolding check_answer mark_status
  answer-Passes g cs r h =
      let derived = derive_status g cs r in
      marked-Passes derived g cs (mark_status guards g.answer_status derived r) refl
        (derive_status-IsDerived g cs r)
        (λ marks. requires_normalization-status g.answer_status derived r marks) h
