-- ===== src/Audit/Grounding.antt =====
-- What an answer is that passes the checks of `verify_grounded_answer` (agents/auditor.py).
use creditlens.Base.{
  true_not_false, ℕ, ◌≡◌, refl, sym, ◌∙◌, ap, subst, Bool, true, false, Option, List, [], ◌∷◌, map,
  &&_true, not, not-false, if◌then◌else◌, contains, is_empty, all, filter, All,
}
use creditlens.Base.Text.{Text, codes}
use creditlens.Base.Result.{Result, ok, err, ◌>>=◌, ok_cancel}
use creditlens.Supervisor.Agents.{is_failed_status}
use creditlens.Formulas.Decimal.{Decimal}
use creditlens.Formulas.Engine.{FormulaDefinition, Inputs, EvalError}
use creditlens.Cases.Tables.{CaseDb, TrustedRequestContext, SnapshotContext}
use creditlens.Cases.Trusted.{distinct}
use creditlens.Retrieval.Expanding.{sorted_by}
use creditlens.Audit.Artifacts.{AgentArtifact, GroundedAnswer, Code, plain, AuditResult}
use creditlens.Audit.Verify.{verify}
use creditlens.Audit.Grounded.{reject_answer_if, reject_unknown, same_members, cited_ids}
use creditlens.Audit.Answer.{
  Guards, check_claims, breaks_matrix, matrix_code, failed_answer, check_grounded, check_audited,
  verify_grounded_answer,
}
use creditlens.Audit.Passing.{
  Passes, if-Passes, unknown-Passes, sorted_by-nil, distinct-nil, filter_nil-All, all-All, IsQuoted,
  check_claims-Passes,
}
use creditlens.Audit.Rendered.{IsAnswered, answer-Passes}

module _ (guards : Guards) where
  module _ (dec : Decimal) (allowed : List ℕ) (db : CaseDb) (a : AgentArtifact dec)
      (g : GroundedAnswer) where
    abbrev ids : List ℕ
    ids = map (λ e. e.evidence_id) a.evidence

    -- The answer is grounded, by the result that it passes with.
    pub record IsGrounded (r : AuditResult) : Type 0 where
      pub in_context : All (λ i. contains i allowed ≡ true) ids
      pub all_cited : All (λ i. contains i (cited_ids a.claims) ≡ true) ids
      pub all_listed : All (λ i. contains i ids ≡ true) (cited_ids a.claims)
      pub quoted : All (IsQuoted guards allowed a.evidence db) a.claims
      pub answer : IsAnswered guards g a.claims r

    check_grounded-Passes :
        (r : AuditResult)
        → Passes (check_grounded guards dec allowed db a g r)
        → IsGrounded (check_grounded guards dec allowed db a g r)
    unfolding check_grounded same_members
    check_grounded-Passes r h =
        let foreign = filter (λ i. not (contains i allowed)) ids in
        let known = reject_unknown (sorted_by (λ i. i) (distinct foreign)) r in
        let uncited = not (same_members ids (cited_ids a.claims)) in
        let code : Code = plain (codes "ARTIFACT_EVIDENCE_NOT_EXACTLY_CITED") in
        let start = reject_answer_if uncited code known in
        let (claimed, answer) =
          answer-Passes guards g a.claims (check_claims guards allowed a.evidence db a.claims start)
            h in
        let (cited, quoted) =
          check_claims-Passes guards allowed a.evidence db a.claims start claimed in
        let (first, exact) = if-Passes uncited code known cited in
        let (_, none_foreign) = unknown-Passes (sorted_by (λ i. i) (distinct foreign)) r first in
        let listed = all (λ i. contains i (cited_ids a.claims)) ids in
        let members =
          &&_true listed (all (λ i. contains i ids) (cited_ids a.claims)) (not-false _ exact) in
        record {
          in_context =
              filter_nil-All allowed ids
                (distinct-nil foreign (sorted_by-nil (λ i. i) (distinct foreign) none_foreign));
          all_cited = all-All _ ids members.0;
          all_listed = all-All _ (cited_ids a.claims) members.1;
          quoted = quoted;
          answer = answer;
        }

    unless_failed :
        (b : Bool) (x y : AuditResult)
        → (Passes x → IsGrounded x)
        → y.grounded_answer_ok ≡ false
        → Passes (if b then x else y)
        → IsGrounded (if b then x else y)
    unless_failed true x y grounded failing h = grounded h
    unless_failed false x y grounded failing h = absurd (true_not_false (sym h ∙ failing))

    check_audited-Passes :
        (r : AuditResult)
        → Passes (check_audited guards dec allowed db a g r)
        → IsGrounded (check_audited guards dec allowed db a g r)
    unfolding check_audited
    check_audited-Passes r h =
        unless_failed (is_empty r.blocking_failures) (check_grounded guards dec allowed db a g r) _
          (check_grounded-Passes r) refl h

    audited-Passes :
        (audited : Result EvalError AuditResult) (r : AuditResult)
        → (audited >>= λ s. ok (check_audited guards dec allowed db a g s)) ≡ ok r
        → Passes r
        → IsGrounded r
    audited-Passes (err e) r h passing = cc
    audited-Passes (ok s) r h passing =
        let same = ok_cancel (check_audited guards dec allowed db a g s) r h in
        subst IsGrounded same
          (check_audited-Passes s (ap (λ x. x.grounded_answer_ok) same ∙ passing))

    unless_refused :
        (b : Bool) (code : Code) (audited : Result EvalError AuditResult) (r : AuditResult)
        → (audited ≡ ok r → Passes r → IsGrounded r)
        → (if b then ok (failed_answer guards code) else audited) ≡ ok r
        → Passes r
        → IsGrounded r
    unfolding failed_answer
    unless_refused true code audited r grounded h passing = absurd (
        true_not_false (
          sym passing
          ∙ sym (ap (λ x. x.grounded_answer_ok) (ok_cancel (failed_answer guards code) r h))))
    unless_refused false code audited r grounded h passing = grounded h passing

    -- An answer passes `verify_grounded_answer` only if it is grounded: every piece of evidence is of the
    -- packed context and cited by a claim, every citation is in evidence and of the packed context,
    -- every number and date of a claim is quoted from a section that it cites in support, and no two
    -- claims have the same id. The derived status is ABSTAINED without claims, and with claims ANSWERED
    -- if no conflict, no missing information, no claim left to a human and no doubtful claim is there,
    -- and NEEDS_REVIEW otherwise; the answer's own status is the derived one, or is ANSWERED where
    -- NEEDS_REVIEW was derived and the result asks for a normalisation. Where ANSWERED was derived, the
    -- text is exactly that of the supported claims; an abstention has no text but a reason; where a
    -- review is needed there is no text, unless a normalisation is asked for, which leaves the text
    -- unchecked. Holds whatever the lexical guards find.
    pub verify_grounded_answer-IsGrounded :
        (hash_trace : FormulaDefinition dec → Inputs dec → Text)
        (formulas : List (FormulaDefinition dec)) (is_digit : ℕ → Bool)
        (trusted : TrustedRequestContext) (snapshot : Option SnapshotContext) (r : AuditResult)
        → verify_grounded_answer guards dec hash_trace formulas is_digit trusted snapshot db allowed
            a g
          ≡ ok r
        → Passes r
        → IsGrounded r
    unfolding verify_grounded_answer
    verify_grounded_answer-IsGrounded hash_trace formulas is_digit trusted snapshot r h passing =
        let actual = g.answer_status in
        let execution = a.execution_status in
        let audited = verify dec hash_trace formulas is_digit trusted snapshot db true (a ∷ []) in
        let answered = audited >>= λ s. ok (check_audited guards dec allowed db a g s) in
        unless_refused (is_failed_status execution) (plain (codes "GROUNDING_EXECUTION_FAILED")) _ r
          (unless_refused (breaks_matrix guards execution actual)
            (matrix_code guards execution actual) answered r (audited-Passes audited r))
          h passing
