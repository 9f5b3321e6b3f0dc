-- ===== src/Audit/Counted.antt =====
-- Every claim that is judged is accepted, rejected or left to a human, once.
use creditlens.Base.{
  ℕ, ◌+◌, ◌≡◌, refl, ◌∙◌, ap, subst, Bool, true, false, not, ◌&&◌, ◌||◌, ◌==◌, Bool-cases, inl, inr,
  Option, none, some, List, [], ◌∷◌, ◌++◌, map, if◌then◌else◌, if-cases, count, count-append, arith,
  is_some,
}
use creditlens.Base.Text.{Text, codes}
use creditlens.Base.Result.{Result, ok, err, ◌>>=◌}
use creditlens.Supervisor.Agents.{is_failed_status}
use creditlens.Formulas.Decimal.{Decimal}
use creditlens.Formulas.Engine.{FormulaDefinition, Inputs, EvalError}
use creditlens.Cases.Tables.{CreditCase, CaseDb, TrustedRequestContext, SnapshotContext, get_case}
use creditlens.Audit.Artifacts.{
  AgentEvidenceRef, AgentClaim, AgentArtifact, Code, ContractViolation, AuditResult, empty_result,
  plain,
}
use creditlens.Audit.Evidence.{evidence_codes}
use creditlens.Audit.Judging.{judge_claim-cases}
use creditlens.Audit.Verify.{
  Rejection, reject_evidence, reject_all, accept, reject_with, ask_human, reject_claims,
  judge_claim, judge_claims, is_core, case_failed, block, audit_failed, check_evidence,
  judge_artifact, audit_artifact, audit_artifacts, own_case, verify,
}

zero_add : (n : ℕ) → 0 + n ≡ n
zero_add n = omega arith

-- How often the claim stands in the three lists of the result.
abbrev pub tally : ℕ → AuditResult → ℕ
tally i r =
    count i r.accepted_claim_ids
    + count i r.rejected_claim_ids
    + count i r.needs_human_review_claim_ids

abbrev pub claim_ids : List AgentClaim → List ℕ
claim_ids cs = map (λ c. c.claim_id) cs

reject-tally :
    (i j : ℕ) (cs : List Code) (r : AuditResult)
    → tally i (reject_with j cs r) ≡ tally i r + (if i == j then 1 else 0)
unfolding reject_with
reject-tally i j cs r = omega (arith, count-append i r.rejected_claim_ids (j ∷ []))

accept-tally :
    (i j : ℕ) (r : AuditResult) → tally i (accept j r) ≡ tally i r + (if i == j then 1 else 0)
unfolding accept
accept-tally i j r = omega (arith, count-append i r.accepted_claim_ids (j ∷ []))

ask-tally :
    (i j : ℕ) (r : AuditResult) → tally i (ask_human j r) ≡ tally i r + (if i == j then 1 else 0)
unfolding ask_human
ask-tally i j r = omega (arith, count-append i r.needs_human_review_claim_ids (j ∷ []))

judge_claim-tally :
    (i : ℕ) (contract : List ContractViolation) (bad failed : List ℕ) (c : AgentClaim)
    (r : AuditResult)
    → tally i (judge_claim contract bad failed c r) ≡ tally i r + (if i == c.claim_id then 1 else 0)
judge_claim-tally i contract bad failed c r =
    judge_claim-cases (λ s. tally i s ≡ tally i r + (if i == c.claim_id then 1 else 0)) contract bad
      failed c r (λ cs. reject-tally i c.claim_id cs r) (ask-tally i c.claim_id r)
      λ _. accept-tally i c.claim_id r

judge_claims-tally :
    (i : ℕ) (contract : List ContractViolation) (bad failed : List ℕ) (cs : List AgentClaim)
    (r : AuditResult)
    → tally i (judge_claims contract bad failed cs r) ≡ tally i r + count i (claim_ids cs)
unfolding judge_claims
judge_claims-tally i contract bad failed [] r = omega arith
judge_claims-tally i contract bad failed (c ∷ cs) r = omega (
  arith,
  judge_claims-tally i contract bad failed cs (judge_claim contract bad failed c r),
  judge_claim-tally i contract bad failed c r,
)

reject_claims-tally :
    (i : ℕ) (code : Code) (cs : List AgentClaim) (r : AuditResult)
    → tally i (reject_claims code cs r) ≡ tally i r + count i (claim_ids cs)
unfolding reject_claims
reject_claims-tally i code [] r = omega arith
reject_claims-tally i code (c ∷ cs) r = omega (
  arith,
  reject_claims-tally i code cs (reject_with c.claim_id (code ∷ []) r),
  reject-tally i c.claim_id (code ∷ []) r,
)

reject_all-tally :
    (i e : ℕ) (texts : List Text) (r : Rejection) → tally i (reject_all e texts r).1 ≡ tally i r.1
unfolding reject_all reject_evidence
reject_all-tally i e [] r = refl
reject_all-tally i e (t ∷ ts) r = reject_all-tally i e ts (reject_evidence e t r)

module _ (dec : Decimal) where
  -- An agent that failed, and that is neither grounded nor at the core: its claims are passed over.
  abbrev is_passed_over : AgentArtifact dec → Bool
  is_passed_over a =
      is_failed_status a.execution_status && not (is_some a.grounded || is_core a.producer)

  -- The claims that are judged: where the case is in order, all but those of an agent that failed,
  -- is not at the core of a review and gives no grounded answer.
  abbrev pub judged_ids : Bool → List (AgentArtifact dec) → List ℕ
  judged_ids case_ok [] = []
  judged_ids case_ok (a ∷ more) =
      (if case_ok && is_passed_over a then [] else claim_ids a.claims) ++ judged_ids case_ok more

  case_failed-tally :
      (i : ℕ) (artifacts : List (AgentArtifact dec)) (r : AuditResult)
      → tally i (case_failed dec artifacts r) ≡ tally i r + count i (judged_ids false artifacts)
  unfolding case_failed
  case_failed-tally i [] r = omega arith
  case_failed-tally i (a ∷ more) r =
      let code : Code = plain (codes "CASE_VALIDATION_FAILED") in
      omega (
        arith,
        case_failed-tally i more (reject_claims code a.claims r),
        reject_claims-tally i code a.claims r,
        count-append i (claim_ids a.claims) (judged_ids false more),
      )

  audit_failed-tally :
      (i : ℕ) (a : AgentArtifact dec) (r : AuditResult)
      → is_failed_status a.execution_status ≡ true
      → tally i (audit_failed dec a r)
        ≡ tally i r + count i (if is_passed_over a then [] else claim_ids a.claims)
  unfolding audit_failed block
  audit_failed-tally i a r failed = elim (Bool-cases (is_some a.grounded)) [
    | inl grounded ↦ rw (failed, grounded) (reject_claims-tally i _ a.claims (block _ r))
    | inr other ↦ elim (Bool-cases (is_core a.producer)) [
      | inl core ↦ rw (failed, other, core) (reject_claims-tally i _ a.claims (block _ r))
      | inr peripheral ↦ rw (failed, other, peripheral) (omega arith)
    ]
  ]

  -- The tally of the result, where there is one.
  abbrev Tallies : ℕ → ℕ → Result EvalError AuditResult → Type 0
  Tallies i n (ok r) = tally i r ≡ n
  Tallies i n (err e) = Unit

  module _ (hash_trace : FormulaDefinition dec → Inputs dec → Text)
      (formulas : List (FormulaDefinition dec)) (is_digit : ℕ → Bool)
      (trusted : TrustedRequestContext) (snapshot : Option SnapshotContext) (db : CaseDb)
      (allowed : Bool) where
    check_evidence-tally :
        (i : ℕ) (case : CreditCase) (a : AgentArtifact dec) (failed : List ℕ)
        (es : List AgentEvidenceRef) (r : Rejection)
        → tally i
            (check_evidence dec hash_trace formulas is_digit trusted snapshot db allowed case a
              failed es r).1
          ≡ tally i r.1
    unfolding check_evidence
    check_evidence-tally i case a failed [] r = refl
    check_evidence-tally i case a failed (e ∷ es) r =
        check_evidence-tally i case a failed es _
        ∙ reject_all-tally i e.evidence_id
            (evidence_codes dec trusted snapshot db case a.calculations failed e) r

    judge_artifact-tally :
        (i : ℕ) (case : CreditCase) (a : AgentArtifact dec) (failed : List ℕ) (r : AuditResult)
        → tally i (
            judge_artifact dec hash_trace formulas is_digit trusted snapshot db allowed case a
              failed r)
          ≡ tally i r + count i (claim_ids a.claims)
    unfolding judge_artifact
    judge_artifact-tally i case a failed r =
        judge_claims-tally i _ _ failed a.claims _
        ∙ ap (λ n. n + count i (claim_ids a.claims))
            (check_evidence-tally i case a failed a.evidence
              ([], record r { replay_failures = r.replay_failures ++ failed }))

    replayed-Tallies :
        (i : ℕ) (case : CreditCase) (a : AgentArtifact dec) (r : AuditResult)
        (replayed : Result EvalError (List ℕ))
        → Tallies i (tally i r + count i (claim_ids a.claims)) (
            replayed >>= λ failed. ok (
              judge_artifact dec hash_trace formulas is_digit trusted snapshot db allowed case a
                failed r))
    replayed-Tallies i case a r (ok failed) = judge_artifact-tally i case a failed r
    replayed-Tallies i case a r (err e) = tt

    audit_artifact-Tallies :
        (i : ℕ) (case : CreditCase) (a : AgentArtifact dec) (r : AuditResult)
        → Tallies i
            (tally i r + count i (if is_passed_over a then [] else claim_ids a.claims))
            (audit_artifact dec hash_trace formulas is_digit trusted snapshot db allowed case a r)
    unfolding audit_artifact
    audit_artifact-Tallies i case a r =
        if-cases
          (Tallies i (tally i r + count i (if is_passed_over a then [] else claim_ids a.claims)))
          (is_failed_status a.execution_status) _ _ (λ failed. audit_failed-tally i a r failed)
          λ ran. rw ran (replayed-Tallies i case a r _)

    then-Tallies :
        (i n m : ℕ) (x : Result EvalError AuditResult)
        (f : AuditResult → Result EvalError AuditResult)
        → Tallies i n x
        → ((r : AuditResult) → Tallies i (tally i r + m) (f r))
        → Tallies i (n + m) (x >>= f)
    then-Tallies i n m (ok r) f h k = subst (λ t. Tallies i (t + m) (f r)) h (k r)
    then-Tallies i n m (err e) f h k = tt

    audit_artifacts-Tallies :
        (i : ℕ) (case : CreditCase) (artifacts : List (AgentArtifact dec)) (r : AuditResult)
        → Tallies i (tally i r + count i (judged_ids true artifacts)) (
            audit_artifacts dec hash_trace formulas is_digit trusted snapshot db allowed case
              artifacts r)
    unfolding audit_artifacts
    audit_artifacts-Tallies i case [] r = omega arith
    audit_artifacts-Tallies i case (a ∷ more) r =
        let own = if is_passed_over a then [] else claim_ids a.claims in
        let rest = count i (judged_ids true more) in
        subst
          (λ n. Tallies i n (
            audit_artifact dec hash_trace formulas is_digit trusted snapshot db allowed case a r
            >>= audit_artifacts dec hash_trace formulas is_digit trusted snapshot db allowed case
                more))
          (omega (arith, count-append i own (judged_ids true more)))
          (then-Tallies i (tally i r + count i own) rest _ _ (audit_artifact-Tallies i case a r)
            λ s. audit_artifacts-Tallies i case more s)

    own-Tallies :
        (i : ℕ) (artifacts : List (AgentArtifact dec)) (o : Option CreditCase)
        → Tallies i (count i (judged_ids (is_some o) artifacts)) (elim o [
          | none ↦ ok (
              case_failed dec artifacts
                (block (plain (codes "CASE_VALIDATION_FAILED")) empty_result))
          | some case ↦
              audit_artifacts dec hash_trace formulas is_digit trusted snapshot db allowed case
                artifacts empty_result
        ])
    unfolding empty_result block
    own-Tallies i artifacts none =
        case_failed-tally i artifacts _ ∙ zero_add (count i (judged_ids false artifacts))
    own-Tallies i artifacts (some case) =
        subst
          (λ n. Tallies i n (
            audit_artifacts dec hash_trace formulas is_digit trusted snapshot db allowed case
              artifacts empty_result))
          (zero_add (count i (judged_ids true artifacts)))
          (audit_artifacts-Tallies i case artifacts empty_result)

    -- A claim stands among the accepted, the rejected and those that are left to a human as often in
    -- all as among the claims of the artifacts, where the audit returns: each is judged once. Where
    -- the case is the context's tenant's, the claims of an agent that failed, is not at the core of a
    -- review and gives no grounded answer are passed over; where it is not, none are.
    pub verify-tally :
        (i : ℕ) (artifacts : List (AgentArtifact dec)) (r : AuditResult)
        → verify dec hash_trace formulas is_digit trusted snapshot db allowed artifacts ≡ ok r
        → tally i r
          ≡ count i
              (judged_ids (is_some (own_case trusted (get_case trusted.case_id db))) artifacts)
    unfolding verify
    verify-tally i artifacts r h =
        subst (Tallies i _) h
          (own-Tallies i artifacts (own_case trusted (get_case trusted.case_id db)))
