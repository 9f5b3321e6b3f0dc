-- ===== src/Audit/Accepted.antt =====
-- The claims that an audit accepts are vetted.
use creditlens.Base.{
  ℕ, ◌≡◌, refl, sym, ◌∙◌, subst, Bool, false, ◌==◌, ==_iff, Bool-cases, inl, inr, Option, none,
  some, List, [], ◌∷◌, ◌++◌, if◌then◌else◌, if-cases, any, All, All-imp, All-zip, Exists,
  each-Exists, is_some, some_cancel, arith,
}
use creditlens.Base.Text.{Text, codes}
use creditlens.Base.Result.{Result, ok, err, ◌>>=◌}
use creditlens.Supervisor.Agents.{is_failed_status}
use creditlens.Formulas.Decimal.{Decimal}
use creditlens.Formulas.Engine.{FormulaDefinition, Inputs, EvalError}
use creditlens.Cases.Tables.{CreditCase, CaseDb, TrustedRequestContext, SnapshotContext, get_case}
use creditlens.Audit.Artifacts.{
  AgentEvidenceRef, AgentClaim, AgentArtifact, Code, plain, AuditResult, empty_result,
}
use creditlens.Audit.Contract.{claims_violations, validate_artifact_contract}
use creditlens.Audit.Evidence.{evidence_codes}
use creditlens.Audit.Judging.{IsAccepted}
use creditlens.Audit.Verify.{
  Rejection, reject_all, reject_evidence, reject_with, reject_claims, is_core, case_failed, block,
  audit_failed, replay_all, check_evidence, judge_artifact, audit_artifact, audit_artifacts,
  own_case, verify,
}
use creditlens.Audit.Kept.{KeepsContract, contract-All, replay_all-AllReplay}
use creditlens.Audit.Vetted.{
  IsVettedIn, IsVettedClaim, judge_claims-All, accepted-IsVetted, bad_evidence,
}

reject_claims-accepted :
    (code : Code) (cs : List AgentClaim) (r : AuditResult)
    → (reject_claims code cs r).accepted_claim_ids ≡ r.accepted_claim_ids
unfolding reject_claims reject_with
reject_claims-accepted code [] r = refl
reject_claims-accepted code (c ∷ cs) r =
    reject_claims-accepted code cs (reject_with c.claim_id (code ∷ []) r)

reject_all-accepted :
    (e : ℕ) (texts : List Text) (r : Rejection)
    → (reject_all e texts r).1.accepted_claim_ids ≡ r.1.accepted_claim_ids
unfolding reject_all reject_evidence
reject_all-accepted e [] r = refl
reject_all-accepted e (t ∷ ts) r = reject_all-accepted e ts (reject_evidence e t r)

own_case-IsOwn :
    (trusted : TrustedRequestContext) (o : Option CreditCase) (case : CreditCase)
    → own_case trusted o ≡ some case
    → (o ≡ some case) × (case.tenant_id ≡ trusted.tenant_id)
unfolding own_case
own_case-IsOwn trusted none case h = cc
own_case-IsOwn trusted (some c) case h = elim (Bool-cases (c.tenant_id == trusted.tenant_id)) [
  | inl own ↦
      let same = subst (λ b. (if b then some c else none) ≡ some case) own h in
      (
        same,
        subst (λ x. x.tenant_id ≡ trusted.tenant_id) (some_cancel c case same) ((==_iff _ _).0 own),
      )
  | inr foreign ↦ ground (arith, foreign, h)
]

module _ (dec : Decimal) where
  audit_failed-accepted :
      (a : AgentArtifact dec) (r : AuditResult)
      → (audit_failed dec a r).accepted_claim_ids ≡ r.accepted_claim_ids
  unfolding audit_failed block
  audit_failed-accepted a r =
      let P : AuditResult → Type 0 = λ s. s.accepted_claim_ids ≡ r.accepted_claim_ids in
      if-cases P (is_some a.grounded) _ _ (λ _. reject_claims-accepted _ a.claims (block _ r))
        λ _.
          if-cases P (is_core a.producer) _ _ (λ _. reject_claims-accepted _ a.claims (block _ r))
            λ _. refl

  case_failed-accepted :
      (artifacts : List (AgentArtifact dec)) (r : AuditResult)
      → (case_failed dec artifacts r).accepted_claim_ids ≡ r.accepted_claim_ids
  unfolding case_failed
  case_failed-accepted [] r = refl
  case_failed-accepted (a ∷ more) r =
      case_failed-accepted more _ ∙ reject_claims-accepted _ a.claims r

module _ (dec : Decimal) (hash_trace : FormulaDefinition dec → Inputs dec → Text)
    (formulas : List (FormulaDefinition dec)) (is_digit : ℕ → Bool)
    (trusted : TrustedRequestContext) (snapshot : Option SnapshotContext) (db : CaseDb)
    (allowed : Bool) where
  module _ (case : CreditCase) (artifacts : List (AgentArtifact dec)) where
    abbrev Vetted : ℕ → Type 0
    Vetted i =
        IsVettedClaim dec hash_trace formulas is_digit trusted snapshot db case allowed artifacts i

    abbrev Vets : Result EvalError AuditResult → Type 0
    Vets (ok r) = All Vetted r.accepted_claim_ids
    Vets (err e) = Unit

    check_evidence-accepted :
        (a : AgentArtifact dec) (failed : List ℕ) (es : List AgentEvidenceRef) (r : Rejection)
        → (check_evidence dec hash_trace formulas is_digit trusted snapshot db allowed case a failed
            es r).1.accepted_claim_ids
          ≡ r.1.accepted_claim_ids
    unfolding check_evidence
    check_evidence-accepted a failed [] r = refl
    check_evidence-accepted a failed (e ∷ es) r =
        check_evidence-accepted a failed es _
        ∙ reject_all-accepted e.evidence_id
            (evidence_codes dec trusted snapshot db case a.calculations failed e) r

    abbrev InArtifact : ℕ → AgentArtifact dec → Type 0
    InArtifact i a =
        Exists
          (IsVettedIn dec hash_trace formulas is_digit trusted snapshot db case allowed artifacts a
            i)
          a.claims

    judge_artifact-Vets :
        (a : AgentArtifact dec) (failed : List ℕ) (r : AuditResult)
        → ((i : ℕ) → InArtifact i a → Vetted i)
        → is_failed_status a.execution_status ≡ false
        → replay_all dec hash_trace formulas is_digit a.calculations ≡ ok failed
        → All Vetted r.accepted_claim_ids
        → Vets (
            ok (
              judge_artifact dec hash_trace formulas is_digit trusted snapshot db allowed case a
                failed r))
    unfolding judge_artifact validate_artifact_contract bad_evidence
    judge_artifact-Vets a failed r into ran replayed h =
        let start = record r { replay_failures = r.replay_failures ++ failed } in
        let contract = claims_violations dec is_digit trusted.as_of_date allowed a a.claims in
        let bad =
          bad_evidence dec hash_trace formulas is_digit trusted snapshot db case allowed a failed
            start in
        let all_replay =
          replay_all-AllReplay dec hash_trace formulas is_digit trusted snapshot db a.calculations
            failed replayed in
        judge_claims-All dec hash_trace formulas is_digit trusted snapshot db case allowed artifacts
          contract bad failed a.claims _
          (All-zip
            (λ c.
              any (λ v. v.claim_id == c.claim_id) contract ≡ false
              → KeepsContract dec hash_trace formulas is_digit trusted snapshot db allowed a c)
            (λ c.
              (i : ℕ)
              → IsVettedIn dec hash_trace formulas is_digit trusted snapshot db case allowed
                  artifacts a i c
              → InArtifact i a)
            (λ c. IsAccepted contract bad failed c → Vetted c.claim_id) a.claims
            (λ c keeps place accepted. into c.claim_id (
              place c.claim_id (
                refl,
                ran,
                (
                  failed,
                  replayed,
                  accepted-IsVetted dec hash_trace formulas is_digit trusted snapshot db case
                      allowed a failed start c all_replay (keeps accepted.in_contract) accepted,
                ),
              )))
            (contract-All dec hash_trace formulas is_digit trusted snapshot db allowed a a.claims)
            (each-Exists
              (IsVettedIn dec hash_trace formulas is_digit trusted snapshot db case allowed
                artifacts a)
              a.claims))
          (subst (All Vetted) (sym (check_evidence-accepted a failed a.evidence ([], start))) h)

    replayed-Vets :
        (a : AgentArtifact dec) (r : AuditResult) (replayed : Result EvalError (List ℕ))
        → replay_all dec hash_trace formulas is_digit a.calculations ≡ replayed
        → ((i : ℕ) → InArtifact i a → Vetted i)
        → is_failed_status a.execution_status ≡ false
        → All Vetted r.accepted_claim_ids
        → Vets (
            replayed >>= λ failed. ok (
              judge_artifact dec hash_trace formulas is_digit trusted snapshot db allowed case a
                failed r))
    replayed-Vets a r (ok failed) e into ran h = judge_artifact-Vets a failed r into ran e h
    replayed-Vets a r (err x) e into ran h = tt

    audit_artifact-Vets :
        (a : AgentArtifact dec) (r : AuditResult)
        → ((i : ℕ) → InArtifact i a → Vetted i)
        → All Vetted r.accepted_claim_ids
        → Vets
            (audit_artifact dec hash_trace formulas is_digit trusted snapshot db allowed case a r)
    unfolding audit_artifact
    audit_artifact-Vets a r into h =
        if-cases Vets (is_failed_status a.execution_status) _ _
          (λ _. subst (All Vetted) (sym (audit_failed-accepted dec a r)) h)
          λ ran.
            replayed-Vets a r (replay_all dec hash_trace formulas is_digit a.calculations) refl into
              ran h

    then-Vets :
        (x : Result EvalError AuditResult) (f : AuditResult → Result EvalError AuditResult)
        → Vets x
        → ((r : AuditResult) → All Vetted r.accepted_claim_ids → Vets (f r))
        → Vets (x >>= f)
    then-Vets (ok r) f h k = k r h
    then-Vets (err e) f h k = tt

    audit_artifacts-Vets :
        (some_of : List (AgentArtifact dec)) (r : AuditResult)
        → All (λ a. (i : ℕ) → InArtifact i a → Vetted i) some_of
        → All Vetted r.accepted_claim_ids
        → Vets (
            audit_artifacts dec hash_trace formulas is_digit trusted snapshot db allowed case
              some_of r)
    unfolding audit_artifacts
    audit_artifacts-Vets [] r into h = h
    audit_artifacts-Vets (a ∷ more) r into h =
        then-Vets
          (audit_artifact dec hash_trace formulas is_digit trusted snapshot db allowed case a r) _
          (audit_artifact-Vets a r into.0 h) λ s k. audit_artifacts-Vets more s into.1 k

  -- The case that the audit reads, of the context's tenant, and in it the claim that is vetted.
  abbrev pub IsVettedInCase : List (AgentArtifact dec) → ℕ → Type 0
  IsVettedInCase artifacts i =
      (case : CreditCase) × (get_case trusted.case_id db ≡ some case)
      × (case.tenant_id ≡ trusted.tenant_id)
      × IsVettedClaim dec hash_trace formulas is_digit trusted snapshot db case allowed artifacts i

  abbrev AllInCase : List (AgentArtifact dec) → Result EvalError AuditResult → Type 0
  AllInCase artifacts (ok r) = All (IsVettedInCase artifacts) r.accepted_claim_ids
  AllInCase artifacts (err e) = Unit

  Vets-AllInCase :
      (artifacts : List (AgentArtifact dec)) (case : CreditCase) (x : Result EvalError AuditResult)
      → get_case trusted.case_id db ≡ some case
      → case.tenant_id ≡ trusted.tenant_id
      → Vets case artifacts x
      → AllInCase artifacts x
  Vets-AllInCase artifacts case (ok r) found own h =
      All-imp (Vetted case artifacts) (IsVettedInCase artifacts) r.accepted_claim_ids
        (λ i v. (case, found, own, v)) h
  Vets-AllInCase artifacts case (err e) found own h = tt

  own-AllInCase :
      (artifacts : List (AgentArtifact dec)) (o : Option CreditCase)
      → own_case trusted (get_case trusted.case_id db) ≡ o
      → AllInCase artifacts (elim o [
        | none ↦ ok (
            case_failed dec artifacts (block (plain (codes "CASE_VALIDATION_FAILED")) empty_result))
        | some case ↦
            audit_artifacts dec hash_trace formulas is_digit trusted snapshot db allowed case
              artifacts empty_result
      ])
  unfolding empty_result block
  own-AllInCase artifacts none e =
      subst (All (IsVettedInCase artifacts)) (sym (case_failed-accepted dec artifacts _)) tt
  own-AllInCase artifacts (some case) e =
      let (found, own) = own_case-IsOwn trusted (get_case trusted.case_id db) case e in
      Vets-AllInCase artifacts case _ found own (
        audit_artifacts-Vets case artifacts artifacts empty_result
          (each-Exists (InArtifact case artifacts) artifacts) tt)

  -- Every claim that an audit accepts stands in one of the artifacts, of an agent that did not fail,
  -- and is vetted: the case is the context's tenant's; the claim is of the context's day, says none
  -- of the forbidden phrases, has support where it says so and a reason where it lacks evidence, has
  -- something structured behind a number of money (or a document, where the caller allows it and the
  -- answer is a grounded one), and is no conflict; every piece of evidence that it cites, for it or
  -- against it, is in the artifact and, unless it is a policy rule, in order: a citation is of a
  -- section of the tenant with the hash and the page of the citation, of a version in force,
  -- available at the cutoff and bound to the case, by a parse run that is not withdrawn and stands in
  -- the snapshot; a fact is the borrower's, available, not rejected and in the snapshot; a
  -- calculation is in the artifact under its trace hash and replays, as does every calculation that
  -- the claim names.
  pub verify-IsVettedInCase :
      (artifacts : List (AgentArtifact dec)) (r : AuditResult)
      → verify dec hash_trace formulas is_digit trusted snapshot db allowed artifacts ≡ ok r
      → All (IsVettedInCase artifacts) r.accepted_claim_ids
  unfolding verify
  verify-IsVettedInCase artifacts r h =
      subst (AllInCase artifacts) h
        (own-AllInCase artifacts (own_case trusted (get_case trusted.case_id db)) refl)
