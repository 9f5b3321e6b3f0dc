-- ===== src/Audit/Kept.antt =====
-- What the contract and the replays of an artifact say of its claims.
use creditlens.Base.{
  eq_of, ℕ, ◌≡◌, refl, sym, ◌∙◌, subst, Bool, true, false, ◌&&◌, ◌==◌, ==_refl, Bool-cases, inl,
  inr, Option, List, [], ◌∷◌, ◌++◌, map, if◌then◌else◌, any, any-append, contains, All, All-imp,
  append_nil-parts, arith, is_empty, ||_false,
}
use creditlens.Base.Text.{Text}
use creditlens.Base.Result.{Result, ok, err, ◌>>=◌}
use creditlens.Formulas.Decimal.{Decimal}
use creditlens.Formulas.Engine.{
  FormulaDefinition, Inputs, EvalError, CalculationArtifact, replay_calculation,
}
use creditlens.Cases.Tables.{CaseDb, TrustedRequestContext, SnapshotContext}
use creditlens.Audit.Artifacts.{
  AgentClaim, AgentArtifact, ContractCode, ContractViolation, unknown_evidence, unknown_calculation,
  as_of_date_mismatch, numeric_claim_without_fact, missing_uncertainty_reason,
  supported_without_evidence,
}
use creditlens.Audit.Contract.{
  is_supported, is_insufficient_evidence, is_blank, when, unknown, forbidden, is_part,
  banned_phrases, is_unbacked_number, claim_codes, claims_violations,
}
use creditlens.Audit.Cited.{when_nil}
use creditlens.Audit.Verify.{replay_all}

unknown-All :
    (code : ℕ → ContractCode) (known is : List ℕ)
    → unknown code known is ≡ []
    → All (λ i. contains i known ≡ true) is
unfolding unknown
unknown-All code known [] h = tt
unknown-All code known (i ∷ is) h = elim (Bool-cases (contains i known)) [
  | inl there_is ↦ (there_is, unknown-All code known is (ground (arith, there_is, h)))
  | inr lacks ↦ ground (arith, lacks, h)
]

forbidden-All :
    (statement : Text) (phrases : List Text)
    → forbidden statement phrases ≡ []
    → All (λ phrase. is_part phrase statement ≡ false) phrases
unfolding forbidden
forbidden-All statement [] h = tt
forbidden-All statement (phrase ∷ phrases) h = elim (Bool-cases (is_part phrase statement)) [
  | inl says ↦ ground (arith, says, h)
  | inr lacks ↦ (lacks, forbidden-All statement phrases (ground (arith, lacks, h)))
]

no_own :
    (i : ℕ) (own : List ContractCode)
    → any
        (λ v. v.claim_id == i)
        (map {B = ContractViolation} (λ code. record { claim_id = i; code = code }) own)
      ≡ false
    → own ≡ []
no_own i [] h = refl
no_own i (code ∷ more) h = ground (arith, h, ==_refl i)

module _ (dec : Decimal) (hash_trace : FormulaDefinition dec → Inputs dec → Text)
    (formulas : List (FormulaDefinition dec)) (is_digit : ℕ → Bool)
    (trusted : TrustedRequestContext) (snapshot : Option SnapshotContext) (db : CaseDb) where
  -- The replay of the calculation is consistent.
  abbrev pub Replays : CalculationArtifact dec → Type 0
  Replays k =
      (again : Option (CalculationArtifact dec)) × (replay_calculation dec hash_trace formulas k
          k.calculation_id
        ≡ ok (true, again))

  -- The contract of a claim, in words of the claim.
  pub record KeepsContract (allowed : Bool) (a : AgentArtifact dec) (c : AgentClaim) : Type 0 where
    pub same_day : c.as_of_date ≡ trusted.as_of_date
    pub has_support : is_supported c.verdict ≡ true → is_empty c.supporting_evidence_ids ≡ false
    pub has_reason :
        is_insufficient_evidence c.verdict ≡ true → is_blank c.uncertainty_reason ≡ false
    pub backs_numbers : is_unbacked_number dec is_digit allowed a c ≡ false
    pub known_evidence :
        All
          (λ i. contains i (map (λ e. e.evidence_id) a.evidence) ≡ true)
          (c.supporting_evidence_ids ++ c.opposing_evidence_ids)
    pub known_calculations :
        All (λ i. contains i (map (λ k. k.calculation_id) a.calculations) ≡ true) c.calculation_ids
    pub says_nothing_forbidden : All (λ phrase. is_part phrase c.statement ≡ false) banned_phrases

  and_false : (x y : Bool) → (x && y) ≡ false → x ≡ true → y ≡ false
  and_false x y h e = ground arith

  codes-KeepsContract :
      (allowed : Bool) (a : AgentArtifact dec) (c : AgentClaim)
      → claim_codes dec is_digit trusted.as_of_date allowed a c ≡ []
      → KeepsContract allowed a c
  unfolding claim_codes
  codes-KeepsContract allowed a c h =
      let (h1, banned) = append_nil-parts _ (forbidden c.statement banned_phrases) h in
      let (h2, other_day) = append_nil-parts _ (when _ as_of_date_mismatch) h1 in
      let (h3, unbacked) = append_nil-parts _ (when _ numeric_claim_without_fact) h2 in
      let (h4, no_reason) = append_nil-parts _ (when _ missing_uncertainty_reason) h3 in
      let (h5, calcs) =
        append_nil-parts _
          (unknown unknown_calculation (map (λ k. k.calculation_id) a.calculations)
            c.calculation_ids)
          h4 in
      let (no_support, cites) =
        append_nil-parts (when _ supported_without_evidence)
          (unknown unknown_evidence (map (λ e. e.evidence_id) a.evidence)
            (c.supporting_evidence_ids ++ c.opposing_evidence_ids))
          h5 in
      record {
        same_day = eq_of c.as_of_date trusted.as_of_date (when_nil _ _ other_day);
        has_support = and_false _ _ (when_nil _ _ no_support);
        has_reason = and_false _ _ (when_nil _ _ no_reason);
        backs_numbers = when_nil _ _ unbacked;
        known_evidence = unknown-All unknown_evidence _ _ cites;
        known_calculations = unknown-All unknown_calculation _ _ calcs;
        says_nothing_forbidden = forbidden-All c.statement banned_phrases banned;
      }

  pub contract-All :
      (allowed : Bool) (a : AgentArtifact dec) (cs : List AgentClaim)
      → All
          (λ c.
            any
                (λ v. v.claim_id == c.claim_id)
                (claims_violations dec is_digit trusted.as_of_date allowed a cs)
              ≡ false
            → KeepsContract allowed a c)
          cs
  unfolding claims_violations
  contract-All allowed a [] = tt
  contract-All allowed a (c ∷ cs) =
      let own = claim_codes dec is_digit trusted.as_of_date allowed a c in
      let mine : List ContractViolation =
        map (λ code. record { claim_id = c.claim_id; code = code }) own in
      let rest = claims_violations dec is_digit trusted.as_of_date allowed a cs in
      (
        λ h.
            codes-KeepsContract allowed a c
              (no_own c.claim_id own (||_false _ _ (sym (any-append _ mine rest) ∙ h)).0),
        All-imp (λ x. any (λ v. v.claim_id == x.claim_id) rest ≡ false → KeepsContract allowed a x)
            (λ x.
              any (λ v. v.claim_id == x.claim_id) (mine ++ rest) ≡ false
              → KeepsContract allowed a x)
            cs (λ x k h. k (||_false _ _ (sym (any-append _ mine rest) ∙ h)).1)
            (contract-All allowed a cs),
      )

  abbrev pub AllReplay : List ℕ → List (CalculationArtifact dec) → Type 0
  AllReplay failed ks = All (λ k. contains k.calculation_id failed ≡ false → Replays k) ks

  AllReplay-more :
      (i : ℕ) (failed : List ℕ) (ks : List (CalculationArtifact dec))
      → AllReplay failed ks
      → AllReplay (i ∷ failed) ks
  AllReplay-more i failed ks h =
      All-imp (λ k. contains k.calculation_id failed ≡ false → Replays k)
        (λ k. contains k.calculation_id (i ∷ failed) ≡ false → Replays k) ks
        (λ k f lacks. f (||_false _ _ lacks).1) h

  replayed-AllReplay :
      (k : CalculationArtifact dec) (ks : List (CalculationArtifact dec)) (failed : List ℕ)
      (r : Result EvalError (Bool × Option (CalculationArtifact dec)))
      (rest : Result EvalError (List ℕ))
      → replay_calculation dec hash_trace formulas k k.calculation_id ≡ r
      → ((f : List ℕ) → rest ≡ ok f → AllReplay f ks)
      → (r >>= λ x. rest >>= λ f. ok (if x.0 then f else k.calculation_id ∷ f)) ≡ ok failed
      → AllReplay failed (k ∷ ks)
  replayed-AllReplay k ks failed (err e) rest ran more h = cc
  replayed-AllReplay k ks failed (ok x) (err e) ran more h = cc
  replayed-AllReplay k ks failed (ok (true, again)) (ok f) ran more h =
      let same : f ≡ failed = cc in
      (λ _. (again, ran), subst (λ g. AllReplay g ks) same (more f refl))
  replayed-AllReplay k ks failed (ok (false, again)) (ok f) ran more h =
      let same : (k.calculation_id ∷ f) ≡ failed = cc in
      subst (λ g. AllReplay g (k ∷ ks)) same
        (
          λ lacks. ground (arith, lacks, ==_refl k.calculation_id),
          AllReplay-more k.calculation_id f ks (more f refl),
        )

  pub replay_all-AllReplay :
      (ks : List (CalculationArtifact dec)) (failed : List ℕ)
      → replay_all dec hash_trace formulas is_digit ks ≡ ok failed
      → AllReplay failed ks
  unfolding replay_all
  replay_all-AllReplay [] failed h = tt
  replay_all-AllReplay (k ∷ ks) failed h =
      replayed-AllReplay k ks failed (replay_calculation dec hash_trace formulas k k.calculation_id)
        (replay_all dec hash_trace formulas is_digit ks) refl (replay_all-AllReplay ks) h
