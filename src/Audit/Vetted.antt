-- ===== src/Audit/Vetted.antt =====
-- What an accepted claim stands on.
use creditlens.Base.{
  ℕ, ◌≡◌, ◌∙◌, ap, subst, some, here, there, Bool, true, false, ◌==◌, ==_refl, Option, List, [],
  ◌∷◌, map, any-All, contains, contains-Exists, All, All-append, All-append_parts, All-zip, Exists,
  Exists-imp, Exists-All,
}
use creditlens.Base.Text.{Text}
use creditlens.Base.Result.{ok}
use creditlens.Supervisor.Agents.{is_failed_status}
use creditlens.Formulas.Decimal.{Decimal}
use creditlens.Formulas.Engine.{FormulaDefinition, Inputs, CalculationArtifact}
use creditlens.Cases.Tables.{CreditCase, CaseDb, TrustedRequestContext, SnapshotContext}
use creditlens.Audit.Artifacts.{
  AgentEvidenceRef, EvidenceType, document_span, table_cell, sql_fact, calculation, policy_rule,
  AgentClaim, AgentArtifact, ContractViolation, AuditResult,
}
use creditlens.Audit.Contract.{validate_artifact_contract}
use creditlens.Audit.Evidence.{evidence_codes}
use creditlens.Audit.References.{IsSound, evidence-IsSound}
use creditlens.Audit.Judging.{IsAccepted, judge_claim-cases, reject_all-contains}
use creditlens.Audit.Verify.{
  Rejection, reject_all, accept, reject_with, ask_human, judge_claim, judge_claims, is_conflict,
  check_evidence, replay_all,
}
use creditlens.Audit.Kept.{Replays, KeepsContract, AllReplay}

module _ (dec : Decimal) (hash_trace : FormulaDefinition dec → Inputs dec → Text)
    (formulas : List (FormulaDefinition dec)) (is_digit : ℕ → Bool)
    (trusted : TrustedRequestContext) (snapshot : Option SnapshotContext) (db : CaseDb) where
  module _ (case : CreditCase) (allowed : Bool) (a : AgentArtifact dec) (failed : List ℕ) where
    -- A calculation that is cited is in the artifact, under its trace hash, and replays.
    abbrev pub IsReproduced : AgentEvidenceRef → EvidenceType → Type 0
    IsReproduced e calculation =
        (k : CalculationArtifact dec) × (e.calculation_id ≡ some k.calculation_id)
        × (e.content_hash ≡ k.trace_hash)
        × Exists (λ x. x ≡ k) a.calculations
        × Replays dec hash_trace formulas is_digit trusted snapshot db k
    IsReproduced e _ = Unit

    -- The evidence is of its type, what it cites is in order, and a calculation replays.
    abbrev pub IsSoundIn : AgentEvidenceRef → Type 0
    IsSoundIn e =
        IsSound dec trusted snapshot db case a.calculations failed e e.evidence_type
        × IsReproduced e e.evidence_type

    listed-Replays :
        (k : CalculationArtifact dec) (ks : List (CalculationArtifact dec))
        → AllReplay dec hash_trace formulas is_digit trusted snapshot db failed ks
        → Exists (λ x. x ≡ k) ks
        → contains k.calculation_id failed ≡ false
        → Replays dec hash_trace formulas is_digit trusted snapshot db k
    listed-Replays k [] all_replay listed good = elim listed [ ]
    listed-Replays k (x ∷ xs) all_replay listed good = elim listed [
      | here same ↦
          subst (Replays dec hash_trace formulas is_digit trusted snapshot db) same
            (all_replay.0 (ap (λ y. contains y.calculation_id failed) same ∙ good))
      | there later ↦ listed-Replays k xs all_replay.1 later good
    ]

    sound-IsReproduced :
        (e : AgentEvidenceRef) (t : EvidenceType)
        → AllReplay dec hash_trace formulas is_digit trusted snapshot db failed a.calculations
        → IsSound dec trusted snapshot db case a.calculations failed e t
        → IsReproduced e t
    sound-IsReproduced e document_span all_replay h = tt
    sound-IsReproduced e table_cell all_replay h = tt
    sound-IsReproduced e sql_fact all_replay h = tt
    sound-IsReproduced e policy_rule all_replay h = tt
    sound-IsReproduced e calculation all_replay h = (
      h.calculated,
      h.of_calculation,
      h.same_trace,
      h.listed,
      listed-Replays h.calculated a.calculations all_replay h.listed h.replays,
    )

    check_evidence-All :
        (i : ℕ) (es : List AgentEvidenceRef) (r : Rejection)
        → contains i
            (check_evidence dec hash_trace formulas is_digit trusted snapshot db allowed case a
              failed es r).0
          ≡ false
        → AllReplay dec hash_trace formulas is_digit trusted snapshot db failed a.calculations
        → (contains i r.0 ≡ false) × All (λ e. e.evidence_id ≡ i → IsSoundIn e) es
    unfolding check_evidence
    check_evidence-All i [] r h all_replay = (h, tt)
    check_evidence-All i (e ∷ es) r h all_replay =
        let texts = evidence_codes dec trusted snapshot db case a.calculations failed e in
        let (before, rest) =
          check_evidence-All i es (reject_all e.evidence_id texts r) h all_replay in
        let (first, own) = reject_all-contains i e.evidence_id texts r before in
        (
          first,
          (
            λ same.
                let sound =
                  evidence-IsSound dec trusted snapshot db case a.calculations failed e
                    (own (ap (λ n. i == n) same ∙ ==_refl i)) in
                (sound, sound-IsReproduced e e.evidence_type all_replay sound),
            rest,
          ),
        )

    -- What an accepted claim has: its contract holds, every piece of evidence it cites is in the
    -- artifact and in order, every calculation is in the artifact and replays, and it is no conflict.
    pub record IsVetted (c : AgentClaim) : Type 0 where
      pub contract : KeepsContract dec hash_trace formulas is_digit trusted snapshot db allowed a c
      pub supporting :
          All
            (λ i. Exists (λ e. (e.evidence_id ≡ i) × IsSoundIn e) a.evidence)
            c.supporting_evidence_ids
      pub opposing :
          All
            (λ i. Exists (λ e. (e.evidence_id ≡ i) × IsSoundIn e) a.evidence)
            c.opposing_evidence_ids
      pub calculated :
          All
            (λ i.
              Exists
                (λ k.
                  (k.calculation_id ≡ i)
                  × Replays dec hash_trace formulas is_digit trusted snapshot db k)
                a.calculations)
            c.calculation_ids
      pub no_conflict : is_conflict c ≡ false

    unfoldable pub bad_evidence : AuditResult → List ℕ
    bad_evidence start =
        (check_evidence dec hash_trace formulas is_digit trusted snapshot db allowed case a failed
          a.evidence ([], start)).0

    cited-Exists :
        (start : AuditResult) (i : ℕ)
        → contains i (map (λ e. e.evidence_id) a.evidence) ≡ true
        → contains i (bad_evidence start) ≡ false
        → AllReplay dec hash_trace formulas is_digit trusted snapshot db failed a.calculations
        → Exists (λ e. (e.evidence_id ≡ i) × IsSoundIn e) a.evidence
    unfolding bad_evidence
    cited-Exists start i known good all_replay =
        Exists-imp (λ e. (e.evidence_id ≡ i → IsSoundIn e) × (e.evidence_id ≡ i))
          (λ e. (e.evidence_id ≡ i) × IsSoundIn e) a.evidence (λ e h. (h.1, h.0 h.1))
          (Exists-All (λ e. e.evidence_id ≡ i → IsSoundIn e) (λ e. e.evidence_id ≡ i) a.evidence
            (check_evidence-All i a.evidence ([], start) good all_replay).1
            (contains-Exists (λ e. e.evidence_id) i a.evidence known))

    Replays-Exists :
        (i : ℕ)
        → AllReplay dec hash_trace formulas is_digit trusted snapshot db failed a.calculations
        → contains i (map (λ k. k.calculation_id) a.calculations) ≡ true
        → contains i failed ≡ false
        → Exists
            (λ k.
              (k.calculation_id ≡ i)
              × Replays dec hash_trace formulas is_digit trusted snapshot db k)
            a.calculations
    Replays-Exists i all_replay known good =
        Exists-imp
          (λ k.
            (contains k.calculation_id failed ≡ false
              → Replays dec hash_trace formulas is_digit trusted snapshot db k)
            × (k.calculation_id ≡ i))
          (λ k.
            (k.calculation_id ≡ i) × Replays dec hash_trace formulas is_digit trusted snapshot db k)
          a.calculations (λ k h. (h.1, h.0 (ap (λ n. contains n failed) h.1 ∙ good)))
          (Exists-All
            (λ k.
              contains k.calculation_id failed ≡ false
              → Replays dec hash_trace formulas is_digit trusted snapshot db k)
            (λ k. k.calculation_id ≡ i) a.calculations all_replay
            (contains-Exists (λ k. k.calculation_id) i a.calculations known))

    pub accepted-IsVetted :
        (start : AuditResult) (c : AgentClaim)
        → AllReplay dec hash_trace formulas is_digit trusted snapshot db failed a.calculations
        → KeepsContract dec hash_trace formulas is_digit trusted snapshot db allowed a c
        → IsAccepted
            (validate_artifact_contract dec is_digit trusted.as_of_date allowed a)
            (bad_evidence start)
            failed
            c
        → IsVetted c
    accepted-IsVetted start c all_replay contract h =
        let known : ℕ → Type 0 = λ i. contains i (map (λ e. e.evidence_id) a.evidence) ≡ true in
        let good : ℕ → Type 0 = λ i. contains i (bad_evidence start) ≡ false in
        let cited : ℕ → Type 0 = λ i. Exists (λ e. (e.evidence_id ≡ i) × IsSoundIn e) a.evidence in
        let (for_it, against_it) =
          All-append_parts known c.supporting_evidence_ids c.opposing_evidence_ids
            contract.known_evidence in
        record {
          contract = contract;
          supporting =
              All-zip known good cited c.supporting_evidence_ids
                (λ i k g. cited-Exists start i k g all_replay) for_it
                (any-All _ c.supporting_evidence_ids h.supporting);
          opposing =
              All-zip known good cited c.opposing_evidence_ids
                (λ i k g. cited-Exists start i k g all_replay) against_it
                (any-All _ c.opposing_evidence_ids h.opposing);
          calculated =
              All-zip _ _ _ c.calculation_ids (λ i. Replays-Exists i all_replay)
                contract.known_calculations (any-All _ c.calculation_ids h.calculations);
          no_conflict = h.no_conflict;
        }

  module _ (case : CreditCase) (allowed : Bool) (artifacts : List (AgentArtifact dec)) where
    -- The claim of a run's artifact that did not fail, and that is vetted.
    abbrev pub IsVettedIn : AgentArtifact dec → ℕ → AgentClaim → Type 0
    IsVettedIn a i c =
        (c.claim_id ≡ i)
        × (is_failed_status a.execution_status ≡ false)
        × ((failed : List ℕ) × (replay_all dec hash_trace formulas is_digit a.calculations
              ≡ ok failed)
            × IsVetted case allowed a failed c)

    abbrev pub IsVettedClaim : ℕ → Type 0
    IsVettedClaim i = Exists (λ a. Exists (IsVettedIn a i) a.claims) artifacts

    pub judge_claims-All :
        (contract : List ContractViolation) (bad failed : List ℕ) (cs : List AgentClaim)
        (r : AuditResult)
        → All (λ c. IsAccepted contract bad failed c → IsVettedClaim c.claim_id) cs
        → All IsVettedClaim r.accepted_claim_ids
        → All IsVettedClaim (judge_claims contract bad failed cs r).accepted_claim_ids
    unfolding judge_claims accept ask_human reject_with
    judge_claims-All contract bad failed [] r k h = h
    judge_claims-All contract bad failed (c ∷ cs) r k h =
        judge_claims-All contract bad failed cs (judge_claim contract bad failed c r) k.1 (
          judge_claim-cases (λ s. All IsVettedClaim s.accepted_claim_ids) contract bad failed c r
            (λ _. h) h
            λ ok_claim.
              All-append IsVettedClaim r.accepted_claim_ids (c.claim_id ∷ []) h (k.0 ok_claim, tt))
