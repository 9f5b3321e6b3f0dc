-- ===== src/Audit/Judging.antt =====
-- The cases of `judge_claim`, and evidence that is not bad.
use creditlens.Base.{ℕ, ◌≡◌, refl, true, false, List, [], ◌∷◌, ◌==◌, if-cases, any, contains, arith}
use creditlens.Base.Text.{Text}
use creditlens.Audit.Artifacts.{AgentClaim, Code, ContractViolation, AuditResult}
use creditlens.Audit.Verify.{
  Rejection, reject_evidence, reject_all, accept, reject_with, ask_human, judge_claim, is_conflict,
}

-- What a claim is accepted on: no violation of the contract names it, it cites no bad evidence and
-- no calculation that does not replay, and it is no conflict.
pub record IsAccepted (contract : List ContractViolation) (bad failed : List ℕ) (c : AgentClaim)
    : Type 0 where
  pub in_contract : any (λ v. v.claim_id == c.claim_id) contract ≡ false
  pub supporting : any (λ e. contains e bad) c.supporting_evidence_ids ≡ false
  pub opposing : any (λ e. contains e bad) c.opposing_evidence_ids ≡ false
  pub calculations : any (λ k. contains k failed) c.calculation_ids ≡ false
  pub no_conflict : is_conflict c ≡ false

module _ {ℓ} (P : AuditResult → Type ℓ) (contract : List ContractViolation) (bad failed : List ℕ)
    (c : AgentClaim) (r : AuditResult) where
  pub judge_claim-cases :
      ((cs : List Code) → P (reject_with c.claim_id cs r))
      → P (ask_human c.claim_id r)
      → (IsAccepted contract bad failed c → P (accept c.claim_id r))
      → P (judge_claim contract bad failed c r)
  unfolding judge_claim
  judge_claim-cases rejects asks accepts =
      if-cases P (any (λ v. v.claim_id == c.claim_id) contract) _ _ (λ _. rejects _)
        λ in_contract.
          if-cases P (any (λ e. contains e bad) c.supporting_evidence_ids) _ _ (λ _. rejects _)
            λ supporting.
              if-cases P (any (λ e. contains e bad) c.opposing_evidence_ids) _ _ (λ _. rejects _)
                λ opposing.
                  if-cases P (any (λ k. contains k failed) c.calculation_ids) _ _ (λ _. rejects _)
                    λ calculations.
                      if-cases P (is_conflict c) _ _ (λ _. asks)
                        λ no_conflict. accepts (record {
                          in_contract = in_contract;
                          supporting = supporting;
                          opposing = opposing;
                          calculations = calculations;
                          no_conflict = no_conflict;
                        })

-- Evidence that stays out of the bad has not been rejected.
pub reject_all-contains :
    (i e : ℕ) (texts : List Text) (r : Rejection)
    → contains i (reject_all e texts r).0 ≡ false
    → (contains i r.0 ≡ false) × (i == e ≡ true → texts ≡ [])
unfolding reject_all reject_evidence
reject_all-contains i e [] r h = (h, λ _. refl)
reject_all-contains i e (t ∷ ts) r h =
    let (before, rest) = reject_all-contains i e ts (reject_evidence e t r) h in
    (ground (arith, before), λ same. ground (arith, same, before))
