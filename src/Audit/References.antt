-- ===== src/Audit/References.antt =====
-- Facts and calculations that pass their checks, and evidence of any type.
use creditlens.Base.{
  eq_of, ℕ, ◌≡◌, ◌≤◌, refl, sym, ◌∙◌, ap, subst, true, false, Bool-cases, inl, inr, Option, none,
  some, List, [], ◌∷◌, ◌==◌, ==_iff, ltb-false, contains, find-holds, if◌then◌else◌, Exists,
  some_cancel, here, there, append_nil-parts, arith, not-false,
}
use creditlens.Base.Text.{Text, codes, text_eq, text_eq_sound}
use creditlens.Formulas.Decimal.{Decimal}
use creditlens.Formulas.Engine.{CalculationArtifact}
use creditlens.Cases.Tables.{
  CreditCase, FinancialFact, CaseDb, TrustedRequestContext, SnapshotContext, get_fact,
}
use creditlens.Audit.Artifacts.{
  EvidenceType, document_span, table_cell, sql_fact, calculation, policy_rule, AgentEvidenceRef,
}
use creditlens.Audit.Contract.{when}
use creditlens.Audit.Evidence.{
  calculation_by_id, found_calculation_codes, calculation_codes, is_other_case, found_fact_codes,
  frozen_fact_codes, fact_codes, has_document_locator, codes_of_type, evidence_codes,
}
use creditlens.Audit.Cited.{
  when_nil, same_id-eq, IsCitation, IsFactReference, IsCalculationReference, frozen_fact-parts,
}
use creditlens.Audit.Citations.{document-IsCitation}

given-parts :
    (o : Option ℕ) (f : ℕ → List Text) (missing : Text)
    → (elim o [ none ↦ missing ∷ [] | some i ↦ f i ]) ≡ []
    → (i : ℕ) × (o ≡ some i) × (f i ≡ [])
given-parts none f missing h = cc
given-parts (some i) f missing h = (i, refl, h)

other_case :
    (c here_id : Option ℕ)
    → is_other_case c here_id ≡ false
    → (i : ℕ) → c ≡ some i
    → here_id ≡ some i
unfolding is_other_case
other_case none here_id h i e = cc
other_case (some c) here_id h i e = same_id-eq here_id c (not-false _ h) ∙ e

module _ (trusted : TrustedRequestContext) (snapshot : Option SnapshotContext) (db : CaseDb)
    (case : CreditCase) where
  record IsFact (f : FinancialFact) : Type 0 where
    own : f.tenant_id ≡ trusted.tenant_id
    of_case : (c : ℕ) → f.case_id ≡ some c → trusted.case_id ≡ some c
    of_borrower : f.entity_id ≡ case.borrower_entity_id
    available : f.source_available_at ≤ trusted.decision_cutoff_at
    not_rejected : text_eq f.verification_status (codes "REJECTED") ≡ false

  IsFact-parts :
      (o : Option FinancialFact)
      → found_fact_codes trusted snapshot db case o ≡ []
      → (f : FinancialFact) × (o ≡ some f) × IsFact f
  unfolding found_fact_codes
  IsFact-parts none h = cc
  IsFact-parts (some f) h =
      let (rest, rejected) = append_nil-parts _ (when _ _) h in
      let (rest', late) = append_nil-parts _ (when _ _) rest in
      let (rest'', other_entity) = append_nil-parts _ (when _ _) rest' in
      let (foreign, elsewhere) = append_nil-parts (when _ _) (when _ _) rest'' in
      (
        f,
        refl,
        record {
          own = eq_of f.tenant_id trusted.tenant_id (when_nil _ _ foreign);
          of_case = other_case f.case_id trusted.case_id (when_nil _ _ elsewhere);
          of_borrower = eq_of f.entity_id case.borrower_entity_id (when_nil _ _ other_entity);
          available =
              ltb-false trusted.decision_cutoff_at f.source_available_at (when_nil _ _ late);
          not_rejected = when_nil _ _ rejected;
        },
      )

  fact-IsFactReference :
      (e : AgentEvidenceRef)
      → fact_codes trusted snapshot db case e ≡ []
      → IsFactReference trusted snapshot db case e
  unfolding fact_codes get_fact
  fact-IsFactReference e h =
      let (i, of_i, all_codes) = given-parts e.fact_id _ (codes "MISSING_FACT_ID") h in
      let (rest, unfrozen) =
        append_nil-parts _ (frozen_fact_codes trusted snapshot db case i) all_codes in
      let (other_source, own_codes) =
        append_nil-parts (when _ _) (found_fact_codes trusted snapshot db case (get_fact i db))
          rest in
      let (f, found, of_f) = IsFact-parts (get_fact i db) own_codes in
      let (frozen, is_frozen, in_snapshot) =
        frozen_fact-parts trusted snapshot db case i unfrozen in
      let same = (==_iff f.id i).0 (find-holds (λ x. x.id == i) db.facts f found) in
      record {
        fact = f;
        frozen = frozen;
        of_fact = of_i ∙ ap some (sym same);
        of_source = eq_of e.source_id i (when_nil _ _ other_source) ∙ sym same;
        found_fact = ap (λ n. get_fact n db) same ∙ found;
        own_fact = of_f.own;
        of_case = of_f.of_case;
        of_borrower = of_f.of_borrower;
        available = of_f.available;
        not_rejected =
            λ r. ground (arith, of_f.not_rejected, ap (λ t. text_eq t (codes "REJECTED")) r);
        is_frozen = is_frozen;
        in_snapshot = subst (λ n. contains n frozen.allowed_fact_ids ≡ true) (sym same) in_snapshot;
      }

module _ (dec : Decimal) where
  -- The calculation that a dict of one more has under the identifier.
  later-Exists :
      (i : ℕ) (x : CalculationArtifact dec) (xs : List (CalculationArtifact dec))
      (k : CalculationArtifact dec) (o : Option (CalculationArtifact dec))
      → (o ≡ some k → (k.calculation_id ≡ i) × Exists (λ y. y ≡ k) xs)
      → (elim o [ some later ↦ some later | none ↦ if x.calculation_id == i then some x else none ])
        ≡ some k
      → (k.calculation_id ≡ i) × Exists (λ y. y ≡ k) (x ∷ xs)
  later-Exists i x xs k (some later) found h = let (same, listed) = found h in (same, there listed)
  later-Exists i x xs k none found h = elim (Bool-cases (x.calculation_id == i)) [
    | inl mine ↦
        let is_k = some_cancel x k (subst (λ b. (if b then some x else none) ≡ some k) mine h) in
        (sym (ap (λ y. y.calculation_id) is_k) ∙ (==_iff _ _).0 mine, here is_k)
    | inr other ↦ ground (arith, other, h)
  ]

  calculation_by_id-Exists :
      (i : ℕ) (ks : List (CalculationArtifact dec)) (k : CalculationArtifact dec)
      → calculation_by_id dec i ks ≡ some k
      → (k.calculation_id ≡ i) × Exists (λ x. x ≡ k) ks
  unfolding calculation_by_id
  calculation_by_id-Exists i [] k h = cc
  calculation_by_id-Exists i (x ∷ xs) k h =
      later-Exists i x xs k (calculation_by_id dec i xs) (calculation_by_id-Exists i xs k) h

  found_calculation-parts :
      (o : Option (CalculationArtifact dec)) (replay_failed : List ℕ) (e : AgentEvidenceRef)
      → found_calculation_codes dec o replay_failed e ≡ []
      → (k : CalculationArtifact dec) × (o ≡ some k)
        × ((e.content_hash ≡ k.trace_hash) × (contains k.calculation_id replay_failed ≡ false))
  unfolding found_calculation_codes
  found_calculation-parts none replay_failed e h = cc
  found_calculation-parts (some k) replay_failed e h =
      let (other_trace, failed) = append_nil-parts (when _ _) (when _ _) h in
      (
        k,
        refl,
        (
          text_eq_sound e.content_hash k.trace_hash (not-false _ (when_nil _ _ other_trace)),
          when_nil _ _ failed,
        ),
      )

  calculation-IsCalculationReference :
      (calculations : List (CalculationArtifact dec)) (replay_failed : List ℕ)
      (e : AgentEvidenceRef)
      → calculation_codes dec calculations replay_failed e ≡ []
      → IsCalculationReference dec calculations replay_failed e
  unfolding calculation_codes
  calculation-IsCalculationReference calculations replay_failed e h =
      let (i, of_i, all_codes) =
        given-parts e.calculation_id _ (codes "MISSING_CALCULATION_ID") h in
      let (other_source, own_codes) =
        append_nil-parts (when _ _)
          (found_calculation_codes dec (calculation_by_id dec i calculations) replay_failed e)
          all_codes in
      let (k, found, (same_trace, replays)) =
        found_calculation-parts (calculation_by_id dec i calculations) replay_failed e own_codes in
      let (same, listed) = calculation_by_id-Exists i calculations k found in
      record {
        calculated = k;
        of_calculation = of_i ∙ ap some (sym same);
        of_source = eq_of e.source_id i (when_nil _ _ other_source) ∙ sym same;
        listed = listed;
        same_trace = same_trace;
        replays = replays;
      }

module _ (dec : Decimal) (trusted : TrustedRequestContext) (snapshot : Option SnapshotContext)
    (db : CaseDb) (case : CreditCase) where
  -- What evidence of each type must be; of a policy rule nothing is asked.
  abbrev pub IsSound :
      List (CalculationArtifact dec) → List ℕ → AgentEvidenceRef → EvidenceType → Type 0
  IsSound calculations replay_failed e document_span = IsCitation trusted snapshot db e
  IsSound calculations replay_failed e table_cell = IsCitation trusted snapshot db e
  IsSound calculations replay_failed e sql_fact = IsFactReference trusted snapshot db case e
  IsSound calculations replay_failed e calculation =
      IsCalculationReference dec calculations replay_failed e
  IsSound calculations replay_failed e policy_rule = Unit

  of_type-IsSound :
      (t : EvidenceType) (calculations : List (CalculationArtifact dec)) (replay_failed : List ℕ)
      (e : AgentEvidenceRef)
      → codes_of_type dec trusted snapshot db case t calculations replay_failed e ≡ []
      → IsSound calculations replay_failed e t
  unfolding codes_of_type
  of_type-IsSound document_span calculations replay_failed e h =
      document-IsCitation trusted snapshot db e h
  of_type-IsSound table_cell calculations replay_failed e h =
      elim (Bool-cases (has_document_locator e)) [
        | inl located ↦ document-IsCitation trusted snapshot db e (ground (arith, located, h))
        | inr missing ↦ ground (arith, missing, h)
      ]
  of_type-IsSound sql_fact calculations replay_failed e h =
      fact-IsFactReference trusted snapshot db case e h
  of_type-IsSound calculation calculations replay_failed e h =
      calculation-IsCalculationReference dec calculations replay_failed e h
  of_type-IsSound policy_rule calculations replay_failed e h = tt

  pub evidence-IsSound :
      (calculations : List (CalculationArtifact dec)) (replay_failed : List ℕ)
      (e : AgentEvidenceRef)
      → evidence_codes dec trusted snapshot db case calculations replay_failed e ≡ []
      → IsSound calculations replay_failed e e.evidence_type
  unfolding evidence_codes
  evidence-IsSound calculations replay_failed e h =
      of_type-IsSound e.evidence_type calculations replay_failed e h
