-- ===== src/Cases/Eligible.antt =====
-- What a snapshot holds: the eligible facts, and the active parse runs of the case's material.
use creditlens.Base.{
  ℕ, ◌≡◌, ◌≢◌, ◌≤◌, refl, sym, ap, subst, Bool, true, false, not, ◌&&◌, ◌||◌, ◌==◌, ==_iff, ==_refl,
  &&_true, leb→le, le→leb, Bool-cases, inl, inr, Option, none, some, List, [], ◌∷◌, map, filter,
  leb, All, ||_false, some_cancel, All-imp, Exists, here, there, contains, arith, if-cases,
  is_empty,
}
use creditlens.Base.Result.{Result, ok, err}
use creditlens.Base.Text.{Text, codes, text_eq, text_eq_sound}
use creditlens.Cases.Tables.{
  CreditCase, FinancialFact, CaseDb, TrustedRequestContext, SnapshotContext, get_case,
}
use creditlens.Cases.Snapshot.{
  Canonical, NotReady, freeze_case, freeze_snapshot, frozen_context, members_of, bound_versions,
  eligible_ids, is_eligible, is_shared_or_own, superseded_ids,
}
use creditlens.Cases.Active.{IsActiveRun, bound_versions-All, members_of-All, active-contains}

-- A fact of the tenant on the case's borrower, of the case or of none, that was available at the
-- cutoff, is not rejected, and that no fact supersedes.
pub record IsEligible (case : CreditCase) (cutoff : ℕ) (facts : List FinancialFact)
    (f : FinancialFact) : Type 0 where
  pub own : f.tenant_id ≡ case.tenant_id
  pub of_borrower : f.entity_id ≡ case.borrower_entity_id
  pub of_case : (c : ℕ) → f.case_id ≡ some c → c ≡ case.id
  pub available : f.source_available_at ≤ cutoff
  pub not_rejected : f.verification_status ≢ codes "REJECTED"
  pub not_superseded : All (λ g. g.supersedes_fact_id ≢ some f.id) facts

shared_or_own :
    (case : ℕ) (o : Option ℕ) → is_shared_or_own case o ≡ true → (c : ℕ) → o ≡ some c → c ≡ case
unfolding is_shared_or_own
shared_or_own case none h c e = cc
shared_or_own case (some d) h c e = ground (arith, h, e)

-- The list with one more superseded fact, and what is not in it.
superseded-parts :
    (i : ℕ) (o : Option ℕ) (rest : List ℕ)
    → contains i (elim o [ none ↦ rest | some j ↦ j ∷ rest ]) ≡ false
    → (o ≢ some i) × (contains i rest ≡ false)
superseded-parts i none rest h = (λ e. cc, h)
superseded-parts i (some j) rest h =
    let parts = ||_false (i == j) (contains i rest) h in
    (λ e. ground (arith, parts.0, some_cancel j i e), parts.1)

superseded-All :
    (i : ℕ) (facts : List FinancialFact)
    → contains i (superseded_ids facts) ≡ false
    → All (λ g. g.supersedes_fact_id ≢ some i) facts
unfolding superseded_ids
superseded-All i [] h = tt
superseded-All i (f ∷ fs) h =
    let (own, rest) = superseded-parts i f.supersedes_fact_id (superseded_ids fs) h in
    (own, superseded-All i fs rest)

superseded-lacks :
    (i : ℕ) (o : Option ℕ) (rest : List ℕ)
    → o ≢ some i
    → contains i rest ≡ false
    → contains i (elim o [ none ↦ rest | some j ↦ j ∷ rest ]) ≡ false
superseded-lacks i none rest other h = h
superseded-lacks i (some j) rest other h = elim (Bool-cases (i == j)) [
  | inl same ↦ absurd (other (ap some (sym ((==_iff i j).0 same))))
  | inr differs ↦ ground (arith, differs, h)
]

lacks-superseded :
    (i : ℕ) (facts : List FinancialFact)
    → All (λ g. g.supersedes_fact_id ≢ some i) facts
    → contains i (superseded_ids facts) ≡ false
unfolding superseded_ids
lacks-superseded i [] h = refl
lacks-superseded i (f ∷ fs) h =
    superseded-lacks i f.supersedes_fact_id (superseded_ids fs) h.0 (lacks-superseded i fs h.1)

both : (a b : Bool) → a ≡ true → b ≡ true → (a && b) ≡ true
both a b h k = ground arith

own_or_shared :
    (case : ℕ) (o : Option ℕ) → ((c : ℕ) → o ≡ some c → c ≡ case) → is_shared_or_own case o ≡ true
unfolding is_shared_or_own
own_or_shared case none h = refl
own_or_shared case (some d) h = (==_iff d case).1 (h d refl)

or_true : (a b : Bool) → a ≡ true → (a || b) ≡ true
or_true a b h = ground arith

or_later : (a b : Bool) → b ≡ true → (a || b) ≡ true
or_later a b h = ground arith

module _ (case : CreditCase) (cutoff : ℕ) (facts : List FinancialFact) where
  IsEligible-holds :
      (f : FinancialFact)
      → is_eligible case cutoff (superseded_ids facts) f ≡ true
      → IsEligible case cutoff facts f
  unfolding is_eligible
  IsEligible-holds f h =
      let (h1, current) = &&_true _ (not (contains f.id (superseded_ids facts))) h in
      let (h2, kept) = &&_true _ (not (text_eq f.verification_status (codes "REJECTED"))) h1 in
      let (h3, early) = &&_true _ (leb f.source_available_at cutoff) h2 in
      let (h4, near) = &&_true _ (is_shared_or_own case.id f.case_id) h3 in
      let (own, borrower) =
        &&_true (f.tenant_id == case.tenant_id) (f.entity_id == case.borrower_entity_id) h4 in
      record {
        own = (==_iff _ _).0 own;
        of_borrower = (==_iff _ _).0 borrower;
        of_case = shared_or_own case.id f.case_id near;
        available = leb→le _ _ early;
        not_rejected = λ r. ground (arith, kept, ap (λ t. text_eq t (codes "REJECTED")) r);
        not_superseded = superseded-All f.id facts (ground (arith, current));
      }

  unequal_texts : (a b : Text) → a ≢ b → not (text_eq a b) ≡ true
  unequal_texts a b h = elim (Bool-cases (text_eq a b)) [
    | inl same ↦ absurd (h (text_eq_sound a b same))
    | inr differs ↦ ground (arith, differs)
  ]

  is_eligible-IsEligible :
      (f : FinancialFact)
      → IsEligible case cutoff facts f
      → is_eligible case cutoff (superseded_ids facts) f ≡ true
  unfolding is_eligible
  is_eligible-IsEligible f h =
      both _ _
        (both _ _
          (both _ _
            (both _ _
              (both _ _ ((==_iff f.tenant_id case.tenant_id).1 h.own)
                ((==_iff f.entity_id case.borrower_entity_id).1 h.of_borrower))
              (own_or_shared case.id f.case_id h.of_case))
            (le→leb f.source_available_at cutoff h.available))
          (unequal_texts f.verification_status (codes "REJECTED") h.not_rejected))
        (ground (arith, lacks-superseded f.id facts h.not_superseded))

  -- The identifiers of the rows that pass are those of eligible facts, and of all of them.
  ids-Exists :
      (fs : List FinancialFact)
      → All
          (λ i. Exists (λ f. (f.id ≡ i) × IsEligible case cutoff facts f) fs)
          (map (λ f. f.id) (filter (is_eligible case cutoff (superseded_ids facts)) fs))
  ids-Exists [] = tt
  ids-Exists (f ∷ fs) =
      let Q : ℕ → Type 0 =
        λ i. Exists (λ x. (x.id ≡ i) × IsEligible case cutoff facts x) (f ∷ fs) in
      let rest =
        All-imp (λ i. Exists (λ x. (x.id ≡ i) × IsEligible case cutoff facts x) fs) Q _
          (λ i h. there h) (ids-Exists fs) in
      if-cases (λ xs. All Q (map (λ x. x.id) xs)) (is_eligible case cutoff (superseded_ids facts) f)
        _ _ (λ h. (here (refl, IsEligible-holds f h), rest)) λ _. rest

  ids-contains :
      (fs : List FinancialFact)
      → All
          (λ f.
            IsEligible case cutoff facts f
            → contains f.id
                (map (λ x. x.id) (filter (is_eligible case cutoff (superseded_ids facts)) fs))
              ≡ true)
          fs
  ids-contains [] = tt
  ids-contains (f ∷ fs) =
      let chosen = filter (is_eligible case cutoff (superseded_ids facts)) fs in
      (
        λ h. rw (is_eligible-IsEligible f h) (or_true (f.id == f.id) _ (==_refl f.id)),
        All-imp
            (λ x. IsEligible case cutoff facts x → contains x.id (map (λ y. y.id) chosen) ≡ true)
            (λ x.
              IsEligible case cutoff facts x
              → contains x.id (
                  map (λ y. y.id)
                    (filter (is_eligible case cutoff (superseded_ids facts)) (f ∷ fs)))
                ≡ true)
            fs
            (λ x k h.
              if-cases (λ xs. contains x.id (map (λ y. y.id) xs) ≡ true)
                (is_eligible case cutoff (superseded_ids facts) f) _ _
                (λ _. or_later (x.id == f.id) _ (k h)) λ _. k h)
            (ids-contains fs),
      )

is_empty-map : (ms : List (ℕ × ℕ)) → is_empty ms ≡ false → is_empty (map (λ m. m.1) ms) ≡ false
is_empty-map [] h = h
is_empty-map (m ∷ ms) h = refl

-- What a snapshot of the case holds.
pub record Holds (case : CreditCase) (cutoff : ℕ) (db : CaseDb) (context : SnapshotContext)
    : Type 0 where
  pub facts_are_eligible :
      All
        (λ i. Exists (λ f. (f.id ≡ i) × IsEligible case cutoff db.facts f) db.facts)
        context.allowed_fact_ids
  pub eligible_are_held :
      All
        (λ f. IsEligible case cutoff db.facts f → contains f.id context.allowed_fact_ids ≡ true)
        db.facts
  pub runs_are_active : All (IsActiveRun case.id db) context.allowed_parse_run_ids
  pub active_are_held :
      (p : ℕ) → IsActiveRun case.id db p → contains p context.allowed_parse_run_ids ≡ true
  pub not_empty : is_empty context.allowed_parse_run_ids ≡ false

module _ (digest : Canonical → Text) (fresh : ℕ) (trusted : TrustedRequestContext)
    (chunks_collection : Text) (summaries_collection : Option Text) (acl_hash : Text)
    (db : CaseDb) where
  abbrev HeldIn : Option CreditCase → Result NotReady (SnapshotContext × CaseDb) → Type 0
  HeldIn o (ok r) =
      (case : CreditCase) × (o ≡ some case) × Holds case trusted.decision_cutoff_at db r.0
  HeldIn o (err e) = Unit

  freeze_case-HeldIn :
      (o : Option CreditCase)
      → HeldIn o
          (freeze_case digest fresh trusted chunks_collection summaries_collection acl_hash db o)
  unfolding freeze_case frozen_context eligible_ids
  freeze_case-HeldIn none = tt
  freeze_case-HeldIn (some case) =
      let versions = bound_versions case.id db.case_documents db.versions in
      if-cases (HeldIn (some case)) (is_empty (members_of versions)) _ _ (λ _. tt)
        λ some_members. (
          case,
          refl,
          record {
            facts_are_eligible = ids-Exists case trusted.decision_cutoff_at db.facts db.facts;
            eligible_are_held = ids-contains case trusted.decision_cutoff_at db.facts db.facts;
            runs_are_active =
                members_of-All case.id db versions
                  (bound_versions-All case.id db.case_documents db.versions);
            active_are_held = active-contains case.id db;
            not_empty = is_empty-map (members_of versions) some_members;
          },
        )

  -- A snapshot that is frozen holds exactly the eligible facts of the case: those of its tenant on
  -- its borrower, of this case or of none, that were available at the cutoff, are not rejected and
  -- not superseded; its parse runs, of which there is one at least, are exactly the active ones of the
  -- versions that are bound to the case.
  pub freeze_snapshot-Holds :
      (context : SnapshotContext) (after : CaseDb)
      → freeze_snapshot digest fresh trusted chunks_collection summaries_collection acl_hash db
        ≡ ok (context, after)
      → (case : CreditCase) × (get_case trusted.case_id db ≡ some case)
        × Holds case trusted.decision_cutoff_at db context
  unfolding freeze_snapshot
  freeze_snapshot-Holds context after ran =
      subst (HeldIn (get_case trusted.case_id db)) ran
        (freeze_case-HeldIn (get_case trusted.case_id db))
