-- ===== src/Cases/Authorised.antt =====
-- What a trusted context grants.
use creditlens.Base.{
  ℕ, ◌≡◌, refl, ap, subst, Bool, true, false, Option, none, some, List, [], ◌∷◌, map, not, ◌==◌,
  ==_iff, ==_refl, &&_true, find, find-holds, is_some, some_cancel, find-Exists, contains,
  if◌then◌else◌, Bool-cases, inl, inr, All, All-imp, All-unmap, Exists, Exists-imp, arith, if-cases,
}
use creditlens.Base.Result.{Result, ok, err, ◌>>=◌, ◌>>◌, raise_if, ok_cancel}
use creditlens.Base.Text.{Text}
use creditlens.Cases.Tables.{
  CreditCase, CaseMembership, DocumentVersion, CaseDb, TrustedRequestContext, get_case,
}
use creditlens.Cases.Snapshot.{bound_versions}
use creditlens.Cases.Active.{IsBoundVersion, bound_versions-All}
use creditlens.Cases.Trusted.{
  AccessError, case_not_found, acl_denied, is_membership, is_not_revoked, check_membership,
  distinct, bound_document_ids, found_case, context_of, build_trusted_context,
}

-- The context is of a case of the tenant, to a user with a membership that is not revoked (or to the
-- system), and allows the documents of versions that are bound to the case.
pub record IsAuthorised (db : CaseDb) (tenant case_id : ℕ) (user : Option ℕ)
    (t : TrustedRequestContext) : Type 0 where
  pub case : CreditCase
  pub found : get_case (some case_id) db ≡ some case
  pub own : case.tenant_id ≡ tenant
  pub of_tenant : t.tenant_id ≡ tenant
  pub of_case : t.case_id ≡ some case_id
  pub at_cutoff : t.decision_cutoff_at ≡ case.decision_cutoff_at
  pub on_day : t.as_of_date ≡ case.as_of_date
  pub member :
      (u : ℕ)
      → user ≡ some u
      → Exists (λ m. (m.case_id ≡ case_id) × (m.user_id ≡ u) × (m.revoked_at ≡ none)) db.memberships
  pub documents_are_bound :
      All
        (λ i.
          (v : DocumentVersion) × (v.document_id ≡ i)
          × IsBoundVersion case_id db.case_documents db.versions v)
        t.allowed_document_ids
  pub bound_are_allowed :
      All
        (λ v. contains v.document_id t.allowed_document_ids ≡ true)
        (bound_versions case_id db.case_documents db.versions)

module _ (P : ℕ → Type 0) where
  distinct-All : (is : List ℕ) → All P is → All P (distinct is)
  unfolding distinct
  distinct-All [] h = tt
  distinct-All (i ∷ is) h =
      if-cases (All P) (contains i (distinct is)) _ _ (λ _. distinct-All is h.1)
        λ _. (h.0, distinct-All is h.1)

not_revoked : (o : Option ℕ) → is_not_revoked o ≡ true → o ≡ none
unfolding is_not_revoked
not_revoked none h = refl
not_revoked (some t) h = cc

passes : (b : Bool) → raise_if (not b) acl_denied ≡ ok tt → b ≡ true
passes true h = refl
passes false h = cc

distinct-contains : (is : List ℕ) → All (λ i. contains i (distinct is) ≡ true) is
unfolding distinct
distinct-contains [] = tt
distinct-contains (i ∷ is) =
    if-cases (λ js. All (λ j. contains j js ≡ true) (i ∷ is)) (contains i (distinct is)) _ _
      (λ known. (known, distinct-contains is))
      λ _. (
        ground (arith, ==_refl i),
        All-imp (λ j. contains j (distinct is) ≡ true) (λ j. contains j (i ∷ distinct is) ≡ true) is
            (λ j h. ground (arith, h)) (distinct-contains is),
      )

found_case-parts :
    (tenant : ℕ) (o : Option CreditCase) (case : CreditCase)
    → found_case tenant o ≡ ok case
    → (o ≡ some case) × (case.tenant_id ≡ tenant)
unfolding found_case
found_case-parts tenant none case h = cc
found_case-parts tenant (some c) case h = elim (Bool-cases (c.tenant_id == tenant)) [
  | inl own ↦
      let same : c ≡ case =
        ok_cancel c case (subst (λ b. (if b then ok c else err case_not_found) ≡ ok case) own h) in
      (ap some same, subst (λ x. x.tenant_id ≡ tenant) same ((==_iff _ _).0 own))
  | inr foreign ↦ ground (arith, foreign, h)
]

member-Exists :
    (case u : ℕ) (ms : List CaseMembership)
    → is_some (find (is_membership case u) ms) ≡ true
    → Exists (λ m. (m.case_id ≡ case) × (m.user_id ≡ u) × (m.revoked_at ≡ none)) ms
unfolding is_membership
member-Exists case u ms h =
    Exists-imp (λ m. is_membership case u m ≡ true) _ ms
      (λ m e.
        let (ids, active) = &&_true _ (is_not_revoked m.revoked_at) e in
        let (of_case, of_user) = &&_true (m.case_id == case) (m.user_id == u) ids in
        ((==_iff _ _).0 of_case, (==_iff _ _).0 of_user, not_revoked m.revoked_at active))
      (find-Exists (is_membership case u) ms h)

check-member :
    (case : ℕ) (user : Option ℕ) (ms : List CaseMembership)
    → check_membership case user ms ≡ ok tt
    → (u : ℕ) → user ≡ some u
    → Exists (λ m. (m.case_id ≡ case) × (m.user_id ≡ u) × (m.revoked_at ≡ none)) ms
unfolding check_membership
check-member case none ms h u e = cc
check-member case (some v) ms h u e =
    subst (λ x. Exists (λ m. (m.case_id ≡ case) × (m.user_id ≡ x) × (m.revoked_at ≡ none)) ms)
      (some_cancel v u e) (member-Exists case v ms (passes _ h))

-- A context that is built is authorised.
module _ (db : CaseDb) (request tenant case_id : ℕ) (user : Option ℕ) (purpose : Text) where
  documents-bound :
      (vs : List DocumentVersion)
      → All (IsBoundVersion case_id db.case_documents db.versions) vs
      → All
          (λ i.
            (v : DocumentVersion) × (v.document_id ≡ i)
            × IsBoundVersion case_id db.case_documents db.versions v)
          (distinct (map (λ v. v.document_id) vs))
  documents-bound vs h = distinct-All _ _ (go vs h)
    where
      go :
          (ws : List DocumentVersion)
          → All (IsBoundVersion case_id db.case_documents db.versions) ws
          → All
              (λ i.
                (v : DocumentVersion) × (v.document_id ≡ i)
                × IsBoundVersion case_id db.case_documents db.versions v)
              (map (λ v. v.document_id) ws)
      go [] k = tt
      go (w ∷ ws) k = ((w, refl, k.0), go ws k.1)

  allowed-bound :
      (vs : List DocumentVersion)
      → All (λ v. contains v.document_id (distinct (map (λ w. w.document_id) vs)) ≡ true) vs
  allowed-bound vs =
      All-unmap (λ v. v.document_id) _ vs (distinct-contains (map (λ w. w.document_id) vs))

  built-IsAuthorised :
      (found : Result AccessError CreditCase) (checked : Result AccessError (Unit {0}))
      (t : TrustedRequestContext)
      → found_case tenant (get_case (some case_id) db) ≡ found
      → check_membership case_id user db.memberships ≡ checked
      → (found >>= λ c.
          checked >> ok (context_of request user purpose (bound_document_ids case_id db) c))
        ≡ ok t
      → IsAuthorised db tenant case_id user t
  unfolding context_of get_case bound_document_ids
  built-IsAuthorised (err e) checked t of_case of_user h = cc
  built-IsAuthorised (ok c) (err e) t of_case of_user h = cc
  built-IsAuthorised (ok c) (ok tt) t of_case of_user h =
      let (found, own) = found_case-parts tenant (get_case (some case_id) db) c of_case in
      let same_id = (==_iff c.id case_id).0 (find-holds (λ x. x.id == case_id) db.cases c found) in
      let versions = bound_versions case_id db.case_documents db.versions in
      let allowed : IsAuthorised db tenant case_id user
          (context_of request user purpose (bound_document_ids case_id db) c) =
        record {
          case = c;
          found = found;
          own = own;
          of_tenant = own;
          of_case = ap some same_id;
          at_cutoff = refl;
          on_day = refl;
          member = check-member case_id user db.memberships of_user;
          documents_are_bound =
              documents-bound versions (bound_versions-All case_id db.case_documents db.versions);
          bound_are_allowed = allowed-bound versions;
        } in
      subst (IsAuthorised db tenant case_id user) (ok_cancel _ t h) allowed

  -- A trusted context that is built is of a case of the tenant that asks, at that case's day and
  -- cutoff; a user who is named has a membership of the case that is not revoked; and the documents
  -- that it allows are those of the versions bound to the case, all of them and no others.
  pub build_trusted_context-IsAuthorised :
      (t : TrustedRequestContext)
      → build_trusted_context db request tenant case_id user purpose ≡ ok t
      → IsAuthorised db tenant case_id user t
  unfolding build_trusted_context
  build_trusted_context-IsAuthorised t h = built-IsAuthorised _ _ t refl refl h
