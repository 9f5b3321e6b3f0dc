-- ===== src/Cases/Active.antt =====
-- The parse runs of a snapshot: the active ones of the versions that are bound to the case
-- (application/snapshot_service.py).
use creditlens.Base.{
  Exists-append_left, Exists-append_right, true_not_false, ℕ, ◌≡◌, refl, sym, ap, Bool, true, ◌||◌,
  ◌==◌, ==_iff, ==_refl, Option, none, some, List, [], ◌∷◌, map, filter, All, All-imp, All-append,
  All-zip, All-filter, filter-All, each-Exists, Exists, here, there, contains, arith, if-cases,
  ◌++◌, ◌∙◌,
}
use creditlens.Cases.Tables.{CaseDocument, DocumentVersion, CaseDb}
use creditlens.Cases.Snapshot.{members_of, bound_versions}

or_true : (a b : Bool) → a ≡ true → (a || b) ≡ true
or_true a b h = ground arith

or_later : (a b : Bool) → b ≡ true → (a || b) ≡ true
or_later a b h = ground arith

-- The version is on the table and bound to the case.
abbrev pub IsBoundVersion : ℕ → List CaseDocument → List DocumentVersion → DocumentVersion → Type 0
IsBoundVersion case ds versions v =
    Exists (λ x. x ≡ v) versions
    × Exists (λ d. (d.case_id ≡ case) × (d.document_version_id ≡ v.id)) ds

pub bound_versions-All :
    (case : ℕ) (ds : List CaseDocument) (versions : List DocumentVersion)
    → All (IsBoundVersion case ds versions) (bound_versions case ds versions)
unfolding bound_versions
bound_versions-All case [] versions = tt
bound_versions-All case (d ∷ ds) versions =
    let P = IsBoundVersion case (d ∷ ds) versions in
    let rest =
      All-imp (IsBoundVersion case ds versions) P (bound_versions case ds versions)
        (λ v h. (h.0, there h.1)) (bound_versions-All case ds versions) in
    if-cases (All P) (d.case_id == case) _ _
      (λ own.
        All-append P (filter (λ v. d.document_version_id == v.id) versions)
          (bound_versions case ds versions)
          (All-zip (λ v. Exists (λ x. x ≡ v) versions) (λ v. (d.document_version_id == v.id) ≡ true)
            P (filter (λ v. d.document_version_id == v.id) versions)
            (λ v listed same. (listed, here ((==_iff _ _).0 own, (==_iff _ _).0 same)))
            (All-filter (λ v. Exists (λ x. x ≡ v) versions) (λ v. d.document_version_id == v.id)
              versions
              (All-imp (λ v. (w : DocumentVersion) → v ≡ w → Exists (λ x. x ≡ w) versions)
                (λ v. Exists (λ x. x ≡ v) versions) versions (λ v k. k v refl)
                (each-Exists (λ w x. x ≡ w) versions)))
            (filter-All (λ v. d.document_version_id == v.id) versions))
          rest)
      λ _. rest

-- An active parse run of a version that is bound to the case.
abbrev pub IsActiveRun : ℕ → CaseDb → ℕ → Type 0
IsActiveRun case db p =
    (v : DocumentVersion) × (v.active_parse_run_id ≡ some p)
    × IsBoundVersion case db.case_documents db.versions v

pub members_of-All :
    (case : ℕ) (db : CaseDb) (vs : List DocumentVersion)
    → All (IsBoundVersion case db.case_documents db.versions) vs
    → All (IsActiveRun case db) (map (λ m. m.1) (members_of vs))
unfolding members_of
members_of-All case db [] h = tt
members_of-All case db (v ∷ vs) h =
    member v.active_parse_run_id (members_of vs) (members_of-All case db vs h.1) λ p e. (v, e, h.0)
  where
    member :
        (o : Option ℕ) (rest : List (ℕ × ℕ))
        → All (IsActiveRun case db) (map (λ m. m.1) rest)
        → ((p : ℕ) → o ≡ some p → IsActiveRun case db p)
        → All
            (IsActiveRun case db)
            (map (λ m. m.1) (elim o [ none ↦ rest | some p ↦ (v.id, p) ∷ rest ]))
    member none rest k e = k
    member (some p) rest k e = (e p refl, k)

-- A version that is on the table and bound to the case is among the bound versions.
same_version-Exists :
    (p : DocumentVersion → Bool) (versions : List DocumentVersion) (v : DocumentVersion)
    → p v ≡ true
    → Exists (λ x. x ≡ v) versions
    → Exists (λ x. x ≡ v) (filter p versions)
same_version-Exists p [] v h e = elim e [ ]
same_version-Exists p (x ∷ xs) v h e =
    if-cases (Exists (λ y. y ≡ v)) (p x) (x ∷ filter p xs) (filter p xs)
      (λ kept. elim e [
        | here same ↦ here same
        | there later ↦ there (same_version-Exists p xs v h later)
      ])
      (λ left. elim e [
        | here same ↦ absurd (true_not_false (sym h ∙ ap p (sym same) ∙ left))
        | there later ↦ same_version-Exists p xs v h later
      ])

bound_versions-Exists :
    (case : ℕ) (ds : List CaseDocument) (versions : List DocumentVersion) (v : DocumentVersion)
    → IsBoundVersion case ds versions v
    → Exists (λ x. x ≡ v) (bound_versions case ds versions)
unfolding bound_versions
bound_versions-Exists case [] versions v h = elim h.1 [ ]
bound_versions-Exists case (d ∷ ds) versions v h =
    let own = filter (λ x. d.document_version_id == x.id) versions in
    if-cases (Exists (λ x. x ≡ v)) (d.case_id == case) (own ++ bound_versions case ds versions) _
      (λ bound. elim h.1 [
        | here (_, same) ↦
            Exists-append_left (λ x. x ≡ v) own _
              (same_version-Exists (λ x. d.document_version_id == x.id) versions v
                ((==_iff _ _).1 same) h.0)
        | there later ↦
            Exists-append_right (λ x. x ≡ v) own _
              (bound_versions-Exists case ds versions v (h.0, later))
      ])
      (λ foreign. elim h.1 [
        | here (is_bound, _) ↦ absurd (true_not_false (sym ((==_iff _ _).1 is_bound) ∙ foreign))
        | there later ↦ bound_versions-Exists case ds versions v (h.0, later)
      ])

members_of-contains :
    (vs : List DocumentVersion) (v : DocumentVersion) (p : ℕ)
    → Exists (λ x. x ≡ v) vs
    → v.active_parse_run_id ≡ some p
    → contains p (map (λ m. m.1) (members_of vs)) ≡ true
unfolding members_of
members_of-contains [] v p e active = elim e [ ]
members_of-contains (x ∷ xs) v p e active = elim e [
  | here same ↦
      rw (members_of, ap (λ y. y.active_parse_run_id) same ∙ active)
        (or_true (p == p) _ (==_refl p))
  | there later ↦ more x.active_parse_run_id (members_of-contains xs v p later active)
]
  where
    more :
        (o : Option ℕ)
        → contains p (map (λ m. m.1) (members_of xs)) ≡ true
        → contains p
            (map (λ m. m.1) (elim o [ none ↦ members_of xs | some q ↦ (x.id, q) ∷ members_of xs ]))
          ≡ true
    more none k = k
    more (some q) k = or_later (p == q) _ k

-- Every active run of a bound version is among the members.
pub active-contains :
    (case : ℕ) (db : CaseDb) (p : ℕ)
    → IsActiveRun case db p
    → contains p (map (λ m. m.1) (members_of (bound_versions case db.case_documents db.versions)))
      ≡ true
active-contains case db p (v, active, bound) =
    members_of-contains _ v p (bound_versions-Exists case db.case_documents db.versions v bound)
      active
