-- ===== src/Cases/Frozen.antt =====
-- A frozen snapshot is read back as it was frozen, and the others are as they were.
use creditlens.Base.{
  ℕ, ◌≡◌, ◌≢◌, refl, ◌∙◌, ap, subst, Bool, true, false, ◌==◌, ==_refl, Option, none, some, List, [],
  ◌∷◌, map, if-cases, filter_new, filter_old, All, All-made, map-made, arith, if◌then◌else◌,
  is_empty,
}
use creditlens.Base.Result.{Result, ok, err}
use creditlens.Base.Text.{Text}
use creditlens.Cases.Tables.{
  CreditCase, SnapshotIndex, chunks, summaries, CaseDb, TrustedRequestContext, SnapshotContext,
  get_case,
}
use creditlens.Cases.Snapshot.{
  Canonical, NotReady, or_empty, index_row, index_rows, store_snapshot, frozen_context, freeze_case,
  freeze_snapshot, collection_of, load_snapshot_context, members_of, bound_versions, eligible_ids,
}

-- No row of a snapshot has the identifier.
pub record IsFresh (i : ℕ) (db : CaseDb) : Type 0 where
  pub no_document : All (λ d. (d.snapshot_id == i) ≡ false) db.snapshot_documents
  pub no_index : All (λ x. (x.snapshot_id == i) ≡ false) db.snapshot_indexes
  pub no_fact : All (λ f. (f.snapshot_id == i) ≡ false) db.snapshot_facts

map_id : (xs : List ℕ) → map (λ x. x) xs ≡ xs
map_id [] = refl
map_id (x ∷ xs) = ap (λ ys. x ∷ ys) (map_id xs)

rows-collections :
    (digest : Canonical → Text) (fresh : ℕ) (trusted : TrustedRequestContext)
    (chunks_collection : Text) (o : Option Text) (acl_hash : Text)
    → (collection_of chunks (index_rows digest fresh trusted chunks_collection o acl_hash) []
        ≡ chunks_collection)
      × (collection_of summaries (index_rows digest fresh trusted chunks_collection o acl_hash) []
          ≡ or_empty o)
unfolding index_rows index_row collection_of or_empty
rows-collections digest fresh trusted chunks_collection none acl_hash = (refl, refl)
rows-collections digest fresh trusted chunks_collection (some []) acl_hash = (refl, refl)
rows-collections digest fresh trusted chunks_collection (some (c ∷ cs)) acl_hash = (refl, refl)

context_eq :
    (i : ℕ) (a : SnapshotContext) (runs facts : List ℕ) (c s : Text)
    → a.snapshot_id ≡ i
    → a.allowed_parse_run_ids ≡ runs
    → a.allowed_fact_ids ≡ facts
    → a.chunks_collection ≡ c
    → a.summaries_collection ≡ s
    → a ≡ record {
      snapshot_id = i;
      allowed_parse_run_ids = runs;
      allowed_fact_ids = facts;
      chunks_collection = c;
      summaries_collection = s;
    }
context_eq i a runs facts c s e1 e2 e3 e4 e5 = rw⁻¹ (e1, e2, e3, e4, e5) refl

module _ (digest : Canonical → Text) (fresh : ℕ) (trusted : TrustedRequestContext)
    (chunks_collection : Text) (summaries_collection : Option Text) (acl_hash : Text) where
  rows : List SnapshotIndex
  rows = index_rows digest fresh trusted chunks_collection summaries_collection acl_hash

  index_rows-All : (P : ℕ → Type 0) → P fresh → All (λ x. P x.snapshot_id) rows
  unfolding rows index_rows index_row
  index_rows-All P h = go (is_empty (or_empty summaries_collection))
    where
      go :
          (b : Bool)
          → All
              (λ x. P x.snapshot_id)
              (index_row digest fresh trusted chunks_collection summaries_collection acl_hash chunks
                  chunks_collection
                ∷ (if b
                    then []
                    else index_row digest fresh trusted chunks_collection summaries_collection
                        acl_hash summaries
                        (or_empty summaries_collection)
                      ∷ []))
      go true = (h, tt)
      go false = (h, (h, tt))

  stored-load :
      (case : CreditCase) (members : List (ℕ × ℕ)) (fact_ids : List ℕ) (db : CaseDb)
      → IsFresh fresh db
      → load_snapshot_context
          (store_snapshot digest fresh trusted chunks_collection summaries_collection acl_hash case
            members fact_ids db)
          fresh
        ≡ frozen_context digest fresh trusted chunks_collection summaries_collection acl_hash
            members fact_ids
  unfolding load_snapshot_context store_snapshot frozen_context rows
  stored-load case members fact_ids db h =
      let documents =
        map (λ m. record { snapshot_id = fresh; document_version_id = m.0; parse_run_id = m.1 })
          members in
      let facts = map (λ i. record { snapshot_id = fresh; fact_id = i }) fact_ids in
      let at_documents =
        filter_new (λ d. d.snapshot_id == fresh) db.snapshot_documents documents h.no_document
          (All-made _ _ (λ m. ==_refl fresh) members) in
      let at_facts =
        filter_new (λ f. f.snapshot_id == fresh) db.snapshot_facts facts h.no_fact
          (All-made _ _ (λ m. ==_refl fresh) fact_ids) in
      let at_indexes =
        filter_new (λ x. x.snapshot_id == fresh) db.snapshot_indexes rows h.no_index
          (index_rows-All (λ i. (i == fresh) ≡ true) (==_refl fresh)) in
      let (at_chunks, at_summaries) =
        rows-collections digest fresh trusted chunks_collection summaries_collection acl_hash in
      context_eq fresh _ _ fact_ids chunks_collection (or_empty summaries_collection) refl
        (ap (map (λ d. d.parse_run_id)) at_documents ∙ map-made _ _ _ (λ m. refl) members)
        (ap (map (λ f. f.fact_id)) at_facts
          ∙ map-made _ _ (λ i. i) (λ i. refl) fact_ids
          ∙ map_id fact_ids)
        (ap (λ xs. collection_of chunks xs []) at_indexes ∙ at_chunks)
        (ap (λ xs. collection_of summaries xs []) at_indexes ∙ at_summaries)

  stored-others :
      (case : CreditCase) (members : List (ℕ × ℕ)) (fact_ids : List ℕ) (db : CaseDb) (j : ℕ)
      → (fresh == j) ≡ false
      → load_snapshot_context
          (store_snapshot digest fresh trusted chunks_collection summaries_collection acl_hash case
            members fact_ids db)
          j
        ≡ load_snapshot_context db j
  unfolding load_snapshot_context store_snapshot rows
  stored-others case members fact_ids db j other =
      let at_documents =
        filter_old (λ d. d.snapshot_id == j) db.snapshot_documents _
          (All-made _ _ (λ m. other) members) in
      let at_facts =
        filter_old (λ f. f.snapshot_id == j) db.snapshot_facts _
          (All-made _ _ (λ m. other) fact_ids) in
      let at_indexes =
        filter_old (λ x. x.snapshot_id == j) db.snapshot_indexes rows
          (index_rows-All (λ i. (i == j) ≡ false) other) in
      context_eq j _ _ _ _ _ refl (ap (map (λ d. d.parse_run_id)) at_documents)
        (ap (map (λ f. f.fact_id)) at_facts) (ap (λ xs. collection_of chunks xs []) at_indexes)
        (ap (λ xs. collection_of summaries xs []) at_indexes)

  abbrev ReadsBack : CaseDb → Result NotReady (SnapshotContext × CaseDb) → Type 0
  ReadsBack db (ok r) =
      (load_snapshot_context r.1 fresh ≡ r.0)
      × ((j : ℕ) → j ≢ fresh → load_snapshot_context r.1 j ≡ load_snapshot_context db j)
  ReadsBack db (err e) = Unit

  freeze_case-ReadsBack :
      (db : CaseDb) (o : Option CreditCase)
      → IsFresh fresh db
      → ReadsBack db
          (freeze_case digest fresh trusted chunks_collection summaries_collection acl_hash db o)
  unfolding freeze_case
  freeze_case-ReadsBack db none h = tt
  freeze_case-ReadsBack db (some case) h =
      let members = members_of (bound_versions case.id db.case_documents db.versions) in
      let fact_ids = eligible_ids case trusted.decision_cutoff_at db.facts in
      if-cases (ReadsBack db) (is_empty members) _ _ (λ _. tt)
        λ _. (
          stored-load case members fact_ids db h,
          λ j other. stored-others case members fact_ids db j (ground (arith, other)),
        )

  -- A snapshot that is frozen under a fresh identifier is read back as the context that the run was
  -- given, and every other snapshot is read as before.
  pub freeze-load :
      (db : CaseDb) (context : SnapshotContext) (after : CaseDb)
      → freeze_snapshot digest fresh trusted chunks_collection summaries_collection acl_hash db
        ≡ ok (context, after)
      → IsFresh fresh db
      → (load_snapshot_context after fresh ≡ context)
        × ((j : ℕ) → j ≢ fresh → load_snapshot_context after j ≡ load_snapshot_context db j)
  unfolding freeze_snapshot
  freeze-load db context after ran h =
      subst (ReadsBack db) ran (freeze_case-ReadsBack db (get_case trusted.case_id db) h)
