-- ===== src/Report/Differences.antt =====
-- What `diff_reports` reports of two contents.
use creditlens.Base.{
  ℕ, ◌≡◌, refl, ◌∙◌, ap, Bool, true, false, Bool-cases, inl, inr, List, [], ◌∷◌, ◌++◌, is_some, any,
  not, ◌&&◌, ◌||◌, ◌==◌, ==_iff, arith,
}
use creditlens.Workflow.Records.{ReportClaimEntry, ReportContent}
use creditlens.Report.Generate.{
  DiffAction, DiffEntry, added, removed, put_entry, collect, compare_entry, compare_all,
  removed_from, diff_reports, entry_at,
}

-- Whether the claim is among the entries.
unfoldable pub has_claim : ℕ → List ReportClaimEntry → Bool
has_claim i es = any (λ e. e.claim_id == i) es

unfoldable pub is_addition : DiffAction → Bool
is_addition added = true
is_addition _ = false

unfoldable pub is_removal : DiffAction → Bool
is_removal removed = true
is_removal _ = false

-- Whether the difference has an entry of this kind for the claim.
unfoldable pub reports : (DiffAction → Bool) → ℕ → List DiffEntry → Bool
reports kind i ds = any (λ d. kind d.action && d.claim_id == i) ds

entry_at-has_claim : (i : ℕ) (es : List ReportClaimEntry) → is_some (entry_at i es) ≡ has_claim i es
unfolding has_claim
entry_at-has_claim i [] = refl
entry_at-has_claim i (e ∷ es) = ground (arith, entry_at-has_claim i es)

put_entry-has_claim :
    (i : ℕ) (e : ReportClaimEntry) (m : List ReportClaimEntry)
    → has_claim i (put_entry e m) ≡ (e.claim_id == i || has_claim i m)
unfolding has_claim put_entry
put_entry-has_claim i e [] = ground arith
put_entry-has_claim i e (x ∷ xs) = ground (arith, put_entry-has_claim i e xs)

collect-has_claim :
    (i : ℕ) (es m : List ReportClaimEntry)
    → has_claim i (collect es m) ≡ (has_claim i es || has_claim i m)
unfolding has_claim collect
collect-has_claim i [] m = refl
collect-has_claim i (e ∷ es) m =
    ground (arith, collect-has_claim i es (put_entry e m), put_entry-has_claim i e m)

collected : (i : ℕ) (es : List ReportClaimEntry) → has_claim i (collect es []) ≡ has_claim i es
unfolding has_claim
collected i es = ground (arith, collect-has_claim i es [])

reports_none : (kind : DiffAction → Bool) (i : ℕ) → reports kind i [] ≡ false
unfolding reports
reports_none kind i = refl

reports-append :
    (kind : DiffAction → Bool) (i : ℕ) (ds es : List DiffEntry)
    → reports kind i (ds ++ es) ≡ (reports kind i ds || reports kind i es)
unfolding reports
reports-append kind i [] es = refl
reports-append kind i (d ∷ ds) es = ground (arith, reports-append kind i ds es)

compare_entry-own :
    (i : ℕ) (old : List ReportClaimEntry) (e : ReportClaimEntry)
    → reports is_addition i (compare_entry old e)
      ≡ (e.claim_id == i && not (has_claim e.claim_id old))
unfolding reports compare_entry is_addition
compare_entry-own i old e = ground (arith, entry_at-has_claim e.claim_id old)

compare_entry-added :
    (i : ℕ) (old : List ReportClaimEntry) (e : ReportClaimEntry)
    → reports is_addition i (compare_entry old e) ≡ (e.claim_id == i && not (has_claim i old))
compare_entry-added i old e = elim (Bool-cases (e.claim_id == i)) [
  | inl same ↦
      compare_entry-own i old e
      ∙ ap (λ z. e.claim_id == i && not (has_claim z old)) ((==_iff e.claim_id i).0 same)
  | inr other ↦ compare_entry-own i old e ∙ rw other refl
]

compare_entry-removed :
    (i : ℕ) (old : List ReportClaimEntry) (e : ReportClaimEntry)
    → reports is_removal i (compare_entry old e) ≡ false
unfolding reports compare_entry is_removal
compare_entry-removed i old e = ground arith

compare_all-added :
    (i : ℕ) (old es : List ReportClaimEntry)
    → reports is_addition i (compare_all old es) ≡ (has_claim i es && not (has_claim i old))
unfolding compare_all has_claim
compare_all-added i old [] = reports_none is_addition i
compare_all-added i old (e ∷ es) =
    reports-append is_addition i (compare_entry old e) (compare_all old es)
    ∙ ground (arith, compare_entry-added i old e, compare_all-added i old es)

compare_all-removed :
    (i : ℕ) (old es : List ReportClaimEntry) → reports is_removal i (compare_all old es) ≡ false
unfolding compare_all
compare_all-removed i old [] = reports_none is_removal i
compare_all-removed i old (e ∷ es) =
    reports-append is_removal i (compare_entry old e) (compare_all old es)
    ∙ ground (arith, compare_entry-removed i old e, compare_all-removed i old es)

removed_from-added :
    (i : ℕ) (new es : List ReportClaimEntry) → reports is_addition i (removed_from new es) ≡ false
unfolding removed_from reports is_addition
removed_from-added i new [] = refl
removed_from-added i new (e ∷ es) = ground (arith, removed_from-added i new es)

removed_from-own :
    (i : ℕ) (new : List ReportClaimEntry) (e : ReportClaimEntry) (es : List ReportClaimEntry)
    → reports is_removal i (removed_from new (e ∷ es)) ≡ (
        (e.claim_id == i && not (has_claim e.claim_id new))
        || reports is_removal i (removed_from new es))
unfolding removed_from reports is_removal
removed_from-own i new e es = ground (arith, entry_at-has_claim e.claim_id new)

nothing_removed :
    (i : ℕ) (new : List ReportClaimEntry) → reports is_removal i (removed_from new []) ≡ false
unfolding removed_from
nothing_removed i new = reports_none is_removal i

removed_from-removed :
    (i : ℕ) (new es : List ReportClaimEntry)
    → reports is_removal i (removed_from new es) ≡ (has_claim i es && not (has_claim i new))
unfolding has_claim
removed_from-removed i new [] = nothing_removed i new
removed_from-removed i new (e ∷ es) = elim (Bool-cases (e.claim_id == i)) [
  | inl same ↦
      removed_from-own i new e es
      ∙ (ap
            (λ z.
              (e.claim_id == i && not (has_claim z new))
              || reports is_removal i (removed_from new es))
            ((==_iff e.claim_id i).0 same)
          ∙ ground (arith, same, removed_from-removed i new es))
  | inr other ↦ removed_from-own i new e es ∙ ground (arith, other, removed_from-removed i new es)
]

-- The difference of two reports has an addition for a claim exactly when the new report has the
-- claim and the old one does not, and a removal for it exactly when the old report has it and the
-- new one does not.
pub diff_reports-exact :
    (old new : ReportContent) (i : ℕ)
    → (reports is_addition i (diff_reports old new)
        ≡ (has_claim i new.claims && not (has_claim i old.claims)))
      × (reports is_removal i (diff_reports old new)
          ≡ (has_claim i old.claims && not (has_claim i new.claims)))
unfolding diff_reports
diff_reports-exact old new i =
    let o : List ReportClaimEntry = collect old.claims [] in
    let n : List ReportClaimEntry = collect new.claims [] in
    let o_has : has_claim i o ≡ has_claim i old.claims = collected i old.claims in
    let n_has : has_claim i n ≡ has_claim i new.claims = collected i new.claims in
    (
      reports-append is_addition i (compare_all o n) (removed_from n o)
          ∙ ground (arith, compare_all-added i o n, removed_from-added i n o, o_has, n_has),
      reports-append is_removal i (compare_all o n) (removed_from n o)
          ∙ ground (arith, compare_all-removed i o n, removed_from-removed i n o, o_has, n_has),
    )
