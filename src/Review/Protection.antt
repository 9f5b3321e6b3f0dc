-- ===== src/Review/Protection.antt =====
-- Versions fence off the second of two decisions, decided claims keep their verdict, and COMPLETED
-- means that no claim blocks and that the approved report is the newest one.
use creditlens.Base.{
  ℕ, ◌≡◌, ◌≢◌, refl, sym, ◌∙◌, ap, subst, Bool, true, false, Option, none, some, List, [], ◌∷◌,
  ◌++◌, ◌&&◌, arith, Bool-cases, inl, inr, ◌==◌, find, some_cancel, update_where,
}
use creditlens.Base.Result.{ok}
use creditlens.Base.Text.{Text}
use creditlens.Workflow.Status.{RunStatus, same_status, completed}
use creditlens.Workflow.Records.{
  Run, ClaimRecord, ArtifactRecord, ReportContent, HumanDecision, Db, RawId, ReviewStatus,
  blocking_claims_remain, find_run, find_claim, is_blocking,
}
use creditlens.Review.Decide.{
  find_decision, is_claim_action, check_targets, check_each, check_target, check_claim,
  decide_claims, set_review_status, decided_status,
}
use creditlens.Review.Effects.{decided}
use creditlens.Review.Completion.{is_reviewable, approved_report}
use creditlens.Review.Outcome.{AnswersRequest, IsNew}
use creditlens.Review.Guarantees.{resume, answered, same_option-eq}

target_blocking :
    (run : ℕ) (db : Db) (k i : ℕ) (c : ClaimRecord)
    → check_target run db (some k) ≡ ok tt
    → find_claim i db ≡ some c
    → is_blocking c.review_status ≡ false
    → k ≢ i
unfolding check_target check_claim
target_blocking run db k i c h found done e =
    claim_blocking (find_claim k db) h (subst (λ j. find_claim j db ≡ some c) (sym e) found)
  where
    claim_blocking : (o : Option ClaimRecord) → check_claim run o ≡ ok tt → o ≡ some c → ⊥
    claim_blocking none h e = cc
    claim_blocking (some x) h e =
        ground (arith, ap (λ (y : ClaimRecord). is_blocking y.review_status) (some_cancel x c e))

find-other :
    (k i run : ℕ) (status : ReviewStatus) (cs : List ClaimRecord)
    → k ≢ i
    → find
        (λ c. c.id == i)
        (update_where
          (λ c. c.id == k && c.run_id == run)
          (λ c. record c { review_status = status })
          cs)
      ≡ find (λ c. c.id == i) cs
find-other k i run status [] ne = refl
find-other k i run status (x ∷ xs) ne = ground (arith, find-other k i run status xs ne)

set-keeps :
    (run i : ℕ) (c : ClaimRecord) (db0 : Db) (status : ReviewStatus) (o : Option ℕ) (db : Db)
    → check_target run db0 o ≡ ok tt
    → find_claim i db0 ≡ some c
    → is_blocking c.review_status ≡ false
    → find_claim i db ≡ some c
    → find_claim i (set_review_status run status o db) ≡ some c
unfolding set_review_status find_claim
set-keeps run i c db0 status none db h found done now = now
set-keeps run i c db0 status (some k) db h found done now =
    find-other k i run status db.claims (target_blocking run db0 k i c h found done) ∙ now

check_each-cons :
    (run : ℕ) (db : Db) (t : RawId) (ts : List RawId)
    → check_each run db (t ∷ ts) ≡ ok tt
    → (check_target run db t.parsed ≡ ok tt) × (check_each run db ts ≡ ok tt)
unfolding check_each
check_each-cons run db t ts h = ground arith

decide-keeps :
    (run i : ℕ) (c : ClaimRecord) (db0 : Db) (status : ReviewStatus) (ts : List RawId) (db : Db)
    → check_each run db0 ts ≡ ok tt
    → find_claim i db0 ≡ some c
    → is_blocking c.review_status ≡ false
    → find_claim i db ≡ some c
    → find_claim i (decide_claims run status ts db) ≡ some c
unfolding decide_claims
decide-keeps run i c db0 status [] db h found done now = now
decide-keeps run i c db0 status (t ∷ ts) db h found done now =
    let (first, rest) = check_each-cons run db0 t ts h in
    decide-keeps run i c db0 status ts (set_review_status run status t.parsed db) rest found done
      (set-keeps run i c db0 status t.parsed db first found done now)

targets_checked :
    (run : ℕ) (db : Db) (d : HumanDecision)
    → check_targets run db d ≡ ok tt
    → is_claim_action d.action ≡ true
    → check_each run db d.target_claim_ids ≡ ok tt
unfolding check_targets
targets_checked run db d h claim = ground arith

decided-keeps :
    (run i : ℕ) (c : ClaimRecord) (d : HumanDecision) (db : Db)
    → check_targets run db d ≡ ok tt
    → find_claim i db ≡ some c
    → is_blocking c.review_status ≡ false
    → find_claim i (decided d run db) ≡ some c
decided-keeps run i c d db h found done = elim (Bool-cases (is_claim_action d.action)) [
  | inr other ↦ rw other found
  | inl claim ↦ rw claim (
      decide-keeps run i c db (decided_status d.action) d.target_claim_ids db
        (targets_checked run db d h claim) found done found)
]

find_claim-same : (i : ℕ) (x y : Db) → x.claims ≡ y.claims → find_claim i x ≡ find_claim i y
unfolding find_claim
find_claim-same i x y h = rw h refl

completed-not_reviewable : (s : RunStatus) → s ≡ completed → is_reviewable s ≡ false
unfolding same_status
completed-not_reviewable s h = rw h refl

module _ (integrity : Run → List ArtifactRecord → List ClaimRecord → Bool)
    (hash_content : ReportContent → Text) where
  -- A claim that has been decided or has passed the audit is left as it is by every later decision.
  pub resume-keeps_decided :
      (now i : ℕ) (d : HumanDecision) (db db' : Db) (s : Option RunStatus) (c : ClaimRecord)
      → find_claim i db ≡ some c
      → is_blocking c.review_status ≡ false
      → resume integrity hash_content now d db ≡ (ok s, db')
      → find_claim i db' ≡ some c
  resume-keeps_decided now i d db db' s c found done h =
      kept (answered integrity hash_content now d db db' s h)
    where
      kept : AnswersRequest integrity hash_content d db s db' → find_claim i db' ≡ some c
      kept (q, inl r) = rw r.unchanged found
      kept (q, inr n) =
          find_claim-same i db' (decided d n.run.id db) n.effect.claims
          ∙ decided-keeps n.run.id i c d db n.checked found done

  -- Of two decisions on a run for the same expected version, with different keys, the second one to
  -- arrive is refused once the first has been recorded.
  pub resume-version_fence :
      (now later : ℕ) (d e : HumanDecision) (db db' db2 : Db) (s t : Option RunStatus)
      → e.run_id ≡ d.run_id
      → e.target_version ≡ d.target_version
      → find_decision d.run_id d.idempotency_key db ≡ none
      → resume integrity hash_content now d db ≡ (ok s, db')
      → find_decision e.run_id e.idempotency_key db' ≡ none
      → resume integrity hash_content later e db' ≢ (ok t, db2)
  resume-version_fence now later d e db db' db2 s t same_run same_version fresh first unknown
        second =
      fenced (answered integrity hash_content now d db db' s first)
        (answered integrity hash_content later e db' db2 t second)
    where
      newer :
          (n : IsNew integrity hash_content d db s db')
          (m : IsNew integrity hash_content e db' t db2)
          → ⊥
      newer n m =
          let row : find_run d.run_id db' ≡ some n.effect.final =
            subst (λ i. find_run i db' ≡ some n.effect.final) n.same_run n.effect.row in
          let one : n.effect.final ≡ m.run =
            some_cancel _ _ (sym row ∙ ap (λ i. find_run i db') (sym same_run) ∙ m.row) in
          let v : some n.run.state_version ≡ some m.run.state_version =
            sym (same_option-eq d.target_version (some n.run.state_version) n.version)
            ∙ sym same_version
            ∙ same_option-eq e.target_version (some m.run.state_version) m.version in
          omega (arith, some_cancel _ _ v, n.effect.newer, ap (λ (r : Run). r.state_version) one)

      fenced :
          AnswersRequest integrity hash_content d db s db'
          → AnswersRequest integrity hash_content e db' t db2
          → ⊥
      fenced (q, inl r) b = absurd (cc (r.known, fresh))
      fenced (q, inr n) (p, inl r) = absurd (cc (r.known, unknown))
      fenced (q, inr n) (p, inr m) = newer n m

  -- A new decision that completes the run leaves no claim of it blocking, and appends the approved
  -- draft of the claims as they then stand.
  pub resume-completes :
      (now : ℕ) (d : HumanDecision) (db db' : Db)
      → find_decision d.run_id d.idempotency_key db ≡ none
      → resume integrity hash_content now d db ≡ (ok (some completed), db')
      → (blocking_claims_remain d.run_id db' ≡ 0)
        × ((r : Run) × (x : Db) × (r.id ≡ d.run_id)
            × (x.claims ≡ db'.claims)
            × (x.reports ≡ db.reports)
            × (db'.reports ≡ db.reports ++ approved_report hash_content r x ∷ []))
  resume-completes now d db db' fresh h =
      closed (answered integrity hash_content now d db db' (some completed) h)
    where
      closed :
          AnswersRequest integrity hash_content d db (some completed) db'
          → (blocking_claims_remain d.run_id db' ≡ 0)
            × ((r : Run) × (x : Db) × (r.id ≡ d.run_id)
                × (x.claims ≡ db'.claims)
                × (x.reports ≡ db.reports)
                × (db'.reports ≡ db.reports ++ approved_report hash_content r x ∷ []))
      closed (q, inl r) = absurd (cc (r.known, fresh))
      closed (q, inr n) = elim n.effect.outcome [
        | inr (under_review, _) ↦ absurd (
            cc (
              under_review,
              completed-not_reviewable n.effect.final.status
                  (sym (some_cancel _ _ n.effect.status)),
            ))
        | inl (_, clear, (r, x, same, xc, xr, kept)) ↦ (
          subst (λ i. blocking_claims_remain i db' ≡ 0) n.same_run clear,
          (r, x, same ∙ n.same_run, xc, xr, kept),
        )
      ]
