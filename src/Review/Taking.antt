-- ===== src/Review/Taking.antt =====
-- What a new decision does once it takes effect (agents/supervisor.py).
use creditlens.Base.{
  ℕ, ◌+◌, ◌<◌, ◌≡◌, refl, ◌∙◌, ap, subst, Bool, true, Option, none, some, List, [], ◌∷◌, ◌++◌,
  arith, Bool-cases, inl, inr, ◌⊎◌, ◌==◌, ==_iff, find-holds,
}
use creditlens.Base.Result.{ok}
use creditlens.Base.Session.{Ends, Ends-bind}
use creditlens.Base.Text.{Text}
use creditlens.Workflow.Status.{RunStatus}
use creditlens.Workflow.Records.{
  Run, ClaimRecord, ArtifactRecord, ReportContent, HumanDecision, RawId, ReviewStatus, Db,
  human_decision, blocking_claims_remain, find_run, write_run,
}
use creditlens.Workflow.Events.{Cursor, new_writer, record_event, start_seq, advance, emit}
use creditlens.Workflow.Follows.{
  IsSynced, write_run-find, record_event-Follows, write_run-decisions, write_run-claims,
}
use creditlens.Review.Decide.{
  Error, artifact_integrity_failed, is_claim_action, is_report_action, check_targets, take_effect,
  set_review_status, decide_claims, decided_status, apply_decision,
}
use creditlens.Review.Completion.{is_reviewable, approved_report}
use creditlens.Review.Effects.{
  IsApplied, IsClosed, IsOpen, decided, apply_decision-Ends, blocking-same,
}

-- The decision's row is on the table.
abbrev pub with_decision : HumanDecision → Db → Db
with_decision d db = record db { decisions = db.decisions ++ d ∷ [] }

set-same :
    (i : ℕ) (r : ReviewStatus) (t : Option ℕ) (x y : Db)
    → x.claims ≡ y.claims
    → (set_review_status i r t x).claims ≡ (set_review_status i r t y).claims
unfolding set_review_status
set-same i r none x y h = h
set-same i r (some k) x y h = rw h refl

decide-same :
    (i : ℕ) (r : ReviewStatus) (ts : List RawId) (x y : Db)
    → x.claims ≡ y.claims
    → (decide_claims i r ts x).claims ≡ (decide_claims i r ts y).claims
unfolding decide_claims
decide-same i r [] x y h = h
decide-same i r (t ∷ ts) x y h =
    decide-same i r ts (set_review_status i r t.parsed x) (set_review_status i r t.parsed y)
      (set-same i r t.parsed x y h)

-- The decided claims depend on the claims alone.
pub decided-same :
    (d : HumanDecision) (i : ℕ) (x y : Db)
    → x.claims ≡ y.claims
    → (decided d i x).claims ≡ (decided d i y).claims
decided-same d i x y h = elim (Bool-cases (is_claim_action d.action)) [
  | inl claim ↦ rw claim (decide-same i (decided_status d.action) d.target_claim_ids x y h)
  | inr other ↦ rw other h
]

pub nothing_blocks :
    (i : ℕ) (db : Db) (d : HumanDecision)
    → check_targets i db d ≡ ok tt
    → is_report_action d.action ≡ true
    → blocking_claims_remain i db ≡ 0
unfolding check_targets is_claim_action is_report_action
nothing_blocks i db d h r = ground arith

pub found_id : (i : ℕ) (run : Run) (db : Db) → find_run i db ≡ some run → run.id ≡ i
unfolding find_run
found_id i run db h = (==_iff run.id i).0 (find-holds (λ r. r.id == i) db.runs run h)

module _ (integrity : Run → List ArtifactRecord → List ClaimRecord → Bool)
    (hash_content : ReportContent → Text) where
  -- The decision took effect on the run: its row is a newer version, and closed or under review.
  pub record TookEffect (d : HumanDecision) (run : Run) (db : Db) (s : Option RunStatus) (db' : Db)
      : Type 0 where
    pub final : Run
    pub status : s ≡ some final.status
    pub row : find_run run.id db' ≡ some final
    pub newer : run.state_version < final.state_version
    pub decisions : db'.decisions ≡ db.decisions ++ d ∷ []
    pub claims : db'.claims ≡ (decided d run.id db).claims
    pub outcome :
        ((final.status ≡ RunStatus.completed)
          × (blocking_claims_remain run.id db' ≡ 0)
          × ((r : Run) × (x : Db) × (r.id ≡ run.id)
              × (x.claims ≡ db'.claims)
              × (x.reports ≡ db.reports)
              × (db'.reports ≡ db.reports ++ approved_report hash_content r x ∷ [])))
        ⊎ ((is_reviewable final.status ≡ true) × (db'.reports ≡ db.reports))

  abbrev pub Failed : Error → Db → Type 0
  Failed e db = e ≡ artifact_integrity_failed

  opened :
      (d : HumanDecision) (run : Run) (db : Db)
      → find_run run.id db ≡ some run
      → IsSynced
          (record {
            run = record run { state_version = run.state_version + 1 };
            writer = new_writer true;
          })
          (write_run (record run { state_version = run.state_version + 1 }) (with_decision d db))
  unfolding new_writer start_seq find_run
  opened d run db found = record {
    row =
        write_run-find (record run { state_version = run.state_version + 1 }) run
          (with_decision d db) found;
    next = refl;
  }

  emitted_reports :
      (r : Run) (d : HumanDecision) (db : Db)
      → (emit r
          (human_decision d.action)
          (new_writer true)
          (write_run r (with_decision d db))).reports
        ≡ db.reports
  unfolding emit write_run
  emitted_reports r d db = refl

  outcome_of :
      (run : Run) (db db2 : Db) (c1 c' : Cursor) (db' : Db)
      → c1.run.id ≡ run.id
      → db2.reports ≡ db.reports
      → IsClosed integrity hash_content c1 db2 c' db' ⊎ IsOpen integrity hash_content db2 c' db'
      → ((c'.run.status ≡ RunStatus.completed)
          × (blocking_claims_remain run.id db' ≡ 0)
          × ((r : Run) × (x : Db) × (r.id ≡ run.id)
              × (x.claims ≡ db'.claims)
              × (x.reports ≡ db.reports)
              × (db'.reports ≡ db.reports ++ approved_report hash_content r x ∷ [])))
        ⊎ ((is_reviewable c'.run.status ≡ true) × (db'.reports ≡ db.reports))
  outcome_of run db db2 c1 c' db' i e (inr (open_, same)) = inr (open_, same ∙ e)
  outcome_of run db db2 c1 c' db' i e (inl (closed, clear, (r, x, same, xc, xr, kept))) = inl (
    closed,
    subst (λ k. blocking_claims_remain k db' ≡ 0) i clear,
    (r, x, same ∙ i, xc, xr ∙ e, kept ∙ ap (λ l. l ++ approved_report hash_content r x ∷ []) e),
  )

  pub take_effect-Ends :
      (now : ℕ) (d : HumanDecision) (run : Run) (db : Db)
      → find_run run.id db ≡ some run
      → is_reviewable run.status ≡ true
      → (is_report_action d.action ≡ true → blocking_claims_remain run.id db ≡ 0)
      → Ends
          (TookEffect d run db)
          Failed
          (take_effect integrity hash_content now d run (with_decision d db))
  unfolding take_effect record_event
  take_effect-Ends now d run db found h clear =
      let run' : Run = record run { state_version = run.state_version + 1 } in
      let db1 : Db = write_run run' (with_decision d db) in
      let c0 : Cursor = record { run = run'; writer = new_writer true } in
      let f = record_event-Follows (human_decision d.action) c0 db1 (opened d run db found) in
      let c1 : Cursor = record c0 { writer = advance run' (new_writer true) db1 } in
      let db2 : Db = emit run' (human_decision d.action) (new_writer true) db1 in
      Ends-bind (IsApplied integrity hash_content d c1 db2) (TookEffect d run db) Failed
        (apply_decision integrity hash_content now d c1) (λ c s. (ok (some c.run.status), s)) db2
        (apply_decision-Ends integrity hash_content now d c1 db2 f.synced h (λ r.
          blocking-same run.id db db2 (f.claims ∙ write_run-claims run' (with_decision d db))
          ∙ clear r))
        (λ c' db' a. record {
          final = c'.run;
          status = refl;
          row = subst (λ i. find_run i db' ≡ some c'.run) a.same_run a.synced.row;
          newer = omega (arith, a.version);
          decisions = a.decisions ∙ f.decisions ∙ write_run-decisions run' (with_decision d db);
          claims =
              a.claims
              ∙ decided-same d run.id db2 db
                  (f.claims ∙ write_run-claims run' (with_decision d db));
          outcome = outcome_of run db db2 c1 c' db' refl (emitted_reports run' d db) a.outcome;
        })
