-- ===== src/Review/Effects.antt =====
-- What a recorded decision does: the run is completed, with its report and no blocking claim, or it
-- stays under review; of the claims, only the targets are written.
use creditlens.Base.{
  ℕ, ◌≤◌, ◌≡◌, refl, sym, ◌∙◌, ap, Bool, true, false, Option, none, some, List, [], ◌∷◌, ◌++◌,
  if◌then◌else◌, arith, Bool-cases, inl, inr, ◌⊎◌, ltb,
}
use creditlens.Base.Session.{Ends, Ends-imp}
use creditlens.Base.Text.{Text}
use creditlens.Workflow.Status.{RunStatus, same_status, rework, completed, allowed}
use creditlens.Workflow.Records.{
  Run, ClaimRecord, ArtifactRecord, ReportContent, HumanDecision, RawId, ReviewStatus, Db, Event,
  human_review_pending, blocking_claims_remain, find_run,
}
use creditlens.Workflow.Events.{Cursor, emit, record_event, start_seq}
use creditlens.Workflow.Follows.{IsSynced, Moves, record_event-Follows, transition-made}
use creditlens.Review.Decide.{
  Error, transition_refused, artifact_integrity_failed, decide_claims, set_review_status,
  decided_status, is_claim_action, is_report_action, apply_claims, apply_rework, apply_decision,
}
use creditlens.Review.Completion.{is_reviewable, IsCompleted, complete-Ends, approved_report}

-- The fields other than the claims.
abbrev SameButClaims : Db → Db → Type 0
SameButClaims db db' =
    (db'.runs ≡ db.runs)
    × (db'.events ≡ db.events)
    × (db'.decisions ≡ db.decisions)
    × (db'.reports ≡ db.reports)

set_review_status-SameButClaims :
    (run : ℕ) (status : ReviewStatus) (i : Option ℕ) (db : Db)
    → SameButClaims db (set_review_status run status i db)
unfolding set_review_status
set_review_status-SameButClaims run status none db = (refl, refl, refl, refl)
set_review_status-SameButClaims run status (some i) db = (refl, refl, refl, refl)

decide_claims-SameButClaims :
    (run : ℕ) (status : ReviewStatus) (ts : List RawId) (db : Db)
    → SameButClaims db (decide_claims run status ts db)
unfolding decide_claims
decide_claims-SameButClaims run status [] db = (refl, refl, refl, refl)
decide_claims-SameButClaims run status (t ∷ ts) db =
    let h = decide_claims-SameButClaims run status ts (set_review_status run status t.parsed db) in
    let k = set_review_status-SameButClaims run status t.parsed db in
    (h.0 ∙ k.0, h.1 ∙ k.1, h.2 ∙ k.2, h.3 ∙ k.3)

-- The claims as the decision leaves them.
abbrev pub decided : HumanDecision → ℕ → Db → Db
decided d run db =
    if is_claim_action d.action
    then decide_claims run (decided_status d.action) d.target_claim_ids db
    else db

IsSynced-same :
    (c : Cursor) (db db' : Db)
    → db'.runs ≡ db.runs
    → db'.events ≡ db.events
    → IsSynced c db
    → IsSynced c db'
unfolding find_run start_seq
IsSynced-same c db db' r e s = record { row = rw r s.row; next = rw e s.next }

pub blocking-same :
    (i : ℕ) (db db' : Db)
    → db'.claims ≡ db.claims
    → blocking_claims_remain i db' ≡ blocking_claims_remain i db
unfolding blocking_claims_remain
blocking-same i db db' h = rw h

emit-reports : (c : Cursor) (e : Event) (db : Db) → (emit c.run e c.writer db).reports ≡ db.reports
unfolding emit
emit-reports c e db = refl

rework-reviewable : (s : RunStatus) → s ≡ rework → is_reviewable s ≡ true
unfolding same_status
rework-reviewable s h = rw h refl

to_rework :
    (s : RunStatus)
    → is_reviewable s ≡ true
    → same_status s rework ≡ false
    → allowed s rework ≡ true
unfolding same_status allowed
to_rework s h k = ground arith

module _ (integrity : Run → List ArtifactRecord → List ClaimRecord → Bool)
    (hash_content : ReportContent → Text) where
  -- The report that completed the run is the newest row, and no claim of the run blocks.
  abbrev pub IsClosed : Cursor → Db → Cursor → Db → Type 0
  IsClosed c db c' db' =
      (c'.run.status ≡ completed)
      × (blocking_claims_remain c.run.id db' ≡ 0)
      × ((r : Run) × (x : Db) × (r.id ≡ c.run.id)
          × (x.claims ≡ db'.claims)
          × (x.reports ≡ db.reports)
          × (db'.reports ≡ db.reports ++ approved_report hash_content r x ∷ []))

  abbrev pub IsOpen : Db → Cursor → Db → Type 0
  IsOpen db c' db' = (is_reviewable c'.run.status ≡ true) × (db'.reports ≡ db.reports)

  pub record IsApplied (d : HumanDecision) (c : Cursor) (db : Db) (c' : Cursor) (db' : Db)
      : Type 0 where
    pub synced : IsSynced c' db'
    pub same_run : c'.run.id ≡ c.run.id
    pub version : c.run.state_version ≤ c'.run.state_version
    pub decisions : db'.decisions ≡ db.decisions
    pub claims : db'.claims ≡ (decided d c.run.id db).claims
    pub outcome : IsClosed c db c' db' ⊎ IsOpen db c' db'

  abbrev Failed : Error → Db → Type 0
  Failed e db = e ≡ artifact_integrity_failed

  -- A completion from a store where nothing blocks.
  closes :
      (d : HumanDecision) (c : Cursor) (db0 db : Db) (c' : Cursor) (db' : Db)
      → db.claims ≡ (decided d c.run.id db0).claims
      → db.decisions ≡ db0.decisions
      → db.reports ≡ db0.reports
      → blocking_claims_remain c.run.id db ≡ 0
      → IsCompleted integrity hash_content c db c' db'
      → IsApplied d c db0 c' db'
  closes d c db0 db c' db' claims decisions reports clear f =
      let (r, x, same, xc, xr, kept) = f.report in
      record {
        synced = f.follows.synced;
        same_run = f.follows.same_run;
        version = f.follows.version;
        decisions = f.follows.decisions ∙ decisions;
        claims = f.follows.claims ∙ claims;
        outcome = inl (
          f.status,
          blocking-same c.run.id db db' f.follows.claims ∙ clear,
          (
            r,
            x,
            same,
            xc ∙ sym f.follows.claims,
            xr ∙ reports,
            kept ∙ ap (λ l. l ++ approved_report hash_content r x ∷ []) reports,
          ),
        );
      }

  clear_of : (n : ℕ) → ltb 0 n ≡ false → n ≡ 0
  clear_of n h = ground arith

  still_open :
      (d : HumanDecision) (c : Cursor) (db db1 : Db)
      → IsSynced c db1
      → is_reviewable c.run.status ≡ true
      → db1.claims ≡ (decided d c.run.id db).claims
      → db1.decisions ≡ db.decisions
      → db1.reports ≡ db.reports
      → (n : ℕ) → Ends (IsApplied d c db) Failed (record_event (human_review_pending n) c db1)
  unfolding record_event
  still_open d c db db1 s h claims decisions reports n =
      let f = record_event-Follows (human_review_pending n) c db1 s in
      record {
        synced = f.synced;
        same_run = refl;
        version = omega arith;
        decisions = f.decisions ∙ decisions;
        claims = f.claims ∙ claims;
        outcome = inr (h, emit-reports c (human_review_pending n) db1 ∙ reports);
      }

  apply_claims-Ends :
      (now : ℕ) (d : HumanDecision) (c : Cursor) (db : Db)
      → IsSynced c db
      → is_reviewable c.run.status ≡ true
      → is_claim_action d.action ≡ true
      → Ends (IsApplied d c db) Failed (apply_claims integrity hash_content now d c db)
  unfolding apply_claims record_event
  apply_claims-Ends now d c db s h claim =
      let db1 : Db = decide_claims c.run.id (decided_status d.action) d.target_claim_ids db in
      let same =
        decide_claims-SameButClaims c.run.id (decided_status d.action) d.target_claim_ids db in
      let s1 : IsSynced c db1 = IsSynced-same c db db1 same.0 same.1 s in
      let at : db1.claims ≡ (decided d c.run.id db).claims = rw claim refl in
      elim (Bool-cases (ltb 0 (blocking_claims_remain c.run.id db1))) [
        | inl more ↦
            rw more
              (still_open d c db db1 s1 h at same.2 same.3 (blocking_claims_remain c.run.id db1))
        | inr clear ↦ rw clear (
            Ends-imp (IsCompleted integrity hash_content c db1) (IsApplied d c db) Failed _
              (λ c' db' f. closes d c db db1 c' db' at same.2 same.3 (clear_of _ clear) f)
              (complete-Ends integrity hash_content now c db1 s1 h))
      ]

  apply_rework-Ends :
      (d : HumanDecision) (c : Cursor) (db : Db)
      → IsSynced c db
      → is_reviewable c.run.status ≡ true
      → is_claim_action d.action ≡ false
      → Ends (IsApplied d c db) Failed (apply_rework integrity hash_content c db)
  unfolding apply_rework
  apply_rework-Ends d c db s h other = elim (Bool-cases (same_status c.run.status rework)) [
    | inl already ↦ rw already (record {
      synced = s;
      same_run = refl;
      version = omega arith;
      decisions = refl;
      claims = rw other refl;
      outcome = inr (h, refl);
    })
    | inr review ↦ rw review (
        Ends-imp (Moves rework c db) (IsApplied d c db) Failed _
          (λ c' db' m. record {
            synced = m.follows.synced;
            same_run = m.follows.same_run;
            version = m.follows.version;
            decisions = m.follows.decisions;
            claims = rw other m.follows.claims;
            outcome = inr (rework-reviewable c'.run.status m.status, m.reports);
          })
          (transition-made Failed transition_refused rework c db (to_rework c.run.status h review)
            s))
  ]

  -- Every recorded decision on a run under review closes it or leaves it under review. The one
  -- error is a failed integrity check of the report.
  pub apply_decision-Ends :
      (now : ℕ) (d : HumanDecision) (c : Cursor) (db : Db)
      → IsSynced c db
      → is_reviewable c.run.status ≡ true
      → (is_report_action d.action ≡ true → blocking_claims_remain c.run.id db ≡ 0)
      → Ends (IsApplied d c db) Failed (apply_decision integrity hash_content now d c db)
  unfolding apply_decision
  apply_decision-Ends now d c db s h clear = elim (Bool-cases (is_claim_action d.action)) [
    | inl claim ↦ rw claim (apply_claims-Ends now d c db s h claim)
    | inr other ↦ elim (Bool-cases (is_report_action d.action)) [
      | inr neither ↦ rw (other, neither) (apply_rework-Ends d c db s h other)
      | inl report ↦
          rw (other, report)
            (Ends-imp (IsCompleted integrity hash_content c db) (IsApplied d c db) Failed _
              (λ c' db' f. closes d c db db c' db' (rw other refl) refl refl (clear report) f)
              (complete-Ends integrity hash_content now c db s h))
    ]
  ]
