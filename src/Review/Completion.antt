-- ===== src/Review/Completion.antt =====
-- A run reaches COMPLETED by allowed transitions, and only with its approved report on the table.
use creditlens.Base.{
  ℕ, ◌+◌, ◌<◌, ◌≡◌, refl, ◌∙◌, ap, Bool, true, false, some, List, [], ◌∷◌, ◌++◌, ◌||◌, arith,
  Bool-cases, inl, inr, ◌⊎◌,
}
use creditlens.Base.Text.{Text}
use creditlens.Workflow.Status.{
  RunStatus, same_status, human_review, rework, reporting, completed, allowed,
}
use creditlens.Workflow.Records.{
  Run, ClaimRecord, ArtifactRecord, ReportContent, ReportVersion, Db, approved_draft, find_run,
}
use creditlens.Base.Session.{Ends, Ends-bind, Ends-imp}
use creditlens.Workflow.Follows.{
  IsSynced, Follows, Moves, Follows-trans, Follows-refl, transition-made, write_run-IsSynced,
  write_run-claims, write_run-decisions, write_run-reports,
}
use creditlens.Workflow.Events.{Cursor, start_seq, transition}
use creditlens.Report.Generate.{
  content_of, last_version, persist_report_via_agent, passes_integrity,
}
use creditlens.Review.Decide.{
  Error, transition_refused, artifact_integrity_failed, complete, finish, stamp, leave_rework,
  close_run, start_report,
}

abbrev pub is_reviewable : RunStatus → Bool
is_reviewable s = same_status s human_review || same_status s rework

pub reviewable-cases : (s : RunStatus) → is_reviewable s ≡ true → (s ≡ human_review) ⊎ (s ≡ rework)
unfolding same_status
reviewable-cases s h = ground arith

-- The report that a run's rows give, as `persist` appends it.
abbrev pub approved_report : (ReportContent → Text) → Run → Db → ReportVersion
approved_report hash_content run db = record {
  run_id = run.id;
  version_no = last_version run.id db.reports + 1;
  status = approved_draft;
  content = content_of run db;
  content_hash = hash_content (content_of run db);
}

at_reporting : (c : Cursor) → c.run.status ≡ reporting → allowed c.run.status completed ≡ true
unfolding allowed
at_reporting c h = rw h refl

to_reporting : (s : RunStatus) → s ≡ human_review → allowed s reporting ≡ true
unfolding allowed
to_reporting s h = rw h refl

out_of_rework : (s : RunStatus) → same_status s rework ≡ true → allowed s human_review ≡ true
unfolding allowed same_status
out_of_rework s h = ground arith

in_review :
    (s : RunStatus) → is_reviewable s ≡ true → same_status s rework ≡ false → s ≡ human_review
unfolding same_status
in_review s h k = ground arith

module _ (integrity : Run → List ArtifactRecord → List ClaimRecord → Bool)
    (hash_content : ReportContent → Text) where
  -- What COMPLETED rests on: the approved report of the claims as they stand, after a passed check.
  pub record IsCompleted (c : Cursor) (db : Db) (c' : Cursor) (db' : Db) : Type 0 where
    pub follows : Follows c db c' db'
    pub status : c'.run.status ≡ completed
    pub report :
        (r : Run) × (x : Db) × (r.id ≡ c.run.id)
        × (x.claims ≡ db.claims)
        × (x.reports ≡ db.reports)
        × (db'.reports ≡ db.reports ++ approved_report hash_content r x ∷ [])
    pub newer : c.run.state_version < c'.run.state_version

  persist-Ends :
      (c : Cursor) (db : Db)
      → IsSynced c db
      → Ends
          (λ _ db'.
            (IsSynced c db')
            × (db'.decisions ≡ db.decisions)
            × (db'.claims ≡ db.claims)
            × (db'.reports ≡ db.reports ++ approved_report hash_content c.run db ∷ []))
          (λ e db'. e ≡ artifact_integrity_failed)
          (persist_report_via_agent integrity artifact_integrity_failed hash_content c.run
            approved_draft db)
  unfolding persist_report_via_agent find_run start_seq
  persist-Ends c db s =
      elim (Bool-cases
        (passes_integrity integrity artifact_integrity_failed hash_content c.run db)) [
          | inl good ↦ rw good (record { row = s.row; next = s.next }, refl, refl, refl)
          | inr bad ↦ rw bad refl
        ]

  abbrev Persisted : Cursor → Db → Unit {0} → Db → Type 0
  Persisted c db _ db' =
      IsSynced c db'
      × (db'.decisions ≡ db.decisions)
      × (db'.claims ≡ db.claims)
      × (db'.reports ≡ db.reports ++ approved_report hash_content c.run db ∷ [])

  abbrev Failed : Error → Db → Type 0
  Failed e db = e ≡ artifact_integrity_failed

  stamp-Completed :
      (now : ℕ) (c c1 : Cursor) (db db1 db2 : Db)
      → Persisted c db tt db1
      → Moves completed c db1 c1 db2
      → Ends (IsCompleted c db) Failed (stamp integrity hash_content now c1 db2)
  unfolding stamp
  stamp-Completed now c c1 db db1 db2 p m = record {
    follows = record {
      synced =
          write_run-IsSynced (record c1.run { completed_at = some now }) c1 db2 refl
            m.follows.synced;
      same_run = m.follows.same_run;
      version = m.follows.version;
      decisions = write_run-decisions _ db2 ∙ m.follows.decisions ∙ p.1;
      claims = write_run-claims _ db2 ∙ m.follows.claims ∙ p.2;
    };
    status = m.status;
    report = (c.run, db, refl, refl, refl, write_run-reports _ db2 ∙ m.reports ∙ p.3);
    newer = m.newer;
  }

  -- From REPORTING on.
  finish-Ends :
      (now : ℕ) (c : Cursor) (db : Db)
      → IsSynced c db
      → c.run.status ≡ reporting
      → Ends (IsCompleted c db) Failed (finish integrity hash_content now c db)
  unfolding finish
  finish-Ends now c db s at =
      Ends-bind (Persisted c db) (IsCompleted c db) Failed
        (persist_report_via_agent integrity artifact_integrity_failed hash_content c.run
          approved_draft)
        (λ _. close_run integrity hash_content now c) db (persist-Ends c db s)
        (λ _ db1 p.
          unfold close_run in
          Ends-bind (Moves completed c db1) (IsCompleted c db) Failed
            (transition transition_refused false completed c) (stamp integrity hash_content now) db1
            (transition-made Failed transition_refused completed c db1 (at_reporting c at) p.0)
            (λ c1 db2 m. stamp-Completed now c c1 db db1 db2 p m))

  -- Out of REWORK, if the run is in it.
  abbrev Returned : Cursor → Db → Cursor → Db → Type 0
  Returned c db c' db' =
      Follows c db c' db' × (c'.run.status ≡ human_review) × (db'.reports ≡ db.reports)

  leave_rework-Ends :
      (c : Cursor) (db : Db)
      → IsSynced c db
      → is_reviewable c.run.status ≡ true
      → Ends (Returned c db) Failed (leave_rework integrity hash_content c db)
  unfolding leave_rework
  leave_rework-Ends c db s h = elim (Bool-cases (same_status c.run.status rework)) [
    | inr out ↦ rw out (Follows-refl s, in_review c.run.status h out, refl)
    | inl at ↦ rw at (
        Ends-imp (Moves human_review c db) (Returned c db) Failed _
          (λ c' db' m. (m.follows, m.status, m.reports))
          (transition-made Failed transition_refused human_review c db
            (out_of_rework c.run.status at) s))
  ]

  after_review :
      (c c1 c2 c' : Cursor) (db db1 db2 db' : Db)
      → Returned c db c1 db1
      → Moves reporting c1 db1 c2 db2
      → IsCompleted c2 db2 c' db'
      → IsCompleted c db c' db'
  after_review c c1 c2 c' db db1 db2 db' p m f =
      let (r, x, same, xc, xr, kept) = f.report in
      record {
        follows = Follows-trans p.0 (Follows-trans m.follows f.follows);
        status = f.status;
        report = (
          r,
          x,
          same ∙ m.follows.same_run ∙ p.0.same_run,
          xc ∙ m.follows.claims ∙ p.0.claims,
          xr ∙ m.reports ∙ p.2,
          kept ∙ ap (λ l. l ++ approved_report hash_content r x ∷ []) (m.reports ∙ p.2),
        );
        newer = omega (arith, p.0.version, m.newer, f.newer);
      }

  -- A run that awaits a decision is completed, or its report fails its integrity check; no
  -- transition on the way is refused.
  pub complete-Ends :
      (now : ℕ) (c : Cursor) (db : Db)
      → IsSynced c db
      → is_reviewable c.run.status ≡ true
      → Ends (IsCompleted c db) Failed (complete integrity hash_content now c db)
  unfolding complete
  complete-Ends now c db s h =
      Ends-bind (Returned c db) (IsCompleted c db) Failed (leave_rework integrity hash_content c)
        (start_report integrity hash_content now) db (leave_rework-Ends c db s h)
        (λ c1 db1 p.
          unfold start_report in
          Ends-bind (Moves reporting c1 db1) (IsCompleted c db) Failed
            (transition transition_refused false reporting c1) (finish integrity hash_content now)
            db1
            (transition-made Failed transition_refused reporting c1 db1
              (to_reporting c1.run.status p.1) p.0.synced)
            (λ c2 db2 m.
              Ends-imp (IsCompleted c2 db2) (IsCompleted c db) Failed _
                (λ c' db' f. after_review c c1 c2 c' db db1 db2 db' p m f)
                (finish-Ends now c2 db2 m.follows.synced m.status)))
