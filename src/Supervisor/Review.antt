-- ===== src/Supervisor/Review.antt =====
-- `execute_full_review` as a whole.
use creditlens.Base.{
  ℕ, ◌≡◌, refl, Bool, true, false, ==_refl, arith, Bool-cases, inl, inr, ◌⊎◌, Option, none, some,
  List, ◌∷◌, All,
}
use creditlens.Base.Text.{Text}
use creditlens.Base.Session.{Ends, Ends-map}
use creditlens.Workflow.Status.{RunStatus, same_status, received}
use creditlens.Workflow.Records.{Run, ClaimRecord, ArtifactRecord, ReportContent, Db, find_run}
use creditlens.Workflow.Events.{start_seq}
use creditlens.Supervisor.Agents.{Agents}
use creditlens.Supervisor.Execute.{Error, Intake}
use creditlens.Supervisor.Stages.{execute}
use creditlens.Supervisor.UnderWay.{IsUnaudited, IsLedgerFailure}
use creditlens.Supervisor.Ending.{IsOutcome}
use creditlens.Workflow.Events.{new_writer, last_sequence}
use creditlens.Supervisor.Execute.{transition_refused, ledger_failed}
use creditlens.Supervisor.Stages.{new_run, execute_full_review}
use creditlens.Supervisor.Outcome.{execute-IsOutcome}

-- A run can begin: a prepared one is a row, a new one has an identifier without events, and no claim
-- of it has been accepted.
pub data IsReady (db : Db) : ℕ → Option Run → Type 0 where
  fresh_run :
      {fresh : ℕ}
      → last_sequence fresh db.events ≡ 0
      → All (IsUnaudited fresh) db.claims
      → IsReady db fresh none
  prepared_run :
      {fresh : ℕ} {run : Run}
      → find_run run.id db ≡ some run
      → All (IsUnaudited run.id) db.claims
      → IsReady db fresh (some run)

abbrev pub run_id_of : ℕ → Option Run → ℕ
run_id_of fresh none = fresh
run_id_of fresh (some run) = run.id

-- The errors of a review: a failed ledger, or a prepared run that is not in RECEIVED.
abbrev pub IsReviewError : Option Run → Db → Error → Db → Type 0
IsReviewError none start e db = e ≡ ledger_failed
IsReviewError (some run) start e db =
    (e ≡ ledger_failed)
    ⊎ ((e ≡ transition_refused) × (same_status run.status received ≡ false) × (db ≡ start))

received-is : (s : RunStatus) → same_status s received ≡ true → s ≡ received
unfolding same_status
received-is s h = ground arith

module _ (integrity : Run → List ArtifactRecord → List ClaimRecord → Bool)
    (hash_content : ReportContent → Text) (now : ℕ) (g : Agents) (intake : Intake) where
  -- A full review, whatever the agents do, ends in DATA_QUALITY_BLOCKED, NEED_MORE_INFO, FAILED
  -- or HUMAN_REVIEW with the reports as they were, or in COMPLETED with one more draft, made of
  -- the run's rows as they then stand and showing only claims that the auditor accepted, after an
  -- audit that rejected none and left none to a human; in either case the run's row, version and
  -- event numbers agree. It raises only if the ledger of invocations failed, or, before any
  -- write, if the prepared run is not in RECEIVED. At the start a prepared run is a row, a new
  -- one has an identifier without events, and no claim of the run has been accepted.
  pub execute_full_review-Ends :
      (fresh : ℕ) (given : Option Run) (db : Db)
      → IsReady db fresh given
      → Ends
          (IsOutcome hash_content (run_id_of fresh given) db)
          (IsReviewError given db)
          (execute_full_review integrity hash_content now g intake fresh given db)
  unfolding execute_full_review new_run new_writer find_run start_seq
  execute_full_review-Ends fresh none db (fresh_run no_events unaudited) =
      execute-IsOutcome integrity hash_content now g fresh db intake
        (record {
          run = new_run integrity hash_content now g intake fresh;
          writer = new_writer false;
        })
        (record db { runs = new_run integrity hash_content now g intake fresh ∷ db.runs })
        (record {
          synced = record { row = rw (==_refl fresh) refl; next = omega (arith, no_events) };
          same_run = refl;
          status = refl;
          reports = refl;
          decisions = refl;
          claims = unaudited;
        })
  execute_full_review-Ends fresh (some run) db (prepared_run row unaudited) =
      elim (Bool-cases (same_status run.status received)) [
        | inl begins ↦ rw begins (
            Ends-map (IsOutcome hash_content run.id db) IsLedgerFailure
              (IsOutcome hash_content run.id db) (IsReviewError (some run) db)
              (execute integrity hash_content now g intake
                (record { run = run; writer = new_writer true }) db)
              (λ out db1 h. h) (λ e db1 h. inl h)
              (execute-IsOutcome integrity hash_content now g run.id db intake
                (record { run = run; writer = new_writer true }) db
                (record {
                  synced = record { row = row; next = refl };
                  same_run = refl;
                  status = received-is run.status begins;
                  reports = refl;
                  decisions = refl;
                  claims = unaudited;
                })))
        | inr begun ↦ rw begun (inr (refl, begun, refl))
      ]
