-- ===== src/Supervisor/UnderWay.antt =====
-- What holds of a run while the supervisor carries it out, and that every step keeps it.
use creditlens.Base.{
  ℕ, ◌≡◌, refl, sym, ◌∙◌, ap, subst, true, false, List, [], ◌∷◌, map, ◌&&◌, ◌==◌, All, All-append,
  arith,
}
use creditlens.Base.Session.{Ends, Ends-map}
use creditlens.Workflow.Status.{RunStatus, allowed}
use creditlens.Workflow.Records.{Agent, Run, ClaimRecord, Event, Db, find_run}
use creditlens.Workflow.Events.{Cursor, record_event, emit, advance, start_seq}
use creditlens.Workflow.Follows.{
  IsSynced, Moves, transition-made, transition-forced, record_event-Follows, write_run-IsSynced,
  write_run-claims, write_run-decisions, write_run-reports,
}
use creditlens.Report.Generate.{is_accepted}
use creditlens.Supervisor.Agents.{AgentArtifact, AgentClaim}
use creditlens.Supervisor.Persist.{persist_artifact, claim_record}
use creditlens.Supervisor.Execute.{
  Error, transition_refused, ledger_failed, go_to, force_to, flush_run, mark_degraded, degraded_run,
}

-- The claim is not one that a report of the run may show.
abbrev pub IsUnaudited : ℕ → ClaimRecord → Type 0
IsUnaudited run x = ((x.run_id == run) && is_accepted x.review_status) ≡ false

-- A run in a state: its row, version and events agree, no report and no decision has been added
-- since the start, and every claim on the table is as P says.
pub record IsAt (run : ℕ) (start : Db) (P : ClaimRecord → Type 0) (s : RunStatus) (c : Cursor)
    (db : Db) : Type 0 where
  pub synced : IsSynced c db
  pub same_run : c.run.id ≡ run
  pub status : c.run.status ≡ s
  pub reports : db.reports ≡ start.reports
  pub decisions : db.decisions ≡ start.decisions
  pub claims : All P db.claims

abbrev pub IsLedgerFailure : Error → Db → Type 0
IsLedgerFailure e db = e ≡ ledger_failed

module _ (run : ℕ) (start : Db) (P : ClaimRecord → Type 0) where
  moved-IsAt :
      (s to : RunStatus) (c : Cursor) (db : Db) (c' : Cursor) (db' : Db)
      → IsAt run start P s c db
      → Moves to c db c' db'
      → IsAt run start P to c' db'
  moved-IsAt s to c db c' db' h m = record {
    synced = m.follows.synced;
    same_run = m.follows.same_run ∙ h.same_run;
    status = m.status;
    reports = m.reports ∙ h.reports;
    decisions = m.follows.decisions ∙ h.decisions;
    claims = subst (All P) (sym m.follows.claims) h.claims;
  }

  pub go_to-IsAt :
      (s to : RunStatus) (c : Cursor) (db : Db)
      → allowed s to ≡ true
      → IsAt run start P s c db
      → Ends (IsAt run start P to) IsLedgerFailure (go_to to c db)
  go_to-IsAt s to c db ok h =
      Ends-map (λ c' db'. Moves to c db c' db') IsLedgerFailure (IsAt run start P to)
        IsLedgerFailure (go_to to c db) (λ c' db' m. moved-IsAt s to c db c' db' h m) (λ e db' q. q)
        (transition-made IsLedgerFailure transition_refused to c db
          (ap (λ z. allowed z to) h.status ∙ ok) h.synced)

  pub force_to-IsAt :
      (s to : RunStatus) (c : Cursor) (db : Db)
      → IsAt run start P s c db
      → Ends (IsAt run start P to) IsLedgerFailure (force_to to c db)
  force_to-IsAt s to c db h =
      Ends-map (λ c' db'. Moves to c db c' db') IsLedgerFailure (IsAt run start P to)
        IsLedgerFailure (force_to to c db) (λ c' db' m. moved-IsAt s to c db c' db' h m)
        (λ e db' q. q) (transition-forced IsLedgerFailure transition_refused to c db h.synced)

  pub record_event-IsAt :
      (s : RunStatus) (event : Event) (c : Cursor) (db : Db)
      → IsAt run start P s c db
      → Ends {E = Error} (IsAt run start P s) IsLedgerFailure (record_event event c db)
  unfolding record_event emit
  record_event-IsAt s event c db h = record {
    synced = (record_event-Follows event c db h.synced).synced;
    same_run = h.same_run;
    status = h.status;
    reports = h.reports;
    decisions = h.decisions;
    claims = h.claims;
  }

  pub flush_run-IsAt :
      (s : RunStatus) (r : Run) (c : Cursor) (db : Db)
      → r.id ≡ c.run.id
      → r.status ≡ s
      → IsAt run start P s c db
      → Ends (IsAt run start P s) IsLedgerFailure (flush_run r c db)
  unfolding flush_run
  flush_run-IsAt s r c db same st h = record {
    synced = write_run-IsSynced r c db same h.synced;
    same_run = same ∙ h.same_run;
    status = st;
    reports = write_run-reports r db ∙ h.reports;
    decisions = write_run-decisions r db ∙ h.decisions;
    claims = subst (All P) (sym (write_run-claims r db)) h.claims;
  }

  pub mark_degraded-IsAt :
      (s : RunStatus) (event : Event) (agents : List Agent) (c : Cursor) (db : Db)
      → IsAt run start P s c db
      → Ends (IsAt run start P s) IsLedgerFailure (mark_degraded event agents c db)
  unfolding mark_degraded record_event emit advance start_seq
  mark_degraded-IsAt s event agents c db h =
      flush_run-IsAt s (degraded_run c.run agents) (record c { writer = advance c.run c.writer db })
        (emit c.run event c.writer db) refl h.status (record_event-IsAt s event c db h)

module _ (run : ℕ) (start : Db) where
  new_claims-IsUnaudited :
      (r : Run) (a : AgentArtifact) (cs : List AgentClaim)
      → All (IsUnaudited run) (map (claim_record r a) cs)
  unfolding claim_record is_accepted
  new_claims-IsUnaudited r a [] = tt
  new_claims-IsUnaudited r a (c ∷ cs) = (ground arith, new_claims-IsUnaudited r a cs)

  pub persist_artifact-IsAt :
      (s : RunStatus) (a : AgentArtifact) (c : Cursor) (db : Db)
      → IsAt run start (IsUnaudited run) s c db
      → IsAt run start (IsUnaudited run) s c (persist_artifact c.run a db)
  unfolding persist_artifact find_run start_seq
  persist_artifact-IsAt s a c db h = record {
    synced = record { row = h.synced.row; next = h.synced.next };
    same_run = h.same_run;
    status = h.status;
    reports = h.reports;
    decisions = h.decisions;
    claims =
        All-append (IsUnaudited run) db.claims _ h.claims (new_claims-IsUnaudited c.run a a.claims);
  }
