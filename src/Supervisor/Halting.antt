-- ===== src/Supervisor/Halting.antt =====
-- A critical agent that fails halts the loop over the agents.
use creditlens.Base.{
  ℕ, ◌≡◌, refl, sym, subst, Bool, true, false, inl, inr, ◌⊎◌, none, List, [], ◌∷◌, ◌++◌,
}
use creditlens.Base.Session.{Exec, ◌>>=◌, Ends, Ends-bind, Ends-if, pure}
use creditlens.Workflow.Status.{RunStatus, need_more_info, data_quality_blocked, executing}
use creditlens.Workflow.Records.{Agent, ClaimRecord, policy, financial, Db, task_failed}
use creditlens.Workflow.Events.{Cursor, record_event}
use creditlens.Supervisor.Agents.{
  AgentArtifact, AgentResult, Agents, returned, ledger_raised, raised, checked, is_failed_status,
  is_critical, Task,
}
use creditlens.Supervisor.Persist.{persist_artifact}
use creditlens.Supervisor.Execute.{
  Error, RunOutcome, Progress, Flow, go_on, stop, force_to, failed_artifact, fail_run, run_tasks,
}
use creditlens.Supervisor.UnderWay.{
  IsAt, IsUnaudited, IsLedgerFailure, force_to-IsAt, record_event-IsAt, persist_artifact-IsAt,
}
use creditlens.Supervisor.Tasks.{IsFlowing}
use creditlens.Supervisor.Tasks.{IsGoing, after_run-IsFlowing}
use creditlens.Supervisor.Execute.{
  after_failure, after_artifact, after_failed_artifact, after_exception, after_run, run_task,
  proceed, stopped, add_degraded, after_success,
}

-- The agent's run does not give a usable artifact.
unfoldable pub is_failure : AgentResult → Bool
unfolding is_failed_status
is_failure (returned a codes) = is_failed_status a.execution_status
is_failure ledger_raised = true
is_failure raised = true

abbrev pub AlwaysFails : (Db → AgentResult) → Type 0
AlwaysFails f = (db : Db) → is_failure (checked (f db)) ≡ true

unfoldable pub is_barred : RunStatus → Bool
is_barred data_quality_blocked = true
is_barred need_more_info = true
is_barred RunStatus.failed = true
is_barred _ = false

-- The run stopped before an audit, and with the reports as they were.
pub record IsBarred (start : Db) (out : RunOutcome) (db : Db) : Type 0 where
  pub status : is_barred out.cursor.run.status ≡ true
  pub audit : out.audit ≡ none
  pub reports : db.reports ≡ start.reports

module _ (run : ℕ) (start : Db) where
  abbrev pub IsHalted : Flow → Db → Type 0
  IsHalted (go_on p) db = ⊥
  IsHalted (stop out) db = IsBarred start out db

  pub barred :
      (P : ClaimRecord → Type 0) (s : RunStatus) (artifacts : List AgentArtifact) (c : Cursor)
      (db : Db)
      → is_barred s ≡ true
      → IsAt run start P s c db
      → IsBarred start (record { cursor = c; artifacts = artifacts; audit = none }) db
  barred P s artifacts c db b h = record {
    status = subst (λ z. is_barred z ≡ true) (sym h.status) b;
    audit = refl;
    reports = h.reports;
  }

  fail_run-IsBarred :
      (artifacts : List AgentArtifact) (c : Cursor) (db : Db)
      → IsAt run start (IsUnaudited run) executing c db
      → Ends IsHalted IsLedgerFailure (stopped (fail_run artifacts none c) db)
  unfolding fail_run is_barred
  fail_run-IsBarred artifacts c db h =
      Ends-bind (IsBarred start) IsHalted IsLedgerFailure (fail_run artifacts none c)
        (λ out. pure (stop out)) db
        (Ends-bind (IsAt run start (IsUnaudited run) RunStatus.failed) (IsBarred start)
          IsLedgerFailure (force_to RunStatus.failed c)
          (λ c. pure (record { cursor = c; artifacts = artifacts; audit = none })) db
          (force_to-IsAt run start (IsUnaudited run) executing RunStatus.failed c db h)
          λ c1 db1 h1. barred (IsUnaudited run) RunStatus.failed artifacts c1 db1 refl h1)
        λ out db1 k. k

  failure-IsHalted :
      (agent : Agent) (artifacts : List AgentArtifact) (p : Progress) (db : Db)
      → is_critical agent ≡ true
      → IsGoing run start p db
      → Ends IsHalted IsLedgerFailure (
          (record_event (task_failed agent) p.cursor >>= λ c.
          after_failure agent artifacts (record p { cursor = c }))
            db)
  unfolding after_failure
  failure-IsHalted agent artifacts p db critical h =
      Ends-bind (IsAt run start (IsUnaudited run) executing) IsHalted IsLedgerFailure
        (record_event (task_failed agent) p.cursor)
        (λ c. after_failure agent artifacts (record p { cursor = c })) db
        (record_event-IsAt run start (IsUnaudited run) executing _ p.cursor db h)
        λ c1 db1 h1.
          Ends-if IsHalted IsLedgerFailure (is_critical agent)
            (stopped (fail_run artifacts none c1)) (add_degraded agent (record p { cursor = c1 }))
            db1 (λ _. fail_run-IsBarred artifacts c1 db1 h1) λ other. cc

  artifact-IsHalted :
      (g : Agents) (agent : Agent) (a : AgentArtifact) (p : Progress) (db : Db)
      → is_critical agent ≡ true
      → is_failed_status a.execution_status ≡ true
      → IsGoing run start p db
      → Ends IsHalted IsLedgerFailure (after_artifact g agent a p db)
  unfolding after_artifact after_failed_artifact
  artifact-IsHalted g agent a p db critical bad h =
      let q : Progress = record p { professional = p.professional ++ a ∷ [] } in
      Ends-if IsHalted IsLedgerFailure (is_failed_status a.execution_status)
        (after_failed_artifact agent q) (after_success g agent a q)
        (persist_artifact p.cursor.run a db)
        (λ _.
          failure-IsHalted agent q.professional q (persist_artifact p.cursor.run a db) critical
            (persist_artifact-IsAt run start executing a p.cursor db h))
        λ good. cc

  run-IsHalted :
      (g : Agents) (agent : Agent) (r : AgentResult) (p : Progress) (db : Db)
      → is_critical agent ≡ true
      → is_failure r ≡ true
      → IsGoing run start p db
      → Ends IsHalted IsLedgerFailure (after_run g agent r p db)
  unfolding after_run is_failure after_exception
  run-IsHalted g agent (returned a codes) p db critical bad h =
      artifact-IsHalted g agent a p db critical bad h
  run-IsHalted g agent ledger_raised p db critical bad h = refl
  run-IsHalted g agent raised p db critical bad h =
      failure-IsHalted agent _ p (persist_artifact p.cursor.run (failed_artifact g agent) db)
        critical (persist_artifact-IsAt run start executing (failed_artifact g agent) p.cursor db h)

  proceed-IsHalted :
      (rest : Progress → Exec Error Db Flow) (f : Flow) (db : Db)
      → IsHalted f db
      → Ends IsHalted IsLedgerFailure (proceed rest f db)
  unfolding proceed
  proceed-IsHalted rest (go_on p) db h = absurd h
  proceed-IsHalted rest (stop out) db h = h

-- Which of the two critical agents fails, whatever it reads.
abbrev pub CriticalFails : Agents → Type 0
CriticalFails g = AlwaysFails g.run_policy ⊎ AlwaysFails g.run_financial

module _ (g : Agents) (run : ℕ) (start : Db) where
  first-IsHalted :
      (agent : Agent) (f : Db → AgentResult) (ts : List Task) (p : Progress) (db : Db)
      → is_critical agent ≡ true
      → AlwaysFails f
      → IsGoing run start p db
      → Ends
          (IsHalted run start)
          IsLedgerFailure
          (run_tasks g (record { agent = agent; run_agent = f } ∷ ts) p db)
  unfolding run_tasks run_task
  first-IsHalted agent f ts p db critical bad h =
      Ends-bind (IsHalted run start) (IsHalted run start) IsLedgerFailure
        (run_task g (record { agent = agent; run_agent = f }) p) (proceed (run_tasks g ts)) db
        (run-IsHalted run start g agent (checked (f db)) p db critical (bad db) h)
        λ o db1 h1. proceed-IsHalted run start (run_tasks g ts) o db1 h1

  second-IsHalted :
      (ts : List Task) (f : Flow) (db : Db)
      → AlwaysFails g.run_financial
      → IsFlowing run start f db
      → Ends (IsHalted run start) IsLedgerFailure (
          proceed
            (run_tasks g (record { agent = financial; run_agent = g.run_financial } ∷ ts))
            f
            db)
  unfolding proceed is_barred is_critical
  second-IsHalted ts (go_on p) db bad h =
      first-IsHalted financial g.run_financial ts p db refl bad h
  second-IsHalted ts (stop out) db bad h = record {
    status = subst (λ z. is_barred z ≡ true) (sym h.0.status) refl;
    audit = h.1;
    reports = h.0.reports;
  }

  pub tasks-IsHalted :
      (ts : List Task) (p : Progress) (db : Db)
      → CriticalFails g
      → IsGoing run start p db
      → Ends (IsHalted run start) IsLedgerFailure (
          run_tasks g
            (record { agent = policy; run_agent = g.run_policy }
              ∷ record { agent = financial; run_agent = g.run_financial }
              ∷ ts)
            p
            db)
  unfolding run_tasks run_task is_critical
  tasks-IsHalted ts p db (inl bad) h =
      first-IsHalted policy g.run_policy
        (record { agent = financial; run_agent = g.run_financial } ∷ ts) p db refl bad h
  tasks-IsHalted ts p db (inr bad) h =
      Ends-bind (IsFlowing run start) (IsHalted run start) IsLedgerFailure
        (run_task g (record { agent = policy; run_agent = g.run_policy }) p)
        (proceed (run_tasks g (record { agent = financial; run_agent = g.run_financial } ∷ ts))) db
        (after_run-IsFlowing run start g policy (checked (g.run_policy db)) p db h)
        λ f db1 h1. second-IsHalted ts f db1 bad h1
