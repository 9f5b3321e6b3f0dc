-- ===== src/Supervisor/Tasks.antt =====
-- The loop over the agents leaves the run in EXECUTING, or stops it in FAILED.
use creditlens.Base.{ℕ, ◌≡◌, refl, Option, none, some, List, [], ◌∷◌, ◌++◌, length}
use creditlens.Base.Session.{Exec, ◌>>=◌, Ends, Ends-bind, Ends-if, pure}
use creditlens.Base.Text.{Text}
use creditlens.Workflow.Status.{RunStatus, executing}
use creditlens.Workflow.Records.{
  Agent, Db, policy, financial, risk, challenger, auditor, task_failed, task_completed,
  task_degraded,
}
use creditlens.Workflow.Events.{Cursor, record_event}
use creditlens.Supervisor.Agents.{
  AgentArtifact, AgentResult, Agents, Task, ExecutionStatus, is_failed_status, is_degraded_status,
  is_critical, checked, returned, ledger_raised, raised,
}
use creditlens.Supervisor.Persist.{persist_artifact}
use creditlens.Supervisor.Execute.{
  Error, RunOutcome, Progress, Flow, go_on, stop, stopped, proceed, after_failed_artifact, force_to,
  flush_run, degraded_run, mark_degraded, mark_progress, fail_run, add_degraded, after_failure,
  note_degraded, note_threshold, after_success, after_artifact, after_exception, after_run,
  run_task, run_tasks, failed_artifact,
}
use creditlens.Supervisor.UnderWay.{
  IsAt, IsUnaudited, IsLedgerFailure, force_to-IsAt, record_event-IsAt, flush_run-IsAt,
  mark_degraded-IsAt, persist_artifact-IsAt,
}

module _ (run : ℕ) (start : Db) where
  abbrev pub IsFailed : RunOutcome → Db → Type 0
  IsFailed out db =
      IsAt run start (IsUnaudited run) RunStatus.failed out.cursor db × (out.audit ≡ none)

  abbrev pub IsGoing : Progress → Db → Type 0
  IsGoing p db = IsAt run start (IsUnaudited run) executing p.cursor db

  abbrev pub IsFlowing : Flow → Db → Type 0
  IsFlowing (go_on p) db = IsGoing p db
  IsFlowing (stop out) db = IsFailed out db

  fail_run-IsFailed :
      (artifacts : List AgentArtifact) (c : Cursor) (db : Db)
      → IsAt run start (IsUnaudited run) executing c db
      → Ends IsFailed IsLedgerFailure (fail_run artifacts none c db)
  unfolding fail_run
  fail_run-IsFailed artifacts c db h =
      Ends-bind (IsAt run start (IsUnaudited run) RunStatus.failed) IsFailed IsLedgerFailure
        (force_to RunStatus.failed c)
        (λ c. pure (record { cursor = c; artifacts = artifacts; audit = none })) db
        (force_to-IsAt run start (IsUnaudited run) executing RunStatus.failed c db h)
        λ c' db' k. (k, refl)

  add_degraded-IsFlowing :
      (agent : Agent) (p : Progress) (db : Db)
      → IsGoing p db
      → Ends IsFlowing IsLedgerFailure (add_degraded agent p db)
  unfolding add_degraded
  add_degraded-IsFlowing agent p db h =
      let agents : List Agent = p.degraded_agents ++ agent ∷ [] in
      Ends-bind (IsAt run start (IsUnaudited run) executing) IsFlowing IsLedgerFailure
        (flush_run (degraded_run p.cursor.run agents) p.cursor)
        (λ c. pure (go_on (record p { cursor = c; degraded_agents = agents }))) db
        (flush_run-IsAt run start (IsUnaudited run) executing _ p.cursor db refl h.status h)
        λ c' db' k. k

  after_failure-IsFlowing :
      (agent : Agent) (artifacts : List AgentArtifact) (p : Progress) (db : Db)
      → IsGoing p db
      → Ends IsFlowing IsLedgerFailure (after_failure agent artifacts p db)
  unfolding after_failure
  after_failure-IsFlowing agent artifacts p db h =
      Ends-if IsFlowing IsLedgerFailure (is_critical agent)
        (stopped (fail_run artifacts none p.cursor)) (add_degraded agent p) db
        (λ _.
          Ends-bind IsFailed IsFlowing IsLedgerFailure (fail_run artifacts none p.cursor)
            (λ out. pure (stop out)) db (fail_run-IsFailed artifacts p.cursor db h) λ out db' k. k)
        λ _. add_degraded-IsFlowing agent p db h

  note_degraded-IsGoing :
      (agent : Agent) (status : ExecutionStatus) (p : Progress) (db : Db)
      → IsGoing p db
      → Ends IsGoing IsLedgerFailure (note_degraded agent status p db)
  unfolding note_degraded
  note_degraded-IsGoing agent status p db h =
      let agents : List Agent = p.degraded_agents ++ agent ∷ [] in
      Ends-if IsGoing IsLedgerFailure (is_degraded_status status) (mark_progress agent p) (pure p)
        db
        (λ _.
          Ends-bind (IsAt run start (IsUnaudited run) executing) IsGoing IsLedgerFailure
            (mark_degraded (task_degraded agent) agents p.cursor)
            (λ c. pure (record p { cursor = c; degraded_agents = agents })) db
            (mark_degraded-IsAt run start (IsUnaudited run) executing _ _ p.cursor db h)
            λ c' db' k. k)
        λ _. h

  note_threshold-IsAt :
      (version : Option Text) (agent : Agent) (c : Cursor) (db : Db)
      → IsAt run start (IsUnaudited run) executing c db
      → Ends
          (IsAt run start (IsUnaudited run) executing)
          IsLedgerFailure
          (note_threshold version agent c db)
  unfolding note_threshold
  note_threshold-IsAt none agent c db h = h
  note_threshold-IsAt (some version) risk c db h =
      flush_run-IsAt run start (IsUnaudited run) executing _ c db refl h.status h
  note_threshold-IsAt (some version) policy c db h = h
  note_threshold-IsAt (some version) financial c db h = h
  note_threshold-IsAt (some version) challenger c db h = h
  note_threshold-IsAt (some version) auditor c db h = h

  after_success-IsFlowing :
      (g : Agents) (agent : Agent) (a : AgentArtifact) (p : Progress) (db : Db)
      → IsGoing p db
      → Ends IsFlowing IsLedgerFailure (after_success g agent a p db)
  unfolding after_success
  after_success-IsFlowing g agent a p db h =
      Ends-bind (IsAt run start (IsUnaudited run) executing) IsFlowing IsLedgerFailure
        (record_event (task_completed agent (length a.claims)) p.cursor)
        (λ c. note_degraded agent a.execution_status (record p { cursor = c }) >>= λ p.
          note_threshold g.threshold_version agent p.cursor >>= λ c.
          pure (go_on (record p { cursor = c })))
        db (record_event-IsAt run start (IsUnaudited run) executing _ p.cursor db h)
        λ c1 db1 h1.
          Ends-bind IsGoing IsFlowing IsLedgerFailure
            (note_degraded agent a.execution_status (record p { cursor = c1 }))
            (λ p. note_threshold g.threshold_version agent p.cursor >>= λ c.
              pure (go_on (record p { cursor = c })))
            db1 (note_degraded-IsGoing agent a.execution_status (record p { cursor = c1 }) db1 h1)
            λ p2 db2 h2.
              Ends-bind (IsAt run start (IsUnaudited run) executing) IsFlowing IsLedgerFailure
                (note_threshold g.threshold_version agent p2.cursor)
                (λ c. pure (go_on (record p2 { cursor = c }))) db2
                (note_threshold-IsAt g.threshold_version agent p2.cursor db2 h2) λ c3 db3 h3. h3

  failure_event-IsFlowing :
      (agent : Agent) (artifacts : List AgentArtifact) (p : Progress) (db : Db)
      → IsGoing p db
      → Ends IsFlowing IsLedgerFailure (
          (record_event (task_failed agent) p.cursor >>= λ c.
          after_failure agent artifacts (record p { cursor = c }))
            db)
  failure_event-IsFlowing agent artifacts p db h =
      Ends-bind (IsAt run start (IsUnaudited run) executing) IsFlowing IsLedgerFailure
        (record_event (task_failed agent) p.cursor)
        (λ c. after_failure agent artifacts (record p { cursor = c })) db
        (record_event-IsAt run start (IsUnaudited run) executing _ p.cursor db h)
        λ c1 db1 h1. after_failure-IsFlowing agent artifacts (record p { cursor = c1 }) db1 h1

  after_artifact-IsFlowing :
      (g : Agents) (agent : Agent) (a : AgentArtifact) (p : Progress) (db : Db)
      → IsGoing p db
      → Ends IsFlowing IsLedgerFailure (after_artifact g agent a p db)
  unfolding after_artifact after_failed_artifact
  after_artifact-IsFlowing g agent a p db h =
      let q : Progress = record p { professional = p.professional ++ a ∷ [] } in
      let db1 : Db = persist_artifact p.cursor.run a db in
      let h1 = persist_artifact-IsAt run start executing a p.cursor db h in
      Ends-if IsFlowing IsLedgerFailure (is_failed_status a.execution_status)
        (after_failed_artifact agent q) (after_success g agent a q) db1
        (λ _. failure_event-IsFlowing agent q.professional q db1 h1)
        λ _. after_success-IsFlowing g agent a q db1 h1

  after_exception-IsFlowing :
      (g : Agents) (agent : Agent) (p : Progress) (db : Db)
      → IsGoing p db
      → Ends IsFlowing IsLedgerFailure (after_exception g agent p db)
  unfolding after_exception
  after_exception-IsFlowing g agent p db h =
      failure_event-IsFlowing agent (p.professional ++ failed_artifact g agent ∷ []) p
        (persist_artifact p.cursor.run (failed_artifact g agent) db)
        (persist_artifact-IsAt run start executing (failed_artifact g agent) p.cursor db h)

  pub after_run-IsFlowing :
      (g : Agents) (agent : Agent) (r : AgentResult) (p : Progress) (db : Db)
      → IsGoing p db
      → Ends IsFlowing IsLedgerFailure (after_run g agent r p db)
  unfolding after_run
  after_run-IsFlowing g agent (returned a codes) p db h = after_artifact-IsFlowing g agent a p db h
  after_run-IsFlowing g agent ledger_raised p db h = refl
  after_run-IsFlowing g agent raised p db h = after_exception-IsFlowing g agent p db h

  proceed-IsFlowing :
      (rest : Progress → Exec Error Db Flow) (f : Flow) (db : Db)
      → ((p : Progress) → IsGoing p db → Ends IsFlowing IsLedgerFailure (rest p db))
      → IsFlowing f db
      → Ends IsFlowing IsLedgerFailure (proceed rest f db)
  unfolding proceed
  proceed-IsFlowing rest (go_on p) db k h = k p h
  proceed-IsFlowing rest (stop out) db k h = h

  pub run_tasks-IsFlowing :
      (g : Agents) (ts : List Task) (p : Progress) (db : Db)
      → IsGoing p db
      → Ends IsFlowing IsLedgerFailure (run_tasks g ts p db)
  unfolding run_tasks run_task
  run_tasks-IsFlowing g [] p db h = h
  run_tasks-IsFlowing g (t ∷ ts) p db h =
      Ends-bind IsFlowing IsFlowing IsLedgerFailure (run_task g t p) (proceed (run_tasks g ts)) db
        (after_run-IsFlowing g t.agent (checked (t.run_agent db)) p db h)
        λ f db1 h1.
          proceed-IsFlowing (run_tasks g ts) f db1 (λ q h2. run_tasks-IsFlowing g ts q db1 h2) h1
