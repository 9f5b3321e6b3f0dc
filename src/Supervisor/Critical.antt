-- ===== src/Supervisor/Critical.antt =====
-- A policy or financial agent that fails bars the run from the audit and from a report.
use creditlens.Base.{ℕ, ◌≡◌, refl, Bool, true, none, List, [], contains, if◌then◌else◌}
use creditlens.Base.Text.{Text}
use creditlens.Base.Session.{Exec, ◌>>=◌, Ends, Ends-bind, Ends-if, pure}
use creditlens.Workflow.Status.{
  RunStatus, received, authorized, validating_case, planning, need_more_info, data_quality_blocked,
  executing, allowed,
}
use creditlens.Workflow.Records.{Run, ClaimRecord, ArtifactRecord, ReportContent, Db}
use creditlens.Workflow.Events.{Cursor}
use creditlens.Supervisor.Agents.{Agents, agent_tasks, optional_tasks}
use creditlens.Supervisor.Execute.{
  Error, RunOutcome, Flow, go_on, stop, Intake, go_to, force_to, run_tasks,
}
use creditlens.Supervisor.Stages.{after_tasks, run_dag, execute, close_forced}
use creditlens.Supervisor.UnderWay.{IsAt, IsUnaudited, IsLedgerFailure, go_to-IsAt, force_to-IsAt}
use creditlens.Supervisor.Halting.{
  IsBarred, CriticalFails, is_barred, barred, IsHalted, tasks-IsHalted,
}

module _ (integrity : Run → List ArtifactRecord → List ClaimRecord → Bool)
    (hash_content : ReportContent → Text) (now : ℕ) (g : Agents) (run : ℕ) (start : Db) where
  halted-IsBarred :
      (f : Flow) (db : Db)
      → IsHalted run start f db
      → Ends (IsBarred start) IsLedgerFailure (after_tasks integrity hash_content now g f db)
  unfolding after_tasks
  halted-IsBarred (go_on p) db h = absurd h
  halted-IsBarred (stop out) db h = h

  run_dag-IsBarred :
      (c : Cursor) (db : Db)
      → CriticalFails g
      → IsAt run start (IsUnaudited run) validating_case c db
      → Ends (IsBarred start) IsLedgerFailure (run_dag integrity hash_content now g c db)
  unfolding run_dag agent_tasks allowed
  run_dag-IsBarred c db bad h =
      let tasks : Cursor → Exec Error Db Flow = λ c.
        run_tasks g (agent_tasks g)
          (record { cursor = c; professional = []; degraded_agents = [] }) in
      let rest : Flow → Exec Error Db RunOutcome = after_tasks integrity hash_content now g in
      Ends-bind (IsAt run start (IsUnaudited run) planning) (IsBarred start) IsLedgerFailure
        (go_to planning c) (λ c. go_to executing c >>= λ c. tasks c >>= rest) db
        (go_to-IsAt run start (IsUnaudited run) validating_case planning c db refl h)
        λ c1 db1 h1.
          Ends-bind (IsAt run start (IsUnaudited run) executing) (IsBarred start) IsLedgerFailure
            (go_to executing c1) (λ c. tasks c >>= rest) db1
            (go_to-IsAt run start (IsUnaudited run) planning executing c1 db1 refl h1)
            λ c2 db2 h2.
              Ends-bind (IsHalted run start) (IsBarred start) IsLedgerFailure (tasks c2) rest db2
                (tasks-IsHalted g run start (optional_tasks g)
                  (record { cursor = c2; professional = []; degraded_agents = [] }) db2 bad h2)
                λ f db3 h3. halted-IsBarred f db3 h3

  close_forced-IsBarred :
      (to : RunStatus) (c : Cursor) (db : Db)
      → is_barred to ≡ true
      → IsAt run start (IsUnaudited run) validating_case c db
      → Ends (IsBarred start) IsLedgerFailure (close_forced to c db)
  close_forced-IsBarred to c db b h =
      Ends-bind (IsAt run start (IsUnaudited run) to) (IsBarred start) IsLedgerFailure
        (force_to to c) (λ c. pure (record { cursor = c; artifacts = []; audit = none })) db
        (force_to-IsAt run start (IsUnaudited run) validating_case to c db h)
        λ c1 db1 h1. barred run start (IsUnaudited run) to [] c1 db1 b h1

  -- When the policy agent, or the financial agent, fails on every database that it can read, by an
  -- exception or by a FAILED artifact, a run that is in RECEIVED ends in FAILED,
  -- DATA_QUALITY_BLOCKED or NEED_MORE_INFO, without an audit and with the reports as they were,
  -- unless the ledger of invocations failed.
  pub execute-IsBarred :
      (intake : Intake) (c : Cursor) (db : Db)
      → CriticalFails g
      → IsAt run start (IsUnaudited run) received c db
      → Ends (IsBarred start) IsLedgerFailure (execute integrity hash_content now g intake c db)
  unfolding execute allowed is_barred
  execute-IsBarred intake c db bad h =
      let dag : Cursor → Exec Error Db RunOutcome = run_dag integrity hash_content now g in
      let bound : Cursor → Exec Error Db RunOutcome = λ c.
        if contains intake.case_id intake.document_cases
        then dag c
        else close_forced need_more_info c in
      let rest : Cursor → Exec Error Db RunOutcome = λ c.
        if contains intake.case_id intake.cases
        then bound c
        else close_forced data_quality_blocked c in
      Ends-bind (IsAt run start (IsUnaudited run) authorized) (IsBarred start) IsLedgerFailure
        (go_to authorized c) (λ c. go_to validating_case c >>= rest) db
        (go_to-IsAt run start (IsUnaudited run) received authorized c db refl h)
        λ c1 db1 h1.
          Ends-bind (IsAt run start (IsUnaudited run) validating_case) (IsBarred start)
            IsLedgerFailure (go_to validating_case c1) rest db1
            (go_to-IsAt run start (IsUnaudited run) authorized validating_case c1 db1 refl h1)
            λ c2 db2 h2.
              Ends-if (IsBarred start) IsLedgerFailure (contains intake.case_id intake.cases)
                (bound c2) (close_forced data_quality_blocked c2) db2
                (λ _.
                  Ends-if (IsBarred start) IsLedgerFailure
                    (contains intake.case_id intake.document_cases) (dag c2)
                    (close_forced need_more_info c2) db2 (λ _. run_dag-IsBarred c2 db2 bad h2)
                    λ _. close_forced-IsBarred need_more_info c2 db2 refl h2)
                λ _. close_forced-IsBarred data_quality_blocked c2 db2 refl h2
