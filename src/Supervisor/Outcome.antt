-- ===== src/Supervisor/Outcome.antt =====
-- Every run of the supervisor ends as `IsOutcome` says, unless the ledger of invocations failed.
use creditlens.Base.{
  ℕ, refl, Bool, Option, none, some, List, [], ◌∷◌, ◌++◌, is_empty, contains, if◌then◌else◌,
}
use creditlens.Base.Text.{Text}
use creditlens.Base.Session.{Exec, ◌>>=◌, Ends, Ends-bind, Ends-if, pure}
use creditlens.Workflow.Status.{
  RunStatus, received, authorized, validating_case, planning, need_more_info, data_quality_blocked,
  executing, synthesizing, challenging, auditing, allowed,
}
use creditlens.Workflow.Records.{
  Run, ClaimRecord, ArtifactRecord, ReportContent, Db, audit_failed, challenger, auditor,
  task_failed,
}
use creditlens.Workflow.Events.{Cursor, record_event}
use creditlens.Supervisor.Agents.{
  AgentArtifact, AgentResult, AuditResult, Agents, agent_tasks, returned, ledger_raised, raised,
}
use creditlens.Supervisor.Persist.{persist_artifact}
use creditlens.Supervisor.Execute.{
  Error, RunOutcome, Progress, Flow, go_on, stop, Intake, go_to, mark_degraded, failed_artifact,
  fail_run, run_tasks, persist_artifacts,
}
use creditlens.Supervisor.Stages.{
  after_challenge, challenge, without_audit, audit_stage, challenge_stage, after_tasks, run_dag,
  execute, close_forced,
}
use creditlens.Supervisor.UnderWay.{
  IsAt, IsUnaudited, IsLedgerFailure, go_to-IsAt, record_event-IsAt, mark_degraded-IsAt,
  persist_artifact-IsAt,
}
use creditlens.Supervisor.Tasks.{IsFlowing, run_tasks-IsFlowing}
use creditlens.Supervisor.Ending.{
  IsOutcome, is_stop, stopped-IsOutcome, fail_run-IsOutcome, close_forced-IsOutcome,
}
use creditlens.Supervisor.Stages.{after_verify}
use creditlens.Supervisor.Reporting.{after_audit-IsOutcome}

module _ (g : Agents) (run : ℕ) (start : Db) where
  abbrev U : ClaimRecord → Type 0
  U x = IsUnaudited run x

  abbrev Challenged : Cursor × AgentArtifact → Db → Type 0
  Challenged r db = IsAt run start U challenging r.0 db

  after_challenge-Challenged :
      (r : AgentResult) (p : Progress) (db : Db)
      → IsAt run start U challenging p.cursor db
      → Ends Challenged IsLedgerFailure (after_challenge g r p db)
  unfolding after_challenge
  after_challenge-Challenged (returned a codes) p db h =
      persist_artifact-IsAt run start challenging a p.cursor db h
  after_challenge-Challenged ledger_raised p db h = refl
  after_challenge-Challenged raised p db h =
      let a : AgentArtifact = failed_artifact g challenger in
      Ends-bind (IsAt run start U challenging) Challenged IsLedgerFailure
        (mark_degraded (task_failed challenger) (p.degraded_agents ++ challenger ∷ []) p.cursor)
        (λ c. persist_artifacts c.run a >>= λ _. pure (c, a)) db
        (mark_degraded-IsAt run start U challenging _ _ p.cursor db h)
        λ c1 db1 h1. persist_artifact-IsAt run start challenging a c1 db1 h1

module _ (integrity : Run → List ArtifactRecord → List ClaimRecord → Bool)
    (hash_content : ReportContent → Text) (now : ℕ) (g : Agents) (run : ℕ) (start : Db) where
  abbrev P : RunOutcome → Db → Type 0
  P out db = IsOutcome hash_content run start out db

  without_audit-IsOutcome :
      (artifacts : List AgentArtifact) (c : Cursor) (db : Db)
      → IsAt run start (IsUnaudited run) auditing c db
      → Ends P IsLedgerFailure (without_audit g artifacts c db)
  unfolding without_audit
  without_audit-IsOutcome artifacts c db h =
      let a : AgentArtifact = failed_artifact g auditor in
      let db1 : Db = persist_artifact c.run a db in
      Ends-bind (IsAt run start (IsUnaudited run) auditing) P IsLedgerFailure
        (record_event audit_failed c) (fail_run (artifacts ++ a ∷ []) none) db1
        (record_event-IsAt run start (IsUnaudited run) auditing audit_failed c db1
          (persist_artifact-IsAt run start auditing a c db h))
        λ c2 db2 h2.
          fail_run-IsOutcome hash_content run start (IsUnaudited run) auditing _ none c2 db2 h2

  after_verify-IsOutcome :
      (artifacts : List AgentArtifact) (verified : Option AuditResult) (c : Cursor) (db : Db)
      → IsAt run start (IsUnaudited run) auditing c db
      → Ends P IsLedgerFailure (after_verify integrity hash_content now g artifacts verified c db)
  unfolding after_verify
  after_verify-IsOutcome artifacts none c db h = without_audit-IsOutcome artifacts c db h
  after_verify-IsOutcome artifacts (some audit) c db h =
      after_audit-IsOutcome integrity hash_content now g run start artifacts audit c db h

  challenge_stage-IsOutcome :
      (p : Progress) (db : Db)
      → IsAt run start (IsUnaudited run) executing p.cursor db
      → Ends P IsLedgerFailure (challenge_stage integrity hash_content now g p db)
  unfolding challenge_stage challenge audit_stage allowed
  challenge_stage-IsOutcome p db h =
      let stage : List AgentArtifact → Cursor → Exec Error Db RunOutcome =
        audit_stage integrity hash_content now g in
      let audited : Cursor × AgentArtifact → Exec Error Db RunOutcome =
        λ r. go_to auditing r.0 >>= stage (p.professional ++ r.1 ∷ []) in
      let challenged : Cursor → Exec Error Db RunOutcome =
        λ c. challenge g (record p { cursor = c }) >>= audited in
      Ends-bind (IsAt run start (IsUnaudited run) synthesizing) P IsLedgerFailure
        (go_to synthesizing p.cursor) (λ c. go_to challenging c >>= challenged) db
        (go_to-IsAt run start (IsUnaudited run) executing synthesizing p.cursor db refl h)
        λ c1 db1 h1.
          Ends-bind (IsAt run start (IsUnaudited run) challenging) P IsLedgerFailure
            (go_to challenging c1) challenged db1
            (go_to-IsAt run start (IsUnaudited run) synthesizing challenging c1 db1 refl h1)
            λ c2 db2 h2.
              Ends-bind (Challenged g run start) P IsLedgerFailure
                (challenge g (record p { cursor = c2 })) audited db2
                (after_challenge-Challenged g run start _ (record p { cursor = c2 }) db2 h2)
                λ r db3 h3.
                  Ends-bind (IsAt run start (IsUnaudited run) auditing) P IsLedgerFailure
                    (go_to auditing r.0) (stage (p.professional ++ r.1 ∷ [])) db3
                    (go_to-IsAt run start (IsUnaudited run) challenging auditing r.0 db3 refl h3)
                    λ c4 db4 h4.
                      after_verify-IsOutcome (p.professional ++ r.1 ∷ [])
                        (g.verify (p.professional ++ r.1 ∷ []) db4) c4 db4 h4

  after_tasks-IsOutcome :
      (f : Flow) (db : Db)
      → IsFlowing run start f db
      → Ends P IsLedgerFailure (after_tasks integrity hash_content now g f db)
  unfolding after_tasks is_stop
  after_tasks-IsOutcome (go_on p) db h =
      Ends-if P IsLedgerFailure (is_empty p.professional) (fail_run [] none p.cursor)
        (challenge_stage integrity hash_content now g p) db
        (λ _.
          fail_run-IsOutcome hash_content run start (IsUnaudited run) executing [] none p.cursor db
            h)
        λ _. challenge_stage-IsOutcome p db h
  after_tasks-IsOutcome (stop out) db h =
      stopped-IsOutcome hash_content run start (IsUnaudited run) RunStatus.failed out db refl h.0

  run_dag-IsOutcome :
      (c : Cursor) (db : Db)
      → IsAt run start (IsUnaudited run) validating_case c db
      → Ends P IsLedgerFailure (run_dag integrity hash_content now g c db)
  unfolding run_dag allowed
  run_dag-IsOutcome c db h =
      let tasks : Cursor → Exec Error Db Flow = λ c.
        run_tasks g (agent_tasks g)
          (record { cursor = c; professional = []; degraded_agents = [] }) in
      let rest : Flow → Exec Error Db RunOutcome = after_tasks integrity hash_content now g in
      Ends-bind (IsAt run start (IsUnaudited run) planning) P IsLedgerFailure (go_to planning c)
        (λ c. go_to executing c >>= λ c. tasks c >>= rest) db
        (go_to-IsAt run start (IsUnaudited run) validating_case planning c db refl h)
        λ c1 db1 h1.
          Ends-bind (IsAt run start (IsUnaudited run) executing) P IsLedgerFailure
            (go_to executing c1) (λ c. tasks c >>= rest) db1
            (go_to-IsAt run start (IsUnaudited run) planning executing c1 db1 refl h1)
            λ c2 db2 h2.
              Ends-bind (IsFlowing run start) P IsLedgerFailure (tasks c2) rest db2
                (run_tasks-IsFlowing run start g (agent_tasks g) _ db2 h2)
                λ f db3 h3. after_tasks-IsOutcome f db3 h3

  pub execute-IsOutcome :
      (intake : Intake) (c : Cursor) (db : Db)
      → IsAt run start (IsUnaudited run) received c db
      → Ends P IsLedgerFailure (execute integrity hash_content now g intake c db)
  unfolding execute allowed is_stop
  execute-IsOutcome intake c db h =
      let dag : Cursor → Exec Error Db RunOutcome = run_dag integrity hash_content now g in
      let bound : Cursor → Exec Error Db RunOutcome = λ c.
        if contains intake.case_id intake.document_cases
        then dag c
        else close_forced need_more_info c in
      let rest : Cursor → Exec Error Db RunOutcome = λ c.
        if contains intake.case_id intake.cases
        then bound c
        else close_forced data_quality_blocked c in
      Ends-bind (IsAt run start (IsUnaudited run) authorized) P IsLedgerFailure (go_to authorized c)
        (λ c. go_to validating_case c >>= rest) db
        (go_to-IsAt run start (IsUnaudited run) received authorized c db refl h)
        λ c1 db1 h1.
          Ends-bind (IsAt run start (IsUnaudited run) validating_case) P IsLedgerFailure
            (go_to validating_case c1) rest db1
            (go_to-IsAt run start (IsUnaudited run) authorized validating_case c1 db1 refl h1)
            λ c2 db2 h2.
              Ends-if P IsLedgerFailure (contains intake.case_id intake.cases) (bound c2)
                (close_forced data_quality_blocked c2) db2
                (λ _.
                  Ends-if P IsLedgerFailure (contains intake.case_id intake.document_cases) (dag c2)
                    (close_forced need_more_info c2) db2 (λ _. run_dag-IsOutcome c2 db2 h2)
                    λ _.
                      close_forced-IsOutcome hash_content run start (IsUnaudited run)
                        validating_case need_more_info c2 db2 refl h2)
                λ _.
                  close_forced-IsOutcome hash_content run start (IsUnaudited run) validating_case
                    data_quality_blocked c2 db2 refl h2
