-- ===== src/Supervisor/Stages.antt =====
-- The stages of `_execute_with_event_writer` after the agents, and the calls that start a run
-- (agents/supervisor.py).
use creditlens.Base.{
  ℕ, Bool, true, false, Option, none, some, List, [], ◌∷◌, ◌++◌, not, ◌||◌, is_empty, length,
  contains, if◌then◌else◌,
}
use creditlens.Base.Session.{Exec, ◌>>=◌, ◌>>◌, pure, raise, modify, require, handle}
use creditlens.Base.Text.{Text}
use creditlens.Workflow.Status.{
  RunStatus, received, authorized, validating_case, planning, need_more_info, data_quality_blocked,
  executing, synthesizing, challenging, auditing, human_review, reporting, completed, same_status,
}
use creditlens.Workflow.Records.{
  Run, ClaimRecord, ArtifactRecord, ReportContent, Db, challenger, auditor, verified_draft,
  task_failed, audit_failed, report_failed, audit_completed,
}
use creditlens.Workflow.Events.{Cursor, new_writer, record_event}
use creditlens.Report.Generate.{persist_report_via_agent}
use creditlens.Supervisor.Agents.{
  AgentArtifact, AgentResult, AuditResult, Agents, agent_tasks, checked, returned, ledger_raised,
  raised,
}
use creditlens.Supervisor.Persist.{persist_artifact, apply_audit_to_claims}
use creditlens.Supervisor.Execute.{
  Error, transition_refused, ledger_failed, artifact_integrity_failed, RunOutcome, Progress, Flow,
  go_on, stop, Intake, go_to, force_to, persist_artifacts, flush_run, mark_degraded,
  failed_artifact, fail_run, run_tasks,
}

-- A transition into a state in which the call returns.
abbrev pub close :
    RunStatus → List AgentArtifact → Option AuditResult → Cursor → Exec Error Db RunOutcome
close status artifacts audit c = do
  c ← go_to status c
  pure (record { cursor = c; artifacts = artifacts; audit = audit })

abbrev pub close_forced : RunStatus → Cursor → Exec Error Db RunOutcome
close_forced status c = do
  c ← force_to status c
  pure (record { cursor = c; artifacts = []; audit = none })

-- The challenger's artifact, on the table; a challenger that raised is a degradation.
unfoldable pub after_challenge :
    Agents → AgentResult → Progress → Exec Error Db (Cursor × AgentArtifact)
unfolding persist_artifact mark_degraded failed_artifact
after_challenge g (returned a codes) p = do persist_artifacts p.cursor.run a; pure (p.cursor, a)
after_challenge g ledger_raised p = raise ledger_failed
after_challenge g raised p = do
  let a = failed_artifact g challenger
  c ← mark_degraded (task_failed challenger) (p.degraded_agents ++ challenger ∷ []) p.cursor
  persist_artifacts c.run a
  pure (c, a)

unfoldable pub challenge : Agents → Progress → Exec Error Db (Cursor × AgentArtifact)
unfolding after_challenge checked
challenge g p db = after_challenge g (checked (g.run_challenger p.professional db)) p db

-- An auditor that raised closes the run.
unfoldable pub without_audit : Agents → List AgentArtifact → Cursor → Exec Error Db RunOutcome
unfolding persist_artifact record_event fail_run failed_artifact
without_audit g artifacts c = do
  let a = failed_artifact g auditor
  persist_artifacts c.run a
  c ← record_event audit_failed c
  fail_run (artifacts ++ a ∷ []) none c

-- `audit.requires_human_review or audit.rejected_claim_ids`
unfoldable pub needs_human : AuditResult → Bool
needs_human audit =
    not (is_empty audit.needs_human_review_claim_ids) || not (is_empty audit.rejected_claim_ids)

unfoldable pub record_audit : AuditResult → Cursor → Exec Error Db Cursor
unfolding record_event apply_audit_to_claims
record_audit audit c = do
  c ←
      record_event
        (audit_completed (length audit.accepted_claim_ids) (length audit.rejected_claim_ids)
          (length audit.needs_human_review_claim_ids))
        c
  modify (apply_audit_to_claims audit)
  pure c

unfoldable pub complete_run : (now : ℕ) → Cursor → Exec Error Db Cursor
unfolding flush_run
complete_run now c = do
  c ← go_to completed c
  flush_run (record c.run { completed_at = some now }) c

module _ (integrity : Run → List ArtifactRecord → List ClaimRecord → Bool)
    (hash_content : ReportContent → Text) (now : ℕ) (g : Agents) where
  unfoldable pub with_report : List AgentArtifact → AuditResult → Cursor → Exec Error Db RunOutcome
  unfolding complete_run
  with_report artifacts audit c = do
    c ← complete_run now c
    pure (record { cursor = c; artifacts = artifacts; audit = some audit })

  -- A report that raises closes the run.
  unfoldable pub without_report :
      List AgentArtifact → AuditResult → Cursor → Exec Error Db RunOutcome
  unfolding record_event fail_run
  without_report artifacts audit c = do
    c ← record_event report_failed c
    fail_run artifacts (some audit) c

  unfoldable pub write_report : List AgentArtifact → AuditResult → Cursor → Exec Error Db RunOutcome
  unfolding persist_report_via_agent with_report without_report
  write_report artifacts audit c =
      handle
        (persist_report_via_agent integrity artifact_integrity_failed hash_content c.run
          verified_draft)
        (λ _. with_report artifacts audit c) (λ _. without_report artifacts audit c)

  unfoldable pub report_stage : List AgentArtifact → AuditResult → Cursor → Exec Error Db RunOutcome
  unfolding write_report
  report_stage artifacts audit c = do c ← go_to reporting c; write_report artifacts audit c

  unfoldable pub after_audit : List AgentArtifact → AuditResult → Cursor → Exec Error Db RunOutcome
  unfolding record_audit needs_human report_stage
  after_audit artifacts audit c = do
    c ← record_audit audit c
    (if needs_human audit
        then close human_review artifacts (some audit) c
        else report_stage artifacts audit c)

  unfoldable pub after_verify :
      List AgentArtifact → Option AuditResult → Cursor → Exec Error Db RunOutcome
  unfolding without_audit after_audit
  after_verify artifacts none c = without_audit g artifacts c
  after_verify artifacts (some audit) c = after_audit artifacts audit c

  unfoldable pub audit_stage : List AgentArtifact → Cursor → Exec Error Db RunOutcome
  unfolding after_verify
  audit_stage artifacts c db = after_verify artifacts (g.verify artifacts db) c db

  unfoldable pub challenge_stage : Progress → Exec Error Db RunOutcome
  unfolding challenge audit_stage
  challenge_stage p = do
    c ← go_to synthesizing p.cursor
    c ← go_to challenging c
    r ← challenge g (record p { cursor = c })
    c ← go_to auditing r.0
    audit_stage (p.professional ++ r.1 ∷ []) c

  -- From the loop's end to the outcome.
  unfoldable pub after_tasks : Flow → Exec Error Db RunOutcome
  unfolding fail_run challenge_stage
  after_tasks (stop out) = pure out
  after_tasks (go_on p) =
      if is_empty p.professional then fail_run [] none p.cursor else challenge_stage p

  unfoldable pub run_dag : Cursor → Exec Error Db RunOutcome
  unfolding agent_tasks run_tasks after_tasks
  run_dag c = do
    c ← go_to planning c
    c ← go_to executing c
    f ← run_tasks g (agent_tasks g) (record { cursor = c; professional = []; degraded_agents = [] })
    after_tasks f

  -- `_execute_with_event_writer`
  unfoldable pub execute : Intake → Cursor → Exec Error Db RunOutcome
  unfolding run_dag
  execute intake c = do
    c ← go_to authorized c
    c ← go_to validating_case c
    (if contains intake.case_id intake.cases
        then (if contains intake.case_id intake.document_cases
            then run_dag c
            else close_forced need_more_info c)
        else close_forced data_quality_blocked c)

  -- The run that a call without one makes.
  unfoldable pub new_run : Intake → ℕ → Run
  new_run intake id = record {
    id = id;
    tenant_id = intake.tenant_id;
    case_id = intake.case_id;
    status = received;
    state_version = 1;
    as_of_date = intake.as_of_date;
    degraded = false;
    degraded_agents = [];
    risk_threshold_version = none;
    completed_at = none;
  }

  -- `execute_full_review`: on a run of its own, under a fresh identifier, or on a prepared one.
  unfoldable pub execute_full_review : Intake → (fresh : ℕ) → Option Run → Exec Error Db RunOutcome
  unfolding new_run new_writer execute
  execute_full_review intake fresh none = do
    modify (λ db. record db { runs = new_run intake fresh ∷ db.runs })
    execute intake (record { run = new_run intake fresh; writer = new_writer false })
  execute_full_review intake fresh (some run) = do
    require (same_status run.status received) transition_refused
    execute intake (record { run = run; writer = new_writer true })
