-- ===== src/Supervisor/Execute.antt =====
-- `Supervisor.execute_full_review` and `_execute_with_event_writer` (agents/supervisor.py): the fixed
-- DAG of a review run, in the stages that its early returns cut it into.
use creditlens.Base.{ℕ, true, false, Option, none, some, List, [], ◌∷◌, ◌++◌, length, if◌then◌else◌}
use creditlens.Base.Result.{ok}
use creditlens.Base.Session.{Exec, ◌>>=◌, ◌>>◌, pure, raise, modify}
use creditlens.Base.Text.{Text}
use creditlens.Workflow.Status.{RunStatus}
use creditlens.Workflow.Records.{
  Agent, Run, Event, Db, write_run, risk, task_completed, task_failed, task_degraded,
}
use creditlens.Workflow.Events.{Cursor, record_event, transition}
use creditlens.Supervisor.Agents.{
  AgentArtifact, AgentResult, AuditResult, Agents, Task, ExecutionStatus, is_critical,
  is_degraded_status, is_failed_status, checked, returned, ledger_raised, raised,
}
use creditlens.Supervisor.Persist.{persist_artifact}

pub data Error : Type 0 where
  -- `InvalidStateTransitionError`
  transition_refused : Error
  -- `InvocationIdentityConflict` or `InvocationAuditPersistError`
  ledger_failed : Error
  artifact_integrity_failed : Error

-- `RunOutcome`; its run_id and status are those of the cursor's run.
pub record RunOutcome : Type 0 where
  pub cursor : Cursor
  pub artifacts : List AgentArtifact
  pub audit : Option AuditResult

-- What the loop over the agents goes on with: `professional` and `degraded_agents`.
pub record Progress : Type 0 where
  pub cursor : Cursor
  pub professional : List AgentArtifact
  pub degraded_agents : List Agent

pub data Flow : Type 0 where
  go_on : Progress → Flow
  -- An early return.
  stop : RunOutcome → Flow

-- The trusted context's case, the rows of `CreditCase` and the cases of `CaseDocument`.
pub record Intake : Type 0 where
  pub tenant_id : ℕ
  pub case_id : ℕ
  pub as_of_date : ℕ
  pub cases : List ℕ
  pub document_cases : List ℕ

abbrev pub go_to : RunStatus → Cursor → Exec Error Db Cursor
go_to status c = transition transition_refused false status c

abbrev pub force_to : RunStatus → Cursor → Exec Error Db Cursor
force_to status c = transition transition_refused true status c

abbrev pub persist_artifacts : Run → AgentArtifact → Exec Error Db (Unit {0})
persist_artifacts run a = modify (persist_artifact run a)

-- The run object with new fields, and its flush.
unfoldable pub flush_run : Run → Cursor → Exec Error Db Cursor
unfolding write_run
flush_run run c db = (ok (record c { run = run }), write_run run db)

abbrev pub degraded_run : Run → List Agent → Run
degraded_run run agents = record run { degraded = true; degraded_agents = agents }

-- The run is marked as degraded, an event is written, and the run is flushed.
unfoldable pub mark_degraded : Event → List Agent → Cursor → Exec Error Db Cursor
unfolding flush_run record_event
mark_degraded event agents c = do
  c ← record_event event (record c { run = degraded_run c.run agents })
  flush_run c.run c

-- The FAILED artifact of an agent that raised.
unfoldable pub failed_artifact : Agents → Agent → AgentArtifact
failed_artifact g agent = record {
  artifact_id = g.new_id agent;
  producer = agent;
  execution_status = ExecutionStatus.failed;
  claims = [];
  evidence = [];
}

-- `_transition(…, "FAILED", force=True)` and the return after it.
unfoldable pub fail_run :
    List AgentArtifact → Option AuditResult → Cursor → Exec Error Db RunOutcome
fail_run artifacts audit c = do
  c ← force_to RunStatus.failed c
  pure (record { cursor = c; artifacts = artifacts; audit = audit })

unfoldable pub add_degraded : Agent → Progress → Exec Error Db Flow
unfolding flush_run
add_degraded agent p = do
  let agents = p.degraded_agents ++ agent ∷ []
  c ← flush_run (degraded_run p.cursor.run agents) p.cursor
  pure (go_on (record p { cursor = c; degraded_agents = agents }))

abbrev pub stopped : Exec Error Db RunOutcome → Exec Error Db Flow
stopped m = m >>= λ out. pure (stop out)

-- The FAILED branch after an agent's artifact is on the table.
unfoldable pub after_failure : Agent → List AgentArtifact → Progress → Exec Error Db Flow
unfolding fail_run add_degraded is_critical
after_failure agent artifacts p =
    if is_critical agent then stopped (fail_run artifacts none p.cursor) else add_degraded agent p

abbrev pub mark_progress : Agent → Progress → Exec Error Db Progress
mark_progress agent p =
    mark_degraded (task_degraded agent) (p.degraded_agents ++ agent ∷ []) p.cursor >>= λ c.
    pure (record p { cursor = c; degraded_agents = p.degraded_agents ++ agent ∷ [] })

-- A DEGRADED artifact is marked on the run's manifest.
unfoldable pub note_degraded : Agent → ExecutionStatus → Progress → Exec Error Db Progress
unfolding mark_degraded is_degraded_status
note_degraded agent status p = if is_degraded_status status then mark_progress agent p else pure p

unfoldable pub note_threshold : Option Text → Agent → Cursor → Exec Error Db Cursor
unfolding flush_run
note_threshold (some version) risk c =
    flush_run (record c.run { risk_threshold_version = some version }) c
note_threshold version agent c = pure c

-- An artifact that is not FAILED.
unfoldable pub after_success : Agents → Agent → AgentArtifact → Progress → Exec Error Db Flow
unfolding record_event note_degraded note_threshold
after_success g agent a p = do
  c ← record_event (task_completed agent (length a.claims)) p.cursor
  p ← note_degraded agent a.execution_status (record p { cursor = c })
  c ← note_threshold g.threshold_version agent p.cursor
  pure (go_on (record p { cursor = c }))

-- An artifact that is FAILED, in `professional` already.
unfoldable pub after_failed_artifact : Agent → Progress → Exec Error Db Flow
unfolding record_event after_failure
after_failed_artifact agent p = do
  c ← record_event (task_failed agent) p.cursor
  after_failure agent p.professional (record p { cursor = c })

unfoldable pub after_artifact : Agents → Agent → AgentArtifact → Progress → Exec Error Db Flow
unfolding persist_artifact after_failed_artifact after_success is_failed_status
after_artifact g agent a p = do
  let professional = p.professional ++ a ∷ []
  persist_artifacts p.cursor.run a
  (if is_failed_status a.execution_status
      then after_failed_artifact agent (record p { professional = professional })
      else after_success g agent a (record p { professional = professional }))

-- An exception of an agent, but not of the ledger: `professional` does not get its artifact.
unfoldable pub after_exception : Agents → Agent → Progress → Exec Error Db Flow
unfolding persist_artifact record_event after_failure failed_artifact
after_exception g agent p = do
  let a = failed_artifact g agent
  persist_artifacts p.cursor.run a
  c ← record_event (task_failed agent) p.cursor
  after_failure agent (p.professional ++ a ∷ []) (record p { cursor = c })

unfoldable pub after_run : Agents → Agent → AgentResult → Progress → Exec Error Db Flow
unfolding after_artifact after_exception
after_run g agent (returned a codes) p = after_artifact g agent a p
after_run g agent ledger_raised p = raise ledger_failed
after_run g agent raised p = after_exception g agent p

unfoldable pub run_task : Agents → Task → Progress → Exec Error Db Flow
unfolding after_run checked
run_task g t p db = after_run g t.agent (checked (t.run_agent db)) p db

-- The rest of the loop, unless an iteration has returned.
unfoldable pub proceed : (Progress → Exec Error Db Flow) → Flow → Exec Error Db Flow
proceed rest (go_on p) = rest p
proceed rest (stop out) = pure (stop out)

-- `for name, agent, task_key, producer in agent_tasks`
unfoldable pub run_tasks : Agents → List Task → Progress → Exec Error Db Flow
unfolding run_task proceed
run_tasks g [] p = pure (go_on p)
run_tasks g (t ∷ ts) p = do f ← run_task g t p; proceed (run_tasks g ts) f
