-- ===== src/Supervisor/Tests.antt =====
-- Runs of the supervisor on a small database, and the theorems on them.
use creditlens.Base.{ℕ, ◌≡◌, refl, inr, Bool, true, false, none, some, List, [], ◌∷◌, length}
use creditlens.Base.Text.{Text}
use creditlens.Base.Result.{Result, ok, err}
use creditlens.Base.Session.{Ends}
use creditlens.Workflow.Status.{received, code}
use creditlens.Workflow.Records.{
  Agent, Run, ClaimRecord, ArtifactRecord, ReportContent, Verdict, Db, policy, financial,
  challenger, find_run,
}
use creditlens.Report.Generate.{passes_integrity}
use creditlens.Workflow.Events.{new_writer, Cursor, last_sequence, start_seq, transition}
use creditlens.Supervisor.Agents.{
  AgentArtifact, AgentClaim, Agents, ExecutionStatus, returned, raised, checked,
}
use creditlens.Supervisor.Execute.{Error, RunOutcome, Intake, ledger_failed}
use creditlens.Supervisor.Stages.{execute_full_review, execute}
use creditlens.Supervisor.Ending.{IsOutcome}
use creditlens.Supervisor.Review.{fresh_run, IsReviewError, execute_full_review-Ends}
use creditlens.Supervisor.Halting.{IsBarred, is_failure}
use creditlens.Supervisor.Critical.{execute-IsBarred}

abbrev empty_db : Db
empty_db = record {
  runs = [];
  claims = [];
  artifacts = [];
  evidence = [];
  decisions = [];
  events = [];
  reports = [];
}

abbrev a_claim : ℕ → AgentClaim
a_claim i = record {
  claim_id = i;
  category = [];
  statement = [];
  verdict = Verdict.supported;
  uncertainty_reason = none;
  supporting = [];
  opposing = [];
  calculations = [];
  source_claim_id = none;
}

abbrev an_artifact : ℕ → Agent → List AgentClaim → AgentArtifact
an_artifact i agent claims = record {
  artifact_id = i;
  producer = agent;
  execution_status = ExecutionStatus.success;
  claims = claims;
  evidence = [];
}

-- Two claims, of which the auditor rejects those of the list.
abbrev some_agents : List ℕ → List ℕ → Agents
some_agents accepted rejected = record {
  run_policy = λ _. returned (an_artifact 11 policy (a_claim 21 ∷ [])) [];
  run_financial = λ _. returned (an_artifact 12 financial (a_claim 22 ∷ [])) [];
  run_risk = some (λ _. raised);
  threshold_version = none;
  run_challenger = λ _ _. returned (an_artifact 13 challenger []) [];
  verify = λ _ _. some (record {
    accepted_claim_ids = accepted;
    rejected_claim_ids = rejected;
    needs_human_review_claim_ids = [];
  });
  new_id = λ _. 99;
}

abbrev broken_agents : Agents
broken_agents = record (some_agents (21 ∷ 22 ∷ []) []) { run_financial = λ _. raised }

abbrev case_seven : Intake
case_seven = record {
  tenant_id = 1;
  case_id = 7;
  as_of_date = 20;
  cases = 7 ∷ [];
  document_cases = 7 ∷ [];
}

abbrev accepts : Run → List ArtifactRecord → List ClaimRecord → Bool
accepts _ _ _ = true

abbrev no_hash : ReportContent → Text
no_hash _ = []

execute_full_review-Ends_example :
    Ends (IsOutcome no_hash 1 empty_db) (IsReviewError none empty_db) (
      execute_full_review accepts no_hash 5
        (some_agents (21 ∷ 22 ∷ []) [])
        case_seven
        1
        none
        empty_db)
unfolding last_sequence
execute_full_review-Ends_example =
    execute_full_review-Ends accepts no_hash 5 (some_agents (21 ∷ 22 ∷ []) []) case_seven 1 none
      empty_db (fresh_run refl tt)

abbrev seven_run : Run
seven_run = record {
  id = 1;
  tenant_id = 1;
  case_id = 7;
  status = received;
  state_version = 1;
  as_of_date = 20;
  degraded = false;
  degraded_agents = [];
  risk_threshold_version = none;
  completed_at = none;
}

abbrev seven_db : Db
seven_db = record empty_db { runs = seven_run ∷ [] }

abbrev seven_cursor : Cursor
seven_cursor = record { run = seven_run; writer = new_writer true }

execute-IsBarred_example :
    Ends
      (IsBarred seven_db)
      (λ e _. e ≡ ledger_failed)
      (execute accepts no_hash 5 broken_agents case_seven seven_cursor seven_db)
unfolding find_run start_seq last_sequence new_writer is_failure checked
execute-IsBarred_example =
    execute-IsBarred accepts no_hash 5 broken_agents 1 seven_db case_seven seven_cursor seven_db
      (inr (λ _. refl))
      (record {
        synced = record { row = refl; next = refl };
        same_run = refl;
        status = refl;
        reports = refl;
        decisions = refl;
        claims = tt;
      })

-- The state, the number of events, of drafts, and of the claims that the first of them shows.
abbrev summary : Result Error RunOutcome × Db → ℕ × ℕ × ℕ
summary (ok out, db) = (code out.cursor.run.status, length db.events, length db.reports)
summary (err e, db) = (99, 0, 0)

accepted_claims_completed :
    summary
      (execute accepts no_hash 5 (some_agents (21 ∷ 22 ∷ []) []) case_seven seven_cursor seven_db)
    ≡ (15, 13, 1)
unfolding execute transition passes_integrity
accepted_claims_completed = refl

rejected_claim_stops :
    summary
      (execute accepts no_hash 5 (some_agents (21 ∷ []) (22 ∷ [])) case_seven seven_cursor seven_db)
    ≡ (12, 12, 0)
unfolding execute transition passes_integrity
rejected_claim_stops = refl
