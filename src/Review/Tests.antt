-- ===== src/Review/Tests.antt =====
-- Decisions on a small run, and the theorems about them at concrete inputs.
use creditlens.Base.{◌≡◌, ◌≢◌, refl, ◌++◌, Bool, true, false, none, some, List, [], ◌∷◌}
use creditlens.Base.Result.{ok}
use creditlens.Base.Session.{Ends}
use creditlens.Base.Text.{Text, codes}
use creditlens.Workflow.Status.{human_review, completed}
use creditlens.Workflow.Records.{
  Run, ClaimRecord, ArtifactRecord, ReportContent, HumanDecision, HumanAction, Db, Verdict,
  ReviewStatus, blocking_claims_remain, find_claim,
}
use creditlens.Workflow.Status.{same_status}
use creditlens.Workflow.Records.{write_run, find_run, is_blocking, claims_of_run}
use creditlens.Workflow.Events.{
  transition, move_to, record_event, emit, advance, new_writer, start_seq, last_sequence,
}
use creditlens.Report.Generate.{
  persist_report_via_agent, generate, persist, passes_integrity, content_of, last_version,
  locator_by_evidence, is_accepted, is_insufficient, entry_of, references_of, distinct_agents,
}
use creditlens.Review.Decide.{
  resume_after_human_review, decide_run, decide_new, insert_decision, take_effect, apply_decision,
  apply_claims, apply_rework, complete, leave_rework, start_report, finish, close_run, stamp,
  find_decision, same_key, has_key, is_allowed, same_option, check_targets, check_each,
  check_target, check_claim, is_claim_action, is_report_action, decide_claims, set_review_status,
  decided_status, same_human_decision,
}
use creditlens.Review.Completion.{approved_report}
use creditlens.Review.Outcome.{resume-Ends, AnswersRequest, Refuses}
use creditlens.Review.Guarantees.{resume, resume-replays}
use creditlens.Review.Protection.{resume-keeps_decided, resume-version_fence, resume-completes}

abbrev run : Run
run = record {
  id = 1;
  tenant_id = 7;
  case_id = 8;
  status = human_review;
  state_version = 9;
  as_of_date = 20260131;
  degraded = false;
  degraded_agents = [];
  risk_threshold_version = none;
  completed_at = none;
}

abbrev doubtful : ClaimRecord
doubtful = record {
  id = 21;
  run_id = 1;
  artifact_id = 31;
  category = codes "FINANCIAL";
  statement = codes "debt ratio";
  verdict = Verdict.supported;
  uncertainty_reason = none;
  review_status = ReviewStatus.pending;
  supporting = [];
  opposing = [];
  calculations = [];
  source_claim_id = none;
}

abbrev audited_claim : ClaimRecord
audited_claim = record doubtful { id = 22; review_status = ReviewStatus.audited }

abbrev db : Db
db = record {
  runs = run ∷ [];
  claims = doubtful ∷ audited_claim ∷ [];
  artifacts = [];
  evidence = [];
  decisions = [];
  events = [];
  reports = [];
}

abbrev approval : HumanDecision
approval = record {
  tenant_id = 7;
  case_id = 8;
  run_id = 1;
  target_claim_ids = record { spelling = 21; parsed = some 21 } ∷ [];
  target_version = some 9;
  action = HumanAction.approve_claim;
  reason_code = [];
  reason = [];
  reviewer_id = some 5;
  idempotency_key = some (codes "k1");
}

abbrev rejection : HumanDecision
rejection = record approval {
  action = HumanAction.reject_claim;
  idempotency_key = some (codes "k2");
}

abbrev passing : Run → List ArtifactRecord → List ClaimRecord → Bool
passing r as_ cs = true

abbrev no_hash : ReportContent → Text
no_hash c = []

abbrev after_approval : Db
after_approval = (resume passing no_hash 500 approval db).1

resume-approval : resume passing no_hash 500 approval db ≡ (ok (some completed), after_approval)
unfolding resume_after_human_review decide_run decide_new insert_decision take_effect apply_decision
    apply_claims apply_rework complete leave_rework start_report finish close_run stamp transition
    move_to record_event emit advance new_writer start_seq last_sequence write_run find_run
    find_claim find_decision same_key has_key is_allowed same_status same_option check_targets
    check_each check_target check_claim is_claim_action is_report_action is_blocking
    blocking_claims_remain decide_claims set_review_status decided_status persist_report_via_agent
    generate persist passes_integrity content_of claims_of_run last_version locator_by_evidence
    is_accepted is_insufficient entry_of references_of distinct_agents same_human_decision
resume-approval = refl

resume-Ends_example :
    Ends
      (AnswersRequest passing no_hash approval db)
      (Refuses passing no_hash db)
      (resume passing no_hash 500 approval db)
resume-Ends_example = resume-Ends passing no_hash 500 approval db

-- The request again, after another decision has been stored and the run is at a later version.
abbrev decided_on : Db
decided_on = record after_approval {
  decisions = after_approval.decisions ++ rejection ∷ [];
  runs = record run { status = completed; state_version = 30 } ∷ [];
}

decided_on-row :
    find_run 1 decided_on ≡ some (record run { status = completed; state_version = 30 })
unfolding find_run
decided_on-row = refl

resume-replays_example :
    resume passing no_hash 900 approval decided_on ≡ (ok (some completed), decided_on)
resume-replays_example =
    resume-replays passing no_hash 500 900 approval db after_approval decided_on (some completed)
      (rejection ∷ []) (record run { status = completed; state_version = 30 }) resume-approval refl
      decided_on-row

resume-keeps_decided_example : find_claim 22 after_approval ≡ some audited_claim
unfolding find_claim is_blocking
resume-keeps_decided_example =
    resume-keeps_decided passing no_hash 500 22 approval db after_approval (some completed)
      audited_claim refl refl resume-approval

-- The second reviewer of the same version comes too late.
resume-version_fence_example :
    resume passing no_hash 900 rejection after_approval ≢ (ok (some completed), after_approval)
unfolding resume_after_human_review decide_run decide_new insert_decision take_effect apply_decision
    apply_claims apply_rework complete leave_rework start_report finish close_run stamp transition
    move_to record_event emit advance new_writer start_seq last_sequence write_run find_run
    find_claim find_decision same_key has_key is_allowed same_status same_option check_targets
    check_each check_target check_claim is_claim_action is_report_action is_blocking
    blocking_claims_remain decide_claims set_review_status decided_status persist_report_via_agent
    generate persist passes_integrity content_of claims_of_run last_version locator_by_evidence
    is_accepted is_insufficient entry_of references_of distinct_agents same_human_decision
resume-version_fence_example =
    resume-version_fence passing no_hash 500 900 approval rejection db after_approval after_approval
      (some completed) (some completed) refl refl refl resume-approval refl

resume-completes_example :
    (blocking_claims_remain 1 after_approval ≡ 0)
    × ((r : Run) × (x : Db) × (r.id ≡ 1)
        × (x.claims ≡ after_approval.claims)
        × (x.reports ≡ [])
        × (after_approval.reports ≡ [] ++ approved_report no_hash r x ∷ []))
unfolding find_decision
resume-completes_example =
    resume-completes passing no_hash 500 approval db after_approval refl resume-approval
