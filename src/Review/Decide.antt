-- ===== src/Review/Decide.antt =====
-- `resume_after_human_review` and its helpers (agents/supervisor.py).
use creditlens.Base.{
  ℕ, ◌+◌, Bool, true, false, Option, none, some, List, [], ◌∷◌, ◌++◌, map, ◌==◌, ltb, leb, not,
  ◌&&◌, ◌||◌, if◌then◌else◌, find, update_where, is_empty, is_some,
}
use creditlens.Base.Result.{Result, ok, err}
use creditlens.Base.Session.{Exec, pure, raise, lift, require, modify, gets, ◌>>=◌, ◌>>◌}
use creditlens.Base.Text.{Text, text_eq}
use creditlens.Workflow.Status.{RunStatus, same_status, human_review, rework, reporting, completed}
use creditlens.Workflow.Records.{
  Run, ClaimRecord, ArtifactRecord, HumanDecision, HumanAction, RawId, ReviewStatus, ReportContent,
  Db, human_decision, human_review_pending, approve_claim, reject_claim, request_changes,
  request_more_information, submit_report, approve_report_draft, other_action, is_blocking,
  human_approved, human_rejected, approved_draft, write_run, find_run, find_claim,
  blocking_claims_remain,
}
use creditlens.Workflow.Events.{Cursor, new_writer, record_event, transition}
use creditlens.Report.Generate.{persist_report_via_agent}

-- What the call raises.
pub data Error : Type 0 where
  no_idempotency_key no_expected_version unsupported_action : Error
  no_such_run not_reviewable version_conflict idempotency_conflict : Error
  no_targets malformed_claim_id claim_not_of_run claim_already_decided : Error
  blocking_claims : ℕ → Error
  transition_refused artifact_integrity_failed : Error

unfoldable pub action_code : HumanAction → ℕ
action_code approve_claim = 0
action_code reject_claim = 1
action_code request_changes = 2
action_code request_more_information = 3
action_code submit_report = 4
action_code approve_report_draft = 5
action_code (other_action t) = 6

unfoldable pub action_text : HumanAction → Text
action_text (other_action t) = t
action_text _ = []

unfoldable pub same_action : HumanAction → HumanAction → Bool
unfolding action_code action_text
same_action a b = action_code a == action_code b && text_eq (action_text a) (action_text b)

-- `action in _ALLOWED_HUMAN_ACTIONS`
unfoldable pub is_allowed : HumanAction → Bool
is_allowed (other_action t) = false
is_allowed _ = true

unfoldable pub insert_sorted : ℕ → List ℕ → List ℕ
insert_sorted a [] = a ∷ []
insert_sorted a (x ∷ xs) = if leb a x then a ∷ x ∷ xs else x ∷ insert_sorted a xs

unfoldable pub sorted : List ℕ → List ℕ
unfolding insert_sorted
sorted [] = []
sorted (x ∷ xs) = insert_sorted x (sorted xs)

unfoldable pub same_option : Option ℕ → Option ℕ → Bool
same_option none none = true
same_option (some a) (some b) = a == b
same_option _ _ = false

unfoldable pub claim_ids : HumanDecision → List ℕ
unfolding sorted
claim_ids d = sorted (map (λ t. t.spelling) d.target_claim_ids)

-- `_same_human_decision`
unfoldable pub same_human_decision : HumanDecision → HumanDecision → Bool
same_human_decision existing incoming =
    existing.tenant_id == incoming.tenant_id
    && existing.case_id == incoming.case_id
    && existing.run_id == incoming.run_id
    && same_action existing.action incoming.action
    && text_eq (claim_ids existing) (claim_ids incoming)
    && same_option existing.target_version incoming.target_version
    && text_eq existing.reason_code incoming.reason_code
    && text_eq existing.reason incoming.reason
    && same_option existing.reviewer_id incoming.reviewer_id

-- `not decision.idempotency_key`
unfoldable pub has_key : Option Text → Bool
has_key none = false
has_key (some k) = not (is_empty k)

unfoldable pub same_key : Option Text → Option Text → Bool
same_key (some a) (some b) = text_eq a b
same_key _ _ = false

unfoldable pub find_decision : ℕ → Option Text → Db → Option HumanDecision
find_decision run key db =
    find (λ d. d.run_id == run && same_key d.idempotency_key key) db.decisions

unfoldable pub is_claim_action : HumanAction → Bool
is_claim_action approve_claim = true
is_claim_action reject_claim = true
is_claim_action _ = false

unfoldable pub is_report_action : HumanAction → Bool
is_report_action submit_report = true
is_report_action approve_report_draft = true
is_report_action _ = false

-- One target of a claim action, before anything is written.
unfoldable pub check_claim : ℕ → Option ClaimRecord → Result Error (Unit {0})
unfolding is_blocking
check_claim run none = err claim_not_of_run
check_claim run (some c) =
    if not (c.run_id == run)
    then err claim_not_of_run
    else if is_blocking c.review_status
    then ok tt
    else err claim_already_decided

unfoldable pub check_target : ℕ → Db → Option ℕ → Result Error (Unit {0})
check_target run db none = err malformed_claim_id
check_target run db (some i) = check_claim run (find_claim i db)

unfoldable pub check_each : ℕ → Db → List RawId → Result Error (Unit {0})
check_each run db [] = ok tt
check_each run db (t ∷ ts) = elim (check_target run db t.parsed) [
  | ok _ ↦ check_each run db ts
  | err e ↦ err e
]

unfoldable pub check_targets : ℕ → Db → HumanDecision → Result Error (Unit {0})
check_targets run db d =
    if is_claim_action d.action
    then (if is_empty d.target_claim_ids
        then err no_targets
        else check_each run db d.target_claim_ids)
    else if is_report_action d.action && ltb 0 (blocking_claims_remain run db)
    then err (blocking_claims (blocking_claims_remain run db))
    else ok tt

-- The state that a claim action leaves its targets in.
unfoldable pub decided_status : HumanAction → ReviewStatus
decided_status approve_claim = human_approved
decided_status _ = human_rejected

unfoldable pub set_review_status : ℕ → ReviewStatus → Option ℕ → Db → Db
set_review_status run status none db = db
set_review_status run status (some i) db = record db {
  claims =
      update_where (λ c. c.id == i && c.run_id == run) (λ c. record c { review_status = status })
        db.claims;
}

unfoldable pub decide_claims : ℕ → ReviewStatus → List RawId → Db → Db
decide_claims run status [] db = db
decide_claims run status (t ∷ ts) db =
    decide_claims run status ts (set_review_status run status t.parsed db)

module _ (integrity : Run → List ArtifactRecord → List ClaimRecord → Bool)
    (hash_content : ReportContent → Text) where
  unfoldable pub leave_rework : Cursor → Exec Error Db Cursor
  leave_rework c =
      if same_status c.run.status rework
      then transition transition_refused false human_review c
      else pure c

  -- `run.completed_at = utc_now()`
  unfoldable pub stamp : ℕ → Cursor → Exec Error Db Cursor
  stamp now c = do
    let run' = record c.run { completed_at = some now }
    modify (write_run run')
    pure (record c { run = run' })

  unfoldable pub close_run : ℕ → Cursor → Exec Error Db Cursor
  close_run now c = do c ← transition transition_refused false completed c; stamp now c

  -- From REPORTING to COMPLETED.
  unfoldable pub finish : ℕ → Cursor → Exec Error Db Cursor
  finish now c = do
    persist_report_via_agent integrity artifact_integrity_failed hash_content c.run approved_draft
    close_run now c

  unfoldable pub start_report : ℕ → Cursor → Exec Error Db Cursor
  start_report now c = do c ← transition transition_refused false reporting c; finish now c

  -- From a reviewable state to COMPLETED, with the report as a precondition.
  unfoldable pub complete : ℕ → Cursor → Exec Error Db Cursor
  complete now c = do c ← leave_rework c; start_report now c

  -- What a decision that has been recorded does to the run.
  unfoldable pub apply_claims : ℕ → HumanDecision → Cursor → Exec Error Db Cursor
  apply_claims now d c = do
    modify (decide_claims c.run.id (decided_status d.action) d.target_claim_ids)
    remaining ← gets (blocking_claims_remain c.run.id)
    if ltb 0 remaining then record_event (human_review_pending remaining) c else complete now c

  unfoldable pub apply_rework : Cursor → Exec Error Db Cursor
  apply_rework c =
      if same_status c.run.status rework
      then pure c
      else transition transition_refused false rework c

  unfoldable pub apply_decision : ℕ → HumanDecision → Cursor → Exec Error Db Cursor
  apply_decision now d c =
      if is_claim_action d.action
      then apply_claims now d c
      else if is_report_action d.action
      then complete now c
      else apply_rework c

  -- The decision is on the table: the version moves, and the decision takes effect.
  unfoldable pub take_effect : ℕ → HumanDecision → Run → Exec Error Db (Option RunStatus)
  take_effect now d run = do
    let run' = record run { state_version = run.state_version + 1 }
    modify (write_run run')
    c ← record_event (human_decision d.action) (record { run = run'; writer = new_writer true })
    c ← apply_decision now d c
    pure (some c.run.status)

  -- The unique constraint on (run_id, idempotency_key) has refused the insertion: another session
  -- has committed the key. `none` is the status "UNKNOWN" of a run that is gone.
  unfoldable pub repeat_of : HumanDecision → HumanDecision → Exec Error Db (Option RunStatus)
  repeat_of existing d = do
    require (same_human_decision existing d) idempotency_conflict
    run ← gets (find_run d.run_id)
    pure (elim run [ none ↦ none | some r ↦ some r.status ])

  -- `world` is what other sessions commit between the look-up of the key and the flush; where the
  -- row lock serialises the calls on a run, that is nothing.
  unfoldable pub insert_decision :
      (Db → Db) → ℕ → HumanDecision → Run → Exec Error Db (Option RunStatus)
  insert_decision world now d run = do
    modify world
    clash ← gets (find_decision d.run_id d.idempotency_key)
    elim clash [
      | some existing ↦ repeat_of existing d
      | none ↦ do
        modify (λ db. record db { decisions = db.decisions ++ d ∷ [] })
        take_effect now d run
    ]

  unfoldable pub decide_new : (Db → Db) → ℕ → HumanDecision → Run → Exec Error Db (Option RunStatus)
  decide_new world now d run = do
    require (same_status run.status human_review || same_status run.status rework) not_reviewable
    require (same_option d.target_version (some run.state_version)) version_conflict
    checked ← gets (λ db. check_targets run.id db d)
    lift checked
    insert_decision world now d run

  unfoldable pub decide_run : (Db → Db) → ℕ → HumanDecision → Run → Exec Error Db (Option RunStatus)
  decide_run world now d run = do
    duplicate ← gets (find_decision d.run_id d.idempotency_key)
    elim duplicate [
      | some existing ↦ do
        require (same_human_decision existing d) idempotency_conflict
        pure (some run.status)
      | none ↦ decide_new world now d run
    ]

  -- `resume_after_human_review`, with the run's identifier that of the decision.
  unfoldable pub resume_after_human_review :
      (Db → Db) → ℕ → HumanDecision → Exec Error Db (Option RunStatus)
  resume_after_human_review world now d = do
    require (has_key d.idempotency_key) no_idempotency_key
    require (is_some d.target_version) no_expected_version
    require (is_allowed d.action) unsupported_action
    found ← gets (find_run d.run_id)
    elim found [ none ↦ raise no_such_run | some run ↦ decide_run world now d run ]
