-- ===== src/Review/Outcome.antt =====
-- What a call of `resume_after_human_review` ends in, with the calls on a run serialised by its row
-- lock: a replay, an effect, or a refusal that writes nothing.
use creditlens.Base.{
  ℕ, ◌≡◌, refl, sym, subst, Bool, true, Option, none, some, List, Bool-cases, Option-cases, inl,
  inr, ◌⊎◌, is_some,
}
use creditlens.Base.Result.{Result, ok, err}
use creditlens.Base.Session.{Ends, Ends-map}
use creditlens.Base.Text.{Text}
use creditlens.Workflow.Status.{RunStatus}
use creditlens.Workflow.Records.{
  Run, ClaimRecord, ArtifactRecord, ReportContent, HumanDecision, Db, find_run,
}
use creditlens.Review.Decide.{
  Error, artifact_integrity_failed, check_targets, insert_decision, decide_new, decide_run,
  resume_after_human_review, find_decision, same_human_decision, same_option, has_key, is_allowed,
}
use creditlens.Review.Completion.{is_reviewable}
use creditlens.Review.Taking.{TookEffect, take_effect-Ends, nothing_blocks, found_id, Failed}

module _ (integrity : Run → List ArtifactRecord → List ClaimRecord → Bool)
    (hash_content : ReportContent → Text) where
  -- A repeated request: the key is on the table with an equal decision, and nothing is written.
  pub record IsReplay (d : HumanDecision) (db : Db) (s : Option RunStatus) (db' : Db) : Type 0 where
    pub existing : HumanDecision
    pub known : find_decision d.run_id d.idempotency_key db ≡ some existing
    pub same : same_human_decision existing d ≡ true
    pub unchanged : db' ≡ db
    pub run : Run
    pub row : find_run d.run_id db ≡ some run
    pub status : s ≡ some run.status

  -- A new decision, for the version of the run that is on the table.
  pub record IsNew (d : HumanDecision) (db : Db) (s : Option RunStatus) (db' : Db) : Type 0 where
    pub unknown : find_decision d.run_id d.idempotency_key db ≡ none
    pub run : Run
    pub row : find_run d.run_id db ≡ some run
    pub same_run : run.id ≡ d.run_id
    pub reviewable : is_reviewable run.status ≡ true
    pub version : same_option d.target_version (some run.state_version) ≡ true
    pub checked : check_targets run.id db d ≡ ok tt
    pub effect : TookEffect integrity hash_content d run db s db'

  abbrev pub Answers : HumanDecision → Db → Option RunStatus → Db → Type 0
  Answers d db s db' = IsReplay d db s db' ⊎ IsNew d db s db'

  abbrev pub Refuses : Db → Error → Db → Type 0
  Refuses db e db' = (db' ≡ db) ⊎ (e ≡ artifact_integrity_failed)

  Result-cases : (r : Result Error (Unit {0})) → (r ≡ ok tt) ⊎ ((e : Error) × (r ≡ err e))
  Result-cases (ok a) = inl refl
  Result-cases (err e) = inr (e, refl)

  insert-Ends :
      (now : ℕ) (d : HumanDecision) (run : Run) (db : Db)
      → find_decision d.run_id d.idempotency_key db ≡ none
      → find_run d.run_id db ≡ some run
      → run.id ≡ d.run_id
      → is_reviewable run.status ≡ true
      → same_option d.target_version (some run.state_version) ≡ true
      → check_targets run.id db d ≡ ok tt
      → Ends
          (Answers d db)
          (Refuses db)
          (insert_decision integrity hash_content (λ x. x) now d run db)
  unfolding insert_decision
  insert-Ends now d run db unknown found same h version checked = rw unknown (
      Ends-map (TookEffect integrity hash_content d run db) (Failed integrity hash_content)
        (Answers d db) (Refuses db) _
        (λ s db' effect. inr (record {
          unknown = unknown;
          run = run;
          row = found;
          same_run = same;
          reviewable = h;
          version = version;
          checked = checked;
          effect = effect;
        }))
        (λ e db' failed. inr failed)
        (take_effect-Ends integrity hash_content now d run db
          (subst (λ i. find_run i db ≡ some run) (sym same) found) h
          (nothing_blocks run.id db d checked)))

  decide_new-Ends :
      (now : ℕ) (d : HumanDecision) (run : Run) (db : Db)
      → find_decision d.run_id d.idempotency_key db ≡ none
      → find_run d.run_id db ≡ some run
      → run.id ≡ d.run_id
      → Ends (Answers d db) (Refuses db) (decide_new integrity hash_content (λ x. x) now d run db)
  unfolding decide_new
  decide_new-Ends now d run db unknown found same = elim (Bool-cases (is_reviewable run.status)) [
    | inr closed ↦ rw closed (inl refl)
    | inl h ↦ elim (Bool-cases (same_option d.target_version (some run.state_version))) [
      | inr stale ↦ rw (h, stale) (inl refl)
      | inl version ↦ elim (Result-cases (check_targets run.id db d)) [
        | inr (e, bad) ↦ rw (h, version, bad) (inl refl)
        | inl checked ↦
            rw (h, version, checked) (insert-Ends now d run db unknown found same h version checked)
      ]
    ]
  ]

  decide_run-Ends :
      (now : ℕ) (d : HumanDecision) (run : Run) (db : Db)
      → find_run d.run_id db ≡ some run
      → Ends (Answers d db) (Refuses db) (decide_run integrity hash_content (λ x. x) now d run db)
  unfolding decide_run
  decide_run-Ends now d run db found =
      elim (Option-cases (find_decision d.run_id d.idempotency_key db)) [
        | inl unknown ↦
            rw unknown (decide_new-Ends now d run db unknown found (found_id d.run_id run db found))
        | inr (existing, known) ↦ elim (Bool-cases (same_human_decision existing d)) [
          | inr other ↦ rw (known, other) (inl refl)
          | inl same ↦
              rw (known, same)
                (inl (record {
                  existing = existing;
                  known = known;
                  same = same;
                  unchanged = refl;
                  run = run;
                  row = found;
                  status = refl;
                }))
        ]
      ]

  -- A request that is not refused outright.
  pub record IsRequest (d : HumanDecision) : Type 0 where
    pub key : has_key d.idempotency_key ≡ true
    pub version : is_some d.target_version ≡ true
    pub action : is_allowed d.action ≡ true

  abbrev pub AnswersRequest : HumanDecision → Db → Option RunStatus → Db → Type 0
  AnswersRequest d db s db' = IsRequest d × Answers d db s db'

  -- With the calls on a run serialised, a call that returns has either repeated a decision that was
  -- on the table, and written nothing, or recorded a new one for the current version of a run under
  -- review. A call that raises has written nothing, unless the report's integrity check failed.
  pub resume-Ends :
      (now : ℕ) (d : HumanDecision) (db : Db)
      → Ends
          (AnswersRequest d db)
          (Refuses db)
          (resume_after_human_review integrity hash_content (λ x. x) now d db)
  unfolding resume_after_human_review
  resume-Ends now d db = elim (Bool-cases (has_key d.idempotency_key)) [
    | inr no_key ↦ rw no_key (inl refl)
    | inl key ↦ elim (Bool-cases (is_some d.target_version)) [
      | inr no_version ↦ rw (key, no_version) (inl refl)
      | inl version ↦ elim (Bool-cases (is_allowed d.action)) [
        | inr unsupported ↦ rw (key, version, unsupported) (inl refl)
        | inl allowed_ ↦ elim (Option-cases (find_run d.run_id db)) [
          | inl gone ↦ rw (key, version, allowed_, gone) (inl refl)
          | inr (run, found) ↦
              rw (key, version, allowed_, found)
                (Ends-map (Answers d db) (Refuses db) (AnswersRequest d db) (Refuses db) _
                  (λ s db' a. (record { key = key; version = version; action = allowed_ }, a))
                  (λ e db' r. r) (decide_run-Ends now d run db found))
        ]
      ]
    ]
  ]
