-- ===== src/Review/Guarantees.antt =====
-- What a reviewer can rely on: retries repeat, versions fence, decided claims stay, and COMPLETED
-- means that nothing blocks and the report is there.
use creditlens.Base.{
  ℕ, ◌≡◌, refl, ◌∙◌, ap, subst, Bool, true, Option, none, some, List, [], ◌∷◌, ◌++◌, ◌&&◌, arith,
  inl, inr, ◌==◌, ==_refl, find,
}
use creditlens.Base.Result.{ok}
use creditlens.Base.Session.{Exec, Ends}
use creditlens.Base.Text.{Text, text_eq_refl}
use creditlens.Workflow.Status.{RunStatus}
use creditlens.Workflow.Records.{
  Run, ClaimRecord, ArtifactRecord, ReportContent, HumanDecision, HumanAction, Db, find_run,
}
use creditlens.Review.Decide.{
  Error, resume_after_human_review, find_decision, same_human_decision, same_option, same_key,
  has_key, same_action, action_code, action_text, claim_ids, decide_run,
}
use creditlens.Review.Outcome.{resume-Ends, AnswersRequest, Refuses, IsRequest}

same_option_refl : (o : Option ℕ) → same_option o o ≡ true
unfolding same_option
same_option_refl none = refl
same_option_refl (some a) = ==_refl a

pub same_option-eq : (a b : Option ℕ) → same_option a b ≡ true → a ≡ b
unfolding same_option
same_option-eq a b h = ground arith

same_action_refl : (a : HumanAction) → same_action a a ≡ true
unfolding same_action
same_action_refl a = ground (arith, ==_refl (action_code a), text_eq_refl (action_text a))

-- A decision repeats itself.
pub same_human_decision_refl : (d : HumanDecision) → same_human_decision d d ≡ true
unfolding same_human_decision
same_human_decision_refl d = ground (
  arith,
  same_action_refl d.action,
  text_eq_refl (claim_ids d),
  same_option_refl d.target_version,
  text_eq_refl d.reason_code,
  text_eq_refl d.reason,
  same_option_refl d.reviewer_id,
)

find-append_new :
    (i : ℕ) (k : Option Text) (ds : List HumanDecision) (d : HumanDecision)
    → find (λ x. x.run_id == i && same_key x.idempotency_key k) ds ≡ none
    → (d.run_id == i && same_key d.idempotency_key k) ≡ true
    → find (λ x. x.run_id == i && same_key x.idempotency_key k) (ds ++ d ∷ []) ≡ some d
find-append_new i k [] d h e = rw e refl
find-append_new i k (x ∷ xs) d h e = ground (arith, find-append_new i k xs d)

find-append_old :
    (p : HumanDecision → Bool) (ds more : List HumanDecision) (e : HumanDecision)
    → find p ds ≡ some e
    → find p (ds ++ more) ≡ some e
find-append_old p [] more e h = cc
find-append_old p (x ∷ xs) more e h = ground (arith, find-append_old p xs more e)

own_key : (k : Option Text) → has_key k ≡ true → same_key k k ≡ true
unfolding has_key same_key
own_key none h = cc
own_key (some t) h = text_eq_refl t

-- After the insertion the key finds the decision.
recorded :
    (d : HumanDecision) (db db' : Db)
    → find_decision d.run_id d.idempotency_key db ≡ none
    → has_key d.idempotency_key ≡ true
    → db'.decisions ≡ db.decisions ++ d ∷ []
    → find_decision d.run_id d.idempotency_key db' ≡ some d
unfolding find_decision
recorded d db db' unknown key e = rw e (
    find-append_new d.run_id d.idempotency_key db.decisions d unknown
      (rw (==_refl d.run_id, own_key d.idempotency_key key) refl))

module _ (integrity : Run → List ArtifactRecord → List ClaimRecord → Bool)
    (hash_content : ReportContent → Text) where
  abbrev pub resume : ℕ → HumanDecision → Exec Error Db (Option RunStatus)
  resume = resume_after_human_review integrity hash_content (λ x. x)

  -- What a call that returned has done.
  pub answered :
      (now : ℕ) (d : HumanDecision) (db db' : Db) (s : Option RunStatus)
      → resume now d db ≡ (ok s, db')
      → AnswersRequest integrity hash_content d db s db'
  answered now d db db' s h =
      subst
        (λ r.
          Ends (AnswersRequest integrity hash_content d db) (Refuses integrity hash_content db) r)
        h (resume-Ends integrity hash_content now d db)

  replayed :
      (now : ℕ) (d e : HumanDecision) (db : Db) (run : Run)
      → IsRequest integrity hash_content d
      → find_decision d.run_id d.idempotency_key db ≡ some e
      → same_human_decision e d ≡ true
      → find_run d.run_id db ≡ some run
      → resume now d db ≡ (ok (some run.status), db)
  unfolding resume_after_human_review decide_run
  replayed now d e db run q known same row = rw (q.key, q.version, q.action, row, known, same) refl

  -- Once a request has been answered, a replay of it writes nothing and answers with the status that
  -- the run has by then: on any later database that keeps the decisions, in their order and with more
  -- of them or not, and on which the run still is.
  pub resume-replays :
      (now later : ℕ) (d : HumanDecision) (db db' after : Db) (s : Option RunStatus)
      (more : List HumanDecision) (run : Run)
      → resume now d db ≡ (ok s, db')
      → after.decisions ≡ db'.decisions ++ more
      → find_run d.run_id after ≡ some run
      → resume later d after ≡ (ok (some run.status), after)
  unfolding find_decision
  resume-replays now later d db db' after s more run h kept still =
      again (answered now d db db' s h)
    where
      later_finds :
          (e : HumanDecision)
          → find_decision d.run_id d.idempotency_key db' ≡ some e
          → find_decision d.run_id d.idempotency_key after ≡ some e
      later_finds e known =
          ap (find (λ x. x.run_id == d.run_id && same_key x.idempotency_key d.idempotency_key)) kept
          ∙ find-append_old _ db'.decisions more e known

      again :
          AnswersRequest integrity hash_content d db s db'
          → resume later d after ≡ (ok (some run.status), after)
      again (q, inl r) =
          replayed later d r.existing after run q (later_finds r.existing (rw r.unchanged r.known))
            r.same still
      again (q, inr n) =
          replayed later d d after run q
            (later_finds d (recorded d db db' n.unknown q.key n.effect.decisions))
            (same_human_decision_refl d) still
