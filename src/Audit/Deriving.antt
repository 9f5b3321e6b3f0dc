-- ===== src/Audit/Deriving.antt =====
-- The rule by which the status of an answer is derived (`verify_grounded_answer`, agents/auditor.py).
use creditlens.Base.{
  ℕ, ◌≡◌, refl, Bool, true, false, List, [], ◌∷◌, ◌&&◌, not, not-false, ||_false, if-cases, any,
  any-All, is_empty, All, All-imp, arith,
}
use creditlens.Audit.Artifacts.{
  AgentClaim, AnswerStatus, answered, abstained, needs_review, GroundedAnswer, AuditResult,
}
use creditlens.Audit.Contract.{is_supported}
use creditlens.Audit.Verify.{is_data_conflict}
use creditlens.Audit.Grounded.{
  status_text, is_same_status, is_doubtful, has_review_signal, derive_status,
  requires_normalization,
}

-- A claim that needs no review by itself.
pub record IsUndoubted (c : AgentClaim) : Type 0 where
  pub no_data_conflict : is_data_conflict c.category ≡ false
  pub unopposed : is_empty c.opposing_evidence_ids ≡ true
  pub supported : is_supported c.verdict ≡ true

-- Nothing of the answer calls for a review, where these claims are left to a human.
pub record IsClear (g : GroundedAnswer) (cs : List AgentClaim) (left_to_human : List ℕ)
    : Type 0 where
  pub no_conflicts : is_empty g.conflicts ≡ true
  pub nothing_missing : is_empty g.missing_information ≡ true
  pub nothing_left : is_empty left_to_human ≡ true
  pub undoubted : All IsUndoubted cs

-- What the status says: an answer without claims abstains; one with claims answers if all is clear,
-- and needs a review if not.
abbrev pub IsDerived : AnswerStatus → GroundedAnswer → List AgentClaim → List ℕ → Type 0
IsDerived abstained g cs left_to_human = is_empty cs ≡ true
IsDerived answered g cs left_to_human = (is_empty cs ≡ false) × IsClear g cs left_to_human
IsDerived needs_review g cs left_to_human = (is_empty cs ≡ false) × (¬ IsClear g cs left_to_human)

doubtful-IsUndoubted : (c : AgentClaim) → is_doubtful c ≡ false → IsUndoubted c
unfolding is_doubtful
doubtful-IsUndoubted c h =
    let (first, unsupported) = ||_false _ (not (is_supported c.verdict)) h in
    let (conflict, opposed) =
      ||_false (is_data_conflict c.category) (not (is_empty c.opposing_evidence_ids)) first in
    record {
      no_data_conflict = conflict;
      unopposed = not-false _ opposed;
      supported = not-false _ unsupported;
    }

IsUndoubted-doubtful : (c : AgentClaim) → IsUndoubted c → is_doubtful c ≡ false
unfolding is_doubtful
IsUndoubted-doubtful c h = rw (h.no_data_conflict, h.unopposed, h.supported) refl

none_doubtful : (cs : List AgentClaim) → All IsUndoubted cs → any is_doubtful cs ≡ false
none_doubtful [] h = refl
none_doubtful (c ∷ cs) h = rw (IsUndoubted-doubtful c h.0, none_doubtful cs h.1) refl

signal-IsClear :
    (g : GroundedAnswer) (cs : List AgentClaim) (r : AuditResult)
    → has_review_signal g cs r ≡ false
    → IsClear g cs r.needs_human_review_claim_ids
unfolding has_review_signal
signal-IsClear g cs r h =
    let (first, doubts) = ||_false _ (any is_doubtful cs) h in
    let (second, left) = ||_false _ (not (is_empty r.needs_human_review_claim_ids)) first in
    let (conflicts, missing) =
      ||_false (not (is_empty g.conflicts)) (not (is_empty g.missing_information)) second in
    record {
      no_conflicts = not-false _ conflicts;
      nothing_missing = not-false _ missing;
      nothing_left = not-false _ left;
      undoubted =
          All-imp (λ c. is_doubtful c ≡ false) IsUndoubted cs doubtful-IsUndoubted
            (any-All is_doubtful cs doubts);
    }

IsClear-signal :
    (g : GroundedAnswer) (cs : List AgentClaim) (r : AuditResult)
    → IsClear g cs r.needs_human_review_claim_ids
    → has_review_signal g cs r ≡ false
unfolding has_review_signal
IsClear-signal g cs r h =
    rw (h.no_conflicts, h.nothing_missing, h.nothing_left, none_doubtful cs h.undoubted) refl

signal_differs : (b : Bool) → b ≡ true → b ≡ false → ⊥
signal_differs b h k = cc

pub derive_status-IsDerived :
    (g : GroundedAnswer) (cs : List AgentClaim) (r : AuditResult)
    → IsDerived (derive_status g cs r) g cs r.needs_human_review_claim_ids
unfolding derive_status
derive_status-IsDerived g cs r =
    let P : AnswerStatus → Type 0 = λ d. IsDerived d g cs r.needs_human_review_claim_ids in
    if-cases P (is_empty cs) abstained _ (λ no_claims. no_claims)
      (λ some_claims.
        if-cases P (has_review_signal g cs r) needs_review answered
          (λ signal. (some_claims, λ clear. signal_differs _ signal (IsClear-signal g cs r clear)))
          (λ silent. (some_claims, signal-IsClear g cs r silent)))

pub same_status-eq : (a b : AnswerStatus) → is_same_status a b ≡ true → a ≡ b
unfolding is_same_status status_text
same_status-eq answered answered h = refl
same_status-eq answered abstained h = cc
same_status-eq answered needs_review h = cc
same_status-eq abstained answered h = cc
same_status-eq abstained abstained h = refl
same_status-eq abstained needs_review h = cc
same_status-eq needs_review answered h = cc
same_status-eq needs_review abstained h = cc
same_status-eq needs_review needs_review h = refl

normalized-status : (a b rest : Bool) → (a && b && rest) ≡ true → (a ≡ true) × (b ≡ true)
normalized-status a b rest h = ground arith

-- Only an answer that says ANSWERED and needs a review is to be normalised.
pub requires_normalization-status :
    (actual derived : AnswerStatus) (r : AuditResult)
    → requires_normalization actual derived r ≡ true
    → (actual ≡ answered) × (derived ≡ needs_review)
unfolding requires_normalization
requires_normalization-status actual derived r h =
    let both : (is_same_status actual answered ≡ true)
        × (is_same_status derived needs_review ≡ true) =
      ground arith in
    (same_status-eq actual answered both.0, same_status-eq derived needs_review both.1)
