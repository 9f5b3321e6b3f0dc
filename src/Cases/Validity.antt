-- ===== src/Cases/Validity.antt =====
-- The days on which a version is in force.
use creditlens.Base.{
  ℕ, ◌≡◌, ◌≤◌, ◌<◌, subst, false, ◌||◌, none, some, ltb, leb, ltb-false, leb-false, ||_false, arith,
}
use creditlens.Cases.Tables.{DocumentVersion, is_before_start, is_after_end}

-- as_of_date ∈ [valid_from, valid_to)
pub record IsInForce (day : ℕ) (v : DocumentVersion) : Type 0 where
  pub started : (start : ℕ) → v.valid_from ≡ some start → start ≤ day
  pub not_ended : (end : ℕ) → v.valid_to ≡ some end → day < end

pub in_force :
    (day : ℕ) (v : DocumentVersion)
    → (is_before_start day v || is_after_end day v) ≡ false
    → IsInForce day v
unfolding is_before_start is_after_end
in_force day v h = record {
  started = λ start e. ltb-false day start (
      ground (
        arith,
        subst (λ o. (elim o [ none ↦ false | some x ↦ ltb day x ]) ≡ false) e (||_false _ _ h).0,
      ));
  not_ended = λ end e.
      leb-false end day
        (subst (λ o. (elim o [ none ↦ false | some x ↦ leb x day ]) ≡ false) e (||_false _ _ h).1);
}
