-- ===== src/Outbox/Lifecycle.antt =====
-- The CHECK constraints of `telemetry_outbox` (infrastructure/postgres/models.py) and the limit on
-- attempts, under each write of the worker to a row.
use creditlens.Base.{
  ℕ, ◌≤◌, ◌<◌, ◌≡◌, refl, Bool, true, false, Option, none, some, [], ◌∷◌, ◌&&◌, not, ltb, leb, ◌==◌,
  length, is_some, arith, Bool-cases, inl, inr,
}
use creditlens.Base.Text.{Text, codes, text_eq}
use creditlens.Outbox.Row.{
  Row, Config, Claim, Status, is_upper, is_code_char, all_code_chars, is_safe_code, safe_error_code,
}
use creditlens.Outbox.Claiming.{is_due, claim_entry}
use creditlens.Outbox.Delivery.{acknowledge, fail_row, owns_row}

unfoldable pub is_lower : ℕ → Bool
is_lower c = leb b'a' c && leb c b'z'

-- `upper` on the ASCII codes leaves them alone, and there is no space.
unfoldable pub no_lower_or_space : Text → Bool
unfolding is_lower
no_lower_or_space [] = true
no_lower_or_space (c ∷ cs) = not (is_lower c) && not (c == 32) && no_lower_or_space cs

-- `ck_telemetry_outbox_error_code`
unfoldable pub check_error_code : Option Text → Bool
unfolding no_lower_or_space
check_error_code none = true
check_error_code (some code) = leb 1 (length code) && leb (length code) 64 && no_lower_or_space code

unfoldable pub lease_in_order : Option ℕ → Option ℕ → Bool
lease_in_order (some at) (some until) = ltb at until
lease_in_order _ _ = false

-- `ck_telemetry_outbox_lifecycle`
unfoldable pub check_lifecycle : Status → Row → Bool
unfolding lease_in_order
check_lifecycle Status.pending r =
    not (is_some r.locked_at)
    && not (is_some r.locked_until)
    && not (is_some r.delivered_at)
    && not (is_some r.dead_at)
check_lifecycle Status.processing r =
    leb 1 r.attempts
    && lease_in_order r.locked_at r.locked_until
    && not (is_some r.delivered_at)
    && not (is_some r.dead_at)
check_lifecycle Status.delivered r =
    leb 1 r.attempts
    && not (is_some r.locked_at)
    && not (is_some r.locked_until)
    && is_some r.delivered_at
    && not (is_some r.dead_at)
check_lifecycle Status.dead r =
    leb 1 r.attempts
    && not (is_some r.locked_at)
    && not (is_some r.locked_until)
    && not (is_some r.delivered_at)
    && is_some r.dead_at

-- `ck_telemetry_outbox_topic`
unfoldable pub check_topic : Text → Bool
check_topic topic = text_eq topic (codes "INVOCATION_TERMINATED")

-- A row that waits has an attempt left; no row has had more than the limit.
abbrev pub IsWithinLimit : Config → Status → ℕ → Type 0
IsWithinLimit cfg Status.pending n = n < cfg.max_attempts
IsWithinLimit cfg _ n = n ≤ cfg.max_attempts

-- The row passes the CHECK constraints and is within the limit on attempts.
pub record IsLawful (cfg : Config) (r : Row) : Type 0 where
  pub lifecycle : check_lifecycle r.status r ≡ true
  pub error_code : check_error_code r.last_error_code ≡ true
  pub topic : check_topic r.topic ≡ true
  pub limit : IsWithinLimit cfg r.status r.attempts

code_char-check : (c : ℕ) → is_code_char c ≡ true → (not (is_lower c) && not (c == 32)) ≡ true
unfolding is_code_char is_lower
code_char-check c h = ground arith

code_chars-check : (cs : Text) → all_code_chars cs ≡ true → no_lower_or_space cs ≡ true
unfolding all_code_chars no_lower_or_space
code_chars-check [] h = refl
code_chars-check (c ∷ cs) h = ground (arith, code_char-check c, code_chars-check cs)

safe_code-check : (code : Text) → is_safe_code code ≡ true → check_error_code (some code) ≡ true
unfolding is_safe_code check_error_code no_lower_or_space
safe_code-check [] h = cc
safe_code-check (c ∷ cs) h =
    ground (arith, code_char-check c, code_chars-check cs, upper-code_char c)
  where
    upper-code_char : (c : ℕ) → is_upper c ≡ true → (not (is_lower c) && not (c == 32)) ≡ true
    upper-code_char c h = ground arith

-- The code that `safe_error_code` chooses passes the constraint, if the fallback does.
pub safe_error_code-check :
    (error : Option Text) (fallback : Text)
    → check_error_code (some fallback) ≡ true
    → check_error_code (some (safe_error_code error fallback)) ≡ true
unfolding safe_error_code
safe_error_code-check none fallback h = h
safe_error_code-check (some declared) fallback h = elim (Bool-cases (is_safe_code declared)) [
  | inl safe ↦ rw safe (safe_code-check declared safe)
  | inr unsafe ↦ rw unsafe h
]

exhausted_code-check : check_error_code (some (codes "TELEMETRY_ATTEMPTS_EXHAUSTED")) ≡ true
unfolding check_error_code
exhausted_code-check = refl

module _ (cfg : Config) (now : ℕ) where
  pub claim_entry-IsLawful :
      (r : Row)
      → 0 < cfg.lease
      → is_due now r ≡ true
      → IsLawful cfg r
      → IsLawful cfg (claim_entry cfg now r)
  unfolding claim_entry check_lifecycle check_error_code is_due
  claim_entry-IsLawful r pos due h = ground (arith, exhausted_code-check)

  pub acknowledge-IsLawful :
      (r : Row) (c : Claim)
      → owns_row r c ≡ true
      → IsLawful cfg r
      → IsLawful cfg (acknowledge now r)
  unfolding acknowledge owns_row check_lifecycle check_error_code
  acknowledge-IsLawful r c own h = ground arith

  pub fail_row-IsLawful :
      (r : Row) (c : Claim) (code : Text)
      → owns_row r c ≡ true
      → check_error_code (some code) ≡ true
      → IsLawful cfg r
      → IsLawful cfg (fail_row cfg now c code r)
  unfolding fail_row owns_row check_lifecycle
  fail_row-IsLawful r c code own safe h = ground arith
