-- ===== src/Outbox/Row.antt =====
-- Rows of `telemetry_outbox` (infrastructure/postgres/models.py), the worker's settings, the error
-- codes that a row may hold (observability/invocation.py) and the claims that a worker holds.
-- Identifiers are numbers that are only compared; instants are numbers of one clock.
use creditlens.Base.{
  ℕ, Bool, true, false, Option, none, some, List, [], ◌∷◌, ◌&&◌, ◌||◌, ltb, leb, ◌==◌,
  if◌then◌else◌, length,
}
use creditlens.Base.Result.{Result, ok, raise_if, ◌>>◌}
use creditlens.Base.Text.{Text}

pub data Status : Type 0 where
  pending processing delivered dead : Status

unfoldable pub is_pending : Status → Bool
is_pending Status.pending = true
is_pending _ = false

unfoldable pub is_processing : Status → Bool
is_processing Status.processing = true
is_processing _ = false

-- `TelemetryOutbox`
pub record Row : Type 0 where
  pub id : ℕ
  pub tenant_id : ℕ
  pub case_id : ℕ
  pub run_id : ℕ
  pub invocation_id : ℕ
  pub topic : Text
  pub status : Status
  pub attempts : ℕ
  pub available_at : ℕ
  pub locked_at : Option ℕ
  pub locked_until : Option ℕ
  pub last_error_code : Option Text
  pub created_at : ℕ
  pub delivered_at : Option ℕ
  pub dead_at : Option ℕ

abbrev pub Table : Type 0
Table = List Row

unfoldable pub has_id : ℕ → Row → Bool
has_id i r = r.id == i

-- The settings of a `TelemetryOutboxWorker`.
pub record Config : Type 0 where
  pub max_attempts : ℕ
  pub lease : ℕ
  pub base_backoff : ℕ
  pub max_backoff : ℕ
  pub tenant : Option ℕ
  pub postgresql : Bool

pub data ConfigError : Type 0 where
  max_attempts_must_be_positive lease_must_be_positive backoff_must_be_positive : ConfigError
  base_exceeds_maximum : ConfigError

-- `TelemetryOutboxWorker.__init__`
unfoldable pub configure : Config → Result ConfigError Config
configure c =
    raise_if (ltb c.max_attempts 1) max_attempts_must_be_positive
    >> raise_if (leb c.lease 0) lease_must_be_positive
    >> raise_if (leb c.base_backoff 0 || leb c.max_backoff 0) backoff_must_be_positive
    >> raise_if (ltb c.max_backoff c.base_backoff) base_exceeds_maximum
    >> ok c

-- `_Claim`
pub record Claim : Type 0 where
  pub outbox_id : ℕ
  pub invocation_id : ℕ
  pub attempt : ℕ
  pub reclaimed : Bool

unfoldable pub is_upper : ℕ → Bool
is_upper c = leb b'A' c && leb c b'Z'

unfoldable pub is_code_char : ℕ → Bool
unfolding is_upper
is_code_char c = is_upper c || (leb b'0' c && leb c b'9') || c == b'_'

unfoldable pub all_code_chars : Text → Bool
unfolding is_code_char
all_code_chars [] = true
all_code_chars (c ∷ cs) = is_code_char c && all_code_chars cs

-- `_SAFE_CODE_RE.fullmatch`: `^[A-Z][A-Z0-9_]{0,63}$`
unfoldable pub is_safe_code : Text → Bool
unfolding is_upper all_code_chars
is_safe_code [] = false
is_safe_code (c ∷ cs) = is_upper c && all_code_chars cs && leb (length cs) 63

-- `safe_error_code`: an exception shows only its `error_code` attribute, if it has one.
unfoldable pub safe_error_code : Option Text → Text → Text
unfolding is_safe_code
safe_error_code none fallback = fallback
safe_error_code (some declared) fallback = if is_safe_code declared then declared else fallback
