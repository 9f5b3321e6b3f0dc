-- ===== src/Ledger/Tables.antt =====
-- The fields of `InvocationEnvelope` (observability/invocation.py) that the writer reads, the tables that
-- it writes to (infrastructure/postgres/models.py), and what it is made of (observability/writer.py).
use creditlens.Base.{
  ℕ, Bool, true, false, Option, none, some, List, ◌&&◌, ◌||◌, not, ◌==◌, if◌then◌else◌, find,
  is_some, is_empty,
}
use creditlens.Base.Text.{Text, codes, text_eq}
use creditlens.Outbox.Row.{Row, Table}

-- `content` stands for the fields that the writer only dumps and hashes; `kind` and `status` are the
-- values of their enums.
pub record InvocationEnvelope : Type 0 where
  pub contract_version : Text
  pub invocation_id : ℕ
  pub kind : Text
  pub name : Text
  pub provider : Option Text
  pub model : Option Text
  pub version : Option Text
  pub actor_role : Option Text
  pub task_id : Option Text
  pub status : Text
  pub ended_at : ℕ
  pub content : ℕ

pub record InvocationRecord : Type 0 where
  pub invocation_id : ℕ
  pub tenant_id : ℕ
  pub case_id : ℕ
  pub run_id : ℕ
  pub contract_version : Text
  pub kind : Text
  pub name : Text
  pub provider : Option Text
  pub model : Option Text
  pub version : Option Text
  pub actor_role : Option Text
  pub task_id : Option Text
  pub status : Text
  pub ended_at : ℕ
  pub payload_redacted : Text
  pub payload_sha256 : Text

pub record Ledger : Type 0 where
  pub invocations : List InvocationRecord
  pub outbox : Table

pub record InvocationWriter : Type 0 where
  pub tenant_id : ℕ
  pub case_id : ℕ
  pub run_id : ℕ
  pub actor_role : Option Text
  pub task_id : Option Text
  -- The dialect of the session is SQLite.
  pub sqlite : Bool

pub data LedgerError : Type 0 where
  invocation_identity_conflict invocation_audit_persist_error integrity_error : LedgerError
  validation_error : LedgerError

pub record InvocationRecordResult : Type 0 where
  pub record_row : InvocationRecord
  pub outbox_row : Row
  pub envelope : InvocationEnvelope
  pub created : Bool

-- How an envelope becomes JSON, and what pydantic and the hash make of it.
pub record EnvelopeCodec : Type 0 where
  -- `invocation_run_event_payload`, `InvocationEnvelope.model_validate`, of the JSON and of the fields
  pub dump : InvocationEnvelope → Text
  pub load : Text → Option InvocationEnvelope
  pub revalidate : InvocationEnvelope → Option InvocationEnvelope
  -- `hash_invocation_envelope`
  pub hash_envelope : InvocationEnvelope → Text

unfoldable pub same_optional : Option Text → Option Text → Bool
same_optional none none = true
same_optional (some a) (some b) = text_eq a b
same_optional _ _ = false

-- `a or b`, where the empty text counts as none.
unfoldable pub or_own : Option Text → Option Text → Option Text
or_own none own = own
or_own (some t) own = if is_empty t then own else some t

-- The writer has a value, and the envelope another one.
unfoldable pub contradicts : Option Text → Option Text → Bool
unfolding same_optional
contradicts given own = is_some own && is_some given && not (same_optional given own)

unfoldable pub invocation_topic : Text
invocation_topic = codes "INVOCATION_TERMINATED"

unfoldable pub is_of_invocation : ℕ → InvocationRecord → Bool
is_of_invocation i r = r.invocation_id == i

unfoldable pub row_of_invocation : ℕ → Row → Bool
row_of_invocation i r = r.invocation_id == i

-- The primary key of the one table and the unique key of the other.
unfoldable pub is_taken : ℕ → Ledger → Bool
unfolding is_of_invocation row_of_invocation
is_taken i db =
    is_some (find (is_of_invocation i) db.invocations)
    || is_some (find (row_of_invocation i) db.outbox)
