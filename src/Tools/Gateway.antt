-- ===== src/Tools/Gateway.antt =====
-- `ToolGateway.invoke` and `_emit_invocation_event` (tools/gateway.py), for one bound sink. The tool
-- and the sink are parameters; whether the envelope could be built is one too.
use creditlens.Base.{
  ℕ, Bool, true, false, Option, none, some, List, [], ◌∷◌, ◌++◌, ◌&&◌, not, ◌==◌, leb,
  if◌then◌else◌, length, filter, any, find, update_where,
}
use creditlens.Base.Result.{ok, err}
use creditlens.Base.Session.{Exec, ◌>>◌, pure, raise, handle}
use creditlens.Base.Text.{Text, codes, text_eq}

-- `ToolCallRecord.status`
pub data CallStatus : Type 0 where
  in_flight success denied failed cancelled : CallStatus

unfoldable pub is_in_flight : CallStatus → Bool
is_in_flight in_flight = true
is_in_flight _ = false

unfoldable pub is_denied : CallStatus → Bool
is_denied denied = true
is_denied _ = false

-- `ToolCallRecord`; the identifier stands for the object.
pub record Call : Type 0 where
  pub id : ℕ
  pub agent_role : Text
  pub tool_name : Text
  pub task_id : Text
  pub status : CallStatus
  pub error_code : Option Text
  pub has_invocation : Bool
  pub observability_error_codes : List Text

-- `ToolGateway`
pub record Gateway : Type 0 where
  pub tools : List Text
  pub allowlist : List (Text × List Text)
  pub max_calls_per_task : ℕ
  pub calls : List Call

pub data Error : Type 0 where
  budget_exceeded tool_call_denied : Error
  identity_conflict audit_persist_failed : Error
  tool_raised : Text → Error
  call_cancelled : Error

abbrev pub budget_code : Text
budget_code = codes "BUDGET_EXCEEDED"

unfoldable pub resolve_task : Text → Option Text → Text
resolve_task role none = codes "legacy-role:" ++ role
resolve_task role (some task) = task

unfoldable pub is_budget_code : Option Text → Bool
is_budget_code none = false
is_budget_code (some code) = text_eq code budget_code

-- Whether a call counts against the budget of the task.
unfoldable pub counts : Text → Call → Bool
unfolding is_budget_code
counts task c = text_eq c.task_id task && not (is_budget_code c.error_code)

unfoldable pub attempts : Text → List Call → ℕ
unfolding counts
attempts task calls = length (filter (counts task) calls)

unfoldable pub is_over_budget : Text → Gateway → Bool
unfolding attempts
is_over_budget task g = leb g.max_calls_per_task (attempts task g.calls)

unfoldable pub new_call : Text → Text → Text → Gateway → Call
new_call role tool task g = record {
  id = length g.calls;
  agent_role = role;
  tool_name = tool;
  task_id = task;
  status = in_flight;
  error_code = none;
  has_invocation = false;
  observability_error_codes = [];
}

-- What the attempt to build the envelope leaves: the envelope or not, and the errors observed.
pub record Envelope : Type 0 where
  pub built : Bool
  pub errors : List Text

unfoldable pub finished : CallStatus → Option Text → Envelope → Call → Call
finished status code e c = record c {
  status = status;
  error_code = code;
  has_invocation = e.built;
  observability_error_codes = e.errors;
}

-- `finish`, on the call's record, which is in flight.
unfoldable pub finish : ℕ → CallStatus → Option Text → Envelope → Gateway → Gateway
unfolding finished is_in_flight
finish k status code e g = record g {
  calls = update_where (λ c. c.id == k && is_in_flight c.status) (finished status code e) g.calls;
}

-- The block under the lock: the reservation, or the record of its refusal.
unfoldable pub reserve : Text → Text → Text → Envelope → Gateway → Gateway
unfolding is_over_budget new_call finished
reserve role tool task e g = record g {
  calls =
      g.calls
      ++ (if is_over_budget task g
          then finished denied (some budget_code) e (new_call role tool task g)
          else new_call role tool task g)
        ∷ [];
}

-- `_allowlist.get(agent_role, set())`
unfoldable pub granted : Text → Gateway → List Text
granted role g = elim (find (λ e. text_eq e.0 role) g.allowlist) [ none ↦ [] | some e ↦ e.1 ]

unfoldable pub is_permitted : Text → Text → Gateway → Bool
unfolding granted
is_permitted role tool g = any (text_eq tool) (granted role g) && any (text_eq tool) g.tools

-- What the v2 sink does with an envelope.
pub data SinkAnswer : Type 0 where
  recorded conflicts not_persisted sink_raised sink_cancelled : SinkAnswer

unfoldable pub add_code : Text → Call → Call
add_code code c = record c {
  observability_error_codes =
      if any (text_eq code) c.observability_error_codes
      then c.observability_error_codes
      else c.observability_error_codes ++ code ∷ [];
}

-- `_add_observability_error`
unfoldable pub add_observability_error : ℕ → Text → Gateway → Gateway
unfolding add_code
add_observability_error k code g = record g {
  calls = update_where (λ c. c.id == k) (add_code code) g.calls;
}

abbrev pub conflict_code : Text
conflict_code = codes "INVOCATION_ID_CONFLICT"

abbrev pub persist_code : Text
persist_code = codes "INVOCATION_AUDIT_PERSIST_FAILED"

-- The code is recorded, and the error is raised if the sink was bound fail-closed.
unfoldable pub note_failure :
    (fail_closed : Bool) → ℕ → Text → Error → Exec Error Gateway (Unit {0})
unfolding add_observability_error
note_failure fail_closed k code e g =
    (if fail_closed then err e else ok tt, add_observability_error k code g)

-- `_emit_invocation_event` with a v2 sink.
unfoldable pub emit : (fail_closed : Bool) → SinkAnswer → Bool → ℕ → Exec Error Gateway (Unit {0})
unfolding note_failure
emit fail_closed answer false k = note_failure fail_closed k persist_code audit_persist_failed
emit fail_closed recorded true k = pure tt
emit fail_closed conflicts true k = note_failure fail_closed k conflict_code identity_conflict
emit fail_closed not_persisted true k = note_failure fail_closed k persist_code audit_persist_failed
emit fail_closed sink_raised true k = note_failure fail_closed k persist_code audit_persist_failed
emit fail_closed sink_cancelled true k = raise call_cancelled

-- How a tool ends; the code of an exception is what `safe_error_code` makes of it.
pub data ToolEnd {ℓ} (A : Type ℓ) : Type ℓ where
  gives : A → ToolEnd A
  throws : Text → ToolEnd A
  is_cancelled : ToolEnd A

unfoldable pub final_status {ℓ} : {A : Type ℓ} → ToolEnd A → CallStatus
final_status (gives a) = success
final_status (throws code) = failed
final_status is_cancelled = cancelled

unfoldable pub final_code {ℓ} : {A : Type ℓ} → ToolEnd A → Option Text
final_code (gives a) = none
final_code (throws code) = some code
final_code is_cancelled = some (codes "TOOL_CALL_CANCELLED")

-- `contextlib.suppress` of the two errors of the ledger.
unfoldable pub suppress : Error → Exec Error Gateway (Unit {0})
suppress identity_conflict = pure tt
suppress audit_persist_failed = pure tt
suppress e = raise e

module _ {A : Type 0} (fail_closed : Bool) (answer : SinkAnswer) (e : Envelope) where
  -- What `invoke` does with the tool's end, once the record is finished.
  unfoldable pub deliver : ℕ → ToolEnd A → Exec Error Gateway A
  unfolding emit suppress
  deliver k (gives a) = emit fail_closed answer e.built k >> pure a
  deliver k (throws code) = emit fail_closed answer e.built k >> raise (tool_raised code)
  deliver k is_cancelled =
      handle (emit fail_closed answer e.built k) (λ _. pure tt) suppress >> raise call_cancelled

  -- A call that is refused: its record is finished, and the error is raised after the event.
  unfoldable pub refuse : ℕ → Error → Exec Error Gateway A
  unfolding emit
  refuse k error = emit fail_closed answer e.built k >> raise error

  unfoldable pub run_tool : (Gateway → ToolEnd A) → ℕ → Exec Error Gateway A
  unfolding finish deliver final_status final_code
  run_tool tool_end k g =
      deliver k (tool_end g) (finish k (final_status (tool_end g)) (final_code (tool_end g)) e g)

  unfoldable pub deny : ℕ → Exec Error Gateway A
  unfolding finish refuse
  deny k g = refuse k tool_call_denied (finish k denied (some (codes "TOOL_CALL_DENIED")) e g)

  -- `invoke`
  unfoldable pub invoke : (Gateway → ToolEnd A) → Text → Text → Option Text → Exec Error Gateway A
  unfolding resolve_task reserve is_over_budget is_permitted run_tool deny refuse
  invoke tool_end role tool task g =
      let scope : Text = resolve_task role task in
      let k : ℕ = length g.calls in
      let g1 : Gateway = reserve role tool scope e g in
      (if is_over_budget scope g
          then refuse k budget_exceeded
          else if is_permitted role tool g1
          then run_tool tool_end k
          else deny k)
        g1
