-- ===== src/Ledger/Tests.antt =====
-- Two calls that record one envelope.
use creditlens.Base.{
  find, ◌≡◌, refl, ap, subst, true, false, Option, none, some, [], ◌∷◌, ◌++◌, if◌then◌else◌, arith,
}
use creditlens.Base.Text.{Text, codes, text_eq}
use creditlens.Base.Result.{ok, ok_cancel}
use creditlens.Outbox.Row.{Row, Config, Status}
use creditlens.Ledger.Tables.{
  is_of_invocation, row_of_invocation, InvocationEnvelope, InvocationWriter, InvocationRecordResult,
  EnvelopeCodec, Ledger,
}
use creditlens.Ledger.Writer.{with_context, record_of, outbox_of, record_invocation}
use creditlens.Ledger.Recorded.{IsStored, record_invocation-IsStored}
use creditlens.Ledger.Sound.{IsSound, record_invocation-IsSound}
use creditlens.Ledger.Again.{SameDelivery, read_later, record_invocation-again}

abbrev call : InvocationEnvelope
call = record {
  contract_version = codes "invocation_v2";
  invocation_id = 7;
  kind = codes "TOOL";
  name = codes "search";
  provider = none;
  model = none;
  version = some (codes "1");
  actor_role = none;
  task_id = some (codes "t");
  status = codes "SUCCESS";
  ended_at = 90;
  content = 5;
}

abbrev resolved_call : InvocationEnvelope
resolved_call = record call { actor_role = some (codes "risk") }

abbrev json : InvocationEnvelope → Text
json e = e.invocation_id ∷ e.ended_at ∷ e.content ∷ e.name

abbrev load_call : Text → Option InvocationEnvelope
load_call t = if text_eq t (json resolved_call) then some resolved_call else none

abbrev codec : EnvelopeCodec
codec = record {
  dump = json;
  load = load_call;
  revalidate = λ e. some e;
  hash_envelope = λ e. codes "h" ++ json e;
}

abbrev writer : InvocationWriter
writer = record {
  tenant_id = 1;
  case_id = 2;
  run_id = 3;
  actor_role = some (codes "risk");
  task_id = none;
  sqlite = false;
}

abbrev limits : Config
limits = record {
  max_attempts = 3;
  lease = 60;
  base_backoff = 5;
  max_backoff = 40;
  tenant = none;
  postgresql = true;
}

abbrev no_calls : Ledger
no_calls = record { invocations = []; outbox = [] }

abbrev first_result : InvocationRecordResult
first_result = record {
  record_row = record_of codec writer resolved_call;
  outbox_row = outbox_of codec writer 10 100 resolved_call;
  envelope = resolved_call;
  created = true;
}

abbrev one_call : Ledger
one_call = record {
  invocations = record_of codec writer resolved_call ∷ [];
  outbox = outbox_of codec writer 10 100 resolved_call ∷ [];
}

record-call :
    record_invocation codec writer 10 100 (λ d. d) call no_calls ≡ (ok first_result, one_call)
unfolding record_invocation
record-call = refl

reads_back :
    (x : InvocationEnvelope) → with_context codec writer call ≡ ok x → load_call (json x) ≡ some x
unfolding with_context
reads_back x h = subst (λ y. load_call (json y) ≡ some y) (ok_cancel resolved_call x h) refl

-- The row of the outbox after the worker has delivered it.
abbrev delivered_row : Row
delivered_row = record (outbox_of codec writer 10 100 resolved_call) {
  status = Status.delivered;
  attempts = 1;
  delivered_at = some 150;
}

abbrev delivered_call : Ledger
delivered_call = record one_call { outbox = delivered_row ∷ [] }

call_found : find (is_of_invocation 7) delivered_call.invocations ≡ some first_result.record_row
unfolding is_of_invocation record_of
call_found = refl

delivery_found : find (row_of_invocation 7) delivered_call.outbox ≡ some delivered_row
unfolding row_of_invocation outbox_of
delivery_found = refl

same_delivery : SameDelivery codec writer first_result.outbox_row delivered_row
same_delivery = record { tenant = refl; case = refl; run = refl; invocation = refl; topic = refl }

record_invocation-again_example :
    record_invocation codec writer 11 200 (λ d. d) call delivered_call
    ≡ (ok (read_later codec writer first_result delivered_row), delivered_call)
record_invocation-again_example =
    record_invocation-again codec writer 10 100 11 200 (λ d. d) (λ d. d) call no_calls
      delivered_call first_result delivered_row reads_back (ap (λ o. o.0) record-call) call_found
      delivery_found same_delivery

record_invocation-IsStored_example :
    IsStored codec writer first_result
      (record_invocation codec writer 10 100 (λ d. d) call no_calls).1
record_invocation-IsStored_example =
    record_invocation-IsStored codec writer 10 100 (λ d. d) call no_calls first_result
      (ap (λ o. o.0) record-call)

no_calls-IsSound : IsSound limits no_calls
no_calls-IsSound = record { backed = tt; distinct_rows = tt; distinct_invocations = tt }

record_invocation-IsSound_example :
    IsSound limits (record_invocation codec writer 10 100 (λ d. d) call no_calls).1
record_invocation-IsSound_example =
    record_invocation-IsSound codec writer limits 10 100 (λ d. d) call no_calls (omega arith)
      (λ x h. h) no_calls-IsSound
