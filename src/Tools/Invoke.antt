-- ===== src/Tools/Invoke.antt =====
-- One call of `invoke` (tools/gateway.py): what it logs, and when it runs the tool.
use creditlens.Base.{
  ℕ, ◌≡◌, ◌⊎◌, refl, Bool, true, false, Bool-cases, inl, inr, Option, some, if◌then◌else◌, length,
}
use creditlens.Base.Text.{Text, codes}
use creditlens.Base.Session.{
  Exec, ◌>>◌, Ends, Ends-bind, Ends-if, Ends-handle, Ends-map, pure, raise, handle,
}
use creditlens.Tools.Gateway.{
  CallStatus, Gateway, Envelope, ToolEnd, SinkAnswer, Error, budget_exceeded, tool_call_denied,
  call_cancelled, identity_conflict, audit_persist_failed, tool_raised, recorded, conflicts,
  not_persisted, sink_raised, sink_cancelled, gives, throws, is_cancelled, denied, is_budget_code,
  final_status, final_code, is_over_budget, is_permitted, resolve_task, reserve, finish,
  note_failure, emit, suppress, deliver, conflict_code, persist_code, budget_code, refuse, run_tool,
  deny, invoke, add_observability_error,
}
use creditlens.Tools.Budget.{denies, ends, then_step}
use creditlens.Tools.Logged.{
  IsNumbered, IsLogged, reserve-IsLogged, refused-IsLogged, noted-IsLogged, finish-IsLogged,
}

-- What holds of the gateway and does not depend on the observability errors of the call is kept by
-- all that follows the end of the tool.
module _ (fail_closed : Bool) (answer : SinkAnswer) (e : Envelope) (k : ℕ)
    (Holds : Gateway → Type 1)
    (noted : (code : Text) (h : Gateway) → Holds h → Holds (add_observability_error k code h)) where
  note_failure-Holds :
      (code : Text) (error : Error) (h : Gateway)
      → Holds h
      → Ends (λ _ s. Holds s) (λ _ s. Holds s) (note_failure fail_closed k code error h)
  unfolding note_failure
  note_failure-Holds code error h r = elim (Bool-cases fail_closed) [
    | inl closed ↦ rw closed (noted code h r)
    | inr lenient ↦ rw lenient (noted code h r)
  ]

  emit-Holds :
      (a : SinkAnswer) (built : Bool) (h : Gateway)
      → Holds h
      → Ends (λ _ s. Holds s) (λ _ s. Holds s) (emit fail_closed a built k h)
  unfolding emit
  emit-Holds a false h r = note_failure-Holds persist_code audit_persist_failed h r
  emit-Holds recorded true h r = r
  emit-Holds conflicts true h r = note_failure-Holds conflict_code identity_conflict h r
  emit-Holds not_persisted true h r = note_failure-Holds persist_code audit_persist_failed h r
  emit-Holds sink_raised true h r = note_failure-Holds persist_code audit_persist_failed h r
  emit-Holds sink_cancelled true h r = r

  suppress-Holds :
      (error : Error) (h : Gateway)
      → Holds h
      → Ends (λ _ s. Holds s) (λ _ s. Holds s) (suppress error h)
  unfolding suppress
  suppress-Holds budget_exceeded h r = r
  suppress-Holds tool_call_denied h r = r
  suppress-Holds identity_conflict h r = r
  suppress-Holds audit_persist_failed h r = r
  suppress-Holds (tool_raised code) h r = r
  suppress-Holds call_cancelled h r = r

  module _ {A : Type 0} (Gives : A → Gateway → Type 1) where
    after_emit-Holds :
        (rest : Exec Error Gateway A) (h : Gateway)
        → ((s : Gateway) → Holds s → Ends Gives (λ _ t. Holds t) (rest s))
        → Holds h
        → Ends Gives (λ _ s. Holds s) ((emit fail_closed answer e.built k >> rest) h)
    after_emit-Holds rest h next r =
        Ends-bind (λ _ s. Holds s) Gives (λ _ s. Holds s) (emit fail_closed answer e.built k)
          (λ _. rest) h (emit-Holds answer e.built h r) λ _ s q. next s q

    refuse-Holds :
        (error : Error) (h : Gateway)
        → Holds h
        → Ends Gives (λ _ s. Holds s) (refuse fail_closed answer e k error h)
    unfolding refuse
    refuse-Holds error h r = after_emit-Holds (raise error) h (λ s q. q) r

    deliver-Holds :
        (t : ToolEnd A) (h : Gateway)
        → ((a : A) (s : Gateway) → t ≡ gives a → Holds s → Gives a s)
        → Holds h
        → Ends Gives (λ _ s. Holds s) (deliver fail_closed answer e k t h)
    unfolding deliver
    deliver-Holds (gives a) h into r = after_emit-Holds (pure a) h (λ s q. into a s refl q) r
    deliver-Holds (throws code) h into r =
        after_emit-Holds (raise (tool_raised code)) h (λ s q. q) r
    deliver-Holds is_cancelled h into r =
        Ends-bind (λ _ s. Holds s) Gives (λ _ s. Holds s)
          (handle (emit fail_closed answer e.built k) (λ _. pure tt) suppress)
          (λ _. raise call_cancelled) h
          (Ends-handle (λ _ s. Holds s) (λ _ s. Holds s) (λ _ s. Holds s) (λ _ s. Holds s)
            (emit fail_closed answer e.built k) (λ _. pure tt) suppress h
            (emit-Holds answer e.built h r) (λ _ s q. q) λ error s q. suppress-Holds error s q)
          λ _ s q. q

module _ (fail_closed : Bool) (answer : SinkAnswer) (e : Envelope) {A : Type 0}
    (tool_end : Gateway → ToolEnd A) (role tool : Text) (task : Option Text) (g : Gateway) where
  -- The task that the call counts for, and the end of the tool, if it runs.
  abbrev pub scope : Text
  scope = resolve_task role task

  abbrev pub tool_result : ToolEnd A
  tool_result = tool_end (reserve role tool scope e g)

  -- The tool ran, and the record has its end.
  abbrev pub HasRun : Gateway → Type 1
  HasRun h =
      (is_over_budget scope g ≡ false)
      × (is_permitted role tool g ≡ true)
      × IsLogged role tool scope g (final_status tool_result) (final_code tool_result) h

  -- The call was refused, and the record says so.
  abbrev pub WasRefused : Gateway → Type 1
  WasRefused h =
      ((is_over_budget scope g ≡ true) × IsLogged role tool scope g denied (some budget_code) h)
      ⊎ ((is_over_budget scope g ≡ false)
          × (is_permitted role tool g ≡ false)
          × IsLogged role tool scope g denied (some (codes "TOOL_CALL_DENIED")) h)

  abbrev pub Returns : A → Gateway → Type 1
  Returns a h = (tool_result ≡ gives a) × HasRun h

  abbrev pub Raises : Error → Gateway → Type 1
  Raises error h = WasRefused h ⊎ HasRun h

  -- A call that no other call interleaves adds one record, the last one, of its role, tool and task,
  -- by the steps of the gateway. It returns only what the tool gave, within the budget and with the
  -- permission, and the record then has the end of the tool. If it raises, the record has the end of
  -- the tool, which ran within the budget and with the permission, or is denied: with BUDGET_EXCEEDED
  -- over the budget, and with TOOL_CALL_DENIED without the permission. Holds whatever the sink does,
  -- where the records of the gateway are numbered and the tool's exception has not the code
  -- BUDGET_EXCEEDED.
  pub invoke-Ends :
      IsNumbered g
      → ((h : Gateway) → is_budget_code (final_code (tool_end h)) ≡ false)
      → Ends Returns Raises (invoke fail_closed answer e tool_end role tool task g)
  unfolding invoke run_tool deny is_permitted reserve
  invoke-Ends numbers own_code =
      let k : ℕ = length g.calls in
      let g1 : Gateway = reserve role tool scope e g in
      let Logs : CallStatus → Option Text → Gateway → Type 1 = IsLogged role tool scope g in
      let noted = noted-IsLogged role tool scope g numbers in
      Ends-if Returns Raises (is_over_budget scope g)
        (refuse fail_closed answer e k budget_exceeded)
        (if is_permitted role tool g1
          then run_tool fail_closed answer e tool_end k
          else deny fail_closed answer e k)
        g1
        (λ over.
          Ends-map Returns (λ _ h. Logs denied (some budget_code) h) Returns Raises _ (λ a s q. q)
            (λ _ s q. inl (inl (over, q)))
            (refuse-Holds fail_closed answer e k (Logs denied (some budget_code))
              (noted denied (some budget_code)) Returns budget_exceeded g1
              (refused-IsLogged role tool scope g e over)))
        λ free.
          Ends-if Returns Raises (is_permitted role tool g1)
            (run_tool fail_closed answer e tool_end k) (deny fail_closed answer e k) g1
            (λ allowed.
              let status = final_status tool_result in
              let code = final_code tool_result in
              let start = reserve-IsLogged role tool scope g e free in
              Ends-map Returns (λ _ h. Logs status code h) Returns Raises _ (λ a s q. q)
                (λ _ s q. inr (free, allowed, q))
                (deliver-Holds fail_closed answer e k (Logs status code) (noted status code) Returns
                  tool_result (finish k status code e g1) (λ a s same q. (same, (free, allowed, q)))
                  (finish-IsLogged role tool scope g numbers status code e g1
                    (then_step start.steps (ends k e tool_result g1 (own_code g1))) start)))
            λ lacking.
              let code : Option Text = some (codes "TOOL_CALL_DENIED") in
              let start = reserve-IsLogged role tool scope g e free in
              Ends-map Returns (λ _ h. Logs denied code h) Returns Raises _ (λ a s q. q)
                (λ _ s q. inl (inr (free, lacking, q)))
                (refuse-Holds fail_closed answer e k (Logs denied code) (noted denied code) Returns
                  tool_call_denied (finish k denied code e g1)
                  (finish-IsLogged role tool scope g numbers denied code e g1
                    (then_step start.steps (denies k e g1)) start))
