-- ===== src/Tools/Audit.antt =====
-- With a fail-closed sink, a call of `invoke` ends with its envelope recorded, or by an error of the
-- ledger or a cancellation.
use creditlens.Base.{
  ℕ, ◌≡◌, refl, Bool, true, false, inl, inr, ◌⊎◌, Option, some, if◌then◌else◌, length,
}
use creditlens.Base.Text.{Text, codes}
use creditlens.Base.Session.{
  Exec, ◌>>◌, Ends, Ends-bind, Ends-if, Ends-handle, Ends-map, pure, raise, handle,
}
use creditlens.Tools.Gateway.{
  Gateway, Envelope, ToolEnd, SinkAnswer, Error, budget_exceeded, tool_call_denied, call_cancelled,
  identity_conflict, audit_persist_failed, tool_raised, recorded, conflicts, not_persisted,
  sink_raised, sink_cancelled, gives, throws, is_cancelled, denied, final_status, final_code,
  is_over_budget, is_permitted, granted, resolve_task, reserve, finish, note_failure, emit,
  suppress, deliver, refuse, run_tool, deny, invoke,
}

-- The envelope was built, and the sink recorded it.
pub record IsAudited (answer : SinkAnswer) (e : Envelope) : Type 0 where
  pub answered : answer ≡ recorded
  pub built : e.built ≡ true

unfoldable pub is_audit_stop : Error → Bool
is_audit_stop identity_conflict = true
is_audit_stop audit_persist_failed = true
is_audit_stop call_cancelled = true
is_audit_stop _ = false

abbrev pub StopsOrAudited : SinkAnswer → Envelope → Error → Gateway → Type 0
StopsOrAudited answer e error h = (is_audit_stop error ≡ true) ⊎ IsAudited answer e

-- A call that returns: permitted, within the budget, with what the tool gave.
pub record Returned {A : Type 0} (answer : SinkAnswer) (e : Envelope)
    (tool_end : Gateway → ToolEnd A) (role tool : Text) (task : Option Text) (g : Gateway) (a : A)
    : Type 0 where
  pub audited : IsAudited answer e
  pub budget : is_over_budget (resolve_task role task) g ≡ false
  pub permitted : is_permitted role tool g ≡ true
  pub given : tool_end (reserve role tool (resolve_task role task) e g) ≡ gives a

-- A reservation leaves the permissions alone.
same_permission :
    (role tool task : Text) (e : Envelope) (g : Gateway)
    → is_permitted role tool (reserve role tool task e g) ≡ true
    → is_permitted role tool g ≡ true
unfolding is_permitted reserve granted
same_permission role tool task e g h = h

module _ (answer : SinkAnswer) (e : Envelope) where
  suppressed :
      (error : Error) (h : Gateway)
      → is_audit_stop error ≡ true
      → Ends (λ _ _. Unit {0}) (StopsOrAudited answer e) (suppress error h)
  unfolding suppress
  suppressed budget_exceeded h q = inl q
  suppressed tool_call_denied h q = inl q
  suppressed identity_conflict h q = tt
  suppressed audit_persist_failed h q = tt
  suppressed (tool_raised code) h q = inl q
  suppressed call_cancelled h q = inl q

  emit-IsAudited :
      (a : SinkAnswer) (built : Bool) (k : ℕ) (h : Gateway)
      → Ends
          (λ _ _. (a ≡ recorded) × (built ≡ true))
          (λ error _. is_audit_stop error ≡ true)
          (emit true a built k h)
  unfolding emit note_failure is_audit_stop
  emit-IsAudited a false k h = refl
  emit-IsAudited recorded true k h = (refl, refl)
  emit-IsAudited conflicts true k h = refl
  emit-IsAudited not_persisted true k h = refl
  emit-IsAudited sink_raised true k h = refl
  emit-IsAudited sink_cancelled true k h = refl

  module _ {A : Type 0} (P : A → Gateway → Type 0) where
    after_emit-StopsOrAudited :
        (k : ℕ) (rest : Exec Error Gateway A) (h : Gateway)
        → ((h' : Gateway) → IsAudited answer e → Ends P (StopsOrAudited answer e) (rest h'))
        → Ends P (StopsOrAudited answer e) ((emit true answer e.built k >> rest) h)
    after_emit-StopsOrAudited k rest h next =
        Ends-bind (λ _ _. IsAudited answer e) P (StopsOrAudited answer e)
          (emit true answer e.built k) (λ _. rest) h
          (Ends-map (λ _ _. (answer ≡ recorded) × (e.built ≡ true))
            (λ error _. is_audit_stop error ≡ true) (λ _ _. IsAudited answer e)
            (StopsOrAudited answer e) (emit true answer e.built k h)
            (λ _ _ p. record { answered = p.0; built = p.1 }) (λ _ _ q. inl q)
            (emit-IsAudited answer e.built k h))
          λ _ h1 audited. next h1 audited

    deliver-StopsOrAudited :
        (k : ℕ) (t : ToolEnd A) (h : Gateway)
        → ((a : A) (h' : Gateway) → t ≡ gives a → IsAudited answer e → P a h')
        → Ends P (StopsOrAudited answer e) (deliver true answer e k t h)
    unfolding deliver is_audit_stop
    deliver-StopsOrAudited k (gives a) h next =
        after_emit-StopsOrAudited k (pure a) h λ h1 audited. next a h1 refl audited
    deliver-StopsOrAudited k (throws code) h next =
        after_emit-StopsOrAudited k (raise (tool_raised code)) h λ h1 audited. inr audited
    deliver-StopsOrAudited k is_cancelled h next =
        Ends-bind (λ _ _. Unit {0}) P (StopsOrAudited answer e)
          (handle (emit true answer e.built k) (λ _. pure tt) suppress) (λ _. raise call_cancelled)
          h
          (Ends-handle (λ _ _. Unit {0}) (λ error _. is_audit_stop error ≡ true) (λ _ _. Unit {0})
            (StopsOrAudited answer e) (emit true answer e.built k) (λ _. pure tt) suppress h
            (Ends-map (λ _ _. (answer ≡ recorded) × (e.built ≡ true))
              (λ error _. is_audit_stop error ≡ true) (λ _ _. Unit {0})
              (λ error _. is_audit_stop error ≡ true) (emit true answer e.built k h) (λ _ _ p. tt)
              (λ _ _ q. q) (emit-IsAudited answer e.built k h))
            (λ _ h1 r1. tt) (λ error h1 q. suppressed error h1 q))
          λ _ h1 r1. inl refl

  module _ {A : Type 0} (tool_end : Gateway → ToolEnd A) (role tool : Text) (task : Option Text)
      (g : Gateway) where
    -- With a sink that is bound fail-closed, a call that returns has had its envelope recorded, was
    -- permitted and within the budget, and returns what the tool gave; a call that raises has had
    -- its envelope recorded too, unless it raises an error of the ledger or a cancellation.
    pub invoke-Returned :
        Ends
          (λ a h. Returned answer e tool_end role tool task g a)
          (StopsOrAudited answer e)
          (invoke true answer e tool_end role tool task g)
    unfolding invoke refuse deny run_tool
    invoke-Returned =
        let scope : Text = resolve_task role task in
        let k : ℕ = length g.calls in
        let g1 : Gateway = reserve role tool scope e g in
        let P : A → Gateway → Type 0 = λ a h. Returned answer e tool_end role tool task g a in
        Ends-if P (StopsOrAudited answer e) (is_over_budget scope g)
          (refuse true answer e k budget_exceeded)
          (if is_permitted role tool g1
            then run_tool true answer e tool_end k
            else deny true answer e k)
          g1
          (λ _. after_emit-StopsOrAudited P k (raise budget_exceeded) g1 λ h audited. inr audited)
          λ room.
            Ends-if P (StopsOrAudited answer e) (is_permitted role tool g1)
              (run_tool true answer e tool_end k) (deny true answer e k) g1
              (λ permitted.
                deliver-StopsOrAudited P k (tool_end g1)
                  (finish k (final_status (tool_end g1)) (final_code (tool_end g1)) e g1)
                  λ a h given audited. record {
                    audited = audited;
                    budget = room;
                    permitted = same_permission role tool scope e g permitted;
                    given = given;
                  })
              λ _.
                after_emit-StopsOrAudited P k (raise tool_call_denied)
                  (finish k denied (some (codes "TOOL_CALL_DENIED")) e g1) λ h audited. inr audited
