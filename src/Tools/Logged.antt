-- ===== src/Tools/Logged.antt =====
-- The record that a call of `invoke` (tools/gateway.py) adds, step by step.
use creditlens.Base.{
  ℕ, ◌<◌, ◌≡◌, refl, ◌∙◌, ap, Bool, true, false, Option, none, some, List, [], ◌∷◌, ◌++◌, ◌&&◌,
  ◌==◌, ==_iff, length, update_where, All, All-imp, arith,
}
use creditlens.Base.Text.{Text}
use creditlens.Tools.Gateway.{
  Call, CallStatus, in_flight, denied, Gateway, Envelope, is_in_flight, budget_code, is_over_budget,
  new_call, finished, finish, reserve, add_code, add_observability_error,
}
use creditlens.Tools.Budget.{Runs, reserves, notes, stays, then_step}

-- Every record has its number, below the count.
abbrev pub IsNumbered : Gateway → Type 0
IsNumbered g = All (λ c. c.id < length g.calls) g.calls

update_last :
    (p : Call → Bool) (f : Call → Call) (cs : List Call) (c : Call)
    → All (λ x. p x ≡ false) cs
    → p c ≡ true
    → update_where p f (cs ++ c ∷ []) ≡ cs ++ f c ∷ []
update_last p f [] c h own = rw own refl
update_last p f (x ∷ xs) c h own = rw (h.0, update_last p f xs c h.1 own) refl

below_differs : (a k : ℕ) → a < k → (a == k) ≡ false
below_differs a k h = ground arith

and_false : (a b : Bool) → a ≡ false → (a && b) ≡ false
and_false a b h = ground arith

module _ (role tool task : Text) (g : Gateway) where
  -- The gateway has one record more, the last one, of this call and with this status and error, and
  -- came there by its steps.
  pub record IsLogged (status : CallStatus) (code : Option Text) (h : Gateway) : Type 1 where
    pub call : Call
    pub appended : h.calls ≡ g.calls ++ call ∷ []
    pub numbered : call.id ≡ length g.calls
    pub of_role : call.agent_role ≡ role
    pub of_tool : call.tool_name ≡ tool
    pub of_task : call.task_id ≡ task
    pub has_status : call.status ≡ status
    pub has_code : call.error_code ≡ code
    pub steps : Runs g h

  pub reserve-IsLogged :
      (e : Envelope)
      → is_over_budget task g ≡ false
      → IsLogged in_flight none (reserve role tool task e g)
  unfolding reserve new_call
  reserve-IsLogged e free = record {
    call = new_call role tool task g;
    appended = rw free refl;
    numbered = refl;
    of_role = refl;
    of_tool = refl;
    of_task = refl;
    has_status = refl;
    has_code = refl;
    steps = then_step (stays g) (reserves role tool task e g);
  }

  pub refused-IsLogged :
      (e : Envelope)
      → is_over_budget task g ≡ true
      → IsLogged denied (some budget_code) (reserve role tool task e g)
  unfolding reserve new_call finished
  refused-IsLogged e over = record {
    call = finished denied (some budget_code) e (new_call role tool task g);
    appended = rw over refl;
    numbered = refl;
    of_role = refl;
    of_tool = refl;
    of_task = refl;
    has_status = refl;
    has_code = refl;
    steps = then_step (stays g) (reserves role tool task e g);
  }

  module _ (numbers : IsNumbered g) where
    earlier_differ : All (λ c. (c.id == length g.calls) ≡ false) g.calls
    earlier_differ =
        All-imp (λ c. c.id < length g.calls) (λ c. (c.id == length g.calls) ≡ false) g.calls
          (λ c h. below_differs c.id (length g.calls) h) numbers

    -- The observability errors of the call are no part of what is logged.
    pub noted-IsLogged :
        (status : CallStatus) (code : Option Text) (error : Text) (h : Gateway)
        → IsLogged status code h
        → IsLogged status code (add_observability_error (length g.calls) error h)
    unfolding add_observability_error add_code
    noted-IsLogged status code error h l = record {
      call = add_code error l.call;
      appended =
          ap (update_where (λ c. c.id == length g.calls) (add_code error)) l.appended
          ∙ update_last (λ c. c.id == length g.calls) (add_code error) g.calls l.call earlier_differ
              ((==_iff _ _).1 l.numbered);
      numbered = l.numbered;
      of_role = l.of_role;
      of_tool = l.of_tool;
      of_task = l.of_task;
      has_status = l.has_status;
      has_code = l.has_code;
      steps = then_step l.steps (notes (length g.calls) error h);
    }

    in_flight_own :
        (c : Call)
        → c.id ≡ length g.calls
        → c.status ≡ in_flight
        → (c.id == length g.calls && is_in_flight c.status) ≡ true
    unfolding is_in_flight
    in_flight_own c own flies = rw (flies, (==_iff c.id (length g.calls)).1 own) refl

    pub finish-IsLogged :
        (status : CallStatus) (code : Option Text) (e : Envelope) (h : Gateway)
        → Runs g (finish (length g.calls) status code e h)
        → IsLogged in_flight none h
        → IsLogged status code (finish (length g.calls) status code e h)
    unfolding finish finished
    finish-IsLogged status code e h ran l =
        let own : Call → Bool = λ c. c.id == length g.calls && is_in_flight c.status in
        record {
          call = finished status code e l.call;
          appended =
              ap (update_where own (finished status code e)) l.appended
              ∙ update_last own (finished status code e) g.calls l.call
                  (All-imp (λ c. (c.id == length g.calls) ≡ false) (λ c. own c ≡ false) g.calls
                    (λ c differs. and_false _ (is_in_flight c.status) differs) earlier_differ)
                  (in_flight_own l.call l.numbered l.has_status);
          numbered = l.numbered;
          of_role = l.of_role;
          of_tool = l.of_tool;
          of_task = l.of_task;
          has_status = refl;
          has_code = refl;
          steps = ran;
        }
