-- ===== src/Tools/Tests.antt =====
-- Calls on a small gateway, and the theorems on them.
use creditlens.Base.{ℕ, ◌≤◌, ◌≡◌, refl, true, some, [], ◌∷◌, length, filter}
use creditlens.Base.Text.{codes}
use creditlens.Base.Session.{Ends}
use creditlens.Tools.Gateway.{
  Gateway, Envelope, ToolEnd, gives, throws, recorded, not_persisted, invoke, reserve, finish,
  attempts, is_budget_code, final_code, final_status, budget_code, is_over_budget,
}
use creditlens.Tools.Budget.{Runs, reserves, ends, stays, then_step, is_started, Runs-started_le}
use creditlens.Tools.Logged.{IsNumbered}
use creditlens.Tools.Invoke.{Returns, Raises, invoke-Ends}
use creditlens.Tools.Audit.{Returned, StopsOrAudited, invoke-Returned}

abbrev a_gateway : Gateway
a_gateway = record {
  tools = codes "search" ∷ [];
  allowlist = (codes "policy", codes "search" ∷ []) ∷ [];
  max_calls_per_task = 1;
  calls = [];
}

abbrev an_envelope : Envelope
an_envelope = record { built = true; errors = [] }

abbrev finds : Gateway → ToolEnd ℕ
finds _ = gives 5

abbrev reserved : Gateway
reserved = reserve (codes "policy") (codes "search") (codes "t") an_envelope a_gateway

abbrev ended : Gateway
ended = finish 0 (final_status (finds reserved)) (final_code (finds reserved)) an_envelope reserved

abbrev reserved_again : Gateway
reserved_again = reserve (codes "policy") (codes "search") (codes "t") an_envelope ended

two_calls : Runs a_gateway reserved_again
unfolding is_budget_code final_code
two_calls =
    then_step
      (then_step
        (then_step (stays a_gateway)
          (reserves (codes "policy") (codes "search") (codes "t") an_envelope a_gateway))
        (ends 0 an_envelope (finds reserved) reserved refl))
      (reserves (codes "policy") (codes "search") (codes "t") an_envelope ended)

Runs-started_le_example : length (filter (is_started (codes "t")) reserved_again.calls) ≤ 1
Runs-started_le_example = Runs-started_le a_gateway reserved_again (codes "t") two_calls refl

-- The second reservation is refused.
second_refused : is_over_budget (codes "t") ended ≡ true
unfolding is_over_budget reserve finish final_status final_code
second_refused = refl

a_gateway-IsNumbered : IsNumbered a_gateway
a_gateway-IsNumbered = tt

invoke-Ends_example :
    Ends
      (Returns true not_persisted an_envelope finds
        (codes "policy")
        (codes "search")
        (some (codes "t"))
        a_gateway)
      (Raises true not_persisted an_envelope finds
        (codes "policy")
        (codes "search")
        (some (codes "t"))
        a_gateway)
      (invoke true not_persisted an_envelope finds
        (codes "policy")
        (codes "search")
        (some (codes "t"))
        a_gateway)
unfolding is_budget_code final_code
invoke-Ends_example =
    invoke-Ends true not_persisted an_envelope finds (codes "policy") (codes "search")
      (some (codes "t")) a_gateway a_gateway-IsNumbered (λ h. refl)

invoke-Returned_example :
    Ends
      (λ a h.
        Returned recorded an_envelope finds
          (codes "policy")
          (codes "search")
          (some (codes "t"))
          a_gateway
          a)
      (StopsOrAudited recorded an_envelope)
      (invoke true recorded an_envelope finds
        (codes "policy")
        (codes "search")
        (some (codes "t"))
        a_gateway)
invoke-Returned_example =
    invoke-Returned recorded an_envelope finds (codes "policy") (codes "search") (some (codes "t"))
      a_gateway

abbrev throws_budget_code : ToolEnd ℕ
throws_budget_code = throws budget_code

-- A call whose tool throws the gateway's own budget code is not counted.
budget_code_free :
    attempts
      (codes "t")
      (finish 0
        (final_status throws_budget_code)
        (final_code throws_budget_code)
        an_envelope
        reserved).calls
    ≡ 0
unfolding attempts reserve finish final_status final_code
budget_code_free = refl
