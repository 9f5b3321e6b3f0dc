-- ===== src/Tools/Budget.antt =====
-- Calls that interleave: a gateway goes on by the steps that calls take between their awaits, and no
-- task gets more tool runs than its budget.
use creditlens.Base.{
  ℕ, ◌+◌, ◌≤◌, ◌≡◌, refl, sym, ◌∙◌, subst, ap, Bool, true, false, Bool-cases, inl, inr, Option,
  some, List, [], ◌∷◌, ◌++◌, ◌&&◌, ◌||◌, not, ◌==◌, leb, if◌then◌else◌, length, filter,
  update_where, All, All-append, All-update_where, arith,
}
use creditlens.Base.Text.{Text, codes, text_eq, text_eq_sound}
use creditlens.Tools.Gateway.{
  Call, Gateway, CallStatus, Envelope, ToolEnd, denied, is_denied, is_in_flight, is_budget_code,
  counts, attempts, is_over_budget, new_call, finished, finish, reserve, add_code,
  add_observability_error, final_status, final_code, budget_code,
}

-- One step of one call. A tool that throws does not declare the gateway's own budget code.
pub data Step : Gateway → Gateway → Type 1 where
  reserves :
      (role tool task : Text) (e : Envelope) (g : Gateway) → Step g (reserve role tool task e g)
  denies :
      (k : ℕ) (e : Envelope) (g : Gateway)
      → Step g (finish k denied (some (codes "TOOL_CALL_DENIED")) e g)
  ends :
      {A : Type 0} (k : ℕ) (e : Envelope) (t : ToolEnd A) (g : Gateway)
      → is_budget_code (final_code t) ≡ false
      → Step g (finish k (final_status t) (final_code t) e g)
  notes : (k : ℕ) (code : Text) (g : Gateway) → Step g (add_observability_error k code g)

pub data Runs : Gateway → Gateway → Type 1 where
  stays : (g : Gateway) → Runs g g
  then_step : {g h i : Gateway} → Runs g h → Step h i → Runs g i

-- A call whose tool may have run: it was not refused.
unfoldable pub is_started : Text → Call → Bool
unfolding is_denied
is_started task c = text_eq c.task_id task && not (is_denied c.status)

abbrev IsClean : Call → Type 0
IsClean c = (is_denied c.status || not (is_budget_code c.error_code)) ≡ true

pub record IsInBudget (g : Gateway) : Type 0 where
  pub clean : All IsClean g.calls
  pub budget : (task : Text) → attempts task g.calls ≤ g.max_calls_per_task

attempts-append :
    (task : Text) (cs : List Call) (c : Call)
    → attempts task (cs ++ c ∷ []) ≡ attempts task cs + (if counts task c then 1 else 0)
unfolding attempts
attempts-append task [] c = ground arith
attempts-append task (x ∷ xs) c = ground (arith, attempts-append task xs c)

-- An update that leaves it alone which calls count.
attempts-update :
    (task : Text) (p : Call → Bool) (f : Call → Call) (cs : List Call)
    → ((x : Call) → p x ≡ true → IsClean x → counts task (f x) ≡ counts task x)
    → All IsClean cs
    → attempts task (update_where p f cs) ≡ attempts task cs
unfolding attempts
attempts-update task p f [] k h = refl
attempts-update task p f (x ∷ xs) k h = ground (arith, k x, attempts-update task p f xs k h.1)

started_le :
    (task : Text) (cs : List Call)
    → All IsClean cs
    → length (filter (is_started task) cs) ≤ attempts task cs
unfolding attempts counts is_started
started_le task [] h = omega arith
started_le task (c ∷ cs) h = ground (arith, started_le task cs h.1)

finish-IsInBudget :
    (k : ℕ) (status : CallStatus) (code : Option Text) (e : Envelope) (g : Gateway)
    → is_budget_code code ≡ false
    → IsInBudget g
    → IsInBudget (finish k status code e g)
unfolding finish finished counts is_in_flight is_denied
finish-IsInBudget k status code e g ok h = record {
  clean =
      All-update_where IsClean (λ c. c.id == k && is_in_flight c.status) (finished status code e)
        g.calls (λ x p c. ground (arith, ok)) h.clean;
  budget = λ task.
      subst (λ n. n ≤ g.max_calls_per_task)
        (sym (
          attempts-update task (λ c. c.id == k && is_in_flight c.status) (finished status code e)
            g.calls (λ x p c. ground (arith, ok)) h.clean))
        (h.budget task);
}

-- The attempts of any task, after one more call of a task that has room.
room :
    (limit : ℕ) (task other : Text) (g : Gateway) (c : Call)
    → c.task_id ≡ task
    → leb limit (attempts task g.calls) ≡ false
    → attempts other g.calls ≤ limit
    → attempts other g.calls + (if counts other c then 1 else 0) ≤ limit
unfolding counts
room limit task other g c same free h = elim (Bool-cases (text_eq c.task_id other)) [
  | inl mine ↦
      let here : attempts other g.calls ≡ attempts task g.calls =
        ap (λ t. attempts t g.calls) (sym (sym same ∙ text_eq_sound c.task_id other mine)) in
      ground (arith, here, free, h)
  | inr theirs ↦ rw theirs (omega (arith, h))
]

append-IsInBudget :
    (c : Call) (g : Gateway)
    → IsClean c
    → ((other : Text)
        → attempts other g.calls + (if counts other c then 1 else 0) ≤ g.max_calls_per_task)
    → IsInBudget g
    → IsInBudget (record g { calls = g.calls ++ c ∷ [] })
append-IsInBudget c g ok fits h = record {
  clean = All-append IsClean g.calls (c ∷ []) h.clean (ok, tt);
  budget = λ other.
      subst (λ n. n ≤ g.max_calls_per_task) (sym (attempts-append other g.calls c)) (fits other);
}

-- A refusal for want of budget does not count.
refused_fits :
    (role tool task other : Text) (e : Envelope) (g : Gateway)
    → IsInBudget g
    → attempts other g.calls
        + (if counts other (finished denied (some budget_code) e (new_call role tool task g))
            then 1
            else 0)
      ≤ g.max_calls_per_task
unfolding counts finished is_budget_code
refused_fits role tool task other e g h = ground (arith, h.budget other)

reserve-IsInBudget :
    (role tool task : Text) (e : Envelope) (g : Gateway)
    → IsInBudget g
    → IsInBudget (reserve role tool task e g)
unfolding reserve finished new_call is_denied is_budget_code is_over_budget
reserve-IsInBudget role tool task e g h = elim (Bool-cases (is_over_budget task g)) [
  | inl over ↦ rw over (
      append-IsInBudget (finished denied (some budget_code) e (new_call role tool task g)) g refl
        (λ other. refused_fits role tool task other e g h) h)
  | inr free ↦ rw free (
      append-IsInBudget (new_call role tool task g) g refl
        (λ other.
          room g.max_calls_per_task task other g (new_call role tool task g) refl free
            (h.budget other))
        h)
]

add_observability_error-IsInBudget :
    (k : ℕ) (code : Text) (g : Gateway)
    → IsInBudget g
    → IsInBudget (add_observability_error k code g)
unfolding add_observability_error add_code counts
add_observability_error-IsInBudget k code g h = record {
  clean = All-update_where IsClean (λ c. c.id == k) (add_code code) g.calls (λ x p c. c) h.clean;
  budget = λ task.
      subst (λ n. n ≤ g.max_calls_per_task)
        (sym
          (attempts-update task (λ c. c.id == k) (add_code code) g.calls (λ x p c. refl) h.clean))
        (h.budget task);
}

Step-IsInBudget : {g h : Gateway} → Step g h → IsInBudget g → IsInBudget h
unfolding is_budget_code
Step-IsInBudget (reserves role tool task e g) b = reserve-IsInBudget role tool task e g b
Step-IsInBudget (denies k e g) b = finish-IsInBudget k denied _ e g refl b
Step-IsInBudget (ends k e t g ok) b = finish-IsInBudget k (final_status t) (final_code t) e g ok b
Step-IsInBudget (notes k code g) b = add_observability_error-IsInBudget k code g b

Step-max : {g h : Gateway} → Step g h → h.max_calls_per_task ≡ g.max_calls_per_task
unfolding reserve finish add_observability_error
Step-max (reserves role tool task e g) = refl
Step-max (denies k e g) = refl
Step-max (ends k e t g ok) = refl
Step-max (notes k code g) = refl

Runs-IsInBudget : {g h : Gateway} → Runs g h → IsInBudget g → IsInBudget h
Runs-IsInBudget (stays g) b = b
Runs-IsInBudget (then_step r s) b = Step-IsInBudget s (Runs-IsInBudget r b)

Runs-max : {g h : Gateway} → Runs g h → h.max_calls_per_task ≡ g.max_calls_per_task
Runs-max (stays g) = refl
Runs-max (then_step r s) = Step-max s ∙ Runs-max r

-- However the calls interleave, from a gateway without calls, the calls of a task that were not
-- refused, in flight or ended, are at most its budget, if no tool's exception declares the code
-- BUDGET_EXCEEDED.
pub Runs-started_le :
    (g h : Gateway) (task : Text)
    → Runs g h
    → g.calls ≡ []
    → length (filter (is_started task) h.calls) ≤ g.max_calls_per_task
unfolding attempts
Runs-started_le g h task r none_yet =
    let start : IsInBudget g = record {
      clean = subst (All IsClean) (sym none_yet) tt;
      budget = λ t. subst (λ cs. attempts t cs ≤ g.max_calls_per_task) (sym none_yet) (omega arith);
    } in
    let b : IsInBudget h = Runs-IsInBudget r start in
    omega (arith, started_le task h.calls b.clean, b.budget task, Runs-max r)
