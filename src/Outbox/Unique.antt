-- ===== src/Outbox/Unique.antt =====
-- The unique key on invocations (`uq_telemetry_outbox_invocation_id`, infrastructure/postgres/models.py).
use creditlens.Base.{
  ℕ, ◌≡◌, refl, Bool, true, false, none, [], ◌∷◌, ◌==◌, find, update_where, if◌then◌else◌, arith,
}
use creditlens.Outbox.Row.{Row, Table}

-- No two rows have one invocation.
abbrev pub HasUniqueInvocations : Table → Type 0
HasUniqueInvocations [] = Unit
HasUniqueInvocations (r ∷ rs) =
    (find (λ x. x.invocation_id == r.invocation_id) rs ≡ none) × HasUniqueInvocations rs

no_invocation-update_where :
    (i : ℕ) (p : Row → Bool) (f : Row → Row) (table : Table)
    → ((x : Row) → (f x).invocation_id ≡ x.invocation_id)
    → find (λ x. x.invocation_id == i) table ≡ none
    → find (λ x. x.invocation_id == i) (update_where p f table) ≡ none
no_invocation-update_where i p f [] same h = refl
no_invocation-update_where i p f (x ∷ xs) same h =
    ground (arith, same x, no_invocation-update_where i p f xs same)

-- An update that keeps invocations keeps them unique.
pub HasUniqueInvocations-update_where :
    (p : Row → Bool) (f : Row → Row) (table : Table)
    → ((x : Row) → (f x).invocation_id ≡ x.invocation_id)
    → HasUniqueInvocations table
    → HasUniqueInvocations (update_where p f table)
HasUniqueInvocations-update_where p f [] same h = tt
HasUniqueInvocations-update_where p f (x ∷ xs) same h =
    (head_fresh (p x), HasUniqueInvocations-update_where p f xs same h.1)
  where
    head_fresh :
        (b : Bool)
        → find (λ y. y.invocation_id == (if b then f x else x).invocation_id) (update_where p f xs)
          ≡ none
    head_fresh true = rw (same x) (no_invocation-update_where x.invocation_id p f xs same h.0)
    head_fresh false = no_invocation-update_where x.invocation_id p f xs same h.0
