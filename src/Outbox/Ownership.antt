-- ===== src/Outbox/Ownership.antt =====
-- Which claims own their rows: what `claim_batch` hands out, and the claims that it overtakes.
use creditlens.Base.{
  ℕ, ◌≡◌, refl, ap, sym, ◌∙◌, Bool, true, false, none, some, List, [], ◌∷◌, map, ◌==◌, some_cancel,
  ==_refl, ==_iff, subst, if◌then◌else◌, arith, Bool-cases, inl, inr, All, All-imp, All-take,
  All-filter, filter, find, update_where, contains,
}
use creditlens.Outbox.Row.{Row, Table, Config, has_id}
use creditlens.Outbox.Claiming.{
  claim_due_entries, claim_entry, claim_batch, order_rows, insert_row, selectable,
}

-- The primary key.
abbrev pub HasUniqueIds : Table → Type 0
HasUniqueIds [] = Unit
HasUniqueIds (r ∷ rs) = (find (has_id r.id) rs ≡ none) × HasUniqueIds rs

-- The row is the one that its identifier finds.
abbrev pub IsFound : Table → Row → Type 0
IsFound table r = find (has_id r.id) table ≡ some r

IsFound-cons :
    (x : Row) (rs : Table)
    → find (has_id x.id) rs ≡ none
    → (r : Row) → IsFound rs r
    → IsFound (x ∷ rs) r
unfolding has_id
IsFound-cons x rs fresh r h = elim (Bool-cases (x.id == r.id)) [
  | inl same ↦
      absurd (cc (subst (λ i. find (has_id i) rs ≡ none) ((==_iff x.id r.id).0 same) fresh))
  | inr other ↦ rw other h
]

IsFound-head : (r : Row) (rs : Table) → IsFound (r ∷ rs) r
unfolding has_id
IsFound-head r rs = rw (==_refl r.id) refl

pub rows-IsFound : (table : Table) → HasUniqueIds table → All (IsFound table) table
rows-IsFound [] h = tt
rows-IsFound (r ∷ rs) h = (
  IsFound-head r rs,
  All-imp (IsFound rs) (IsFound (r ∷ rs)) rs (IsFound-cons r rs h.0) (rows-IsFound rs h.1),
)

module _ {ℓ} (P : Row → Type ℓ) where
  All-insert_row : (r : Row) (xs : Table) → P r → All P xs → All P (insert_row r xs)
  unfolding insert_row
  All-insert_row r [] p h = (p, tt)
  All-insert_row r (x ∷ xs) p h = ground (arith, All-insert_row r xs p h.1)

  All-order_rows : (xs : Table) → All P xs → All P (order_rows xs)
  unfolding order_rows
  All-order_rows [] h = tt
  All-order_rows (x ∷ xs) h = All-insert_row x (order_rows xs) h.0 (All-order_rows xs h.1)

  pub All-claim_due_entries :
      (cfg : Config) (locked : ℕ → Bool) (now n : ℕ) (table : Table)
      → All P table
      → All P (claim_due_entries cfg locked now n table)
  unfolding claim_due_entries
  All-claim_due_entries cfg locked now n table h =
      All-take P n (order_rows (filter (selectable cfg locked now) table)) (
        All-order_rows (filter (selectable cfg locked now) table)
          (All-filter P (selectable cfg locked now) table h))

-- An update that keeps identifiers is seen by a search for an identifier.
pub find-update_where :
    (i : ℕ) (p : Row → Bool) (f : Row → Row) (table : Table) (r : Row)
    → ((x : Row) → (f x).id ≡ x.id)
    → find (has_id i) table ≡ some r
    → find (has_id i) (update_where p f table) ≡ some (if p r then f r else r)
unfolding has_id
find-update_where i p f [] r same h = cc
find-update_where i p f (x ∷ xs) r same h =
    ground (arith, same x, find-update_where i p f xs r same)

pub id-claim_entry : (cfg : Config) (now : ℕ) (r : Row) → (claim_entry cfg now r).id ≡ r.id
unfolding claim_entry
id-claim_entry cfg now r = ground arith

abbrev pub ids : Table → List ℕ
ids entries = map (λ e. e.id) entries

-- A row whose identifier was selected is one of the selected rows.
selected-holds :
    (P : Row → Type 0) (table entries : Table) (r : Row)
    → All (λ e. IsFound table e × P e) entries
    → IsFound table r
    → contains r.id (ids entries) ≡ true
    → P r
selected-holds P table [] r h found c = cc
selected-holds P table (e ∷ es) r h found c = elim (Bool-cases (r.id == e.id)) [
  | inl same ↦
      subst P
        (some_cancel e r
          (sym h.0.0 ∙ ap (λ i. find (has_id i) table) (sym ((==_iff r.id e.id).0 same)) ∙ found))
        h.0.1
  | inr other ↦ selected-holds P table es r h.1 found (rw other at c)
]

filter-holds : (p : Row → Bool) (xs : Table) → All (λ r. p r ≡ true) (filter p xs)
filter-holds p [] = tt
filter-holds p (x ∷ xs) = elim (Bool-cases (p x)) [
  | inl px ↦ rw px (px, filter-holds p xs)
  | inr out ↦ rw out (filter-holds p xs)
]

pub All-and : (P Q : Row → Type 0) (xs : Table) → All P xs → All Q xs → All (λ r. P r × Q r) xs
All-and P Q [] h k = tt
All-and P Q (x ∷ xs) h k = ((h.0, k.0), All-and P Q xs h.1 k.1)

module _ (cfg : Config) (locked : ℕ → Bool) (now n : ℕ) (table : Table) where
  -- Every selected row is a row of the table, and due.
  pub entries-hold :
      HasUniqueIds table
      → All
          (λ r. IsFound table r × (selectable cfg locked now r ≡ true))
          (claim_due_entries cfg locked now n table)
  unfolding claim_due_entries
  entries-hold unique = All-take _ n (order_rows (filter (selectable cfg locked now) table)) (
      All-order_rows _ (filter (selectable cfg locked now) table) (
        All-and (IsFound table) (λ r. selectable cfg locked now r ≡ true)
          (filter (selectable cfg locked now) table)
          (All-filter (IsFound table) (selectable cfg locked now) table (rows-IsFound table unique))
          (filter-holds (selectable cfg locked now) table)))

  pub selected-selectable :
      HasUniqueIds table
      → (r : Row) → IsFound table r
      → contains r.id (ids (claim_due_entries cfg locked now n table)) ≡ true
      → selectable cfg locked now r ≡ true
  selected-selectable unique r =
      selected-holds (λ e. selectable cfg locked now e ≡ true) table
        (claim_due_entries cfg locked now n table) r (entries-hold unique)

module _ (cfg : Config) (locked : ℕ → Bool) (now n : ℕ) (table : Table) where
  -- What the table holds afterwards at the identifier of a row.
  pub find-claim_batch :
      (r : Row)
      → IsFound table r
      → find (has_id r.id) (claim_batch cfg locked now n table).0
        ≡ some (
            if contains r.id (ids (claim_due_entries cfg locked now n table))
            then claim_entry cfg now r
            else r)
  unfolding claim_batch
  find-claim_batch r found =
      find-update_where r.id _ (claim_entry cfg now) table r (id-claim_entry cfg now) found

find-update_where-none :
    (i : ℕ) (p : Row → Bool) (f : Row → Row) (table : Table)
    → ((x : Row) → (f x).id ≡ x.id)
    → find (has_id i) table ≡ none
    → find (has_id i) (update_where p f table) ≡ none
unfolding has_id
find-update_where-none i p f [] same h = refl
find-update_where-none i p f (x ∷ xs) same h =
    ground (arith, same x, find-update_where-none i p f xs same)

-- An update that keeps identifiers keeps them unique.
pub HasUniqueIds-update_where :
    (p : Row → Bool) (f : Row → Row) (table : Table)
    → ((x : Row) → (f x).id ≡ x.id)
    → HasUniqueIds table
    → HasUniqueIds (update_where p f table)
HasUniqueIds-update_where p f [] same h = tt
HasUniqueIds-update_where p f (x ∷ xs) same h =
    (head_fresh (p x), HasUniqueIds-update_where p f xs same h.1)
  where
    head_fresh : (b : Bool) → find (has_id (if b then f x else x).id) (update_where p f xs) ≡ none
    head_fresh true = rw (same x) (find-update_where-none x.id p f xs same h.0)
    head_fresh false = find-update_where-none x.id p f xs same h.0
