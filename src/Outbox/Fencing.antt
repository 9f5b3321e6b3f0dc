-- ===== src/Outbox/Fencing.antt =====
-- Every claim that is handed out owns its row, and has overtaken each older claim of that row.
use creditlens.Base.{
  ℕ, ◌+◌, ◌≡◌, refl, sym, subst, Bool, true, false, Option, none, some, List, [], ◌∷◌, ==_refl,
  ==_iff, arith, Bool-cases, inl, inr, All, All-imp, find, find-holds, contains,
}
use creditlens.Outbox.Row.{Row, Table, Config, Claim, is_processing, has_id}
use creditlens.Outbox.Claiming.{
  claim_due_entries, claim_entry, claims_of, claim_batch, is_exhausted,
}
use creditlens.Outbox.Delivery.{owns_claim, owns_row, mark_delivered, mark_failure, lost_lease}
use creditlens.Outbox.Ownership.{
  HasUniqueIds, IsFound, ids, All-and, entries-hold, find-claim_batch,
}

-- The claim that the loop makes of a row.
abbrev claim_of : Row → Claim
claim_of r = record {
  outbox_id = r.id;
  invocation_id = r.invocation_id;
  attempt = r.attempts + 1;
  reclaimed = is_processing r.status;
}

-- A row of the batch that has an attempt left is owned by its claim.
entry-owns :
    (cfg : Config) (now : ℕ) (r : Row)
    → is_exhausted cfg r ≡ false
    → owns_row (claim_entry cfg now r) (claim_of r) ≡ true
unfolding claim_entry owns_row
entry-owns cfg now r left = rw left (ground arith)

-- A list of claims, in the order of the selected rows that have an attempt left.
claims-All :
    (Q : Claim → Type 0) (cfg : Config) (entries : Table)
    → All (λ r. is_exhausted cfg r ≡ false → Q (claim_of r)) entries
    → All Q (claims_of cfg entries)
unfolding claims_of
claims-All Q cfg [] h = tt
claims-All Q cfg (r ∷ rs) h = elim (Bool-cases (is_exhausted cfg r)) [
  | inl out ↦ rw out (claims-All Q cfg rs h.1)
  | inr left ↦ rw left (h.0 left, claims-All Q cfg rs h.1)
]

-- The rows that were selected, seen from the rows themselves.
listed : (entries : Table) → All (λ r. contains r.id (ids entries) ≡ true) entries
listed [] = tt
listed (r ∷ rs) = (
  rw (==_refl r.id) refl,
  All-imp (λ x. contains x.id (ids rs) ≡ true) (λ x. contains x.id (ids (r ∷ rs)) ≡ true) rs
      (λ x h. ground arith) (listed rs),
)

module _ (cfg : Config) (locked : ℕ → Bool) (now n : ℕ) (table : Table) where
  abbrev after : Table
  after = (claim_batch cfg locked now n table).0

  selected-owned :
      (r : Row)
      → IsFound table r × (contains r.id (ids (claim_due_entries cfg locked now n table)) ≡ true)
      → is_exhausted cfg r ≡ false
      → owns_claim (find (has_id r.id) after) (claim_of r) ≡ true
  unfolding owns_claim
  selected-owned r (found, chosen) left =
      rw (find-claim_batch cfg locked now n table r found, chosen) (entry-owns cfg now r left)

  -- Every claim of a batch owns its row in the table that the batch leaves.
  pub claim_batch-owns :
      HasUniqueIds table
      → All
          (λ c. owns_claim (find (has_id c.outbox_id) after) c ≡ true)
          (claim_batch cfg locked now n table).1.claims
  unfolding claim_batch
  claim_batch-owns unique =
      claims-All (λ c. owns_claim (find (has_id c.outbox_id) after) c ≡ true) cfg
        (claim_due_entries cfg locked now n table)
        (All-imp _ _ (claim_due_entries cfg locked now n table) selected-owned (
          All-and _ _ (claim_due_entries cfg locked now n table)
            (All-imp _ _ (claim_due_entries cfg locked now n table) (λ r h. h.0)
              (entries-hold cfg locked now n table unique))
            (listed (claim_due_entries cfg locked now n table))))

overtaken :
    (cfg : Config) (now : ℕ) (r : Row) (c : Claim)
    → owns_row r c ≡ true
    → owns_row (claim_entry cfg now r) c ≡ false
unfolding claim_entry owns_row
overtaken cfg now r c own = ground arith

module _ (cfg : Config) (locked : ℕ → Bool) (now n : ℕ) (table : Table) (c : Claim) where
  abbrev later : Table
  later = (claim_batch cfg locked now n table).0

  fenced :
      (o : Option Row)
      → find (has_id c.outbox_id) table ≡ o
      → owns_claim o c ≡ true
      → contains c.outbox_id (ids (claim_due_entries cfg locked now n table)) ≡ true
      → owns_claim (find (has_id c.outbox_id) later) c ≡ false
  unfolding owns_claim
  fenced none e own chosen = cc
  fenced (some r) e own chosen =
      let same : r.id ≡ c.outbox_id =
        (==_iff r.id c.outbox_id).0 (unfold has_id in find-holds (has_id c.outbox_id) table r e) in
      subst (λ i. owns_claim (find (has_id i) later) c ≡ false) same
        (rw
          (
            find-claim_batch cfg locked now n table r
                (subst (λ i. find (has_id i) table ≡ some r) (sym same) e),
            subst (λ i. contains i (ids (claim_due_entries cfg locked now n table)) ≡ true)
                (sym same) chosen,
          )
          (overtaken cfg now r c own))

  -- A claim whose row has been selected again is fenced off: neither call finalises it.
  pub reclaimed-fences :
      owns_claim (find (has_id c.outbox_id) table) c ≡ true
      → contains c.outbox_id (ids (claim_due_entries cfg locked now n table)) ≡ true
      → (t : ℕ) (error : Option (List ℕ))
      → (mark_delivered t c later ≡ (later, false))
        × (mark_failure cfg t c error later ≡ (later, lost_lease))
  unfolding mark_delivered mark_failure
  reclaimed-fences own chosen t error =
      let lost = fenced (find (has_id c.outbox_id) table) refl own chosen in
      (rw lost refl, rw lost refl)
