-- ===== src/Outbox/Counts.antt =====
-- The worker's counts add up, its retries are bounded, and finished rows stay as they are.
use creditlens.Base.{
  ℕ, zero, suc, ◌+◌, ◌-◌, ◌*◌, ◌^◌, ◌≤◌, ◌<◌, ◌≡◌, refl, Bool, true, false, Option, some, List, [],
  ◌∷◌, ◌&&◌, leb, length, arith, min, sym, ◌∙◌, ap, length-take_le, some_cancel, subst, Bool-cases,
  inl, inr,
}
use native.Mathlib.Nat.{pow-suc}
use creditlens.Base.Result.{ok}
use creditlens.Base.Text.{Text}
use creditlens.Outbox.Row.{Table, Config, Claim, configure}
use creditlens.Outbox.Claiming.{claim_batch, claims_of, count_exhausted, claim_due_entries}
use creditlens.Outbox.Delivery.{
  Invocation, Delivery, Export, sent, raised, Batch, finished, Stats, Outcome, retried, died,
  lost_lease, finalize, process_claims, process_batch, initial_stats, then_continue, count_failure,
  count_delivery, mark_delivered, mark_failure, backoff,
}

-- Every row that was taken is a claim, or was found exhausted.
pub claims-exhausted_total :
    (cfg : Config) (entries : Table)
    → length (claims_of cfg entries) + count_exhausted cfg entries ≡ length entries
unfolding claims_of count_exhausted
claims-exhausted_total cfg [] = refl
claims-exhausted_total cfg (r ∷ rs) = ground (arith, claims-exhausted_total cfg rs)

-- The claims that have been finalised, and the rows that were given up while claiming.
abbrev pub settled : Stats → ℕ
settled s = s.delivered + s.retried + s.dead + s.lost_leases

abbrev pub Counts : ℕ → Batch → Type 0
Counts n (finished s t) = settled s ≡ n
Counts n (Batch.cancelled t) = Unit

Counts-cast : (b : Batch) (m n : ℕ) → m ≡ n → Counts m b → Counts n b
Counts-cast b m n e h = subst (λ k. Counts k b) e h

settled-count_failure : (o : Outcome) (s : Stats) → settled (count_failure o s) ≡ settled s + 1
unfolding count_failure
settled-count_failure retried s = omega arith
settled-count_failure died s = omega arith
settled-count_failure lost_lease s = omega arith

settled-count_delivery : (b : Bool) (s : Stats) → settled (count_delivery b s) ≡ settled s + 1
unfolding count_delivery
settled-count_delivery true s = omega arith
settled-count_delivery false s = omega arith

one_le_pow : (n : ℕ) → 1 ≤ 2 ^ n
one_le_pow zero = omega arith
one_le_pow (suc n) = rw pow-suc (omega (arith, one_le_pow n))

-- What the constructor lets through.
pub configure-bounds :
    (c cfg : Config)
    → configure c ≡ ok cfg
    → (0 < cfg.max_attempts)
      × (0 < cfg.lease)
      × (0 < cfg.base_backoff)
      × (cfg.base_backoff ≤ cfg.max_backoff)
unfolding configure
configure-bounds c cfg h = ground arith

le_mul : (a p m : ℕ) → 1 ≤ p → a ≤ m → (a ≤ min (a * p) m) × (min (a * p) m ≤ m)
le_mul a p m h k = let step : a * 1 ≤ a * p = grind arith in omega arith

-- A retry waits at least the base and at most the maximum.
pub backoff_bounds :
    (c cfg : Config) (attempt : ℕ)
    → configure c ≡ ok cfg
    → (cfg.base_backoff ≤ backoff cfg attempt) × (backoff cfg attempt ≤ cfg.max_backoff)
unfolding backoff
backoff_bounds c cfg attempt h =
    le_mul cfg.base_backoff (2 ^ (attempt - 1)) cfg.max_backoff (one_le_pow (attempt - 1))
      (configure-bounds c cfg h).3

-- The waits of a policy that starts with the base and doubles up to the maximum.
abbrev pub doubling_wait : Config → ℕ → ℕ
doubling_wait cfg zero = cfg.base_backoff
doubling_wait cfg (suc n) = min (2 * doubling_wait cfg n) cfg.max_backoff

capped_double : (b p m : ℕ) → min (b * (p * 2)) m ≡ min (2 * min (b * p) m) m
capped_double b p m = let twice : b * (p * 2) ≡ 2 * (b * p) = grind arith in rw twice (omega arith)

backoff-suc :
    (cfg : Config) (n : ℕ) → backoff cfg (suc n) ≡ min (cfg.base_backoff * 2 ^ n) cfg.max_backoff
unfolding backoff
backoff-suc cfg n = ap (λ k. min (cfg.base_backoff * 2 ^ k) cfg.max_backoff) (omega arith)

capped_step :
    (cfg : Config) (n : ℕ)
    → min (cfg.base_backoff * 2 ^ suc n) cfg.max_backoff
      ≡ min (2 * min (cfg.base_backoff * 2 ^ n) cfg.max_backoff) cfg.max_backoff
capped_step cfg n = rw pow-suc (capped_double cfg.base_backoff (2 ^ n) cfg.max_backoff)

-- The wait after the attempt of number n + 1 is that of a policy that waits for the base after the
-- first attempt and doubles with each one, up to the maximum; if the configuration is accepted.
pub backoff-doubling_wait :
    (c cfg : Config) (n : ℕ) → configure c ≡ ok cfg → backoff cfg (suc n) ≡ doubling_wait cfg n
unfolding backoff
backoff-doubling_wait c cfg zero h = omega (arith, configure-bounds c cfg h)
backoff-doubling_wait c cfg (suc n) h =
    backoff-suc cfg (suc n)
    ∙ capped_step cfg n
    ∙ ap (λ w. min (2 * w) cfg.max_backoff)
        (sym (backoff-suc cfg n) ∙ backoff-doubling_wait c cfg n h)

batch_total :
    (cfg : Config) (locked : ℕ → Bool) (now n : ℕ) (table : Table)
    → settled (initial_stats (claim_batch cfg locked now n table).1)
        + length (claim_batch cfg locked now n table).1.claims
      ≡ length (claim_due_entries cfg locked now n table)
unfolding claim_batch initial_stats
batch_total cfg locked now n table =
    omega (arith, claims-exhausted_total cfg (claim_due_entries cfg locked now n table))

entries-le :
    (cfg : Config) (locked : ℕ → Bool) (now n : ℕ) (table : Table)
    → length (claim_due_entries cfg locked now n table) ≤ n
unfolding claim_due_entries
entries-le cfg locked now n table = length-take_le n _

fits_limit : {n : ℕ} → (leb 1 n && leb n 1000) ≡ true → n ≤ 1000
fits_limit h = ground arith

module _ {Payload Envelope : Type 0} (model_validate : Payload → Option Envelope)
    (envelope_id : Envelope → ℕ) (hash_envelope : Envelope → Text)
    (invocations : List (Invocation Payload)) (export : Envelope → Delivery → ℕ → Export)
    (cfg : Config) (others : Claim → Table → Table) where
  Counts-finalize :
      (now : ℕ) (c : Claim) (e : Export) (s : Stats) (table : Table)
      → Counts
          (settled s + 1)
          (finalize model_validate envelope_id hash_envelope invocations export cfg now c e s table)
  unfolding finalize
  Counts-finalize now c sent s table = settled-count_delivery (mark_delivered now c table).1 s
  Counts-finalize now c (raised e) s table =
      settled-count_failure (mark_failure cfg now c e table).1 s
  Counts-finalize now c Export.cancelled s table = tt

  Counts-then_continue :
      (n k : ℕ) (b : Batch) (next : Stats → Table → Batch)
      → Counts n b
      → ((s : Stats) (t : Table) → Counts (settled s + k) (next s t))
      → Counts (n + k) (then_continue b next)
  unfolding then_continue
  Counts-then_continue n k (finished s t) next h step = rw (← h) (step s t)
  Counts-then_continue n k (Batch.cancelled t) next h step = tt

  Counts-process_claims :
      (now : Claim → ℕ) (cs : List Claim) (s : Stats) (table : Table)
      → Counts (settled s + length cs) (
          process_claims model_validate envelope_id hash_envelope invocations export cfg now others
            cs s table)
  unfolding process_claims
  Counts-process_claims now [] s table = omega arith
  Counts-process_claims now (c ∷ cs) s table =
      Counts-cast _ (settled s + 1 + length cs) (settled s + length (c ∷ cs)) (omega arith) (
        Counts-then_continue (settled s + 1) (length cs) _ _
          (Counts-finalize (now c) c _ s (others c table)) (Counts-process_claims now cs))

  -- A batch that runs to its end has settled every row that it selected, and no more than it was
  -- asked for: each is counted once as delivered, retried, dead or lost.
  pub process_batch-counts :
      (locked : ℕ → Bool) (start : ℕ) (now : Claim → ℕ) (n : ℕ) (table t : Table) (s : Stats)
      → process_batch model_validate envelope_id hash_envelope invocations export cfg locked start
          now others n table
        ≡ some (finished s t)
      → (settled s ≡ length (claim_due_entries cfg locked start n table))
        × (settled s ≤ n)
        × (n ≤ 1000)
  unfolding process_batch
  process_batch-counts locked start now n table t s h = elim (Bool-cases (leb 1 n && leb n 1000)) [
    | inr out ↦ absurd (cc (rw out at h))
    | inl fits ↦
        let total : settled s
            ≡ settled (initial_stats (claim_batch cfg locked start n table).1)
              + length (claim_batch cfg locked start n table).1.claims =
          subst
            (λ b.
              Counts
                (settled (initial_stats (claim_batch cfg locked start n table).1)
                  + length (claim_batch cfg locked start n table).1.claims)
                b)
            (some_cancel _ _ (rw fits at h))
            (Counts-process_claims now (claim_batch cfg locked start n table).1.claims
              (initial_stats (claim_batch cfg locked start n table).1)
              (claim_batch cfg locked start n table).0) in
        let whole : settled s ≡ length (claim_due_entries cfg locked start n table) =
          total ∙ batch_total cfg locked start n table in
        (
          whole,
          subst (λ k. k ≤ n) (sym whole) (entries-le cfg locked start n table),
          fits_limit fits,
        )
  ]
