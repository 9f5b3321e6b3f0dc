-- ===== src/Retrieval/Totals.antt =====
-- Sums of tokens and distinct hashes of packed sections, as a section is appended.
use creditlens.Base.{
  ℕ, ◌+◌, ◌≡◌, refl, ap, Bool, true, false, List, [], ◌∷◌, ◌++◌, map, ◌||◌, ◌&&◌, not, ◌==◌,
  if◌then◌else◌, arith,
}
use creditlens.Base.Text.{Text, text_eq, text_eq_sym}
use creditlens.Retrieval.Packing.{PackedSection, estimate_tokens, is_seen}

unfoldable pub total_of : List PackedSection → ℕ
total_of [] = 0
total_of (s ∷ ss) = s.tokens_est + total_of ss

unfoldable pub document_total : ℕ → List PackedSection → ℕ
document_total d [] = 0
document_total d (s ∷ ss) = (if s.document_id == d then s.tokens_est else 0) + document_total d ss

-- No two texts have the same hash.
unfoldable pub is_distinct : List Text → Bool
unfolding is_seen
is_distinct [] = true
is_distinct (h ∷ hs) = not (is_seen h hs) && is_distinct hs

abbrev pub IsMeasured : PackedSection → Type 0
IsMeasured s = s.tokens_est ≡ estimate_tokens s.text

pub total_of-append :
    (ss : List PackedSection) (s : PackedSection)
    → total_of (ss ++ s ∷ []) ≡ total_of ss + s.tokens_est
unfolding total_of
total_of-append [] s = omega arith
total_of-append (x ∷ xs) s = omega (arith, total_of-append xs s)

pub document_total-append :
    (d : ℕ) (ss : List PackedSection) (s : PackedSection)
    → document_total d (ss ++ s ∷ [])
      ≡ document_total d ss + (if s.document_id == d then s.tokens_est else 0)
unfolding document_total
document_total-append d [] s = omega arith
document_total-append d (x ∷ xs) s = omega (arith, document_total-append d xs s)

is_seen-append :
    (h k : Text) (hs : List Text) → is_seen h (hs ++ k ∷ []) ≡ (is_seen h hs || text_eq h k)
unfolding is_seen
is_seen-append h k [] = ground arith
is_seen-append h k (x ∷ xs) = ground (arith, is_seen-append h k xs)

pub is_distinct-append :
    (hs : List Text) (k : Text)
    → is_distinct hs ≡ true
    → is_seen k hs ≡ false
    → is_distinct (hs ++ k ∷ []) ≡ true
unfolding is_distinct is_seen
is_distinct-append [] k d n = refl
is_distinct-append (h ∷ hs) k d n =
    ground (arith, is_seen-append h k hs, text_eq_sym k h, is_distinct-append hs k)

pub map-append :
    (ss : List PackedSection) (s : PackedSection)
    → map (λ x. x.text_hash) (ss ++ s ∷ []) ≡ map (λ x. x.text_hash) ss ++ s.text_hash ∷ []
map-append [] s = refl
map-append (x ∷ xs) s = ap (λ z. x.text_hash ∷ z) (map-append xs s)
