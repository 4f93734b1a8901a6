-- ===== src/LogDb/Sequence/RoundTrip.antt =====
-- A sequence gives back its three parts, and sequences are ordered as the places are.
use Prim.Native.Nat.{bit_or}
use rmit.Prelude.{ℕ, ◌+◌, ◌*◌, ◌/◌, ◌%◌, ◌^◌, ◌<◌, ◌≡◌, ◌↔◌, ◌⊎◌, inl, inr, arith, ap, ◌∙◌, dec_lt}
use rmit.LogDb.Bits.{or_disjoint, and_mask}
use rmit.LogDb.Sequence.{
  block_num_bits, tx_index_bits, log_index_bits, sequence, joined, new_sequence, block_number,
  tx_index, log_index,
}

joined_sum : (b t l : ℕ) → t < 2 ^ 15 → l < 2 ^ 20 → joined b t l ≡ b * 2 ^ 35 + t * 2 ^ 20 + l
unfolding joined
joined_sum b t l ht hl =
    let upper = or_disjoint 35 b (t * 2 ^ 20) (omega arith) in
    let shifted : b * 2 ^ 35 + t * 2 ^ 20 ≡ (b * 2 ^ 15 + t) * 2 ^ 20 = omega arith in
    ap (λ x. bit_or x l) (upper ∙ shifted) ∙ or_disjoint 20 (b * 2 ^ 15 + t) l hl ∙ omega arith

-- Three parts within their bits make a sequence, which is an int64 that is not negative and gives
-- back each of the parts.
pub new_sequence-parts :
    (b t l : ℕ)
    → b < 2 ^ block_num_bits
    → t < 2 ^ tx_index_bits
    → l < 2 ^ log_index_bits
    → (s : ℕ) × (new_sequence b t l ≡ sequence s)
      × (s < 2 ^ 63)
      × (block_number s ≡ b)
      × (tx_index s ≡ t)
      × (log_index s ≡ l)
unfolding new_sequence block_number tx_index log_index
new_sequence-parts b t l hb ht hl =
    let s = joined b t l in
    let sum = joined_sum b t l ht hl in
    (
      s,
      ground (arith, sum),
      omega (arith, sum),
      omega (arith, and_mask 28 (s / 2 ^ 35 % 4294967296), sum),
      omega (arith, and_mask 15 (s / 2 ^ 20), sum),
      omega (arith, and_mask 20 s, sum),
    )

-- The order of two places: by block, then by transaction, then by log.
abbrev pub Before : ℕ → ℕ → ℕ → ℕ → ℕ → ℕ → Type 0
Before b t l b' t' l' = (b < b') ⊎ ((b ≡ b') × ((t < t') ⊎ ((t ≡ t') × (l < l'))))

sequence_sum :
    (b t l s : ℕ)
    → new_sequence b t l ≡ sequence s
    → (b < 2 ^ 28) × (t < 2 ^ 15) × (l < 2 ^ 20) × (s ≡ b * 2 ^ 35 + t * 2 ^ 20 + l)
unfolding new_sequence
sequence_sum b t l s h = ground (arith, h, joined_sum b t l)

module _ (b t l b' t' l' : ℕ) (ht : t < 2 ^ 15) (hl : l < 2 ^ 20) (ht' : t' < 2 ^ 15)
    (hl' : l' < 2 ^ 20) where
  before : b * 2 ^ 35 + t * 2 ^ 20 + l < b' * 2 ^ 35 + t' * 2 ^ 20 + l' → Before b t l b' t' l'
  before h = elim (dec_lt b b') [
    | yes lower ↦ inl lower
    | no not_lower ↦
        let same : b ≡ b' = omega arith in
        elim (dec_lt t t') [
          | yes earlier ↦ inr (same, inl earlier)
          | no not_earlier ↦ inr (same, inr (omega arith, omega arith))
        ]
  ]

  sum_lt : Before b t l b' t' l' → b * 2 ^ 35 + t * 2 ^ 20 + l < b' * 2 ^ 35 + t' * 2 ^ 20 + l'
  sum_lt (inl lower) = omega arith
  sum_lt (inr (same, inl earlier)) = omega arith
  sum_lt (inr (same, inr (also, less))) = omega arith

-- Sequences are ordered as the places that they stand for, so a range of sequences is a range of
-- logs.
pub new_sequence-Before :
    (b t l b' t' l' : ℕ) {s s' : ℕ}
    → new_sequence b t l ≡ sequence s
    → new_sequence b' t' l' ≡ sequence s'
    → (s < s') ↔ Before b t l b' t' l'
unfolding new_sequence
new_sequence-Before b t l b' t' l' {s} {s'} h h' =
    let (hb, ht, hl, is) = sequence_sum b t l s h in
    let (hb', ht', hl', is') = sequence_sum b' t' l' s' h' in
    (
      λ below. before b t l b' t' l' ht hl ht' hl' (omega arith),
      λ (x : Before b t l b' t' l'). omega (arith, sum_lt b t l b' t' l' ht hl ht' hl' x),
    )
