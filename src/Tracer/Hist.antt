-- ===== src/Tracer/Hist.antt =====
-- The object `hist` of the n-gram tracers, from keys to counts, and the rule by which each of them
-- counts a key (the same `if` in unigram_tracer.js, bigram_tracer.js and trigram_tracer.js).
use rmit.Prelude.{
  ℕ, ◌+◌, String, ◌≡◌, Option, none, some, List, [], ◌∷◌, arith, if◌then◌else◌, nat_beq, ◌==◌,
  Option-cases, text_key, inl, inr,
}
use rmit.Prelude.Assoc.{lookup, insert, lookup-insert}

abbrev pub Hist : Type 0
Hist = List (String × ℕ)

-- A missing entry is `undefined`, and `undefined` and 0 are falsy.
unfoldable pub bump : String → Hist → Hist
bump key hist = elim (lookup key hist) [
  | none ↦ insert key 1 hist
  | some n ↦ if nat_beq n 0 then insert key 1 hist else insert key (n + 1) hist
]

abbrev pub or_zero : Option ℕ → ℕ
or_zero none = 0
or_zero (some n) = n

-- The count that the object holds for a key.
unfoldable pub tally : String → Hist → ℕ
tally key hist = or_zero (lookup key hist)

-- The sum of all counts.
unfoldable pub total : Hist → ℕ
total [] = 0
total ((k, n) ∷ rest) = n + total rest

-- Counting a key adds one to its count and leaves every other count.
pub tally-bump :
    (j key : String) (hist : Hist)
    → tally j (bump key hist) ≡ tally j hist + (if key == j then 1 else 0)
unfolding tally bump
tally-bump j key hist = elim (Option-cases (lookup key hist)) [
  | inl e ↦ ground (arith, e, lookup-insert key j 1 hist, text_key.same_iff key j)
  | inr (n, e) ↦ ground (
    arith,
    e,
    lookup-insert key j 1 hist,
    lookup-insert key j (n + 1) hist,
    text_key.same_iff key j,
  )
]

total-insert :
    (key : String) (v : ℕ) (hist : Hist)
    → total (insert key v hist) + tally key hist ≡ total hist + v
unfolding total insert tally lookup
total-insert key v [] = omega arith
total-insert key v ((k, n) ∷ rest) = ground (arith, total-insert key v rest)

-- Counting a key adds one to the sum of all counts.
pub total-bump : (key : String) (hist : Hist) → total (bump key hist) ≡ total hist + 1
unfolding bump tally
total-bump key hist = elim (Option-cases (lookup key hist)) [
  | inl e ↦ ground (arith, e, total-insert key 1 hist)
  | inr (n, e) ↦ ground (arith, e, total-insert key 1 hist, total-insert key (n + 1) hist)
]
