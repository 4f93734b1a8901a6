-- ===== src/Block/GasLimit.antt =====
-- block/gas_limit.go: how the gas limit of a block may differ from its parent's.

use rmit.Prelude.{
  ℕ, ◌+◌, ◌-◌, ◌/◌, ◌%◌, ◌≤◌, ◌<◌, ◌≡◌, Bool, true, false, arith, ltb, leb, if◌then◌else◌,
  Bool-cases, inl, inr,
}
use rmit.Thor.{min_gas_limit, gas_limit_bound_divisor, u64_mod, max_u64}
use rmit.Block.Signed.{Int64, to_int64, to_uint64, negate, is_positive}

unfoldable pub min64 : ℕ → ℕ → ℕ
min64 a b = if ltb b a then b else a

-- The two subtractions stand in the branch where they do not wrap.
unfoldable pub is_valid : ℕ → ℕ → Bool
is_valid gas_limit parent =
    if ltb gas_limit min_gas_limit
    then false
    else let diff = if ltb parent gas_limit then gas_limit - parent else parent - gas_limit in
      leb diff (parent / gas_limit_bound_divisor)

-- `Adjust`; the sums of `uint64` values wrap.
unfoldable pub adjust : ℕ → Int64 → ℕ
adjust gas_limit delta =
    let max_diff = gas_limit / gas_limit_bound_divisor in
    let up = min64 (to_uint64 delta) max_diff in
    let down = min64 (to_uint64 (negate delta)) max_diff in
    if is_positive delta
    then (if ltb (max_u64 - up) gas_limit then max_u64 else (gas_limit + up) % u64_mod)
    else if ltb gas_limit ((min_gas_limit + down) % u64_mod)
    then min_gas_limit
    else gas_limit - down

unfoldable pub qualify : ℕ → ℕ → ℕ
qualify gas_limit parent =
    let max_diff = parent / gas_limit_bound_divisor in
    if ltb parent gas_limit
    then adjust parent (to_int64 (min64 (gas_limit - parent) max_diff))
    else adjust parent (negate (to_int64 (min64 (parent - gas_limit) max_diff)))

min64_bounds : (a b : ℕ) → (min64 a b ≤ a) × (min64 a b ≤ b)
unfolding min64
min64_bounds a b = ground arith

-- Whatever the delta, a parent limit of at least the minimum is adjusted to a valid limit.
pub adjust-is_valid :
    (parent : ℕ) (delta : Int64)
    → min_gas_limit ≤ parent
    → parent < u64_mod
    → is_valid (adjust parent delta) parent ≡ true
unfolding adjust is_valid
adjust-is_valid parent delta low high = ground (
  arith,
  min64_bounds (to_uint64 delta) (parent / gas_limit_bound_divisor),
  min64_bounds (to_uint64 (negate delta)) (parent / gas_limit_bound_divisor),
)

-- In the branches of `qualify` the delta is at most the parent's bound, so no conversion wraps.
adjust-pos :
    (parent n : ℕ)
    → n ≤ parent / gas_limit_bound_divisor
    → parent + n < u64_mod
    → min_gas_limit ≤ parent
    → adjust parent (to_int64 n) ≡ parent + n
unfolding adjust to_int64 to_uint64 negate is_positive min64
adjust-pos parent n small fits low = ground arith

adjust-neg :
    (parent n : ℕ)
    → n ≤ parent / gas_limit_bound_divisor
    → min_gas_limit + n ≤ parent
    → parent < u64_mod
    → adjust parent (negate (to_int64 n)) ≡ parent - n
unfolding adjust to_int64 to_uint64 negate is_positive min64
adjust-neg parent n small fits high = ground arith

-- For a parent limit of at least the minimum, whatever is qualified becomes a valid limit.
pub qualify_valid :
    (gas_limit parent : ℕ)
    → min_gas_limit ≤ parent
    → parent < u64_mod
    → is_valid (qualify gas_limit parent) parent ≡ true
unfolding qualify
qualify_valid gas_limit parent low high = elim (Bool-cases (ltb parent gas_limit)) [
  | inl above ↦ rw above (adjust-is_valid parent _ low high)
  | inr below ↦ rw below (adjust-is_valid parent _ low high)
]

-- A limit that is valid for such a parent is qualified to itself.
pub qualify_fixed :
    (gas_limit parent : ℕ)
    → gas_limit < u64_mod
    → parent < u64_mod
    → min_gas_limit ≤ parent
    → is_valid gas_limit parent ≡ true
    → qualify gas_limit parent ≡ gas_limit
unfolding qualify is_valid min64
qualify_fixed gas_limit parent g high low ok =
    ground (arith, adjust-pos parent (gas_limit - parent), adjust-neg parent (parent - gas_limit))
