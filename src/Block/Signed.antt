-- ===== src/Block/Signed.antt =====
-- The `int64` of Go by sign and magnitude, with the conversions that wrap at the ends.
use rmit.Prelude.{ℕ, ◌-◌, Bool, false, ltb, if◌then◌else◌}
use rmit.Thor.{u64_mod, i64_mod}

-- `pos n` is n, below 2 ^ 63; `neg n` is -n, at most 2 ^ 63 for a value of the type.
pub data Int64 : Type 0 where
  pos : ℕ → Int64
  neg : ℕ → Int64

-- `int64(x)` of a `uint64`.
unfoldable pub to_int64 : ℕ → Int64
to_int64 x = if ltb x i64_mod then pos x else neg (u64_mod - x)

-- `uint64(d)`: the same bits.
unfoldable pub to_uint64 : Int64 → ℕ
to_uint64 (pos n) = n
to_uint64 (neg n) = if ltb 0 n then u64_mod - n else 0

-- `-d`, which leaves -2 ^ 63 as it is.
unfoldable pub negate : Int64 → Int64
negate (pos n) = neg n
negate (neg n) = if ltb n i64_mod then pos n else neg n

unfoldable pub is_positive : Int64 → Bool
is_positive (pos n) = ltb 0 n
is_positive (neg n) = false
