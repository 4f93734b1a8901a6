-- ===== src/Thor.antt =====
-- thor/params.go: the constants of the chain.
use rmit.Prelude.{ℕ, ◌*◌}

abbrev pub block_interval : ℕ
block_interval = 10

abbrev pub min_gas_limit : ℕ
min_gas_limit = 1000 * 1000

abbrev pub gas_limit_bound_divisor : ℕ
gas_limit_bound_divisor = 1024

abbrev pub initial_max_block_proposers : ℕ
initial_max_block_proposers = 101

abbrev pub checkpoint_interval : ℕ
checkpoint_interval = 180

abbrev pub max_tx_work_delay : ℕ
max_tx_work_delay = 30

-- Values of a `uint64` lie below `u64_mod`, those of a `uint32` below `u32_mod`.
abbrev pub u64_mod : ℕ
u64_mod = 18446744073709551616

abbrev pub max_u64 : ℕ
max_u64 = 18446744073709551615

abbrev pub u32_mod : ℕ
u32_mod = 4294967296

abbrev pub i64_mod : ℕ
i64_mod = 9223372036854775808
