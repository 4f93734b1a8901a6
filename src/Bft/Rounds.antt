-- ===== src/Bft/Rounds.antt =====
-- bft/engine.go: the rounds of 180 blocks. Block numbers are `uint32`.
use rmit.Prelude.{ℕ, ◌+◌, ◌-◌, ◌*◌, ◌/◌, ◌%◌, ◌≤◌, ◌<◌, ◌≡◌, Bool, true, arith, nat_beq}
use rmit.Thor.{checkpoint_interval, u32_mod}

unfoldable pub get_check_point : ℕ → ℕ
get_check_point block_num = block_num / checkpoint_interval * checkpoint_interval

unfoldable pub is_check_point : ℕ → Bool
is_check_point block_num = nat_beq (get_check_point block_num) block_num

unfoldable pub get_store_point : ℕ → ℕ
get_store_point block_num = (get_check_point block_num + checkpoint_interval - 1) % u32_mod

-- A block lies between the checkpoint and the store point of its round, both points have the same
-- checkpoint, and the block behind the store point is a checkpoint, for numbers that leave room
-- for the round below 2 ^ 32.
pub round_lem :
    (n : ℕ)
    → n + checkpoint_interval < u32_mod
    → (get_check_point n ≤ n)
      × (n ≤ get_store_point n)
      × (is_check_point (get_check_point n) ≡ true)
      × (get_check_point (get_store_point n) ≡ get_check_point n)
      × (is_check_point (get_store_point n + 1) ≡ true)
unfolding get_store_point get_check_point is_check_point
round_lem n h = (omega arith, omega arith, ground arith, omega arith, ground arith)
