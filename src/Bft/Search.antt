-- ===== src/Bft/Search.antt =====
-- `findCheckpointByQuality` of bft/engine.go: a binary search over the rounds of a branch, each by
-- the quality that is saved for its last block. `none` is an error.
pub mod First
use rmit.Prelude.{
  ℕ, ◌+◌, ◌-◌, ◌*◌, ◌/◌, ◌%◌, Bool, Option, none, some, List, leb, nat_beq, if◌then◌else◌,
  number_key,
}
use rmit.Prelude.Fallible.{◌>>=◌}
use rmit.Thor.{checkpoint_interval, u32_mod}
use rmit.Bft.Rounds.{get_check_point, get_store_point}
use rmit.Bft.Engine.{Repo, number_of, get_quality}

-- The number of the block with which the search starts.
unfoldable pub search_start : Repo → ℕ → ℕ
search_start r finalized =
    if nat_beq (number_of finalized) 0 then get_check_point r.finality else number_of finalized

-- The first block of the round with this index.
unfoldable pub round_start : Repo → ℕ → ℕ → ℕ
round_start r finalized i = (search_start r finalized + i * checkpoint_interval) % u32_mod

-- `get`, the saved quality of a round.
unfoldable pub round_quality : Repo → List (ℕ × ℕ) → ℕ → ℕ → ℕ → Option ℕ
round_quality r qualities finalized head_id i =
    r.block_at head_id (get_store_point (round_start r finalized i)) >>= λ id.
    some (get_quality qualities id)

-- `n`, with the difference of two `uint32`.
unfoldable pub round_count : Repo → ℕ → ℕ → ℕ
round_count r finalized head_id =
    (number_of head_id + (u32_mod - search_start r finalized)) % u32_mod / checkpoint_interval + 1

-- What follows the search: its result is checked, and its round has to be of the quality itself.
unfoldable pub checkpoint_at : Repo → List (ℕ × ℕ) → ℕ → ℕ → ℕ → ℕ → Option ℕ
checkpoint_at r qualities target finalized head_id num =
    if nat_beq num (round_count r finalized head_id)
    then none
    else (round_quality r qualities finalized head_id num >>= λ q.
        if nat_beq q target then r.block_at head_id (round_start r finalized num) else none)

-- `search` is sort.Search; where its test panics, the panic becomes the error.
module _ (search : ℕ → (ℕ → Option Bool) → Option ℕ) where
  unfoldable pub find_checkpoint_by_quality : Repo → List (ℕ × ℕ) → ℕ → ℕ → ℕ → Option ℕ
  find_checkpoint_by_quality r qualities target finalized head_id =
      search (round_count r finalized head_id)
        (λ i. round_quality r qualities finalized head_id i >>= λ q. some (leb target q))
      >>= checkpoint_at r qualities target finalized head_id
