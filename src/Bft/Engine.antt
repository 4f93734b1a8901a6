-- ===== src/Bft/Engine.antt =====
-- bft/engine.go: the state of the engine, and `computeState` with its caches. What the engine reads
-- of the repository and of the state of a block is a record of functions.
pub mod Tree
pub mod Extend
pub mod Caches
use rmit.Prelude.{
  ℕ, suc, ◌+◌, ◌-◌, ◌*◌, ◌/◌, ◌%◌, ◌^◌, Bool, true, false, not, ◌&&◌, ◌||◌, Option, none, some,
  List, [], ◌∷◌, ltb, leb, nat_beq, if◌then◌else◌, number_key,
}
use rmit.Prelude.Fallible.{◌>>=◌}
use rmit.Prelude.Assoc.{lookup, insert, delete}
use rmit.Thor.{checkpoint_interval, initial_max_block_proposers, u32_mod}
use rmit.Bft.Rounds.{get_check_point, is_check_point}
use rmit.Bft.Justifier.{Justifier, BftState, empty, add_block, summarize}
use rmit.Bft.Walk.{Header, walk}

-- `block.Number`: the first four bytes of a 32-byte id.
unfoldable pub number_of : ℕ → ℕ
number_of id = id / 2 ^ 224 % u32_mod

-- The repository's headers and chains (the block of a number on the branch of a head), and the
-- parameter max-block-proposers in the state of a block.
pub record Repo : Type 0 where
  pub headers : ℕ → Option Header
  pub block_at : ℕ → ℕ → Option ℕ
  pub max_proposers : ℕ → Option ℕ
  pub finality : ℕ

-- `qualities` is the store of the engine, which its LRU cache of qualities reads through.
pub record Engine : Type 0 where
  pub qualities : List (ℕ × ℕ)
  pub states : List (ℕ × BftState)
  pub justifiers : List (ℕ × Justifier)

-- `getQuality`: 0 if none is saved.
unfoldable pub get_quality : List (ℕ × ℕ) → ℕ → ℕ
get_quality qualities id = elim (lookup id qualities) [ none ↦ 0 | some q ↦ q ]

unfoldable pub get_max_block_proposers : Repo → ℕ → Option ℕ
get_max_block_proposers r id = r.max_proposers id >>= λ mbp. some (
    if nat_beq mbp 0 || ltb initial_max_block_proposers mbp
    then initial_max_block_proposers
    else mbp)

-- `lastOfParentRound` of a block.
unfoldable pub last_of_parent_round : ℕ → ℕ
last_of_parent_round block_num =
    let checkpoint = get_check_point block_num in if ltb 0 checkpoint then checkpoint - 1 else 0

-- The rest of `newJustifier` behind the block that ends the parent round.
unfoldable pub start_round : Repo → List (ℕ × ℕ) → ℕ → ℕ → Option Justifier
start_round r qualities block_num sum = do
  mbp ← get_max_block_proposers r sum
  let parent_quality =
      if nat_beq (block_num / checkpoint_interval) (r.finality / checkpoint_interval)
      then 0
      else get_quality qualities sum
  some (empty parent_quality (get_check_point block_num) (mbp * 2 / 3))

unfoldable pub new_justifier : Repo → List (ℕ × ℕ) → ℕ → Option Justifier
new_justifier r qualities parent_id = do
  let block_num = (number_of parent_id + 1) % u32_mod
  sum ← r.block_at parent_id (last_of_parent_round block_num)
  start_round r qualities block_num sum

abbrev pub zero_state : BftState
zero_state = record { quality = 0; justified = false; committed = false }

-- A justifier from nothing: the branch of `computeState` for a missed cache or a checkpoint.
unfoldable pub fresh_justifier : Repo → List (ℕ × ℕ) → Header → Option Justifier
fresh_justifier r qualities h = do
  js ← new_justifier r qualities h.parent_id
  walk r.headers r.finality (h.number + 1) js h js.checkpoint

-- The branch for a cached justifier of the parent: the loop ends at the header itself.
unfoldable pub extend_justifier : Repo → Justifier → Header → Option Justifier
extend_justifier r js h = walk r.headers r.finality (h.number + 1) js h h.number

-- The justifier of a header, with or without the cached one of its parent.
unfoldable pub vote_set : Repo → Engine → Header → Option Justifier
vote_set r e h = elim (lookup h.parent_id e.justifiers) [
  | none ↦ fresh_justifier r e.qualities h
  | some js ↦
      if is_check_point h.number then fresh_justifier r e.qualities h else extend_justifier r js h
]

-- The end of `computeState`: an error, or the new justifier and its summary go to the caches. The
-- parent's justifier has left its cache in either case.
unfoldable pub remember : Engine → Header → Option Justifier → Engine × Option BftState
remember e h none = (record e { justifiers = delete h.parent_id e.justifiers }, none)
remember e h (some js) = (
  record e {
    states = insert h.id (summarize js) e.states;
    justifiers = insert h.id js (delete h.parent_id e.justifiers);
  },
  some (summarize js),
)

-- `computeState`: the engine afterwards, and the state or an error.
unfoldable pub compute_state : Repo → Engine → Header → Engine × Option BftState
compute_state r e h = elim (lookup h.id e.states) [
  | some st ↦ (e, some st)
  | none ↦
      if nat_beq h.number 0 || ltb h.number r.finality
      then (e, some zero_state)
      else remember e h (vote_set r e h)
]
