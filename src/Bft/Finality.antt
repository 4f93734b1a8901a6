-- ===== src/Bft/Finality.antt =====
-- What bft/engine.go does with the state of a block: it saves qualities, moves the finalized
-- checkpoint, and compares and accepts blocks.
pub mod Forward
pub mod Preference
use rmit.Prelude.{
  ℕ, ◌+◌, ◌-◌, ◌%◌, Bool, true, false, ◌&&◌, Option, none, some, List, [], ltb, nat_beq,
  if◌then◌else◌, number_key,
}
use rmit.Prelude.Fallible.{◌>>=◌}
use rmit.Prelude.Assoc.{insert}
use rmit.Thor.{checkpoint_interval, u32_mod}
use rmit.Bft.Rounds.{get_check_point, get_store_point}
use rmit.Bft.Justifier.{BftState}
use rmit.Bft.Walk.{Header}
use rmit.Bft.Engine.{Repo, Engine, number_of, get_quality, compute_state}
use rmit.Bft.Search.{find_checkpoint_by_quality}

-- The engine with the finalized checkpoint (`saved` in its store), the last result of `Justified`
-- with the block that it was found for, and the casts, which are nil at first.
pub record FinalityState : Type 0 where
  pub engine : Engine
  pub finalized : ℕ
  pub saved : Option ℕ
  pub justified : Option (ℕ × ℕ)
  pub casts : Option (List (ℕ × ℕ))

-- What `CommitBlock` returns: nil, an error, or a panic.
pub data Outcome : Type 0 where
  ok : Outcome
  err : Outcome
  panic : Outcome

abbrev pub with_engine : FinalityState → Engine → FinalityState
with_engine s e = record s { engine = e }

-- `NewEngine`, with the finalized checkpoint of its store, or else the genesis block.
unfoldable pub new_engine : ℕ → List (ℕ × ℕ) → Option ℕ → FinalityState
new_engine genesis qualities saved = record {
  engine = record { qualities = qualities; states = []; justifiers = [] };
  finalized = elim saved [ none ↦ genesis | some id ↦ id ];
  saved = saved;
  justified = none;
  casts = none;
}

-- `Chain.HasBlock` of chain/chain.go. A block that is not on the branch is no error.
unfoldable pub has_block : Repo → ℕ → ℕ → Bool
has_block r head id = elim (r.block_at head (number_of id)) [
  | none ↦ false
  | some found ↦ nat_beq id found
]

-- `saveQuality` and the cache of qualities.
abbrev pub save_quality : ℕ → ℕ → Engine → Engine
save_quality id quality e = record e { qualities = insert id quality e.qualities }

-- `search` is sort.Search.
module _ (search : ℕ → (ℕ → Option Bool) → Option ℕ) (r : Repo) where
  -- The finalized checkpoint after a round whose state is committed.
  unfoldable pub finalize : FinalityState → Header → BftState → FinalityState × Outcome
  finalize s header state =
      if state.committed && ltb 1 state.quality
      then elim (find_checkpoint_by_quality search r s.engine.qualities (state.quality - 1)
          s.finalized header.id) [
            | none ↦ (s, err)
            | some id ↦ (record s { finalized = id; saved = some id }, ok)
          ]
      else (s, ok)

  -- The first part of `CommitBlock`, for the last block of a round.
  unfoldable pub conclude_round : FinalityState → Header → FinalityState × Outcome
  conclude_round s header =
      let (e, result) = compute_state r s.engine header in
      elim result [
        | none ↦ (with_engine s e, err)
        | some state ↦
            finalize (with_engine s (save_quality header.id state.quality e)) header state
      ]

  -- The second part of `CommitBlock`, for a block that the node packs itself. Its casts may not be
  -- nil.
  unfoldable pub mark_cast : FinalityState → Header → FinalityState × Outcome
  mark_cast s header =
      let (e, result) = compute_state r s.engine header in
      elim result [
        | none ↦ (with_engine s e, err)
        | some state ↦ elim (r.block_at header.id (get_check_point header.number)) [
          | none ↦ (with_engine s e, err)
          | some checkpoint ↦ elim (s.casts) [
            | none ↦ (with_engine s e, panic)
            | some casts ↦
                (record s { engine = e; casts = some (insert checkpoint state.quality casts) }, ok)
          ]
        ]
      ]

  abbrev pub mark_after : Header → Bool → FinalityState × Outcome → FinalityState × Outcome
  mark_after header is_packing (s, ok) = if is_packing then mark_cast s header else (s, ok)
  mark_after header is_packing (s, err) = (s, err)
  mark_after header is_packing (s, panic) = (s, panic)

  unfoldable pub commit_block : FinalityState → Header → Bool → FinalityState × Outcome
  commit_block s header is_packing = mark_after header is_packing (
      if nat_beq (get_store_point header.number) header.number
      then conclude_round s header
      else (s, ok))

  -- The block that ends the last concluded round of the branch of the best block.
  unfoldable pub concluded_end : Header → Option ℕ
  concluded_end best =
      let checkpoint = get_check_point best.number in
      let concluded =
        if ltb best.number (get_store_point best.number)
        then (checkpoint + (u32_mod - checkpoint_interval)) % u32_mod
        else checkpoint in
      r.block_at best.id (get_store_point concluded)

  -- `Justified` behind its cache.
  unfoldable pub find_justified : FinalityState → ℕ → FinalityState × Option ℕ
  find_justified s store_id =
      let quality = get_quality s.engine.qualities store_id in
      if nat_beq quality 0
      then (s, some s.finalized)
      else elim (find_checkpoint_by_quality search r s.engine.qualities quality s.finalized
          store_id) [
            | none ↦ (s, none)
            | some checkpoint ↦
                (record s { justified = some (store_id, checkpoint) }, some checkpoint)
          ]

  -- `Justified`, at the best block of the repository; `none` is an error.
  unfoldable pub get_justified : FinalityState → Header → FinalityState × Option ℕ
  get_justified s best =
      if ltb best.number ((get_check_point r.finality + checkpoint_interval - 1) % u32_mod)
      then (s, some s.finalized)
      else elim (concluded_end best) [
        | none ↦ (s, none)
        | some store_id ↦ elim (s.justified) [
          | none ↦ find_justified s store_id
          | some cached ↦
              if nat_beq store_id cached.0 then (s, some cached.1) else find_justified s store_id
        ]
      ]

unfoldable pub accepts : Repo → FinalityState → ℕ → Bool
accepts r s parent_id =
    if nat_beq (number_of s.finalized) 0 then true else has_block r parent_id s.finalized

-- `Header.BetterThan` of block/header.go.
unfoldable pub better_than : Header → Header → Bool
better_than h other =
    if ltb other.total_score h.total_score
    then true
    else if ltb h.total_score other.total_score
    then false
    else ltb h.id other.id

-- `Select` of the new block against the best one; `none` is an error.
unfoldable pub select : Repo → Engine → Header → Header → Engine × Option Bool
select r e header best =
    let (e1, new_state) = compute_state r e header in
    elim new_state [
      | none ↦ (e1, none)
      | some new ↦
          let (e2, best_state) = compute_state r e1 best in
          elim best_state [
            | none ↦ (e2, none)
            | some old ↦ (
              e2,
              some (
                  if nat_beq new.quality old.quality
                  then better_than header best
                  else ltb old.quality new.quality),
            )
          ]
    ]
