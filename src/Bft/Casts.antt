-- ===== src/Bft/Casts.antt =====
-- bft/casts.go and `ShouldVote` of bft/engine.go: the checkpoints that the node voted for, and
-- whether it votes COM on a block.
pub mod Conflicts
use rmit.Prelude.{
  ℕ, zero, suc, ◌+◌, ◌-◌, ◌/◌, ◌%◌, Bool, true, false, Option, none, some, List, [], ◌∷◌, filter_if,
  ltb, leb, nat_beq, if◌then◌else◌, number_key,
}
use rmit.Prelude.Fallible.{◌>>=◌}
use rmit.Prelude.Assoc.{lookup, insert}
use rmit.Thor.{checkpoint_interval, u32_mod}
use rmit.Bft.Rounds.{get_check_point, get_store_point}
use rmit.Bft.Justifier.{BftState}
use rmit.Bft.Walk.{Header}
use rmit.Bft.Engine.{Repo, Engine, number_of, compute_state}
use rmit.Bft.Search.{find_checkpoint_by_quality}
use rmit.Bft.Finality.{FinalityState, with_engine, has_block}

-- The higher of a saved quality and a new one.
unfoldable pub raise_cast : ℕ → ℕ → List (ℕ × ℕ) → List (ℕ × ℕ)
raise_cast checkpoint quality casts = elim (lookup checkpoint casts) [
  | none ↦ insert checkpoint quality casts
  | some old ↦ if ltb old quality then insert checkpoint quality casts else casts
]

module _ (r : Repo) (master : ℕ) where
  -- The cast for a block that the node signed, on the branch of a head.
  unfoldable pub cast_at : ℕ → Header → Engine → List (ℕ × ℕ) → Engine × Option (List (ℕ × ℕ))
  cast_at head header e casts =
      let (e', result) = compute_state r e header in
      (
        e',
        result >>= λ state. r.block_at head (get_check_point header.number) >>= λ checkpoint.
            some (raise_cast checkpoint state.quality casts),
      )

  -- The walk from a head back to a block that the node signed, with the number of blocks left; the
  -- last one is at the finalized number.
  unfoldable pub walk_casts : ℕ → ℕ → ℕ → ℕ → Engine → List (ℕ × ℕ) → Engine × Option (List (ℕ × ℕ))
  walk_casts zero finalized head cur e casts = (e, none)
  walk_casts (suc fuel) finalized head cur e casts = elim (r.headers cur) [
    | none ↦ (e, none)
    | some header ↦
        let further = walk_casts fuel finalized head header.parent_id e casts in
        if nat_beq header.signer master
        then cast_at head header e casts
        else if leb header.number (number_of finalized)
        then (e, some casts)
        else further
  ]

  unfoldable pub all_casts : ℕ → List ℕ → Engine → List (ℕ × ℕ) → Engine × Option (List (ℕ × ℕ))
  all_casts finalized [] e casts = (e, some casts)
  all_casts finalized (head ∷ heads) e casts =
      let (e', result) = walk_casts (number_of head + 1) finalized head head e casts in
      elim result [ none ↦ (e', none) | some casts' ↦ all_casts finalized heads e' casts' ]

  -- `newCasts`. `scan_heads` gives the heads of the repository from a number on.
  unfoldable pub new_casts : (ℕ → Option (List ℕ)) → FinalityState → FinalityState × Bool
  new_casts scan_heads s = elim (scan_heads (number_of s.finalized)) [
    | none ↦ (s, false)
    | some heads ↦
        let (e, result) = all_casts s.finalized heads s.engine [] in
        elim result [
          | none ↦ (with_engine s e, false)
          | some casts ↦ (record s { engine = e; casts = some casts }, true)
        ]
  ]

  -- The casts are collected where they are nil; they stay nil on an error.
  unfoldable pub ready_casts : (ℕ → Option (List ℕ)) → FinalityState → FinalityState
  ready_casts scan_heads s = elim (s.casts) [ none ↦ (new_casts scan_heads s).0 | some casts ↦ s ]

-- `Slice`; `sort` is sort.Slice by the ids.
unfoldable pub slice_casts : (List (ℕ × ℕ) → List (ℕ × ℕ)) → ℕ → List (ℕ × ℕ) → List (ℕ × ℕ)
slice_casts sort finalized casts =
    sort (filter_if (λ c. leb (number_of finalized) (number_of c.0)) casts)

-- One of the two checkpoints lies on the branch of the other, the later one.
unfoldable pub includes : Repo → ℕ → ℕ → Bool
includes r recent checkpoint =
    if ltb (number_of recent) (number_of checkpoint)
    then has_block r checkpoint recent
    else has_block r recent checkpoint

-- The loop of `ShouldVote` over the casts.
unfoldable pub no_conflict : Repo → ℕ → ℕ → List (ℕ × ℕ) → Bool
no_conflict r head_quality recent [] = true
no_conflict r head_quality recent (c ∷ casts) =
    let rest = no_conflict r head_quality recent casts in
    if leb (head_quality - 1) c.1 then if includes r recent c.0 then rest else false else rest

module _ (search : ℕ → (ℕ → Option Bool) → Option ℕ) (r : Repo) where
  -- The most recent justified checkpoint of the branch of the parent.
  unfoldable pub recent_justified : FinalityState → ℕ → BftState → Option ℕ
  recent_justified s parent_id state =
      if state.justified
      then r.block_at parent_id (get_check_point (number_of parent_id))
      else (r.block_at parent_id
            (get_store_point ((number_of parent_id + (u32_mod - checkpoint_interval)) % u32_mod))
          >>= λ prev.
              find_checkpoint_by_quality search r s.engine.qualities state.quality s.finalized prev)

  -- `ShouldVote` with its casts at hand; `none` is an error.
  unfoldable pub vote_with :
      (List (ℕ × ℕ) → List (ℕ × ℕ)) → List (ℕ × ℕ) → FinalityState → ℕ → FinalityState × Option Bool
  vote_with sort casts s parent_id =
      if nat_beq ((number_of parent_id + 1) % u32_mod / checkpoint_interval)
        (r.finality / checkpoint_interval)
      then (s, some false)
      else elim (r.headers parent_id) [
        | none ↦ (s, none)
        | some header ↦
            let (e, result) = compute_state r s.engine header in
            let s' = with_engine s e in
            elim result [
              | none ↦ (s', none)
              | some state ↦ if nat_beq state.quality 0 then (s', some false) else (
                s',
                recent_justified s' parent_id state >>= λ recent.
                    some (no_conflict r state.quality recent (slice_casts sort s.finalized casts)),
              )
            ]
      ]

  -- `ShouldVote`.
  unfoldable pub should_vote :
      (List (ℕ × ℕ) → List (ℕ × ℕ))
      → ℕ
      → (ℕ → Option (List ℕ))
      → FinalityState
      → ℕ
      → FinalityState × Option Bool
  should_vote sort master scan_heads s parent_id =
      let s' = ready_casts r master scan_heads s in
      elim (s'.casts) [ none ↦ (s', none) | some casts ↦ vote_with sort casts s' parent_id ]
