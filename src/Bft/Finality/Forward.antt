-- ===== src/Bft/Finality/Forward.antt =====
-- The finalized checkpoint never moves back, and stays on the branch of the committed block.
use rmit.Prelude.{
  ℕ, ◌+◌, ◌-◌, ◌*◌, ◌/◌, ◌%◌, ◌≤◌, ◌<◌, ◌≡◌, ◌≢◌, refl, Bool, true, false, ◌&&◌, Option, some, List,
  arith, ltb, nat_beq, if◌then◌else◌, Bool-cases, Option-cases, inl, inr, sym, ap, ◌∙◌, subst,
  number_key,
}
use rmit.Prelude.Fallible.{>>=-eq-some}
use rmit.Thor.{checkpoint_interval, u32_mod}
use rmit.Bft.Rounds.{get_check_point, get_store_point, is_check_point}
use rmit.Bft.Justifier.{BftState}
use rmit.Bft.Walk.{Header}
use rmit.Bft.Engine.{Repo, number_of, compute_state}
use rmit.Bft.Search.{search_start, round_start, round_count, find_checkpoint_by_quality}
use rmit.Bft.Search.First.{IsSearch, checkpoint_at-some}
use rmit.Bft.Finality.{
  FinalityState, Outcome, with_engine, save_quality, has_block, finalize, conclude_round, mark_cast,
  mark_after, commit_block, accepts,
}

-- A branch has blocks at their numbers.
abbrev pub IsNumbered : Repo → Type 0
IsNumbered r = (head n id : ℕ) → r.block_at head n ≡ some id → number_of id ≡ n

no_wrap :
    (start head num : ℕ)
    → start ≤ head
    → head < u32_mod
    → num ≤ (head + (u32_mod - start)) % u32_mod / checkpoint_interval + 1
    → num ≢ (head + (u32_mod - start)) % u32_mod / checkpoint_interval + 1
    → (start + num * checkpoint_interval) % u32_mod ≡ start + num * checkpoint_interval
no_wrap start head num low small bound other = omega arith

module _ (search : ℕ → (ℕ → Option Bool) → Option ℕ) (laws : IsSearch search) (r : Repo)
    (numbered : IsNumbered r) where
  number_of_small : (id : ℕ) → number_of id < u32_mod
  unfolding number_of
  number_of_small id = omega arith

  has_block-own :
      (head_id id : ℕ) → r.block_at head_id (number_of id) ≡ some id → has_block r head_id id ≡ true
  unfolding has_block
  has_block-own head_id id h = ground (arith, h)

  -- A checkpoint that the search finds lies on the branch, behind the start of the search.
  find_behind :
      (qualities : List (ℕ × ℕ)) (target finalized head_id id : ℕ)
      → find_checkpoint_by_quality search r qualities target finalized head_id ≡ some id
      → search_start r finalized ≤ number_of head_id
      → (num : ℕ) × (number_of id ≡ search_start r finalized + num * checkpoint_interval)
        × (has_block r head_id id ≡ true)
  unfolding find_checkpoint_by_quality round_start round_count has_block
  find_behind qualities target finalized head_id id h start =
      let (num, found, at) = >>=-eq-some (search (round_count r finalized head_id) _) _ h in
      let (other, quality, block) =
        checkpoint_at-some search laws r qualities finalized head_id target num id at in
      let small = number_of_small head_id in
      let low = laws.bound _ _ num found in
      let is = numbered head_id (round_start r finalized num) id block in
      let whole : number_of id ≡ search_start r finalized + num * checkpoint_interval =
        is ∙ no_wrap (search_start r finalized) (number_of head_id) num start small low other in
      (num, whole, has_block-own head_id id (ap (r.block_at head_id) is ∙ block))

  -- The start of the search is a checkpoint not before the finalized one.
  start_behind :
      (finalized : ℕ)
      → is_check_point (number_of finalized) ≡ true
      → (number_of finalized ≤ search_start r finalized)
        × (is_check_point (search_start r finalized) ≡ true)
  unfolding search_start is_check_point get_check_point
  start_behind finalized h = elim (Bool-cases (nat_beq (number_of finalized) 0)) [
    | inl zero ↦ (ground (arith, zero), ground (arith, zero))
    | inr later ↦ (ground (arith, later), ground (arith, later, h))
  ]

  rounds_behind :
      (start num : ℕ)
      → is_check_point start ≡ true
      → is_check_point (start + num * checkpoint_interval) ≡ true
  unfolding is_check_point get_check_point
  rounds_behind start num h = ground (arith, h)

  -- What holds of the finalized checkpoint behind a header, when it was `finalized` before.
  abbrev pub Behind : ℕ → ℕ → FinalityState → Type 0
  Behind finalized head_id s =
      (number_of finalized ≤ number_of s.finalized)
      × (is_check_point (number_of s.finalized) ≡ true)
      × (accepts r s head_id ≡ true)

  Behind-same :
      (finalized head_id : ℕ) (s s' : FinalityState)
      → s.finalized ≡ s'.finalized
      → Behind finalized head_id s
      → Behind finalized head_id s'
  unfolding accepts has_block
  Behind-same finalized head_id s s' same (a, b, c) = (
    omega (arith, a, ap number_of same),
    ap (λ f. is_check_point (number_of f)) (sym same) ∙ b,
    ap (λ f. if nat_beq (number_of f) 0 then true else has_block r head_id f) (sym same) ∙ c,
  )

  accepts_has :
      (s : FinalityState) (head_id : ℕ)
      → has_block r head_id s.finalized ≡ true
      → accepts r s head_id ≡ true
  unfolding accepts
  accepts_has s head_id h = ground (arith, h)

  module _ (finalized : ℕ) (header : Header) (final : is_check_point (number_of finalized) ≡ true)
      (start : search_start r finalized ≤ number_of header.id) where
    found-Behind :
        (s : FinalityState) (qualities : List (ℕ × ℕ)) (target id : ℕ)
        → find_checkpoint_by_quality search r qualities target finalized header.id ≡ some id
        → s.finalized ≡ id
        → Behind finalized header.id s
    found-Behind s qualities target id found is =
        let (num, at, held) = find_behind qualities target finalized header.id id found start in
        let (low, point) = start_behind finalized final in
        (
          omega (arith, at, low, ap number_of is),
          ap (λ f. is_check_point (number_of f)) is
              ∙ ap is_check_point at
              ∙ rounds_behind (search_start r finalized) num point,
          accepts_has s header.id (ap (has_block r header.id) is ∙ held),
        )

    finalize-Behind :
        (s : FinalityState) (state : BftState)
        → s.finalized ≡ finalized
        → Behind finalized header.id s
        → Behind finalized header.id (finalize search r s header state).0
    unfolding finalize
    finalize-Behind s state same h = elim (Bool-cases (state.committed && ltb 1 state.quality)) [
      | inr not_yet ↦ rw not_yet h
      | inl now ↦
          let find = λ (f : ℕ).
            find_checkpoint_by_quality search r s.engine.qualities (state.quality - 1) f
              header.id in
          elim (Option-cases (find s.finalized)) [
            | inl e ↦
                let kept : (finalize search r s header state).0 ≡ s = ground (arith, now, e) in
                subst (Behind finalized header.id) (sym kept) h
            | inr (id, e) ↦
                let moved : (finalize search r s header state).0
                    ≡ record s { finalized = id; saved = some id } =
                  ground (arith, now, e) in
                subst (Behind finalized header.id) (sym moved) (
                  found-Behind (record s { finalized = id; saved = some id }) s.engine.qualities
                    (state.quality - 1) id (ap find (sym same) ∙ e) refl)
          ]
    ]

    conclude_round-Behind :
        (s : FinalityState)
        → s.finalized ≡ finalized
        → Behind finalized header.id s
        → Behind finalized header.id (conclude_round search r s header).0
    unfolding conclude_round
    conclude_round-Behind s same h =
        let e = (compute_state r s.engine header).0 in
        elim (Option-cases (compute_state r s.engine header).1) [
          | inl failed ↦
              let kept : (conclude_round search r s header).0 ≡ with_engine s e =
                ground (arith, failed) in
              subst (Behind finalized header.id) (sym kept)
                (Behind-same finalized header.id s (with_engine s e) refl h)
          | inr (state, counted) ↦
              let s' = with_engine s (save_quality header.id state.quality e) in
              let next : (conclude_round search r s header).0
                  ≡ (finalize search r s' header state).0 =
                ground (arith, counted) in
              subst (Behind finalized header.id) (sym next)
                (finalize-Behind s' state same (Behind-same finalized header.id s s' refl h))
        ]

  mark_cast-finalized :
      (s : FinalityState) (header : Header)
      → (mark_cast search r s header).0.finalized ≡ s.finalized
  unfolding mark_cast
  mark_cast-finalized s header = ground arith

  mark_after-Behind :
      (finalized head_id : ℕ) (header : Header) (is_packing : Bool) (x : FinalityState × Outcome)
      → Behind finalized head_id x.0
      → Behind finalized head_id (mark_after search r header is_packing x).0
  mark_after-Behind finalized head_id header true (s, Outcome.ok) h =
      Behind-same finalized head_id s (mark_cast search r s header).0
        (sym (mark_cast-finalized s header)) h
  mark_after-Behind finalized head_id header false (s, Outcome.ok) h = h
  mark_after-Behind finalized head_id header is_packing (s, Outcome.err) h = h
  mark_after-Behind finalized head_id header is_packing (s, Outcome.panic) h = h

  -- Whatever `CommitBlock` returns, the finalized checkpoint afterwards has no lower number than
  -- before, is the first block of a round, and lies on the branch of the committed block, so that
  -- its children are accepted. The finalized block before was the first of a round and on that
  -- branch, whose end is not before the start of the search, and a branch has blocks at their
  -- numbers.
  pub commit_block-Behind :
      (s : FinalityState) (header : Header) (is_packing : Bool)
      → is_check_point (number_of s.finalized) ≡ true
      → search_start r s.finalized ≤ number_of header.id
      → accepts r s header.id ≡ true
      → Behind s.finalized header.id (commit_block search r s header is_packing).0
  unfolding commit_block
  commit_block-Behind s header is_packing final start accepted =
      let h : Behind s.finalized header.id s = (omega arith, final, accepted) in
      elim (Bool-cases (nat_beq (get_store_point header.number) header.number)) [
        | inl ends ↦ rw ends (
            mark_after-Behind s.finalized header.id header is_packing _
              (conclude_round-Behind s.finalized header final start s refl h))
        | inr inside ↦
            rw inside (mark_after-Behind s.finalized header.id header is_packing (s, Outcome.ok) h)
      ]
