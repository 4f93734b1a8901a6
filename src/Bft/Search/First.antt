-- ===== src/Bft/Search/First.antt =====
-- The search finds the first round of a quality.
use rmit.Prelude.{
  ℕ, ◌≤◌, ◌<◌, ◌≡◌, ◌≢◌, Bool, true, false, Option, none, some, List, arith, leb, nat_beq,
  Bool-cases, inl, inr, ap, ◌∙◌, dec_lt, Option-cases, number_key,
}
use rmit.Prelude.Fallible.{◌>>=◌, >>=-eq-some}
use rmit.Bft.Engine.{Repo}
use rmit.Bft.Search.{
  round_start, round_quality, round_count, checkpoint_at, find_checkpoint_by_quality,
}

-- What sort.Search promises: a result is at most the count; and for a test that returns for every
-- index below the count, and is never true before it is false, the result exists, is true where it
-- is below the count, and nothing before it is true.
pub record IsSearch (search : ℕ → (ℕ → Option Bool) → Option ℕ) : Type 0 where
  pub bound : (n : ℕ) (f : ℕ → Option Bool) (m : ℕ) → search n f ≡ some m → m ≤ n
  pub least :
      (n : ℕ) (f : ℕ → Option Bool) (b : ℕ → Bool)
      → ((i : ℕ) → i < n → f i ≡ some (b i))
      → ((i j : ℕ) → i ≤ j → j < n → b i ≡ true → b j ≡ true)
      → (m : ℕ) × (search n f ≡ some m) × (m < n → b m ≡ true) × ((i : ℕ) → i < m → b i ≡ false)

module _ (search : ℕ → (ℕ → Option Bool) → Option ℕ) (laws : IsSearch search) (r : Repo)
    (qualities : List (ℕ × ℕ)) (finalized head_id : ℕ) where
  checked :
      (q : ℕ → ℕ) (target m : ℕ)
      → round_quality r qualities finalized head_id m ≡ some (q m)
      → m < round_count r finalized head_id
      → q m ≡ target
      → checkpoint_at r qualities target finalized head_id m
        ≡ r.block_at head_id (round_start r finalized m)
  unfolding checkpoint_at
  checked q target m saved within is = ground (arith, saved)

  -- On a branch whose rounds have saved qualities that never fall from one to the next, the search
  -- for the quality of some round returns the checkpoint of the first round of that quality.
  pub find_checkpoint_first :
      (q : ℕ → ℕ) (target j : ℕ)
      → ((i : ℕ)
          → i < round_count r finalized head_id
          → round_quality r qualities finalized head_id i ≡ some (q i))
      → ((i k : ℕ) → i ≤ k → k < round_count r finalized head_id → q i ≤ q k)
      → j < round_count r finalized head_id
      → q j ≡ target
      → (m : ℕ) × (m ≤ j)
        × (q m ≡ target)
        × ((i : ℕ) → i < m → q i < target)
        × (find_checkpoint_by_quality search r qualities target finalized head_id
            ≡ r.block_at head_id (round_start r finalized m))
  unfolding find_checkpoint_by_quality
  find_checkpoint_first q target j saved grows in_range at_j =
      let n = round_count r finalized head_id in
      let test : ℕ → Option Bool =
        λ i. round_quality r qualities finalized head_id i >>= λ x. some (leb target x) in
      let (m, found, is, none_before) =
        laws.least n test (λ i. leb target (q i))
          (λ i h. ap (λ o. o >>= λ x. some (leb target x)) (saved i h))
          (λ i k le h t. ground (arith, grows i k le h, t)) in
      let low : m ≤ j = elim (dec_lt j m) [
        | yes before ↦ absurd (ground (arith, none_before j before, at_j))
        | no after ↦ omega arith
      ] in
      let within : m < n = omega arith in
      let is_target : q m ≡ target = ground (arith, is within, grows m j low in_range, at_j) in
      (
        m,
        low,
        is_target,
        λ i h. ground (arith, none_before i h),
        rw found (checked q target m (saved m within) within is_target),
      )

  pub checkpoint_at-some :
      (target num id : ℕ)
      → checkpoint_at r qualities target finalized head_id num ≡ some id
      → (num ≢ round_count r finalized head_id)
        × (round_quality r qualities finalized head_id num ≡ some target)
        × (r.block_at head_id (round_start r finalized num) ≡ some id)
  unfolding checkpoint_at
  checkpoint_at-some target num id h =
      elim (Bool-cases (nat_beq num (round_count r finalized head_id))) [
        | inl past ↦ absurd (ground (arith, past, h))
        | inr within ↦
            let (q, saved, e) =
              >>=-eq-some (round_quality r qualities finalized head_id num) _ (rw within at h) in
            elim (Bool-cases (nat_beq q target)) [
              | inr other ↦ absurd (ground (arith, other, e))
              | inl same ↦
                  let is : q ≡ target = ground (arith, same) in
                  (λ p. ground (arith, p, within), saved ∙ ap some is, ground (arith, same, e))
            ]
      ]

  -- Where no round of the branch has the quality, the search is an error.
  pub find_checkpoint_missing :
      (target : ℕ)
      → ((i : ℕ)
          → i < round_count r finalized head_id
          → round_quality r qualities finalized head_id i ≢ some target)
      → find_checkpoint_by_quality search r qualities target finalized head_id ≡ none
  unfolding find_checkpoint_by_quality
  find_checkpoint_missing target h =
      elim (Option-cases (find_checkpoint_by_quality search r qualities target finalized head_id)) [
        | inl e ↦ e
        | inr (id, e) ↦
            let (num, found, at) = >>=-eq-some (search (round_count r finalized head_id) _) _ e in
            let (within, is, at_start) = checkpoint_at-some target num id at in
            absurd (h num (omega (arith, laws.bound _ _ num found, within)) is)
      ]
