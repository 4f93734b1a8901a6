-- ===== src/Poa/SchedulerV2/Inactive.antt =====
-- `Updates` of poa/sched_v2.go: who is set inactive for a missed slot, and the score.
use mathlib.Core.List.{append-nil}
use rmit.Prelude.{
  ℕ, zero, suc, ◌+◌, ◌-◌, ◌*◌, ◌/◌, ◌≤◌, ◌<◌, ◌≡◌, refl, true, false, List, [], ◌∷◌, ◌++◌, arith,
  if◌then◌else◌, length, take, length-take, ◌∙◌, nat_beq, ap, dec_lt,
}
use rmit.Thor.{block_interval, u64_mod}
use rmit.Poa.Proposer.{Proposer}
use rmit.Poa.SchedulerV2.{SchedulerV2, inactive_from, updates}

-- The specification: all but one address, as proposers that are not active.
pub others : ℕ → List ℕ → List Proposer
others mine [] = []
others mine (a ∷ rest) =
    if nat_beq a mine
    then others mine rest
    else record { address = a; active = false } ∷ others mine rest

-- How many slots lie between the parent block and a time.
abbrev pub missed : SchedulerV2 → ℕ → ℕ
missed s t = (t - s.parent_block_time - 1) / block_interval

abbrev pub reactivated : Proposer → List Proposer
reactivated p = if p.active then [] else record p { active = true } ∷ []

take-nil {ℓ} : {A : Type ℓ} (n : ℕ) → take {A = A} n [] ≡ []
take-nil zero = refl
take-nil (suc n) = refl

length-others-le : (mine : ℕ) (xs : List ℕ) → length (others mine xs) ≤ length xs
unfolding others
length-others-le mine [] = omega arith
length-others-le mine (a ∷ xs) = ground (arith, length-others-le mine xs)

module _ (s : SchedulerV2) (t : ℕ) where
  take-ahead :
      (i : ℕ) (a : ℕ) (xs : List ℕ)
      → i < missed s t
      → take (missed s t - i) (a ∷ xs) ≡ a ∷ take (missed s t - (i + 1)) xs
  take-ahead i a xs h =
      let e : missed s t - i ≡ suc (missed s t - (i + 1)) = omega arith in
      ap (λ n. take n (a ∷ xs)) e

  take_behind : (i : ℕ) (xs : List ℕ) → missed s t ≤ i → take (missed s t - i) xs ≡ []
  take_behind i xs h = let e : missed s t - i ≡ 0 = omega arith in ap (λ n. take n xs) e

  inactive_from-others :
      (i : ℕ) (xs : List ℕ)
      → s.parent_block_time + block_interval + (i + length xs) * block_interval < u64_mod
      → inactive_from s t i xs ≡ others s.proposer.address (take (missed s t - i) xs)
  unfolding inactive_from others
  inactive_from-others i [] room = rw (take-nil (missed s t - i))
  inactive_from-others i (a ∷ xs) room =
      let rest = inactive_from-others (i + 1) xs (omega arith) in
      elim (dec_lt i (missed s t)) [
        | yes h ↦ ground (arith, rest, take-ahead i a xs h)
        | no h ↦ ground (arith, take_behind i (a ∷ xs))
      ]

  -- No slot of the first round lies past the end of the times.
  abbrev pub FirstRoundFits : Type 0
  FirstRoundFits =
      s.parent_block_time + block_interval + length s.shuffled * block_interval < u64_mod

  inactive-others :
      FirstRoundFits
      → inactive_from s t 0 s.shuffled ≡ others s.proposer.address (take (missed s t) s.shuffled)
  inactive-others room =
      let e : missed s t - 0 ≡ missed s t = omega arith in
      inactive_from-others 0 s.shuffled (omega (arith, room))
      ∙ ap (λ n. others s.proposer.address (take n s.shuffled)) e

  -- `Updates` sets inactive exactly the other addresses of the shuffled list whose slot, in the
  -- first round, passed before the new block, and then sets the proposer active if it is not;
  -- the score and the number set inactive make the number of proposers. The slots of the first
  -- round do not wrap.
  pub updates_lem :
      FirstRoundFits
      → ((updates s t).0
          ≡ others s.proposer.address (take (missed s t) s.shuffled) ++ reactivated s.proposer)
        × ((updates s t).1 + length (others s.proposer.address (take (missed s t) s.shuffled))
            ≡ length s.shuffled)
  unfolding updates
  updates_lem room =
      let all = others s.proposer.address (take (missed s t) s.shuffled) in
      let short = length-others-le s.proposer.address (take (missed s t) s.shuffled) in
      let taken = length-take (missed s t) s.shuffled in
      let set_inactive = inactive-others room in
      let shorter = ap length set_inactive in
      (ground (arith, set_inactive, append-nil all), ground (arith, shorter, short, taken))
