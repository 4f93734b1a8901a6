-- ===== src/Tests/Proposers.antt =====
-- The schedulers with three proposers.
use rmit.Prelude.{
  ℕ, ◌+◌, ◌≤◌, ◌<◌, ◌≡◌, ◌≢◌, refl, true, false, none, some, List, [], ◌∷◌, ◌++◌, arith, length,
  take, inl, inr,
}
use rmit.Poa.Proposer.{Proposer}
use rmit.Poa.Slots.{first_slot, IsSlot, first_slot_lem}
use rmit.Poa.SchedulerV2.{
  SchedulerV2, search_slot, schedule, is_the_time, updates, inactive_from, collect,
  new_scheduler_v2,
}
use rmit.Poa.SchedulerV2.Turns.{Occurs, schedule-is_the_time, schedule_earliest}
use rmit.Poa.SchedulerV2.Inactive.{others, missed, reactivated, updates_lem}
use rmit.Poa.SchedulerV2.Listed.{new_scheduler_v2_listed, new_scheduler_v2_unlisted}

abbrev sleeper : Proposer
sleeper = record { address = 7; active = false }

abbrev proposers : List Proposer
proposers =
    record { address = 5; active = true } ∷ record { address = 6; active = true } ∷ sleeper ∷ []

abbrev sched : SchedulerV2
sched = record { proposer = sleeper; parent_block_time = 100; shuffled = 5 ∷ 6 ∷ 7 ∷ [] }

abbrev keep_order : List (ℕ × ℕ) → List (ℕ × ℕ)
keep_order xs = xs

new_test : new_scheduler_v2 (λ a. a) keep_order 7 proposers 100 ≡ some sched
unfolding new_scheduler_v2 collect
new_test = refl

schedule_test : schedule sched 125 ≡ some 130
unfolding schedule search_slot first_slot
schedule_test = refl

updates_test : updates sched 130 ≡ (
  record { address = 5; active = false }
      ∷ record { address = 6; active = false }
      ∷ record sleeper { active = true }
      ∷ [],
  1,
)
unfolding updates inactive_from
updates_test = refl

first_slot_lem_test :
    IsSlot 100 (first_slot 100 125)
    × (125 ≤ first_slot 100 125)
    × ((t : ℕ) → IsSlot 100 t → 125 ≤ t → first_slot 100 125 ≤ t)
first_slot_lem_test =
    first_slot_lem 100 125 (130, (omega arith, omega arith), omega arith, omega arith)

schedule-is_the_time_test :
    IsSlot 100 130
    × (125 ≤ 130)
    × (is_the_time sched 130 ≡ some true)
    × ((u : ℕ) → IsSlot 100 u → 125 ≤ u → u < 130 → is_the_time sched u ≢ some true)
schedule-is_the_time_test =
    schedule-is_the_time sched 125
      (record { behind_parent = omega arith; behind_now = omega arith }) schedule_test

schedule_earliest_example :
    (t : ℕ) × (schedule sched 125 ≡ some t)
    × IsSlot 100 t
    × (125 ≤ t)
    × (is_the_time sched t ≡ some true)
    × ((u : ℕ) → IsSlot 100 u → 125 ≤ u → u < t → is_the_time sched u ≢ some true)
schedule_earliest_example =
    schedule_earliest sched 125 (record { behind_parent = omega arith; behind_now = omega arith })
      (2, refl)

updates_lem_example :
    ((updates sched 130).0
      ≡ others 7 (take (missed sched 130) sched.shuffled) ++ reactivated sleeper)
    × ((updates sched 130).1 + length (others 7 (take (missed sched 130) sched.shuffled))
        ≡ length sched.shuffled)
updates_lem_example = updates_lem sched 130 (omega arith)

new_scheduler_v2_listed_test :
    (s : SchedulerV2) × (new_scheduler_v2 (λ a. a) keep_order 7 proposers 100 ≡ some s)
    × (s.proposer.address ≡ 7)
    × (s.parent_block_time ≡ 100)
    × Occurs s.proposer.address s.shuffled
new_scheduler_v2_listed_test =
    new_scheduler_v2_listed (λ a. a) 7 keep_order proposers 100 (λ xs e o. o) (inr (inr (inl refl)))

new_scheduler_v2_unlisted_test : new_scheduler_v2 (λ a. a) keep_order 9 proposers 100 ≡ none
new_scheduler_v2_unlisted_test =
    new_scheduler_v2_unlisted (λ a. a) 9 keep_order proposers 100 (λ h. ground arith)
