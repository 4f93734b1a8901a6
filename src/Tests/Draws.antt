-- ===== src/Tests/Draws.antt =====
-- The first scheduler with three proposers, drawn by the number of the slot.
use rmit.Prelude.{
  ℕ, ◌+◌, ◌*◌, ◌/◌, ◌≤◌, ◌<◌, ◌≡◌, ◌≢◌, ◌↔◌, refl, true, false, some, List, [], ◌∷◌, arith,
  number_key,
}
use rmit.Prelude.Assoc.{lookup, insert}
use rmit.Poa.Proposer.{Proposer}
use rmit.Poa.Slots.{first_slot, IsSlot}
use rmit.Poa.SchedulerV1.{
  SchedulerV1, select, new_scheduler_v1, whose_turn, search_turn, schedule_v1, is_the_time_v1,
  to_deactivate, updates_v1,
}
use rmit.Poa.SchedulerV1.Draws.{schedule_v1-is_the_time_v1}
use rmit.Poa.SchedulerV1.Missed.{Missed, to_deactivate_lem}

abbrev by_slot : ℕ → ℕ → ℕ
by_slot number time = number + time / 10

abbrev sleeper : Proposer
sleeper = record { address = 7; active = false }

abbrev sched : SchedulerV1
sched = record {
  proposer = sleeper;
  actives =
      record { address = 5; active = true } ∷ record { address = 6; active = true } ∷ sleeper ∷ [];
  parent_block_number = 2;
  parent_block_time = 100;
}

new_test :
    new_scheduler_v1 7 (record { address = 4; active = false } ∷ sched.actives) 2 100 ≡ some sched
unfolding new_scheduler_v1 select
new_test = refl

schedule_test : schedule_v1 by_slot 5 sched 125 ≡ some 150
unfolding schedule_v1 search_turn whose_turn first_slot
schedule_test = refl

updates_test :
    updates_v1 by_slot sched 150
    ≡ some (
      record { address = 6; active = false }
          ∷ record { address = 5; active = false }
          ∷ record sleeper { active = true }
          ∷ [],
      1,
    )
unfolding updates_v1 to_deactivate whose_turn insert
updates_test = refl

schedule_v1-is_the_time_v1_example :
    (t : ℕ) × (schedule_v1 by_slot 3 sched 125 ≡ some t)
    × IsSlot 100 t
    × (125 ≤ t)
    × (t ≤ 150)
    × (is_the_time_v1 by_slot sched t ≡ some true)
    × ((v : ℕ) → IsSlot 100 v → 125 ≤ v → v < t → is_the_time_v1 by_slot sched v ≢ some true)
unfolding is_the_time_v1 whose_turn first_slot
schedule_v1-is_the_time_v1_example =
    schedule_v1-is_the_time_v1 by_slot sched 125 150 3 (omega arith) (omega arith) (omega arith)
      refl (omega arith)

to_deactivate_lem_example :
    (found : List (ℕ × Proposer)) × (to_deactivate by_slot sched 101 (100 + 4 * 10) [] ≡ some found)
    × ((a : ℕ)
        → ((p : Proposer) × (lookup a found ≡ some p))
          ↔ ((p : Proposer) × Missed by_slot sched 101 4 a p))
to_deactivate_lem_example = to_deactivate_lem by_slot sched 101 4 (omega arith) (omega arith)
