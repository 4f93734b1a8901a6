-- ===== src/Poa/SchedulerV1.antt =====
-- poa/sched.go: the scheduler that draws the proposer of each slot.
pub mod Draws
pub mod Missed
pub mod Collected
use rmit.Prelude.{
  ℕ, zero, suc, ◌+◌, ◌-◌, ◌%◌, Bool, true, false, not, Option, none, some, List, [], ◌∷◌, ◌++◌, map,
  ltb, leb, nat_beq, if◌then◌else◌, length, get_elem?, number_key,
}
use rmit.Prelude.Fallible.{◌>>=◌}
use rmit.Prelude.Assoc.{insert}
use rmit.Thor.{block_interval, initial_max_block_proposers, u64_mod}
use rmit.Poa.Proposer.{Proposer}
use rmit.Poa.Slots.{first_slot}

pub record SchedulerV1 : Type 0 where
  pub proposer : Proposer
  pub actives : List Proposer
  pub parent_block_number : ℕ
  pub parent_block_time : ℕ

-- The loop of the constructor: the last proposer of the address, and those that take part.
unfoldable pub select : ℕ → Option Proposer → List Proposer → Option Proposer × List Proposer
select addr found [] = (found, [])
select addr found (p ∷ ps) =
    let mine = nat_beq p.address addr in
    let rest = select addr (if mine then some p else found) ps in
    if mine then (rest.0, p ∷ rest.1) else if p.active then (rest.0, p ∷ rest.1) else rest

-- `none` is the error for an unlisted proposer.
unfoldable pub new_scheduler_v1 : ℕ → List Proposer → ℕ → ℕ → Option SchedulerV1
new_scheduler_v1 addr proposers parent_block_number parent_block_time =
    let (found, actives) = select addr none proposers in
    found >>= λ proposer. some (record {
      proposer = proposer;
      actives = actives;
      parent_block_number = parent_block_number;
      parent_block_time = parent_block_time;
    })

-- `dprp` is the first 64 bits of the hash of a block number and a time. `none` is the fault of an
-- empty list.
module _ (dprp : ℕ → ℕ → ℕ) where
  unfoldable pub whose_turn : SchedulerV1 → ℕ → Option Proposer
  whose_turn s t = get_elem? s.actives (dprp s.parent_block_number t % length s.actives)

  -- The loop of `Schedule`, which has no bound in the source.
  unfoldable pub search_turn : SchedulerV1 → ℕ → ℕ → Option ℕ
  search_turn s zero t = none
  search_turn s (suc rounds) t =
      let rest = search_turn s rounds ((t + block_interval) % u64_mod) in
      whose_turn s t >>= λ p. if nat_beq p.address s.proposer.address then some t else rest

  unfoldable pub schedule_v1 : ℕ → SchedulerV1 → ℕ → Option ℕ
  schedule_v1 rounds s now = search_turn s rounds (first_slot s.parent_block_time now)

  unfoldable pub is_the_time_v1 : SchedulerV1 → ℕ → Option Bool
  is_the_time_v1 s new_block_time =
      if leb new_block_time s.parent_block_time
      then some false
      else if not (nat_beq ((new_block_time - s.parent_block_time) % block_interval) 0)
      then some false
      else (whose_turn s new_block_time >>= λ p. some (nat_beq p.address s.proposer.address))

  -- A step back in time, which wraps below 0.
  abbrev pub slot_before : ℕ → ℕ
  slot_before t = (t + (u64_mod - block_interval)) % u64_mod

  -- The loop of `Updates`: the map `toDeactivate` at its end.
  unfoldable pub to_deactivate :
      SchedulerV1 → ℕ → ℕ → List (ℕ × Proposer) → Option (List (ℕ × Proposer))
  to_deactivate s zero t found = some found
  to_deactivate s (suc rounds) t found =
      let next = whose_turn s t >>= λ p.
      to_deactivate s rounds (slot_before t)
        (if nat_beq p.address s.proposer.address then found else insert p.address p found) in
      if ltb s.parent_block_time t then next else some found

  -- `Updates`. The source goes through its map in an order that is not fixed.
  unfoldable pub updates_v1 : SchedulerV1 → ℕ → Option (List Proposer × ℕ)
  updates_v1 s new_block_time =
      to_deactivate s initial_max_block_proposers (slot_before new_block_time) [] >>= λ found.
      let inactive = map (λ (e : ℕ × Proposer). record e.1 { active = false }) found in
      some (
        if s.proposer.active
            then inactive
            else inactive ++ record s.proposer { active = true } ∷ [],
        (length s.actives + (u64_mod - length found)) % u64_mod,
      )
