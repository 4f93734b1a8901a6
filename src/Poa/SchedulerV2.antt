-- ===== src/Poa/SchedulerV2.antt =====
-- poa/sched_v2.go: the scheduler that shuffles the proposers once for each block.
pub mod Turns
pub mod Inactive
pub mod Listed
use rmit.Prelude.{
  ℕ, zero, suc, ◌+◌, ◌-◌, ◌*◌, ◌/◌, ◌%◌, ◌≤◌, ◌<◌, ◌≡◌, ◌≢◌, refl, Bool, true, false, ◌||◌, not,
  Option, none, some, List, [], ◌∷◌, ◌++◌, map, arith, ltb, leb, if◌then◌else◌, length, get_elem?,
  nat_beq,
}
use rmit.Prelude.Fallible.{◌>>=◌}
use rmit.Thor.{block_interval, u64_mod}
use rmit.Poa.Proposer.{Proposer}
use rmit.Poa.Slots.{first_slot}

pub record SchedulerV2 : Type 0 where
  pub proposer : Proposer
  pub parent_block_time : ℕ
  pub shuffled : List ℕ

-- The loop of the constructor: the last proposer of the address, and the addresses that take part,
-- each with its digest.
unfoldable pub collect :
    (ℕ → ℕ) → ℕ → Option Proposer → List Proposer → Option Proposer × List (ℕ × ℕ)
collect digest addr found [] = (found, [])
collect digest addr found (p ∷ ps) =
    let mine = nat_beq p.address addr in
    let rest = collect digest addr (if mine then some p else found) ps in
    if p.active || mine then (rest.0, (p.address, digest p.address) ∷ rest.1) else rest

-- `NewSchedulerV2`. `digest` is the hash of the seed, the parent's number and an address, as a
-- number; `sort` is sort.Slice by the digests. `none` is the error for an unlisted proposer.
unfoldable pub new_scheduler_v2 :
    (ℕ → ℕ) → (List (ℕ × ℕ) → List (ℕ × ℕ)) → ℕ → List Proposer → ℕ → Option SchedulerV2
new_scheduler_v2 digest sort addr proposers parent_block_time =
    let (found, list) = collect digest addr none proposers in
    found >>= λ proposer. some (record {
      proposer = proposer;
      parent_block_time = parent_block_time;
      shuffled = map (λ e. e.0) (sort list);
    })

-- The loop of `Schedule`, with the rounds left and the counter `i`. An index past the list would
-- be a fault, and so is the end of the loop ("something wrong with proposers list").
unfoldable pub search_slot : SchedulerV2 → ℕ → ℕ → ℕ → ℕ → Option ℕ
search_slot s new_block_time offset zero i = none
search_slot s new_block_time offset (suc rounds) i =
    let rest = search_slot s new_block_time offset rounds (i + 1) in
    get_elem? s.shuffled ((i + offset) % u64_mod % length s.shuffled) >>= λ a.
    if nat_beq a s.proposer.address
    then some ((new_block_time + i * block_interval) % u64_mod)
    else rest

unfoldable pub schedule : SchedulerV2 → ℕ → Option ℕ
schedule s now =
    let new_block_time = first_slot s.parent_block_time now in
    let since_parent = (new_block_time + (u64_mod - s.parent_block_time)) % u64_mod in
    search_slot s new_block_time ((since_parent / block_interval + (u64_mod - 1)) % u64_mod)
      (length s.shuffled) 0

-- `none` is the fault of an empty list.
unfoldable pub is_scheduled : SchedulerV2 → ℕ → ℕ → Option Bool
is_scheduled s block_time proposer =
    if leb block_time s.parent_block_time
    then some false
    else if not (nat_beq ((block_time - s.parent_block_time) % block_interval) 0)
    then some false
    else (get_elem? s.shuffled
          ((block_time - s.parent_block_time - block_interval) / block_interval % length s.shuffled)
        >>= λ a. some (nat_beq a proposer))

unfoldable pub is_the_time : SchedulerV2 → ℕ → Option Bool
is_the_time s new_block_time = is_scheduled s new_block_time s.proposer.address

-- The loop of `Updates` over the list, with the counter `i`; it ends at the first slot that is not
-- before the new block.
unfoldable pub inactive_from : SchedulerV2 → ℕ → ℕ → List ℕ → List Proposer
inactive_from s new_block_time i [] = []
inactive_from s new_block_time i (a ∷ later) =
    let rest = inactive_from s new_block_time (i + 1) later in
    if leb new_block_time ((s.parent_block_time + block_interval + i * block_interval) % u64_mod)
    then []
    else if nat_beq a s.proposer.address
    then rest
    else record { address = a; active = false } ∷ rest

unfoldable pub updates : SchedulerV2 → ℕ → List Proposer × ℕ
updates s new_block_time =
    let inactive = inactive_from s new_block_time 0 s.shuffled in
    let score = length s.shuffled - length inactive in
    if s.proposer.active
    then (inactive, score)
    else (inactive ++ record s.proposer { active = true } ∷ [], score)
