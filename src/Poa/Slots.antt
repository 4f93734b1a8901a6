-- ===== src/Poa/Slots.antt =====
-- The time slots of both schedulers: every tenth second after the parent block.
use rmit.Prelude.{ℕ, ◌+◌, ◌-◌, ◌*◌, ◌/◌, ◌%◌, ◌≤◌, ◌<◌, ◌≡◌, arith, ltb, if◌then◌else◌}
use rmit.Thor.{block_interval, u64_mod}

-- The start of `Schedule`, in both schedulers: the first slot after the parent block that is not
-- before `now`, unless a sum wraps.
unfoldable pub first_slot : ℕ → ℕ → ℕ
first_slot parent_time now =
    let t = (parent_time + block_interval) % u64_mod in
    if ltb t now
    then (t + (now - t + (block_interval - 1)) % u64_mod / block_interval * block_interval)
      % u64_mod
    else t

-- A slot is later than the parent block by a multiple of the interval.
abbrev pub IsSlot : ℕ → ℕ → Type 0
IsSlot parent_time t = (parent_time < t) × ((t - parent_time) % block_interval ≡ 0)

-- A slot that is not before `now` lies below 2 ^ 64.
abbrev pub HasSlot : ℕ → ℕ → Type 0
HasSlot parent_time now = (u : ℕ) × IsSlot parent_time u × (now ≤ u) × (u < u64_mod)

-- Then the first slot is a slot, not before `now`, and no slot before it is.
pub first_slot_lem :
    (parent_time now : ℕ)
    → HasSlot parent_time now
    → IsSlot parent_time (first_slot parent_time now)
      × (now ≤ first_slot parent_time now)
      × ((t : ℕ) → IsSlot parent_time t → now ≤ t → first_slot parent_time now ≤ t)
unfolding first_slot
first_slot_lem parent_time now (u, slot, late, small) =
    (ground arith, ground arith, λ t s h. ground arith)

-- There are slots for so many rounds of a search from `now` before times wrap.
pub record HasRoom (parent_time now rounds : ℕ) : Type 0 where
  pub behind_parent : parent_time + block_interval + rounds * block_interval < u64_mod
  pub behind_now : now + block_interval + rounds * block_interval < u64_mod

pub HasRoom-HasSlot :
    (parent_time now rounds : ℕ) → HasRoom parent_time now rounds → HasSlot parent_time now
HasRoom-HasSlot parent_time now rounds r =
    let t : ℕ = parent_time + block_interval in
    let waited : ℕ = (now - t + (block_interval - 1)) / block_interval in
    let behind_parent = r.behind_parent in
    let behind_now = r.behind_now in
    (t + waited * block_interval, (omega arith, omega arith), omega arith, omega arith)

pub first_slot_room :
    (parent_time now rounds : ℕ)
    → HasRoom parent_time now rounds
    → first_slot parent_time now + rounds * block_interval < u64_mod
unfolding first_slot
first_slot_room parent_time now rounds r =
    let behind_parent = r.behind_parent in let behind_now = r.behind_now in ground arith

pub HasRoom-mono :
    (parent_time now n m : ℕ) → n ≤ m → HasRoom parent_time now m → HasRoom parent_time now n
HasRoom-mono parent_time now n m h r = record {
  behind_parent = omega (arith, r.behind_parent);
  behind_now = omega (arith, r.behind_now);
}
