-- ===== src/Poa/SchedulerV2/Turns.antt =====
-- `Schedule` and `IsTheTime` of poa/sched_v2.go agree.
use native.Mathlib.Nat.{add-mul-mod_self_left, mod-add-div, mod-lt, mod-eq_of_lt}
use rmit.Prelude.{
  ℕ, zero, suc, ◌+◌, ◌-◌, ◌*◌, ◌/◌, ◌%◌, ◌≤◌, ◌<◌, ◌≡◌, ◌≢◌, ◌↔◌, true, false, Option, some, List,
  arith, length, get_elem?, get_elem?_lt, get_elem?_bound, nat_beq, Bool-cases, inl, inr, sym, ap,
  ◌∙◌, subst, dec_lt, dec_le,
}
use rmit.Prelude.Fallible.{>>=-eq-some, some_eq}
use rmit.Thor.{block_interval, u64_mod}
use rmit.Poa.Slots.{first_slot, IsSlot, first_slot_lem, HasRoom, HasRoom-HasSlot, first_slot_room}
use rmit.Poa.SchedulerV2.{SchedulerV2, search_slot, schedule, is_scheduled, is_the_time}

-- The turns go round the list.
abbrev pub turn : SchedulerV2 → ℕ → Option ℕ
turn s k = get_elem? s.shuffled (k % length s.shuffled)

is_the_time-turn :
    (s : SchedulerV2) (t : ℕ)
    → IsSlot s.parent_block_time t
    → (is_the_time s t ≡ some true) ↔ (
        turn s ((t - s.parent_block_time - block_interval) / block_interval)
        ≡ some s.proposer.address)
unfolding is_the_time is_scheduled
is_the_time-turn s t slot = (λ h. ground arith, λ h. ground arith)

module _ (s : SchedulerV2) (t offset : ℕ) where
  record Found (i result : ℕ) : Type 0 where
    round : ℕ
    after : i ≤ round
    time : result ≡ t + round * block_interval
    mine : turn s (round + offset) ≡ some s.proposer.address
    earliest : (k : ℕ) → i ≤ k → k < round → turn s (k + offset) ≢ some s.proposer.address

  -- Neither the counter nor the times of so many rounds wrap.
  abbrev Unwrapped : ℕ → ℕ → Type 0
  Unwrapped rounds i =
      (t + i * block_interval + rounds * block_interval < u64_mod) × (i + offset + rounds < u64_mod)

  search_slot-Found :
      (rounds i : ℕ) {result : ℕ}
      → Unwrapped rounds i
      → search_slot s t offset rounds i ≡ some result
      → Found i result
  unfolding search_slot
  search_slot-Found zero i room h = absurd (cc)
  search_slot-Found (suc rounds) i {result} (times, counts) h =
      let (a, at_i', h1) = >>=-eq-some (turn s ((i + offset) % u64_mod)) _ h in
      let index : (i + offset) % u64_mod ≡ i + offset = omega arith in
      let at_i = ap (turn s) (sym index) ∙ at_i' in
      let slot : (t + i * block_interval) % u64_mod ≡ t + i * block_interval = omega arith in
      elim (Bool-cases (nat_beq a s.proposer.address)) [
        | inl yes_mine ↦ record {
          round = i;
          after = omega arith;
          time = sym (some_eq (rw yes_mine at h1)) ∙ slot;
          mine = ground (arith, at_i);
          earliest = λ k l h2. absurd (omega arith);
        }
        | inr other ↦
            let r = search_slot-Found rounds (i + 1) (omega arith, omega arith) (rw other at h1) in
            record {
              round = r.round;
              after = omega (arith, r.after);
              time = r.time;
              mine = r.mine;
              earliest = λ k l h2. elim (dec_lt i k) [
                | yes later ↦ r.earliest k (omega arith) h2
                | no now ↦
                    let e : k ≡ i = omega arith in
                    λ m. absurd (
                      ground (
                        arith,
                        at_i,
                        subst (λ x. turn s (x + offset) ≡ some s.proposer.address) e m,
                      ))
              ];
            }
      ]

-- Every place of a list of n is met on the way round from any start.
residue : (m n o : ℕ) → m < n → (k : ℕ) × (k < n) × ((k + o) % n ≡ m)
residue m n o h =
    let whole = mod-add-div o n in
    let small = mod-lt o {m = n} (omega arith) in
    elim (dec_le (o % n) m) [
      | yes le ↦
          let e : m - o % n + o ≡ m + n * (o / n) = omega arith in
          (
            m - o % n,
            omega arith,
            ap (λ x. x % n) e ∙ add-mul-mod_self_left m n (o / n) ∙ mod-eq_of_lt h,
          )
      | no gt ↦
          let e : m + n - o % n + o ≡ m + n * (o / n + 1) = omega arith in
          (
            m + n - o % n,
            omega arith,
            ap (λ x. x % n) e ∙ add-mul-mod_self_left m n (o / n + 1) ∙ mod-eq_of_lt h,
          )
    ]

-- Some place of a list holds the element.
abbrev pub Occurs {ℓ} : {A : Type ℓ} → A → List A → Type ℓ
Occurs a xs = (i : ℕ) × (get_elem? xs i ≡ some a)

module _ (s : SchedulerV2) where
  abbrev first_turn : ℕ → ℕ
  first_turn now =
      ((first_slot s.parent_block_time now + (u64_mod - s.parent_block_time))
          % u64_mod
          / block_interval
        + (u64_mod - 1))
      % u64_mod

  first_turn_lem :
      (now : ℕ)
      → HasRoom s.parent_block_time now (length s.shuffled)
      → first_turn now
        ≡ (first_slot s.parent_block_time now - s.parent_block_time) / block_interval - 1
  first_turn_lem now room =
      let (slot, late, least) =
        first_slot_lem s.parent_block_time now
          (HasRoom-HasSlot s.parent_block_time now (length s.shuffled) room) in
      let small = first_slot_room s.parent_block_time now (length s.shuffled) room in omega arith

  -- The time that `Schedule` returns is a slot, not before `now`, at which it is the proposer's
  -- turn by `IsTheTime`, and the earliest such slot, while no time of the search wraps.
  pub schedule-is_the_time :
      (now : ℕ) {t : ℕ}
      → HasRoom s.parent_block_time now (length s.shuffled)
      → schedule s now ≡ some t
      → IsSlot s.parent_block_time t
        × (now ≤ t)
        × (is_the_time s t ≡ some true)
        × ((u : ℕ) → IsSlot s.parent_block_time u → now ≤ u → u < t → is_the_time s u ≢ some true)
  unfolding schedule
  schedule-is_the_time now {t} room h =
      let b = first_slot s.parent_block_time now in
      let (slot, late, least) =
        first_slot_lem s.parent_block_time now
          (HasRoom-HasSlot s.parent_block_time now (length s.shuffled) room) in
      let offset = first_turn_lem now room in
      let small = first_slot_room s.parent_block_time now (length s.shuffled) room in
      let r =
        search_slot-Found s b (first_turn now) (length s.shuffled) 0 (omega arith, omega arith) h in
      let time = r.time in
      let slot_t : IsSlot s.parent_block_time t = omega arith in
      let at_t : (t - s.parent_block_time - block_interval) / block_interval
          ≡ r.round + first_turn now =
        omega arith in
      (
        slot_t,
        omega arith,
        (is_the_time-turn s t slot_t).1 (ap (turn s) at_t ∙ r.mine),
        λ u slot_u from before mine.
            let above = least u slot_u from in
            let k : ℕ = (u - b) / block_interval in
            let at_u : (u - s.parent_block_time - block_interval) / block_interval
                ≡ k + first_turn now =
              omega arith in
            r.earliest k (omega arith) (omega arith)
              (ap (turn s) (sym at_u) ∙ (is_the_time-turn s u slot_u).0 mine),
      )

  -- A place that is not the proposer's is before the proposer's.
  not_yet :
      (offset i k : ℕ) {a : ℕ}
      → i ≤ k
      → turn s (i + offset) ≡ some a
      → turn s (k + offset) ≡ some s.proposer.address
      → nat_beq a s.proposer.address ≡ false
      → i + 1 ≤ k
  not_yet offset i k low at_i mine other = elim (dec_lt i k) [
    | yes later ↦ omega arith
    | no now ↦
        let e : k ≡ i = omega arith in
        absurd
          (ground (arith, at_i, subst (λ x. turn s (x + offset) ≡ some s.proposer.address) e mine))
  ]

  search_total :
      (t offset rounds i k : ℕ)
      → i + offset + rounds < u64_mod
      → i ≤ k
      → k < i + rounds
      → turn s (k + offset) ≡ some s.proposer.address
      → (result : ℕ) × (search_slot s t offset rounds i ≡ some result)
  unfolding search_slot
  search_total t offset zero i k counts low high mine = absurd (omega arith)
  search_total t offset (suc rounds) i k counts low high mine =
      let bound = get_elem?_bound s.shuffled ((k + offset) % length s.shuffled) mine in
      let (a, at_i) =
        get_elem?_lt s.shuffled ((i + offset) % u64_mod % length s.shuffled)
          (mod-lt ((i + offset) % u64_mod) (omega arith)) in
      let index : (i + offset) % u64_mod ≡ i + offset = omega arith in
      elim (Bool-cases (nat_beq a s.proposer.address)) [
        | inl yes_mine ↦ ((t + i * block_interval) % u64_mod, rw at_i (rw yes_mine))
        | inr other ↦
            let later : i + 1 ≤ k =
              not_yet offset i k low (ap (turn s) (sym index) ∙ at_i) mine other in
            let (result, e) =
              search_total t offset rounds (i + 1) k (omega arith) later (omega arith) mine in
            (result, rw at_i (rw other e))
      ]

  -- `Schedule` returns a time when the proposer is in the shuffled list: it never gets to its
  -- "something wrong with proposers list".
  pub schedule_total :
      (now : ℕ)
      → HasRoom s.parent_block_time now (length s.shuffled)
      → Occurs s.proposer.address s.shuffled
      → (t : ℕ) × (schedule s now ≡ some t)
  unfolding schedule
  schedule_total now room (m, at_m) =
      let (slot, late, least) =
        first_slot_lem s.parent_block_time now
          (HasRoom-HasSlot s.parent_block_time now (length s.shuffled) room) in
      let offset = first_turn_lem now room in
      let small_slot = first_slot_room s.parent_block_time now (length s.shuffled) room in
      let bound = get_elem?_bound s.shuffled m at_m in
      let (k, small, e) = residue m (length s.shuffled) (first_turn now) bound in
      search_total (first_slot s.parent_block_time now) (first_turn now) (length s.shuffled) 0 k
        (omega arith) (omega arith) (omega arith) (ap (get_elem? s.shuffled) e ∙ at_m)

  -- When the proposer is in the shuffled list and there is room for a round of slots before times
  -- wrap, `Schedule` returns a time: the earliest slot that is not before `now` at which it is the
  -- proposer's turn by `IsTheTime`.
  pub schedule_earliest :
      (now : ℕ)
      → HasRoom s.parent_block_time now (length s.shuffled)
      → Occurs s.proposer.address s.shuffled
      → (t : ℕ) × (schedule s now ≡ some t)
        × IsSlot s.parent_block_time t
        × (now ≤ t)
        × (is_the_time s t ≡ some true)
        × ((u : ℕ) → IsSlot s.parent_block_time u → now ≤ u → u < t → is_the_time s u ≢ some true)
  schedule_earliest now room occurs =
      let (t, found) = schedule_total now room occurs in
      let (slot, late, turn, least) = schedule-is_the_time now room found in
      (t, found, slot, late, turn, least)
