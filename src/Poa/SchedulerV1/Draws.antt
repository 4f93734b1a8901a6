-- ===== src/Poa/SchedulerV1/Draws.antt =====
-- `Schedule` and `IsTheTime` of poa/sched.go agree.
use native.Mathlib.Nat.{mod-lt}
use rmit.Prelude.{
  ℕ, zero, suc, ◌+◌, ◌-◌, ◌*◌, ◌/◌, ◌%◌, ◌≤◌, ◌<◌, ◌≡◌, ◌≢◌, Bool, true, false, Option, some, arith,
  length, get_elem?_lt, get_elem?_bound, nat_beq, Bool-cases, inl, inr, sym, ap, ◌∙◌, dec_lt,
}
use rmit.Prelude.Fallible.{◌>>=◌, >>=-eq-some}
use rmit.Thor.{block_interval, u64_mod}
use rmit.Poa.Proposer.{Proposer}
use rmit.Poa.Slots.{first_slot, IsSlot, first_slot_lem}
use rmit.Poa.SchedulerV1.{SchedulerV1, whose_turn, search_turn, schedule_v1, is_the_time_v1}

module _ (dprp : ℕ → ℕ → ℕ) (s : SchedulerV1) where
  -- The proposer is drawn for a time.
  unfoldable pub mine : ℕ → Option Bool
  mine t = whose_turn dprp s t >>= λ p. some (nat_beq p.address s.proposer.address)

  pub is_the_time_v1-mine :
      (t : ℕ) → IsSlot s.parent_block_time t → is_the_time_v1 dprp s t ≡ mine t
  unfolding is_the_time_v1 mine
  is_the_time_v1-mine t slot = ground (arith, slot)

  drawn : (t u : ℕ) → mine u ≡ some true → (p : Proposer) × (whose_turn dprp s t ≡ some p)
  unfolding mine whose_turn
  drawn t u h =
      let (p, at, e) = >>=-eq-some (whose_turn dprp s u) _ h in
      let bound = get_elem?_bound s.actives (dprp s.parent_block_number u % length s.actives) at in
      get_elem?_lt s.actives (dprp s.parent_block_number t % length s.actives)
        (mod-lt (dprp s.parent_block_number t) (omega (arith, bound)))

  waits : (t k : ℕ) → mine t ≡ some false → mine (t + k * block_interval) ≡ some true → 0 < k
  waits t k not_now m = elim (dec_lt 0 k) [
    | yes later ↦ later
    | no now ↦
        let here : t + k * block_interval ≡ t = omega arith in
        absurd (cc (ap mine here, not_now, m))
  ]

  record Earliest (rounds t k : ℕ) : Type 0 where
    wait : ℕ
    short : wait ≤ k
    found : search_turn dprp s rounds t ≡ some (t + wait * block_interval)
    turn : mine (t + wait * block_interval) ≡ some true
    before : (i : ℕ) → i < wait → mine (t + i * block_interval) ≢ some true

  search_turn-Earliest :
      (rounds t k : ℕ)
      → t + k * block_interval < u64_mod
      → k < rounds
      → mine (t + k * block_interval) ≡ some true
      → Earliest rounds t k
  unfolding search_turn mine
  search_turn-Earliest zero t k small h m = absurd (omega arith)
  search_turn-Earliest (suc rounds) t k small h m =
      let (p, at) = drawn t (t + k * block_interval) m in
      elim (Bool-cases (nat_beq p.address s.proposer.address)) [
        | inl yes_mine ↦ record {
          wait = 0;
          short = omega arith;
          found = ground (arith, at, yes_mine);
          turn = ground (arith, at, yes_mine);
          before = λ i l. absurd (omega arith);
        }
        | inr other ↦
            let not_now : mine t ≡ some false = ground (arith, at, other) in
            let later : 0 < k = waits t k not_now m in
            let there : t + block_interval + (k - 1) * block_interval ≡ t + k * block_interval =
              omega arith in
            let next : (t + block_interval) % u64_mod ≡ t + block_interval = omega arith in
            let r =
              search_turn-Earliest rounds (t + block_interval) (k - 1) (omega arith) (omega arith)
                (ap mine there ∙ m) in
            let total : t + block_interval + r.wait * block_interval
                ≡ t + (r.wait + 1) * block_interval =
              omega arith in
            record {
              wait = r.wait + 1;
              short = omega (arith, r.short);
              found =
                  rw at (rw other (ap (search_turn dprp s rounds) next ∙ r.found ∙ ap some total));
              turn = ap mine (sym total) ∙ r.turn;
              before = λ i l. elim (dec_lt 0 i) [
                | yes ahead ↦
                    let back : t + block_interval + (i - 1) * block_interval
                        ≡ t + i * block_interval =
                      omega arith in
                    λ e. r.before (i - 1) (omega arith) (ap mine back ∙ e)
                | no now ↦
                    let here : t + i * block_interval ≡ t = omega arith in
                    λ e. absurd (cc (sym (ap mine here) ∙ e, not_now))
              ];
            }
      ]

  -- If a slot that is not before now and below 2 ^ 64 is the proposer's by `IsTheTime`, `Schedule` returns within the
  -- rounds up to that slot. Its time is a slot, not before now and not after that one, and the
  -- earliest that is the proposer's.
  pub schedule_v1-is_the_time_v1 :
      (now u rounds : ℕ)
      → IsSlot s.parent_block_time u
      → now ≤ u
      → u < u64_mod
      → is_the_time_v1 dprp s u ≡ some true
      → (u - first_slot s.parent_block_time now) / block_interval < rounds
      → (t : ℕ) × (schedule_v1 dprp rounds s now ≡ some t)
        × IsSlot s.parent_block_time t
        × (now ≤ t)
        × (t ≤ u)
        × (is_the_time_v1 dprp s t ≡ some true)
        × ((v : ℕ)
            → IsSlot s.parent_block_time v
            → now ≤ v
            → v < t
            → is_the_time_v1 dprp s v ≢ some true)
  unfolding schedule_v1
  schedule_v1-is_the_time_v1 now u rounds slot_u from small turn_u enough =
      let b = first_slot s.parent_block_time now in
      let (slot, late, least) = first_slot_lem s.parent_block_time now (u, slot_u, from, small) in
      let above = least u slot_u from in
      let k : ℕ = (u - b) / block_interval in
      let at_u : b + k * block_interval ≡ u = omega (arith, slot, slot_u, above) in
      let r =
        search_turn-Earliest rounds b k (omega (arith, at_u)) enough
          (ap mine at_u ∙ sym (is_the_time_v1-mine u slot_u) ∙ turn_u) in
      let t : ℕ = b + r.wait * block_interval in
      let slot_t : IsSlot s.parent_block_time t = omega (arith, slot) in
      (
        t,
        r.found,
        slot_t,
        omega (arith, late),
        omega (arith, at_u, r.short),
        is_the_time_v1-mine t slot_t ∙ r.turn,
        λ v slot_v after before_t turn_v.
            let over = least v slot_v after in
            let i : ℕ = (v - b) / block_interval in
            let at_v : b + i * block_interval ≡ v = omega (arith, slot, slot_v, over) in
            r.before i (omega (arith, at_v, before_t))
              (ap mine at_v ∙ sym (is_the_time_v1-mine v slot_v) ∙ turn_v),
      )
