-- ===== src/Poa/SchedulerV1/Missed.antt =====
-- `Updates` of poa/sched.go: who is set inactive.
use rmit.Prelude.{
  ℕ, zero, suc, ◌+◌, ◌-◌, ◌*◌, ◌<◌, ◌≡◌, ◌≢◌, ◌↔◌, ◌⊎◌, refl, true, false, some, List, [], arith,
  length, ltb, nat_beq, Bool-cases, inl, inr, sym, ap, if◌then◌else◌, number_key, ◌∙◌, subst,
  dec_lt,
}
use rmit.Prelude.Fallible.{>>=-eq-some, some_eq}
use rmit.Prelude.Assoc.{lookup, insert, insert-cases, lookup-insert}
use rmit.Thor.{block_interval, u64_mod}
use rmit.Poa.Proposer.{Proposer}
use rmit.Poa.SchedulerV1.{SchedulerV1, whose_turn, slot_before, to_deactivate}
use rmit.Poa.SchedulerV1.Collected.{to_deactivate-keeps, to_deactivate_total}

module _ (dprp : ℕ → ℕ → ℕ) (s : SchedulerV1) where
  -- A slot was missed by another proposer, of this address.
  pub record Missed (rounds j a : ℕ) (p : Proposer) : Type 0 where
    pub round : ℕ
    pub ahead : round < rounds
    pub passed : round < j
    pub turn : whose_turn dprp s (s.parent_block_time + (j - round) * block_interval) ≡ some p
    pub address : p.address ≡ a
    pub other : a ≢ s.proposer.address

  later :
      (rounds j a : ℕ) (p : Proposer)
      → Missed rounds (j - 1) a p
      → 0 < j
      → Missed (suc rounds) j a p
  later rounds j a p m h =
      let e : j - (m.round + 1) ≡ j - 1 - m.round = omega arith in
      record {
        round = m.round + 1;
        ahead = omega (arith, m.ahead);
        passed = omega (arith, m.passed);
        turn = ap (λ x. whose_turn dprp s (s.parent_block_time + x * block_interval)) e ∙ m.turn;
        address = m.address;
        other = m.other;
      }

  slot_before-slot :
      (j : ℕ)
      → 0 < j
      → s.parent_block_time + j * block_interval < u64_mod
      → slot_before dprp (s.parent_block_time + j * block_interval)
        ≡ s.parent_block_time + (j - 1) * block_interval
  slot_before-slot j h small = omega arith

  at_slot :
      (i j : ℕ)
      → i ≡ 0
      → j - i ≡ j
      → whose_turn dprp s (s.parent_block_time + (j - i) * block_interval)
        ≡ whose_turn dprp s (s.parent_block_time + j * block_interval)
  at_slot i j z e = ap (λ x. whose_turn dprp s (s.parent_block_time + x * block_interval)) e

  to_deactivate-Missed :
      (rounds j : ℕ) (found found' : List (ℕ × Proposer)) (a : ℕ) (p : Proposer)
      → s.parent_block_time + j * block_interval < u64_mod
      → to_deactivate dprp s rounds (s.parent_block_time + j * block_interval) found ≡ some found'
      → lookup a found' ≡ some p
      → (lookup a found ≡ some p) ⊎ Missed rounds j a p
  unfolding to_deactivate
  to_deactivate-Missed zero j found found' a p small h got = inl (ap (lookup a) (some_eq h) ∙ got)
  to_deactivate-Missed (suc rounds) j found found' a p small h got = elim (dec_lt 0 j) [
    | no none_left ↦ let same : found ≡ found' = ground (arith, h) in inl (ap (lookup a) same ∙ got)
    | yes left ↦
        let t : ℕ = s.parent_block_time + j * block_interval in
        let open' : ltb s.parent_block_time t ≡ true = ground arith in
        let (q, drawn, rest) = >>=-eq-some (whose_turn dprp s t) _ (rw open' at h) in
        let from =
          λ (next : List (ℕ × Proposer))
              (e : to_deactivate dprp s rounds (slot_before dprp t) next ≡ some found').
            to_deactivate-Missed rounds (j - 1) next found' a p (omega arith)
              (subst (λ x. to_deactivate dprp s rounds x next ≡ some found')
                (slot_before-slot j left small) e)
              got in
        elim (Bool-cases (nat_beq q.address s.proposer.address)) [
          | inl own ↦ elim (from found (rw own at rest)) [
            | inl old ↦ inl old
            | inr m ↦ inr (later rounds j a p m left)
          ]
          | inr other ↦ elim (from (insert q.address q found) (rw other at rest)) [
            | inr m ↦ inr (later rounds j a p m left)
            | inl held ↦ elim (insert-cases q.address a q p found held) [
              | inl (here, it) ↦ inr (record {
                round = 0;
                ahead = omega arith;
                passed = left;
                turn = at_slot 0 j refl (omega arith) ∙ drawn ∙ ap some it;
                address = ap (λ x. x.address) (sym it) ∙ here;
                other = λ e. ground (arith, other, here, e);
              })
              | inr old ↦ inl old
            ]
          ]
        ]
  ]

  earlier :
      (rounds j a : ℕ) (p : Proposer) (m : Missed (suc rounds) j a p)
      → 0 < m.round
      → Missed rounds (j - 1) a p
  earlier rounds j a p m h =
      let e : j - 1 - (m.round - 1) ≡ j - m.round = omega (arith, m.passed) in
      record {
        round = m.round - 1;
        ahead = omega (arith, m.ahead);
        passed = omega (arith, m.passed);
        turn = ap (λ x. whose_turn dprp s (s.parent_block_time + x * block_interval)) e ∙ m.turn;
        address = m.address;
        other = m.other;
      }

  Missed-to_deactivate :
      (rounds j : ℕ) (found found' : List (ℕ × Proposer)) (a : ℕ) (p : Proposer)
      → s.parent_block_time + j * block_interval < u64_mod
      → to_deactivate dprp s rounds (s.parent_block_time + j * block_interval) found ≡ some found'
      → Missed rounds j a p
      → (q : Proposer) × (lookup a found' ≡ some q)
  unfolding to_deactivate
  Missed-to_deactivate zero j found found' a p small h m = absurd (omega (arith, m.ahead))
  Missed-to_deactivate (suc rounds) j found found' a p small h m =
      let t : ℕ = s.parent_block_time + j * block_interval in
      let left : 0 < j = omega (arith, m.passed) in
      let open' : ltb s.parent_block_time t ≡ true = ground arith in
      let (q, drawn, rest) = >>=-eq-some (whose_turn dprp s t) _ (rw open' at h) in
      elim (dec_lt 0 m.round) [
        | yes before ↦
            let next : List (ℕ × Proposer) =
              if nat_beq q.address s.proposer.address then found else insert q.address q found in
            Missed-to_deactivate rounds (j - 1) next found' a p (omega arith)
              (subst (λ x. to_deactivate dprp s rounds x next ≡ some found')
                (slot_before-slot j left small) rest)
              (earlier rounds j a p m before)
        | no now ↦
            let first : m.round ≡ 0 = omega arith in
            let same : q ≡ p =
              some_eq (sym drawn ∙ sym (at_slot m.round j first (omega arith)) ∙ m.turn) in
            let here : q.address ≡ a = ap (λ x. x.address) same ∙ m.address in
            let other : nat_beq q.address s.proposer.address ≡ false =
              ground (arith, here, m.other) in
            to_deactivate-keeps dprp s rounds (slot_before dprp t) (insert q.address q found) found'
              a q (rw other at rest) (ground (arith, here, lookup-insert q.address a q found))
      ]

  -- With proposers to draw from and times below 2 ^ 64, the loop of `Updates` does not fail, and the
  -- addresses that it collects to set inactive are those that were drawn for one of the slots
  -- between the two blocks that its rounds cover back from the new block, but never the proposer's.
  pub to_deactivate_lem :
      (rounds j : ℕ)
      → 0 < length s.actives
      → s.parent_block_time + j * block_interval < u64_mod
      → (found : List (ℕ × Proposer)) × (to_deactivate dprp s rounds
            (s.parent_block_time + j * block_interval)
            []
          ≡ some found)
        × ((a : ℕ)
            → ((p : Proposer) × (lookup a found ≡ some p)) ↔ ((p : Proposer) × Missed rounds j a p))
  unfolding lookup
  to_deactivate_lem rounds j some_active small =
      let (found, h) =
        to_deactivate_total dprp s rounds (s.parent_block_time + j * block_interval) []
          some_active in
      (
        found,
        h,
        λ a. (
          λ (p, got). (
            p,
            elim (to_deactivate-Missed rounds j [] found a p small h got) [
              | inl e ↦ absurd (cc (e))
              | inr m ↦ m
            ],
          ),
          λ (p, m). Missed-to_deactivate rounds j [] found a p small h m,
        ),
      )
