-- ===== src/Poa/Scheduler/LawsV1.antt =====
-- The laws of a scheduler for poa/sched.go.
use rmit.Prelude.{
  ℕ, zero, suc, ◌+◌, ◌*◌, ◌%◌, ◌<◌, ◌≡◌, ◌⊎◌, inl, inr, refl, true, false, Option, none, some, List,
  [], ◌∷◌, map, All, All-append, All-imp, All-map, All-get_elem?, nat_beq, ltb, length, Bool-cases,
  arith, ap, sym, ◌∙◌, subst, if◌then◌else◌, number_key,
}
use rmit.Prelude.Fallible.{>>=-eq-some, some_eq}
use rmit.Prelude.Assoc.{insert}
use rmit.Thor.{block_interval, initial_max_block_proposers, u64_mod}
use rmit.Poa.Proposer.{Proposer}
use rmit.Poa.Slots.{first_slot, first_slot_lem, HasRoom, HasRoom-HasSlot, first_slot_room}
use rmit.Poa.SchedulerV1.{
  SchedulerV1, select, new_scheduler_v1, whose_turn, search_turn, schedule_v1, is_the_time_v1,
  slot_before, to_deactivate, updates_v1,
}
use rmit.Poa.SchedulerV1.Draws.{mine, is_the_time_v1-mine}
use rmit.Poa.SchedulerV2.Listed.{IsListed}

module _ (ps : List Proposer) where
  abbrev Among : Proposer → Type 0
  Among p = IsListed p.address ps

select-Among :
    (addr : ℕ) (found : Option Proposer) (ps : List Proposer)
    → All (Among ps) (select addr found ps).1
unfolding select
select-Among addr found [] = tt
select-Among addr found (p ∷ ps) =
    let rest : (f : Option Proposer) → All (Among (p ∷ ps)) (select addr f ps).1 = λ f.
      All-imp (Among ps) (Among (p ∷ ps)) (select addr f ps).1 (λ q h. inr h)
        (select-Among addr f ps) in
    elim (Bool-cases (nat_beq p.address addr)) [
      | inl here ↦ rw here (inl refl, rest (some p))
      | inr other ↦ rw other (elim (Bool-cases p.active) [
        | inl on ↦ rw on (inl refl, rest found)
        | inr off ↦ rw off (rest found)
      ])
    ]

select_step :
    (addr : ℕ) (found : Option Proposer) (q : Proposer) (ps : List Proposer)
    → (select addr found (q ∷ ps)).0
      ≡ (select addr (if nat_beq q.address addr then some q else found) ps).0
unfolding select
select_step addr found q ps = elim (Bool-cases (nat_beq q.address addr)) [
  | inl here ↦ rw here refl
  | inr other ↦
      rw other (elim (Bool-cases q.active) [ inl on ↦ rw on refl | inr off ↦ rw off refl ])
]

-- The proposer that the loop ends with has the address and is listed.
select_found :
    (addr : ℕ) (found : Option Proposer) (ps : List Proposer) (p : Proposer)
    → (select addr found ps).0 ≡ some p
    → (found ≡ some p) ⊎ IsListed p.address ps
unfolding select
select_found addr found [] p h = inl h
select_found addr found (q ∷ ps) p h = elim (Bool-cases (nat_beq q.address addr)) [
  | inl here ↦
      elim (select_found addr (some q) ps p
        (sym (select_step addr found q ps ∙ rw here refl) ∙ h)) [
          | inl e ↦ inr (inl (ap (λ r. r.address) (some_eq e)))
          | inr later ↦ inr (inr later)
        ]
  | inr other ↦
      elim (select_found addr found ps p (sym (select_step addr found q ps ∙ rw other refl) ∙ h)) [
        | inl e ↦ inl e
        | inr later ↦ inr (inr later)
      ]
]

insert-All :
    {V : Type 0} (P : V → Type 0) (k : ℕ) (v : V) (l : List (ℕ × V))
    → P v
    → All (λ e. P e.1) l
    → All (λ e. P e.1) (insert k v l)
unfolding insert
insert-All P k v [] p h = (p, tt)
insert-All P k v (e ∷ l) p (q, h) = elim (Bool-cases (nat_beq e.0 k)) [
  | inl same ↦ rw same (p, h)
  | inr other ↦ rw other (q, insert-All P k v l p h)
]

module _ (dprp : ℕ → ℕ → ℕ) (s : SchedulerV1) where
  search_turn-mine :
      (rounds t : ℕ) {u : ℕ}
      → t + rounds * block_interval < u64_mod
      → search_turn dprp s rounds t ≡ some u
      → (k : ℕ) × (u ≡ t + k * block_interval) × (mine dprp s u ≡ some true)
  unfolding search_turn mine
  search_turn-mine zero t room h = absurd (cc)
  search_turn-mine (suc rounds) t {u} room h =
      let next : (t + block_interval) % u64_mod ≡ t + block_interval = omega arith in
      let (p, drawn, rest) = >>=-eq-some (whose_turn dprp s t) _ h in
      elim (Bool-cases (nat_beq p.address s.proposer.address)) [
        | inl here ↦
            let e : t ≡ u = some_eq (rw here at rest) in
            (0, omega (arith, e), ap (mine dprp s) (sym e) ∙ rw drawn (ap some here))
        | inr other ↦
            let (k, e, m) =
              search_turn-mine rounds (t + block_interval) (omega arith)
                (ap (search_turn dprp s rounds) (sym next) ∙ rw other at rest) in
            (k + 1, omega (arith, e), m)
      ]

  pub schedule_v1_turn :
      (rounds now : ℕ) {t : ℕ}
      → HasRoom s.parent_block_time now rounds
      → schedule_v1 dprp rounds s now ≡ some t
      → is_the_time_v1 dprp s t ≡ some true
  unfolding schedule_v1
  schedule_v1_turn rounds now {t} room h =
      let (slot, late, least) =
        first_slot_lem s.parent_block_time now
          (HasRoom-HasSlot s.parent_block_time now rounds room) in
      let (k, e, m) =
        search_turn-mine rounds (first_slot s.parent_block_time now)
          (first_slot_room s.parent_block_time now rounds room) h in
      is_the_time_v1-mine dprp s t (omega (arith, e, slot)) ∙ m

  module _ (ps : List Proposer) (actives : All (Among ps) s.actives) where
    to_deactivate-Among :
        (rounds t : ℕ) (found found' : List (ℕ × Proposer))
        → All (λ e. Among ps e.1) found
        → to_deactivate dprp s rounds t found ≡ some found'
        → All (λ e. Among ps e.1) found'
    unfolding to_deactivate whose_turn
    to_deactivate-Among zero t found found' h e = subst (All (λ e. Among ps e.1)) (some_eq e) h
    to_deactivate-Among (suc rounds) t found found' h e =
        elim (Bool-cases (ltb s.parent_block_time t)) [
          | inl left ↦
              let (p, drawn, rest) = >>=-eq-some (whose_turn dprp s t) _ (rw left at e) in
              let among =
                All-get_elem? (Among ps) s.actives (dprp s.parent_block_number t % length s.actives)
                  actives drawn in
              elim (Bool-cases (nat_beq p.address s.proposer.address)) [
                | inl own ↦
                    to_deactivate-Among rounds (slot_before dprp t) found found' h (rw own at rest)
                | inr other ↦
                    to_deactivate-Among rounds (slot_before dprp t) (insert p.address p found)
                      found' (insert-All (Among ps) p.address p found among h) (rw other at rest)
              ]
          | inr over ↦ subst (All (λ e. Among ps e.1)) (some_eq (rw over at e)) h
        ]

    pub updates_v1-Among :
        (own : IsListed s.proposer.address ps) (t : ℕ) (us : List Proposer) (score : ℕ)
        → updates_v1 dprp s t ≡ some (us, score)
        → All (Among ps) us
    unfolding updates_v1
    updates_v1-Among own t us score h =
        let (found, got, rest) =
          >>=-eq-some (to_deactivate dprp s initial_max_block_proposers (slot_before dprp t) []) _
            h in
        let inactive = map (λ (e : ℕ × Proposer). record e.1 { active = false }) found in
        let among : All (Among ps) inactive =
          All-map (Among ps) (λ e. record e.1 { active = false }) found
            (to_deactivate-Among initial_max_block_proposers (slot_before dprp t) [] found tt
              got) in
        elim (Bool-cases s.proposer.active) [
          | inl on ↦ subst (All (Among ps)) (ap (λ r. r.0) (some_eq (rw on at rest))) among
          | inr off ↦ subst (All (Among ps)) (ap (λ r. r.0) (some_eq (rw off at rest))) (
              All-append (Among ps) inactive (record s.proposer { active = true } ∷ []) among
                (own, tt))
        ]

pub new_scheduler_v1-Among :
    (addr : ℕ) (ps : List Proposer) (number time : ℕ) (s : SchedulerV1)
    → new_scheduler_v1 addr ps number time ≡ some s
    → All (Among ps) s.actives × IsListed s.proposer.address ps × (s.parent_block_time ≡ time)
unfolding new_scheduler_v1
new_scheduler_v1-Among addr ps number time s h =
    let (p, found, made) = >>=-eq-some (select addr none ps).0 _ h in
    let is = some_eq made in
    (
      subst (λ (r : SchedulerV1). All (Among ps) r.actives) is (select-Among addr none ps),
      subst (λ (r : SchedulerV1). IsListed r.proposer.address ps) is
          (elim (select_found addr none ps p found) [ inl e ↦ absurd (cc) | inr m ↦ m ]),
      ap (λ (r : SchedulerV1). r.parent_block_time) (sym is),
    )
