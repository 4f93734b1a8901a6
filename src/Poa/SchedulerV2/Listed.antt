-- ===== src/Poa/SchedulerV2/Listed.antt =====
-- `NewSchedulerV2` of poa/sched_v2.go puts the proposer into the shuffled list.
use rmit.Prelude.{
  ℕ, zero, suc, ◌≡◌, refl, true, ◌||◌, Option, none, some, List, [], ◌∷◌, map, arith, if◌then◌else◌,
  nat_beq, nat_beq_iff, Bool-cases, inl, inr, ◌⊎◌, subst, ap, sym, ◌∙◌,
}
use rmit.Prelude.Fallible.{some_eq}
use rmit.Poa.Proposer.{Proposer}
use rmit.Poa.SchedulerV2.{SchedulerV2, collect, new_scheduler_v2}
use rmit.Poa.SchedulerV2.Turns.{Occurs}

-- An address is among the proposers.
abbrev pub IsListed : ℕ → List Proposer → Type 0
IsListed addr [] = ⊥
IsListed addr (p ∷ ps) = (p.address ≡ addr) ⊎ IsListed addr ps

module _ (digest : ℕ → ℕ) (addr : ℕ) where
  collect_listed :
      (ps : List Proposer) (found : Option Proposer)
      → IsListed addr ps
      → Occurs (addr, digest addr) (collect digest addr found ps).1
  unfolding collect
  collect_listed [] found h = absurd h
  collect_listed (p ∷ ps) found (inl e) =
      let mine : nat_beq p.address addr ≡ true = (nat_beq_iff p.address addr).1 e in
      let in_list : (p.active || nat_beq p.address addr) ≡ true = ground arith in
      rw in_list (0, ap (λ a. some (a, digest a)) e)
  collect_listed (p ∷ ps) found (inr h) =
      let (i, e) = collect_listed ps (if nat_beq p.address addr then some p else found) h in
      elim (Bool-cases (p.active || nat_beq p.address addr)) [
        | inl taken ↦ rw taken (suc i, e)
        | inr passed ↦ rw passed (i, e)
      ]

  -- What the loop of the constructor has found.
  abbrev Mine : Option Proposer → Type 0
  Mine o = (p : Proposer) × (o ≡ some p) × (p.address ≡ addr)

  Mine-if :
      (p : Proposer) (found : Option Proposer)
      → Mine found
      → Mine (if nat_beq p.address addr then some p else found)
  Mine-if p found m = elim (Bool-cases (nat_beq p.address addr)) [
    | inl mine ↦ rw mine (p, refl, (nat_beq_iff p.address addr).0 mine)
    | inr other ↦ rw other m
  ]

  pub collect_step :
      (p : Proposer) (ps : List Proposer) (found : Option Proposer)
      → (collect digest addr found (p ∷ ps)).0
        ≡ (collect digest addr (if nat_beq p.address addr then some p else found) ps).0
  unfolding collect
  collect_step p ps found = elim (Bool-cases (p.active || nat_beq p.address addr)) [
    | inl taken ↦ rw taken
    | inr passed ↦ rw passed
  ]

  collect_keeps :
      (ps : List Proposer) (found : Option Proposer)
      → Mine found
      → Mine (collect digest addr found ps).0
  unfolding collect
  collect_keeps [] found m = m
  collect_keeps (p ∷ ps) found m =
      subst Mine (sym (collect_step p ps found)) (collect_keeps ps _ (Mine-if p found m))

  collect_finds :
      (ps : List Proposer) (found : Option Proposer)
      → IsListed addr ps
      → Mine (collect digest addr found ps).0
  collect_finds [] found h = absurd h
  collect_finds (p ∷ ps) found (inl e) =
      subst Mine (sym (collect_step p ps found))
        (collect_keeps ps _ (rw ((nat_beq_iff p.address addr).1 e) (p, refl, e)))
  collect_finds (p ∷ ps) found (inr h) =
      subst Mine (sym (collect_step p ps found)) (collect_finds ps _ h)

  collect_misses :
      (ps : List Proposer) → ¬ IsListed addr ps → (collect digest addr none ps).0 ≡ none
  unfolding collect
  collect_misses [] h = refl
  collect_misses (p ∷ ps) h = elim (Bool-cases (nat_beq p.address addr)) [
    | inl mine ↦ absurd (h (inl ((nat_beq_iff p.address addr).0 mine)))
    | inr other ↦ collect_step p ps none ∙ rw other (collect_misses ps (λ later. h (inr later)))
  ]

  Occurs-map : (xs : List (ℕ × ℕ)) (e : ℕ × ℕ) → Occurs e xs → Occurs e.0 (map (λ x. x.0) xs)
  Occurs-map [] e (i, h) = absurd (cc)
  Occurs-map (x ∷ xs) e (zero, h) = (0, ap (λ y. some y.0) (some_eq h))
  Occurs-map (x ∷ xs) e (suc i, h) = let (j, found) = Occurs-map xs e (i, h) in (suc j, found)

  -- For a listed address the constructor returns a scheduler of that address whose shuffled list
  -- holds it, if sorting loses no element.
  pub new_scheduler_v2_listed :
      (sort : List (ℕ × ℕ) → List (ℕ × ℕ)) (ps : List Proposer) (parent_time : ℕ)
      → ((xs : List (ℕ × ℕ)) (e : ℕ × ℕ) → Occurs e xs → Occurs e (sort xs))
      → IsListed addr ps
      → (s : SchedulerV2) × (new_scheduler_v2 digest sort addr ps parent_time ≡ some s)
        × (s.proposer.address ≡ addr)
        × (s.parent_block_time ≡ parent_time)
        × Occurs s.proposer.address s.shuffled
  unfolding new_scheduler_v2
  new_scheduler_v2_listed sort ps parent_time keeps listed =
      let (p, found, mine) = collect_finds ps none listed in
      let list = (collect digest addr none ps).1 in
      let occurs =
        Occurs-map (sort list) (addr, digest addr)
          (keeps list (addr, digest addr) (collect_listed ps none listed)) in
      (
        record {
          proposer = p;
          parent_block_time = parent_time;
          shuffled = map (λ x. x.0) (sort list);
        },
        rw found,
        mine,
        refl,
        rw mine occurs,
      )

  -- For an address that is not listed the constructor is an error.
  pub new_scheduler_v2_unlisted :
      (sort : List (ℕ × ℕ) → List (ℕ × ℕ)) (ps : List Proposer) (parent_time : ℕ)
      → ¬ IsListed addr ps
      → new_scheduler_v2 digest sort addr ps parent_time ≡ none
  unfolding new_scheduler_v2
  new_scheduler_v2_unlisted sort ps parent_time unlisted = rw (collect_misses ps unlisted)
