-- ===== src/Poa/Scheduler/LawsV2.antt =====
-- The laws of a scheduler for poa/sched_v2.go.
use rmit.Prelude.{
  ℕ, length-map, ◌+◌, ◌*◌, ◌%◌, ◌≤◌, ◌≡◌, ◌⊎◌, length, arith, inl, inr, refl, Bool, true, false,
  ◌||◌, Option, none, some, List, [], ◌∷◌, All, All-append, All-imp, All-map, All-In, In-All, In,
  nat_beq, leb, Bool-cases, ap, sym, ◌∙◌, subst, if◌then◌else◌,
}
use rmit.Prelude.Fallible.{>>=-eq-some, some_eq}
use rmit.Thor.{block_interval, u64_mod}
use rmit.Poa.Proposer.{Proposer}
use rmit.Poa.SchedulerV2.{SchedulerV2, collect, new_scheduler_v2, inactive_from, updates}
use rmit.Poa.SchedulerV2.Listed.{IsListed, collect_step}

abbrev AddressAmong : List Proposer → ℕ → Type 0
AddressAmong ps a = IsListed a ps

module _ (digest : ℕ → ℕ) (addr : ℕ) where
  collect_among :
      (found : Option Proposer) (ps : List Proposer)
      → All (λ e. IsListed e.0 ps) (collect digest addr found ps).1
  unfolding collect
  collect_among found [] = tt
  collect_among found (p ∷ ps) =
      let rest =
        All-imp (λ e. IsListed e.0 ps) (λ e. IsListed e.0 (p ∷ ps))
          (collect digest addr (if nat_beq p.address addr then some p else found) ps).1
          (λ q h. inr h) (collect_among (if nat_beq p.address addr then some p else found) ps) in
      elim (Bool-cases (p.active || nat_beq p.address addr)) [
        | inl taken ↦ rw taken (inl refl, rest)
        | inr passed ↦ rw passed rest
      ]

  collect_found :
      (found : Option Proposer) (ps : List Proposer) (p : Proposer)
      → (collect digest addr found ps).0 ≡ some p
      → (found ≡ some p) ⊎ IsListed p.address ps
  unfolding collect
  collect_found found [] p h = inl h
  collect_found found (q ∷ ps) p h =
      let step = sym (collect_step digest addr q ps found) ∙ h in
      elim (Bool-cases (nat_beq q.address addr)) [
        | inl here ↦ elim (collect_found (some q) ps p (rw here at step)) [
          | inl e ↦ inr (inl (ap (λ r. r.address) (some_eq e)))
          | inr later ↦ inr (inr later)
        ]
        | inr other ↦ elim (collect_found found ps p (rw other at step)) [
          | inl e ↦ inl e
          | inr later ↦ inr (inr later)
        ]
      ]

  length-collect :
      (found : Option Proposer) (ps : List Proposer)
      → length (collect digest addr found ps).1 ≤ length ps
  unfolding collect
  length-collect found [] = omega arith
  length-collect found (p ∷ ps) =
      let rest = length-collect (if nat_beq p.address addr then some p else found) ps in
      elim (Bool-cases (p.active || nat_beq p.address addr)) [
        | inl taken ↦ rw taken (omega arith)
        | inr passed ↦ rw passed (omega arith)
      ]

pub new_scheduler_v2_among :
    (digest : ℕ → ℕ) (sort : List (ℕ × ℕ) → List (ℕ × ℕ)) (addr : ℕ) (ps : List Proposer) (time : ℕ)
    (s : SchedulerV2)
    → ((xs : List (ℕ × ℕ)) (e : ℕ × ℕ) → In e (sort xs) → In e xs)
    → ((xs : List (ℕ × ℕ)) → length (sort xs) ≡ length xs)
    → new_scheduler_v2 digest sort addr ps time ≡ some s
    → All (AddressAmong ps) s.shuffled
      × IsListed s.proposer.address ps
      × (s.parent_block_time ≡ time)
      × (length s.shuffled ≤ length ps)
unfolding new_scheduler_v2
new_scheduler_v2_among digest sort addr ps time s adds_nothing same_length h =
    let (p, found, made) = >>=-eq-some (collect digest addr none ps).0 _ h in
    let is = some_eq made in
    let list = (collect digest addr none ps).1 in
    let sorted : All (λ (e : ℕ × ℕ). IsListed e.0 ps) (sort list) =
      All-In (λ (e : ℕ × ℕ). IsListed e.0 ps) (sort list)
        (λ e m.
          In-All (λ (x : ℕ × ℕ). IsListed x.0 ps) e list (collect_among digest addr none ps)
            (adds_nothing list e m)) in
    (
      subst (λ (r : SchedulerV2). All (AddressAmong ps) r.shuffled) is
          (All-map (AddressAmong ps) (λ (e : ℕ × ℕ). e.0) (sort list) sorted),
      subst (λ (r : SchedulerV2). IsListed r.proposer.address ps) is
          (elim (collect_found digest addr none ps p found) [ inl e ↦ absurd (cc) | inr m ↦ m ]),
      ap (λ (r : SchedulerV2). r.parent_block_time) (sym is),
      subst (λ (r : SchedulerV2). length r.shuffled ≤ length ps) is
          (omega (
            arith,
            length-map (λ (e : ℕ × ℕ). e.0) (sort list),
            same_length list,
            length-collect digest addr none ps,
          )),
    )

module _ (ps : List Proposer) (s : SchedulerV2) where
  inactive_from_among :
      (t i : ℕ) (list : List ℕ)
      → All (AddressAmong ps) list
      → All (λ u. IsListed u.address ps) (inactive_from s t i list)
  unfolding inactive_from
  inactive_from_among t i [] h = tt
  inactive_from_among t i (a ∷ list) (p, h) =
      let rest = inactive_from_among t (i + 1) list h in
      elim (Bool-cases
        (leb t ((s.parent_block_time + block_interval + i * block_interval) % u64_mod))) [
          | inl over ↦ rw over tt
          | inr left ↦ rw left (elim (Bool-cases (nat_beq a s.proposer.address)) [
            | inl own ↦ rw own rest
            | inr other ↦ rw other (p, rest)
          ])
        ]

  pub updates_among :
      (t : ℕ)
      → All (AddressAmong ps) s.shuffled
      → IsListed s.proposer.address ps
      → All (λ u. IsListed u.address ps) (updates s t).0
  unfolding updates
  updates_among t shuffled own =
      let among = inactive_from_among t 0 s.shuffled shuffled in
      either s.proposer.active _ _ _ among (
        All-append (λ u. IsListed u.address ps) (inactive_from s t 0 s.shuffled)
          (record s.proposer { active = true } ∷ []) among (own, tt))
    where
      either :
          (b : Bool) (xs ys : List Proposer) (n : ℕ)
          → All (λ u. IsListed u.address ps) xs
          → All (λ u. IsListed u.address ps) ys
          → All
              (λ u. IsListed u.address ps)
              (if◌then◌else◌ {A = List Proposer × ℕ} b (xs, n) (ys, n)).0
      either true xs ys n h k = h
      either false xs ys n h k = k
