-- ===== src/Consensus/Turn/Chosen.antt =====
-- The proposers among new candidates are known to them.
use rmit.Prelude.{
  ℕ, zero, suc, inl, inr, Bool, List, [], ◌∷◌, map, take, filter_if, All, All-imp, In, Bool-cases,
  sym,
}
use rmit.Poa.Proposer.{Proposer}
use rmit.Poa.Candidates.{Candidate, Candidates, new_candidates, proposer_of}
use rmit.Poa.Candidates.Copies.{IsValid}
use rmit.Poa.Candidates.Choice.{new_candidates-IsValid, endorsed}
use rmit.Poa.SchedulerV2.Listed.{IsListed}
use rmit.Consensus.Turn.Updates.{Knows, index_masters_known}

In-map-take :
    (n x : ℕ) (cs : List Candidate)
    → In x (map (λ c. c.node_master) (take n cs))
    → In x (map (λ c. c.node_master) cs)
In-map-take zero x cs m = elim m [ ]
In-map-take (suc n) x [] m = m
In-map-take (suc n) x (c ∷ cs) (inl e) = inl e
In-map-take (suc n) x (c ∷ cs) (inr m) = inr (In-map-take n x cs m)

In-map-filter_if :
    (p : Candidate → Bool) (x : ℕ) (cs : List Candidate)
    → In x (map (λ c. c.node_master) (filter_if p cs))
    → In x (map (λ c. c.node_master) cs)
In-map-filter_if p x [] m = m
In-map-filter_if p x (c ∷ cs) m = elim (Bool-cases (p c)) [
  | inl keep ↦ elim (rw keep at m) [
    | inl e ↦ inl e
    | inr later ↦ inr (In-map-filter_if p x cs later)
  ]
  | inr drop ↦ inr (In-map-filter_if p x cs (rw drop at m))
]

listed_master :
    (x : ℕ) (cs : List Candidate)
    → IsListed x (map proposer_of cs)
    → In x (map (λ c. c.node_master) cs)
listed_master x [] m = m
listed_master x (c ∷ cs) (inl e) = inl (sym e)
listed_master x (c ∷ cs) (inr m) = inr (listed_master x cs m)

-- New candidates are valid whichever of them are satisfied, and know the masters that listed
-- proposers stand for.
module _ (slices : List (List Candidate)) (list : List Candidate) (satisfied : List ℕ) where
  abbrev pub with_satisfied : Candidates
  with_satisfied = record (new_candidates slices list).1 { satisfied = satisfied }

  pub with_satisfied-IsValid : IsValid (new_candidates slices list).0 with_satisfied
  unfolding new_candidates
  with_satisfied-IsValid =
      let fresh = new_candidates-IsValid slices list in
      record { contents = fresh.contents; held = fresh.held; indexed = fresh.indexed }

  pub with_satisfied_known :
      (balance : ℕ → ℕ) (endorsement n : ℕ) (us : List Proposer)
      → All
          (λ (u : Proposer).
            IsListed u.address
              (map proposer_of (take n (filter_if (endorsed balance endorsement) list))))
          us
      → All (λ (u : Proposer). Knows with_satisfied u.address) us
  unfolding new_candidates
  with_satisfied_known balance endorsement n us m =
      let kept = filter_if (endorsed balance endorsement) list in
      All-imp (λ (u : Proposer). IsListed u.address (map proposer_of (take n kept)))
        (λ (u : Proposer). Knows with_satisfied u.address) us
        (λ u at. index_masters_known 0 list [] u.address (
          In-map-filter_if (endorsed balance endorsement) u.address list
            (In-map-take n u.address kept (listed_master u.address (take n kept) at))))
        m
