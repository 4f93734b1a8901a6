-- ===== src/Poa/Candidates/Choice.antt =====
-- Which candidates a fresh object picks, and why its indices stand in its list.
use rmit.Prelude.{
  ℕ, zero, suc, ◌+◌, ◌<◌, ◌≡◌, inl, inr, refl, Bool, some, List, [], ◌∷◌, leb, number_key, length,
  get_elem?, take, map, filter_if, Bool-cases, arith, ap, ◌∙◌, get_elem?-append_next,
}
use rmit.Prelude.Fallible.{◌>>=◌}
use rmit.Prelude.Assoc.{lookup, insert, insert-cases}
use rmit.Poa.Candidates.{
  Candidate, new_candidates, index_masters, satisfy, to_proposers, proposer_of, pick,
  proposer_limit,
}
use rmit.Poa.Candidates.Copies.{IsValid}

index_masters_bound :
    (i : ℕ) (list : List Candidate) (masters : List (ℕ × ℕ))
    → ((addr j : ℕ) → lookup addr masters ≡ some j → j < i + length list)
    → (addr j : ℕ) → lookup addr (index_masters i list masters) ≡ some j
    → j < i + length list
index_masters_bound i [] masters below addr j is = below addr j is
index_masters_bound i (c ∷ rest) masters below addr j is = omega (
  arith,
  index_masters_bound (suc i) rest (insert c.node_master i masters)
      (λ other k at. elim (insert-cases c.node_master other i k masters at) [
        | inl (here, new) ↦ omega (arith, new)
        | inr old ↦ omega (arith, below other k old)
      ])
      addr j is,
)

pub new_candidates-IsValid :
    (slices : List (List Candidate)) (list : List Candidate)
    → IsValid (new_candidates slices list).0 (new_candidates slices list).1
unfolding new_candidates lookup
new_candidates-IsValid slices list = record {
  contents = list;
  held = get_elem?-append_next slices list;
  indexed = λ addr i at.
      omega (arith, index_masters_bound 0 list [] (λ other j is. absurd (cc)) addr i at);
}

module _ (balance : ℕ → ℕ) (endorsement : ℕ) where
  -- Whether the endorsor of a candidate has the endorsement.
  abbrev pub endorsed : Candidate → Bool
  endorsed c = leb endorsement (balance c.endorsor)

  -- The indices that `Pick` collects from the index i on, looked up in the whole list.
  to_proposers-satisfy :
      (whole : List Candidate) (room i : ℕ) (list : List Candidate)
      → ((j : ℕ) → get_elem? whole (i + j) ≡ get_elem? list j)
      → to_proposers whole (satisfy balance endorsement room i list)
        ≡ some (map proposer_of (take room (filter_if endorsed list)))
  unfolding to_proposers satisfy
  to_proposers-satisfy whole zero i list same = refl
  to_proposers-satisfy whole (suc room) i [] same = refl
  to_proposers-satisfy whole (suc room) i (c ∷ rest) same =
      let next : (j : ℕ) → get_elem? whole (suc i + j) ≡ get_elem? rest j =
        λ j. ap (get_elem? whole) (omega arith) ∙ same (suc j) in
      elim (Bool-cases (leb endorsement (balance c.endorsor))) [
        | inl enough ↦
            let here : get_elem? whole i ≡ some c = ap (get_elem? whole) (omega arith) ∙ same 0 in
            rw enough (rw here (rw (to_proposers-satisfy whole room (suc i) rest next) refl))
        | inr less ↦ rw less (to_proposers-satisfy whole (suc room) (suc i) rest next)
      ]

  -- A fresh object picks the first candidates with the endorsement, up to the maximum.
  pub pick_fresh :
      (param : ℕ) (list : List Candidate)
      → (pick balance endorsement param (new_candidates [] list).0 (new_candidates [] list).1
          >>= λ r. some r.1)
        ≡ some (map proposer_of (take (proposer_limit param) (filter_if endorsed list)))
  unfolding pick new_candidates
  pick_fresh param list =
      rw
        (to_proposers-satisfy list (proposer_limit param) 0 list
          (λ j. ap (get_elem? list) (omega arith)))
        refl

  -- Beside other slices: the object that remains differs in its cache alone.
  pub pick_new :
      (param : ℕ) (slices : List (List Candidate)) (list : List Candidate)
      → (satisfied : List ℕ) × (pick balance endorsement param
            (new_candidates slices list).0
            (new_candidates slices list).1
          ≡ some (
            record (new_candidates slices list).1 { satisfied = satisfied },
            map proposer_of (take (proposer_limit param) (filter_if endorsed list)),
          ))
  unfolding pick new_candidates
  pick_new param slices list = (
    satisfy balance endorsement (proposer_limit param) 0 list,
    rw (get_elem?-append_next slices list) (
        rw
          (to_proposers-satisfy list (proposer_limit param) 0 list
            (λ j. ap (get_elem? list) (omega arith)))
          refl),
  )
