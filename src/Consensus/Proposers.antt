-- ===== src/Consensus/Proposers.antt =====
-- The proposers of the packer and those of the validation.
use rmit.Prelude.{
  ℕ, ◌≤◌, ◌≡◌, refl, some, List, [], ◌∷◌, map, take, filter_if, length, take-map, filter_if-map, ap,
  ◌∙◌, leb,
}
use rmit.Poa.Candidates.{proposer_limit, proposer_of}
use rmit.Poa.Candidates.Choice.{pick_fresh, endorsed}
use rmit.Builtin.Authority.{Entry, Authority, get_entry}
use rmit.Builtin.Authority.Listing.{Lists, all_candidates_listed}
use rmit.Builtin.Authority.Picking.{candidates_listed, endorsed_by}
use rmit.Packer.{packer_proposers, scheduled}
use rmit.Consensus.{candidate_of, consensus_proposers}

map-map :
    {A B C : Type 0} (g : B → C) (f : A → B) (xs : List A)
    → map g (map f xs) ≡ map (λ x. g (f x)) xs
map-map g f [] = refl
map-map g f (x ∷ xs) = ap (λ ys. g (f x) ∷ ys) (map-map g f xs)

-- The choice among candidates, seen on the entries that they are made of.
pub choice_of_entries :
    (balance : ℕ → ℕ) (endorsement n : ℕ) (es : List (ℕ × Entry))
    → map proposer_of (take n (filter_if (endorsed balance endorsement) (map candidate_of es)))
      ≡ map scheduled (take n (filter_if (λ c. leb endorsement (balance c.1.endorsor)) es))
choice_of_entries balance endorsement n es =
    ap (λ cs. map proposer_of (take n cs))
      (filter_if-map (endorsed balance endorsement) candidate_of es)
    ∙ ap (map proposer_of)
        (take-map candidate_of n (filter_if (λ c. leb endorsement (balance c.1.endorsor)) es))
    ∙ map-map proposer_of candidate_of
        (take n (filter_if (λ c. leb endorsement (balance c.1.endorsor)) es))

-- On a storage that stands for a list of masters, the packer and the validation of a block whose
-- candidates are not cached have the same proposers: in the order of the list the first masters,
-- up to the maximum of the chain, whose endorsors have the endorsement. Both loops are given at
-- least as many steps as there are masters.
pub consensus_proposers-packer_proposers :
    (balance : ℕ → ℕ) (endorsement param fuel : ℕ) (a : Authority) (xs : List ℕ)
    → Lists a xs
    → length xs ≤ fuel
    → (packer_proposers balance endorsement param fuel a
        ≡ some (map scheduled (take (proposer_limit param) (endorsed_by balance endorsement a xs))))
      × (consensus_proposers balance endorsement param fuel a
          ≡ packer_proposers balance endorsement param fuel a)
unfolding packer_proposers consensus_proposers
consensus_proposers-packer_proposers balance endorsement param fuel a xs l enough =
    let es = map (λ x. (x, get_entry a x)) xs in
    let packed = candidates_listed balance endorsement (proposer_limit param) fuel a xs l enough in
    let listed = all_candidates_listed a xs fuel l enough in
    (
      rw packed refl,
      rw (listed, packed)
          (pick_fresh balance endorsement param (map candidate_of es)
            ∙ ap some (choice_of_entries balance endorsement (proposer_limit param) es)),
    )
