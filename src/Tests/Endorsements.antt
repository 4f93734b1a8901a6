-- ===== src/Tests/Endorsements.antt =====
-- Candidates in memory and the proposers chosen from them.
use rmit.Prelude.{ℕ, ◌≡◌, refl, true, false, some, List, [], ◌∷◌, map, take, get_elem?, arith}
use rmit.Prelude.Assoc.{lookup, insert}
use rmit.Poa.Candidates.{
  Candidate, Candidates, new_candidates, copy, clone_shared, update, proposer_limit, satisfy,
  to_proposers, pick,
}
use rmit.Poa.Candidates.Copies.{IsValid, update_all, copy-update_all}
use rmit.Poa.Candidates.Choice.{new_candidates-IsValid}
use rmit.Builtin.Authority.{get_entry, candidates, pick_from, all_candidates, list_from}
use rmit.Builtin.Authority.Picking.{endorsed_by}
use rmit.Packer.{packer_proposers, scheduled}
use rmit.Consensus.{consensus_proposers}
use rmit.Consensus.Proposers.{consensus_proposers-packer_proposers}
use rmit.Tests.Masters.{two_masters, two_masters-Lists}

-- The balance of an endorsor is its address.
abbrev balance : ℕ → ℕ
balance endorsor = endorsor

abbrev two_candidates : List Candidate
two_candidates =
    record { node_master = 11; endorsor = 21; identity = 31; active = true }
    ∷ record { node_master = 12; endorsor = 22; identity = 32; active = true }
    ∷ []

abbrev made : List (List Candidate) × Candidates
made = new_candidates [] two_candidates

-- A copy of the object whose second master is set inactive writes to a slice of its own.
update_test :
    update_all made.0 (copy made.1).1 ((12, false) ∷ (13, true) ∷ [])
    ≡ some (
      two_candidates
          ∷ (record { node_master = 11; endorsor = 21; identity = 31; active = true }
              ∷ record { node_master = 12; endorsor = 22; identity = 32; active = false }
              ∷ [])
          ∷ [],
      record {
        list = 1;
        masters = (11, 0) ∷ (12, 1) ∷ [];
        endorsors = (21, true) ∷ (22, true) ∷ [];
        satisfied = [];
        referenced = false;
      },
    )
unfolding update clone_shared copy new_candidates lookup insert
update_test = refl

copy-update_all_example :
    (r : List (List Candidate) × Candidates) × (update_all made.0
        (copy made.1).1
        ((12, false) ∷ (13, true) ∷ [])
      ≡ some r)
    × IsValid r.0 r.1
    × (get_elem? r.0 made.1.list ≡ get_elem? made.0 made.1.list)
copy-update_all_example =
    copy-update_all made.0 made.1 ((12, false) ∷ (13, true) ∷ [])
      (new_candidates-IsValid [] two_candidates)

packer_test :
    packer_proposers balance 22 0 2 two_masters ≡ some (record { address = 12; active = true } ∷ [])
unfolding packer_proposers candidates pick_from get_entry lookup proposer_limit
packer_test = refl

consensus_test :
    consensus_proposers balance 22 0 2 two_masters
    ≡ some (record { address = 12; active = true } ∷ [])
unfolding consensus_proposers all_candidates list_from get_entry lookup proposer_limit pick satisfy
    to_proposers new_candidates insert
consensus_test = refl

consensus_proposers-packer_proposers_example :
    (packer_proposers balance 22 0 2 two_masters
      ≡ some (
          map scheduled
            (take (proposer_limit 0) (endorsed_by balance 22 two_masters (11 ∷ 12 ∷ [])))))
    × (consensus_proposers balance 22 0 2 two_masters ≡ packer_proposers balance 22 0 2 two_masters)
consensus_proposers-packer_proposers_example =
    consensus_proposers-packer_proposers balance 22 0 2 two_masters (11 ∷ 12 ∷ []) two_masters-Lists
      (omega arith)
