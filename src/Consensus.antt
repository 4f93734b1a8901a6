-- ===== src/Consensus.antt =====
-- consensus/validator.go: the proposers among whom the signer of a block must have its turn, where
-- the candidates are not in the cache.
pub mod Headers
pub mod Proposers
pub mod Turn
pub mod Body
use rmit.Prelude.{ℕ, Option, none, some, List, [], map}
use rmit.Prelude.Fallible.{◌>>=◌}
use rmit.Poa.Proposer.{Proposer}
use rmit.Poa.Candidates.{Candidate, new_candidates, pick}
use rmit.Builtin.Authority.{Entry, Authority, all_candidates}

-- What `AllCandidates` makes of an entry.
abbrev pub candidate_of : ℕ × Entry → Candidate
candidate_of c = record {
  node_master = c.0;
  endorsor = c.1.endorsor;
  identity = c.1.identity;
  active = c.1.active;
}

unfoldable pub consensus_proposers : (ℕ → ℕ) → ℕ → ℕ → ℕ → Authority → Option (List Proposer)
consensus_proposers balance endorsement param fuel a = all_candidates fuel a >>= λ list.
    let made = new_candidates [] (map candidate_of list) in
    pick balance endorsement param made.0 made.1 >>= λ r. some r.1
