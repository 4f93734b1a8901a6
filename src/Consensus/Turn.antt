-- ===== src/Consensus/Turn.antt =====
-- consensus/validator.go: `validateProposer`, the turn and the score of the signer of a block, and
-- the updates of the proposers, in the authority contract and in the candidates in memory.
pub mod Updates
pub mod Chosen
pub mod Packed
use rmit.Prelude.{
  ℕ, ◌+◌, ◌%◌, Bool, true, false, Option, none, some, List, [], ◌∷◌, map, nat_beq, if◌then◌else◌,
}
use rmit.Thor.{u64_mod}
use rmit.Poa.Proposer.{Proposer}
use rmit.Poa.Candidates.{Candidate, Candidates, new_candidates, copy, pick, update}
use rmit.Poa.Scheduler.{Scheduler, Hashing, Parent, new_scheduler}
use rmit.Builtin.Authority.{Authority, all_candidates, update_active}
use rmit.Consensus.{candidate_of}

-- `signer` is `none` where it cannot be recovered from the signature.
pub record Claimed : Type 0 where
  pub number : ℕ
  pub timestamp : ℕ
  pub total_score : ℕ
  pub signer : Option ℕ

-- A success comes with the authority contract behind the block, the slices of candidates and the
-- object to be cached; a fault of the program is `panicked`, and `unavailable` an error that does
-- not condemn the block.
pub data Judgement : Type 0 where
  passed : Authority → List (List Candidate) → Candidates → Judgement
  signer_unavailable : Judgement
  unavailable : Judgement
  signer_invalid : Judgement
  unscheduled : Judgement
  total_score_invalid : Judgement
  panicked : Judgement

abbrev pub apply_updates :
    Authority → List (List Candidate) → Candidates → List Proposer → Judgement
apply_updates a slices c [] = passed a slices c
apply_updates a slices c (u ∷ us) = elim (update slices c u.address u.active) [
  | none ↦ panicked
  | some r ↦
      if r.2 then apply_updates (update_active a u.address u.active).0 r.0 r.1 us else panicked
]

abbrev pub check_score :
    Authority
    → List (List Candidate)
    → Candidates
    → Parent
    → Claimed
    → Option (List Proposer × ℕ)
    → Judgement
check_score a slices c parent header none = panicked
check_score a slices c parent header (some (us, score)) =
    if nat_beq ((parent.total_score + score) % u64_mod) header.total_score
    then apply_updates a slices c us
    else total_score_invalid

abbrev pub check_turn :
    Authority
    → List (List Candidate)
    → Candidates
    → Parent
    → Claimed
    → Option (Option Scheduler)
    → Judgement
check_turn a slices c parent header none = unavailable
check_turn a slices c parent header (some none) = signer_invalid
check_turn a slices c parent header (some (some s)) = elim (s.is_time header.timestamp) [
  | none ↦ panicked
  | some false ↦ unscheduled
  | some true ↦ check_score a slices c parent header (s.updates_at header.timestamp)
]

-- The candidates of the cache, copied, or those of the contract; `none` if the steps run out.
unfoldable pub load_candidates :
    ℕ
    → List (List Candidate)
    → Option Candidates
    → Authority
    → Option (List (List Candidate) × Candidates)
load_candidates fuel slices (some cached) a = some (slices, (copy cached).1)
load_candidates fuel slices none a = elim (all_candidates fuel a) [
  | none ↦ none
  | some list ↦ some (new_candidates slices (map candidate_of list))
]

unfoldable pub validate_proposer :
    Hashing
    → ℕ
    → ℕ
    → (ℕ → ℕ)
    → ℕ
    → ℕ
    → ℕ
    → Parent
    → Claimed
    → List (List Candidate)
    → Option Candidates
    → Authority
    → Judgement
validate_proposer h vip214 rounds balance endorsement param fuel parent header slices cache a =
    elim (header.signer) [
      | none ↦ signer_unavailable
      | some signer ↦ elim (load_candidates fuel slices cache a) [
        | none ↦ unavailable
        | some loaded ↦ elim (pick balance endorsement param loaded.0 loaded.1) [
          | none ↦ panicked
          | some (c, ps) ↦
              check_turn a loaded.0 c parent header
                (new_scheduler h vip214 rounds header.number parent signer ps)
        ]
      ]
    ]
