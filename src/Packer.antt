-- ===== src/Packer.antt =====
-- packer/packer.go: the proposers among whom a packer looks for its turn, and the turn that it finds.
pub mod Pack
pub mod Adopt
pub mod Found
use rmit.Prelude.{ℕ, ◌+◌, ◌%◌, Option, none, some, List, [], ◌∷◌, map}
use rmit.Prelude.Fallible.{◌>>=◌}
use rmit.Thor.{u64_mod, u32_mod}
use rmit.Poa.Proposer.{Proposer}
use rmit.Poa.Candidates.{proposer_limit}
use rmit.Poa.Scheduler.{Scheduler, Hashing, Parent, new_scheduler}
use rmit.Builtin.Authority.{Entry, Authority, candidates, update_active}

abbrev pub scheduled : ℕ × Entry → Proposer
scheduled c = record { address = c.0; active = c.1.active }

-- `balance` is that of an address in the state of the parent, `endorsement` and `param` are the
-- parameters of the chain; the limit on proposers is computed as in `Candidates.Pick`.
unfoldable pub packer_proposers : (ℕ → ℕ) → ℕ → ℕ → ℕ → Authority → Option (List Proposer)
packer_proposers balance endorsement param fuel a =
    candidates balance endorsement (proposer_limit param) fuel a >>= λ cs. some (map scheduled cs)

-- The block that a packer is going to produce: its time and total score, and the authority contract
-- behind the updates of its proposers.
pub record Packing : Type 0 where
  pub time : ℕ
  pub total_score : ℕ
  pub authority : Authority

abbrev pub update_authority : Authority → List Proposer → Authority
update_authority a [] = a
update_authority a (u ∷ us) = update_authority (update_active a u.address u.active).0 us

-- The turn of a packer. `none` is an error of the contract, the seeder or the scheduler, or a fault
-- of the latter.
abbrev pub pack_turn : Authority → Parent → Scheduler → ℕ → Option Packing
pack_turn a parent s now = s.schedule_at now >>= λ time. s.updates_at time >>= λ u. some (record {
  time = time;
  total_score = (parent.total_score + u.1) % u64_mod;
  authority = update_authority a u.0;
})

-- `Schedule`, on the state behind the parent.
unfoldable pub schedule_packing :
    Hashing → ℕ → ℕ → (ℕ → ℕ) → ℕ → ℕ → ℕ → Parent → ℕ → ℕ → Authority → Option Packing
schedule_packing h vip214 rounds balance endorsement param fuel parent node_master now a =
    packer_proposers balance endorsement param fuel a >>= λ ps.
    new_scheduler h vip214 rounds ((parent.number + 1) % u32_mod) parent node_master ps >>= λ made.
    made >>= λ s. pack_turn a parent s now
