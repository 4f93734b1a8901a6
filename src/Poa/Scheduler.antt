-- ===== src/Poa/Scheduler.antt =====
-- The interface of both schedulers, `Scheduler` of poa/sched.go, and the choice between them that
-- packer/packer.go and consensus/validator.go make.
pub mod LawsV1
pub mod LawsV2
pub mod Laws
use rmit.Prelude.{ℕ, ◌≡◌, Bool, true, Option, none, some, List, All, ltb, if◌then◌else◌}
use rmit.Prelude.Fallible.{◌>>=◌}
use rmit.Poa.Proposer.{Proposer}
use rmit.Poa.Slots.{HasRoom}
use rmit.Poa.SchedulerV1.{SchedulerV1, new_scheduler_v1, schedule_v1, is_the_time_v1, updates_v1}
use rmit.Poa.SchedulerV2.{SchedulerV2, new_scheduler_v2, schedule, is_the_time, updates}
use rmit.Poa.SchedulerV2.Listed.{IsListed}

-- A fault of a method is `none`.
pub record Scheduler : Type 0 where
  pub schedule_at : ℕ → Option ℕ
  pub is_time : ℕ → Option Bool
  pub updates_at : ℕ → Option (List Proposer × ℕ)

-- Code from outside: `dprp` and `digest` are hashes as numbers, the latter of a seed, the number of
-- a block and an address; `sort` is sort.Slice by the digests.
pub record Hashing : Type 0 where
  pub dprp : ℕ → ℕ → ℕ
  pub digest : ℕ → ℕ → ℕ → ℕ
  pub sort : List (ℕ × ℕ) → List (ℕ × ℕ)

-- `rounds` bounds the search of `Schedule`, which has no bound in the source.
abbrev pub of_v1 : Hashing → ℕ → SchedulerV1 → Scheduler
of_v1 h rounds s = record {
  schedule_at = schedule_v1 h.dprp rounds s;
  is_time = is_the_time_v1 h.dprp s;
  updates_at = updates_v1 h.dprp s;
}

abbrev pub of_v2 : SchedulerV2 → Scheduler
of_v2 s = record {
  schedule_at = schedule s;
  is_time = is_the_time s;
  updates_at = λ t. some (updates s t);
}

-- The parent of the block to come: its number and time, and the seed that it gives, or `none` where
-- the seeder fails.
pub record Parent : Type 0 where
  pub number : ℕ
  pub timestamp : ℕ
  pub total_score : ℕ
  pub seed : Option ℕ

-- The outer `none` is an error of the seeder, the inner one that of an unlisted proposer. `number` is
-- that of the block to come, and `vip214` that of the first block of the fork.
unfoldable pub new_scheduler :
    Hashing → ℕ → ℕ → ℕ → Parent → ℕ → List Proposer → Option (Option Scheduler)
new_scheduler h vip214 rounds number parent addr ps =
    if ltb number vip214
    then some
        (new_scheduler_v1 addr ps parent.number parent.timestamp >>= λ s. some (of_v1 h rounds s))
    else (parent.seed >>= λ seed. some (
        new_scheduler_v2 (h.digest seed parent.number) h.sort addr ps parent.timestamp >>= λ s.
        some (of_v2 s)))

-- What the clients of a scheduler rely on: it is the proposer's turn at the time that it
-- schedules, while so many slots follow before times wrap, and whoever it updates is among the
-- proposers.
pub record IsLawful (ps : List Proposer) (parent_time slots : ℕ) (s : Scheduler) : Type 0 where
  pub turn :
      (now : ℕ) {t : ℕ}
      → HasRoom parent_time now slots
      → s.schedule_at now ≡ some t
      → s.is_time t ≡ some true
  pub updated :
      (t : ℕ) (us : List Proposer) (score : ℕ)
      → s.updates_at t ≡ some (us, score)
      → All (λ u. IsListed u.address ps) us
