-- ===== src/Tests/Turns.antt =====
-- Two masters take turns, before and after the fork VIP214.
use rmit.Prelude.{◌≡◌, refl, false, none, some, List, [], ◌∷◌, arith}
use rmit.Prelude.Assoc.{lookup, insert}
use rmit.Poa.Slots.{first_slot}
use rmit.Poa.Candidates.{
  Candidate, Candidates, new_candidates, proposer_limit, satisfy, to_proposers, pick,
}
use rmit.Poa.Candidates.Copies.{IsValid}
use rmit.Poa.Scheduler.{Hashing, Parent, new_scheduler}
use rmit.Poa.SchedulerV1.{
  select, new_scheduler_v1, whose_turn, search_turn, schedule_v1, to_deactivate, updates_v1,
}
use rmit.Poa.SchedulerV2.{
  collect, new_scheduler_v2, search_slot, schedule, is_scheduled, is_the_time, inactive_from,
  updates,
}
use rmit.Builtin.Authority.{
  Authority, is_empty, is_linked, get_entry, set_entry, candidates, pick_from, all_candidates,
  list_from, update_active,
}
use rmit.Builtin.Authority.Listing.{Lists}
use rmit.Packer.{Packing, packer_proposers, schedule_packing}
use rmit.Consensus.Turn.{
  passed, unscheduled, total_score_invalid, signer_invalid, load_candidates, validate_proposer,
}
use rmit.Consensus.Turn.Packed.{header_of, validate_proposer-schedule_packing}
use rmit.Tests.Masters.{two_masters, first_entry, second_entry, two_masters-Lists}

-- The draw goes by the time, and the list is not shuffled.
abbrev hashing : Hashing
hashing = record {
  dprp = λ number time. time;
  digest = λ seed number addr. addr;
  sort = λ list. list;
}

abbrev parent : Parent
parent = record { number = 60; timestamp = 1000; total_score = 500; seed = some 7 }

-- The second proposer is asleep: it missed the slot of the first one's turn.
abbrev second_asleep : Authority
second_asleep = record two_masters {
  entries = (11, first_entry) ∷ (12, record second_entry { active = false }) ∷ [];
}

-- From the fork on the first master comes back to its turn one slot after the second's.
abbrev packing : Packing
packing = record { time = 1030; total_score = 501; authority = second_asleep }

packing_test :
    schedule_packing hashing 50 8 (λ endorsor. endorsor) 20 0 2 parent 11 1015 two_masters
    ≡ some packing
unfolding schedule_packing packer_proposers candidates pick_from get_entry lookup proposer_limit
    new_scheduler new_scheduler_v2 collect schedule search_slot first_slot updates inactive_from
    update_active is_linked set_entry is_empty insert
packing_test = refl

-- Before the fork the draw gives the first master the slots of even tens.
drawn_test :
    schedule_packing hashing 100 8 (λ endorsor. endorsor) 20 0 2 parent 11 1015 two_masters
    ≡ some (record { time = 1020; total_score = 502; authority = two_masters })
unfolding schedule_packing packer_proposers candidates pick_from get_entry lookup proposer_limit
    new_scheduler new_scheduler_v1 select schedule_v1 search_turn whose_turn first_slot updates_v1
    to_deactivate update_active is_linked set_entry is_empty insert
drawn_test = refl

early_test :
    validate_proposer hashing 50 8
      (λ endorsor. endorsor)
      20
      0
      2
      parent
      (record { number = 61; timestamp = 1020; total_score = 501; signer = some 11 })
      []
      none
      two_masters
    ≡ unscheduled
unfolding validate_proposer load_candidates all_candidates list_from get_entry lookup pick satisfy
    to_proposers proposer_limit new_candidates new_scheduler new_scheduler_v2 collect is_the_time
    is_scheduled insert
early_test = refl

score_test :
    validate_proposer hashing 50 8
      (λ endorsor. endorsor)
      20
      0
      2
      parent
      (record { number = 61; timestamp = 1030; total_score = 502; signer = some 11 })
      []
      none
      two_masters
    ≡ total_score_invalid
unfolding validate_proposer load_candidates all_candidates list_from get_entry lookup pick satisfy
    to_proposers proposer_limit new_candidates new_scheduler new_scheduler_v2 collect is_the_time
    is_scheduled updates inactive_from insert
score_test = refl

stranger_test :
    validate_proposer hashing 50 8
      (λ endorsor. endorsor)
      20
      0
      2
      parent
      (record { number = 61; timestamp = 1030; total_score = 501; signer = some 13 })
      []
      none
      two_masters
    ≡ signer_invalid
unfolding validate_proposer load_candidates all_candidates list_from get_entry lookup pick satisfy
    to_proposers proposer_limit new_candidates new_scheduler new_scheduler_v2 collect insert
stranger_test = refl

validate_proposer-schedule_packing_example :
    (s : List (List Candidate)) × (d : Candidates) × (validate_proposer hashing 50 8
        (λ endorsor. endorsor)
        20
        0
        2
        parent
        (header_of parent 11 packing)
        []
        none
        two_masters
      ≡ passed second_asleep s d)
    × IsValid s d
    × Lists second_asleep (11 ∷ 12 ∷ [])
validate_proposer-schedule_packing_example =
    validate_proposer-schedule_packing hashing 50 8 (λ endorsor. endorsor) 20 0 2 parent 11 1015 []
      two_masters (11 ∷ 12 ∷ []) packing
      (record { adds_nothing = λ xs e m. m; same_length = λ xs. refl }) two_masters-Lists
      (omega arith) (record { behind_parent = omega arith; behind_now = omega arith }) packing_test
