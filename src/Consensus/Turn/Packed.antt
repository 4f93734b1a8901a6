-- ===== src/Consensus/Turn/Packed.antt =====
-- The block that a packer produces in its turn passes the check of its proposer.
use rmit.Prelude.{
  ℕ, ◌+◌, ◌%◌, ◌≤◌, ◌≡◌, refl, true, none, some, List, map, take, filter_if, length, length-map,
  length-filter_if, length-take, arith, ap, sym, ◌∙◌, subst, number_key,
}
use rmit.Thor.{u64_mod, u32_mod}
use rmit.Poa.Proposer.{Proposer}
use rmit.Poa.Candidates.{Candidate, Candidates, new_candidates, pick, proposer_limit, proposer_of}
use rmit.Poa.Candidates.Copies.{IsValid}
use rmit.Poa.Candidates.Choice.{pick_new, endorsed}
use rmit.Poa.Scheduler.{Scheduler, Hashing, Parent, new_scheduler}
use rmit.Poa.Slots.{HasRoom, HasRoom-mono}
use rmit.Poa.Scheduler.Laws.{Sorts, new_scheduler-IsLawful}
use rmit.Builtin.Authority.{Entry, Authority, get_entry}
use rmit.Builtin.Authority.Listing.{Lists, all_candidates_listed}
use rmit.Packer.{Packing, schedule_packing}
use rmit.Packer.Found.{schedule_packing-Packed, update_authority-Lists}
use rmit.Consensus.{candidate_of}
use rmit.Consensus.Proposers.{consensus_proposers-packer_proposers, choice_of_entries}
use rmit.Consensus.Turn.{
  Claimed, passed, apply_updates, check_turn, load_candidates, validate_proposer,
}
use rmit.Consensus.Turn.Updates.{apply_updates-passed}
use rmit.Consensus.Turn.Chosen.{with_satisfied, with_satisfied-IsValid, with_satisfied_known}

check_turn-passed :
    (a : Authority) (slices : List (List Candidate)) (c : Candidates) (parent : Parent)
    (header : Claimed) (s : Scheduler) (us : List Proposer) (score : ℕ)
    → s.is_time header.timestamp ≡ some true
    → s.updates_at header.timestamp ≡ some (us, score)
    → (parent.total_score + score) % u64_mod ≡ header.total_score
    → check_turn a slices c parent header (some (some s)) ≡ apply_updates a slices c us
check_turn-passed a slices c parent header s us score turn updated same =
    rw
      (
        check_turn,
        turn,
        updated,
        (number_key.same_iff ((parent.total_score + score) % u64_mod) header.total_score).1 same,
      )
      refl

validate_proposer_fresh :
    (h : Hashing) (vip214 rounds : ℕ) (balance : ℕ → ℕ) (endorsement param fuel : ℕ)
    (parent : Parent) (number time score signer : ℕ) (slices : List (List Candidate))
    (a : Authority) (list : List Candidate) (c : Candidates) (ps : List Proposer)
    → load_candidates fuel slices none a ≡ some (new_candidates slices list)
    → pick balance endorsement param (new_candidates slices list).0 (new_candidates slices list).1
      ≡ some (c, ps)
    → validate_proposer h vip214 rounds balance endorsement param fuel parent
        (record { number = number; timestamp = time; total_score = score; signer = some signer })
        slices
        none
        a
      ≡ check_turn a
          (new_candidates slices list).0
          c
          parent
          (record { number = number; timestamp = time; total_score = score; signer = some signer })
          (new_scheduler h vip214 rounds number parent signer ps)
unfolding validate_proposer
validate_proposer_fresh h vip214 rounds balance endorsement param fuel parent number time score
      signer slices a list c ps loaded picked =
    rw (validate_proposer, loaded, picked) refl

-- The header of the block that a packer builds in its turn.
abbrev pub header_of : Parent → ℕ → Packing → Claimed
header_of parent node_master pk = record {
  number = (parent.number + 1) % u32_mod;
  timestamp = pk.time;
  total_score = pk.total_score;
  signer = some node_master;
}

-- No more proposers are chosen than there are masters.
length_chosen :
    (balance : ℕ → ℕ) (endorsement n : ℕ) (xs : List ℕ) (a : Authority)
    → length (
        map proposer_of (
          take n (
            filter_if
              (endorsed balance endorsement)
              (map candidate_of (map (λ x. (x, get_entry a x)) xs)))))
      ≤ length xs
length_chosen balance endorsement n xs a =
    let entry : ℕ → ℕ × Entry = λ x. (x, get_entry a x) in
    let list = map candidate_of (map entry xs) in
    let kept = filter_if (endorsed balance endorsement) list in
    omega (
      arith,
      length-map proposer_of (take n kept),
      length-take n kept,
      length-filter_if (endorsed balance endorsement) list,
      length-map candidate_of (map entry xs),
      length-map entry xs,
    )

-- On a storage that stands for a list of masters, let a packer find a turn. Then the check of the
-- proposer passes for a header with its time and score, signed by it, where no candidates are
-- cached: nothing panics, the contract is updated as by the packer and stands for the same list,
-- and the object to be cached is valid. The scheduler is whichever the fork asks for; sorting adds
-- no element and keeps their number, both loops over the list are given at least as many steps as
-- there are masters, and no time wraps within the rounds of the search and a round of the masters.
pub validate_proposer-schedule_packing :
    (h : Hashing) (vip214 rounds : ℕ) (balance : ℕ → ℕ) (endorsement param fuel : ℕ)
    (parent : Parent) (node_master now : ℕ) (slices : List (List Candidate)) (a : Authority)
    (xs : List ℕ) (pk : Packing)
    → Sorts h
    → Lists a xs
    → length xs ≤ fuel
    → HasRoom parent.timestamp now (rounds + length xs)
    → schedule_packing h vip214 rounds balance endorsement param fuel parent node_master now a
      ≡ some pk
    → (s : List (List Candidate)) × (d : Candidates) × (validate_proposer h vip214 rounds balance
          endorsement param fuel parent
          (header_of parent node_master pk)
          slices
          none
          a
        ≡ passed pk.authority s d)
      × IsValid s d
      × Lists pk.authority xs
unfolding load_candidates new_candidates
validate_proposer-schedule_packing h vip214 rounds balance endorsement param fuel parent node_master
      now slices a xs pk sorts l enough room packed =
    let es = map (λ x. (x, get_entry a x)) xs in
    let list = map candidate_of es in
    let n = proposer_limit param in
    let ps = map proposer_of (take n (filter_if (endorsed balance endorsement) list)) in
    let (listed, agree) =
      consensus_proposers-packer_proposers balance endorsement param fuel a xs l enough in
    let p =
      schedule_packing-Packed h vip214 rounds balance endorsement param fuel parent node_master now
        a pk ps (listed ∙ ap some (sym (choice_of_entries balance endorsement n es))) packed in
    let (satisfied, picked) = pick_new balance endorsement param slices list in
    let c = with_satisfied slices list satisfied in
    let lawful =
      new_scheduler-IsLawful h vip214 rounds ((parent.number + 1) % u32_mod) parent node_master ps
        p.scheduler sorts p.made in
    let known =
      with_satisfied_known slices list satisfied balance endorsement n p.us
        (lawful.updated pk.time p.us p.score p.updated_at) in
    let (s, d, applied, w) =
      apply_updates-passed a (new_candidates slices list).0 c p.us
        (with_satisfied-IsValid slices list satisfied) known in
    let loaded : load_candidates fuel slices none a ≡ some (new_candidates slices list) =
      rw (load_candidates, all_candidates_listed a xs fuel l enough) refl in
    (
      s,
      d,
      validate_proposer_fresh h vip214 rounds balance endorsement param fuel parent
            ((parent.number + 1) % u32_mod) pk.time pk.total_score node_master slices a list c ps
            loaded picked
          ∙ ap
              (check_turn a (new_candidates slices list).0 c parent
                (header_of parent node_master pk))
              p.made
          ∙ check_turn-passed a (new_candidates slices list).0 c parent
              (header_of parent node_master pk) p.scheduler p.us p.score
              (lawful.turn now
                (HasRoom-mono parent.timestamp now (rounds + length ps) (rounds + length xs)
                  (omega (arith, length_chosen balance endorsement n xs a)) room)
                p.scheduled_at)
              p.updated_at p.score_is
          ∙ applied
          ∙ ap (λ b. passed b s d) p.authority_is,
      w,
      subst (λ b. Lists b xs) p.authority_is (update_authority-Lists a xs p.us l),
    )
