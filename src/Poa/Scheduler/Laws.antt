-- ===== src/Poa/Scheduler/Laws.antt =====
-- Both schedulers keep what the clients of the interface rely on.
use rmit.Prelude.{
  ℕ, ◌+◌, ◌≡◌, some, List, All, In, Bool-cases, inl, inr, ltb, ap, sym, subst, length, arith,
}
use rmit.Prelude.Fallible.{>>=-eq-some, some_eq}
use rmit.Poa.Proposer.{Proposer}
use rmit.Poa.Slots.{HasRoom, HasRoom-mono}
use rmit.Poa.SchedulerV1.{SchedulerV1, new_scheduler_v1}
use rmit.Poa.SchedulerV2.{SchedulerV2, new_scheduler_v2}
use rmit.Poa.SchedulerV2.Listed.{IsListed}
use rmit.Poa.SchedulerV2.Turns.{schedule-is_the_time}
use rmit.Poa.Scheduler.{Scheduler, Hashing, Parent, IsLawful, of_v1, of_v2, new_scheduler}
use rmit.Poa.Scheduler.LawsV1.{new_scheduler_v1-Among, schedule_v1_turn, updates_v1-Among}
use rmit.Poa.Scheduler.LawsV2.{new_scheduler_v2_among, updates_among}

-- Sorting adds no element and keeps their number.
pub record Sorts (h : Hashing) : Type 0 where
  pub adds_nothing : (xs : List (ℕ × ℕ)) (e : ℕ × ℕ) → In e (h.sort xs) → In e xs
  pub same_length : (xs : List (ℕ × ℕ)) → length (h.sort xs) ≡ length xs

of_v1-IsLawful :
    (h : Hashing) (rounds addr : ℕ) (ps : List Proposer) (number time : ℕ) (s : SchedulerV1)
    → new_scheduler_v1 addr ps number time ≡ some s
    → IsLawful ps time (rounds + length ps) (of_v1 h rounds s)
of_v1-IsLawful h rounds addr ps number time s made =
    let (actives, own, at_parent) = new_scheduler_v1-Among addr ps number time s made in
    record {
      turn = λ now room at.
          schedule_v1_turn h.dprp s rounds now
            (subst (λ p. HasRoom p now rounds) (sym at_parent)
              (HasRoom-mono time now rounds (rounds + length ps) (omega arith) room))
            at;
      updated = λ t us score done. updates_v1-Among h.dprp s ps actives own t us score done;
    }

of_v2-IsLawful :
    (h : Hashing) (digest : ℕ → ℕ) (rounds addr : ℕ) (ps : List Proposer) (time : ℕ)
    (s : SchedulerV2)
    → Sorts h
    → new_scheduler_v2 digest h.sort addr ps time ≡ some s
    → IsLawful ps time (rounds + length ps) (of_v2 s)
of_v2-IsLawful h digest rounds addr ps time s sorts made =
    let (shuffled, own, at_parent, fits) =
      new_scheduler_v2_among digest h.sort addr ps time s sorts.adds_nothing sorts.same_length
        made in
    record {
      turn = λ now room at.
          let room_v2 =
            subst (λ p. HasRoom p now (length s.shuffled)) (sym at_parent)
              (HasRoom-mono time now (length s.shuffled) (rounds + length ps) (omega (arith, fits))
                room) in
          let (slot, late, turn, least) = schedule-is_the_time s now room_v2 at in turn;
      updated = λ t us score done.
          subst (All (λ u. IsListed u.address ps)) (ap (λ r. r.0) (some_eq done))
            (updates_among ps s t shuffled own);
    }

-- Whichever scheduler is chosen for a block, it is lawful, if sorting adds no element and keeps
-- their number.
pub new_scheduler-IsLawful :
    (h : Hashing) (vip214 rounds number : ℕ) (parent : Parent) (addr : ℕ) (ps : List Proposer)
    (s : Scheduler)
    → Sorts h
    → new_scheduler h vip214 rounds number parent addr ps ≡ some (some s)
    → IsLawful ps parent.timestamp (rounds + length ps) s
unfolding new_scheduler
new_scheduler-IsLawful h vip214 rounds number parent addr ps s sorts made =
    elim (Bool-cases (ltb number vip214)) [
      | inl before ↦
          let (v1, new, is) =
            >>=-eq-some (new_scheduler_v1 addr ps parent.number parent.timestamp) _
              (some_eq (rw before at made)) in
          subst (IsLawful ps parent.timestamp (rounds + length ps)) (some_eq is)
            (of_v1-IsLawful h rounds addr ps parent.number parent.timestamp v1 new)
      | inr from ↦
          let (seed, known, rest) = >>=-eq-some parent.seed _ (rw from at made) in
          let (v2, new, is) =
            >>=-eq-some
              (new_scheduler_v2 (h.digest seed parent.number) h.sort addr ps parent.timestamp) _
              (some_eq rest) in
          subst (IsLawful ps parent.timestamp (rounds + length ps)) (some_eq is) (
            of_v2-IsLawful h (h.digest seed parent.number) rounds addr ps parent.timestamp v2 sorts
              new)
    ]
