-- ===== src/Tests/Snapshots.antt =====
-- The stacked map with accounts by number and balances.
use rmit.Prelude.{
  ℕ, ◌≡◌, refl, none, some, List, [], ◌∷◌, arith, if◌then◌else◌, nat_beq, number_key,
}
use rmit.Prelude.Fallible.{◌>>=◌}
use rmit.Prelude.Assoc.{lookup, insert, delete}
use rmit.StackedMap.{
  note_revision, depth, pop_rounds, pop_revision, unwind, level_at, StackedMap, Fetch, new, push,
  pop, pop_to, put, get, journal,
}
use rmit.StackedMap.Revisions.{holders}
use rmit.StackedMap.Refines.{IsValid, spec_get, get-spec_get}
use rmit.StackedMap.Revert.{get-put, Change, change_all, pop_to-push}
use rmit.StackedMap.Journal.{collect}
use rmit.StackedMap.Replay.{get-journal}

abbrev balance : ℕ → Fetch ℕ
balance k = if nat_beq k 7 then Fetch.found 100 else Fetch.absent

-- Account 3 was written in the bottom level, account 7 in the level above it.
abbrev two_writes : StackedMap ℕ ℕ
two_writes = record {
  src = balance;
  map_stack =
      record { kvs = (7, 60) ∷ []; journal = (7, 60) ∷ [] }
      ∷ record { kvs = (3, 40) ∷ []; journal = (3, 40) ∷ [] }
      ∷ [];
  revisions = (3, 0 ∷ []) ∷ (7, 1 ∷ []) ∷ [];
}

two_writes_test : (put (new balance) 3 40 >>= λ sm. put (push sm).0 7 60) ≡ some two_writes
unfolding put push insert note_revision lookup
two_writes_test = refl

two_writes-IsValid : IsValid two_writes
unfolding lookup holders insert
two_writes-IsValid = record {
  tracks = λ k. ground arith;
  sound = (
    record { distinct = (refl, tt); journaled = λ j. refl },
    (record { distinct = (refl, tt); journaled = λ j. refl }, tt),
  );
}

get-spec_get_example : get two_writes 7 ≡ some (spec_get two_writes 7)
get-spec_get_example = get-spec_get two_writes two_writes-IsValid 7

revert_test : (pop_to two_writes 1 >>= λ sm. get sm 7) ≡ some (Fetch.found 100)
unfolding pop_to get pop_rounds pop unwind pop_revision level_at lookup insert delete
revert_test = refl

get-put_test :
    (sm' : StackedMap ℕ ℕ) × (put two_writes 3 90 ≡ some sm')
    × IsValid sm'
    × ((j : ℕ) → get sm' j ≡ (if nat_beq 3 j then some (Fetch.found 90) else get two_writes j))
unfolding depth
get-put_test = get-put two_writes 3 90 two_writes-IsValid (omega arith)

abbrev transfer : List (Change ℕ ℕ)
transfer = Change.written 7 10 ∷ Change.pushed ∷ Change.written 3 90 ∷ Change.written 7 10 ∷ []

pop_to-push_example :
    (sm' : StackedMap ℕ ℕ) × ((change_all transfer (push two_writes).0 >>= λ x.
    pop_to x (push two_writes).1)
      ≡ some sm')
    × IsValid sm'
    × (sm'.map_stack ≡ two_writes.map_stack)
    × ((k : ℕ) → get sm' k ≡ get two_writes k)
pop_to-push_example = pop_to-push two_writes transfer two_writes-IsValid

get-journal_example :
    get two_writes 3
    ≡ some (elim (lookup 3 (journal two_writes collect [])) [
      | none ↦ balance 3
      | some v ↦ Fetch.found v
    ])
get-journal_example = get-journal two_writes 3 two_writes-IsValid
