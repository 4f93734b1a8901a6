-- ===== src/Builtin/Authority.antt =====
-- builtin/authority: the candidates for block proposers, a doubly linked list in the storage of a
-- contract. Addresses and identities are numbers; storage does not fail.
pub mod Segments
pub mod Listing
pub mod Adding
pub mod Relinked
pub mod Revoking
pub mod Picking
pub mod Updating
use rmit.Prelude.{
  ℕ, zero, suc, Bool, true, false, not, ◌&&◌, ◌||◌, Option, none, some, List, [], ◌∷◌, nat_beq, ltb,
  leb, if◌then◌else◌, number_key, length,
}
use rmit.Prelude.Fallible.{◌>>=◌}
use rmit.Prelude.Assoc.{lookup, insert, delete}

pub record Entry : Type 0 where
  pub endorsor : ℕ
  pub identity : ℕ
  pub active : Bool
  pub prev : Option ℕ
  pub next : Option ℕ

-- The storage of the contract: the entries by node master, and two pointers.
pub record Authority : Type 0 where
  pub entries : List (ℕ × Entry)
  pub head : Option ℕ
  pub tail : Option ℕ

-- What an empty slot of the storage reads as.
abbrev pub no_entry : Entry
no_entry = record { endorsor = 0; identity = 0; active = false; prev = none; next = none }

abbrev pub is_none {ℓ} : {A : Type ℓ} → Option A → Bool
is_none none = true
is_none (some a) = false

unfoldable pub is_empty : Entry → Bool
is_empty e =
    nat_beq e.endorsor 0 && nat_beq e.identity 0 && not e.active && is_none e.prev && is_none e.next

unfoldable pub is_linked : Entry → Bool
is_linked e = not (is_none e.prev) || not (is_none e.next)

unfoldable pub get_entry : Authority → ℕ → Entry
get_entry a master = elim (lookup master a.entries) [ none ↦ no_entry | some e ↦ e ]

-- An empty entry is written as an empty slot.
unfoldable pub set_entry : ℕ → Entry → Authority → Authority
set_entry master e a = record a {
  entries = if is_empty e then delete master a.entries else insert master e a.entries;
}

abbrev pub set_head : Option ℕ → Authority → Authority
set_head p a = record a { head = p }

abbrev pub set_tail : Option ℕ → Authority → Authority
set_tail p a = record a { tail = p }

-- `Get`: whether the master is listed, and its entry.
unfoldable pub get_candidate : Authority → ℕ → Bool × Entry
get_candidate a master =
    let e = get_entry a master in
    if is_linked e
    then (true, e)
    else (elim (a.head) [ none ↦ false | some h ↦ nat_beq h master ], e)

-- The neighbour before the new entry, or the head if there is none.
abbrev pub link_after : Option ℕ → ℕ → Authority → Authority
link_after none master a = set_head (some master) a
link_after (some t) master a = set_entry t (record (get_entry a t) { next = some master }) a

unfoldable pub add_candidate : Authority → ℕ → ℕ → ℕ → Authority × Bool
add_candidate a master endorsor identity =
    let e = get_entry a master in
    if is_empty e
    then (
      set_entry master
          (record {
            endorsor = endorsor;
            identity = identity;
            active = true;
            prev = a.tail;
            next = e.next;
          })
          (link_after a.tail master (set_tail (some master) a)),
      true,
    )
    else (a, false)

-- The neighbours of an entry that leaves.
abbrev pub relink_prev : Option ℕ → Option ℕ → Authority → Authority
relink_prev none next a = set_head next a
relink_prev (some p) next a = set_entry p (record (get_entry a p) { next = next }) a

abbrev pub relink_next : Option ℕ → Option ℕ → Authority → Authority
relink_next none prev a = set_tail prev a
relink_next (some n) prev a = set_entry n (record (get_entry a n) { prev = prev }) a

unfoldable pub revoke : Authority → ℕ → Authority × Bool
revoke a master =
    let e = get_entry a master in
    if is_linked e
    then (
      set_entry master (record e { next = none; prev = none; active = false })
          (relink_next e.next e.prev (relink_prev e.prev e.next a)),
      true,
    )
    else (a, false)

unfoldable pub update_active : Authority → ℕ → Bool → Authority × Bool
update_active a master active =
    let e = get_entry a master in
    if is_linked e then (set_entry master (record e { active = active }) a, true) else (a, false)

-- The loop of `AllCandidates`, with the number of entries left; `none` if that runs out.
unfoldable pub list_from : ℕ → Authority → Option ℕ → Option (List (ℕ × Entry))
list_from fuel a none = some []
list_from zero a (some p) = none
list_from (suc fuel) a (some p) =
    list_from fuel a (get_entry a p).next >>= λ rest. some ((p, get_entry a p) ∷ rest)

unfoldable pub all_candidates : ℕ → Authority → Option (List (ℕ × Entry))
all_candidates fuel a = list_from fuel a a.head

-- The loop of `Candidates`, with the room left; `balance` is that of an endorsor in the state.
unfoldable pub pick_from : (ℕ → ℕ) → ℕ → ℕ → ℕ → Authority → Option ℕ → Option (List (ℕ × Entry))
pick_from balance endorsement fuel zero a ptr = some []
pick_from balance endorsement fuel (suc room) a none = some []
pick_from balance endorsement zero (suc room) a (some p) = none
pick_from balance endorsement (suc fuel) (suc room) a (some p) =
    let e = get_entry a p in
    let taken = pick_from balance endorsement fuel room a e.next >>= λ rest. some ((p, e) ∷ rest) in
    let passed = pick_from balance endorsement fuel (suc room) a e.next in
    if leb endorsement (balance e.endorsor) then taken else passed

unfoldable pub candidates : (ℕ → ℕ) → ℕ → ℕ → ℕ → Authority → Option (List (ℕ × Entry))
candidates balance endorsement limit fuel a = pick_from balance endorsement fuel limit a a.head

unfoldable pub next_master : Authority → ℕ → Option ℕ
next_master a master = (get_entry a master).next
