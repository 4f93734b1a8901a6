-- ===== src/Builtin/Authority/Listing.antt =====
-- What the storage of the authority contract reads after a write, and the list of masters that it
-- stands for.
use rmit.Prelude.{
  ℕ, zero, suc, ◌≡◌, ◌≢◌, ◌≤◌, ◌↔◌, refl, Bool, true, false, Option, none, some, List, [], ◌∷◌, map,
  In, inl, inr, if◌then◌else◌, nat_beq, number_key, length, Bool-cases, arith, ap, ◌∙◌,
}
use rmit.Prelude.Fallible.{some_eq}
use rmit.Prelude.Assoc.{lookup-insert, lookup-delete}
use rmit.Builtin.Authority.{
  Entry, Authority, no_entry, is_empty, is_linked, is_none, get_entry, set_entry, relink_prev,
  relink_next, link_after, list_from, all_candidates,
}
use rmit.Builtin.Authority.Segments.{front, back, Segment, AllDistinct}

-- The pointers name the ends of the list, the entries link it in both directions without a
-- repetition, each of its masters has an endorsor, and no other entry is linked.
pub record Lists (a : Authority) (xs : List ℕ) : Type 0 where
  pub head_is : a.head ≡ front xs none
  pub tail_is : a.tail ≡ back none xs
  pub linked : Segment (get_entry a) none xs none
  pub distinct : AllDistinct xs
  pub endorsed : (x : ℕ) → In x xs → (get_entry a x).endorsor ≢ 0
  pub unlisted : (x : ℕ) → ¬ In x xs → is_linked (get_entry a x) ≡ false

-- Whether a pointer names a master.
abbrev pub points : Option ℕ → ℕ → Bool
points none j = false
points (some k) j = nat_beq k j

pub points_iff : (t : Option ℕ) (x : ℕ) → (points t x ≡ true) ↔ (t ≡ some x)
points_iff none x = (λ h. absurd (cc), λ h. absurd (cc))
points_iff (some k) x =
    (λ h. ap some ((number_key.same_iff k x).0 h), λ h. (number_key.same_iff k x).1 (some_eq h))

pub points_other : (t : Option ℕ) (x : ℕ) → ¬ (t ≡ some x) → points t x ≡ false
points_other t x h = elim (Bool-cases (points t x)) [
  | inl hit ↦ absurd (h ((points_iff t x).0 hit))
  | inr miss ↦ miss
]

is_none_eq : {A : Type 0} (o : Option A) → is_none o ≡ true → o ≡ none
is_none_eq none h = refl
is_none_eq (some a) h = absurd (cc)

pub is_empty_entry : (e : Entry) → is_empty e ≡ true → e ≡ no_entry
unfolding is_empty
is_empty_entry e h =
    let endorsor : e.endorsor ≡ 0 = ground arith in
    let identity : e.identity ≡ 0 = ground arith in
    let active : e.active ≡ false = ground arith in
    let prev : e.prev ≡ none = is_none_eq e.prev (ground arith) in
    let next : e.next ≡ none = is_none_eq e.next (ground arith) in
    λ i. record {
      endorsor = endorsor i;
      identity = identity i;
      active = active i;
      prev = prev i;
      next = next i;
    }

pub get_entry-set_entry :
    (k : ℕ) (e : Entry) (a : Authority) (j : ℕ)
    → get_entry (set_entry k e a) j ≡ (if nat_beq k j then e else get_entry a j)
unfolding get_entry set_entry
get_entry-set_entry k e a j = elim (Bool-cases (is_empty e)) [
  | inl empty ↦ ground (arith, empty, is_empty_entry e empty, lookup-delete k j a.entries)
  | inr full ↦ ground (arith, full, lookup-insert k j e a.entries)
]

-- One entry is changed in place.
pub get_entry_changed :
    (change : Entry → Entry) (k : ℕ) (a : Authority) (j : ℕ)
    → get_entry (set_entry k (change (get_entry a k)) a) j
      ≡ (if nat_beq k j then change (get_entry a j) else get_entry a j)
get_entry_changed change k a j =
    let written = get_entry-set_entry k (change (get_entry a k)) a j in
    elim (Bool-cases (nat_beq k j)) [
      | inl same ↦ ground (arith, same, written, number_key.same_iff k j)
      | inr other ↦ ground (arith, other, written)
    ]

pub get_entry-relink_prev :
    (p next : Option ℕ) (a : Authority) (j : ℕ)
    → get_entry (relink_prev p next a) j
      ≡ (if points p j then record (get_entry a j) { next = next } else get_entry a j)
unfolding get_entry
get_entry-relink_prev none next a j = refl
get_entry-relink_prev (some k) next a j = get_entry_changed (λ e. record e { next = next }) k a j

pub get_entry-relink_next :
    (n prev : Option ℕ) (a : Authority) (j : ℕ)
    → get_entry (relink_next n prev a) j
      ≡ (if points n j then record (get_entry a j) { prev = prev } else get_entry a j)
unfolding get_entry
get_entry-relink_next none prev a j = refl
get_entry-relink_next (some k) prev a j = get_entry_changed (λ e. record e { prev = prev }) k a j

pub get_entry-link_after :
    (t : Option ℕ) (master : ℕ) (a : Authority) (j : ℕ)
    → get_entry (link_after t master a) j
      ≡ (if points t j then record (get_entry a j) { next = some master } else get_entry a j)
unfolding get_entry
get_entry-link_after none master a j = refl
get_entry-link_after (some k) master a j =
    get_entry_changed (λ e. record e { next = some master }) k a j

-- The loop of the listing follows the links.
list_from_segment :
    (fuel : ℕ) (a : Authority) (before : Option ℕ) (xs : List ℕ)
    → Segment (get_entry a) before xs none
    → length xs ≤ fuel
    → list_from fuel a (front xs none) ≡ some (map (λ x. (x, get_entry a x)) xs)
unfolding list_from
list_from_segment fuel a before [] s enough = refl
list_from_segment zero a before (x ∷ xs) s enough = absurd (omega arith)
list_from_segment (suc fuel) a before (x ∷ xs) (p, n, s) enough =
    rw n (rw (list_from_segment fuel a (some x) xs s (omega arith)) refl)

-- On a storage that stands for a list of masters, `AllCandidates` returns them, in that order and
-- each with its entry, when it is given at least as many steps as there are masters.
pub all_candidates_listed :
    (a : Authority) (xs : List ℕ) (fuel : ℕ)
    → Lists a xs
    → length xs ≤ fuel
    → all_candidates fuel a ≡ some (map (λ x. (x, get_entry a x)) xs)
unfolding all_candidates
all_candidates_listed a xs fuel l enough =
    ap (list_from fuel a) l.head_is ∙ list_from_segment fuel a none xs l.linked enough
