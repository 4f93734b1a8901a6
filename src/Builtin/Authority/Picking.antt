-- ===== src/Builtin/Authority/Picking.antt =====
-- What the listings of the authority contract return, and which masters are listed.
use rmit.Prelude.{
  ℕ, zero, suc, ◌≡◌, ◌≤◌, ◌⊎◌, ◌↔◌, refl, true, false, Option, none, some, List, [], ◌∷◌, map, take,
  filter_if, In, inl, inr, leb, nat_beq, number_key, length, Bool-cases, Option-cases, arith, sym,
  ap, ◌∙◌,
}
use rmit.Builtin.Authority.{
  Entry, Authority, is_linked, get_entry, get_candidate, pick_from, candidates,
}
use rmit.Builtin.Authority.Segments
use rmit.Builtin.Authority.Segments.{front, Segment, AllDistinct}
use rmit.Builtin.Authority.Listing.{Lists, points, points_iff}

-- The masters of a list whose endorsor has at least the endorsement, each with its entry.
abbrev pub endorsed_by : (ℕ → ℕ) → ℕ → Authority → List ℕ → List (ℕ × Entry)
endorsed_by balance endorsement a xs =
    filter_if (λ c. leb endorsement (balance c.1.endorsor)) (map (λ x. (x, get_entry a x)) xs)

module _ (balance : ℕ → ℕ) (endorsement : ℕ) (a : Authority) where
  pick_from_segment :
      (fuel room : ℕ) (before : Option ℕ) (xs : List ℕ)
      → Segment (get_entry a) before xs none
      → length xs ≤ fuel
      → pick_from balance endorsement fuel room a (front xs none)
        ≡ some (take room (endorsed_by balance endorsement a xs))
  unfolding pick_from
  pick_from_segment fuel zero before xs s enough = refl
  pick_from_segment fuel (suc room) before [] s enough = refl
  pick_from_segment zero (suc room) before (x ∷ xs) s enough = absurd (omega arith)
  pick_from_segment (suc fuel) (suc room) before (x ∷ xs) (p, n, s) enough =
      elim (Bool-cases (leb endorsement (balance (get_entry a x).endorsor))) [
        | inl enough_stake ↦
            rw enough_stake
              (rw n (rw (pick_from_segment fuel room (some x) xs s (omega arith)) refl))
        | inr less ↦ rw less (rw n (pick_from_segment fuel (suc room) (some x) xs s (omega arith)))
      ]

-- On a storage that stands for a list of masters, `Candidates` returns in their order the first
-- masters, at most `limit`, whose endorsors have at least the endorsement, each with its entry,
-- when it is given at least as many steps as there are masters.
pub candidates_listed :
    (balance : ℕ → ℕ) (endorsement limit fuel : ℕ) (a : Authority) (xs : List ℕ)
    → Lists a xs
    → length xs ≤ fuel
    → candidates balance endorsement limit fuel a
      ≡ some (take limit (endorsed_by balance endorsement a xs))
unfolding candidates
candidates_listed balance endorsement limit fuel a xs l enough =
    ap (pick_from balance endorsement fuel limit a) l.head_is
    ∙ pick_from_segment balance endorsement a fuel limit none xs l.linked enough

In-cases : (x : ℕ) (xs : List ℕ) → In x xs ⊎ (¬ In x xs)
In-cases x [] = inr (λ m. m)
In-cases x (y ∷ ys) = elim (Bool-cases (nat_beq x y)) [
  | inl same ↦ inl (inl ((number_key.same_iff x y).0 same))
  | inr other ↦ elim (In-cases x ys) [
    | inl m ↦ inl (inr m)
    | inr out ↦ inr (λ m. elim m [
      | inl e ↦ ground (arith, other, (number_key.same_iff x y).1 e)
      | inr later ↦ out later
    ])
  ]
]

prev_of_unlinked : (e : Entry) → is_linked e ≡ false → e.prev ≡ none
unfolding is_linked
prev_of_unlinked e off = elim (Option-cases e.prev) [
  | inl nothing ↦ nothing
  | inr (p, is) ↦ absurd (ground (arith, off, is))
]

prev_within :
    (f : ℕ → Entry) (b x : ℕ) (xs : List ℕ)
    → Segment f (some b) xs none
    → In x xs
    → ¬ ((f x).prev ≡ none)
prev_within f b x [] s m h = elim m [ ]
prev_within f b x (y ∷ ys) (p, n, s) (inl e) h = absurd (cc (p, h, ap (λ w. (f w).prev) e))
prev_within f b x (y ∷ ys) (p, n, s) (inr m) h = prev_within f y x ys s m h

-- A listed master that is not linked is the first one.
unlinked_first :
    (f : ℕ → Entry) (x : ℕ) (xs : List ℕ)
    → Segment f none xs none
    → In x xs
    → is_linked (f x) ≡ false
    → front xs none ≡ some x
unlinked_first f x [] s m off = elim m [ ]
unlinked_first f x (y ∷ ys) (p, n, s) (inl e) off = ap some (sym e)
unlinked_first f x (y ∷ ys) (p, n, s) (inr m) off =
    absurd (prev_within f y x ys s m (prev_of_unlinked (f x) off))

points_as_test :
    (o : Option ℕ) (x : ℕ) → (elim o [ none ↦ false | some h ↦ nat_beq h x ]) ≡ points o x
points_as_test none x = refl
points_as_test (some k) x = refl

get_candidate_linked :
    (a : Authority) (x : ℕ) → is_linked (get_entry a x) ≡ true → (get_candidate a x).0 ≡ true
unfolding get_candidate
get_candidate_linked a x on = rw on refl

get_candidate_unlinked :
    (a : Authority) (x : ℕ)
    → is_linked (get_entry a x) ≡ false
    → (get_candidate a x).0 ≡ points a.head x
unfolding get_candidate
get_candidate_unlinked a x off = rw off (points_as_test a.head x)

-- On a storage that stands for a list of masters, `Get` tells of each master whether it is listed.
pub get_candidate_listed :
    (a : Authority) (xs : List ℕ) (master : ℕ)
    → Lists a xs
    → ((get_candidate a master).0 ≡ true) ↔ In master xs
get_candidate_listed a xs master l = elim (Bool-cases (is_linked (get_entry a master))) [
  | inl on ↦ (
    λ h. elim (In-cases master xs) [
      | inl m ↦ m
      | inr out ↦ absurd (ground (arith, on, l.unlisted master out))
    ],
    λ m. get_candidate_linked a master on,
  )
  | inr off ↦ (
    λ h. Segments.front-none-In master xs (
        sym l.head_is
        ∙ (points_iff a.head master).0 (sym (get_candidate_unlinked a master off) ∙ h)),
    λ m.
        get_candidate_unlinked a master off
        ∙ (points_iff a.head master).1
            (l.head_is ∙ unlinked_first (get_entry a) master xs l.linked m off),
  )
]
