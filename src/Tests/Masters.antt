-- ===== src/Tests/Masters.antt =====
-- Storages of the authority contract with up to three masters.
use rmit.Prelude.{
  ℕ, ◌≡◌, ◌≢◌, ◌⊎◌, refl, true, false, none, some, List, [], ◌∷◌, In, take, inl, inr, arith,
  if◌then◌else◌, nat_beq, number_key, Bool-cases, ap, sym, ◌∙◌,
}
use rmit.Prelude.Assoc.{lookup, insert, delete}
use rmit.Builtin.Authority.{
  Entry, Authority, no_entry, is_empty, is_linked, get_entry, set_entry, get_candidate,
  add_candidate, revoke, pick_from, candidates,
}
use rmit.Builtin.Authority.Listing.{Lists}
use rmit.Builtin.Authority.Adding.{add_candidate-Lists}
use rmit.Builtin.Authority.Revoking.{revoke-Lists}
use rmit.Builtin.Authority.Picking.{candidates_listed, endorsed_by}

abbrev empty_storage : Authority
empty_storage = record { entries = []; head = none; tail = none }

abbrev pub first_entry : Entry
first_entry = record { endorsor = 21; identity = 31; active = true; prev = none; next = some 12 }

abbrev pub second_entry : Entry
second_entry = record { endorsor = 22; identity = 32; active = true; prev = some 11; next = none }

abbrev pub two_masters : Authority
two_masters = record {
  entries = (11, first_entry) ∷ (12, second_entry) ∷ [];
  head = some 11;
  tail = some 12;
}

add_test : (add_candidate (add_candidate empty_storage 11 21 31).0 12 22 32) ≡ (two_masters, true)
unfolding add_candidate get_entry set_entry is_empty lookup insert delete
add_test = refl

-- The only master cannot be revoked, although it is listed.
sole_test :
    revoke (add_candidate empty_storage 11 21 31).0 11
    ≡ ((add_candidate empty_storage 11 21 31).0, false)
unfolding revoke is_linked add_candidate get_entry set_entry is_empty lookup insert delete
sole_test = refl

sole_listed_test : (get_candidate (add_candidate empty_storage 11 21 31).0 11).0 ≡ true
unfolding get_candidate is_linked add_candidate get_entry set_entry is_empty lookup insert delete
sole_listed_test = refl

two_masters-entry :
    (x : ℕ)
    → get_entry two_masters x
      ≡ (if nat_beq 11 x then first_entry else if nat_beq 12 x then second_entry else no_entry)
unfolding get_entry lookup
two_masters-entry x = ground arith

two_masters_endorsed : (x : ℕ) → In x (11 ∷ 12 ∷ []) → (get_entry two_masters x).endorsor ≢ 0
unfolding get_entry lookup
two_masters_endorsed x (inl is) h =
    absurd (omega (arith, sym (ap (λ w. (get_entry two_masters w).endorsor) is) ∙ h))
two_masters_endorsed x (inr (inl is)) h =
    absurd (omega (arith, sym (ap (λ w. (get_entry two_masters w).endorsor) is) ∙ h))
two_masters_endorsed x (inr (inr never)) h = never

two_masters_unlisted : (x : ℕ) → ¬ In x (11 ∷ 12 ∷ []) → is_linked (get_entry two_masters x) ≡ false
unfolding is_linked
two_masters_unlisted x out = elim (Bool-cases (nat_beq 11 x)) [
  | inl first ↦ absurd (out (inl (sym ((number_key.same_iff 11 x).0 first))))
  | inr not_first ↦ elim (Bool-cases (nat_beq 12 x)) [
    | inl second ↦ absurd (out (inr (inl (sym ((number_key.same_iff 12 x).0 second)))))
    | inr not_second ↦ ap is_linked (two_masters-entry x) ∙ rw not_first (rw not_second refl)
  ]
]

pub two_masters-Lists : Lists two_masters (11 ∷ 12 ∷ [])
unfolding get_entry lookup
two_masters-Lists = record {
  head_is = refl;
  tail_is = refl;
  linked = (refl, refl, (refl, refl, tt));
  distinct = (λ m. elim m [ inl e ↦ absurd (omega arith) | inr never ↦ never ], (λ m. m, tt));
  endorsed = two_masters_endorsed;
  unlisted = two_masters_unlisted;
}

add_candidate-Lists_example :
    (is_empty (get_entry two_masters 13) ≡ true)
      × ((add_candidate two_masters 13 23 33).1 ≡ true)
      × Lists (add_candidate two_masters 13 23 33).0 (11 ∷ 12 ∷ 13 ∷ [])
    ⊎ (is_empty (get_entry two_masters 13) ≡ false)
      × (add_candidate two_masters 13 23 33 ≡ (two_masters, false))
add_candidate-Lists_example =
    add_candidate-Lists two_masters (11 ∷ 12 ∷ []) 13 23 33 two_masters-Lists (omega arith)

-- The masters that stay.
abbrev staying : List ℕ
staying = 12 ∷ []

revoke-Lists_example :
    (staying ≡ []) × (revoke two_masters 11 ≡ (two_masters, false))
    ⊎ (¬ (staying ≡ []))
      × ((revoke two_masters 11).1 ≡ true)
      × Lists (revoke two_masters 11).0 staying
revoke-Lists_example = revoke-Lists two_masters [] staying 11 two_masters-Lists

candidates_listed_test :
    candidates (λ endorsor. endorsor) 22 5 2 two_masters
    ≡ some (take 5 (endorsed_by (λ endorsor. endorsor) 22 two_masters (11 ∷ 12 ∷ [])))
candidates_listed_test =
    candidates_listed (λ endorsor. endorsor) 22 5 2 two_masters (11 ∷ 12 ∷ []) two_masters-Lists
      (omega arith)

candidates_test :
    candidates (λ endorsor. endorsor) 22 5 2 two_masters ≡ some ((12, second_entry) ∷ [])
unfolding candidates pick_from get_entry lookup
candidates_test = refl
