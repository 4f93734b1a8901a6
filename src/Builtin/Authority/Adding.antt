-- ===== src/Builtin/Authority/Adding.antt =====
-- What a new candidate and a revocation do to the list of masters.
use rmit.Prelude.{
  ℕ, ◌≡◌, ◌≢◌, ◌⊎◌, refl, true, false, Option, none, some, List, [], ◌∷◌, ◌++◌, In, inl, inr,
  if◌then◌else◌, nat_beq, number_key, Bool-cases, arith, sym, ap, subst, ◌∙◌,
}
use rmit.Builtin.Authority.{
  Entry, Authority, is_empty, is_linked, get_entry, set_entry, link_after, add_candidate, set_tail,
}
use rmit.Builtin.Authority.Segments
use rmit.Builtin.Authority.Segments.{front, back, Segment, AllDistinct}
use rmit.Builtin.Authority.Listing.{
  Lists, points, points_iff, points_other, is_empty_entry, get_entry-set_entry,
  get_entry-link_after,
}

-- The entry of a new candidate after the given one.
abbrev new_entry : ℕ → ℕ → Option ℕ → Entry
new_entry endorsor identity prev = record {
  endorsor = endorsor;
  identity = identity;
  active = true;
  prev = prev;
  next = none;
}

abbrev linked_after : ℕ → Entry → Option ℕ → Authority → Authority
linked_after master e t a = set_entry master e (link_after t master (set_tail (some master) a))

add_candidate_empty :
    (a : Authority) (master endorsor identity : ℕ)
    → is_empty (get_entry a master) ≡ true
    → add_candidate a master endorsor identity
      ≡ (linked_after master (new_entry endorsor identity a.tail) a.tail a, true)
unfolding add_candidate
add_candidate_empty a master endorsor identity empty =
    rw empty (rw (is_empty_entry (get_entry a master) empty) refl)

get_entry-linked_after :
    (master : ℕ) (e : Entry) (t : Option ℕ) (a : Authority) (j : ℕ)
    → get_entry (linked_after master e t a) j ≡ (
        if nat_beq master j
        then e
        else if points t j
        then record (get_entry a j) { next = some master }
        else get_entry a j)
unfolding get_entry
get_entry-linked_after master e t a j =
    rw (get_entry-set_entry master e (link_after t master (set_tail (some master) a)) j)
      (rw (get_entry-link_after t master (set_tail (some master) a) j) refl)

linked_after-head :
    (master : ℕ) (e : Entry) (t : Option ℕ) (a : Authority) (xs : List ℕ)
    → t ≡ back none xs
    → a.head ≡ front xs none
    → (linked_after master e t a).head ≡ front (xs ++ master ∷ []) none
unfolding set_entry
linked_after-head master e none a [] back_is front_is = refl
linked_after-head master e none a (x ∷ xs) back_is front_is =
    let (y, is, m) = Segments.back-some x xs in absurd (cc)
linked_after-head master e (some t) a [] back_is front_is = absurd (cc)
linked_after-head master e (some t) a (x ∷ xs) back_is front_is = front_is

module _ (master : ℕ) (e : Entry) (t : Option ℕ) (a : Authority) where
  get_new : get_entry (linked_after master e t a) master ≡ e
  get_new =
      ground (arith, get_entry-linked_after master e t a master, number_key.same_iff master master)

  get_other :
      (x : ℕ)
      → ¬ (master ≡ x)
      → get_entry (linked_after master e t a) x
        ≡ (if points t x then record (get_entry a x) { next = some master } else get_entry a x)
  get_other x h =
      ground (arith, h, get_entry-linked_after master e t a x, number_key.same_iff master x)

  get_last :
      (x : ℕ)
      → ¬ (master ≡ x)
      → t ≡ some x
      → get_entry (linked_after master e t a) x ≡ record (get_entry a x) { next = some master }
  get_last x h is = get_other x h ∙ rw ((points_iff t x).1 is) refl

  get_kept :
      (x : ℕ)
      → ¬ (master ≡ x)
      → ¬ (t ≡ some x)
      → get_entry (linked_after master e t a) x ≡ get_entry a x
  get_kept x h is = get_other x h ∙ rw (points_other t x is) refl

  prev_kept :
      (x : ℕ)
      → ¬ (master ≡ x)
      → (get_entry (linked_after master e t a) x).prev ≡ (get_entry a x).prev
  prev_kept x h = elim (Bool-cases (points t x)) [
    | inl hit ↦ ap (λ e. e.prev) (get_other x h) ∙ rw hit refl
    | inr miss ↦ ap (λ e. e.prev) (get_other x h) ∙ rw miss refl
  ]

  endorsor_kept :
      (x : ℕ)
      → ¬ (master ≡ x)
      → (get_entry (linked_after master e t a) x).endorsor ≡ (get_entry a x).endorsor
  endorsor_kept x h = elim (Bool-cases (points t x)) [
    | inl hit ↦ ap (λ e. e.endorsor) (get_other x h) ∙ rw hit refl
    | inr miss ↦ ap (λ e. e.endorsor) (get_other x h) ∙ rw miss refl
  ]

linked_after-tail :
    (master : ℕ) (e : Entry) (t : Option ℕ) (a : Authority)
    → (linked_after master e t a).tail ≡ some master
unfolding set_entry
linked_after-tail master e none a = refl
linked_after-tail master e (some k) a = refl

not_new : (master x : ℕ) (xs : List ℕ) → ¬ In master xs → In x xs → ¬ (master ≡ x)
not_new master x xs new m same = new (subst (λ w. In w xs) (sym same) m)

linked_after-Lists :
    (a : Authority) (xs : List ℕ) (master endorsor identity : ℕ)
    → Lists a xs
    → endorsor ≢ 0
    → is_empty (get_entry a master) ≡ true
    → Lists (linked_after master (new_entry endorsor identity a.tail) a.tail a) (xs ++ master ∷ [])
linked_after-Lists a xs master endorsor identity l set empty =
    let e = new_entry endorsor identity a.tail in
    let b = linked_after master e a.tail a in
    let new : ¬ In master xs =
      λ m. l.endorsed master m (ap (λ e. e.endorsor) (is_empty_entry (get_entry a master) empty)) in
    let got : get_entry b master ≡ e = get_new master e a.tail a in
    record {
      head_is = linked_after-head master e a.tail a xs l.tail_is l.head_is;
      tail_is =
          linked_after-tail master e a.tail a ∙ sym (Segments.back-append xs (master ∷ []) none);
      linked =
          Segments.Segment-append (get_entry b) none xs (master ∷ []) none
            (Segments.Segment-end (get_entry a) (get_entry b) none xs none (some master) l.distinct
              (λ x m. prev_kept master e a.tail a x (not_new master x xs new m))
              (λ x m other.
                ap (λ e. e.next)
                  (get_kept master e a.tail a x (not_new master x xs new m)
                    (λ is. other (sym l.tail_is ∙ is))))
              (λ x m last.
                ap (λ e. e.next)
                  (get_last master e a.tail a x (not_new master x xs new m) (l.tail_is ∙ last)))
              l.linked)
            (ap (λ e. e.prev) got ∙ l.tail_is, ap (λ e. e.next) got, tt);
      distinct =
          Segments.AllDistinct-append xs (master ∷ []) l.distinct (λ m. m, tt)
            (λ x m here. elim here [
              | inl is ↦ not_new master x xs new m (sym is)
              | inr none_left ↦ none_left
            ]);
      endorsed = λ x m zero_is. elim (Segments.In-append x xs (master ∷ []) m) [
        | inl old ↦
            l.endorsed x old
              (sym (endorsor_kept master e a.tail a x (not_new master x xs new old)) ∙ zero_is)
        | inr (inl is) ↦
            set (
              sym (ap (λ e. e.endorsor) got)
              ∙ ap (λ w. (get_entry b w).endorsor) (sym is)
              ∙ zero_is)
        | inr (inr none_left) ↦ none_left
      ];
      unlisted = λ x out.
          let other : ¬ (master ≡ x) =
            λ is. out (Segments.In-append_right x xs (master ∷ []) (inl (sym is))) in
          let gone : ¬ In x xs = λ m. out (Segments.In-append_left x xs (master ∷ []) m) in
          ap is_linked (
            get_kept master e a.tail a x other
              (λ is. gone (Segments.back-none-In x xs (sym l.tail_is ∙ is))))
          ∙ l.unlisted x gone;
    }

-- `Add` on a storage that stands for a list of masters, with an endorsor that is not the zero
-- address: when the entry of the master is empty, it reports success and the storage then stands
-- for the list with the master at the end; otherwise it reports failure and changes nothing.
pub add_candidate-Lists :
    (a : Authority) (xs : List ℕ) (master endorsor identity : ℕ)
    → Lists a xs
    → endorsor ≢ 0
    → (is_empty (get_entry a master) ≡ true)
        × ((add_candidate a master endorsor identity).1 ≡ true)
        × Lists (add_candidate a master endorsor identity).0 (xs ++ master ∷ [])
      ⊎ (is_empty (get_entry a master) ≡ false)
        × (add_candidate a master endorsor identity ≡ (a, false))
unfolding add_candidate
add_candidate-Lists a xs master endorsor identity l set =
    elim (Bool-cases (is_empty (get_entry a master))) [
      | inl empty ↦
          let done = add_candidate_empty a master endorsor identity empty in
          inl (
            empty,
            ap (λ r. r.1) done,
            subst (λ r. Lists r.0 (xs ++ master ∷ [])) (sym done)
                (linked_after-Lists a xs master endorsor identity l set empty),
          )
      | inr full ↦ inr (full, rw full refl)
    ]
