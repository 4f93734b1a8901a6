-- ===== src/Builtin/Authority/Relinked.antt =====
-- What a storage reads as after the neighbours of a master are linked to each other.
use rmit.Prelude.{
  ℕ, ◌≡◌, refl, false, Option, none, some, List, [], ◌∷◌, ◌++◌, inl, inr, if◌then◌else◌, number_key,
  Bool-cases, arith, sym, ap, ◌∙◌,
}
use rmit.Builtin.Authority.{Entry, Authority, get_entry, set_entry, relink_prev, relink_next}
use rmit.Builtin.Authority.Segments
use rmit.Builtin.Authority.Segments.{front, back, Segment, AllDistinct}
use rmit.Builtin.Authority.Listing.{
  points, points_iff, points_other, get_entry-set_entry, get_entry-relink_prev,
  get_entry-relink_next,
}

abbrev pub relinked : Option ℕ → Option ℕ → Authority → Authority
relinked p n a = relink_next n p (relink_prev p n a)

abbrev pub cleared : Entry → Entry
cleared e = record e { next = none; prev = none; active = false }

-- A master leaves, between the given neighbours.
abbrev pub unlinked : ℕ → Option ℕ → Option ℕ → Authority → Authority
unlinked master p n a = set_entry master (cleared (get_entry a master)) (relinked p n a)

module _ (p n : Option ℕ) (a : Authority) (x : ℕ) where
  relinked_entry : get_entry (relinked p n a) x ≡ (
      if points n x
      then record (get_entry (relink_prev p n a) x) { prev = p }
      else get_entry (relink_prev p n a) x)
  relinked_entry = get_entry-relink_next n p (relink_prev p n a) x

  pub prev_kept : ¬ (n ≡ some x) → (get_entry (relinked p n a) x).prev ≡ (get_entry a x).prev
  prev_kept miss =
      ap (λ e. e.prev) relinked_entry
      ∙ rw (points_other n x miss) (
          ap (λ e. e.prev) (get_entry-relink_prev p n a x)
          ∙ elim (Bool-cases (points p x)) [ inl at ↦ rw at refl | inr off ↦ rw off refl ])

  pub prev_new : n ≡ some x → (get_entry (relinked p n a) x).prev ≡ p
  prev_new hit = ap (λ e. e.prev) relinked_entry ∙ rw ((points_iff n x).1 hit) refl

  next_either : (get_entry (relinked p n a) x).next ≡ (get_entry (relink_prev p n a) x).next
  next_either =
      ap (λ e. e.next) relinked_entry
      ∙ elim (Bool-cases (points n x)) [ inl at ↦ rw at refl | inr off ↦ rw off refl ]

  pub next_kept : ¬ (p ≡ some x) → (get_entry (relinked p n a) x).next ≡ (get_entry a x).next
  next_kept miss =
      next_either
      ∙ ap (λ e. e.next) (get_entry-relink_prev p n a x)
      ∙ rw (points_other p x miss) refl

  pub next_new : p ≡ some x → (get_entry (relinked p n a) x).next ≡ n
  next_new hit =
      next_either
      ∙ ap (λ e. e.next) (get_entry-relink_prev p n a x)
      ∙ rw ((points_iff p x).1 hit) refl

  endorsor_either :
      (if points n x
        then record (get_entry (relink_prev p n a) x) { prev = p }
        else get_entry (relink_prev p n a) x).endorsor
      ≡ (get_entry (relink_prev p n a) x).endorsor
  endorsor_either = elim (Bool-cases (points n x)) [ inl at ↦ rw at refl | inr off ↦ rw off refl ]

  pub endorsor_kept : (get_entry (relinked p n a) x).endorsor ≡ (get_entry a x).endorsor
  endorsor_kept =
      ap (λ e. e.endorsor) relinked_entry
      ∙ endorsor_either
      ∙ ap (λ e. e.endorsor) (get_entry-relink_prev p n a x)
      ∙ elim (Bool-cases (points p x)) [ inl at ↦ rw at refl | inr off ↦ rw off refl ]

  pub entry_kept : ¬ (p ≡ some x) → ¬ (n ≡ some x) → get_entry (relinked p n a) x ≡ get_entry a x
  entry_kept pm nm =
      relinked_entry
      ∙ rw (points_other n x nm) (get_entry-relink_prev p n a x ∙ rw (points_other p x pm) refl)

module _ (master : ℕ) (p n : Option ℕ) (a : Authority) where
  pub get_gone : get_entry (unlinked master p n a) master ≡ cleared (get_entry a master)
  get_gone = ground (
    arith,
    get_entry-set_entry master (cleared (get_entry a master)) (relinked p n a) master,
    number_key.same_iff master master,
  )

  pub get_other :
      (x : ℕ) → ¬ (master ≡ x) → get_entry (unlinked master p n a) x ≡ get_entry (relinked p n a) x
  get_other x h = ground (
    arith,
    h,
    get_entry-set_entry master (cleared (get_entry a master)) (relinked p n a) x,
    number_key.same_iff master x,
  )

relinked-head :
    (p n : Option ℕ) (a : Authority)
    → (relinked p n a).head ≡ (elim p [ none ↦ n | some k ↦ a.head ])
unfolding set_entry
relinked-head none none a = refl
relinked-head none (some n) a = refl
relinked-head (some p) none a = refl
relinked-head (some p) (some n) a = refl

relinked-tail :
    (p n : Option ℕ) (a : Authority)
    → (relinked p n a).tail ≡ (elim n [ none ↦ p | some k ↦ a.tail ])
unfolding set_entry
relinked-tail none none a = refl
relinked-tail none (some n) a = refl
relinked-tail (some p) none a = refl
relinked-tail (some p) (some n) a = refl

pub head_without :
    (xs ys : List ℕ) (master : ℕ) (a : Authority)
    → a.head ≡ front (xs ++ master ∷ ys) none
    → (relinked (back none xs) (front ys none) a).head ≡ front (xs ++ ys) none
head_without [] ys master a is = relinked-head none (front ys none) a
head_without (x ∷ xs) ys master a is =
    let (y, last, m) = Segments.back-some x xs in
    relinked-head (back (some x) xs) (front ys none) a ∙ rw last is

pub tail_without :
    (xs ys : List ℕ) (master : ℕ) (a : Authority)
    → a.tail ≡ back none (xs ++ master ∷ ys)
    → (relinked (back none xs) (front ys none) a).tail ≡ back none (xs ++ ys)
tail_without xs [] master a is =
    relinked-tail (back none xs) none a ∙ sym (Segments.back-append xs [] none)
tail_without xs (y ∷ ys) master a is =
    relinked-tail (back none xs) (some y) a
    ∙ is
    ∙ Segments.back-append xs (master ∷ y ∷ ys) none
    ∙ sym (Segments.back-append xs (y ∷ ys) none)
