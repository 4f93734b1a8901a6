-- ===== src/Builtin/Authority/Revoking.antt =====
-- What a revocation does to the list of masters.
use rmit.Prelude.{
  ℕ, ◌≡◌, ◌⊎◌, refl, true, false, none, some, List, [], ◌∷◌, ◌++◌, In, inl, inr, nat_beq,
  number_key, Bool-cases, arith, sym, ap, subst, ◌∙◌,
}
use rmit.Builtin.Authority.{Entry, Authority, is_linked, get_entry, set_entry, revoke}
use rmit.Builtin.Authority.Segments
use rmit.Builtin.Authority.Segments.{front, back, Segment, AllDistinct}
use rmit.Builtin.Authority.Listing.{Lists}
use rmit.Builtin.Authority.Relinked.{
  cleared, unlinked, prev_kept, prev_new, next_kept, next_new, endorsor_kept, entry_kept, get_gone,
  get_other, head_without, tail_without,
}

revoke_linked :
    (a : Authority) (master : ℕ)
    → is_linked (get_entry a master) ≡ true
    → revoke a master
      ≡ (unlinked master (get_entry a master).prev (get_entry a master).next a, true)
unfolding revoke
revoke_linked a master linked = rw linked refl

is_linked-cleared : (e : Entry) → is_linked (cleared e) ≡ false
unfolding is_linked
is_linked-cleared e = refl

-- Whoever is not among the remaining masters is not linked.
unlinked-unlisted :
    (a : Authority) (xs ys : List ℕ) (master : ℕ)
    → Lists a (xs ++ master ∷ ys)
    → (x : ℕ) → ¬ In x (xs ++ ys)
    → is_linked (get_entry (unlinked master (back none xs) (front ys none) a) x) ≡ false
unlinked-unlisted a xs ys master l x out = elim (Bool-cases (nat_beq master x)) [
  | inl here ↦
      ap (λ w. is_linked (get_entry (unlinked master (back none xs) (front ys none) a) w))
        (sym ((number_key.same_iff master x).0 here))
      ∙ ap is_linked (get_gone master (back none xs) (front ys none) a)
      ∙ is_linked-cleared (get_entry a master)
  | inr off ↦
      let p = back none xs in
      let n = front ys none in
      let other : ¬ (master ≡ x) = λ is. ground (arith, off, (number_key.same_iff master x).1 is) in
      let before : ¬ (p ≡ some x) =
        λ is. out (Segments.In-append_left x xs ys (Segments.back-none-In x xs is)) in
      let after : ¬ (n ≡ some x) =
        λ is. out (Segments.In-append_right x xs ys (Segments.front-none-In x ys is)) in
      ap is_linked (get_other master p n a x other ∙ entry_kept p n a x before after)
      ∙ l.unlisted x (λ m. elim (Segments.In-append x xs (master ∷ ys) m) [
        | inl i ↦ out (Segments.In-append_left x xs ys i)
        | inr (inl is) ↦ other (sym is)
        | inr (inr i) ↦ out (Segments.In-append_right x xs ys i)
      ])
]

unlinked-Lists :
    (a : Authority) (xs ys : List ℕ) (master : ℕ)
    → Lists a (xs ++ master ∷ ys)
    → Lists (unlinked master (back none xs) (front ys none) a) (xs ++ ys)
unfolding set_entry
unlinked-Lists a xs ys master l =
    let (left, (here, after, right)) =
      Segments.Segment-split (get_entry a) none xs (master ∷ ys) none l.linked in
    let (dl, (new, dr), apart) = Segments.AllDistinct-split xs (master ∷ ys) l.distinct in
    let p = back none xs in
    let n = front ys none in
    let b = unlinked master p n a in
    let other_l : (x : ℕ) → In x xs → ¬ (master ≡ x) = λ x m is. apart x m (inl (sym is)) in
    let other_r : (x : ℕ) → In x ys → ¬ (master ≡ x) =
      λ x m is. new (subst (λ w. In w ys) (sym is) m) in
    let no_next : (x : ℕ) → In x xs → ¬ (n ≡ some x) =
      λ x m is. apart x m (inr (Segments.front-none-In x ys is)) in
    let no_prev : (x : ℕ) → In x ys → ¬ (p ≡ some x) =
      λ x m is. apart x (Segments.back-none-In x xs is) (inr m) in
    record {
      head_is = head_without xs ys master a l.head_is;
      tail_is = tail_without xs ys master a l.tail_is;
      linked =
          Segments.Segment-append (get_entry b) none xs ys none
            (Segments.Segment-end (get_entry a) (get_entry b) none xs (some master) n dl
              (λ x m.
                ap (λ e. e.prev) (get_other master p n a x (other_l x m))
                ∙ prev_kept p n a x (no_next x m))
              (λ x m off.
                ap (λ e. e.next) (get_other master p n a x (other_l x m)) ∙ next_kept p n a x off)
              (λ x m at.
                ap (λ e. e.next) (get_other master p n a x (other_l x m)) ∙ next_new p n a x at)
              left)
            (Segments.Segment-start (get_entry a) (get_entry b) (some master) p ys none dr
              (λ x m.
                ap (λ e. e.next) (get_other master p n a x (other_r x m))
                ∙ next_kept p n a x (no_prev x m))
              (λ x m off.
                get_other master p n a x (other_r x m) ∙ entry_kept p n a x (no_prev x m) off)
              (λ x m at.
                ap (λ e. e.prev) (get_other master p n a x (other_r x m)) ∙ prev_new p n a x at)
              right);
      distinct = Segments.AllDistinct-append xs ys dl dr (λ x m q. apart x m (inr q));
      endorsed = λ x m zero_is.
          let other : ¬ (master ≡ x) = elim (Segments.In-append x xs ys m) [
            | inl i ↦ other_l x i
            | inr i ↦ other_r x i
          ] in
          let old : In x (xs ++ master ∷ ys) = elim (Segments.In-append x xs ys m) [
            | inl i ↦ Segments.In-append_left x xs (master ∷ ys) i
            | inr i ↦ Segments.In-append_right x xs (master ∷ ys) (inr i)
          ] in
          l.endorsed x old (
            sym (ap (λ e. e.endorsor) (get_other master p n a x other) ∙ endorsor_kept p n a x)
            ∙ zero_is);
      unlisted = unlinked-unlisted a xs ys master l;
    }

is_linked_by :
    (e : Entry) (xs ys : List ℕ)
    → e.prev ≡ back none xs
    → e.next ≡ front ys none
    → ((xs ++ ys ≡ []) × (is_linked e ≡ false)) ⊎ (¬ (xs ++ ys ≡ []) × (is_linked e ≡ true))
unfolding is_linked
is_linked_by e [] [] p n = inl (refl, rw p (rw n refl))
is_linked_by e [] (y ∷ ys) p n = inr (λ h. cc, rw p (rw n refl))
is_linked_by e (x ∷ xs) ys p n =
    let (y, last, m) = Segments.back-some x xs in inr (λ h. cc, rw p (rw last refl))

-- `Revoke` of a listed master, on a storage that stands for a list of masters: when it is the only
-- one, failure is reported and nothing changes; when there are others, success is reported and
-- the storage then stands for the list without the master, in the same order.
pub revoke-Lists :
    (a : Authority) (xs ys : List ℕ) (master : ℕ)
    → Lists a (xs ++ master ∷ ys)
    → (xs ++ ys ≡ []) × (revoke a master ≡ (a, false))
      ⊎ (¬ (xs ++ ys ≡ [])) × ((revoke a master).1 ≡ true) × Lists (revoke a master).0 (xs ++ ys)
unfolding revoke
revoke-Lists a xs ys master l =
    let (left, (here, after, right)) =
      Segments.Segment-split (get_entry a) none xs (master ∷ ys) none l.linked in
    elim (is_linked_by (get_entry a master) xs ys here after) [
      | inl (sole, off) ↦ inl (sole, rw off refl)
      | inr (others, linked) ↦
          let done =
            revoke_linked a master linked
            ∙ ap (λ p. (unlinked master p (get_entry a master).next a, true)) here
            ∙ ap (λ n. (unlinked master (back none xs) n a, true)) after in
          inr (
            others,
            ap (λ r. r.1) done,
            subst (λ r. Lists r.0 (xs ++ ys)) (sym done) (unlinked-Lists a xs ys master l),
          )
    ]

-- `Revoke` of a master that is not listed changes nothing and reports failure.
pub revoke_unlisted :
    (a : Authority) (xs : List ℕ) (master : ℕ)
    → Lists a xs
    → ¬ In master xs
    → revoke a master ≡ (a, false)
unfolding revoke
revoke_unlisted a xs master l out = rw (l.unlisted master out) refl
