-- ===== src/Builtin/Authority/Segments.antt =====
-- Lists of masters that the entries of a storage link in both directions.
use rmit.Prelude.{
  ℕ, ◌≡◌, refl, Option, none, some, List, [], ◌∷◌, ◌++◌, ◌⊎◌, In, inl, inr, sym, ap, subst, ◌∙◌,
}
use rmit.Prelude.Fallible.{some_eq}
use rmit.Builtin.Authority.{Entry}

-- The first of a list, or what follows the list.
abbrev pub front : List ℕ → Option ℕ → Option ℕ
front [] after = after
front (x ∷ xs) after = some x

-- The last of a list, or what is before the list.
abbrev pub back : Option ℕ → List ℕ → Option ℕ
back before [] = before
back before (x ∷ xs) = back (some x) xs

-- The entries of a list, between what is before it and what follows it.
abbrev pub Segment : (ℕ → Entry) → Option ℕ → List ℕ → Option ℕ → Type 0
Segment f before [] after = Unit
Segment f before (x ∷ xs) after =
    ((f x).prev ≡ before) × ((f x).next ≡ front xs after) × Segment f (some x) xs after

abbrev pub AllDistinct : List ℕ → Type 0
AllDistinct [] = Unit
AllDistinct (x ∷ xs) = (¬ In x xs) × AllDistinct xs

pub front-append :
    (xs ys : List ℕ) (after : Option ℕ) → front (xs ++ ys) after ≡ front xs (front ys after)
front-append [] ys after = refl
front-append (x ∷ xs) ys after = refl

pub back-append :
    (xs ys : List ℕ) (before : Option ℕ) → back before (xs ++ ys) ≡ back (back before xs) ys
back-append [] ys before = refl
back-append (x ∷ xs) ys before = back-append xs ys (some x)

pub In-append : (x : ℕ) (xs ys : List ℕ) → In x (xs ++ ys) → In x xs ⊎ In x ys
In-append x [] ys m = inr m
In-append x (z ∷ zs) ys (inl e) = inl (inl e)
In-append x (z ∷ zs) ys (inr m) = elim (In-append x zs ys m) [ inl l ↦ inl (inr l) | inr r ↦ inr r ]

pub In-append_left : (x : ℕ) (xs ys : List ℕ) → In x xs → In x (xs ++ ys)
In-append_left x [] ys m = elim m [ ]
In-append_left x (z ∷ zs) ys (inl e) = inl e
In-append_left x (z ∷ zs) ys (inr m) = inr (In-append_left x zs ys m)

pub In-append_right : (x : ℕ) (xs ys : List ℕ) → In x ys → In x (xs ++ ys)
In-append_right x [] ys m = m
In-append_right x (z ∷ zs) ys m = inr (In-append_right x zs ys m)

-- Both parts of a list without repetition are so, and they have nothing in common.
pub AllDistinct-split :
    (xs ys : List ℕ)
    → AllDistinct (xs ++ ys)
    → AllDistinct xs × AllDistinct ys × ((x : ℕ) → In x xs → In x ys → ⊥)
AllDistinct-split [] ys d = (tt, d, λ x m n. m)
AllDistinct-split (z ∷ zs) ys (n, d) =
    let (left, right, apart) = AllDistinct-split zs ys d in
    (
      ((λ m. n (In-append_left z zs ys m)), left),
      right,
      λ x m q. elim m [
        | inl e ↦ n (In-append_right z zs ys (subst (λ w. In w ys) e q))
        | inr k ↦ apart x k q
      ],
    )

pub AllDistinct-append :
    (xs ys : List ℕ)
    → AllDistinct xs
    → AllDistinct ys
    → ((x : ℕ) → In x xs → In x ys → ⊥)
    → AllDistinct (xs ++ ys)
AllDistinct-append [] ys d e apart = e
AllDistinct-append (z ∷ zs) ys (n, d) e apart = (
  λ m. elim (In-append z zs ys m) [ inl l ↦ n l | inr r ↦ apart z (inl refl) r ],
  AllDistinct-append zs ys d e (λ x m. apart x (inr m)),
)

-- Entries with the same links make the same lists.
pub Segment-links :
    (f g : ℕ → Entry) (before : Option ℕ) (xs : List ℕ) (after : Option ℕ)
    → ((x : ℕ) → In x xs → (g x).prev ≡ (f x).prev)
    → ((x : ℕ) → In x xs → (g x).next ≡ (f x).next)
    → Segment f before xs after
    → Segment g before xs after
Segment-links f g before [] after same_prev same_next s = tt
Segment-links f g before (x ∷ xs) after same_prev same_next (p, n, s) = (
  same_prev x (inl refl) ∙ p,
  same_next x (inl refl) ∙ n,
  Segment-links f g (some x) xs after (λ y m. same_prev y (inr m)) (λ y m. same_next y (inr m)) s,
)

pub Segment-append :
    (f : ℕ → Entry) (before : Option ℕ) (xs ys : List ℕ) (after : Option ℕ)
    → Segment f before xs (front ys after)
    → Segment f (back before xs) ys after
    → Segment f before (xs ++ ys) after
Segment-append f before [] ys after s t = t
Segment-append f before (x ∷ xs) ys after (p, n, s) t =
    (p, n ∙ sym (front-append xs ys after), Segment-append f (some x) xs ys after s t)

pub Segment-split :
    (f : ℕ → Entry) (before : Option ℕ) (xs ys : List ℕ) (after : Option ℕ)
    → Segment f before (xs ++ ys) after
    → Segment f before xs (front ys after) × Segment f (back before xs) ys after
Segment-split f before [] ys after s = (tt, s)
Segment-split f before (x ∷ xs) ys after (p, n, s) =
    let (left, right) = Segment-split f (some x) xs ys after s in
    ((p, n ∙ front-append xs ys after, left), right)

-- The last of a list stands in it.
pub back-In : (x y : ℕ) (ys : List ℕ) → back (some y) ys ≡ some x → In x (y ∷ ys)
back-In x y [] e = inl (sym (some_eq e))
back-In x y (z ∷ ys) e = inr (back-In x z ys e)

-- The same list with another end: its last element, if any, has a new successor.
pub Segment-end :
    (f g : ℕ → Entry) (before : Option ℕ) (xs : List ℕ) (after after' : Option ℕ)
    → AllDistinct xs
    → ((x : ℕ) → In x xs → (g x).prev ≡ (f x).prev)
    → ((x : ℕ) → In x xs → ¬ (back before xs ≡ some x) → (g x).next ≡ (f x).next)
    → ((x : ℕ) → In x xs → back before xs ≡ some x → (g x).next ≡ after')
    → Segment f before xs after
    → Segment g before xs after'
Segment-end f g before [] after after' d p keep last s = tt
Segment-end f g before (x ∷ []) after after' d p keep last (a, b, s) =
    (p x (inl refl) ∙ a, last x (inl refl) refl, tt)
Segment-end f g before (x ∷ y ∷ xs) after after' (n, d) p keep last (a, b, s) = (
  p x (inl refl) ∙ a,
  keep x (inl refl) (λ e. n (back-In x y xs e)) ∙ b,
  Segment-end f g (some x) (y ∷ xs) after after' d (λ z m. p z (inr m)) (λ z m. keep z (inr m))
      (λ z m. last z (inr m)) s,
)

-- The same list with another start: its first element, if any, has a new predecessor.
pub Segment-start :
    (f g : ℕ → Entry) (before before' : Option ℕ) (xs : List ℕ) (after : Option ℕ)
    → AllDistinct xs
    → ((x : ℕ) → In x xs → (g x).next ≡ (f x).next)
    → ((x : ℕ) → In x xs → ¬ (front xs none ≡ some x) → g x ≡ f x)
    → ((x : ℕ) → In x xs → front xs none ≡ some x → (g x).prev ≡ before')
    → Segment f before xs after
    → Segment g before' xs after
Segment-start f g before before' [] after d n keep first s = tt
Segment-start f g before before' (x ∷ xs) after (new, d) n keep first (a, b, s) = (
  first x (inl refl) refl,
  n x (inl refl) ∙ b,
  Segment-links f g (some x) xs after
      (λ y m.
        ap (λ e. e.prev) (keep y (inr m) (λ e. new (subst (λ w. In w xs) (sym (some_eq e)) m))))
      (λ y m. n y (inr m)) s,
)

pub back-some : (x : ℕ) (xs : List ℕ) → (y : ℕ) × (back (some x) xs ≡ some y) × In y (x ∷ xs)
back-some x [] = (x, refl, inl refl)
back-some x (y ∷ ys) = let (z, is, m) = back-some y ys in (z, is, inr m)

pub back-none-In : (x : ℕ) (xs : List ℕ) → back none xs ≡ some x → In x xs
back-none-In x [] e = absurd (cc)
back-none-In x (y ∷ ys) e = back-In x y ys e

pub front-none-In : (x : ℕ) (xs : List ℕ) → front xs none ≡ some x → In x xs
front-none-In x [] e = absurd (cc)
front-none-In x (y ∷ ys) e = inl (sym (some_eq e))
