-- ===== src/Docs/Swagger/Removals.antt =====
-- What the removals of the script leave of a section, and what they rely on.
use rmit.Prelude.{
  In, ℕ, zero, suc, ◌≤◌, ◌≡◌, refl, String, none, List, [], ◌∷◌, arith, length, get_elem?, inl, inr,
  ◌⊎◌, ◌∙◌, sym, subst,
}
use rmit.Docs.Dom.{Dom}
use rmit.Docs.Swagger.{
  classes_to_remove, child_selector, class_selector, remove_each, remove_classes, open_sections,
}

-- The selectors of the script ask for an attribute of the element alone.
abbrev pub Sought : String → Type 0
Sought sel = (sel ≡ child_selector) ⊎ ((c : String) × (sel ≡ class_selector c))

-- What the script relies on. An element that is removed is found no more, and no other is found
-- newly by these selectors. `holds` is the containment of one element in another, which a removal
-- only ends; a removal keeps the open sections that are not inside the element.
pub record Removes {D E : Type 0} (dom : Dom D E) : Type 1 where
  pub gone :
      (el : E) (d : D) (s : E) (sel : String)
      → Sought sel
      → In el (dom.query_all (dom.remove el d) s sel)
      → ⊥
  pub fewer :
      (el x : E) (d : D) (s : E) (sel : String)
      → Sought sel
      → In x (dom.query_all (dom.remove el d) s sel)
      → In x (dom.query_all d s sel)
  pub holds : D → E → E → Type 0
  pub holds_fewer : (el : E) (d : D) (x y : E) → holds (dom.remove el d) x y → holds d x y
  pub kept :
      (el : E) (d : D)
      → ((x : E) → In x (open_sections dom d) → holds d el x → ⊥)
      → open_sections dom (dom.remove el d) ≡ open_sections dom d

pub get_elem?-none : {A : Type 0} (xs : List A) (i : ℕ) → get_elem? xs i ≡ none → length xs ≤ i
get_elem?-none [] i h = omega arith
get_elem?-none (x ∷ xs) zero h = absurd (cc)
get_elem?-none (x ∷ xs) (suc i) h = omega (arith, get_elem?-none xs i h)

module _ {D E : Type 0} (dom : Dom D E) where
  -- Nothing is found in `d'` that is not found in `d`.
  abbrev pub Fewer : D → D → Type 0
  Fewer d' d =
      (x s : E) (sel : String)
      → Sought sel
      → In x (dom.query_all d' s sel)
      → In x (dom.query_all d s sel)

  nothing : (xs : List E) → ((x : E) → In x xs → ⊥) → xs ≡ []
  nothing [] h = refl
  nothing (x ∷ xs) h = absurd (h x (inl refl))

  pub Fewer-nil :
      {d' d : D} (s : E) (sel : String)
      → Sought sel
      → Fewer d' d
      → dom.query_all d s sel ≡ []
      → dom.query_all d' s sel ≡ []
  Fewer-nil {d'} {d} s sel sought f e =
      nothing (dom.query_all d' s sel) (λ x h. subst (In x) e (f x s sel sought h))

  -- The section shows no element of these classes.
  abbrev pub AllClear : D → E → List String → Type 0
  AllClear d s [] = Unit
  AllClear d s (c ∷ cs) = (dom.query_all d s (class_selector c) ≡ []) × AllClear d s cs

  pub AllClear-Fewer :
      (d' d : D) (s : E) (cs : List String) → Fewer d' d → AllClear d s cs → AllClear d' s cs
  AllClear-Fewer d' d s [] f h = tt
  AllClear-Fewer d' d s (c ∷ cs) f (e, h) =
      (Fewer-nil s (class_selector c) (inr (c, refl)) f e, AllClear-Fewer d' d s cs f h)

module _ {D E : Type 0} (dom : Dom D E) (laws : Removes dom) where
  -- An element holds no open section.
  abbrev pub HoldsNone : D → E → Type 0
  HoldsNone d el = (x : E) → In x (open_sections dom d) → laws.holds d el x → ⊥

  -- The page is laid out so that no element of the classes in an open section holds an open section.
  abbrev pub Apart : D → Type 0
  Apart d =
      (s el : E) (c : String)
      → In s (open_sections dom d)
      → In c classes_to_remove
      → In el (dom.query_all d s (class_selector c))
      → HoldsNone d el

  -- What removals leave of a page.
  pub record Later (d' d : D) : Type 0 where
    pub fewer : Fewer dom d' d
    pub same : open_sections dom d' ≡ open_sections dom d
    pub held : (x y : E) → laws.holds d' x y → laws.holds d x y

  pub Later-refl : (d : D) → Later d d
  Later-refl d = record { fewer = λ x s sel sought h. h; same = refl; held = λ x y h. h }

  pub Later-trans : {d'' d' d : D} → Later d'' d' → Later d' d → Later d'' d
  Later-trans b a = record {
    fewer = λ x s sel sought h. a.fewer x s sel sought (b.fewer x s sel sought h);
    same = b.same ∙ a.same;
    held = λ x y h. a.held x y (b.held x y h);
  }

  HoldsNone-Later : {d' d : D} (el : E) → Later d' d → HoldsNone d el → HoldsNone d' el
  HoldsNone-Later el l none_held x m h = none_held x (subst (In x) l.same m) (l.held el x h)

  pub Apart-Later : {d' d : D} → Later d' d → Apart d → Apart d'
  Apart-Later l apart s el c open_s of_class found = HoldsNone-Later el l (
      apart s el c (subst (In s) l.same open_s) of_class
        (l.fewer el s (class_selector c) (inr (c, refl)) found))

  remove-Later : (el : E) (d : D) → HoldsNone d el → Later (dom.remove el d) d
  remove-Later el d none_held = record {
    fewer = λ x s sel sought h. laws.fewer el x d s sel sought h;
    same = laws.kept el d none_held;
    held = λ x y h. laws.holds_fewer el d x y h;
  }

  remove_each-Later :
      (els : List E) (d : D)
      → ((el : E) → In el els → HoldsNone d el)
      → Later (remove_each dom els d) d
  unfolding remove_each
  remove_each-Later [] d h = Later-refl d
  remove_each-Later (el ∷ els) d h =
      let first_gone = remove-Later el d (h el (inl refl)) in
      Later-trans
        (remove_each-Later els (dom.remove el d)
          (λ y m. HoldsNone-Later y first_gone (h y (inr m))))
        first_gone

  remove_each-Fewer : (els : List E) (d : D) → Fewer dom (remove_each dom els d) d
  unfolding remove_each
  remove_each-Fewer [] d x s sel sought h = h
  remove_each-Fewer (el ∷ els) d x s sel sought h =
      laws.fewer el x d s sel sought (remove_each-Fewer els (dom.remove el d) x s sel sought h)

  remove_each-gone :
      (els : List E) (d : D) (x s : E) (sel : String)
      → Sought sel
      → In x els
      → In x (dom.query_all (remove_each dom els d) s sel)
      → ⊥
  unfolding remove_each
  remove_each-gone [] d x s sel sought m h = m
  remove_each-gone (el ∷ els) d x s sel sought (inl e) h = laws.gone el d s sel sought (
      subst (λ y. In y (dom.query_all (dom.remove el d) s sel)) e
        (remove_each-Fewer els (dom.remove el d) x s sel sought h))
  remove_each-gone (el ∷ els) d x s sel sought (inr m) h =
      remove_each-gone els (dom.remove el d) x s sel sought m h

  -- After all matches of a selector are removed, none is left.
  remove_each-clears :
      (d : D) (s : E) (sel : String)
      → Sought sel
      → dom.query_all (remove_each dom (dom.query_all d s sel) d) s sel ≡ []
  remove_each-clears d s sel sought =
      let els = dom.query_all d s sel in
      nothing dom (dom.query_all (remove_each dom els d) s sel)
        (λ x h. remove_each-gone els d x s sel sought (remove_each-Fewer els d x s sel sought h) h)

  pub remove_classes-Later :
      (s : E) (cs : List String) (d : D)
      → ((c : String) → In c cs → In c classes_to_remove)
      → In s (open_sections dom d)
      → Apart d
      → Later (remove_classes dom s cs d) d
  unfolding remove_classes
  remove_classes-Later s [] d known open_s apart = Later-refl d
  remove_classes-Later s (c ∷ cs) d known open_s apart =
      let els = dom.query_all d s (class_selector c) in
      let first_gone =
        remove_each-Later els d (λ el m. apart s el c open_s (known c (inl refl)) m) in
      Later-trans
        (remove_classes-Later s cs (remove_each dom els d) (λ x m. known x (inr m))
          (subst (In s) (sym first_gone.same) open_s) (Apart-Later first_gone apart))
        first_gone

  remove_classes-Fewer :
      (s : E) (cs : List String) (d : D) → Fewer dom (remove_classes dom s cs d) d
  unfolding remove_classes
  remove_classes-Fewer s [] d x t sel sought h = h
  remove_classes-Fewer s (c ∷ cs) d x t sel sought h =
      remove_each-Fewer (dom.query_all d s (class_selector c)) d x t sel sought
        (remove_classes-Fewer s cs _ x t sel sought h)

  pub remove_classes-AllClear :
      (s : E) (cs : List String) (d : D) → AllClear dom (remove_classes dom s cs d) s cs
  unfolding remove_classes
  remove_classes-AllClear s [] d = tt
  remove_classes-AllClear s (c ∷ cs) d =
      let d' = remove_each dom (dom.query_all d s (class_selector c)) d in
      let sought : Sought (class_selector c) = inr (c, refl) in
      (
        Fewer-nil dom s (class_selector c) sought (remove_classes-Fewer s cs d')
            (remove_each-clears d s (class_selector c) sought),
        remove_classes-AllClear s cs d',
      )
