-- ===== src/Docs/Swagger/Settled.antt =====
-- The callback of the observer settles: a second run finds nothing to remove.
use rmit.Prelude.{
  In, In-get_elem?, ℕ, zero, suc, ◌+◌, ◌≤◌, ◌<◌, ◌≡◌, refl, String, none, some, List, [], ◌∷◌,
  arith, length, get_elem?, get_elem?_bound, inl, inr, ◌⊎◌, sym, ap, subst, ◌∙◌, Option-cases,
  dec_lt,
}
use rmit.Prelude.Fallible.{some_eq}
use rmit.Docs.Dom.{Dom, first}
use rmit.Docs.Swagger.{
  classes_to_remove, child_selector, remove_each, remove_classes, visit_section, open_sections,
  observe_from, observe,
}
use rmit.Docs.Swagger.Removals.{
  Removes, get_elem?-none, Fewer, AllClear, Fewer-nil, AllClear-Fewer, Apart, Later, Later-refl,
  Later-trans, Apart-Later, remove_classes-Later, remove_classes-AllClear,
}

module _ {D E : Type 0} (dom : Dom D E) (laws : Removes dom) where
  -- The section shows no WebSocket operation, or none of its elements of the classes.
  abbrev pub SettledAt : D → E → Type 0
  SettledAt d s = (dom.query_all d s child_selector ≡ []) ⊎ AllClear dom d s classes_to_remove

  SettledAt-Fewer : (d' d : D) (s : E) → Fewer dom d' d → SettledAt d s → SettledAt d' s
  SettledAt-Fewer d' d s f (inl e) = inl (Fewer-nil dom s child_selector (inl refl) f e)
  SettledAt-Fewer d' d s f (inr h) = inr (AllClear-Fewer dom d' d s classes_to_remove f h)

  first-none : (xs : List E) → first xs ≡ none → xs ≡ []
  first-none [] e = refl
  first-none (x ∷ xs) e = absurd (cc)

  visit_none :
      (s : E) (d : D) → first (dom.query_all d s child_selector) ≡ none → visit_section dom s d ≡ d
  unfolding visit_section
  visit_none s d e = ground (arith, e)

  visit_some :
      (s : E) (d : D) (child : E)
      → first (dom.query_all d s child_selector) ≡ some child
      → visit_section dom s d ≡ remove_classes dom s classes_to_remove d
  unfolding visit_section
  visit_some s d child e = ground (arith, e)

  visit_section-Later :
      (s : E) (d : D)
      → In s (open_sections dom d)
      → Apart dom laws d
      → Later dom laws (visit_section dom s d) d
  visit_section-Later s d open_s apart =
      elim (Option-cases (first (dom.query_all d s child_selector))) [
        | inl e ↦ subst (λ d'. Later dom laws d' d) (sym (visit_none s d e)) (Later-refl dom laws d)
        | inr (child, e) ↦
            subst (λ d'. Later dom laws d' d) (sym (visit_some s d child e))
              (remove_classes-Later dom laws s classes_to_remove d (λ c m. m) open_s apart)
      ]

  visit_section-SettledAt : (s : E) (d : D) → SettledAt (visit_section dom s d) s
  visit_section-SettledAt s d = elim (Option-cases (first (dom.query_all d s child_selector))) [
    | inl e ↦
        subst (λ d'. SettledAt d' s) (sym (visit_none s d e))
          (inl (first-none (dom.query_all d s child_selector) e))
    | inr (child, e) ↦
        subst (λ d'. SettledAt d' s) (sym (visit_some s d child e))
          (inr (remove_classes-AllClear dom laws s classes_to_remove d))
  ]

  -- A settled section is left alone.
  remove_classes-AllClear_same :
      (s : E) (cs : List String) (d : D) → AllClear dom d s cs → remove_classes dom s cs d ≡ d
  unfolding remove_classes remove_each
  remove_classes-AllClear_same s [] d h = refl
  remove_classes-AllClear_same s (c ∷ cs) d (e, h) = rw e (remove_classes-AllClear_same s cs d h)

  visit_section_settled : (s : E) (d : D) → SettledAt d s → visit_section dom s d ≡ d
  visit_section_settled s d (inl e) = visit_none s d (ap first e)
  visit_section_settled s d (inr h) =
      elim (Option-cases (first (dom.query_all d s child_selector))) [
        | inl e ↦ visit_none s d e
        | inr (child, e) ↦
            visit_some s d child e ∙ remove_classes-AllClear_same s classes_to_remove d h
      ]

  record Observed (rounds i : ℕ) (d d' : D) : Type 0 where
    later : Later dom laws d' d
    settled :
        (j : ℕ) (s : E)
        → i ≤ j
        → j < i + rounds
        → get_elem? (open_sections dom d) j ≡ some s
        → SettledAt d' s

  -- The loop has gone past the last section.
  none_left :
      (rounds i : ℕ) (d : D) → get_elem? (open_sections dom d) i ≡ none → Observed rounds i d d
  none_left rounds i d e = record {
    later = Later-refl dom laws d;
    settled = λ j s low high at_j. absurd (
        omega (
          arith,
          get_elem?-none (open_sections dom d) i e,
          get_elem?_bound (open_sections dom d) j at_j,
        ));
  }

  -- A section is visited, and the loop goes on.
  one_visited :
      (rounds i : ℕ) (d d' : D) (section : E)
      → Apart dom laws d
      → get_elem? (open_sections dom d) i ≡ some section
      → Observed rounds (i + 1) (visit_section dom section d) d'
      → Observed (suc rounds) i d d'
  one_visited rounds i d d' section apart e rest =
      let d1 = visit_section dom section d in
      let visited = visit_section-Later section d (In-get_elem? (open_sections dom d) i e) apart in
      record {
        later = Later-trans dom laws rest.later visited;
        settled = λ j s low high at_j. elim (dec_lt i j) [
          | yes later ↦
              rest.settled j s (omega arith) (omega arith)
                (ap (λ l. get_elem? l j) visited.same ∙ at_j)
          | no now ↦
              let here : j ≡ i = omega arith in
              let own : section ≡ s =
                some_eq (sym e ∙ ap (get_elem? (open_sections dom d)) (sym here) ∙ at_j) in
              SettledAt-Fewer d' d1 s rest.later.fewer
                (subst (SettledAt d1) own (visit_section-SettledAt section d))
        ];
      }

  observe_from-Observed :
      (rounds i : ℕ) (d : D) → Apart dom laws d → Observed rounds i d (observe_from dom rounds i d)
  unfolding observe_from
  observe_from-Observed zero i d apart = record {
    later = Later-refl dom laws d;
    settled = λ j s low high e. absurd (omega arith);
  }
  observe_from-Observed (suc rounds) i d apart =
      elim (Option-cases (get_elem? (open_sections dom d) i)) [
        | inl e ↦
            let same : observe_from dom (suc rounds) i d ≡ d = ground (arith, e) in
            subst (Observed (suc rounds) i d) (sym same) (none_left (suc rounds) i d e)
        | inr (section, e) ↦
            let d1 = visit_section dom section d in
            let step : observe_from dom (suc rounds) i d ≡ observe_from dom rounds (i + 1) d1 =
              ground (arith, e) in
            let visited =
              visit_section-Later section d (In-get_elem? (open_sections dom d) i e) apart in
            subst (Observed (suc rounds) i d) (sym step) (
              one_visited rounds i d (observe_from dom rounds (i + 1) d1) section apart e
                (observe_from-Observed rounds (i + 1) d1 (Apart-Later dom laws visited apart)))
      ]

  -- After the callback every open section that shows a WebSocket operation shows none of the
  -- elements of the six classes, if removals work as in a browser and no element of the classes in
  -- an open section of the page holds an open section.
  pub observe-SettledAt :
      (d : D) (i : ℕ) (s : E)
      → Apart dom laws d
      → get_elem? (open_sections dom (observe dom d)) i ≡ some s
      → SettledAt (observe dom d) s
  unfolding observe
  observe-SettledAt d i s apart h =
      let o = observe_from-Observed (length (open_sections dom d)) 0 d apart in
      let at_i = ap (λ l. get_elem? l i) (sym o.later.same) ∙ h in
      o.settled i s (omega arith) (omega (arith, get_elem?_bound (open_sections dom d) i at_i)) at_i

  observe_from_settled :
      (rounds i : ℕ) (d : D)
      → ((j : ℕ) (s : E) → get_elem? (open_sections dom d) j ≡ some s → SettledAt d s)
      → observe_from dom rounds i d ≡ d
  unfolding observe_from
  observe_from_settled zero i d h = refl
  observe_from_settled (suc rounds) i d h =
      elim (Option-cases (get_elem? (open_sections dom d) i)) [
        | inl e ↦ ground (arith, e)
        | inr (section, e) ↦
            let step : observe_from dom (suc rounds) i d
                ≡ observe_from dom rounds (i + 1) (visit_section dom section d) =
              ground (arith, e) in
            step
            ∙ ap (observe_from dom rounds (i + 1)) (visit_section_settled section d (h i section e))
            ∙ observe_from_settled rounds (i + 1) d h
      ]

  -- The callback settles the page: run again, as its own removals make the browser do, it changes
  -- nothing, so it does not keep itself running, if removals work as in a browser and no element of
  -- the classes in an open section of the page holds an open section.
  pub observe-observe : (d : D) → Apart dom laws d → observe dom (observe dom d) ≡ observe dom d
  unfolding observe
  observe-observe d apart =
      observe_from_settled _ 0 (observe dom d) (λ i s e. observe-SettledAt d i s apart e)
