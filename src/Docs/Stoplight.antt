-- ===== src/Docs/Stoplight.antt =====
-- api/doc/stoplight-ui/window-observer.js: takes the panel that sends requests off the page, while
-- the page shows the subscriptions.
use rmit.Prelude.{
  ℕ, zero, suc, ◌≡◌, refl, String, Bool, true, false, Option, none, some, List, [], ◌∷◌, arith,
  length, ap, sym, subst, ◌≤◌, ◌⊎◌, inl, inr, In, ◌∙◌, if◌then◌else◌,
}
use rmit.Docs.Dom.{Dom, first}

abbrev pub panel_selector : String
panel_selector = "[data-testid=\"two-column-right\"]"

-- The first list is the second one with elements left out.
abbrev pub LeavesOut : {A : Type 0} → List A → List A → Type 0
LeavesOut [] xs = Unit
LeavesOut (y ∷ ys) [] = ⊥
LeavesOut (y ∷ ys) (x ∷ xs) = ((y ≡ x) × LeavesOut ys xs) ⊎ LeavesOut (y ∷ ys) xs

LeavesOut-length : {A : Type 0} (ys xs : List A) → LeavesOut ys xs → length ys ≤ length xs
LeavesOut-length [] xs h = omega arith
LeavesOut-length (y ∷ ys) [] h = absurd h
LeavesOut-length (y ∷ ys) (x ∷ xs) (inl (e, h)) = omega (arith, LeavesOut-length ys xs h)
LeavesOut-length (y ∷ ys) (x ∷ xs) (inr h) = omega (arith, LeavesOut-length (y ∷ ys) xs h)

-- When the first element is left out, fewer are left than there were.
first_left_out :
    {A : Type 0} (ys : List A) (x : A) (xs : List A)
    → LeavesOut ys (x ∷ xs)
    → (In x ys → ⊥)
    → length ys ≤ length xs
first_left_out [] x xs h out = omega arith
first_left_out (y ∷ ys) x xs (inl (e, h)) out = absurd (out (inl (sym e)))
first_left_out (y ∷ ys) x xs (inr h) out = LeavesOut-length (y ∷ ys) xs h

module _ {D E : Type 0} (dom : Dom D E) (includes : String → String → Bool) where
  -- `window.location.hash?.includes("#/paths/subscriptions")`, whose absence is falsy.
  unfoldable pub on_subscriptions : Option String → Bool
  on_subscriptions none = false
  on_subscriptions (some hash) = includes hash "#/paths/subscriptions"

  -- The callback of the observer, at the hash of the page.
  unfoldable pub observe_panel : Option String → D → D
  observe_panel hash d =
      if on_subscriptions hash
      then elim (first (dom.document_query_all d panel_selector)) [
        | none ↦ d
        | some element ↦ dom.remove element d
      ]
      else d

  -- The calls that the browser makes, one for each change.
  abbrev pub observe_times : ℕ → Option String → D → D
  observe_times zero hash d = d
  observe_times (suc n) hash d = observe_times n hash (observe_panel hash d)

  -- What is found of the panels after the removal of one: it is found no more, and the others keep
  -- their order, less those that went with it.
  abbrev pub RemovesPanel : Type 0
  RemovesPanel =
      (d : D) (element : E)
      → In element (dom.document_query_all d panel_selector)
      → LeavesOut (dom.document_query_all (dom.remove element d) panel_selector)
          (dom.document_query_all d panel_selector)
        × (In element (dom.document_query_all (dom.remove element d) panel_selector) → ⊥)

  observe_panel_none :
      (hash : String) (d : D)
      → dom.document_query_all d panel_selector ≡ []
      → observe_panel (some hash) d ≡ d
  unfolding observe_panel
  observe_panel_none hash d e = ground (arith, ap first e)

  observe_times_none :
      (n : ℕ) (hash : String) (d : D)
      → dom.document_query_all d panel_selector ≡ []
      → observe_times n (some hash) d ≡ d
  observe_times_none zero hash d e = refl
  observe_times_none (suc n) hash d e =
      ap (observe_times n (some hash)) (observe_panel_none hash d e) ∙ observe_times_none n hash d e

  panels_gone :
      (hash : String) (n : ℕ) (d : D) (panels : List E)
      → RemovesPanel
      → includes hash "#/paths/subscriptions" ≡ true
      → dom.document_query_all d panel_selector ≡ panels
      → length panels ≤ n
      → dom.document_query_all (observe_times n (some hash) d) panel_selector ≡ []
  unfolding observe_panel on_subscriptions
  panels_gone hash zero d [] law on e l = e
  panels_gone hash zero d (p ∷ ps) law on e l = absurd (omega arith)
  panels_gone hash (suc n) d [] law on e l =
      ap (λ x. dom.document_query_all (observe_times n (some hash) x) panel_selector)
        (observe_panel_none hash d e)
      ∙ panels_gone hash n d [] law on e (omega arith)
  panels_gone hash (suc n) d (p ∷ ps) law on e l =
      let (fewer', gone) = law d p (subst (In p) (sym e) (inl refl)) in
      let fewer =
        subst (LeavesOut (dom.document_query_all (dom.remove p d) panel_selector)) e fewer' in
      let removed : observe_panel (some hash) d ≡ dom.remove p d = ground (arith, on, ap first e) in
      ap (λ x. dom.document_query_all (observe_times n (some hash) x) panel_selector) removed
      ∙ panels_gone hash n (dom.remove p d) (dom.document_query_all (dom.remove p d) panel_selector)
          law on refl (omega (arith, first_left_out _ p ps fewer gone))

  -- On the subscriptions page each callback removes one panel, and its removal makes the browser
  -- call again: after as many calls as there were panels none is left, and no later call changes
  -- the page. A removed panel is found no more, and a removal brings no other up.
  pub observe_times_settles :
      (hash : String) (d : D) (more : ℕ)
      → RemovesPanel
      → includes hash "#/paths/subscriptions" ≡ true
      → let panels = dom.document_query_all d panel_selector in
        let settled = observe_times (length panels) (some hash) d in
        (dom.document_query_all settled panel_selector ≡ [])
        × (observe_times more (some hash) settled ≡ settled)
  observe_times_settles hash d more law on =
      let panels = dom.document_query_all d panel_selector in
      let gone = panels_gone hash (length panels) d panels law on refl (omega arith) in
      (gone, observe_times_none more hash (observe_times (length panels) (some hash) d) gone)
