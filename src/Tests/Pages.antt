-- ===== src/Tests/Pages.antt =====
-- A page as a list of elements, each with the section that holds it and the selector that finds it;
-- the sections are elements of the section 0.
use rmit.Prelude.{
  In, ℕ, ◌≡◌, refl, String, Bool, ◌&&◌, some, List, [], ◌∷◌, arith, nat_beq, if◌then◌else◌, All,
  false, ap, ◌<◌, inl, inr, ◌==◌, text_key, Bool-cases,
}
use text.Mathlib.Text.{starts_with}
use rmit.Docs.Dom.{Dom}
use rmit.Docs.Swagger.{
  child_selector, class_selector, remove_each, remove_classes, visit_section, observe_from, observe,
}
use rmit.Docs.Swagger.Removals.{Removes, Apart}
use rmit.Docs.Swagger.Settled.{SettledAt, observe-SettledAt, observe-observe}
use rmit.Docs.Stoplight.{
  on_subscriptions, observe_panel, observe_times, RemovesPanel, LeavesOut, observe_times_settles,
}

record Element : Type 0 where
  id : ℕ
  section : ℕ
  selector : String

abbrev Page : Type 0
Page = List Element

hit : ℕ → String → Element → Bool
hit s sel x = nat_beq x.section s && (x.selector == sel)

matches : ℕ → String → Page → List ℕ
matches s sel [] = []
matches s sel (x ∷ page) = if hit s sel x then x.id ∷ matches s sel page else matches s sel page

without : ℕ → Page → Page
without id [] = []
without id (x ∷ page) = if nat_beq x.id id then without id page else x ∷ without id page

abbrev page_dom : Dom Page ℕ
page_dom = record {
  query_all = λ d s sel. matches s sel d;
  document_query_all = λ d sel. matches 0 sel d;
  by_class_name = λ d name. matches 0 name d;
  remove = without;
}

page_gone : (el : ℕ) (d : Page) (s : ℕ) (sel : String) → In el (matches s sel (without el d)) → ⊥
unfolding matches without
page_gone el [] s sel h = h
page_gone el (x ∷ d) s sel h = elim (Bool-cases (nat_beq x.id el)) [
  | inl same ↦ page_gone el d s sel (rw same at h)
  | inr other ↦ elim (Bool-cases (hit s sel x)) [
    | inr missed ↦ page_gone el d s sel (rw (other, missed) at h)
    | inl found ↦
        let h' : In el (x.id ∷ matches s sel (without el d)) = rw (other, found) at h in
        elim h' [ inl e ↦ ground (arith, other, e) | inr m ↦ page_gone el d s sel m ]
  ]
]

In-later :
    (y : ℕ) (x : Element) (d : Page) (s : ℕ) (sel : String)
    → In y (matches s sel d)
    → In y (matches s sel (x ∷ d))
unfolding matches
In-later y x d s sel h = elim (Bool-cases (hit s sel x)) [
  | inl found ↦ rw found (inr h)
  | inr missed ↦ rw missed h
]

page_fewer :
    (el y : ℕ) (d : Page) (s : ℕ) (sel : String)
    → In y (matches s sel (without el d))
    → In y (matches s sel d)
unfolding matches without
page_fewer el y [] s sel h = h
page_fewer el y (x ∷ d) s sel h = elim (Bool-cases (nat_beq x.id el)) [
  | inl same ↦ In-later y x d s sel (page_fewer el y d s sel (rw same at h))
  | inr other ↦ elim (Bool-cases (hit s sel x)) [
    | inr missed ↦ In-later y x d s sel (page_fewer el y d s sel (rw (other, missed) at h))
    | inl found ↦
        let h' : In y (x.id ∷ matches s sel (without el d)) = rw (other, found) at h in
        elim h' [
          | inl e ↦ rw found (inl e)
          | inr m ↦ In-later y x d s sel (page_fewer el y d s sel m)
        ]
  ]
]

page_kept :
    (el : ℕ) (d : Page) (name : String)
    → ((x : ℕ) → In x (matches 0 name d) → el ≡ x → ⊥)
    → matches 0 name (without el d) ≡ matches 0 name d
unfolding matches without
page_kept el [] name h = refl
page_kept el (x ∷ d) name h =
    let rest = page_kept el d name (λ y m. h y (In-later y x d 0 name m)) in
    elim (Bool-cases (hit 0 name x)) [
      | inl found ↦
          let other : nat_beq x.id el ≡ false = elim (Bool-cases (nat_beq x.id el)) [
            | inl same ↦ absurd (h x.id (rw (matches, found) (inl refl)) (ground (arith, same)))
            | inr other ↦ other
          ] in
          rw (other, found) (ap (λ l. x.id ∷ l) rest)
      | inr missed ↦ elim (Bool-cases (nat_beq x.id el)) [
        | inl same ↦ rw (same, missed) rest
        | inr other ↦ rw (other, missed) rest
      ]
    ]

-- Here an element holds only itself.
abbrev page_laws : Removes page_dom
page_laws = record {
  gone = λ el d s sel sought h. page_gone el d s sel h;
  fewer = λ el x d s sel sought h. page_fewer el x d s sel h;
  holds = λ d x y. x ≡ y;
  holds_fewer = λ el d x y h. h;
  kept = λ el d h. page_kept el d "opblock-tag-section is-open" h;
}

-- Section 1 shows a WebSocket operation with two buttons; section 2 shows another operation.
abbrev page : Page
page =
    record { id = 1; section = 0; selector = "opblock-tag-section is-open" }
    ∷ record { id = 2; section = 0; selector = "opblock-tag-section is-open" }
    ∷ record { id = 11; section = 1; selector = child_selector }
    ∷ record { id = 12; section = 1; selector = "[class^=\"try-out\"]" }
    ∷ record { id = 13; section = 1; selector = "[class^=\"response-controls\"]" }
    ∷ record { id = 14; section = 2; selector = "[class^=\"try-out\"]" }
    ∷ []

observe_test :
    observe page_dom page
    ≡ record { id = 1; section = 0; selector = "opblock-tag-section is-open" }
      ∷ record { id = 2; section = 0; selector = "opblock-tag-section is-open" }
      ∷ record { id = 11; section = 1; selector = child_selector }
      ∷ record { id = 14; section = 2; selector = "[class^=\"try-out\"]" }
      ∷ []
unfolding observe observe_from visit_section remove_classes remove_each class_selector matches
    without hit
observe_test = refl

-- The elements of sections have numbers above 10.
Numbered : Page → Type 0
Numbered d = All (λ (x : Element). 0 < x.section → 10 < x.id) d

page-Numbered : Numbered page
unfolding Numbered
page-Numbered =
    let outside : (n : ℕ) → 0 < 0 → 10 < n = λ n h. absurd (omega arith) in
    (
      outside 1,
      (
        outside 2,
        (λ h. omega arith, (λ h. omega arith, (λ h. omega arith, (λ h. omega arith, tt)))),
      ),
    )

Numbered-above :
    (s el : ℕ) (sel : String) (d : Page) → Numbered d → 0 < s → In el (matches s sel d) → 10 < el
unfolding matches Numbered hit
Numbered-above s el sel [] n pos m = absurd m
Numbered-above s el sel (x ∷ d) (above, n) pos m = elim (Bool-cases (hit s sel x)) [
  | inr missed ↦ Numbered-above s el sel d n pos (rw (matches, missed) at m)
  | inl found ↦
      let in_section : x.section ≡ s = ground (arith, found) in
      let m' : In el (x.id ∷ matches s sel d) = rw (matches, found) at m in
      elim m' [
        | inl e ↦ omega (arith, e, above (omega arith))
        | inr later ↦ Numbered-above s el sel d n pos later
      ]
]

section_number : (x : ℕ) → In x (1 ∷ 2 ∷ []) → (0 < x) × (x < 3)
section_number x (inl e) = (omega arith, omega arith)
section_number x (inr (inl e)) = (omega arith, omega arith)
section_number x (inr (inr m)) = elim m [ ]

page-Apart : Apart page_dom page_laws page
unfolding matches hit
page-Apart s el c open_s of_class found x open_x same =
    let (pos, below) = section_number s open_s in
    let (pos_x, below_x) = section_number x open_x in
    let is : el ≡ x = same in
    absurd (
      omega
        (arith, is, Numbered-above s el (class_selector c) page page-Numbered pos found, below_x))

observe-SettledAt_example : SettledAt page_dom page_laws (observe page_dom page) 1
unfolding observe observe_from visit_section remove_classes remove_each class_selector matches
    without hit
observe-SettledAt_example = observe-SettledAt page_dom page_laws page 0 1 page-Apart refl

observe-observe_example : observe page_dom (observe page_dom page) ≡ observe page_dom page
observe-observe_example = observe-observe page_dom page_laws page page-Apart

-- A page of panels by number.
erase : ℕ → List ℕ → List ℕ
erase el [] = []
erase el (x ∷ xs) = if nat_beq x el then erase el xs else x ∷ erase el xs

abbrev panel_dom : Dom (List ℕ) ℕ
panel_dom = record {
  query_all = λ d s sel. [];
  document_query_all = λ d sel. d;
  by_class_name = λ d name. [];
  remove = erase;
}

abbrev hash_includes : String → String → Bool
hash_includes hash part = starts_with hash part

erase_less : (el : ℕ) (d : List ℕ) → LeavesOut (erase el d) d
unfolding erase
erase_less el [] = tt
erase_less el (x ∷ d) = elim (Bool-cases (nat_beq x el)) [
  | inl here ↦ rw here (later (erase el d) x d (erase_less el d))
  | inr other ↦ rw other (inl (refl, erase_less el d))
]
  where
    later : (ys : List ℕ) (x : ℕ) (xs : List ℕ) → LeavesOut ys xs → LeavesOut ys (x ∷ xs)
    later [] x xs h = tt
    later (y ∷ ys) x xs h = inr h

erase_gone : (el : ℕ) (d : List ℕ) → In el (erase el d) → ⊥
unfolding erase
erase_gone el [] m = m
erase_gone el (x ∷ d) m = elim (Bool-cases (nat_beq x el)) [
  | inl here ↦ erase_gone el d (rw here at m)
  | inr other ↦
      let m' : In el (x ∷ erase el d) = rw other at m in
      elim m' [ inl e ↦ ground (arith, other, e) | inr rest ↦ erase_gone el d rest ]
]

panel_law : RemovesPanel panel_dom hash_includes
panel_law d el m = (erase_less el d, erase_gone el d)

panel_test :
    observe_panel panel_dom hash_includes (some "#/paths/subscriptions-block/get") (7 ∷ 8 ∷ [])
    ≡ 8 ∷ []
unfolding observe_panel on_subscriptions erase
panel_test = refl

observe_times_settles_example :
    (observe_times panel_dom hash_includes 2 (some "#/paths/subscriptions") (7 ∷ 8 ∷ []) ≡ [])
    × (observe_times panel_dom hash_includes 3
          (some "#/paths/subscriptions")
          (observe_times panel_dom hash_includes 2 (some "#/paths/subscriptions") (7 ∷ 8 ∷ []))
        ≡ observe_times panel_dom hash_includes 2 (some "#/paths/subscriptions") (7 ∷ 8 ∷ []))
observe_times_settles_example =
    observe_times_settles panel_dom hash_includes "#/paths/subscriptions" (7 ∷ 8 ∷ []) 3 panel_law
      refl
