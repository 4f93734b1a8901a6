-- ===== src/Docs/Swagger.antt =====
-- api/doc/swagger-ui/window-observer.js: takes the buttons and responses of the WebSocket operations
-- off the page, whenever the page changes.
pub mod Removals
pub mod Settled
use Prim.Native.String.{◌++◌ as str_append}
use rmit.Prelude.{ℕ, zero, suc, ◌+◌, String, Option, none, some, List, [], ◌∷◌, length, get_elem?}
use rmit.Docs.Dom.{Dom, first}

abbrev pub classes_to_remove : List String
classes_to_remove =
    "response-col_description__inner" ∷ "responses-header" ∷ "try-out" ∷ "response-col_status"
    ∷ "response-col_links" ∷ "response-controls" ∷ []

abbrev pub child_selector : String
child_selector = "[id^=\"operations-tag-Subscriptions\"]"

-- `[class^="${className}"]`
unfoldable pub class_selector : String → String
class_selector class_name = str_append (str_append "[class^=\"" class_name) "\"]"

module _ {D E : Type 0} (dom : Dom D E) where
  -- `elements.forEach((el) => el.remove())`
  unfoldable pub remove_each : List E → D → D
  remove_each [] d = d
  remove_each (el ∷ elements) d = remove_each elements (dom.remove el d)

  -- `classesToRemove.forEach(...)`. What `querySelectorAll` returns does not follow later changes.
  unfoldable pub remove_classes : E → List String → D → D
  remove_classes section [] d = d
  remove_classes section (class_name ∷ class_names) d =
      remove_classes section class_names
        (remove_each (dom.query_all d section (class_selector class_name)) d)

  -- `querySelector` is the first element of `querySelectorAll`.
  unfoldable pub visit_section : E → D → D
  visit_section section d = elim (first (dom.query_all d section child_selector)) [
    | none ↦ d
    | some child ↦ remove_classes section classes_to_remove d
  ]

  abbrev pub open_sections : D → List E
  open_sections d = dom.by_class_name d "opblock-tag-section is-open"

  -- The loop over the live collection, from index `i`.
  unfoldable pub observe_from : ℕ → ℕ → D → D
  observe_from zero i d = d
  observe_from (suc rounds) i d = elim (get_elem? (open_sections d) i) [
    | none ↦ d
    | some section ↦ observe_from rounds (i + 1) (visit_section section d)
  ]

  -- The callback of the observer, with a round for each section that is open.
  unfoldable pub observe : D → D
  observe d = observe_from (length (open_sections d)) 0 d
