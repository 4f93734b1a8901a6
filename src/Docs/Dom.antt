-- ===== src/Docs/Dom.antt =====
-- What the scripts of the pages use of the browser: a document of elements that may be removed.
use rmit.Prelude.{String, Option, none, some, List, [], ◌∷◌}

-- The functions that the scripts call, on a document and its elements.
pub record Dom (D E : Type 0) : Type 0 where
  pub query_all : D → E → String → List E  -- element.querySelectorAll
  pub document_query_all : D → String → List E  -- document.querySelectorAll
  pub by_class_name : D → String → List E  -- document.getElementsByClassName, as it is now
  pub remove : E → D → D  -- element.remove

abbrev pub first {ℓ} : {A : Type ℓ} → List A → Option A
first [] = none
first (x ∷ xs) = some x
