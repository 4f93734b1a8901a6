-- ===== src/StackedMap.antt =====
-- stackedmap/stackedmap.go: a stack of maps with, for each key, the levels that hold it. Stacks are
-- lists with their top first; `none` is a panic.
pub mod Revisions
pub mod Refines
pub mod Changes
pub mod Revert
pub mod Journal
pub mod Replay
use rmit.Prelude.{
  ℕ, zero, suc, ◌+◌, ◌-◌, ◌≡◌, Bool, true, false, Option, none, some, List, [], ◌∷◌, ◌++◌, nat_beq,
  ltb, if◌then◌else◌, length, Key,
}
use rmit.Prelude.Fallible.{◌>>=◌}
use rmit.Prelude.Assoc.{lookup, insert, delete}

-- What `MapGetter` returns: a value, its absence or an error.
pub data Fetch {ℓ} (V : Type ℓ) : Type ℓ where
  found : V → Fetch V
  absent : Fetch V
  failed : Fetch V

pub record Level {ℓ} (K V : Type ℓ) : Type ℓ where
  pub kvs : List (K × V)
  pub journal : List (K × V)

pub record StackedMap {ℓ} (K V : Type ℓ) : Type ℓ where
  pub src : K → Fetch V
  pub map_stack : List (Level K V)
  pub revisions : List (K × List ℕ)

module _ {ℓ} {K V : Type ℓ} where
  abbrev pub new_level : Level K V
  new_level = record { kvs = []; journal = [] }

  abbrev pub new : (K → Fetch V) → StackedMap K V
  new src = record { src = src; map_stack = new_level ∷ []; revisions = [] }

  unfoldable pub depth : StackedMap K V → ℕ
  depth sm = length sm.map_stack

  -- `Push`, and the depth before it.
  unfoldable pub push : StackedMap K V → StackedMap K V × ℕ
  push sm =
      let stack = new_level ∷ sm.map_stack in (record sm { map_stack = stack }, length stack - 1)

  -- `sm.mapStack[i]`, counted from the bottom.
  unfoldable pub level_at : List (Level K V) → ℕ → Option (Level K V)
  level_at [] i = none
  level_at (l ∷ rest) i = if nat_beq i (length rest) then some l else level_at rest i

module _ {ℓ} {K : Type ℓ} ⦃key : Key K⦄ where
  -- A round of the loop of `Pop`: a missing or empty stack of revisions would panic.
  unfoldable pub pop_revision : K → List (K × List ℕ) → Option (List (K × List ℕ))
  pop_revision k revisions = elim (lookup k revisions) [
    | none ↦ none
    | some [] ↦ none
    | some (i ∷ []) ↦ some (delete k revisions)
    | some (i ∷ j ∷ is) ↦ some (insert k (j ∷ is) revisions)
  ]

  -- The revision of a key after a write at level `rev`.
  unfoldable pub note_revision : K → ℕ → List (K × List ℕ) → Option (List (K × List ℕ))
  note_revision k rev revisions = elim (lookup k revisions) [
    | none ↦ some (insert k (rev ∷ []) revisions)
    | some [] ↦ none
    | some (i ∷ is) ↦ some (if nat_beq i rev then revisions else insert k (rev ∷ i ∷ is) revisions)
  ]

module _ {ℓ} {K V : Type ℓ} ⦃key : Key K⦄ where
  unfoldable pub unwind : List (K × V) → List (K × List ℕ) → Option (List (K × List ℕ))
  unwind [] revisions = some revisions
  unwind (entry ∷ kvs) revisions = pop_revision entry.0 revisions >>= unwind kvs

  unfoldable pub pop : StackedMap K V → Option (StackedMap K V)
  pop sm = elim (sm.map_stack) [
    | [] ↦ none
    | top ∷ rest ↦ unwind top.kvs sm.revisions >>= λ revisions.
        some (record sm { map_stack = rest; revisions = revisions })
  ]

  -- `PopTo`, whose loop makes no more rounds than there are levels.
  unfoldable pub pop_rounds : ℕ → StackedMap K V → ℕ → Option (StackedMap K V)
  pop_rounds zero sm target = some sm
  pop_rounds (suc rounds) sm target =
      let further = pop sm >>= λ sm'. pop_rounds rounds sm' target in
      if ltb target (length sm.map_stack) then further else some sm

  unfoldable pub pop_to : StackedMap K V → ℕ → Option (StackedMap K V)
  pop_to sm target = pop_rounds (length sm.map_stack) sm target

  unfoldable pub get : StackedMap K V → K → Option (Fetch V)
  get sm k = elim (lookup k sm.revisions) [
    | none ↦ some (sm.src k)
    | some [] ↦ none
    | some (i ∷ is) ↦ level_at sm.map_stack i >>= λ l.
        some (elim (lookup k l.kvs) [ some v ↦ found v | none ↦ sm.src k ])
  ]

  unfoldable pub put : StackedMap K V → K → V → Option (StackedMap K V)
  put sm k v = elim (sm.map_stack) [
    | [] ↦ none
    | top ∷ rest ↦ note_revision k (length rest) sm.revisions >>= λ revisions. some (record sm {
      map_stack = record { kvs = insert k v top.kvs; journal = top.journal ++ (k, v) ∷ [] } ∷ rest;
      revisions = revisions;
    })
  ]

module _ {ℓ κ} {K V : Type ℓ} {S : Type κ} where
  -- The entries of one level under the callback, which turns a state into the next and says whether
  -- to go on.
  unfoldable pub visit : (S → K → V → S × Bool) → List (K × V) → S → S × Bool
  visit cb [] s = (s, true)
  visit cb (entry ∷ entries) s =
      let (next, more) = cb s entry.0 entry.1 in
      let rest = visit cb entries next in if more then rest else (next, false)

  -- `Journal` from the bottom level up. The stack has its top first.
  unfoldable pub visit_levels : (S → K → V → S × Bool) → List (Level K V) → S → S × Bool
  visit_levels cb [] s = (s, true)
  visit_levels cb (l ∷ rest) s =
      let (below, more) = visit_levels cb rest s in
      let here = visit cb l.journal below in if more then here else (below, false)

  unfoldable pub journal : StackedMap K V → (S → K → V → S × Bool) → S → S
  journal sm cb s = (visit_levels cb sm.map_stack s).0
