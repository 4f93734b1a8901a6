-- ===== src/StackedMap/Refines.antt =====
-- A stacked map is a stack of maps: a read finds the topmost level that holds the key.
use rmit.Prelude.{
  ℕ, ◌≡◌, refl, Option, none, some, List, [], ◌∷◌, arith, Key, Option-cases, inl, inr,
}
use rmit.Prelude.Assoc.{lookup}
use rmit.Prelude.Totals.{Distinct}
use rmit.StackedMap.{Level, StackedMap, Fetch, get, level_at}
use rmit.StackedMap.Journal.{replay}
use rmit.StackedMap.Revisions.{holders, holders_bound, Tracks}

module _ {ℓ} {K V : Type ℓ} ⦃key : Key K⦄ where
  -- The value of a key in the topmost level that holds it.
  unfoldable pub first_value : K → List (Level K V) → Option V
  first_value k [] = none
  first_value k (l ∷ rest) = elim (lookup k l.kvs) [ none ↦ first_value k rest | some v ↦ some v ]

  -- The specification of `Get`: the stack of maps over the source.
  unfoldable pub spec_get : StackedMap K V → K → Fetch V
  spec_get sm k = elim (first_value k sm.map_stack) [ none ↦ sm.src k | some v ↦ Fetch.found v ]

  -- No key of a level has two entries, and its journal replays to its entries.
  pub record IsSound (l : Level K V) : Type ℓ where
    pub distinct : Distinct l.kvs
    pub journaled : (j : K) → lookup j (replay [] l.journal) ≡ lookup j l.kvs

  abbrev pub AllSound : List (Level K V) → Type ℓ
  AllSound [] = Unit
  AllSound (l ∷ rest) = IsSound l × AllSound rest

  pub record IsValid (sm : StackedMap K V) : Type ℓ where
    pub tracks : Tracks sm.revisions sm.map_stack
    pub sound : AllSound sm.map_stack

  -- The level that the topmost revision names has the topmost value.
  level_at-holders :
      (k : K) (stack : List (Level K V)) {i : ℕ} {is : List ℕ}
      → holders k stack ≡ i ∷ is
      → (l : Level K V) × (v : V) × (level_at stack i ≡ some l)
        × (lookup k l.kvs ≡ some v)
        × (first_value k stack ≡ some v)
  unfolding level_at holders first_value
  level_at-holders k [] h = absurd (cc)
  level_at-holders k (l ∷ rest) {i} {is} h = elim (Option-cases (lookup k l.kvs)) [
    | inr (v, e) ↦ (l, v, ground (arith, e, h), e, ground (arith, e))
    | inl e ↦
        let lower : holders k rest ≡ i ∷ is = ground (arith, e, h) in
        let (l', v, at, held, first) = level_at-holders k rest lower in
        (l', v, ground (arith, at, holders_bound k rest lower), held, ground (arith, e, first))
  ]

  no_holders :
      (k : K) (stack : List (Level K V)) → holders k stack ≡ [] → first_value k stack ≡ none
  unfolding holders first_value
  no_holders k [] h = refl
  no_holders k (l ∷ rest) h = elim (Option-cases (lookup k l.kvs)) [
    | inr (v, e) ↦ absurd (ground (arith, e, h))
    | inl e ↦ ground (arith, e, no_holders k rest (ground (arith, e, h)))
  ]

  -- On a valid map `Get` does not panic and reads the topmost level that holds the key, else the
  -- source.
  pub get-spec_get : (sm : StackedMap K V) → IsValid sm → (k : K) → get sm k ≡ some (spec_get sm k)
  unfolding get spec_get
  get-spec_get sm valid k =
      elim (holders k sm.map_stack)
          as (λ x. holders k sm.map_stack ≡ x → get sm k ≡ some (spec_get sm k)) [
            | [] ↦ λ h. ground (arith, no_holders k sm.map_stack h, valid.tracks k, h)
            | i ∷ is ↦ λ h.
                let (l, v, at, held, first) = level_at-holders k sm.map_stack h in
                ground (arith, at, held, first, valid.tracks k, h)
          ]
        refl
