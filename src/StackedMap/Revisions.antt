-- ===== src/StackedMap/Revisions.antt =====
-- The revisions of a stacked map name exactly the levels that hold a key.
use rmit.Prelude.{
  ℕ, ◌<◌, ◌≡◌, refl, Option, none, some, List, [], ◌∷◌, arith, if◌then◌else◌, length, Key,
  same_refl, Bool-cases, Option-cases, inl, inr, ap, subst,
}
use rmit.Prelude.Assoc.{lookup, insert, delete, lookup-insert, lookup-delete}
use rmit.Prelude.Totals.{Distinct}
use rmit.StackedMap.{Level, pop_revision, unwind, note_revision}

-- A key that no level holds has no entry.
abbrev pub packed : List ℕ → Option (List ℕ)
packed [] = none
packed (i ∷ is) = some (i ∷ is)

module _ {ℓ} {K : Type ℓ} ⦃key : Key K⦄ where
  -- The write of a level above those that hold the key.
  fresh_entry :
      (k : K) (rev : ℕ) (held : List ℕ) (revisions : List (K × List ℕ))
      → lookup k revisions ≡ packed held
      → ((i : ℕ) (is : List ℕ) → held ≡ i ∷ is → i < rev)
      → (revisions' : List (K × List ℕ)) × (note_revision k rev revisions ≡ some revisions')
        × ((j : K)
            → lookup j revisions'
              ≡ (if key.same k j then some (rev ∷ held) else lookup j revisions))
  unfolding note_revision
  fresh_entry k rev [] revisions h above = (
    insert k (rev ∷ []) revisions,
    ground (arith, h),
    λ j. lookup-insert k j (rev ∷ []) revisions,
  )
  fresh_entry k rev (i ∷ is) revisions h above =
      let below : i < rev = above i is refl in
      (
        insert k (rev ∷ i ∷ is) revisions,
        ground (arith, h, below),
        λ j. lookup-insert k j (rev ∷ i ∷ is) revisions,
      )

  -- What one round of `Pop` leaves of the entries.
  pop_revision-entry :
      (k : K) (rev : ℕ) (held : List ℕ) (revisions : List (K × List ℕ))
      → lookup k revisions ≡ some (rev ∷ held)
      → (revisions' : List (K × List ℕ)) × (pop_revision k revisions ≡ some revisions')
        × ((j : K)
            → lookup j revisions' ≡ (if key.same k j then packed held else lookup j revisions))
  unfolding pop_revision
  pop_revision-entry k rev [] revisions h =
      (delete k revisions, ground (arith, h), λ j. lookup-delete k j revisions)
  pop_revision-entry k rev (i ∷ is) revisions h =
      (insert k (i ∷ is) revisions, ground (arith, h), λ j. lookup-insert k j (i ∷ is) revisions)

module _ {ℓ} {K V : Type ℓ} ⦃key : Key K⦄ where
  -- The levels, from the top, that hold the key.
  unfoldable pub holders : K → List (Level K V) → List ℕ
  holders k [] = []
  holders k (l ∷ rest) = elim (lookup k l.kvs) [
    | none ↦ holders k rest
    | some v ↦ length rest ∷ holders k rest
  ]

  pub holders_bound :
      (k : K) (stack : List (Level K V)) {i : ℕ} {is : List ℕ}
      → holders k stack ≡ i ∷ is
      → i < length stack
  unfolding holders
  holders_bound k [] h = absurd (cc)
  holders_bound k (l ∷ rest) {i} {is} h = elim (Option-cases (lookup k l.kvs)) [
    | inl e ↦ omega (arith, holders_bound k rest (rw (e, holders) at h))
    | inr (v, e) ↦ ground (arith, e, h)
  ]

  abbrev pub Tracks : List (K × List ℕ) → List (Level K V) → Type ℓ
  Tracks revisions stack = (k : K) → lookup k revisions ≡ packed (holders k stack)

  -- The entry of a key after a write at the top level.
  pub note_revision-entry :
      (k : K) (top : Level K V) (rest : List (Level K V)) (revisions : List (K × List ℕ))
      → lookup k revisions ≡ packed (holders k (top ∷ rest))
      → (revisions' : List (K × List ℕ)) × (note_revision k (length rest) revisions
          ≡ some revisions')
        × ((j : K)
            → lookup j revisions'
              ≡ (if key.same k j then some (length rest ∷ holders k rest) else lookup j revisions))
  unfolding note_revision holders
  note_revision-entry k top rest revisions h = elim (Option-cases (lookup k top.kvs)) [
    | inr (v, e) ↦
        let top_is : lookup k revisions ≡ some (length rest ∷ holders k rest) =
          ground (arith, e, h) in
        (revisions, ground (arith, top_is), λ j. ground (arith, top_is, key.same_iff k j))
    | inl e ↦
        let below : lookup k revisions ≡ packed (holders k rest) = ground (arith, e, h) in
        fresh_entry k (length rest) (holders k rest) revisions below
          (λ i is found. holders_bound k rest found)
  ]

  -- The levels of a key, with a level above them that holds these entries.
  abbrev pub above : List (K × V) → ℕ → (K → List ℕ) → K → List ℕ
  above kvs rev held j = elim (lookup j kvs) [ none ↦ held j | some v ↦ rev ∷ held j ]

  -- The loop of `Pop` succeeds and leaves the entries of the levels below.
  pub unwind-entries :
      (kvs : List (K × V)) (rev : ℕ) (held : K → List ℕ) (revisions : List (K × List ℕ))
      → Distinct kvs
      → ((j : K) → lookup j revisions ≡ packed (above kvs rev held j))
      → (revisions' : List (K × List ℕ)) × (unwind kvs revisions ≡ some revisions')
        × ((j : K) → lookup j revisions' ≡ packed (held j))
  unfolding unwind lookup
  unwind-entries [] rev held revisions d h = (revisions, refl, h)
  unwind-entries (e ∷ kvs) rev held revisions d h =
      let own : lookup e.0 revisions ≡ some (rev ∷ held e.0) =
        ground (arith, h e.0, same_refl e.0) in
      let (first, popped, entry) = pop_revision-entry e.0 rev (held e.0) revisions own in
      let left : (j : K) → lookup j first ≡ packed (above kvs rev held j) = λ j.
        elim (Bool-cases (key.same e.0 j)) [
          | inl here ↦
              let gone : lookup j kvs ≡ none =
                subst (λ x. lookup x kvs ≡ none) ((key.same_iff e.0 j).0 here) d.0 in
              let kin : held e.0 ≡ held j = ap held ((key.same_iff e.0 j).0 here) in
              ground (arith, entry j, here, gone, kin)
          | inr there ↦ ground (arith, entry j, there, h j)
        ] in
      let (revisions', done, kept) = unwind-entries kvs rev held first d.1 left in
      (revisions', rw popped done, kept)
