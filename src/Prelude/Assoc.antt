-- ===== src/Prelude/Assoc.antt =====
-- A Go map or a JavaScript object as an association list: a write replaces the entry of its key or
-- adds one at the end, and `delete` drops every entry of the key.
use mathlib.Core.Path.{◌≡◌, refl}
use mathlib.Core.Option.{Option, none, some}
use mathlib.Core.List.{List, [], ◌∷◌}
use native.Mathlib.Omega.{arith}
use mathlib.Core.Logic.{◌⊎◌, inl, inr}
use rmit.Prelude.Tests.{if◌then◌else◌, Bool-cases}
use rmit.Prelude.Eqs.{Key}

module _ {ℓ κ} {K : Type ℓ} {V : Type κ} ⦃key : Key K⦄ where
  unfoldable pub lookup : K → List (K × V) → Option V
  lookup wanted [] = none
  lookup wanted (entry ∷ rest) =
      if key.same entry.0 wanted then some entry.1 else lookup wanted rest

  unfoldable pub insert : K → V → List (K × V) → List (K × V)
  insert k value [] = (k, value) ∷ []
  insert k value (entry ∷ rest) =
      if key.same entry.0 k then (k, value) ∷ rest else entry ∷ insert k value rest

  unfoldable pub delete : K → List (K × V) → List (K × V)
  delete k [] = []
  delete k (entry ∷ rest) =
      let kept = delete k rest in if key.same entry.0 k then kept else entry ∷ kept

  pub lookup-insert :
      (k wanted : K) (value : V) (entries : List (K × V))
      → lookup wanted (insert k value entries)
        ≡ (if key.same k wanted then some value else lookup wanted entries)
  unfolding lookup insert
  lookup-insert k wanted value [] = refl
  lookup-insert k wanted value (entry ∷ rest) = ground (
    arith,
    lookup-insert k wanted value rest,
    key.same_iff entry.0 k,
    key.same_iff entry.0 wanted,
    key.same_iff k wanted,
  )

  pub lookup-insert_self :
      (k : K) (value : V) (entries : List (K × V)) → lookup k (insert k value entries) ≡ some value
  lookup-insert_self k value entries =
      ground (arith, lookup-insert k k value entries, key.same_iff k k)

  pub lookup-delete :
      (k wanted : K) (entries : List (K × V))
      → lookup wanted (delete k entries)
        ≡ (if key.same k wanted then none else lookup wanted entries)
  unfolding lookup delete
  lookup-delete k wanted [] = ground arith
  lookup-delete k wanted (entry ∷ rest) = ground (
    arith,
    lookup-delete k wanted rest,
    key.same_iff entry.0 k,
    key.same_iff entry.0 wanted,
    key.same_iff k wanted,
  )

  -- Where a value that is found after a write comes from.
  pub insert-cases :
      (k wanted : K) (value found : V) (entries : List (K × V))
      → lookup wanted (insert k value entries) ≡ some found
      → (k ≡ wanted) × (value ≡ found) ⊎ (lookup wanted entries ≡ some found)
  insert-cases k wanted value found entries h = elim (Bool-cases (key.same k wanted)) [
    | inl here ↦
        inl (
          (key.same_iff k wanted).0 here,
          ground (arith, here, lookup-insert k wanted value entries),
        )
    | inr there ↦ inr (ground (arith, there, lookup-insert k wanted value entries))
  ]

  -- A deletion adds nothing.
  pub lookup_of_delete :
      (k wanted : K) (found : V) (entries : List (K × V))
      → lookup wanted (delete k entries) ≡ some found
      → lookup wanted entries ≡ some found
  lookup_of_delete k wanted found entries h = ground (arith, h, lookup-delete k wanted entries)
