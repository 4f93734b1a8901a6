-- ===== src/Prelude/Totals.antt =====
-- Sums over the values of an association list whose keys are distinct.
use mathlib.Core.Path.{◌≡◌, refl, subst}
use mathlib.Core.Option.{none, some}
use mathlib.Core.List.{List, [], ◌∷◌}
use mathlib.Core.Logic.{inl, inr}
use Prim.Native.Nat.{ℕ, ◌+◌}
use native.Mathlib.Omega.{arith}
use rmit.Prelude.Tests.{Bool-cases}
use rmit.Prelude.Eqs.{Key}
use rmit.Prelude.Assoc.{lookup, insert, delete, lookup-insert, lookup-delete}

abbrev pub total {ℓ κ} : {K : Type ℓ} {V : Type κ} → (V → ℕ) → List (K × V) → ℕ
total f [] = 0
total f (e ∷ m) = f e.1 + total f m

module _ {ℓ} {K V : Type ℓ} ⦃key : Key K⦄ where
  -- No key has two entries.
  abbrev pub Distinct : List (K × V) → Type ℓ
  Distinct [] = Unit
  Distinct (e ∷ m) = (lookup e.0 m ≡ none) × Distinct m

  pub insert-Distinct : (k : K) (v : V) (m : List (K × V)) → Distinct m → Distinct (insert k v m)
  unfolding insert lookup
  insert-Distinct k v [] d = (refl, tt)
  insert-Distinct k v (e ∷ m) d = elim (Bool-cases (key.same e.0 k)) [
    | inl here ↦ rw here (subst (λ x. lookup x m ≡ none) ((key.same_iff e.0 k).0 here) d.0, d.1)
    | inr there ↦ rw there (
      ground (arith, d.0, lookup-insert k e.0 v m, key.same_iff e.0 k, key.same_iff k e.0),
      insert-Distinct k v m d.1,
    )
  ]

  pub delete-Distinct : (k : K) (m : List (K × V)) → Distinct m → Distinct (delete k m)
  unfolding delete lookup
  delete-Distinct k [] d = tt
  delete-Distinct k (e ∷ m) d = elim (Bool-cases (key.same e.0 k)) [
    | inl here ↦ rw here (delete-Distinct k m d.1)
    | inr there ↦ rw there (ground (arith, d.0, lookup-delete k e.0 m), delete-Distinct k m d.1)
  ]

  pub total-insert :
      (f : V → ℕ) (k : K) (v : V) (m : List (K × V))
      → lookup k m ≡ none
      → total f (insert k v m) ≡ f v + total f m
  unfolding insert lookup
  total-insert f k v [] h = refl
  total-insert f k v (e ∷ m) h = elim (Bool-cases (key.same e.0 k)) [
    | inl here ↦ absurd (ground (arith, here, h))
    | inr there ↦
        let rest = total-insert f k v m (ground (arith, there, h)) in rw there (omega (arith, rest))
  ]

  -- Deleting a missing key changes nothing that is summed.
  total-delete_missing :
      (f : V → ℕ) (k : K) (m : List (K × V)) → lookup k m ≡ none → total f (delete k m) ≡ total f m
  unfolding delete lookup
  total-delete_missing f k [] h = refl
  total-delete_missing f k (e ∷ m) h = elim (Bool-cases (key.same e.0 k)) [
    | inl here ↦ absurd (ground (arith, here, h))
    | inr there ↦
        let rest = total-delete_missing f k m (ground (arith, there, h)) in
        rw there (omega (arith, rest))
  ]

  pub total-delete :
      (f : V → ℕ) (k : K) (m : List (K × V)) {v : V}
      → Distinct m
      → lookup k m ≡ some v
      → f v + total f (delete k m) ≡ total f m
  unfolding delete lookup
  total-delete f k [] d h = absurd (cc)
  total-delete f k (e ∷ m) {v} d h = elim (Bool-cases (key.same e.0 k)) [
    | inl here ↦
        let missing : lookup k m ≡ none =
          subst (λ x. lookup x m ≡ none) ((key.same_iff e.0 k).0 here) d.0 in
        let own : e.1 ≡ v = ground (arith, here, h) in
        rw here (ground (arith, own, total-delete_missing f k m missing))
    | inr there ↦
        let rest = total-delete f k m {v = v} d.1 (ground (arith, there, h)) in
        rw there (omega (arith, rest))
  ]
