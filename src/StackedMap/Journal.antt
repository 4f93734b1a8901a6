-- ===== src/StackedMap/Journal.antt =====
-- The entries of a journal, written one by one into a map.
use rmit.Prelude.{◌≡◌, refl, Bool, true, none, some, List, [], ◌∷◌, ◌++◌, arith, Key}
use rmit.Prelude.Assoc.{lookup, insert, lookup-insert}
use rmit.StackedMap.{visit}

module _ {ℓ} {K V : Type ℓ} ⦃key : Key K⦄ where
  abbrev pub collect : List (K × V) → K → V → List (K × V) × Bool
  collect m k v = (insert k v m, true)

  abbrev pub replay : List (K × V) → List (K × V) → List (K × V)
  replay m [] = m
  replay m (e ∷ es) = replay (insert e.0 e.1 m) es

  pub visit-collect : (es m : List (K × V)) → visit collect es m ≡ (replay m es, true)
  unfolding visit
  visit-collect [] m = refl
  visit-collect (e ∷ es) m = visit-collect es (insert e.0 e.1 m)

  pub replay-snoc :
      (m es : List (K × V)) (k : K) (v : V)
      → replay m (es ++ (k, v) ∷ []) ≡ insert k v (replay m es)
  replay-snoc m [] k v = refl
  replay-snoc m (e ∷ es) k v = replay-snoc (insert e.0 e.1 m) es k v

  -- A journal over a map: its own last write of a key, or the map's.
  pub lookup-replay :
      (m es : List (K × V)) (j : K)
      → lookup j (replay m es)
        ≡ elim (lookup j (replay [] es)) [ none ↦ lookup j m | some v ↦ some v ]
  unfolding lookup
  lookup-replay m [] j = refl
  lookup-replay m (e ∷ es) j = ground (
    arith,
    lookup-replay (insert e.0 e.1 m) es j,
    lookup-replay (insert e.0 e.1 []) es j,
    lookup-insert e.0 j e.1 m,
    lookup-insert e.0 j e.1 [],
  )
