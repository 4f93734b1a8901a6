-- ===== src/StackedMap/Replay.antt =====
-- The journal of a stacked map tells its writes in order.
use rmit.Prelude.{◌≡◌, refl, true, none, some, List, [], ◌∷◌, arith, Key, ap, ◌∙◌}
use rmit.Prelude.Assoc.{lookup}
use rmit.StackedMap.{Level, StackedMap, Fetch, visit_levels, journal, get}
use rmit.StackedMap.Journal.{collect, replay, visit-collect, lookup-replay}
use rmit.StackedMap.Refines.{first_value, spec_get, AllSound, IsValid, get-spec_get}

module _ {ℓ} {K V : Type ℓ} ⦃key : Key K⦄ where
  collect_levels :
      (stack : List (Level K V)) (m : List (K × V))
      → AllSound stack
      → (m' : List (K × V)) × (visit_levels collect stack m ≡ (m', true))
        × ((j : K)
            → lookup j m' ≡ elim (first_value j stack) [ none ↦ lookup j m | some v ↦ some v ])
  unfolding visit_levels first_value
  collect_levels [] m sound = (m, refl, λ j. refl)
  collect_levels (l ∷ rest) m sound =
      let (below, visited, first) = collect_levels rest m sound.1 in
      (
        replay below l.journal,
        rw visited (visit-collect l.journal below),
        λ j. ground (arith, lookup-replay below l.journal j, sound.0.journaled j, first j),
      )

  -- The journal of a valid map, written entry by entry into an empty map, gives a map that holds
  -- what `Get` reads of every key, and lacks exactly the keys that `Get` leaves to the source.
  pub get-journal :
      (sm : StackedMap K V) (k : K)
      → IsValid sm
      → get sm k
        ≡ some
            (elim (lookup k (journal sm collect [])) [ none ↦ sm.src k | some v ↦ Fetch.found v ])
  unfolding journal spec_get lookup
  get-journal sm k valid =
      let (m, visited, first) = collect_levels sm.map_stack [] valid.sound in
      let read : lookup k (visit_levels collect sm.map_stack []).0 ≡ first_value k sm.map_stack =
        ground (arith, first k, ap (λ x. lookup k x.0) visited) in
      get-spec_get sm valid k ∙ rw read refl
