-- ===== src/StackedMap/Revert.antt =====
-- What a caller of a stacked map relies on: reads after writes, and the return to a snapshot.
use rmit.Prelude.{
  ℕ, zero, suc, ◌+◌, ◌≤◌, ◌<◌, ◌≡◌, refl, Option, some, List, [], ◌∷◌, ◌++◌, arith, if◌then◌else◌,
  length, Key, Option-cases, inl, inr, sym, ap, ◌∙◌, subst,
}
use rmit.Prelude.Fallible.{◌>>=◌}
use rmit.Prelude.Assoc.{lookup, insert, lookup-insert}
use rmit.StackedMap.{
  Level, StackedMap, Fetch, new, new_level, depth, push, pop_rounds, pop_to, get, put,
}
use rmit.StackedMap.Revisions.{holders}
use rmit.StackedMap.Refines.{first_value, spec_get, IsValid, get-spec_get}
use rmit.StackedMap.Changes.{stacked, new_level-IsSound, put_on, push_on, pop_on}

module _ {ℓ} {K V : Type ℓ} ⦃key : Key K⦄ where
  pub new-IsValid : (src : K → Fetch V) → IsValid (new src)
  unfolding holders lookup
  new-IsValid src = record { tracks = λ k. refl; sound = (new_level-IsSound, tt) }

  spec_get-insert :
      (src : K → Fetch V) (top top' : Level K V) (rest : List (Level K V))
      (revisions revisions' : List (K × List ℕ)) (k : K) (v : V) (j : K)
      → top'.kvs ≡ insert k v top.kvs
      → spec_get (stacked src (top' ∷ rest) revisions') j
        ≡ (if key.same k j then Fetch.found v else spec_get (stacked src (top ∷ rest) revisions) j)
  unfolding spec_get first_value
  spec_get-insert src top top' rest revisions revisions' k v j e =
      elim (Option-cases (lookup j top.kvs)) [
        | inl n ↦ ground (arith, n, lookup-insert k j v top.kvs, ap (λ x. lookup j x) e)
        | inr (w, s) ↦ ground (arith, s, lookup-insert k j v top.kvs, ap (λ x. lookup j x) e)
      ]

  -- On a valid map with a level `Put` succeeds, the map stays valid, the written key reads as the
  -- value written and every other key as before.
  pub get-put :
      (sm : StackedMap K V) (k : K) (v : V)
      → IsValid sm
      → 0 < depth sm
      → (sm' : StackedMap K V) × (put sm k v ≡ some sm')
        × IsValid sm'
        × ((j : K) → get sm' j ≡ (if key.same k j then some (Fetch.found v) else get sm j))
  unfolding depth
  get-put sm k v =
      elim (sm.map_stack)
        as (λ x.
          IsValid (stacked sm.src x sm.revisions)
          → 0 < length x
          → (sm' : StackedMap K V) × (put (stacked sm.src x sm.revisions) k v ≡ some sm')
            × IsValid sm'
            × ((j : K)
                → get sm' j ≡ (
                    if key.same k j
                    then some (Fetch.found v)
                    else get (stacked sm.src x sm.revisions) j))) [
                      | [] ↦ λ valid h. elim h [ ]
                      | top ∷ rest ↦ λ valid h.
                          let (top', revisions', done, e, valid') =
                            put_on sm.src top rest sm.revisions k v valid in
                          (
                            stacked sm.src (top' ∷ rest) revisions',
                            done,
                            valid',
                            λ j. ground (
                              arith,
                              get-spec_get _ valid' j,
                              get-spec_get _ valid j,
                              spec_get-insert sm.src top top' rest sm.revisions revisions' k v j e,
                            ),
                          )
                    ]

-- What a caller does above a snapshot.
pub data Change {ℓ} (K V : Type ℓ) : Type ℓ where
  pushed : Change K V
  written : K → V → Change K V

module _ {ℓ} {K V : Type ℓ} ⦃key : Key K⦄ where
  unfoldable pub change_all : List (Change K V) → StackedMap K V → Option (StackedMap K V)
  change_all [] sm = some sm
  change_all (Change.pushed ∷ changes) sm = change_all changes (push sm).0
  change_all (Change.written k v ∷ changes) sm = put sm k v >>= change_all changes

  -- The changes succeed and leave the levels of the snapshot alone.
  change_all_on :
      (changes : List (Change K V)) (src : K → Fetch V) (top : Level K V)
      (extra base : List (Level K V)) (revisions : List (K × List ℕ))
      → IsValid (stacked src (top ∷ extra ++ base) revisions)
      → (extra' : List (Level K V)) × (revisions' : List (K × List ℕ)) × (change_all changes
            (stacked src (top ∷ extra ++ base) revisions)
          ≡ some (stacked src (extra' ++ base) revisions'))
        × IsValid (stacked src (extra' ++ base) revisions')
  unfolding change_all push
  change_all_on [] src top extra base revisions valid = (top ∷ extra, revisions, refl, valid)
  change_all_on (Change.pushed ∷ changes) src top extra base revisions valid =
      change_all_on changes src new_level (top ∷ extra) base revisions
        (push_on src (top ∷ extra ++ base) revisions valid)
  change_all_on (Change.written k v ∷ changes) src top extra base revisions valid =
      let (top', first, done, e, valid') = put_on src top (extra ++ base) revisions k v valid in
      let (extra', revisions', rest, last) =
        change_all_on changes src top' extra base first valid' in
      (extra', revisions', rw done rest, last)

  length-append : (xs ys : List (Level K V)) → length (xs ++ ys) ≡ length xs + length ys
  length-append [] ys = omega arith
  length-append (x ∷ xs) ys = omega (arith, length-append xs ys)

  -- The rounds of `PopTo` drop the levels above the snapshot.
  pop_rounds_on :
      (rounds : ℕ) (src : K → Fetch V) (extra base : List (Level K V))
      (revisions : List (K × List ℕ))
      → length extra ≤ rounds
      → IsValid (stacked src (extra ++ base) revisions)
      → (revisions' : List (K × List ℕ)) × (pop_rounds rounds
            (stacked src (extra ++ base) revisions)
            (length base)
          ≡ some (stacked src base revisions'))
        × IsValid (stacked src base revisions')
  unfolding pop_rounds
  pop_rounds_on zero src [] base revisions h valid = (revisions, refl, valid)
  pop_rounds_on zero src (l ∷ extra) base revisions h valid = elim h [ ]
  pop_rounds_on (suc rounds) src [] base revisions h valid = (revisions, ground arith, valid)
  pop_rounds_on (suc rounds) src (l ∷ extra) base revisions h valid =
      let (first, done, valid') = pop_on src l (extra ++ base) revisions valid in
      let (revisions', rest, last) =
        pop_rounds_on rounds src extra base first (omega arith) valid' in
      (revisions', ground (arith, done, rest, length-append extra base), last)

  -- The depth that `Push` returns is a snapshot of a valid map: after any writes and further
  -- pushes `PopTo` succeeds there and leaves a valid map of the same levels, whose keys all read
  -- as before.
  pub pop_to-push :
      (sm : StackedMap K V) (changes : List (Change K V))
      → IsValid sm
      → (sm' : StackedMap K V) × ((change_all changes (push sm).0 >>= λ x. pop_to x (push sm).1)
          ≡ some sm')
        × IsValid sm'
        × (sm'.map_stack ≡ sm.map_stack)
        × ((k : K) → get sm' k ≡ get sm k)
  unfolding push pop_to spec_get
  pop_to-push sm changes valid =
      let (extra, first, changed, above) =
        change_all_on changes sm.src new_level [] sm.map_stack sm.revisions
          (push_on sm.src sm.map_stack sm.revisions valid) in
      let (revisions', popped, valid') =
        pop_rounds_on (length (extra ++ sm.map_stack)) sm.src extra sm.map_stack first
          (omega (arith, length-append extra sm.map_stack)) above in
      (
        stacked sm.src sm.map_stack revisions',
        rw changed (
            subst
              (λ n.
                pop_rounds (length (extra ++ sm.map_stack))
                  (stacked sm.src (extra ++ sm.map_stack) first) n
                ≡ some (stacked sm.src sm.map_stack revisions'))
              (omega arith) popped),
        valid',
        refl,
        λ k. get-spec_get _ valid' k ∙ sym (get-spec_get sm valid k),
      )
