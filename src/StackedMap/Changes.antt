-- ===== src/StackedMap/Changes.antt =====
-- Every operation keeps a stacked map valid, and a read after it is that of the stack of maps.
use rmit.Prelude.{
  ℕ, ◌≡◌, refl, some, List, [], ◌∷◌, ◌++◌, arith, if◌then◌else◌, length, Key, Bool-cases,
  Option-cases, inl, inr, sym, ap, ◌∙◌,
}
use rmit.Prelude.Assoc.{lookup, insert, lookup-insert}
use rmit.Prelude.Totals.{insert-Distinct}
use rmit.StackedMap.{Level, StackedMap, Fetch, new_level, pop, put}
use rmit.StackedMap.Journal.{replay, replay-snoc}
use rmit.StackedMap.Revisions.{packed, holders, note_revision-entry, above, unwind-entries}
use rmit.StackedMap.Refines.{IsSound, IsValid}

module _ {ℓ} {K V : Type ℓ} ⦃key : Key K⦄ where
  abbrev pub stacked : (K → Fetch V) → List (Level K V) → List (K × List ℕ) → StackedMap K V
  stacked src stack revisions = record { src = src; map_stack = stack; revisions = revisions }

  -- The entries of the top level with those of the levels below.
  holders-above :
      (j : K) (top : Level K V) (rest : List (Level K V))
      → holders j (top ∷ rest) ≡ above top.kvs (length rest) (λ x. holders x rest) j
  unfolding holders
  holders-above j top rest = elim (Option-cases (lookup j top.kvs)) [
    | inl e ↦ ground (arith, e)
    | inr (v, e) ↦ ground (arith, e)
  ]

  -- `Put` writes into the top level, and only the written key reads differently.
  pub put_on :
      (src : K → Fetch V) (top : Level K V) (rest : List (Level K V))
      (revisions : List (K × List ℕ)) (k : K) (v : V)
      → IsValid (stacked src (top ∷ rest) revisions)
      → (top' : Level K V) × (revisions' : List (K × List ℕ)) × (put
            (stacked src (top ∷ rest) revisions)
            k
            v
          ≡ some (stacked src (top' ∷ rest) revisions'))
        × (top'.kvs ≡ insert k v top.kvs)
        × IsValid (stacked src (top' ∷ rest) revisions')
  unfolding put holders
  put_on src top rest revisions k v valid =
      let (revisions', noted, entry) = note_revision-entry k top rest revisions (valid.tracks k) in
      let tracks' : (j : K)
          → lookup j revisions'
            ≡ packed (above (insert k v top.kvs) (length rest) (λ x. holders x rest) j) =
        λ j. elim (Bool-cases (key.same k j)) [
          | inl here ↦ ground (
            arith,
            here,
            entry j,
            lookup-insert k j v top.kvs,
            ap (λ x. holders x rest) ((key.same_iff k j).0 here),
          )
          | inr there ↦ ground (
            arith,
            there,
            entry j,
            lookup-insert k j v top.kvs,
            valid.tracks j,
            holders-above j top rest,
          )
        ] in
      let top' : Level K V = record {
        kvs = insert k v top.kvs;
        journal = top.journal ++ (k, v) ∷ [];
      } in
      let written : (j : K) → lookup j (replay [] top'.journal) ≡ lookup j top'.kvs = λ j.
        rw (replay-snoc [] top.journal k v) (
          lookup-insert k j v (replay [] top.journal)
          ∙ ap (λ x. if key.same k j then some v else x) (valid.sound.0.journaled j)
          ∙ sym (lookup-insert k j v top.kvs)) in
      (
        top',
        revisions',
        rw noted refl,
        refl,
        record {
          tracks = λ j. tracks' j ∙ ap packed (sym (holders-above j top' rest));
          sound = (
            record {
              distinct = insert-Distinct k v top.kvs valid.sound.0.distinct;
              journaled = λ j. written j;
            },
            valid.sound.1,
          );
        },
      )

  pub new_level-IsSound : IsSound (new_level {K = K} {V = V})
  new_level-IsSound = record { distinct = tt; journaled = λ j. refl }

  pub push_on :
      (src : K → Fetch V) (stack : List (Level K V)) (revisions : List (K × List ℕ))
      → IsValid (stacked src stack revisions)
      → IsValid (stacked src (new_level ∷ stack) revisions)
  unfolding holders lookup
  push_on src stack revisions valid = record {
    tracks = valid.tracks;
    sound = (new_level-IsSound, valid.sound);
  }

  -- `Pop` drops the top level and no revision of the levels below.
  pub pop_on :
      (src : K → Fetch V) (top : Level K V) (rest : List (Level K V))
      (revisions : List (K × List ℕ))
      → IsValid (stacked src (top ∷ rest) revisions)
      → (revisions' : List (K × List ℕ)) × (pop (stacked src (top ∷ rest) revisions)
          ≡ some (stacked src rest revisions'))
        × IsValid (stacked src rest revisions')
  unfolding pop
  pop_on src top rest revisions valid =
      let (revisions', done, kept) =
        unwind-entries top.kvs (length rest) (λ x. holders x rest) revisions valid.sound.0.distinct
          (λ j. valid.tracks j ∙ ap packed (holders-above j top rest)) in
      (revisions', rw done refl, record { tracks = kept; sound = valid.sound.1 })
