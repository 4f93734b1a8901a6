-- ===== src/Poa/Candidates/Copies.antt =====
-- The updates of a copy of the candidates, and the list that it shares with the original.
use rmit.Prelude.{
  ℕ, ◌<◌, ◌≡◌, ◌≢◌, ◌⊎◌, inl, inr, refl, Bool, true, false, Option, none, some, List, [], ◌∷◌, ◌++◌,
  if◌then◌else◌, number_key, length, get_elem?, set, Bool-cases, Option-cases, arith, sym, ap,
  subst, ◌∙◌, length-append, length-set, get_elem?-set_self, get_elem?-set_ne, get_elem?_bound,
  get_elem?_lt, get_elem?-append_left,
}
use rmit.Prelude.Fallible.{◌>>=◌}
use rmit.Prelude.Assoc.{lookup}
use rmit.Poa.Candidates.{Candidate, Candidates, copy, clone_shared, update}

-- The object has a list, and the indices of its masters stand in it.
pub record IsValid (slices : List (List Candidate)) (c : Candidates) : Type 0 where
  pub contents : List Candidate
  pub held : get_elem? slices c.list ≡ some contents
  pub indexed : (addr i : ℕ) → lookup addr c.masters ≡ some i → i < length contents

-- Writes go elsewhere than to the slice k: the object has another one, or clones it first.
abbrev Apart : ℕ → List (List Candidate) → Candidates → Type 0
Apart k slices c = (k < length slices) × ((c.referenced ≡ true) ⊎ (c.list ≢ k))

-- What remains of the slice k and of the object after a write.
record Wrote (k : ℕ) (slices : List (List Candidate)) (r : List (List Candidate) × Candidates)
    : Type 0 where
  valid : IsValid r.0 r.1
  apart : Apart k r.0 r.1
  same : get_elem? r.0 k ≡ get_elem? slices k

-- An object that owns its slice writes to that slice only.
set_owned :
    (k : ℕ) (slices : List (List Candidate)) (c : Candidates) (list : List Candidate)
    → k < length slices
    → c.list ≢ k
    → c.list < length slices
    → ((addr i : ℕ) → lookup addr c.masters ≡ some i → i < length list)
    → Wrote k slices (set slices c.list list, c)
set_owned k slices c list bound other at indexed = record {
  valid = record {
    contents = list;
    held = get_elem?-set_self slices c.list list at;
    indexed = indexed;
  };
  apart = (omega (arith, length-set slices c.list list), inr other);
  same = get_elem?-set_ne slices c.list k list other;
}

abbrev pub cloned :
    List (List Candidate) → Candidates → List Candidate → List (List Candidate) × Candidates
cloned slices c old = (slices ++ old ∷ [], record c { list = length slices; referenced = false })

pub clone_shared-cases :
    (slices : List (List Candidate)) (c : Candidates) (old : List Candidate)
    → (clone_shared slices c old ≡ cloned slices c old)
      ⊎ (c.referenced ≡ false) × (clone_shared slices c old ≡ (slices, c))
unfolding clone_shared
clone_shared-cases slices c old =
    let select : Bool → List (List Candidate) × Candidates =
      λ b. if b then cloned slices c old else (slices, c) in
    elim (Bool-cases c.referenced) [
      | inl shared ↦ inl (ap select shared)
      | inr unshared ↦ inr (unshared, ap select unshared)
    ]

clone_shared-Wrote :
    (k : ℕ) (slices : List (List Candidate)) (c : Candidates) (old list : List Candidate)
    → Apart k slices c
    → get_elem? slices c.list ≡ some old
    → ((addr i : ℕ) → lookup addr c.masters ≡ some i → i < length list)
    → Wrote k slices (
      set (clone_shared slices c old).0 (clone_shared slices c old).1.list list,
      (clone_shared slices c old).1,
    )
clone_shared-Wrote k slices c old list (bound, off) held indexed =
    let Goal : List (List Candidate) × Candidates → Type 0 =
      λ o. Wrote k slices (set o.0 o.1.list list, o.1) in
    elim (clone_shared-cases slices c old) [
      | inl is ↦
          let grown = length-append slices (old ∷ []) in
          let written =
            set_owned k (slices ++ old ∷ []) (cloned slices c old).1 list (omega (arith, grown))
              (λ e. absurd (omega arith)) (omega (arith, grown)) indexed in
          subst Goal (sym is) (record {
            valid = written.valid;
            apart = written.apart;
            same = written.same ∙ get_elem?-append_left slices (old ∷ []) k bound;
          })
      | inr (unshared, is) ↦ subst Goal (sym is) (
          set_owned k slices c list bound
            (elim off [ inl shared ↦ absurd (cc) | inr other ↦ other ])
            (get_elem?_bound slices c.list held) indexed)
    ]

update_unknown :
    (slices : List (List Candidate)) (c : Candidates) (addr : ℕ) (active : Bool)
    → lookup addr c.masters ≡ none
    → update slices c addr active ≡ some (slices, c, false)
unfolding update
update_unknown slices c addr active unknown = rw (update, unknown) refl

-- The write of an update.
abbrev pub rewritten :
    List (List Candidate) × Candidates
    → List Candidate
    → ℕ
    → Candidate
    → Bool
    → List (List Candidate) × Candidates × Bool
rewritten owned list i old active =
    (set owned.0 owned.1.list (set list i (record old { active = active })), owned.1, true)

pub update_known :
    (slices : List (List Candidate)) (c : Candidates) (addr : ℕ) (active : Bool) (i : ℕ)
    (list : List Candidate) (old : Candidate)
    → lookup addr c.masters ≡ some i
    → get_elem? slices c.list ≡ some list
    → get_elem? list i ≡ some old
    → update slices c addr active ≡ some (rewritten (clone_shared slices c list) list i old active)
unfolding update
update_known slices c addr active i list old known held at = rw (update, known, held, at) refl

update-Wrote :
    (k : ℕ) (slices : List (List Candidate)) (c : Candidates) (addr : ℕ) (active : Bool)
    → IsValid slices c
    → Apart k slices c
    → (r : List (List Candidate) × Candidates × Bool) × (update slices c addr active ≡ some r)
      × Wrote k slices (r.0, r.1)
update-Wrote k slices c addr active v apart = elim (Option-cases (lookup addr c.masters)) [
  | inl unknown ↦ (
    (slices, c, false),
    update_unknown slices c addr active unknown,
    record { valid = v; apart = apart; same = refl },
  )
  | inr (i, known) ↦
      let (found, at) = get_elem?_lt v.contents i (v.indexed addr i known) in
      let changed = set v.contents i (record found { active = active }) in
      (
        rewritten (clone_shared slices c v.contents) v.contents i found active,
        update_known slices c addr active i v.contents found known v.held at,
        clone_shared-Wrote k slices c v.contents changed apart v.held (λ other j is. omega (
          arith,
          v.indexed other j is,
          length-set v.contents i (record found { active = active }),
        )),
      )
]

-- The updates of a block, one after the other.
abbrev pub update_all :
    List (List Candidate)
    → Candidates
    → List (ℕ × Bool)
    → Option (List (List Candidate) × Candidates)
update_all slices c [] = some (slices, c)
update_all slices c ((addr, active) ∷ rest) =
    update slices c addr active >>= λ r. update_all r.0 r.1 rest

update_all-Apart :
    (k : ℕ) (slices : List (List Candidate)) (c : Candidates) (updates : List (ℕ × Bool))
    → IsValid slices c
    → Apart k slices c
    → (r : List (List Candidate) × Candidates) × (update_all slices c updates ≡ some r)
      × Wrote k slices r
update_all-Apart k slices c [] v apart =
    ((slices, c), refl, record { valid = v; apart = apart; same = refl })
update_all-Apart k slices c ((addr, active) ∷ rest) v apart =
    let (s, done, wrote) = update-Wrote k slices c addr active v apart in
    let (r, all, more) = update_all-Apart k s.0 s.1 rest wrote.valid wrote.apart in
    (
      r,
      rw done all,
      record { valid = more.valid; apart = more.apart; same = more.same ∙ wrote.same },
    )

-- Whatever updates a copy of a valid object is given, none panics, the copy stays valid and the
-- slice of the original, which the copy shared, is as before.
pub copy-update_all :
    (slices : List (List Candidate)) (c : Candidates) (updates : List (ℕ × Bool))
    → IsValid slices c
    → (r : List (List Candidate) × Candidates) × (update_all slices (copy c).1 updates ≡ some r)
      × IsValid r.0 r.1
      × (get_elem? r.0 c.list ≡ get_elem? slices c.list)
unfolding copy
copy-update_all slices c updates v =
    let start : IsValid slices (copy c).1 = record {
      contents = v.contents;
      held = v.held;
      indexed = v.indexed;
    } in
    let (r, all, wrote) =
      update_all-Apart c.list slices (copy c).1 updates start
        (get_elem?_bound slices c.list v.held, inl refl) in
    (r, all, wrote.valid, wrote.same)
