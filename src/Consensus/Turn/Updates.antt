-- ===== src/Consensus/Turn/Updates.antt =====
-- The updates of the proposers of a block never miss a candidate.
use rmit.Prelude.{
  ℕ, suc, ◌<◌, ◌≡◌, inl, inr, refl, Bool, true, some, List, [], ◌∷◌, ◌++◌, map, All, In, number_key,
  length, set, get_elem?_lt, get_elem?_bound, get_elem?-set_self, length-set, length-append,
  nat_beq, Bool-cases, arith, sym, ◌∙◌, subst,
}
use rmit.Prelude.Assoc.{lookup, insert, lookup-insert}
use rmit.Poa.Proposer.{Proposer}
use rmit.Poa.Candidates.{Candidate, Candidates, clone_shared, update, index_masters}
use rmit.Poa.Candidates.Copies.{IsValid, clone_shared-cases, cloned, rewritten, update_known}
use rmit.Builtin.Authority.{Authority, update_active}
use rmit.Packer.{update_authority}
use rmit.Consensus.Turn.{passed, apply_updates}

-- The object knows the master.
abbrev pub Knows : Candidates → ℕ → Type 0
Knows c addr = (i : ℕ) × (lookup addr c.masters ≡ some i)

-- What an update keeps of the object.
record Kept (c : Candidates) (r : List (List Candidate) × Candidates × Bool) : Type 0 where
  done : r.2 ≡ true
  valid : IsValid r.0 r.1
  masters : r.1.masters ≡ c.masters

set_kept :
    (slices : List (List Candidate)) (c : Candidates) (list : List Candidate)
    → c.list < length slices
    → ((addr i : ℕ) → lookup addr c.masters ≡ some i → i < length list)
    → IsValid (set slices c.list list) c
set_kept slices c list at indexed = record {
  contents = list;
  held = get_elem?-set_self slices c.list list at;
  indexed = indexed;
}

rewritten-Kept :
    (slices : List (List Candidate)) (c : Candidates) (v : IsValid slices c) (i : ℕ)
    (old : Candidate) (active : Bool)
    → Kept c (rewritten (clone_shared slices c v.contents) v.contents i old active)
rewritten-Kept slices c v i old active =
    let list = set v.contents i (record old { active = active }) in
    let within : (addr j : ℕ) → lookup addr c.masters ≡ some j → j < length list = λ addr j is.
      omega
        (arith, v.indexed addr j is, length-set v.contents i (record old { active = active })) in
    elim (clone_shared-cases slices c v.contents) [
      | inl is ↦
          subst (λ o. Kept c (rewritten o v.contents i old active)) (sym is)
            (record {
              done = refl;
              valid =
                  set_kept (slices ++ v.contents ∷ []) (cloned slices c v.contents).1 list
                    (omega (arith, length-append slices (v.contents ∷ []))) within;
              masters = refl;
            })
      | inr (own, is) ↦
          subst (λ o. Kept c (rewritten o v.contents i old active)) (sym is)
            (record {
              done = refl;
              valid = set_kept slices c list (get_elem?_bound slices c.list v.held) within;
              masters = refl;
            })
    ]

update-Kept :
    (slices : List (List Candidate)) (c : Candidates) (addr : ℕ) (active : Bool)
    → IsValid slices c
    → Knows c addr
    → (r : List (List Candidate) × Candidates × Bool) × (update slices c addr active ≡ some r)
      × Kept c r
update-Kept slices c addr active v (i, known) =
    let (old, at) = get_elem?_lt v.contents i (v.indexed addr i known) in
    (
      rewritten (clone_shared slices c v.contents) v.contents i old active,
      update_known slices c addr active i v.contents old known v.held at,
      rewritten-Kept slices c v i old active,
    )

apply_updates_step :
    (a : Authority) (slices : List (List Candidate)) (c : Candidates) (u : Proposer)
    (us : List Proposer) (r : List (List Candidate) × Candidates × Bool)
    → update slices c u.address u.active ≡ some r
    → r.2 ≡ true
    → apply_updates a slices c (u ∷ us)
      ≡ apply_updates (update_active a u.address u.active).0 r.0 r.1 us
apply_updates_step a slices c u us r done kept = rw (apply_updates, done, kept) refl

-- Updates of masters that a valid object knows do not panic, and the contract is updated in the
-- same way as by a packer.
pub apply_updates-passed :
    (a : Authority) (slices : List (List Candidate)) (c : Candidates) (us : List Proposer)
    → IsValid slices c
    → All (λ u. Knows c u.address) us
    → (s : List (List Candidate)) × (d : Candidates) × (apply_updates a slices c us
        ≡ passed (update_authority a us) s d)
      × IsValid s d
apply_updates-passed a slices c [] v known = (slices, c, refl, v)
apply_updates-passed a slices c (u ∷ us) v (here, known) =
    let (r, done, kept) = update-Kept slices c u.address u.active v here in
    let still : All (λ w. Knows r.1 w.address) us =
      subst (λ ms. All (λ w. (i : ℕ) × (lookup w.address ms ≡ some i)) us) (sym kept.masters)
        known in
    let (s, d, rest, w) =
      apply_updates-passed (update_active a u.address u.active).0 r.0 r.1 us kept.valid still in
    (s, d, apply_updates_step a slices c u us r done kept.done ∙ rest, w)

-- A key that was written stays in the index.
index_masters_keeps :
    (i : ℕ) (list : List Candidate) (masters : List (ℕ × ℕ)) (addr j : ℕ)
    → lookup addr masters ≡ some j
    → (k : ℕ) × (lookup addr (index_masters i list masters) ≡ some k)
index_masters_keeps i [] masters addr j h = (j, h)
index_masters_keeps i (c ∷ rest) masters addr j h =
    let written = lookup-insert c.node_master addr i masters in
    elim (Bool-cases (nat_beq c.node_master addr)) [
      | inl same ↦
          index_masters_keeps (suc i) rest (insert c.node_master i masters) addr i
            (written ∙ rw same refl)
      | inr other ↦
          index_masters_keeps (suc i) rest (insert c.node_master i masters) addr j
            (written ∙ rw other h)
    ]

pub index_masters_known :
    (i : ℕ) (list : List Candidate) (masters : List (ℕ × ℕ)) (addr : ℕ)
    → In addr (map (λ c. c.node_master) list)
    → (k : ℕ) × (lookup addr (index_masters i list masters) ≡ some k)
index_masters_known i [] masters addr m = elim m [ ]
index_masters_known i (c ∷ rest) masters addr (inl is) =
    index_masters_keeps (suc i) rest (insert c.node_master i masters) addr i (
      lookup-insert c.node_master addr i masters
      ∙ rw ((number_key.same_iff c.node_master addr).1 (sym is)) refl)
index_masters_known i (c ∷ rest) masters addr (inr m) =
    index_masters_known (suc i) rest (insert c.node_master i masters) addr m
