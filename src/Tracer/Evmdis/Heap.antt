-- ===== src/Tracer/Evmdis/Heap.antt =====
-- The property `ops` of the record at an index, under the writes of a step.
use rmit.Prelude.{
  ℕ, zero, suc, ◌<◌, ◌≡◌, refl, ◌≢◌, Option, none, some, List, [], ◌∷◌, ◌++◌, arith, length,
  get_elem?, set, ◌+◌, count_if, nat_beq, ap,
}
use rmit.Prelude.Fallible.{some_eq}
use rmit.Tracer.Evmdis.{Slot, held, OpInfo}

abbrev pub ops_at : List OpInfo → ℕ → Option (Slot (List ℕ))
ops_at [] i = none
ops_at (o ∷ heap) zero = some o.ops
ops_at (o ∷ heap) (suc i) = ops_at heap i

pub ops_at-get_elem? :
    (heap : List OpInfo) (i : ℕ) {o : OpInfo}
    → get_elem? heap i ≡ some o
    → ops_at heap i ≡ some o.ops
ops_at-get_elem? [] i h = absurd (cc)
ops_at-get_elem? (o ∷ heap) zero h = ground arith
ops_at-get_elem? (o ∷ heap) (suc i) h = ops_at-get_elem? heap i h

pub get_elem?-ops_at :
    (heap : List OpInfo) (i : ℕ) {s : Slot (List ℕ)}
    → ops_at heap i ≡ some s
    → (o : OpInfo) × (get_elem? heap i ≡ some o) × (o.ops ≡ s)
get_elem?-ops_at [] i h = absurd (cc)
get_elem?-ops_at (o ∷ heap) zero h = (o, refl, ground arith)
get_elem?-ops_at (o ∷ heap) (suc i) h = get_elem?-ops_at heap i h

pub ops_at-set_self :
    (heap : List OpInfo) (i : ℕ) (o : OpInfo)
    → i < length heap
    → ops_at (set heap i o) i ≡ some o.ops
ops_at-set_self [] i o h = elim h [ ]
ops_at-set_self (x ∷ heap) zero o h = refl
ops_at-set_self (x ∷ heap) (suc i) o h = ops_at-set_self heap i o (omega arith)

pub ops_at-set_ne :
    (heap : List OpInfo) (i j : ℕ) (o : OpInfo) → i ≢ j → ops_at (set heap i o) j ≡ ops_at heap j
ops_at-set_ne [] i j o h = refl
ops_at-set_ne (x ∷ heap) zero zero o h = absurd (h refl)
ops_at-set_ne (x ∷ heap) zero (suc j) o h = refl
ops_at-set_ne (x ∷ heap) (suc i) zero o h = refl
ops_at-set_ne (x ∷ heap) (suc i) (suc j) o h = ops_at-set_ne heap i j o (λ e. h (omega arith))

-- A write that leaves `ops` alone.
pub ops_at-set_same :
    (heap : List OpInfo) (i j : ℕ) (o : OpInfo)
    → ops_at heap i ≡ some o.ops
    → ops_at (set heap i o) j ≡ ops_at heap j
ops_at-set_same [] i j o h = refl
ops_at-set_same (x ∷ heap) zero zero o h = ground arith
ops_at-set_same (x ∷ heap) zero (suc j) o h = refl
ops_at-set_same (x ∷ heap) (suc i) zero o h = refl
ops_at-set_same (x ∷ heap) (suc i) (suc j) o h = ops_at-set_same heap i j o h

pub ops_at-append_old :
    (heap : List OpInfo) (o : OpInfo) (i : ℕ)
    → i < length heap
    → ops_at (heap ++ o ∷ []) i ≡ ops_at heap i
ops_at-append_old [] o i h = elim h [ ]
ops_at-append_old (x ∷ heap) o zero h = refl
ops_at-append_old (x ∷ heap) o (suc i) h = ops_at-append_old heap o i (omega arith)

pub ops_at-append_new :
    (heap : List OpInfo) (o : OpInfo) → ops_at (heap ++ o ∷ []) (length heap) ≡ some o.ops
ops_at-append_new [] o = refl
ops_at-append_new (x ∷ heap) o = ops_at-append_new heap o

pub ops_at_bound :
    (heap : List OpInfo) (i : ℕ) {s : Slot (List ℕ)} → ops_at heap i ≡ some s → i < length heap
ops_at_bound [] i h = absurd (cc)
ops_at_bound (x ∷ heap) zero h = omega arith
ops_at_bound (x ∷ heap) (suc i) h = omega (arith, ops_at_bound heap i h)

-- The entries of all `ops`, by what each counts for.
abbrev pub sum_ops : (Slot (List ℕ) → ℕ) → List OpInfo → ℕ
sum_ops g [] = 0
sum_ops g (o ∷ heap) = g o.ops + sum_ops g heap

pub sum_ops-set :
    (g : Slot (List ℕ) → ℕ) (heap : List OpInfo) (i : ℕ) (o : OpInfo) {old : Slot (List ℕ)}
    → ops_at heap i ≡ some old
    → sum_ops g (set heap i o) + g old ≡ sum_ops g heap + g o.ops
sum_ops-set g [] i o h = absurd (cc)
sum_ops-set g (x ∷ heap) zero o {old} h =
    let same : g x.ops ≡ g old = ap g (some_eq h) in omega (arith, same)
sum_ops-set g (x ∷ heap) (suc i) o h = omega (arith, sum_ops-set g heap i o h)

pub sum_ops-append :
    (g : Slot (List ℕ) → ℕ) (heap : List OpInfo) (o : OpInfo)
    → sum_ops g (heap ++ o ∷ []) ≡ sum_ops g heap + g o.ops
sum_ops-append g [] o = omega arith
sum_ops-append g (x ∷ heap) o = omega (arith, sum_ops-append g heap o)

-- How often a record stands in the `ops` of another.
abbrev pub times_in : ℕ → Slot (List ℕ) → ℕ
times_in i (held ids) = count_if (nat_beq i) ids
times_in i _ = 0

-- How many entries they have.
abbrev pub entries_in : Slot (List ℕ) → ℕ
entries_in (held ids) = length ids
entries_in _ = 0
