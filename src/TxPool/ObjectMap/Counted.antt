-- ===== src/TxPool/ObjectMap/Counted.antt =====
-- The quota and the pending cost of the pool count the transactions that are mapped.
use rmit.Prelude.{
  ℕ, ◌+◌, ◌≡◌, false, Option, none, some, List, [], ◌∷◌, arith, leb, nat_beq, number_key,
  Option-cases, Bool-cases, inl, inr, sym, subst, same_refl,
}
use rmit.Prelude.Assoc.{lookup, insert, delete, lookup-insert, lookup-delete, lookup_of_delete}
use rmit.Prelude.Totals.{
  total, Distinct, insert-Distinct, delete-Distinct, total-insert, total-delete,
}
use rmit.TxPool.ObjectMap.{
  TxObject, TxObjectMap, contains_hash, amount, lower, on_accounts, AddResult, store, charge, add,
  remove_by_hash, fill_one, fill, delegator_full,
}
use rmit.TxPool.ObjectMap.Amounts.{
  uses, owes, IsSettled, amount-insert, amount-on_accounts-raise, amount-on_accounts-lower,
  refund-amount,
}

-- For each account the quota is the number of mapped transactions that it is the origin or the
-- delegator of, and the pending cost is the sum of what it pays for.
pub record IsValid (m : TxObjectMap) : Type 0 where
  pub distinct : Distinct m.by_hash
  pub quota : (a : ℕ) → amount a m.quota ≡ total (uses a) m.by_hash
  pub cost : (a : ℕ) → amount a m.cost ≡ total (owes a) m.by_hash
  pub settled : (h : ℕ) (o : TxObject) → lookup h m.by_hash ≡ some o → IsSettled o

contains_hash-none :
    (m : TxObjectMap) (h : ℕ) → contains_hash m h ≡ false → lookup h m.by_hash ≡ none
unfolding contains_hash
contains_hash-none m h e = ground (arith, e)

store-IsValid :
    (m : TxObjectMap) (o : TxObject) (cost : List (ℕ × ℕ))
    → IsValid m
    → IsSettled o
    → lookup o.hash m.by_hash ≡ none
    → ((a : ℕ) → amount a cost ≡ owes a o + amount a m.cost)
    → IsValid (store m o cost)
unfolding store
store-IsValid m o cost valid settled new paid = record {
  distinct = insert-Distinct o.hash o m.by_hash valid.distinct;
  quota = λ a. omega (
    arith,
    amount-on_accounts-raise o a m.quota,
    valid.quota a,
    total-insert (uses a) o.hash o m.by_hash new,
  );
  cost = λ a. omega (arith, paid a, valid.cost a, total-insert (owes a) o.hash o m.by_hash new);
  settled = λ h o' found. elim (Bool-cases (nat_beq o.hash h)) [
    | inl here ↦
        let own : o ≡ o' = ground (arith, here, found, lookup-insert o.hash h o m.by_hash) in
        subst IsSettled own settled
    | inr there ↦
        valid.settled h o' (ground (arith, there, found, lookup-insert o.hash h o m.by_hash))
  ];
}

unsettled : (o : TxObject) → o.payer ≡ none → IsSettled o → o.cost ≡ none
unsettled o e settled = rw e at settled

module _ {E : Type 0} where
  -- What `Add` may return on a settled object: a valid map or an error, never a panic.
  abbrev pub AddOk : AddResult E → Type 0
  AddOk (AddResult.added m) = IsValid m
  AddOk AddResult.panicked = ⊥
  AddOk _ = Unit

  charge-AddOk :
      (m : TxObjectMap) (o : TxObject) (validate_payer : ℕ → ℕ → Option E)
      → IsValid m
      → IsSettled o
      → lookup o.hash m.by_hash ≡ none
      → AddOk (charge m o validate_payer)
  unfolding charge
  charge-AddOk m o validate_payer valid settled new = elim (Option-cases (o.cost)) [
    | inl ec ↦
        let done : charge m o validate_payer ≡ AddResult.added (store m o m.cost) =
          ground (arith, ec) in
        let free : (a : ℕ) → owes a o ≡ 0 = λ a. ground (arith, ec) in
        subst AddOk (sym done)
          (store-IsValid m o m.cost valid settled new (λ a. omega (arith, free a)))
    | inr (c, ec) ↦ elim (Option-cases (o.payer)) [
      | inl ep ↦ absurd (ground (arith, ep, ec, unsettled o ep settled))
      | inr (p, ep) ↦ elim (Option-cases (validate_payer p (amount p m.cost + c))) [
        | inr (e, refused) ↦
            let done : charge m o validate_payer ≡ AddResult.rejected e =
              ground (arith, ec, ep, refused) in
            subst AddOk (sym done) tt
        | inl accepted ↦
            let cost = insert p (amount p m.cost + c) m.cost in
            let done : charge m o validate_payer ≡ AddResult.added (store m o cost) =
              ground (arith, ec, ep, accepted) in
            let paid : (a : ℕ) → amount a cost ≡ owes a o + amount a m.cost =
              λ a. ground (arith, ec, ep, amount-insert p a (amount p m.cost + c) m.cost) in
            subst AddOk (sym done) (store-IsValid m o cost valid settled new paid)
      ]
    ]
  ]

  -- `Add` of a settled object does not panic, and a map that it returns is valid: the quotas and the
  -- pending costs count the new object.
  pub add-AddOk :
      (m : TxObjectMap) (o : TxObject) (limit : ℕ) (validate_payer : ℕ → ℕ → Option E)
      → IsValid m
      → IsSettled o
      → AddOk (add m o limit validate_payer)
  unfolding add
  add-AddOk m o limit validate_payer valid settled = elim (Bool-cases (contains_hash m o.hash)) [
    | inl old ↦
        let done : add m o limit validate_payer ≡ AddResult.added m = ground (arith, old) in
        subst AddOk (sym done) valid
    | inr new ↦ elim (Bool-cases (leb limit (amount o.origin m.quota))) [
      | inl full ↦
          let done : add m o limit validate_payer ≡ AddResult.quota_exceeded =
            ground (arith, new, full) in
          subst AddOk (sym done) tt
      | inr room ↦ elim (Bool-cases (delegator_full m o limit)) [
        | inl full ↦
            let done : add m o limit validate_payer ≡ AddResult.delegator_quota_exceeded =
              ground (arith, new, room, full) in
            subst AddOk (sym done) tt
        | inr free ↦
            let done : add m o limit validate_payer ≡ charge m o validate_payer =
              ground (arith, new, room, free) in
            subst AddOk (sym done)
              (charge-AddOk m o validate_payer valid settled (contains_hash-none m o.hash new))
      ]
    ]
  ]

-- `RemoveByHash` on a valid map does not panic. It tells whether the hash was mapped, and
-- afterwards the map is valid and does not hold it.
pub remove_by_hash-IsValid :
    (m : TxObjectMap) (h : ℕ)
    → IsValid m
    → (m' : TxObjectMap) × (remove_by_hash m h ≡ some (m', contains_hash m h))
      × IsValid m'
      × (contains_hash m' h ≡ false)
unfolding remove_by_hash contains_hash
remove_by_hash-IsValid m h valid = elim (Option-cases (lookup h m.by_hash)) [
  | inl e ↦ (m, ground (arith, e), valid, ground (arith, e))
  | inr (o, e) ↦
      let (cost, refunded, paid) = refund-amount o m.cost (valid.settled h o e) in
      (
        record {
          by_hash = delete h m.by_hash;
          by_id = delete o.id m.by_id;
          quota = on_accounts lower o m.quota;
          cost = cost;
        },
        ground (arith, e, refunded),
        record {
          distinct = delete-Distinct h m.by_hash valid.distinct;
          quota = λ a. omega (
            arith,
            amount-on_accounts-lower o a m.quota,
            valid.quota a,
            total-delete (uses a) h m.by_hash valid.distinct e,
          );
          cost = λ a.
              omega
                (arith, paid a, valid.cost a, total-delete (owes a) h m.by_hash valid.distinct e);
          settled = λ h' o' found. valid.settled h' o' (lookup_of_delete h h' o' m.by_hash found);
        },
        ground (arith, lookup-delete h h m.by_hash, same_refl h),
      )
]

-- No object of a batch has a payer or a cost yet.
abbrev pub AllUnpaid : List TxObject → Type 0
AllUnpaid [] = Unit
AllUnpaid (o ∷ os) = (o.payer ≡ none) × (o.cost ≡ none) × AllUnpaid os

-- `Fill`, which leaves the pending costs alone, keeps a map valid if no object of the batch has a
-- payer or a cost yet.
pub fill-IsValid :
    (m : TxObjectMap) (os : List TxObject) → IsValid m → AllUnpaid os → IsValid (fill m os)
unfolding fill fill_one
fill-IsValid m [] valid unpaid = valid
fill-IsValid m (o ∷ os) valid (ep, ec, unpaid) =
    fill-IsValid (fill_one m o) os
      (elim (Bool-cases (contains_hash m o.hash)) [
        | inl old ↦ subst IsValid (ground (arith, old)) valid
        | inr new ↦ subst IsValid (ground (arith, new)) (
            store-IsValid m o m.cost valid (rw ep ec) (contains_hash-none m o.hash new)
              (λ a. ground (arith, ep)))
      ])
      unpaid
