-- ===== src/TxPool/ObjectMap/Limits.antt =====
-- The limit of transactions for each account, which `Add` checks.
use rmit.Prelude.{
  ℕ, ◌≤◌, ◌<◌, ◌≡◌, ◌≢◌, Option, some, List, arith, leb, number_key, Option-cases, Bool-cases, inl,
  inr, sym, ◌∙◌, subst, ap,
}
use rmit.TxPool.ObjectMap.{
  TxObject, TxObjectMap, contains_hash, amount, raise, on_accounts, AddResult, store, charge, add,
  delegator_full,
}
use rmit.TxPool.ObjectMap.Amounts.{amount-on_accounts-raise}

-- Under the limit an object that is stored keeps every account within it.
raise_limit :
    (o : TxObject) (q : List (ℕ × ℕ)) (limit a : ℕ)
    → ((x : ℕ) → amount x q ≤ limit)
    → o.delegator ≢ some o.origin
    → amount o.origin q < limit
    → ((d : ℕ) → o.delegator ≡ some d → amount d q < limit)
    → amount a (on_accounts raise o q) ≤ limit
raise_limit o q limit a within apart room open' = elim (Option-cases (o.delegator)) [
  | inl e ↦ ground (arith, e, amount-on_accounts-raise o a q, within a, room)
  | inr (d, e) ↦
      let other : d ≢ o.origin = λ same. apart (e ∙ ap some same) in
      ground (arith, e, amount-on_accounts-raise o a q, within a, room, open' d e, other)
]

module _ {E : Type 0} where
  charge_stored :
      (m : TxObjectMap) (o : TxObject) (validate_payer : ℕ → ℕ → Option E) (m' : TxObjectMap)
      → charge m o validate_payer ≡ AddResult.added m'
      → m'.quota ≡ on_accounts raise o m.quota
  unfolding charge store
  charge_stored m o validate_payer m' h = ground (arith, h)

  -- Where no account is over the limit, `Add` of an object whose delegator is not its origin leaves
  -- no account over it.
  pub add_limit :
      (m : TxObjectMap) (o : TxObject) (limit : ℕ) (validate_payer : ℕ → ℕ → Option E)
      (m' : TxObjectMap) (a : ℕ)
      → ((x : ℕ) → amount x m.quota ≤ limit)
      → o.delegator ≢ some o.origin
      → add m o limit validate_payer ≡ AddResult.added m'
      → amount a m'.quota ≤ limit
  unfolding add delegator_full
  add_limit m o limit validate_payer m' a within apart h =
      elim (Bool-cases (contains_hash m o.hash)) [
        | inl old ↦
            let kept : m.quota ≡ m'.quota = ground (arith, old, h) in
            subst (λ q. amount a q ≤ limit) kept (within a)
        | inr new ↦ elim (Bool-cases (leb limit (amount o.origin m.quota))) [
          | inl full ↦ absurd (ground (arith, new, full, h))
          | inr room ↦ elim (Bool-cases (delegator_full m o limit)) [
            | inl full ↦ absurd (ground (arith, new, room, full, h))
            | inr free ↦
                let charged : charge m o validate_payer ≡ AddResult.added m' =
                  ground (arith, new, room, free, h) in
                subst (λ q. amount a q ≤ limit) (sym (charge_stored m o validate_payer m' charged))
                  (raise_limit o m.quota limit a within apart (ground (arith, room))
                    (λ d e. ground (arith, e, free)))
          ]
        ]
      ]
