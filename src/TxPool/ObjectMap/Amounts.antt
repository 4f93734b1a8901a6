-- ===== src/TxPool/ObjectMap/Amounts.antt =====
-- What one object of the pool adds to the quota and the pending cost of an account.
use rmit.Prelude.{
  ℕ, ◌+◌, ◌-◌, ◌≡◌, none, some, List, arith, leb, nat_beq, if◌then◌else◌, number_key, Option-cases,
  inl, inr,
}
use rmit.Prelude.Assoc.{lookup, insert, delete, lookup-insert, lookup-delete}
use rmit.TxPool.ObjectMap.{TxObject, amount, raise, lower, on_accounts, refund}

-- How often the object counts for the account: as origin and as delegator.
abbrev pub uses : ℕ → TxObject → ℕ
uses a o =
    (if nat_beq o.origin a then 1 else 0)
    + elim (o.delegator) [ none ↦ 0 | some d ↦ if nat_beq d a then 1 else 0 ]

abbrev pub cost_of : TxObject → ℕ
cost_of o = elim (o.cost) [ none ↦ 0 | some c ↦ c ]

-- What the account owes for the object, as its payer.
abbrev pub owes : ℕ → TxObject → ℕ
owes a o = elim (o.payer) [ none ↦ 0 | some p ↦ if nat_beq p a then cost_of o else 0 ]

-- `Executable` sets the payer and the cost together.
abbrev pub IsSettled : TxObject → Type 0
IsSettled o = elim (o.payer) [ none ↦ o.cost ≡ none | some p ↦ (c : ℕ) × (o.cost ≡ some c) ]

pub amount-insert :
    (k a v : ℕ) (q : List (ℕ × ℕ))
    → amount a (insert k v q) ≡ (if nat_beq k a then v else amount a q)
unfolding amount
amount-insert k a v q = ground (arith, lookup-insert k a v q)

amount-delete :
    (k a : ℕ) (q : List (ℕ × ℕ)) → amount a (delete k q) ≡ (if nat_beq k a then 0 else amount a q)
unfolding amount
amount-delete k a q = ground (arith, lookup-delete k a q)

amount-raise :
    (k a : ℕ) (q : List (ℕ × ℕ))
    → amount a (raise k q) ≡ amount a q + (if nat_beq k a then 1 else 0)
unfolding raise
amount-raise k a q = ground (arith, amount-insert k a (amount k q + 1) q)

amount-lower :
    (k a : ℕ) (q : List (ℕ × ℕ))
    → amount a (lower k q) ≡ amount a q - (if nat_beq k a then 1 else 0)
unfolding lower
amount-lower k a q = ground (arith, amount-insert k a (amount k q - 1) q, amount-delete k a q)

pub amount-on_accounts-raise :
    (o : TxObject) (a : ℕ) (q : List (ℕ × ℕ))
    → amount a (on_accounts raise o q) ≡ uses a o + amount a q
unfolding on_accounts
amount-on_accounts-raise o a q = elim (Option-cases (o.delegator)) [
  | inl e ↦ rw e (ground (arith, e, amount-raise o.origin a q))
  | inr (d, e) ↦
      rw e (ground (arith, e, amount-raise o.origin a q, amount-raise d a (raise o.origin q)))
]

pub amount-on_accounts-lower :
    (o : TxObject) (a : ℕ) (q : List (ℕ × ℕ))
    → amount a (on_accounts lower o q) ≡ amount a q - uses a o
unfolding on_accounts
amount-on_accounts-lower o a q = elim (Option-cases (o.delegator)) [
  | inl e ↦ rw e (ground (arith, e, amount-lower o.origin a q))
  | inr (d, e) ↦
      rw e (ground (arith, e, amount-lower o.origin a q, amount-lower d a (lower o.origin q)))
]

pub settled_cost :
    (o : TxObject) {p : ℕ} → o.payer ≡ some p → IsSettled o → (c : ℕ) × (o.cost ≡ some c)
settled_cost o e settled = rw e at settled

-- The refund of a settled object succeeds and takes what each account owes for it.
pub refund-amount :
    (o : TxObject) (cost : List (ℕ × ℕ))
    → IsSettled o
    → (cost' : List (ℕ × ℕ)) × (refund o cost ≡ some cost')
      × ((a : ℕ) → amount a cost' ≡ amount a cost - owes a o)
unfolding refund amount
refund-amount o cost settled = elim (Option-cases (o.payer)) [
  | inl e ↦ (cost, ground (arith, e), λ a. ground (arith, e))
  | inr (p, e) ↦ elim (Option-cases (lookup p cost)) [
    | inl n ↦ (cost, ground (arith, e, n), λ a. ground (arith, e, n))
    | inr (pending, s) ↦
        let (c, ec) = settled_cost o e settled in
        (
          if leb pending c then delete p cost else insert p (pending - c) cost,
          ground (arith, e, s, ec),
          λ a.
              ground
                (arith, e, s, ec, lookup-insert p a (pending - c) cost, lookup-delete p a cost),
        )
  ]
]
