-- ===== src/Tests/Pools.antt =====
-- The map of pool objects with two transactions, one of them delegated.
use rmit.Prelude.{
  ℕ, ◌≡◌, ◌≤◌, refl, false, Option, none, some, [], ◌∷◌, arith, if◌then◌else◌, number_key, ltb,
}
use rmit.Prelude.Assoc.{lookup, insert}
use rmit.TxPool.ObjectMap.{
  TxObject, TxObjectMap, new_tx_object_map, contains_hash, amount, raise, on_accounts, AddResult,
  store, charge, add, remove_by_hash, fill, delegator_full,
}
use rmit.TxPool.ObjectMap.Counted.{IsValid, AddOk, add-AddOk, remove_by_hash-IsValid, fill-IsValid}
use rmit.TxPool.ObjectMap.Limits.{add_limit}

abbrev plain : TxObject
plain = record { hash = 11; id = 21; origin = 1; delegator = none; payer = some 1; cost = some 5 }

abbrev delegated : TxObject
delegated = record {
  hash = 12;
  id = 22;
  origin = 1;
  delegator = some 2;
  payer = some 2;
  cost = some 8;
}

abbrev pending : TxObject
pending = record { hash = 13; id = 23; origin = 3; delegator = none; payer = none; cost = none }

abbrev balance_check : ℕ → ℕ → Option ℕ
balance_check payer needs = if ltb 100 needs then some payer else none

abbrev one_tx : TxObjectMap
one_tx = record {
  by_hash = (11, plain) ∷ [];
  by_id = (21, plain) ∷ [];
  quota = (1, 1) ∷ [];
  cost = (1, 5) ∷ [];
}

one_tx_test : add new_tx_object_map plain 2 balance_check ≡ AddResult.added one_tx
unfolding add charge store on_accounts raise amount insert lookup contains_hash delegator_full
one_tx_test = refl

one_tx-IsValid : IsValid one_tx
unfolding add charge store on_accounts raise amount insert lookup contains_hash delegator_full
one_tx-IsValid =
    add-AddOk new_tx_object_map plain 2 balance_check
      (record {
        distinct = tt;
        quota = λ a. refl;
        cost = λ a. refl;
        settled = λ h o e. absurd (cc);
      })
      (5, refl)

abbrev two_txs : TxObjectMap
two_txs = record {
  by_hash = (11, plain) ∷ (12, delegated) ∷ [];
  by_id = (21, plain) ∷ (22, delegated) ∷ [];
  quota = (1, 2) ∷ (2, 1) ∷ [];
  cost = (1, 5) ∷ (2, 8) ∷ [];
}

two_txs_test : add one_tx delegated 2 balance_check ≡ AddResult.added two_txs
unfolding add charge store on_accounts raise amount insert lookup contains_hash delegator_full
two_txs_test = refl

full_test : add two_txs pending 0 balance_check ≡ AddResult.quota_exceeded
unfolding add amount lookup contains_hash
full_test = refl

-- An account that delegates its own transaction takes two places although one is left.
own_delegator_test :
    add new_tx_object_map (record plain { delegator = some 1 }) 1 balance_check
    ≡ AddResult.added (record {
      by_hash = (11, record plain { delegator = some 1 }) ∷ [];
      by_id = (21, record plain { delegator = some 1 }) ∷ [];
      quota = (1, 2) ∷ [];
      cost = (1, 5) ∷ [];
    })
unfolding add charge store on_accounts raise amount insert lookup contains_hash delegator_full
own_delegator_test = refl

add-AddOk_example : AddOk (add one_tx delegated 2 balance_check)
add-AddOk_example = add-AddOk one_tx delegated 2 balance_check one_tx-IsValid (8, refl)

remove_by_hash-IsValid_example :
    (m' : TxObjectMap) × (remove_by_hash one_tx 11 ≡ some (m', contains_hash one_tx 11))
    × IsValid m'
    × (contains_hash m' 11 ≡ false)
remove_by_hash-IsValid_example = remove_by_hash-IsValid one_tx 11 one_tx-IsValid

fill-IsValid_test : IsValid (fill one_tx (pending ∷ []))
fill-IsValid_test = fill-IsValid one_tx (pending ∷ []) one_tx-IsValid (refl, refl, tt)

one_tx_within : (x : ℕ) → amount x one_tx.quota ≤ 2
unfolding amount lookup
one_tx_within x = ground arith

add_limit_example : amount 1 two_txs.quota ≤ 2
add_limit_example =
    add_limit one_tx delegated 2 balance_check two_txs 1 one_tx_within (λ e. ground arith)
      two_txs_test
