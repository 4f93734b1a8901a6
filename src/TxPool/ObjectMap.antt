-- ===== src/TxPool/ObjectMap.antt =====
-- txpool/tx_object_map.go: the transactions of the pool by hash and by id, with the number of
-- transactions and the pending cost of each account. Hashes, ids and accounts are numbers, and so
-- are big integers, since a cost is not negative.
pub mod Amounts
pub mod Counted
pub mod Limits
use rmit.Prelude.{
  ℕ, ◌+◌, ◌-◌, ◌≡◌, Bool, true, false, Option, none, some, List, [], ◌∷◌, leb, ltb, nat_beq,
  if◌then◌else◌, length, map, number_key,
}
use rmit.Prelude.Fallible.{◌>>=◌}
use rmit.Prelude.Assoc.{lookup, insert, delete}

-- What the map reads of a `txObject`; the payer and the cost are nil until it is executable.
pub record TxObject : Type 0 where
  pub hash : ℕ
  pub id : ℕ
  pub origin : ℕ
  pub delegator : Option ℕ
  pub payer : Option ℕ
  pub cost : Option ℕ

pub record TxObjectMap : Type 0 where
  pub by_hash : List (ℕ × TxObject)
  pub by_id : List (ℕ × TxObject)
  pub quota : List (ℕ × ℕ)
  pub cost : List (ℕ × ℕ)

abbrev pub new_tx_object_map : TxObjectMap
new_tx_object_map = record { by_hash = []; by_id = []; quota = []; cost = [] }

unfoldable pub contains_hash : TxObjectMap → ℕ → Bool
contains_hash m hash = elim (lookup hash m.by_hash) [ none ↦ false | some o ↦ true ]

-- An entry of `quota` or `cost` with its zero value.
unfoldable pub amount : ℕ → List (ℕ × ℕ) → ℕ
amount a entries = elim (lookup a entries) [ none ↦ 0 | some n ↦ n ]

unfoldable pub raise : ℕ → List (ℕ × ℕ) → List (ℕ × ℕ)
raise a quota = insert a (amount a quota + 1) quota

unfoldable pub lower : ℕ → List (ℕ × ℕ) → List (ℕ × ℕ)
lower a quota =
    if ltb 1 (amount a quota) then insert a (amount a quota - 1) quota else delete a quota

-- The quota of the origin and then of the delegator, if there is one.
unfoldable pub on_accounts :
    (ℕ → List (ℕ × ℕ) → List (ℕ × ℕ)) → TxObject → List (ℕ × ℕ) → List (ℕ × ℕ)
on_accounts change o quota = elim (o.delegator) [
  | none ↦ change o.origin quota
  | some d ↦ change d (change o.origin quota)
]

-- What `Add` returns: the map afterwards (nil), an error that leaves it alone, or a panic.
pub data AddResult (E : Type 0) : Type 0 where
  added : TxObjectMap → AddResult E
  quota_exceeded : AddResult E
  delegator_quota_exceeded : AddResult E
  rejected : E → AddResult E
  panicked : AddResult E

-- The two checks of the quota in `Add`.
unfoldable pub delegator_full : TxObjectMap → TxObject → ℕ → Bool
delegator_full m o limit = elim (o.delegator) [
  | none ↦ false
  | some d ↦ leb limit (amount d m.quota)
]

-- The writes at the end of `Add`.
unfoldable pub store : TxObjectMap → TxObject → List (ℕ × ℕ) → TxObjectMap
store m o cost = record {
  by_hash = insert o.hash o m.by_hash;
  by_id = insert o.id o m.by_id;
  quota = on_accounts raise o m.quota;
  cost = cost;
}

module _ {E : Type 0} where
  -- `Add` behind the checks of the quota. `validate_payer` is the callback.
  unfoldable pub charge : TxObjectMap → TxObject → (ℕ → ℕ → Option E) → AddResult E
  charge m o validate_payer = elim (o.cost) [
    | none ↦ AddResult.added (store m o m.cost)
    | some c ↦ elim (o.payer) [
      | none ↦ AddResult.panicked
      | some p ↦ elim (validate_payer p (amount p m.cost + c)) [
        | some e ↦ AddResult.rejected e
        | none ↦ AddResult.added (store m o (insert p (amount p m.cost + c) m.cost))
      ]
    ]
  ]

  unfoldable pub add : TxObjectMap → TxObject → ℕ → (ℕ → ℕ → Option E) → AddResult E
  add m o limit validate_payer =
      if contains_hash m o.hash
      then AddResult.added m
      else if leb limit (amount o.origin m.quota)
      then AddResult.quota_exceeded
      else if delegator_full m o limit
      then AddResult.delegator_quota_exceeded
      else charge m o validate_payer

unfoldable pub get_by_id : TxObjectMap → ℕ → Option TxObject
get_by_id m id = lookup id m.by_id

-- The pending costs after a removal; a payer without a cost would panic.
unfoldable pub refund : TxObject → List (ℕ × ℕ) → Option (List (ℕ × ℕ))
refund o cost = elim (o.payer) [
  | none ↦ some cost
  | some p ↦ elim (lookup p cost) [
    | none ↦ some cost
    | some pending ↦
        o.cost >>= λ c. some (if leb pending c then delete p cost else insert p (pending - c) cost)
  ]
]

-- `RemoveByHash`: the map afterwards, and whether the hash was found; `none` is a panic.
unfoldable pub remove_by_hash : TxObjectMap → ℕ → Option (TxObjectMap × Bool)
remove_by_hash m hash = elim (lookup hash m.by_hash) [
  | none ↦ some (m, false)
  | some o ↦ refund o m.cost >>= λ cost. some (
    record {
      by_hash = delete hash m.by_hash;
      by_id = delete o.id m.by_id;
      quota = on_accounts lower o m.quota;
      cost = cost;
    },
    true,
  )
]

unfoldable pub update_pending_cost : TxObjectMap → TxObject → Option TxObjectMap
update_pending_cost m o = do
  p ← o.payer
  c ← o.cost
  some (record m { cost = insert p (amount p m.cost + c) m.cost })

unfoldable pub to_tx_objects : TxObjectMap → List TxObject
to_tx_objects m = map (λ e. e.1) m.by_hash

unfoldable pub fill_one : TxObjectMap → TxObject → TxObjectMap
fill_one m o = if contains_hash m o.hash then m else store m o m.cost

unfoldable pub fill : TxObjectMap → List TxObject → TxObjectMap
fill m [] = m
fill m (o ∷ os) = fill (fill_one m o) os

unfoldable pub len : TxObjectMap → ℕ
len m = length m.by_hash
