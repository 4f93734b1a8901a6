-- ===== src/Packer/Adopt.antt =====
-- packer/flow.go: the adoption of transactions into a block, and the block that `Pack` builds of
-- them; cmd/thor/node/packer_loop.go: the loop over the transactions of the pool.
pub mod Offered
pub mod Limit
use rmit.Prelude.{
  ℕ, ◌+◌, ◌%◌, Bool, true, false, ◌&&◌, not, Option, none, some, List, [], ◌∷◌, ◌++◌, nat_beq, ltb,
  leb, if◌then◌else◌, number_key,
}
use rmit.Prelude.Assoc.{lookup, insert}
use rmit.Thor.{u64_mod}
use rmit.Tx.Gas.{Outside, tx_gas, clause_gas}
use rmit.Tx.Body.{Transaction, Receipt, ref_number, is_expired, test_features}
use rmit.Runtime.{BlockContext, Runtime, Chain, Rules, is_origin_blocked}

-- The block so far. `processed` maps the id of a transaction to whether it was reverted.
pub record Adopting (S : Type 0) : Type 0 where
  pub processed : List (ℕ × Bool)
  pub gas_used : ℕ
  pub txs : List Transaction
  pub receipts : List Receipt
  pub state : S

-- The errors of `Adopt`, and none.
pub data Adoption : Type 0 where
  adopted : Adoption
  bad_tx : Adoption
  not_adoptable_now : Adoption
  not_adoptable_forever : Adoption
  gas_limit_reached : Adoption
  known_tx : Adoption
  failed : Adoption

-- `newFlow`
unfoldable pub new_flow : {S : Type 0} → S → Adopting S
new_flow s = record { processed = []; gas_used = 0; txs = []; receipts = []; state = s }

-- The origin of a bad signature is taken as the zero address here.
abbrev pub origin_or_zero : Option ℕ → ℕ
origin_or_zero none = 0
origin_or_zero (some origin) = origin

-- The checks before a transaction is looked up: `none` where they pass.
unfoldable pub check_adoptable :
    Rules → Outside → BlockContext → ℕ → ℕ → Transaction → Option Adoption
check_adoptable rules o ctx features gas_used t =
    if leb rules.blocklist_fork ctx.number
      && is_origin_blocked rules.blocklist (origin_or_zero t.origin)
    then some bad_tx
    else if not (test_features features t)
    then some bad_tx
    else if not (nat_beq t.chain_tag rules.chain_tag)
    then some bad_tx
    else if ltb ctx.number (ref_number t)
    then some not_adoptable_now
    else if is_expired t ctx.number
    then some bad_tx
    else if ltb ctx.gas_limit ((gas_used + t.gas) % u64_mod)
    then (if leb ((gas_used + tx_gas + clause_gas o) % u64_mod) ctx.gas_limit
        then some not_adoptable_now
        else some gas_limit_reached)
    else none

module _ (chain : Chain) where
  unfoldable pub has_tx : List (ℕ × Bool) → ℕ → ℕ → Option Bool
  has_tx processed id block_ref = elim (lookup id processed) [
    | some reverted ↦ some true
    | none ↦ chain.has_transaction id block_ref
  ]

  -- Whether a transaction is found, and whether it was reverted.
  unfoldable pub find_dep : List (ℕ × Bool) → ℕ → Option (Bool × Bool)
  find_dep processed id = elim (lookup id processed) [
    | some reverted ↦ some (true, reverted)
    | none ↦ elim (chain.transaction_meta id) [
      | none ↦ none
      | some none ↦ some (false, false)
      | some (some reverted) ↦ some (true, reverted)
    ]
  ]

  unfoldable pub check_known : List (ℕ × Bool) → Transaction → Option Adoption
  check_known processed t = elim (has_tx processed t.id (ref_number t)) [
    | none ↦ some failed
    | some true ↦ some known_tx
    | some false ↦ none
  ]

  unfoldable pub check_depends : List (ℕ × Bool) → Transaction → Option Adoption
  check_depends processed t = elim (t.depends_on) [
    | none ↦ none
    | some id ↦ elim (find_dep processed id) [
      | none ↦ some failed
      | some (found, reverted) ↦
          if not found
          then some not_adoptable_now
          else if reverted
          then some not_adoptable_forever
          else none
    ]
  ]

-- What the loop does with the result of `Adopt`: from the next block and the rest of the loop.
abbrev pub after_adopt :
    {S : Type 0}
    → Transaction
    → Adopting S
    → Adopting S × List Transaction
    → Adoption
    → Adopting S × List Transaction
after_adopt t next rest adopted = rest
after_adopt t next rest gas_limit_reached = (next, [])
after_adopt t next rest not_adoptable_now = rest
after_adopt t next rest bad_tx = (rest.0, t ∷ rest.1)
after_adopt t next rest not_adoptable_forever = (rest.0, t ∷ rest.1)
after_adopt t next rest known_tx = (rest.0, t ∷ rest.1)
after_adopt t next rest failed = (rest.0, t ∷ rest.1)

module _ {S : Type 0} (m : Runtime S) (chain : Chain) (rules : Rules) (o : Outside)
    (ctx : BlockContext) (features : ℕ) where
  -- `Adopt` from the checkpoint on.
  unfoldable pub execute_tx : Adopting S → Transaction → Adopting S × Adoption
  execute_tx a t =
      let (s, checkpoint) = m.new_checkpoint a.state in
      let (s', done) = m.execute ctx s t in
      elim done [
        | none ↦ (record a { state = m.revert_to s' checkpoint }, bad_tx)
        | some receipt ↦ (
          record {
            processed = insert t.id receipt.reverted a.processed;
            gas_used = (a.gas_used + receipt.gas_used) % u64_mod;
            txs = a.txs ++ t ∷ [];
            receipts = a.receipts ++ receipt ∷ [];
            state = s';
          },
          adopted,
        )
      ]

  unfoldable pub adopt : Adopting S → Transaction → Adopting S × Adoption
  adopt a t = elim (check_adoptable rules o ctx features a.gas_used t) [
    | some refusal ↦ (a, refusal)
    | none ↦ elim (check_known chain a.processed t) [
      | some refusal ↦ (a, refusal)
      | none ↦ elim (check_depends chain a.processed t) [
        | some refusal ↦ (a, refusal)
        | none ↦ execute_tx a t
      ]
    ]
  ]

  -- The loop over the transactions, with those to remove from the pool.
  unfoldable pub adopt_all : Adopting S → List Transaction → Adopting S × List Transaction
  adopt_all a [] = (a, [])
  adopt_all a (t ∷ ts) =
      let (next, result) = adopt a t in after_adopt t next (adopt_all next ts) result

-- A block with the fields of its header that the validation of its transactions reads; `signer` is
-- the one that its signature recovers.
pub record Block : Type 0 where
  pub id : ℕ
  pub context : BlockContext
  pub features : ℕ
  pub txs_root : ℕ
  pub gas_used : ℕ
  pub receipts_root : ℕ
  pub state_root : ℕ
  pub txs : List Transaction

-- The root hashes of transactions and of receipts.
pub record Roots : Type 0 where
  pub of_txs : List Transaction → ℕ
  pub of_receipts : List Receipt → ℕ

-- The builder of `Pack`, on a staged state; `id` is the hash of the signed header.
unfoldable pub build : {S : Type 0} → Roots → BlockContext → ℕ → Adopting S → ℕ → ℕ → Block
build roots ctx features a state_root id = record {
  id = id;
  context = ctx;
  features = features;
  txs_root = roots.of_txs a.txs;
  gas_used = a.gas_used;
  receipts_root = roots.of_receipts a.receipts;
  state_root = state_root;
  txs = a.txs;
}
