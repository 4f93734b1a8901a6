-- ===== src/Consensus/Body.antt =====
-- consensus/validator.go: the checks of the transactions of a block, `validateBlockBody`, and their
-- execution, `verifyBlock`.
pub mod Adopted
pub mod Packed
use rmit.Prelude.{
  ℕ, ◌+◌, ◌%◌, Bool, true, false, ◌&&◌, ◌||◌, not, Option, none, some, List, [], ◌∷◌, ◌++◌, nat_beq,
  ltb, leb, if◌then◌else◌, number_key,
}
use rmit.Prelude.Assoc.{lookup, insert}
use rmit.Thor.{u64_mod}
use rmit.Tx.Body.{Transaction, Receipt, ref_number, is_expired, test_features}
use rmit.Runtime.{BlockContext, Runtime, Chain, Rules, is_origin_blocked}
use rmit.Packer.Adopt.{Block, Roots}

-- `unavailable` is an error that does not condemn the block.
pub data Fault : Type 0 where
  txs_root_mismatch : Fault
  tx_signer_unavailable : Fault
  tx_origin_blocked : Fault
  tx_chain_tag_mismatch : Fault
  tx_ref_future_block : Fault
  tx_expired : Fault
  tx_invalid : Fault
  tx_exists : Fault
  tx_dep_broken : Fault
  tx_dep_reverted : Fault
  gas_used_mismatch : Fault
  receipts_root_mismatch : Fault
  state_root_mismatch : Fault
  unavailable : Fault

-- The body of the loop of `validateBlockBody`: `none` where it goes on.
unfoldable pub check_tx : Rules → ℕ → ℕ → Transaction → Option Fault
check_tx rules number features t = elim (t.origin) [
  | none ↦ some tx_signer_unavailable
  | some origin ↦
      if leb rules.blocklist_fork number && is_origin_blocked rules.blocklist origin
      then some tx_origin_blocked
      else if not (nat_beq t.chain_tag rules.chain_tag)
      then some tx_chain_tag_mismatch
      else if ltb number (ref_number t)
      then some tx_ref_future_block
      else if is_expired t number
      then some tx_expired
      else if not (test_features features t)
      then some tx_invalid
      else none
]

unfoldable pub check_txs : Rules → ℕ → ℕ → List Transaction → Option Fault
check_txs rules number features [] = none
check_txs rules number features (t ∷ ts) = elim (check_tx rules number features t) [
  | some fault ↦ some fault
  | none ↦ check_txs rules number features ts
]

unfoldable pub validate_block_body : Rules → Roots → Block → Option Fault
validate_block_body rules roots blk =
    if not (nat_beq blk.txs_root (roots.of_txs blk.txs))
    then some txs_root_mismatch
    else check_txs rules blk.context.number blk.features blk.txs

-- A result, or an error.
pub data Verified (A : Type 0) : Type 0 where
  verified : A → Verified A
  refused : Fault → Verified A

-- The variables of the loop of `verifyBlock`.
pub record Replay (S : Type 0) : Type 0 where
  pub processed : List (ℕ × Bool)
  pub total_gas_used : ℕ
  pub receipts : List Receipt
  pub state : S

module _ (chain : Chain) where
  unfoldable pub has_tx : List (ℕ × Bool) → ℕ → ℕ → Option Bool
  has_tx processed id block_ref = elim (lookup id processed) [
    | some reverted ↦ some true
    | none ↦ chain.has_transaction id block_ref
  ]

  unfoldable pub find_dep : List (ℕ × Bool) → ℕ → Option (Bool × Bool)
  find_dep processed id = elim (lookup id processed) [
    | some reverted ↦ some (true, reverted)
    | none ↦ elim (chain.transaction_meta id) [
      | none ↦ none
      | some none ↦ some (false, false)
      | some (some reverted) ↦ some (true, reverted)
    ]
  ]

  -- The checks of a transaction before its execution.
  unfoldable pub check_known : List (ℕ × Bool) → Transaction → Option Fault
  check_known processed t = elim (has_tx processed t.id (ref_number t)) [
    | none ↦ some unavailable
    | some true ↦ some tx_exists
    | some false ↦ none
  ]

  unfoldable pub check_depends : List (ℕ × Bool) → Transaction → Option Fault
  check_depends processed t = elim (t.depends_on) [
    | none ↦ none
    | some id ↦ elim (find_dep processed id) [
      | none ↦ some unavailable
      | some (found, reverted) ↦
          if not found then some tx_dep_broken else if reverted then some tx_dep_reverted else none
    ]
  ]

module _ {S : Type 0} (m : Runtime S) (chain : Chain) where
  abbrev pub replayed : Replay S → Transaction → S × Option Receipt → Verified (Replay S)
  replayed r t (s, none) = refused unavailable
  replayed r t (s, some receipt) = verified (record {
    processed = insert t.id receipt.reverted r.processed;
    total_gas_used = (r.total_gas_used + receipt.gas_used) % u64_mod;
    receipts = r.receipts ++ receipt ∷ [];
    state = s;
  })

  -- The body of the loop of `verifyBlock`.
  unfoldable pub verify_tx : BlockContext → Replay S → Transaction → Verified (Replay S)
  verify_tx ctx r t = elim (check_known chain r.processed t) [
    | some fault ↦ refused fault
    | none ↦ elim (check_depends chain r.processed t) [
      | some fault ↦ refused fault
      | none ↦ replayed r t (m.execute ctx r.state t)
    ]
  ]

  unfoldable pub verify_txs : BlockContext → Replay S → List Transaction → Verified (Replay S)
  verify_txs ctx r [] = verified r
  verify_txs ctx r (t ∷ ts) = elim (verify_tx ctx r t) [
    | refused fault ↦ refused fault
    | verified next ↦ verify_txs ctx next ts
  ]

  -- `correct` are the known roots of receipts by the id of their block.
  unfoldable pub receipts_agree : Roots → List (ℕ × ℕ) → Block → List Receipt → Bool
  receipts_agree roots correct blk receipts =
      nat_beq blk.receipts_root (roots.of_receipts receipts) || (elim (lookup blk.id correct) [
        | none ↦ false
        | some root ↦ nat_beq root (roots.of_receipts receipts)
      ])

  -- What follows the loop: the root of the staged state and the receipts.
  unfoldable pub conclude :
      Roots → List (ℕ × ℕ) → Block → ℕ → Replay S → Verified (ℕ × List Receipt)
  conclude roots correct blk conflicts r =
      if not (nat_beq blk.gas_used r.total_gas_used)
      then refused gas_used_mismatch
      else if not (receipts_agree roots correct blk r.receipts)
      then refused receipts_root_mismatch
      else elim (m.stage r.state blk.context.number conflicts) [
        | none ↦ refused unavailable
        | some root ↦
            if nat_beq blk.state_root root
            then verified (root, r.receipts)
            else refused state_root_mismatch
      ]

  abbrev pub start_replay : S → Replay S
  start_replay s = record { processed = []; total_gas_used = 0; receipts = []; state = s }

  unfoldable pub verify_block : Roots → List (ℕ × ℕ) → Block → S → ℕ → Verified (ℕ × List Receipt)
  verify_block roots correct blk s conflicts =
      elim (verify_txs blk.context (start_replay s) blk.txs) [
        | refused fault ↦ refused fault
        | verified r ↦ conclude roots correct blk conflicts r
      ]
