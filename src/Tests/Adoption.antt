-- ===== src/Tests/Adoption.antt =====
-- A packer that is offered six transactions of a block, and the validation of the block.
use rmit.Prelude.{
  ℕ, ◌+◌, ◌≤◌, ◌≡◌, refl, true, false, Option, none, some, List, [], ◌∷◌, length, nat_beq, ltb,
  arith, if◌then◌else◌, number_key, Option-cases, inl, inr, ap, map, ◌*◌,
}
use rmit.Thor.{u32_mod}
use rmit.Prelude.Assoc.{lookup, insert}
use rmit.Tx.Body.{Transaction, Receipt, ref_number, is_expired, test_features}
use rmit.Runtime.{BlockContext, Runtime, Chain, Rules, IsRuntime, is_origin_blocked}
use rmit.Packer.Adopt.{
  Roots, new_flow, check_adoptable, has_tx, find_dep, check_known, check_depends, execute_tx, adopt,
  adopt_all, build,
}
use rmit.Packer.Adopt.Limit.{adopt_all_fits}
use rmit.Consensus.Body.{validate_block_body, verify_block, verified}
use rmit.Consensus.Body.Packed.{verify_block-adopt_all}
use rmit.Tests.Transactions.{outside}

-- A number, with the numbers to return to.
abbrev State : Type 0
State = ℕ × List ℕ

abbrev receipt_of : Transaction → Receipt
receipt_of t = record { gas_used = 21000; reverted = nat_beq t.id 9; outputs = t.id }

-- Each transaction adds its id; one that fails leaves its traces.
abbrev run_tx : BlockContext → State → Transaction → State × Option Receipt
run_tx ctx s t = elim (t.origin) [
  | none ↦ ((s.0 + 1, s.1), none)
  | some origin ↦
      if ltb t.gas 21000 then ((s.0 + 1, s.1), none) else ((s.0 + t.id, s.1), some (receipt_of t))
]

abbrev pop_state : State → State
pop_state (v, []) = (v, [])
pop_state (v, x ∷ saved) = (x, saved)

abbrev runtime : Runtime State
runtime = record {
  new_checkpoint = λ s. ((s.0, s.0 ∷ s.1), length s.1);
  revert_to = λ s checkpoint. pop_state s;
  execute = run_tx;
  stage = λ s number conflicts. some s.0;
}

abbrev Alike : State → State → Type 0
Alike s s' = s.0 ≡ s'.0

runtime-IsRuntime : IsRuntime runtime Alike
runtime-IsRuntime = record {
  checkpointed = λ s s' h. h;
  reverted = λ ctx s s' t h e. ground (arith, h, e);
  executed = λ ctx s s' t r h e. (ground (arith, h, e), ground (arith, h, e));
  staged = λ s s' number conflicts h. ap some h;
  resolved = λ ctx s t r e. elim (Option-cases t.origin) [
    | inl missing ↦ absurd (cc (rw (run_tx, missing) at e))
    | inr known ↦ known
  ];
}

abbrev chain : Chain
chain = record { has_transaction = λ id block_ref. some false; transaction_meta = λ id. some none }

-- Origin 13 is blocked.
abbrev rules : Rules
rules = record { chain_tag = 39; blocklist_fork = 0; blocklist = (13, true) ∷ [] }

abbrev context : BlockContext
context = record {
  beneficiary = 1;
  signer = 2;
  number = 100;
  time = 1000;
  gas_limit = 50000;
  total_score = 500;
}

-- A transaction with a reference to the block 99.
abbrev transaction : ℕ → Option ℕ → Option ℕ → Transaction
transaction id origin depends_on = record {
  id = id;
  origin = origin;
  chain_tag = 39;
  block_ref = 99 * u32_mod;
  expiration = 32;
  gas = 21000;
  depends_on = depends_on;
  reserved = record { features = 1; unused = [] };
}

-- A first transaction, one without an origin, one of a blocked origin, the first again, one that
-- depends on it, and one for which no gas is left.
abbrev offered : List Transaction
offered =
    transaction 5 (some 11) none
    ∷ transaction 6 none none
    ∷ transaction 7 (some 13) none
    ∷ transaction 5 (some 11) none
    ∷ transaction 8 (some 12) (some 5)
    ∷ transaction 9 (some 11) none
    ∷ []

abbrev roots : Roots
roots = record { of_txs = length; of_receipts = length }

adopted_test :
    map
      (λ (t : Transaction). t.id)
      (adopt_all runtime chain rules outside context 1 (new_flow (100, [])) offered).0.txs
    ≡ 5 ∷ 8 ∷ []
unfolding adopt_all new_flow adopt execute_tx check_adoptable check_known check_depends has_tx
    find_dep lookup insert ref_number is_expired test_features is_origin_blocked
adopted_test = refl

removed_test :
    map
      (λ (t : Transaction). t.id)
      (adopt_all runtime chain rules outside context 1 (new_flow (100, [])) offered).1
    ≡ 6 ∷ 7 ∷ 5 ∷ []
unfolding adopt_all new_flow adopt execute_tx check_adoptable check_known check_depends has_tx
    find_dep lookup insert ref_number is_expired test_features is_origin_blocked
removed_test = refl

-- The sum of the gas wraps: a transaction with more gas than any block has is adoptable.
wrap_test :
    check_adoptable rules outside context 1 21000
      (record (transaction 5 (some 11) none) { gas = 18446744073709551615 })
    ≡ none
unfolding check_adoptable ref_number is_expired test_features is_origin_blocked lookup
wrap_test = refl

verify_block-adopt_all_example :
    let a = (adopt_all runtime chain rules outside context 1 (new_flow (100, [])) offered).0 in
    let blk = build roots context 1 a 113 77 in
    (validate_block_body rules roots blk ≡ none)
    × (verify_block runtime chain roots [] blk (100, 3 ∷ []) 0 ≡ verified (113, a.receipts))
unfolding adopt_all new_flow adopt execute_tx check_adoptable check_known check_depends has_tx
    find_dep lookup insert ref_number is_expired test_features is_origin_blocked
verify_block-adopt_all_example =
    verify_block-adopt_all runtime chain rules outside roots [] context 1 Alike runtime-IsRuntime
      (100, []) (100, 3 ∷ []) offered 113 77 0 refl refl

receipt_of_cost :
    (s : State) (t : Transaction) (r : Receipt)
    → (run_tx context s t).1 ≡ some r
    → r.gas_used ≤ t.gas
receipt_of_cost s t r e = ground (arith, e)

adopt_all_fits_example :
    (adopt_all runtime chain rules outside context 1 (new_flow (100, [])) offered).0.gas_used
    ≤ 50000
adopt_all_fits_example =
    adopt_all_fits runtime chain rules outside context 1 receipt_of_cost (100, []) offered
      (omega arith, (omega arith, (omega arith, (omega arith, (omega arith, (omega arith, tt))))))
