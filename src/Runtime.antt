-- ===== src/Runtime.antt =====
-- What the packer and the validation of blocks use of runtime/runtime.go, state/state.go and
-- chain/chain.go, as records of functions, and the rules of the chain for the origins of transactions.
use rmit.Prelude.{ℕ, Bool, false, Option, none, some, List, ◌≡◌, number_key}
use rmit.Prelude.Assoc.{lookup}
use rmit.Tx.Body.{Transaction, Receipt}

-- `BlockContext` of xenv/env.go.
pub record BlockContext : Type 0 where
  pub beneficiary : ℕ
  pub signer : ℕ
  pub number : ℕ
  pub time : ℕ
  pub gas_limit : ℕ
  pub total_score : ℕ

-- A state with its snapshots. `execute` leaves a state also where it returns an error, which is
-- `none`; `stage` gives the root of a state for the number of a block and of its conflicts.
pub record Runtime (S : Type 0) : Type 0 where
  pub new_checkpoint : S → S × ℕ
  pub revert_to : S → ℕ → S
  pub execute : BlockContext → S → Transaction → S × Option Receipt
  pub stage : S → ℕ → ℕ → Option ℕ

-- The chain up to the parent: `none` is an error, and `some none` that a transaction is not found.
pub record Chain : Type 0 where
  pub has_transaction : ℕ → ℕ → Option Bool
  pub transaction_meta : ℕ → Option (Option Bool)

-- The tag of the chain, the fork BLOCKLIST and the map of thor/blocklist.go.
pub record Rules : Type 0 where
  pub chain_tag : ℕ
  pub blocklist_fork : ℕ
  pub blocklist : List (ℕ × Bool)

unfoldable pub is_origin_blocked : List (ℕ × Bool) → ℕ → Bool
is_origin_blocked blocklist origin = elim (lookup origin blocklist) [ none ↦ false | some b ↦ b ]

-- A state behaves like another one whatever is executed, and a return to a checkpoint undoes what
-- failed. Only transactions whose origin is known are executed.
pub record IsRuntime {S : Type 0} (m : Runtime S) (Same : S → S → Type 0) : Type 0 where
  pub checkpointed : (s s' : S) → Same s s' → Same (m.new_checkpoint s).0 s'
  pub reverted :
      (ctx : BlockContext) (s s' : S) (t : Transaction)
      → Same s s'
      → (m.execute ctx (m.new_checkpoint s).0 t).1 ≡ none
      → Same (m.revert_to (m.execute ctx (m.new_checkpoint s).0 t).0 (m.new_checkpoint s).1) s'
  pub executed :
      (ctx : BlockContext) (s s' : S) (t : Transaction) (r : Receipt)
      → Same s s'
      → (m.execute ctx s t).1 ≡ some r
      → ((m.execute ctx s' t).1 ≡ some r) × Same (m.execute ctx s t).0 (m.execute ctx s' t).0
  pub staged :
      (s s' : S) (number conflicts : ℕ)
      → Same s s'
      → m.stage s number conflicts ≡ m.stage s' number conflicts
  pub resolved :
      (ctx : BlockContext) (s : S) (t : Transaction) (r : Receipt)
      → (m.execute ctx s t).1 ≡ some r
      → (origin : ℕ) × (t.origin ≡ some origin)
