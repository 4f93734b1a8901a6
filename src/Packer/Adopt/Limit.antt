-- ===== src/Packer/Adopt/Limit.antt =====
-- The gas that a packer has used stays within the limit of the block.
use rmit.Prelude.{
  ℕ, ◌+◌, ◌%◌, ◌≤◌, ◌<◌, ◌≡◌, inl, inr, none, some, List, arith, Option-cases, All, In-All,
  number_key,
}
use rmit.Thor.{u64_mod}
use rmit.Tx.Gas.{Outside}
use rmit.Tx.Body.{Transaction, Receipt}
use rmit.Runtime.{BlockContext, Runtime, Chain, Rules}
use rmit.Packer.Adopt.{Adopting, check_adoptable, execute_tx, adopt_all, new_flow}
use rmit.Packer.Adopt.Offered.{adopt_keeps, adopt_all_keeps}

room_left :
    (rules : Rules) (o : Outside) (ctx : BlockContext) (features gas_used : ℕ) (t : Transaction)
    → check_adoptable rules o ctx features gas_used t ≡ none
    → (gas_used + t.gas) % u64_mod ≤ ctx.gas_limit
unfolding check_adoptable
room_left rules o ctx features gas_used t h = ground (arith, h)

module _ {S : Type 0} (m : Runtime S) (chain : Chain) (rules : Rules) (o : Outside)
    (ctx : BlockContext) (features : ℕ)
    (charged : (s : S) (t : Transaction) (r : Receipt)
      → (m.execute ctx s t).1 ≡ some r
      → r.gas_used ≤ t.gas) where
  execute_tx_fits :
      (a : Adopting S) (t : Transaction)
      → t.gas + ctx.gas_limit < u64_mod
      → check_adoptable rules o ctx features a.gas_used t ≡ none
      → a.gas_used ≤ ctx.gas_limit
      → (execute_tx m chain rules o ctx features a t).0.gas_used ≤ ctx.gas_limit
  unfolding execute_tx
  execute_tx_fits a t small fit low =
      let s = (m.new_checkpoint a.state).0 in
      elim (Option-cases (m.execute ctx s t).1) [
        | inl e ↦ rw (execute_tx, e) low
        | inr (receipt, e) ↦
            let room = room_left rules o ctx features a.gas_used t fit in
            let cost = charged s t receipt e in rw (execute_tx, e) (omega arith)
      ]

  -- While no offered transaction has so much gas that its sum with the gas limit wraps, and a
  -- receipt charges no more than the gas of its transaction, the gas that a packer has used is at
  -- most the gas limit, whatever it is offered.
  pub adopt_all_fits :
      (s : S) (offered : List Transaction)
      → All (λ (t : Transaction). t.gas + ctx.gas_limit < u64_mod) offered
      → (adopt_all m chain rules o ctx features (new_flow s) offered).0.gas_used ≤ ctx.gas_limit
  unfolding new_flow
  adopt_all_fits s offered small =
      adopt_all_keeps m chain rules o ctx features (λ a. a.gas_used ≤ ctx.gas_limit) (new_flow s)
        offered
        (λ a t m' low.
          adopt_keeps m chain rules o ctx features (λ b. b.gas_used ≤ ctx.gas_limit) a t low
            (λ fit known depends.
              execute_tx_fits a t
                (In-All (λ (u : Transaction). u.gas + ctx.gas_limit < u64_mod) t offered small m')
                fit low))
        (omega arith)
