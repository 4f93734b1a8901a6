-- ===== src/Consensus/Body/Packed.antt =====
-- The block that a packer builds of the transactions it adopts passes the checks of a block's
-- transactions.
use rmit.Prelude.{ℕ, ◌≡◌, refl, none, some, List, [], ◌∷◌, number_key, All, arith, sym, ◌∙◌}
use rmit.Tx.Gas.{Outside}
use rmit.Tx.Body.{Transaction}
use rmit.Runtime.{BlockContext, Runtime, Chain, Rules, IsRuntime}
use rmit.Packer.Adopt.{Adopting, Roots, adopt_all, new_flow, build}
use rmit.Consensus.Body.{
  Replay, check_tx, check_txs, validate_block_body, verified, start_replay, verify_txs,
  receipts_agree, conclude, verify_block,
}
use rmit.Consensus.Body.Adopted.{replay_of, new_flow-IsReplayed, adopt_all-IsReplayed}

check_txs-All :
    (rules : Rules) (number features : ℕ) (ts : List Transaction)
    → All (λ t. check_tx rules number features t ≡ none) ts
    → check_txs rules number features ts ≡ none
unfolding check_txs
check_txs-All rules number features [] h = refl
check_txs-All rules number features (t ∷ ts) (p, h) =
    rw (check_txs, p) (check_txs-All rules number features ts h)

module _ {S : Type 0} (m : Runtime S) (chain : Chain) (rules : Rules) (o : Outside) (roots : Roots)
    (correct : List (ℕ × ℕ)) (ctx : BlockContext) (features : ℕ) where
  build-valid :
      (a : Adopting S) (root id : ℕ)
      → All (λ t. check_tx rules ctx.number features t ≡ none) a.txs
      → validate_block_body rules roots (build roots ctx features a root id) ≡ none
  unfolding validate_block_body build
  build-valid a root id h = ground (arith, check_txs-All rules ctx.number features a.txs h)

  build-conclude :
      (a : Adopting S) (s : S) (root id conflicts : ℕ)
      → m.stage s ctx.number conflicts ≡ some root
      → conclude m chain roots correct
          (build roots ctx features a root id)
          conflicts
          (replay_of a s)
        ≡ verified (root, a.receipts)
  unfolding conclude build receipts_agree
  build-conclude a s root id conflicts h = ground (arith, h)

  verify_block-replayed :
      (a : Adopting S) (r : Replay S) (start : S) (root id conflicts : ℕ)
      → verify_txs m chain ctx (start_replay m chain start) a.txs ≡ verified r
      → verify_block m chain roots correct (build roots ctx features a root id) start conflicts
        ≡ conclude m chain roots correct (build roots ctx features a root id) conflicts r
  unfolding verify_block build
  verify_block-replayed a r start root id conflicts h = rw (verify_block, h) refl

  -- Let a packer start on a state and offer it any transactions, each adopted or refused, and let
  -- the state behind them be staged. Then the block that it builds passes the checks of its
  -- transactions, and their execution on a state like the one it started on passes too, with the
  -- root and the receipts of the packer. The states of the runtime are alike as far as it executes
  -- and stages them, and it executes no transaction without an origin.
  pub verify_block-adopt_all :
      (Same : S → S → Type 0)
      → IsRuntime m Same
      → (s start : S) (offered : List Transaction) (root id conflicts : ℕ) → Same s start
      → m.stage
          (adopt_all m chain rules o ctx features (new_flow s) offered).0.state
          ctx.number
          conflicts
        ≡ some root
      → let a = (adopt_all m chain rules o ctx features (new_flow s) offered).0 in
        let blk = build roots ctx features a root id in
        (validate_block_body rules roots blk ≡ none)
        × (verify_block m chain roots correct blk start conflicts ≡ verified (root, a.receipts))
  verify_block-adopt_all Same laws s start offered root id conflicts same staged =
      let a = (adopt_all m chain rules o ctx features (new_flow s) offered).0 in
      let w =
        adopt_all-IsReplayed m chain rules o ctx features Same laws start (new_flow s) offered
          (new_flow-IsReplayed m chain rules o ctx features Same laws start s same) in
      (
        build-valid a root id w.accepted,
        verify_block-replayed a (replay_of a w.shadow) start root id conflicts w.ends
            ∙ build-conclude a w.shadow root id conflicts
                (sym (laws.staged a.state w.shadow ctx.number conflicts w.same) ∙ staged),
      )
