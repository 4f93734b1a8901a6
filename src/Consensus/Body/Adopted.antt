-- ===== src/Consensus/Body/Adopted.antt =====
-- The loop over the transactions of a block goes the way of the packer that adopted them.
use rmit.Prelude.{
  ℕ, ◌+◌, ◌%◌, ◌≡◌, refl, Bool, ◌⊎◌, none, some, List, [], ◌∷◌, ◌++◌, number_key, arith, All,
  All-append, Option-cases, inl, inr, ap, ◌∙◌,
}
use rmit.Prelude.Assoc.{insert}
use rmit.Thor.{u64_mod}
use rmit.Tx.Gas.{Outside}
use rmit.Tx.Body.{Transaction, Receipt}
use rmit.Runtime.{BlockContext, Runtime, Chain, Rules, IsRuntime}
use rmit.Packer.Adopt
use rmit.Packer.Adopt.{Adopting, check_adoptable, execute_tx, adopt_all, new_flow}
use rmit.Packer.Adopt.Offered.{adopt_keeps, adopt_all_keeps}
use rmit.Consensus.Body.{
  Replay, Verified, Fault, refused, check_tx, verified, replayed, has_tx, find_dep, check_known,
  check_depends, verify_tx, verify_txs, start_replay,
}

check_tx-adoptable :
    (rules : Rules) (o : Outside) (ctx : BlockContext) (features gas_used : ℕ) (t : Transaction)
    (origin : ℕ)
    → check_adoptable rules o ctx features gas_used t ≡ none
    → t.origin ≡ some origin
    → check_tx rules ctx.number features t ≡ none
unfolding check_adoptable check_tx
check_tx-adoptable rules o ctx features gas_used t origin h e = ground (arith, h, e)

check_known-same :
    (chain : Chain) (processed : List (ℕ × Bool)) (t : Transaction)
    → Adopt.check_known chain processed t ≡ none
    → check_known chain processed t ≡ none
unfolding Adopt.check_known Adopt.has_tx check_known has_tx
check_known-same chain processed t h = ground (arith, h)

check_depends-same :
    (chain : Chain) (processed : List (ℕ × Bool)) (t : Transaction)
    → Adopt.check_depends chain processed t ≡ none
    → check_depends chain processed t ≡ none
unfolding Adopt.check_depends Adopt.find_dep check_depends find_dep
check_depends-same chain processed t h = ground (arith, h)

Verified-cases :
    {A : Type 0} (v : Verified A)
    → ((fault : Fault) × (v ≡ refused fault)) ⊎ ((a : A) × (v ≡ verified a))
Verified-cases (refused fault) = inl (fault, refl)
Verified-cases (verified a) = inr (a, refl)

-- The variables of the loop when it has come to what the packer has.
abbrev pub replay_of : {S : Type 0} → Adopting S → S → Replay S
replay_of a s = record {
  processed = a.processed;
  total_gas_used = a.gas_used;
  receipts = a.receipts;
  state = s;
}

abbrev replay_next : {S : Type 0} → Replay S → Transaction → S → Receipt → Replay S
replay_next r t s receipt = record {
  processed = insert t.id receipt.reverted r.processed;
  total_gas_used = (r.total_gas_used + receipt.gas_used) % u64_mod;
  receipts = r.receipts ++ receipt ∷ [];
  state = s;
}

module _ {S : Type 0} (m : Runtime S) (chain : Chain) where
  verify_txs-append :
      (ctx : BlockContext) (r r' : Replay S) (xs ts : List Transaction)
      → verify_txs m chain ctx r xs ≡ verified r'
      → verify_txs m chain ctx r (xs ++ ts) ≡ verify_txs m chain ctx r' ts
  unfolding verify_txs
  verify_txs-append ctx r r' [] ts h =
      let same : r ≡ r' = cc (h) in ap (λ x. verify_txs m chain ctx x ts) same
  verify_txs-append ctx r r' (x ∷ xs) ts h = elim (Verified-cases (verify_tx m chain ctx r x)) [
    | inl (fault, e) ↦ absurd (cc (rw (verify_txs, e) at h))
    | inr (next, e) ↦
        rw (verify_txs, e) (verify_txs-append ctx next r' xs ts (rw (verify_txs, e) at h))
  ]

  verify_txs-last :
      (ctx : BlockContext) (r : Replay S) (t : Transaction) (receipt : Receipt)
      → check_known chain r.processed t ≡ none
      → check_depends chain r.processed t ≡ none
      → (m.execute ctx r.state t).1 ≡ some receipt
      → verify_txs m chain ctx r (t ∷ [])
        ≡ verified (replay_next r t (m.execute ctx r.state t).0 receipt)
  unfolding verify_txs verify_tx
  verify_txs-last ctx r t receipt known depends done =
      rw (verify_txs, verify_tx, known, depends, replayed, done) refl

  module _ (rules : Rules) (o : Outside) (ctx : BlockContext) (features : ℕ) (Same : S → S → Type 0)
      (laws : IsRuntime m Same) (start : S) where
    -- The loop of the validation comes to what the packer has, on a state that is the same.
    pub record IsReplayed (a : Adopting S) : Type 0 where
      pub shadow : S
      pub same : Same a.state shadow
      pub accepted : All (λ t. check_tx rules ctx.number features t ≡ none) a.txs
      pub ends :
          verify_txs m chain ctx (start_replay m chain start) a.txs ≡ verified (replay_of a shadow)

    pub new_flow-IsReplayed : (s : S) → Same s start → IsReplayed (new_flow s)
    unfolding new_flow verify_txs
    new_flow-IsReplayed s h = record { shadow = start; same = h; accepted = tt; ends = refl }

    execute_tx-IsReplayed :
        (a : Adopting S) (t : Transaction)
        → check_adoptable rules o ctx features a.gas_used t ≡ none
        → Adopt.check_known chain a.processed t ≡ none
        → Adopt.check_depends chain a.processed t ≡ none
        → IsReplayed a
        → IsReplayed (execute_tx m chain rules o ctx features a t).0
    unfolding execute_tx
    execute_tx-IsReplayed a t fit known depends w =
        let s = (m.new_checkpoint a.state).0 in
        elim (Option-cases (m.execute ctx s t).1) [
          | inl e ↦
              rw (execute_tx, e)
                (record {
                  shadow = w.shadow;
                  same = laws.reverted ctx a.state w.shadow t w.same e;
                  accepted = w.accepted;
                  ends = w.ends;
                })
          | inr (receipt, e) ↦
              let (origin, is) = laws.resolved ctx s t receipt e in
              let (again, same) =
                laws.executed ctx s w.shadow t receipt (laws.checkpointed a.state w.shadow w.same)
                  e in
              let fine = check_tx-adoptable rules o ctx features a.gas_used t origin fit is in
              rw (execute_tx, e)
                (record {
                  shadow = (m.execute ctx w.shadow t).0;
                  same = same;
                  accepted =
                      All-append (λ t. check_tx rules ctx.number features t ≡ none) a.txs (t ∷ [])
                        w.accepted (fine, tt);
                  ends =
                      verify_txs-append ctx (start_replay m chain start) (replay_of a w.shadow)
                        a.txs (t ∷ []) w.ends
                      ∙ verify_txs-last ctx (replay_of a w.shadow) t receipt
                          (check_known-same chain a.processed t known)
                          (check_depends-same chain a.processed t depends) again;
                })
        ]

    pub adopt_all-IsReplayed :
        (a : Adopting S) (ts : List Transaction)
        → IsReplayed a
        → IsReplayed (adopt_all m chain rules o ctx features a ts).0
    adopt_all-IsReplayed a ts =
        adopt_all_keeps m chain rules o ctx features IsReplayed a ts (λ b t offered w.
          adopt_keeps m chain rules o ctx features IsReplayed b t w
            (λ fit known depends. execute_tx-IsReplayed b t fit known depends w))
