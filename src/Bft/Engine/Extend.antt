-- ===== src/Bft/Engine/Extend.antt =====
-- A justifier extended by one block has the votes of a fresh one.
use rmit.Prelude.{
  ℕ, suc, ◌+◌, ◌%◌, ◌/◌, ◌≤◌, ◌<◌, ◌≡◌, false, some, List, arith, ap, ◌∙◌, fun_ext, number_key,
}
use rmit.Prelude.Fallible.{◌>>=◌, >>=-eq-some}
use rmit.Thor.{u32_mod, checkpoint_interval}
use rmit.Bft.Rounds.{get_check_point, is_check_point}
use rmit.Bft.Justifier.{Justifier, empty, add_block}
use rmit.Bft.Justifier.Order.{Same, Same-sym, Same-trans, add_block-Same}
use rmit.Bft.Walk.{Header, walk, Counted, walk-add_block}
use rmit.Bft.Engine.{
  Repo, number_of, new_justifier, start_round, last_of_parent_round, fresh_justifier,
  extend_justifier,
}
use rmit.Bft.Engine.Tree.{IsTree, Agrees}

last_of_parent_round-round :
    (m n : ℕ)
    → m / checkpoint_interval ≡ n / checkpoint_interval
    → last_of_parent_round m ≡ last_of_parent_round n
unfolding last_of_parent_round get_check_point
last_of_parent_round-round m n e = ground (arith, e)

last_of_parent_round-lt : (n : ℕ) → 0 < n → last_of_parent_round n < n
unfolding last_of_parent_round get_check_point
last_of_parent_round-lt n h = ground arith

start_round-round :
    (r : Repo) (qualities : List (ℕ × ℕ)) (m n sum : ℕ)
    → m / checkpoint_interval ≡ n / checkpoint_interval
    → start_round r qualities m sum ≡ start_round r qualities n sum
unfolding start_round get_check_point
start_round-round r qualities m n sum e = rw e

start_round-checkpoint :
    (r : Repo) (qualities : List (ℕ × ℕ)) (n sum : ℕ) {js : Justifier}
    → start_round r qualities n sum ≡ some js
    → Counted js × (js.checkpoint ≡ get_check_point n)
unfolding start_round empty
start_round-checkpoint r qualities n sum h = (ground arith, ground arith)

inside : (n c : ℕ) → is_check_point n ≡ false → c ≡ get_check_point n → c < n
unfolding is_check_point get_check_point
inside n c plain e = ground arith

fresh-eq :
    (r : Repo) (qualities : List (ℕ × ℕ)) (h : Header) (js : Justifier) {js' : Justifier}
    → new_justifier r qualities h.parent_id ≡ some js
    → walk r.headers r.finality (h.number + 1) js h js.checkpoint ≡ some js'
    → fresh_justifier r qualities h ≡ some js'
unfolding fresh_justifier
fresh-eq r qualities h js e walked = rw e walked

-- The loop of a cached justifier ends after one round.
extend_last :
    (r : Repo) (js : Justifier) (h : Header)
    → r.finality ≤ h.number
    → extend_justifier r js h ≡ some (add_block js h.signer h.is_com)
unfolding extend_justifier walk
extend_last r js h due = ground arith

module _ (r : Repo) (IsBlock : ℕ → Type 0) (of_id : ℕ → Header)
    (tree : IsTree r IsBlock of_id) where
  -- In one round the justifier of a block and that of its parent start from the same.
  same_round :
      (qualities : List (ℕ × ℕ)) (i : ℕ)
      → IsBlock i
      → 0 < (of_id i).number
      → 0 < (of_id (of_id i).parent_id).number
      → is_check_point (of_id i).number ≡ false
      → new_justifier r qualities (of_id i).parent_id
        ≡ new_justifier r qualities (of_id (of_id i).parent_id).parent_id
  unfolding new_justifier is_check_point get_check_point
  same_round qualities i b pos pos' plain =
      let j = (of_id i).parent_id in
      let k = (of_id j).parent_id in
      let block_j = tree.parent i b pos in
      let block_k = tree.parent j block_j pos' in
      let m : ℕ = (number_of j + 1) % u32_mod in
      let n : ℕ = (number_of k + 1) % u32_mod in
      let m_eq : m ≡ (of_id i).number =
        omega (arith, tree.numbered j block_j, tree.next i b pos, tree.small i b) in
      let n_eq : n ≡ (of_id j).number =
        omega (arith, tree.numbered k block_k, tree.next j block_j pos', tree.small j block_j) in
      let round : m / checkpoint_interval ≡ n / checkpoint_interval =
        ground (arith, m_eq, n_eq, plain, tree.next i b pos) in
      let before : last_of_parent_round n < (of_id j).number =
        omega (arith, last_of_parent_round-lt n (omega arith), n_eq) in
      let sums : r.block_at j (last_of_parent_round m) ≡ r.block_at k (last_of_parent_round n) =
        ap (r.block_at j) (last_of_parent_round-round m n round)
        ∙ tree.branch j (last_of_parent_round n) block_j before in
      let starts : start_round r qualities m ≡ start_round r qualities n =
        fun_ext (λ sum. start_round-round r qualities m n sum round) in
      λ t. ◌>>=◌ (sums t) (starts t)

  new_justifier-checkpoint :
      (qualities : List (ℕ × ℕ)) (i : ℕ) {js : Justifier}
      → IsBlock i
      → 0 < (of_id i).number
      → new_justifier r qualities (of_id i).parent_id ≡ some js
      → Counted js × (js.checkpoint ≡ get_check_point (of_id i).number)
  unfolding new_justifier
  new_justifier-checkpoint qualities i {js} b pos h =
      let j = (of_id i).parent_id in
      let m : ℕ = (number_of j + 1) % u32_mod in
      let m_eq : m ≡ (of_id i).number =
        omega (arith, tree.numbered j (tree.parent i b pos), tree.next i b pos, tree.small i b) in
      let (sum, at, h1) = >>=-eq-some (r.block_at j (last_of_parent_round m)) _ h in
      let (counted, checkpoint) = start_round-checkpoint r qualities m sum h1 in
      (counted, checkpoint ∙ ap get_check_point m_eq)

  -- A fresh walk from a block inside a round goes on at its parent.
  walk_on :
      (i fuel : ℕ) (js : Justifier) (end : ℕ)
      → IsBlock i
      → 0 < (of_id i).number
      → r.finality ≤ (of_id i).number
      → end < (of_id i).number
      → walk r.headers r.finality (suc fuel) js (of_id i) end
        ≡ walk r.headers r.finality fuel
            (add_block js (of_id i).signer (of_id i).is_com)
            (of_id (of_id i).parent_id)
            end
  unfolding walk
  walk_on i fuel js end b pos due far = ground (arith, tree.stored i b pos)

  -- The extended justifier has the votes of the fresh one.
  pub extend_fresh :
      (qualities : List (ℕ × ℕ)) (i : ℕ) (js : Justifier)
      → IsBlock i
      → 0 < (of_id i).number
      → r.finality ≤ (of_id i).number
      → is_check_point (of_id i).number ≡ false
      → Agrees r IsBlock of_id tree qualities (of_id i).parent_id js
      → (jf : Justifier) × (je : Justifier) × (fresh_justifier r qualities (of_id i) ≡ some jf)
        × (extend_justifier r js (of_id i) ≡ some je)
        × Same jf je
  unfolding fresh_justifier
  extend_fresh qualities i js b pos due plain a =
      let h = of_id i in
      let p = of_id h.parent_id in
      let (js0, began, walked) = >>=-eq-some (new_justifier r qualities p.parent_id) _ a.computed in
      let began' = same_round qualities i b pos a.positive plain ∙ began in
      let (counted, checkpoint) = new_justifier-checkpoint qualities i b pos began' in
      let fuel : h.number + 1 ≡ suc (p.number + 1) = omega (arith, tree.next i b pos) in
      let far : js0.checkpoint < h.number = inside h.number js0.checkpoint plain checkpoint in
      let (jf, walked', same) =
        walk-add_block r.headers r.finality (p.number + 1) js0 h.signer h.is_com p js0.checkpoint
          counted walked in
      (
        jf,
        add_block js h.signer h.is_com,
        fresh-eq r qualities h js0 began' (
            ap (λ fuel. walk r.headers r.finality fuel js0 h js0.checkpoint) fuel
            ∙ walk_on i (p.number + 1) js0 js0.checkpoint b pos due far
            ∙ walked'),
        extend_last r js h due,
        Same-trans (Same-sym same) (add_block-Same h.signer h.is_com a.votes),
      )
