-- ===== src/Bft/Engine/Tree.antt =====
-- What the engine relies on in the repository, and what holds of its caches.
use rmit.Prelude.{
  ℕ, ◌+◌, ◌≤◌, ◌<◌, ◌≡◌, ◌||◌, Option, some, List, ltb, nat_beq, if◌then◌else◌, number_key,
}
use rmit.Prelude.Fallible.{◌>>=◌}
use rmit.Prelude.Assoc.{lookup}
use rmit.Thor.{u32_mod}
use rmit.Bft.Justifier.{Justifier, BftState, summarize}
use rmit.Bft.Justifier.Order.{Same}
use rmit.Bft.Walk.{Header}
use rmit.Bft.Engine.{Repo, Engine, number_of, zero_state, fresh_justifier}

-- What the engine relies on in the repository: ids identify headers and begin with the number, the
-- parent of a block is stored, and a branch holds the branch of its parent.
pub record IsTree (r : Repo) (IsBlock : ℕ → Type 0) (of_id : ℕ → Header) : Type 0 where
  pub own : (i : ℕ) → IsBlock i → (of_id i).id ≡ i
  pub numbered : (i : ℕ) → IsBlock i → number_of i ≡ (of_id i).number
  pub small : (i : ℕ) → IsBlock i → (of_id i).number + 1 < u32_mod
  pub parent : (i : ℕ) → IsBlock i → 0 < (of_id i).number → IsBlock (of_id i).parent_id
  pub stored :
      (i : ℕ)
      → IsBlock i
      → 0 < (of_id i).number
      → r.headers (of_id i).parent_id ≡ some (of_id (of_id i).parent_id)
  pub next :
      (i : ℕ)
      → IsBlock i
      → 0 < (of_id i).number
      → (of_id (of_id i).parent_id).number + 1 ≡ (of_id i).number
  pub branch :
      (i n : ℕ)
      → IsBlock i
      → n < (of_id i).number
      → r.block_at i n ≡ r.block_at (of_id i).parent_id n

-- The specification: the state of a header with every vote counted anew.
unfoldable pub spec_state : Repo → List (ℕ × ℕ) → Header → Option BftState
spec_state r qualities h =
    if nat_beq h.number 0 || ltb h.number r.finality
    then some zero_state
    else (fresh_justifier r qualities h >>= λ js. some (summarize js))

module _ (r : Repo) (IsBlock : ℕ → Type 0) (of_id : ℕ → Header)
    (tree : IsTree r IsBlock of_id) where
  -- A cached justifier has the votes of a fresh one.
  pub record Agrees (qualities : List (ℕ × ℕ)) (i : ℕ) (js : Justifier) : Type 0 where
    pub block : IsBlock i
    pub positive : 0 < (of_id i).number
    pub due : r.finality ≤ (of_id i).number
    pub anew : Justifier
    pub computed : fresh_justifier r qualities (of_id i) ≡ some anew
    pub votes : Same anew js

  pub record IsValid (e : Engine) : Type 0 where
    pub states :
        (i : ℕ) (st : BftState)
        → lookup i e.states ≡ some st
        → spec_state r e.qualities (of_id i) ≡ some st
    pub justifiers :
        (i : ℕ) (js : Justifier) → lookup i e.justifiers ≡ some js → Agrees e.qualities i js
