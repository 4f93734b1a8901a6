-- ===== src/Tx/Gas.antt =====
-- `IntrinsicGas` of tx/transaction.go: what the clauses of a transaction cost before they run. The
-- error of an overflow is `none`.
pub mod Exact
use rmit.Prelude.{
  ℕ, ◌+◌, ◌-◌, ◌*◌, ◌%◌, ◌≤◌, ◌<◌, ◌≡◌, Bool, true, false, Option, none, some, List, [], ◌∷◌,
  nat_beq, leb, if◌then◌else◌,
}
use rmit.Prelude.Fallible.{◌>>=◌}
use rmit.Thor.{u64_mod}

-- Bytes are numbers; a clause without a receiver creates a contract.
pub record Clause : Type 0 where
  pub to : Option ℕ
  pub payload : List ℕ

-- Code from outside: checked sums and products of `uint64` values, each with a flag for an overflow,
-- and the prices of go-ethereum.
pub record Outside : Type 0 where
  pub safe_add : ℕ → ℕ → ℕ × Bool
  pub safe_mul : ℕ → ℕ → ℕ × Bool
  pub data_zero_gas : ℕ
  pub data_non_zero_gas : ℕ
  pub params_tx_gas : ℕ
  pub params_creation_gas : ℕ

abbrev pub tx_gas : ℕ
tx_gas = 5000

module _ (o : Outside) where
  -- Constants of the source: the subtractions are of constants.
  abbrev pub clause_gas : ℕ
  clause_gas = o.params_tx_gas - tx_gas

  abbrev pub creation_gas : ℕ
  creation_gas = o.params_creation_gas - tx_gas

  -- The loop of `dataGas`: the zeros and the other bytes.
  abbrev pub count_bytes : List ℕ → ℕ × ℕ → ℕ × ℕ
  count_bytes [] n = n
  count_bytes (b ∷ bs) (z, nz) =
      count_bytes bs (if nat_beq b 0 then ((z + 1) % u64_mod, nz) else (z, (nz + 1) % u64_mod))

  -- A result with its flag.
  abbrev pub unless_overflow : ℕ × Bool → Option ℕ
  unless_overflow (value, true) = none
  unless_overflow (value, false) = some value

  unfoldable pub data_gas : List ℕ → Option ℕ
  data_gas [] = some 0
  data_gas (b ∷ bs) =
      let n = count_bytes (b ∷ bs) (0, 0) in
      unless_overflow (o.safe_mul o.data_zero_gas n.0) >>= λ zgas.
      unless_overflow (o.safe_mul o.data_non_zero_gas n.1) >>= λ nzgas.
      unless_overflow (o.safe_add zgas nzgas)

  abbrev pub creation_or_call : Option ℕ → ℕ
  creation_or_call none = creation_gas
  creation_or_call (some to) = clause_gas

  -- The loop over the clauses, with the total so far.
  unfoldable pub add_clauses : List Clause → ℕ → Option ℕ
  add_clauses [] total = some total
  add_clauses (c ∷ cs) total = data_gas c.payload >>= λ gas.
      unless_overflow (o.safe_add total gas) >>= λ with_data.
      unless_overflow (o.safe_add with_data (creation_or_call c.to)) >>= λ with_clause.
      add_clauses cs with_clause

  unfoldable pub intrinsic_gas : List Clause → Option ℕ
  intrinsic_gas [] = some (tx_gas + clause_gas)
  intrinsic_gas (c ∷ cs) = add_clauses (c ∷ cs) tx_gas
