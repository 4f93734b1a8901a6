-- ===== src/Tx/Gas/Exact.antt =====
-- The intrinsic gas is the exact sum, or an error where that does not fit.
use rmit.Prelude.{
  ℕ, ◌+◌, ◌*◌, ◌≤◌, ◌<◌, ◌≡◌, inl, inr, Bool, true, false, Option, none, some, List, [], ◌∷◌, All,
  length, nat_beq, ltb, if◌then◌else◌, Bool-cases, arith, ap, ◌∙◌, dec_lt,
}
use rmit.Prelude.Fallible.{◌>>=◌}
use rmit.Thor.{u64_mod}
use rmit.Tx.Gas.{
  Clause, Outside, tx_gas, clause_gas, count_bytes, unless_overflow, data_gas, creation_or_call,
  add_clauses, intrinsic_gas,
}

-- What is relied on of the code from outside.
pub record IsChecked (o : Outside) : Type 0 where
  pub add_fits : (a b : ℕ) → a + b < u64_mod → o.safe_add a b ≡ (a + b, false)
  pub add_over : (a b : ℕ) → u64_mod ≤ a + b → (o.safe_add a b).1 ≡ true
  pub mul_fits : (a b : ℕ) → a * b < u64_mod → o.safe_mul a b ≡ (a * b, false)
  pub mul_over : (a b : ℕ) → u64_mod ≤ a * b → (o.safe_mul a b).1 ≡ true
  pub call_fits : tx_gas + clause_gas o < u64_mod

-- The value, if it fits a `uint64`.
abbrev pub fitting : ℕ → Option ℕ
fitting n = if ltb n u64_mod then some n else none

-- The price of data, byte by byte.
abbrev pub byte_costs : Outside → List ℕ → ℕ
byte_costs o [] = 0
byte_costs o (b ∷ bs) =
    (if nat_beq b 0 then o.data_zero_gas else o.data_non_zero_gas) + byte_costs o bs

abbrev pub clause_costs : Outside → List Clause → ℕ
clause_costs o [] = 0
clause_costs o (c ∷ cs) = byte_costs o c.payload + creation_or_call o c.to + clause_costs o cs

-- Slices are shorter than 2 ^ 64.
abbrev pub Short : Clause → Type 0
Short c = length c.payload < u64_mod

abbrev pub zeros : List ℕ → ℕ
zeros [] = 0
zeros (b ∷ bs) = (if nat_beq b 0 then 1 else 0) + zeros bs

abbrev pub non_zeros : List ℕ → ℕ
non_zeros [] = 0
non_zeros (b ∷ bs) = (if nat_beq b 0 then 0 else 1) + non_zeros bs

bytes_split : (bs : List ℕ) → zeros bs + non_zeros bs ≡ length bs
bytes_split [] = omega arith
bytes_split (b ∷ bs) = ground (arith, bytes_split bs)

byte_costs_split :
    (o : Outside) (bs : List ℕ)
    → byte_costs o bs ≡ o.data_zero_gas * zeros bs + o.data_non_zero_gas * non_zeros bs
byte_costs_split o [] = ground arith
byte_costs_split o (b ∷ bs) = ground (arith, byte_costs_split o bs)

-- A flag that tells of an overflow.
flagged :
    (o : Outside) (p : ℕ × Bool) (n : ℕ)
    → (n < u64_mod → p ≡ (n, false))
    → (u64_mod ≤ n → p.1 ≡ true)
    → unless_overflow o p ≡ fitting n
flagged o (value, true) n fits over = elim (dec_lt n u64_mod) [
  | yes small ↦ absurd (cc (ap (λ (q : ℕ × Bool). q.1) (fits small)))
  | no large ↦ ground (arith, large)
]
flagged o (value, false) n fits over = elim (dec_lt n u64_mod) [
  | yes small ↦ let is = ap (λ (q : ℕ × Bool). q.0) (fits small) in ground (arith, small, is)
  | no large ↦ absurd (cc (over (omega arith)))
]

-- A sum fits only if its parts do.
fitting_sum : (a b : ℕ) → (fitting a >>= λ x. fitting b >>= λ y. fitting (x + y)) ≡ fitting (a + b)
fitting_sum a b = ground arith

module _ (o : Outside) (k : IsChecked o) where
  unless_add : (a b : ℕ) → unless_overflow o (o.safe_add a b) ≡ fitting (a + b)
  unless_add a b = flagged o (o.safe_add a b) (a + b) (k.add_fits a b) (k.add_over a b)

  unless_mul : (a b : ℕ) → unless_overflow o (o.safe_mul a b) ≡ fitting (a * b)
  unless_mul a b = flagged o (o.safe_mul a b) (a * b) (k.mul_fits a b) (k.mul_over a b)

  count_bytes_lem :
      (bs : List ℕ) (z nz : ℕ)
      → z + nz + length bs < u64_mod
      → count_bytes o bs (z, nz) ≡ (z + zeros bs, nz + non_zeros bs)
  count_bytes_lem [] z nz h = ground arith
  count_bytes_lem (b ∷ bs) z nz h = elim (Bool-cases (nat_beq b 0)) [
    | inl zero_byte ↦ rw zero_byte (
        ap (λ w. count_bytes o bs (w, nz)) (omega arith)
        ∙ count_bytes_lem bs (z + 1) nz (omega arith)
        ∙ ground arith)
    | inr other ↦ rw other (
        ap (λ w. count_bytes o bs (z, w)) (omega arith)
        ∙ count_bytes_lem bs z (nz + 1) (omega arith)
        ∙ ground arith)
  ]

  -- What `dataGas` does with the counts.
  abbrev price : ℕ × ℕ → Option ℕ
  price n = unless_overflow o (o.safe_mul o.data_zero_gas n.0) >>= λ zgas.
      unless_overflow o (o.safe_mul o.data_non_zero_gas n.1) >>= λ nzgas.
      unless_overflow o (o.safe_add zgas nzgas)

  price_lem : (z nz : ℕ) → price (z, nz) ≡ fitting (o.data_zero_gas * z + o.data_non_zero_gas * nz)
  price_lem z nz =
      let a : ℕ = o.data_zero_gas * z in
      let b : ℕ = o.data_non_zero_gas * nz in
      ground
        (arith, unless_mul o.data_zero_gas z, unless_mul o.data_non_zero_gas nz, unless_add a b)

  data_gas_lem : (bs : List ℕ) → length bs < u64_mod → data_gas o bs ≡ fitting (byte_costs o bs)
  unfolding data_gas
  data_gas_lem [] h = ground arith
  data_gas_lem (b ∷ bs) h =
      let counted = count_bytes_lem (b ∷ bs) 0 0 (omega arith) in
      ap price counted
      ∙ price_lem (0 + zeros (b ∷ bs)) (0 + non_zeros (b ∷ bs))
      ∙ ap fitting (omega (arith, byte_costs_split o (b ∷ bs)))

  add_clauses_lem :
      (cs : List Clause) (total : ℕ)
      → All Short cs
      → total < u64_mod
      → add_clauses o cs total ≡ fitting (total + clause_costs o cs)
  unfolding add_clauses
  add_clauses_lem [] total h small = ground arith
  add_clauses_lem (c ∷ cs) total (short, h) small =
      let gas = byte_costs o c.payload in
      let own = creation_or_call o c.to in
      elim (dec_lt (total + gas + own) u64_mod) [
        | yes fits ↦
            let rest = add_clauses_lem cs (total + gas + own) h fits in
            ground (
              arith,
              data_gas_lem c.payload short,
              unless_add total gas,
              unless_add (total + gas) own,
              rest,
            )
        | no over ↦ ground (
          arith,
          data_gas_lem c.payload short,
          unless_add total gas,
          unless_add (total + gas) own,
        )
      ]

-- `IntrinsicGas` is the exact cost of the clauses, a transaction without clauses paying for one
-- call, or the error of an overflow where that cost does not fit a `uint64`; the sums and products
-- from outside tell of an overflow, the cost of a call fits and data is shorter than 2 ^ 64.
pub intrinsic_gas_exact :
    (o : Outside) (cs : List Clause)
    → IsChecked o
    → All Short cs
    → intrinsic_gas o cs
      ≡ fitting
          (elim cs [ [] ↦ tx_gas + clause_gas o | c ∷ rest ↦ tx_gas + clause_costs o (c ∷ rest) ])
unfolding intrinsic_gas
intrinsic_gas_exact o [] k short = ground (arith, k.call_fits)
intrinsic_gas_exact o (c ∷ cs) k short = add_clauses_lem o k (c ∷ cs) tx_gas short (omega arith)
