-- ===== src/Tests/Transactions.antt =====
-- Transactions with two clauses, and with reserved fields.
use rmit.Prelude.{
  ℕ, ◌+◌, ◌*◌, ◌%◌, ◌≡◌, refl, none, some, List, [], ◌∷◌, nat_beq, leb, arith, if◌then◌else◌,
  Bool-cases, inl, inr,
}
use rmit.Thor.{u64_mod}
use rmit.Tx.Gas.{Clause, Outside, tx_gas, data_gas, add_clauses, intrinsic_gas}
use rmit.Tx.Gas.Exact.{IsChecked, fitting, clause_costs, intrinsic_gas_exact}
use rmit.Tx.Reserved.{
  Reserved, FeatureCodec, is_empty_raw, pop_empty, encode_reserved, decode_reserved,
}
use rmit.Tx.Reserved.Trimmed.{IsCodec, trim, decode_reserved-encode_reserved}

abbrev pub outside : Outside
outside = record {
  safe_add = λ a b. ((a + b) % u64_mod, leb u64_mod (a + b));
  safe_mul = λ a b. ((a * b) % u64_mod, leb u64_mod (a * b));
  data_zero_gas = 4;
  data_non_zero_gas = 68;
  params_tx_gas = 21000;
  params_creation_gas = 53000;
}

outside-IsChecked : IsChecked outside
outside-IsChecked = record {
  add_fits = λ a b h. ground arith;
  add_over = λ a b h. ground arith;
  mul_fits = λ a b h. ground arith;
  mul_over = λ a b h. ground arith;
  call_fits = omega arith;
}

-- A call and a creation.
abbrev clauses : List Clause
clauses = record { to = some 7; payload = 0 ∷ 1 ∷ [] } ∷ record { to = none; payload = [] } ∷ []

gas_test : intrinsic_gas outside clauses ≡ some (5000 + 72 + 16000 + 48000)
unfolding intrinsic_gas add_clauses data_gas
gas_test = refl

intrinsic_gas_exact_example :
    intrinsic_gas outside clauses ≡ fitting (tx_gas + clause_costs outside clauses)
intrinsic_gas_exact_example =
    intrinsic_gas_exact outside clauses outside-IsChecked (omega arith, (omega arith, tt))

-- Numbers are encoded with their size, 0 as the empty text.
abbrev codec : FeatureCodec
codec = record {
  encode_features = λ f. if nat_beq f 0 then 128 ∷ [] else 200 ∷ f ∷ [];
  decode_features = λ raw. elim raw [ [] ↦ none | b ∷ [] ↦ some 0 | b ∷ c ∷ rest ↦ some c ];
}

codec-IsCodec : IsCodec codec
unfolding is_empty_raw
codec-IsCodec = record {
  read_back = λ f. elim (Bool-cases (nat_beq f 0)) [
    | inl zero_is ↦ ground (arith, zero_is)
    | inr other ↦ ground (arith, other)
  ];
  empty_zero = λ f. elim (Bool-cases (nat_beq f 0)) [
    | inl zero_is ↦ ground (arith, zero_is)
    | inr other ↦ ground (arith, other)
  ];
}

-- No features, and a value between empty ones.
abbrev fields : Reserved
fields = record { features = 0; unused = (192 ∷ []) ∷ (5 ∷ []) ∷ (128 ∷ []) ∷ [] }

encode_test : encode_reserved codec fields ≡ some ((128 ∷ []) ∷ (192 ∷ []) ∷ (5 ∷ []) ∷ [])
unfolding encode_reserved pop_empty is_empty_raw
encode_test = refl

untrimmed_test : decode_reserved codec ((128 ∷ []) ∷ []) ≡ none
unfolding decode_reserved is_empty_raw
untrimmed_test = refl

decode_reserved-encode_reserved_example :
    (raws : List (List ℕ)) × (encode_reserved codec fields ≡ some raws)
    × (raws ≡ trim ((128 ∷ []) ∷ fields.unused))
    × (decode_reserved codec raws ≡ some (record { features = 0; unused = trim fields.unused }))
decode_reserved-encode_reserved_example = decode_reserved-encode_reserved codec codec-IsCodec fields
