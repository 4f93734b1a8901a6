-- ===== src/Tests/Validation.antt =====
-- Headers of two successive blocks before and after the fork VIP214.
use rmit.Prelude.{ℕ, suc, zero, ◌≡◌, ◌↔◌, refl, true, false, Option, some, List, [], ◌∷◌, arith}
use rmit.Block.GasLimit.{is_valid}
use rmit.Consensus.Headers.{
  BlockHeader, ForkConfig, valid, future_block, com_before_fork, bytes_equal, beta, check_seal,
  check_com, validate_block_header, signature_length_invalid,
}
use rmit.Consensus.Headers.Accepted.{Accepted, validate_block_header-Accepted}

abbrev pub zeros : ℕ → List ℕ
zeros zero = []
zeros (suc n) = 0 ∷ zeros n

-- A proof whose output is a single byte.
abbrev verify : BlockHeader → Option (List ℕ)
verify h = some (7 ∷ [])

abbrev pub fork : ForkConfig
fork = record { vip214 = 100; finality = 200 }

abbrev pub parent : BlockHeader
parent = record {
  number = 50;
  timestamp = 1000;
  gas_limit = 10000000;
  gas_used = 0;
  total_score = 500;
  state_root = 3 ∷ [];
  alpha = [];
  com_vote = false;
  signature = zeros 65;
}

abbrev header : BlockHeader
header = record parent {
  number = 51;
  timestamp = 1020;
  gas_limit = 10009000;
  gas_used = 21000;
  total_score = 600;
}

header_test : validate_block_header verify fork header parent 1015 ≡ valid
unfolding validate_block_header is_valid check_seal check_com
header_test = refl

-- The clock is more than an interval behind.
future_test : validate_block_header verify fork header parent 1009 ≡ future_block
unfolding validate_block_header
future_test = refl

com_test :
    validate_block_header verify fork (record header { com_vote = true }) parent 1015
    ≡ com_before_fork
unfolding validate_block_header is_valid check_seal check_com
com_test = refl

-- The first block of the fork takes the state root of its parent as alpha.
vrf_test :
    validate_block_header verify fork
      (record header { number = 100; alpha = 3 ∷ []; signature = zeros 146 })
      (record parent { number = 99 })
      1015
    ≡ valid
unfolding validate_block_header is_valid check_seal check_com beta bytes_equal
vrf_test = refl

short_test :
    validate_block_header verify fork (record header { number = 100 }) parent 1015
    ≡ signature_length_invalid
unfolding validate_block_header is_valid check_seal check_com
short_test = refl

validate_block_header-Accepted_example :
    (validate_block_header verify fork header parent 1015 ≡ valid)
    ↔ Accepted verify fork header parent 1015
validate_block_header-Accepted_example =
    validate_block_header-Accepted verify fork header parent 1015 (omega arith)
