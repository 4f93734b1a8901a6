-- ===== src/Tests/Packing.antt =====
-- Headers that a packer builds before and after the fork VIP214.
use rmit.Prelude.{◌≡◌, refl, true, none, some, [], ◌∷◌, arith}
use rmit.Block.GasLimit.{qualify, adjust, min64}
use rmit.Block.Signed.{is_positive, to_int64, to_uint64}
use rmit.Consensus.Headers.{BlockHeader, valid, beta, validate_block_header}
use rmit.Packer.Pack.{Signing, Flow, pack, target_limit, new_complex_signature}
use rmit.Packer.Pack.Checked.{IsSound, validate_block_header-pack}
use rmit.Tests.Validation.{zeros, fork, parent}

-- Signatures and proofs of zeros.
abbrev signing : Signing
signing = record {
  address = 11;
  sign = λ h. zeros 65;
  prove = λ alpha. some (zeros 81);
  verify = λ h. some (7 ∷ []);
}

signing-IsSound : IsSound signing
signing-IsSound = record { plain = λ h. refl; proved = λ h proof is. (7 ∷ [], refl) }

-- With a target of 20000000 the limit grows by as much as may be.
abbrev flow : Flow
flow = record {
  node_master = 11;
  parent = parent;
  time = 1020;
  total_score = 600;
  gas_limit = 10009765;
  gas_used = 21000;
  state_root = 4 ∷ [];
}

abbrev packed : BlockHeader
packed = record parent {
  number = 51;
  timestamp = 1020;
  gas_limit = 10009765;
  gas_used = 21000;
  total_score = 600;
  state_root = 4 ∷ [];
}

pack_test : pack signing fork flow true ≡ some packed
unfolding pack
pack_test = refl

other_key_test : pack (record signing { address = 12 }) fork flow true ≡ none
unfolding pack
other_key_test = refl

-- From the fork on the signature carries a proof.
pack_proof_test :
    pack signing (record fork { vip214 = 51 }) flow true
    ≡ some (record packed { alpha = 3 ∷ []; signature = zeros 146 })
unfolding pack beta new_complex_signature
pack_proof_test = refl

limit_test : 10009765 ≡ target_limit 20000000 10000000
unfolding target_limit qualify adjust min64 is_positive to_int64 to_uint64
limit_test = refl

validate_block_header-pack_example :
    validate_block_header signing.verify fork packed parent 1015 ≡ valid
validate_block_header-pack_example =
    validate_block_header-pack signing fork flow true 20000000 1015 packed signing-IsSound
      (omega arith) (omega arith) limit_test (omega arith) (omega arith) (omega arith, omega arith)
      (omega arith) (omega arith) pack_test
