-- ===== src/Tests/Blocks.antt =====
-- The gas limit at values of the main network.
use rmit.Prelude.{◌≡◌, refl, true, arith}
use rmit.Block.Signed.{neg, to_int64, to_uint64, negate, is_positive}
use rmit.Block.GasLimit.{
  min64, is_valid, adjust, qualify, adjust-is_valid, qualify_valid, qualify_fixed,
}

qualify_test : qualify 40000000 30000000 ≡ 30029296
unfolding qualify adjust min64 to_int64 to_uint64 negate is_positive
qualify_test = refl

floor_test : adjust 1000100 (neg 5000) ≡ 1000000
unfolding adjust min64 to_uint64 negate is_positive
floor_test = refl

adjust-is_valid_test : is_valid (adjust 1000100 (neg 5000)) 1000100 ≡ true
adjust-is_valid_test = adjust-is_valid 1000100 (neg 5000) (omega arith) (omega arith)

qualify_valid_test : is_valid (qualify 40000000 30000000) 30000000 ≡ true
qualify_valid_test = qualify_valid 40000000 30000000 (omega arith) (omega arith)

qualify_fixed_test : qualify 30010000 30000000 ≡ 30010000
unfolding is_valid
qualify_fixed_test = qualify_fixed 30010000 30000000 (omega arith) (omega arith) (omega arith) refl
