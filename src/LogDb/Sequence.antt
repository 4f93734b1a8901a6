-- ===== src/LogDb/Sequence.antt =====
-- logdb/sequence.go: the place of a log (block number, transaction index, log index) in one int64.
pub mod RoundTrip
use Prim.Native.Nat.{bit_and, bit_or}
use rmit.Prelude.{ℕ, ◌+◌, ◌-◌, ◌*◌, ◌/◌, ◌%◌, ◌^◌, ltb, if◌then◌else◌}
use rmit.Thor.{u32_mod}

abbrev pub block_num_bits : ℕ
block_num_bits = 28

abbrev pub tx_index_bits : ℕ
tx_index_bits = 15

abbrev pub log_index_bits : ℕ
log_index_bits = 20

-- `(1 << bits) - 1`
abbrev pub mask : ℕ → ℕ
mask bits = 2 ^ bits - 1

-- What `newSequence` returns: the sequence, or one of its errors.
pub data NewSequence : Type 0 where
  sequence : ℕ → NewSequence
  block_number_out_of_range : NewSequence
  tx_index_out_of_range : NewSequence
  log_index_out_of_range : NewSequence

-- The shifted parts stay below 2 ^ 63 by the checks.
unfoldable pub joined : ℕ → ℕ → ℕ → ℕ
joined block_num tx_index log_index =
    bit_or
      (bit_or (block_num * 2 ^ (tx_index_bits + log_index_bits)) (tx_index * 2 ^ log_index_bits))
      log_index

unfoldable pub new_sequence : ℕ → ℕ → ℕ → NewSequence
new_sequence block_num tx_index log_index =
    if ltb (mask block_num_bits) block_num
    then block_number_out_of_range
    else if ltb (mask tx_index_bits) tx_index
    then tx_index_out_of_range
    else if ltb (mask log_index_bits) log_index
    then log_index_out_of_range
    else sequence (joined block_num tx_index log_index)

unfoldable pub block_number : ℕ → ℕ
block_number s = bit_and (s / 2 ^ (tx_index_bits + log_index_bits) % u32_mod) (mask block_num_bits)

unfoldable pub tx_index : ℕ → ℕ
tx_index s = bit_and (s / 2 ^ log_index_bits) (mask tx_index_bits) % u32_mod

unfoldable pub log_index : ℕ → ℕ
log_index s = bit_and s (mask log_index_bits) % u32_mod
