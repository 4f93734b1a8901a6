-- ===== src/Tests/Places.antt =====
-- Sequences of logs at places of the main network.
use rmit.Prelude.{ℕ, ◌^◌, ◌<◌, ◌≡◌, ◌↔◌, refl, arith}
use rmit.LogDb.Sequence.{
  sequence, tx_index_out_of_range, joined, new_sequence, block_number, tx_index, log_index,
}
use rmit.LogDb.Sequence.RoundTrip.{new_sequence-parts, new_sequence-Before, Before}

place_test : new_sequence 20000000 3 7 ≡ sequence 687194767363145735
unfolding new_sequence joined
place_test = refl

later_test : new_sequence 20000000 4 0 ≡ sequence 687194767364194304
unfolding new_sequence joined
later_test = refl

range_test : new_sequence 20000000 32768 0 ≡ tx_index_out_of_range
unfolding new_sequence
range_test = refl

new_sequence-parts_example :
    (s : ℕ) × (new_sequence 20000000 3 7 ≡ sequence s)
    × (s < 2 ^ 63)
    × (block_number s ≡ 20000000)
    × (tx_index s ≡ 3)
    × (log_index s ≡ 7)
new_sequence-parts_example =
    new_sequence-parts 20000000 3 7 (omega arith) (omega arith) (omega arith)

new_sequence-Before_test :
    (687194767363145735 < 687194767364194304) ↔ Before 20000000 3 7 20000000 4 0
new_sequence-Before_test = new_sequence-Before 20000000 3 7 20000000 4 0 place_test later_test
