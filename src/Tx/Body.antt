-- ===== src/Tx/Body.antt =====
-- tx/transaction.go and tx/receipt.go: what the packer and the validation of blocks read of a
-- transaction and of its receipt.
use Prim.Native.Nat.{bit_and}
use rmit.Prelude.{ℕ, ◌+◌, ◌/◌, ◌%◌, Bool, true, false, ◌&&◌, Option, List, [], ◌∷◌, nat_beq, ltb}
use rmit.Thor.{u32_mod, u64_mod}
use rmit.Tx.Reserved.{Reserved}

-- `origin` is `none` where it cannot be recovered from the signature, and `id` is then 0.
pub record Transaction : Type 0 where
  pub id : ℕ
  pub origin : Option ℕ
  pub chain_tag : ℕ
  pub block_ref : ℕ
  pub expiration : ℕ
  pub gas : ℕ
  pub depends_on : Option ℕ
  pub reserved : Reserved

-- `outputs` stands for the fields that the packer and the validation do not read.
pub record Receipt : Type 0 where
  pub gas_used : ℕ
  pub reverted : Bool
  pub outputs : ℕ

-- `BlockRef().Number()`: the first four of the eight bytes.
unfoldable pub ref_number : Transaction → ℕ
ref_number t = t.block_ref / u32_mod

unfoldable pub is_expired : Transaction → ℕ → Bool
is_expired t block_num = ltb ((ref_number t + t.expiration) % u64_mod) block_num

abbrev pub no_unused : List (List ℕ) → Bool
no_unused [] = true
no_unused (raw ∷ raws) = false

-- `true` where the source returns no error.
unfoldable pub test_features : ℕ → Transaction → Bool
test_features supported t =
    nat_beq (bit_and t.reserved.features supported) t.reserved.features
    && no_unused t.reserved.unused
