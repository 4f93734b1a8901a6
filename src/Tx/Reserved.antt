-- ===== src/Tx/Reserved.antt =====
-- tx/reserved.go: the reserved fields of a transaction, a list of raw values whose empty values at the
-- end are left out.
pub mod Trimmed
use rmit.Prelude.{
  ℕ, zero, suc, ◌-◌, Bool, true, false, ◌||◌, Option, none, some, List, [], ◌∷◌, nat_beq,
  if◌then◌else◌, length, get_elem?, take,
}
use rmit.Prelude.Fallible.{◌>>=◌}

-- Raw values are bytes, which are numbers.
pub record Reserved : Type 0 where
  pub features : ℕ
  pub unused : List (List ℕ)

-- Code from outside: the RLP of the features.
pub record FeatureCodec : Type 0 where
  pub encode_features : ℕ → List ℕ
  pub decode_features : List ℕ → Option ℕ

-- The RLP of an empty list is the byte 192, that of an empty text 128.
unfoldable pub is_empty_raw : List ℕ → Bool
is_empty_raw [] = true
is_empty_raw (b ∷ []) = nat_beq b 192 || nat_beq b 128
is_empty_raw (b ∷ c ∷ bs) = false

-- The loop of `EncodeRLP`, from the end; an index out of range would be a fault.
unfoldable pub pop_empty : ℕ → List (List ℕ) → Option (List (List ℕ))
pop_empty zero raws = some raws
pop_empty (suc i) raws =
    let popped = pop_empty i (take i raws) in
    get_elem? raws i >>= λ raw. if is_empty_raw raw then popped else some raws

module _ (k : FeatureCodec) where
  unfoldable pub encode_reserved : Reserved → Option (List (List ℕ))
  encode_reserved r =
      let raws = k.encode_features r.features ∷ r.unused in pop_empty (length raws) raws

  -- `none` is an error.
  unfoldable pub decode_reserved : List (List ℕ) → Option Reserved
  decode_reserved [] = some (record { features = 0; unused = [] })
  decode_reserved (raw ∷ raws) = get_elem? (raw ∷ raws) (length (raw ∷ raws) - 1) >>= λ last.
      if is_empty_raw last
      then none
      else (k.decode_features raw >>= λ feat. some (record { features = feat; unused = raws }))
