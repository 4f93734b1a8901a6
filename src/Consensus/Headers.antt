-- ===== src/Consensus/Headers.antt =====
-- consensus/validator.go: the checks of a header against that of its parent. The verification of
-- a VRF proof is a parameter, which gives the beta or fails.
pub mod Accepted
use rmit.Prelude.{
  ℕ, ◌+◌, ◌-◌, ◌%◌, Bool, true, false, not, ◌&&◌, ◌||◌, Option, none, some, List, [], ◌∷◌, nat_beq,
  ltb, leb, if◌then◌else◌,
}
use rmit.Thor.{block_interval, u64_mod}
use rmit.Block.GasLimit.{is_valid}

-- The parts of a header that the checks read; bytes are numbers.
pub record BlockHeader : Type 0 where
  pub number : ℕ
  pub timestamp : ℕ
  pub gas_limit : ℕ
  pub gas_used : ℕ
  pub total_score : ℕ
  pub state_root : List ℕ
  pub alpha : List ℕ
  pub com_vote : Bool
  pub signature : List ℕ

-- The numbers of the blocks from which two forks hold.
pub record ForkConfig : Type 0 where
  pub vip214 : ℕ
  pub finality : ℕ

-- What the checks return, an error by its message.
pub data Verdict : Type 0 where
  valid : Verdict
  timestamp_behind : Verdict
  interval_not_rounded : Verdict
  future_block : Verdict
  gas_limit_invalid : Verdict
  gas_used_exceeds : Verdict
  total_score_invalid : Verdict
  alpha_not_empty : Verdict
  signature_length_invalid : Verdict
  parent_beta_failed : Verdict
  alpha_invalid : Verdict
  vrf_signature_invalid : Verdict
  com_before_fork : Verdict

abbrev pub complex_sig_size : ℕ
complex_sig_size = 81 + 65

abbrev pub bytes_length : List ℕ → ℕ
bytes_length [] = 0
bytes_length (b ∷ bs) = 1 + bytes_length bs

-- `bytes.Equal`.
unfoldable pub bytes_equal : List ℕ → List ℕ → Bool
bytes_equal [] [] = true
bytes_equal [] (c ∷ cs) = false
bytes_equal (b ∷ bs) [] = false
bytes_equal (b ∷ bs) (c ∷ cs) = nat_beq b c && bytes_equal bs cs

module _ (verify : BlockHeader → Option (List ℕ)) where
  -- `Header.Beta`, without its cache.
  unfoldable pub beta : BlockHeader → Option (List ℕ)
  beta h =
      if nat_beq h.number 0 || nat_beq (bytes_length h.signature) 65
      then some []
      else if not (nat_beq (bytes_length h.signature) complex_sig_size)
      then none
      else verify h

  -- The initial value of the chained VRF, or the beta of the parent.
  abbrev pub expected_alpha : BlockHeader → List ℕ → List ℕ
  expected_alpha parent [] = parent.state_root
  expected_alpha parent (b ∷ bs) = b ∷ bs

  abbrev pub check_alpha : BlockHeader → BlockHeader → Option (List ℕ) → Verdict
  check_alpha header parent none = parent_beta_failed
  check_alpha header parent (some parent_beta) =
      if not (bytes_equal header.alpha (expected_alpha parent parent_beta))
      then alpha_invalid
      else elim (beta header) [ none ↦ vrf_signature_invalid | some b ↦ valid ]

  unfoldable pub check_seal : ForkConfig → BlockHeader → BlockHeader → Verdict
  check_seal fork header parent =
      if ltb header.number fork.vip214
      then (if ltb 0 (bytes_length header.alpha)
          then alpha_not_empty
          else if not (nat_beq (bytes_length header.signature) 65)
          then signature_length_invalid
          else valid)
      else if not (nat_beq (bytes_length header.signature) complex_sig_size)
      then signature_length_invalid
      else check_alpha header parent (beta parent)

  unfoldable pub check_com : ForkConfig → BlockHeader → Verdict
  check_com fork header =
      if ltb header.number fork.finality && header.com_vote then com_before_fork else valid

  -- Where a check finds nothing, the next one decides.
  abbrev pub otherwise : Verdict → Verdict → Verdict
  otherwise valid next = next
  otherwise refused next = refused

  unfoldable pub validate_block_header : ForkConfig → BlockHeader → BlockHeader → ℕ → Verdict
  validate_block_header fork header parent now =
      if leb header.timestamp parent.timestamp
      then timestamp_behind
      else if not (nat_beq ((header.timestamp - parent.timestamp) % block_interval) 0)
      then interval_not_rounded
      else if ltb ((now + block_interval) % u64_mod) header.timestamp
      then future_block
      else if not (is_valid header.gas_limit parent.gas_limit)
      then gas_limit_invalid
      else if ltb header.gas_limit header.gas_used
      then gas_used_exceeds
      else if leb header.total_score parent.total_score
      then total_score_invalid
      else otherwise (check_seal fork header parent) (check_com fork header)
