-- ===== src/Consensus/Headers/Accepted.antt =====
-- Which headers pass the checks.
use rmit.Prelude.{
  ℕ, suc, ◌+◌, ◌*◌, ◌-◌, ◌/◌, ◌%◌, ◌≤◌, ◌<◌, ◌≡◌, ◌↔◌, ◌⊎◌, inl, inr, refl, true, false, Option,
  none, some, List, [], ◌∷◌, ltb, Bool-cases, Option-cases, arith, ap,
}
use rmit.Thor.{block_interval, u64_mod}
use rmit.Block.GasLimit.{is_valid}
use rmit.Consensus.Headers.{
  BlockHeader, ForkConfig, Verdict, valid, complex_sig_size, bytes_length, bytes_equal, beta,
  expected_alpha, check_alpha, check_seal, check_com, otherwise, validate_block_header,
}

module _ (verify : BlockHeader → Option (List ℕ)) (fork : ForkConfig)
    (header parent : BlockHeader) where
  -- Before the fork VIP214 there is no alpha and a plain signature; from it on the alpha continues
  -- the chain of VRF outputs, and the header has one of its own.
  abbrev pub Sealed : Type 0
  Sealed =
      (header.number < fork.vip214) × (header.alpha ≡ []) × (bytes_length header.signature ≡ 65)
      ⊎ (fork.vip214 ≤ header.number)
        × (bytes_length header.signature ≡ complex_sig_size)
        × ((parent_beta : List ℕ) × (own_beta : List ℕ) × (beta verify parent ≡ some parent_beta)
            × (header.alpha ≡ expected_alpha verify parent parent_beta)
            × (beta verify header ≡ some own_beta))

  -- What is required of a header, at a time of the clock.
  pub record Accepted (now : ℕ) : Type 0 where
    pub slot : (k : ℕ) × (header.timestamp ≡ parent.timestamp + block_interval * suc k)
    pub due : header.timestamp ≤ now + block_interval
    pub limit : is_valid header.gas_limit parent.gas_limit ≡ true
    pub used : header.gas_used ≤ header.gas_limit
    pub score : parent.total_score < header.total_score
    pub seal : Sealed
    pub vote : header.com_vote ≡ true → fork.finality ≤ header.number

bytes_equal_iff : (bs cs : List ℕ) → (bytes_equal bs cs ≡ true) ↔ (bs ≡ cs)
unfolding bytes_equal
bytes_equal_iff [] [] = (λ h. refl, λ h. refl)
bytes_equal_iff [] (c ∷ cs) = (λ h. absurd (cc), λ h. absurd (cc))
bytes_equal_iff (b ∷ bs) [] = (λ h. absurd (cc), λ h. absurd (cc))
bytes_equal_iff (b ∷ bs) (c ∷ cs) = grind (arith, bytes_equal_iff bs cs)

no_bytes : (bs : List ℕ) → ltb 0 (bytes_length bs) ≡ false → bs ≡ []
no_bytes [] h = refl
no_bytes (b ∷ bs) h = absurd (ground arith)

-- The time slots behind the parent, by the remainder that is checked.
slot_of :
    (t p : ℕ) → p < t → (t - p) % block_interval ≡ 0 → (k : ℕ) × (t ≡ p + block_interval * suc k)
slot_of t p later rounded = ((t - p) / block_interval - 1, omega arith)

slot_rounded : (t p k : ℕ) → t ≡ p + block_interval * suc k → (t - p) % block_interval ≡ 0
slot_rounded t p k is = omega arith

otherwise_valid :
    (verify : BlockHeader → Option (List ℕ)) (first next : Verdict)
    → otherwise verify first next ≡ valid
    → (first ≡ valid) × (next ≡ valid)
otherwise_valid verify valid next h = (refl, h)
otherwise_valid verify refused next h = absurd (cc)

-- The comparisons of the checks, as conditions.
record Passed (verify : BlockHeader → Option (List ℕ)) (fork : ForkConfig)
    (header parent : BlockHeader) (now : ℕ) : Type 0 where
  later : parent.timestamp < header.timestamp
  rounded : (header.timestamp - parent.timestamp) % block_interval ≡ 0
  due : header.timestamp ≤ (now + block_interval) % u64_mod
  limit : is_valid header.gas_limit parent.gas_limit ≡ true
  used : header.gas_used ≤ header.gas_limit
  score : parent.total_score < header.total_score
  rest :
      otherwise verify (check_seal verify fork header parent) (check_com verify fork header) ≡ valid

module _ (verify : BlockHeader → Option (List ℕ)) (fork : ForkConfig) (header parent : BlockHeader)
    (now : ℕ) where
  valid-Passed :
      validate_block_header verify fork header parent now ≡ valid
      → Passed verify fork header parent now
  unfolding validate_block_header
  valid-Passed h = record {
    later = ground arith;
    rounded = ground arith;
    due = ground arith;
    limit = ground arith;
    used = ground arith;
    score = ground arith;
    rest = ground arith;
  }

  Passed-valid :
      Passed verify fork header parent now
      → validate_block_header verify fork header parent now ≡ valid
  unfolding validate_block_header
  Passed-valid p = ground (arith, p.later, p.rounded, p.due, p.limit, p.used, p.score, p.rest)

  check_com_valid :
      (check_com verify fork header ≡ valid)
      ↔ (header.com_vote ≡ true → fork.finality ≤ header.number)
  unfolding check_com
  check_com_valid = elim (Bool-cases header.com_vote) [
    | inl votes ↦ ground (arith, votes)
    | inr silent ↦ ground (arith, silent)
  ]

  seal_before :
      header.number < fork.vip214
      → check_seal verify fork header parent ≡ valid
      → Sealed verify fork header parent
  unfolding check_seal
  seal_before early h = inl (early, no_bytes header.alpha (ground arith), ground arith)

  seal_after :
      fork.vip214 ≤ header.number
      → check_seal verify fork header parent ≡ valid
      → (bytes_length header.signature ≡ complex_sig_size)
        × (check_alpha verify header parent (beta verify parent) ≡ valid)
  unfolding check_seal
  seal_after late h = (ground arith, ground arith)

  alpha_checked :
      (found : Option (List ℕ))
      → check_alpha verify header parent found ≡ valid
      → (parent_beta : List ℕ) × (own_beta : List ℕ) × (found ≡ some parent_beta)
        × (header.alpha ≡ expected_alpha verify parent parent_beta)
        × (beta verify header ≡ some own_beta)
  alpha_checked none h = absurd (cc)
  alpha_checked (some b) h =
      elim (Bool-cases (bytes_equal header.alpha (expected_alpha verify parent b))) [
        | inl same ↦ elim (Option-cases (beta verify header)) [
          | inl failed ↦ absurd (ground (arith, same, failed, h))
          | inr (own, is) ↦ (
            b,
            own,
            refl,
            (bytes_equal_iff header.alpha (expected_alpha verify parent b)).0 same,
            is,
          )
        ]
        | inr other ↦ absurd (ground (arith, other, h))
      ]

  sealed_checked : Sealed verify fork header parent → check_seal verify fork header parent ≡ valid
  unfolding check_seal
  sealed_checked (inl (early, empty, length)) = ground (arith, early, length, ap bytes_length empty)
  sealed_checked (inr (late, length, (pb, own, found, alpha, is))) = ground (
    arith,
    late,
    length,
    found,
    is,
    (bytes_equal_iff header.alpha (expected_alpha verify parent pb)).1 alpha,
  )

  checked_sealed : check_seal verify fork header parent ≡ valid → Sealed verify fork header parent
  checked_sealed h = elim (Bool-cases (ltb header.number fork.vip214)) [
    | inl early ↦ seal_before (ground (arith, early)) h
    | inr late ↦
        let from : fork.vip214 ≤ header.number = ground (arith, late) in
        let (length, alpha) = seal_after from h in
        inr (from, length, alpha_checked (beta verify parent) alpha)
  ]

-- The checks of a header find nothing exactly if it is in a later time slot of its parent, not
-- further ahead of the clock than one interval, its gas limit valid for the parent's and not
-- exceeded, its score above the parent's, its seal and alpha as the fork VIP214 requires, and its
-- vote not before the fork FINALITY; the clock does not wrap.
pub validate_block_header-Accepted :
    (verify : BlockHeader → Option (List ℕ)) (fork : ForkConfig) (header parent : BlockHeader)
    (now : ℕ)
    → now + block_interval < u64_mod
    → (validate_block_header verify fork header parent now ≡ valid)
      ↔ Accepted verify fork header parent now
validate_block_header-Accepted verify fork header parent now fits = (
  λ h.
      let p = valid-Passed verify fork header parent now h in
      let (seal, vote) =
        otherwise_valid verify (check_seal verify fork header parent) (check_com verify fork header)
          p.rest in
      record {
        slot = slot_of header.timestamp parent.timestamp p.later p.rounded;
        due = ground (arith, p.due);
        limit = p.limit;
        used = p.used;
        score = p.score;
        seal = checked_sealed verify fork header parent now seal;
        vote = (check_com_valid verify fork header parent now).0 vote;
      },
  λ a. Passed-valid verify fork header parent now (record {
    later = omega (arith, a.slot.1);
    rounded = slot_rounded header.timestamp parent.timestamp a.slot.0 a.slot.1;
    due = ground (arith, a.due);
    limit = a.limit;
    used = a.used;
    score = a.score;
    rest =
        rw (sealed_checked verify fork header parent now a.seal)
          ((check_com_valid verify fork header parent now).1 a.vote);
  }),
)
