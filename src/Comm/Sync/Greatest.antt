-- ===== src/Comm/Sync/Greatest.antt =====
-- The search finds the last block in common.
use rmit.Prelude.{
  ℕ, zero, suc, ◌+◌, ◌-◌, ◌*◌, ◌/◌, ◌%◌, ◌≤◌, ◌<◌, ◌≡◌, ◌⊎◌, inl, inr, true, false, Option, some,
  nat_beq, if◌then◌else◌, arith, dec_lt, dec_le, ℕ_discrete,
}
use rmit.Thor.{u32_mod}
use rmit.Comm.Sync.{is_overlapped, find, fast_seek, find_common_ancestor}

module _ (remote local : ℕ → Option ℕ) (top head : ℕ) where
  -- Every question up to the head is answered, and the chains agree exactly up to `top`.
  pub record Forks : Type 0 where
    pub within : top ≤ head
    pub common : (n : ℕ) → n ≤ top → is_overlapped remote local n ≡ some true
    pub apart : (n : ℕ) → top < n → n ≤ head → is_overlapped remote local n ≡ some false

  module _ (f : Forks) (small : head + head < u32_mod) where
    find_top :
        (rounds start end ancestor : ℕ)
        → end ≤ head
        → start ≤ end
        → end < start + rounds
        → top ≤ end
        → (start ≤ top) ⊎ (ancestor ≡ top)
        → find remote local rounds start end ancestor ≡ some top
    unfolding find
    find_top zero start end ancestor h le short below at = absurd (omega arith)
    find_top (suc rounds) start end ancestor h le short below at = elim (ℕ_discrete start end) [
      | yes one ↦ elim (dec_le start top) [
        | yes low ↦ ground (arith, one, f.common start low)
        | no high ↦
            let is : ancestor ≡ top = elim at [
              | inl low ↦ absurd (omega arith)
              | inr same ↦ same
            ] in
            ground (arith, one, is, f.apart start (omega arith) (omega arith))
      ]
      | no several ↦
          let mid : ℕ = (start + end) % u32_mod / 2 in
          let mid_is : mid ≡ (start + end) / 2 = omega arith in
          elim (dec_le mid top) [
            | yes low ↦
                let next : (mid + 1 ≤ top) ⊎ (mid ≡ top) = omega arith in
                let rest =
                  find_top rounds (mid + 1) end mid h (omega arith) (omega arith) below next in
                ground (arith, several, f.common mid low, rest)
            | no high ↦
                let miss = f.apart mid (omega arith) (omega arith) in
                elim (dec_lt start mid) [
                  | yes room ↦
                      let rest =
                        find_top rounds start (mid - 1) ancestor (omega arith) (omega arith)
                          (omega arith) (omega arith) at in
                      ground (arith, several, miss, room, rest)
                  | no none_left ↦
                      let is : ancestor ≡ top = elim at [
                        | inl low ↦ absurd (omega arith)
                        | inr same ↦ same
                      ] in
                      ground (arith, several, miss, none_left, is)
                ]
          ]
    ]

    -- The seek stops at the head, below it at a number in common, or at 0.
    fast_seek_lem :
        (rounds backward : ℕ)
        → 0 < head
        → head ≤ backward + rounds
        → (seek : ℕ) × (fast_seek remote local (suc rounds) head backward ≡ some seek)
          × (seek ≤ top)
          × (seek ≡ head → top ≡ head)
    unfolding fast_seek
    fast_seek_lem zero backward some_blocks enough =
        (0, ground (arith, enough), omega arith, λ is. absurd (omega arith))
    fast_seek_lem (suc rounds) backward some_blocks enough = elim (dec_le head backward) [
      | yes all ↦ (0, ground (arith, all), omega arith, λ is. absurd (omega arith))
      | no left ↦ elim (dec_le (head - backward) top) [
        | yes low ↦ (
          head - backward,
          ground (arith, left, f.common (head - backward) low),
          low,
          λ is. omega (arith, f.within),
        )
        | no high ↦
            let miss = f.apart (head - backward) (omega arith) (omega arith) in
            let next : ℕ = if nat_beq backward 0 then 1 else backward * 2 % u32_mod in
            let grows : backward + 1 ≤ next = ground arith in
            let (seek, is, low, at_head) = fast_seek_lem rounds next some_blocks (omega arith) in
            (seek, ground (arith, left, miss, is), low, at_head)
      ]
    ]

    -- Where the chains agree up to some number and no further, and every question is answered, the
    -- search returns that number, for a head below 2 ^ 31.
    pub find_common_ancestor_top : find_common_ancestor remote local head ≡ some top
    unfolding find_common_ancestor
    find_common_ancestor_top = elim (dec_lt 0 head) [
      | no empty ↦
          let zero_is : head ≡ 0 = omega arith in
          let top_is : 0 ≡ top = omega (arith, f.within) in ground (arith, zero_is, top_is)
      | yes some_blocks ↦
          let (seek, is, low, at_head) = fast_seek_lem head 0 some_blocks (omega arith) in
          elim (ℕ_discrete seek head) [
            | yes found ↦ ground (arith, some_blocks, is, found, at_head found)
            | no behind ↦
                let rest =
                  find_top (suc head) seek head 0 (omega arith) (omega (arith, f.within))
                    (omega arith) f.within (inl low) in
                ground (arith, some_blocks, is, behind, rest)
          ]
    ]
