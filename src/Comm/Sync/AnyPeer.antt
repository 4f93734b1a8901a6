-- ===== src/Comm/Sync/AnyPeer.antt =====
-- The search with a peer whose answers need not be those of any chain.
use rmit.Prelude.{
  ℕ, zero, suc, ◌+◌, ◌-◌, ◌*◌, ◌/◌, ◌%◌, ◌≤◌, ◌<◌, ◌≡◌, ◌⊎◌, inl, inr, refl, Bool, true, Option,
  some, nat_beq, if◌then◌else◌, Bool-cases, arith, ap, sym, ◌∙◌, dec_lt, dec_le, ℕ_discrete,
}
use rmit.Thor.{u32_mod}
use rmit.Comm.Sync.{is_overlapped, find, fast_seek, find_common_ancestor}

module _ (remote local : ℕ → Option ℕ) (head : ℕ) where
  -- Every question up to the head is answered.
  abbrev pub Answered : Type 0
  Answered = (n : ℕ) → n ≤ head → (b : Bool) × (is_overlapped remote local n ≡ some b)

  -- A number that both chains are known to share, or else 0.
  abbrev pub Shared : ℕ → Type 0
  Shared n = (n ≡ 0) ⊎ (is_overlapped remote local n ≡ some true)

  module _ (answers : Answered) (small : head + head < u32_mod) where
    find-Shared :
        (rounds start end ancestor : ℕ)
        → end ≤ head
        → start ≤ end
        → end < start + rounds
        → ancestor ≤ start
        → Shared ancestor
        → (n : ℕ) × (find remote local rounds start end ancestor ≡ some n) × (n ≤ end) × Shared n
    unfolding find
    find-Shared zero start end ancestor h le short low shared = absurd (omega arith)
    find-Shared (suc rounds) start end ancestor h le short low shared =
        elim (ℕ_discrete start end) [
          | yes one ↦
              let (b, is) = answers start (omega arith) in
              elim (Bool-cases b) [
                | inl hit ↦ (start, ground (arith, one, is, hit), le, inr (is ∙ ap some hit))
                | inr miss ↦ (ancestor, ground (arith, one, is, miss), omega arith, shared)
              ]
          | no several ↦
              let mid : ℕ = (start + end) % u32_mod / 2 in
              let mid_is : mid ≡ (start + end) / 2 = omega arith in
              let (b, is) = answers mid (omega arith) in
              elim (Bool-cases b) [
                | inl hit ↦
                    let (n, found, le', s) =
                      find-Shared rounds (mid + 1) end mid h (omega arith) (omega arith)
                        (omega arith) (inr (is ∙ ap some hit)) in
                    (n, ground (arith, several, is, hit, found), le', s)
                | inr miss ↦ elim (dec_lt start mid) [
                  | yes room ↦
                      let (n, found, le', s) =
                        find-Shared rounds start (mid - 1) ancestor (omega arith) (omega arith)
                          (omega arith) low shared in
                      (n, ground (arith, several, is, miss, room, found), omega (arith, le'), s)
                  | no none_left ↦
                      (ancestor, ground (arith, several, is, miss, none_left), omega arith, shared)
                ]
              ]
        ]

    fast_seek-Shared :
        (rounds backward : ℕ)
        → head ≤ backward + rounds
        → (seek : ℕ) × (fast_seek remote local (suc rounds) head backward ≡ some seek)
          × (seek ≤ head)
          × Shared seek
    unfolding fast_seek
    fast_seek-Shared zero backward enough = (0, ground (arith, enough), omega arith, inl refl)
    fast_seek-Shared (suc rounds) backward enough = elim (dec_le head backward) [
      | yes all ↦ (0, ground (arith, all), omega arith, inl refl)
      | no left ↦
          let (b, is) = answers (head - backward) (omega arith) in
          elim (Bool-cases b) [
            | inl hit ↦ (
              head - backward,
              ground (arith, left, is, hit),
              omega arith,
              inr (is ∙ ap some hit),
            )
            | inr miss ↦
                let next : ℕ = if nat_beq backward 0 then 1 else backward * 2 % u32_mod in
                let grows : backward + 1 ≤ next = ground arith in
                let (seek, found, le, s) = fast_seek-Shared rounds next (omega arith) in
                (seek, ground (arith, left, is, miss, found), le, s)
          ]
    ]

    -- Where the peer and the repository answer every question up to a head below 2 ^ 31 without an
    -- error, always alike for the same number but in no way else consistent, the search ends: with a
    -- number up to the head at which the answers agree, or with 0.
    pub find_common_ancestor-Shared :
        (n : ℕ) × (find_common_ancestor remote local head ≡ some n) × (n ≤ head) × Shared n
    unfolding find_common_ancestor
    find_common_ancestor-Shared = elim (ℕ_discrete head 0) [
      | yes empty ↦ (0, ground (arith, empty), omega arith, inl refl)
      | no some_blocks ↦
          let (seek, is, le, shared) = fast_seek-Shared head 0 (omega arith) in
          elim (ℕ_discrete seek head) [
            | yes found ↦ (
              head,
              ground (arith, some_blocks, is, found),
              omega arith,
              elim shared [
                | inl z ↦ absurd (omega arith)
                | inr s ↦ inr (ap (is_overlapped remote local) (sym found) ∙ s)
              ],
            )
            | no behind ↦
                let (n, found, le', s) =
                  find-Shared (suc head) seek head 0 (omega arith) le (omega arith) (omega arith)
                    (inl refl) in
                (n, ground (arith, some_blocks, is, behind, found), le', s)
          ]
    ]
