-- ===== src/Comm/Sync.antt =====
-- comm/sync.go: the search for the last block that the chain of a peer has in common with ours. The
-- answers of the peer and of the repository are functions, where `none` is an error.
pub mod Greatest
pub mod AnyPeer
use rmit.Prelude.{
  ℕ, zero, suc, ◌+◌, ◌-◌, ◌*◌, ◌/◌, ◌%◌, ◌≤◌, ◌<◌, ◌≡◌, Bool, true, false, Option, none, some,
  nat_beq, ltb, leb, if◌then◌else◌,
}
use rmit.Prelude.Fallible.{◌>>=◌}
use rmit.Thor.{u32_mod}

module _ (remote local : ℕ → Option ℕ) where
  -- Whether both have the same block at a number.
  unfoldable pub is_overlapped : ℕ → Option Bool
  is_overlapped num = remote num >>= λ result. local num >>= λ id. some (nat_beq id result)

  -- The inner function `find`. Each round leaves fewer numbers; `none` is also the end of the rounds.
  unfoldable pub find : ℕ → ℕ → ℕ → ℕ → Option ℕ
  find zero start end ancestor = none
  find (suc rounds) start end ancestor =
      let mid = (start + end) % u32_mod / 2 in
      let above = find rounds (mid + 1) end mid in
      let below = find rounds start (mid - 1) ancestor in
      if nat_beq start end
      then (is_overlapped start >>= λ overlapped. some (if overlapped then start else ancestor))
      else (is_overlapped mid >>= λ overlapped.
          if overlapped then above else if ltb start mid then below else some ancestor)

  -- The loop of `fastSeek`.
  unfoldable pub fast_seek : ℕ → ℕ → ℕ → Option ℕ
  fast_seek zero head backward = none
  fast_seek (suc rounds) head backward =
      let rest = fast_seek rounds head (if nat_beq backward 0 then 1 else backward * 2 % u32_mod) in
      if leb head backward
      then some 0
      else (is_overlapped (head - backward) >>= λ overlapped.
          if overlapped then some (head - backward) else rest)

  -- Both loops have a round for each number of the chain, and one more.
  unfoldable pub find_common_ancestor : ℕ → Option ℕ
  find_common_ancestor head =
      if nat_beq head 0
      then some 0
      else (fast_seek (suc head) head 0 >>= λ seek.
          if nat_beq seek head then some head else find (suc head) seek head 0)
