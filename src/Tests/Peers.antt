-- ===== src/Tests/Peers.antt =====
-- Two chains of ten blocks that share the first five.
use rmit.Prelude.{ℕ, ◌+◌, ◌≤◌, ◌≡◌, refl, Bool, Option, some, leb, nat_beq, arith, if◌then◌else◌}
use rmit.Comm.Sync.{is_overlapped, find, fast_seek, find_common_ancestor}
use rmit.Comm.Sync.Greatest.{Forks, find_common_ancestor_top}
use rmit.Comm.Sync.AnyPeer.{Shared, find_common_ancestor-Shared}

-- The identifier of a block is its number, and on the other chain that of a number 100 higher.
abbrev ours : ℕ → Option ℕ
ours n = some n

abbrev theirs : ℕ → Option ℕ
theirs n = some (if leb n 4 then n else n + 100)

search_test : find_common_ancestor theirs ours 9 ≡ some 4
unfolding find_common_ancestor fast_seek find is_overlapped
search_test = refl

forks : Forks theirs ours 4 9
unfolding is_overlapped
forks = record { within = omega arith; common = λ n h. ground arith; apart = λ n h k. ground arith }

find_common_ancestor_top_example : find_common_ancestor theirs ours 9 ≡ some 4
find_common_ancestor_top_example = find_common_ancestor_top theirs ours 4 9 forks (omega arith)

-- A peer that claims to share the odd blocks only.
abbrev odd : ℕ → Option ℕ
odd n = some (if nat_beq n 1 then 1 else if nat_beq n 3 then 3 else 50)

odd_test : find_common_ancestor odd ours 4 ≡ some 3
unfolding find_common_ancestor fast_seek find is_overlapped
odd_test = refl

odd_answers : (n : ℕ) → n ≤ 4 → (b : Bool) × (is_overlapped odd ours n ≡ some b)
unfolding is_overlapped
odd_answers n h = (nat_beq n (if nat_beq n 1 then 1 else if nat_beq n 3 then 3 else 50), refl)

find_common_ancestor-Shared_example :
    (n : ℕ) × (find_common_ancestor odd ours 4 ≡ some n) × (n ≤ 4) × Shared odd ours 4 n
find_common_ancestor-Shared_example =
    find_common_ancestor-Shared odd ours 4 odd_answers (omega arith)
