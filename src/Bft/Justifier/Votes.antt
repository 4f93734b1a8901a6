-- ===== src/Bft/Justifier/Votes.antt =====
-- What one vote does to a justifier, and what holds of the votes of a round.
use rmit.Prelude.{
  ℕ, ◌+◌, ◌-◌, ◌%◌, ◌≤◌, ◌<◌, ◌≡◌, refl, Bool, true, false, ◌&&◌, Option, none, some, List, [], ◌∷◌,
  arith, if◌then◌else◌, length, number_key, nat_beq, count_if, nat_beq_iff,
}
use rmit.Prelude.Assoc.{lookup, insert, lookup-insert}
use rmit.Thor.{u32_mod, u64_mod}
use rmit.Bft.Justifier.{Justifier, empty, add_block, summarize}

-- One vote makes a signer's vote COM only if all its votes are.
abbrev pub merge : Option Bool → Bool → Bool
merge none c = c
merge (some v) c = v && c

abbrev pub fresh : Option Bool → ℕ
fresh none = 1
fresh (some v) = 0

abbrev pub recount : Option Bool → Bool → ℕ → ℕ
recount none true n = (n + 1) % u64_mod
recount (some true) false n = (n + (u64_mod - 1)) % u64_mod
recount _ _ n = n

length-insert :
    (k : ℕ) (v : Bool) (m : List (ℕ × Bool)) → length (insert k v m) ≡ length m + fresh (lookup k m)
unfolding insert lookup
length-insert k v [] = omega arith
length-insert k v (e ∷ m) = ground (arith, length-insert k v m)

module _ (js : Justifier) (signer : ℕ) (c : Bool) where
  pub lookup-add_block :
      (a : ℕ)
      → lookup a (add_block js signer c).votes
        ≡ (if nat_beq signer a then some (merge (lookup signer js.votes) c) else lookup a js.votes)
  unfolding add_block
  lookup-add_block a = ground (
    arith,
    lookup-insert signer a c js.votes,
    lookup-insert signer a false js.votes,
    nat_beq_iff signer a,
  )

  pub length-add_block :
      length (add_block js signer c).votes ≡ length js.votes + fresh (lookup signer js.votes)
  unfolding add_block
  length-add_block =
      ground (arith, length-insert signer c js.votes, length-insert signer false js.votes)

  pub com_votes-add_block :
      (add_block js signer c).com_votes ≡ recount (lookup signer js.votes) c js.com_votes
  unfolding add_block
  com_votes-add_block = ground arith

  pub fields-add_block :
      ((add_block js signer c).parent_quality ≡ js.parent_quality)
      × ((add_block js signer c).checkpoint ≡ js.checkpoint)
      × ((add_block js signer c).threshold ≡ js.threshold)
  unfolding add_block
  fields-add_block = (ground arith, ground arith, ground arith)

abbrev pub yes : List (ℕ × Bool) → ℕ
yes = count_if (λ e. e.1)

abbrev was_yes : Option Bool → ℕ
was_yes (some true) = 1
was_yes _ = 0

yes-insert :
    (k : ℕ) (v : Bool) (m : List (ℕ × Bool))
    → yes (insert k v m) + was_yes (lookup k m) ≡ yes m + (if v then 1 else 0)
unfolding insert lookup
yes-insert k v [] = ground arith
yes-insert k v (e ∷ m) = ground (arith, yes-insert k v m)

yes-le-length : (m : List (ℕ × Bool)) → yes m ≤ length m
yes-le-length [] = omega arith
yes-le-length (e ∷ m) = ground (arith, yes-le-length m)

-- The counter of COM votes counts the signers whose vote is COM.
pub record IsValid (js : Justifier) : Type 0 where
  pub counted : js.com_votes ≡ yes js.votes
  pub few : length js.votes < u64_mod

pub empty-IsValid : (q p t : ℕ) → IsValid (empty q p t)
unfolding empty
empty-IsValid q p t = record { counted = refl; few = omega arith }

-- A vote keeps the counter exact, as long as the signers can be counted.
pub add_block-IsValid :
    (js : Justifier) (signer : ℕ) (c : Bool)
    → length js.votes + 1 < u64_mod
    → IsValid js
    → IsValid (add_block js signer c)
unfolding add_block
add_block-IsValid js signer c room v = record {
  counted = ground (
    arith,
    v.counted,
    yes-le-length js.votes,
    yes-insert signer c js.votes,
    yes-insert signer false js.votes,
  );
  few = ground (arith, v.few, length-insert signer c js.votes, length-insert signer false js.votes);
}

-- A round that is committed is justified, and then its quality is one above its parent's.
pub committed_justified :
    (js : Justifier)
    → IsValid js
    → js.parent_quality + 1 < u32_mod
    → (summarize js).committed ≡ true
    → ((summarize js).justified ≡ true) × ((summarize js).quality ≡ js.parent_quality + 1)
unfolding summarize
committed_justified js v q h = ground (arith, v.counted, yes-le-length js.votes)

-- The votes of a list of blocks, each by its signer and its COM flag.
unfoldable pub add_all : Justifier → List (ℕ × Bool) → Justifier
add_all js [] = js
add_all js ((signer, c) ∷ blocks) = add_all (add_block js signer c) blocks

-- Two groups of votes of one signer together.
abbrev pub join : Option Bool → Option Bool → Option Bool
join none later = later
join (some v) none = some v
join (some v) (some w) = some (v && w)

-- The specification: a signer's vote is COM if every block that it signed is.
pub cast : ℕ → List (ℕ × Bool) → Option Bool
cast a [] = none
cast a ((signer, c) ∷ blocks) =
    let later = cast a blocks in if nat_beq signer a then join (some c) later else later

join-merge :
    (o : Option Bool) (c : Bool) (later : Option Bool)
    → join (some (merge o c)) later ≡ join o (join (some c) later)
join-merge o c later = ground arith

lookup-add_all :
    (blocks : List (ℕ × Bool)) (js : Justifier) (a : ℕ)
    → lookup a (add_all js blocks).votes ≡ join (lookup a js.votes) (cast a blocks)
unfolding add_all cast
lookup-add_all [] js a = ground arith
lookup-add_all ((signer, c) ∷ blocks) js a = ground (
  arith,
  lookup-add_all blocks (add_block js signer c) a,
  lookup-add_block js signer c a,
  nat_beq_iff signer a,
  join-merge (lookup signer js.votes) c (cast a blocks),
)

-- After the blocks of a round, in any order, the vote of every signer is COM exactly if it signed
-- a block and each block that it signed is COM.
pub votes-cast :
    (blocks : List (ℕ × Bool)) (q p t a : ℕ)
    → lookup a (add_all (empty q p t) blocks).votes ≡ cast a blocks
unfolding empty lookup
votes-cast blocks q p t a = lookup-add_all blocks (empty q p t) a
