-- ===== src/Bft/Justifier.antt =====
-- bft/justifier.go: the votes of one round and their summary. An address is a number.
pub mod Votes
pub mod Order
use rmit.Prelude.{
  ℕ, ◌+◌, ◌-◌, ◌%◌, Bool, true, false, not, ◌&&◌, Option, none, some, List, [], ◌∷◌, ltb,
  if◌then◌else◌, length, number_key,
}
use rmit.Prelude.Assoc.{lookup, insert}
use rmit.Thor.{u32_mod, u64_mod}

pub record BftState : Type 0 where
  pub quality : ℕ
  pub justified : Bool
  pub committed : Bool

pub record Justifier : Type 0 where
  pub parent_quality : ℕ
  pub checkpoint : ℕ
  pub threshold : ℕ
  pub votes : List (ℕ × Bool)
  pub com_votes : ℕ

-- The fields that a new justifier has whatever its round.
unfoldable pub empty : ℕ → ℕ → ℕ → Justifier
empty parent_quality checkpoint threshold = record {
  parent_quality = parent_quality;
  checkpoint = checkpoint;
  threshold = threshold;
  votes = [];
  com_votes = 0;
}

-- `prev != isCOM`, and then the vote counts as non-COM.
abbrev pub change_vote : Justifier → ℕ → Bool → Bool → Justifier
change_vote js signer true true = js
change_vote js signer false false = js
change_vote js signer true false = record js {
  votes = insert signer false js.votes;
  com_votes = (js.com_votes + (u64_mod - 1)) % u64_mod;
}
change_vote js signer false true = record js { votes = insert signer false js.votes }

unfoldable pub add_block : Justifier → ℕ → Bool → Justifier
add_block js signer is_com = elim (lookup signer js.votes) [
  | none ↦ record js {
    votes = insert signer is_com js.votes;
    com_votes = if is_com then (js.com_votes + 1) % u64_mod else js.com_votes;
  }
  | some prev ↦ change_vote js signer prev is_com
]

unfoldable pub summarize : Justifier → BftState
summarize js =
    let justified = ltb js.threshold (length js.votes) in
    record {
      quality = if justified then (js.parent_quality + 1) % u32_mod else js.parent_quality;
      justified = justified;
      committed = ltb js.threshold js.com_votes;
    }
