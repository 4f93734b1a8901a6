-- ===== src/Tests/Finalizing.antt =====
-- Finality on the chain with one signer, two or three rounds of which have saved qualities.
use rmit.Prelude.{
  ℕ, zero, suc, ◌+◌, ◌*◌, ◌^◌, ◌≤◌, ◌<◌, ◌≡◌, ◌≢◌, refl, true, false, some, none, List, [], ◌∷◌,
  arith, number_key, sym, ◌∙◌,
}
use rmit.Prelude.Assoc.{lookup, insert, delete}
use rmit.Prelude.Fallible.{some_eq}
use rmit.Bft.Rounds.{get_check_point, get_store_point, is_check_point}
use rmit.Bft.Justifier.{empty, add_block, summarize}
use rmit.Bft.Walk.{walk}
use rmit.Bft.Engine.{
  number_of, compute_state, get_quality, vote_set, fresh_justifier, new_justifier,
  last_of_parent_round, start_round, get_max_block_proposers, remember,
}
use rmit.Bft.Search.{
  search_start, round_start, round_quality, round_count, checkpoint_at, find_checkpoint_by_quality,
}
use rmit.Bft.Search.First.{find_checkpoint_first, find_checkpoint_missing}
use rmit.Bft.Finality.{FinalityState, has_block, commit_block, accepts, select, better_than}
use rmit.Bft.Finality.Forward.{Behind, commit_block-Behind}
use rmit.Bft.Finality.Preference.{select_asymm}
use rmit.Bft.Casts.{
  ready_casts, should_vote, vote_with, recent_justified, slice_casts, no_conflict, includes,
}
use rmit.Bft.Casts.Conflicts.{Agreed, should_vote-Agreed}
use rmit.Tests.Chains.{
  chain, IsBlock, repo, is_tree, idle, idle-IsValid, search, search_from, search-IsSearch,
  repo-IsNumbered,
}

abbrev at : ℕ → ℕ
at n = n * 2 ^ 224

-- The qualities of three rounds.
abbrev rounds : List (ℕ × ℕ)
rounds = (at 179, 1) ∷ (at 359, 2) ∷ (at 539, 3) ∷ []

find_test : find_checkpoint_by_quality search repo rounds 2 0 (at 539) ≡ some (at 180)
unfolding find_checkpoint_by_quality round_count search_start round_quality round_start
    checkpoint_at number_of get_check_point get_store_point get_quality lookup search_from
find_test = refl

saved :
    (i : ℕ)
    → i < round_count repo 0 (at 539)
    → round_quality repo rounds 0 (at 539) i ≡ some (i + 1)
unfolding round_count search_start round_quality round_start number_of get_check_point
    get_store_point get_quality lookup
saved zero h = refl
saved (suc zero) h = refl
saved (suc (suc zero)) h = refl
saved (suc (suc (suc i))) h = absurd (omega arith)

find_checkpoint_first_example :
    (m : ℕ) × (m ≤ 1)
    × (m + 1 ≡ 2)
    × ((i : ℕ) → i < m → i + 1 < 2)
    × (find_checkpoint_by_quality search repo rounds 2 0 (at 539)
        ≡ repo.block_at (at 539) (round_start repo 0 m))
unfolding round_count search_start number_of get_check_point
find_checkpoint_first_example =
    find_checkpoint_first search search-IsSearch repo rounds 0 (at 539) (λ i. i + 1) 2 1 saved
      (λ i k le h. omega arith) (omega arith) refl

missing :
    (i : ℕ) → i < round_count repo 0 (at 539) → round_quality repo rounds 0 (at 539) i ≢ some 9
unfolding round_count search_start number_of get_check_point
missing i h e = let nine : i + 1 ≡ 9 = some_eq (sym (saved i h) ∙ e) in absurd (omega arith)

find_checkpoint_missing_test : find_checkpoint_by_quality search repo rounds 9 0 (at 539) ≡ none
find_checkpoint_missing_test =
    find_checkpoint_missing search search-IsSearch repo rounds 0 (at 539) 9 missing

-- The first checkpoint is finalized, and the node voted for the second.
abbrev voter : FinalityState
voter = record {
  engine = record { qualities = (at 179, 1) ∷ (at 359, 2) ∷ []; states = []; justifiers = [] };
  finalized = 0;
  saved = none;
  justified = none;
  casts = some ((at 180, 2) ∷ []);
}

commit_block-Behind_example :
    Behind search search-IsSearch repo repo-IsNumbered 0
      (at 359)
      (commit_block search repo voter (chain (at 359)) true).0
unfolding is_check_point number_of search_start get_check_point accepts
commit_block-Behind_example =
    commit_block-Behind search search-IsSearch repo repo-IsNumbered voter (chain (at 359)) true refl
      (omega arith) refl

select_test : (select repo idle (chain (at 2)) (chain (at 1))).1 ≡ some true
unfolding select compute_state lookup vote_set fresh_justifier new_justifier last_of_parent_round
    start_round get_max_block_proposers walk add_block summarize empty number_of get_check_point
    get_quality insert delete remember better_than
select_test = refl

select_asymm_example : (select repo idle (chain (at 1)) (chain (at 2))).1 ≡ some false
select_asymm_example =
    select_asymm repo IsBlock chain is_tree idle idle (at 2) (at 1) idle-IsValid idle-IsValid refl
      (2, refl, omega arith) (1, refl, omega arith) select_test

abbrev keep : List (ℕ × ℕ) → List (ℕ × ℕ)
keep casts = casts

vote_test : (should_vote search repo keep 7 (λ n. some []) voter (at 360)).1 ≡ some true
unfolding should_vote ready_casts vote_with recent_justified slice_casts no_conflict includes
    has_block find_checkpoint_by_quality round_count search_start round_quality round_start
    checkpoint_at search_from get_store_point compute_state lookup vote_set fresh_justifier
    new_justifier last_of_parent_round start_round get_max_block_proposers walk add_block summarize
    empty number_of get_check_point get_quality insert delete remember
vote_test = refl

should_vote-Agreed_example :
    (casts : List (ℕ × ℕ)) × ((ready_casts repo 7 (λ n. some []) voter).casts ≡ some casts)
    × Agreed search repo keep casts (ready_casts repo 7 (λ n. some []) voter) (at 360)
should_vote-Agreed_example =
    should_vote-Agreed search repo keep 7 (λ n. some []) voter (at 360) (λ c cs m. m) vote_test
