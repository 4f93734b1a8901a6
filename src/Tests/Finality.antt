-- ===== src/Tests/Finality.antt =====
-- The finality engine on a chain with one signer.
use rmit.Prelude.{◌+◌, ◌*◌, ◌^◌, ◌≤◌, ◌≡◌, refl, true, false, [], ◌∷◌, arith, number_key}
use rmit.Prelude.Assoc.{lookup, insert}
use rmit.Bft.Rounds.{get_check_point, get_store_point, is_check_point, round_lem}
use rmit.Bft.Justifier.{Justifier, empty, add_block, summarize}
use rmit.Bft.Justifier.Votes.{
  IsValid, empty-IsValid, add_block-IsValid, committed_justified, add_all, cast, votes-cast,
}
use rmit.Bft.Justifier.Order.{Same, add_block_swap}
use rmit.Bft.Engine.{compute_state}
use rmit.Bft.Engine.Tree.{IsTree, spec_state, Agrees}
use rmit.Bft.Engine.Tree as Tree
use rmit.Bft.Engine.Caches.{compute_state-spec_state}
use rmit.Tests.Chains.{chain, IsBlock, repo, is_tree, idle, idle-IsValid}

round_lem_test :
    (get_check_point 200 ≤ 200)
    × (200 ≤ get_store_point 200)
    × (is_check_point (get_check_point 200) ≡ true)
    × (get_check_point (get_store_point 200) ≡ get_check_point 200)
    × (is_check_point (get_store_point 200 + 1) ≡ true)
round_lem_test = round_lem 200 (omega arith)

abbrev start : Justifier
start = record { parent_quality = 4; checkpoint = 180; threshold = 0; votes = []; com_votes = 0 }

-- One signer votes COM and then not.
vote_test :
    add_block (add_block start 7 true) 7 false
    ≡ record start { votes = (7, false) ∷ []; com_votes = 0 }
unfolding add_block lookup insert
vote_test = refl

start-IsValid : IsValid start
unfolding empty
start-IsValid = empty-IsValid 4 180 0

add_block-IsValid_test : IsValid (add_block start 7 true)
add_block-IsValid_test = add_block-IsValid start 7 true (omega arith) start-IsValid

committed_justified_test :
    let js = add_block start 7 true in
    ((summarize js).justified ≡ true) × ((summarize js).quality ≡ js.parent_quality + 1)
unfolding add_block lookup insert summarize
committed_justified_test =
    committed_justified (add_block start 7 true) add_block-IsValid_test (omega arith) refl

votes-cast_example :
    lookup 7 (add_all (empty 4 180 0) ((7, true) ∷ (8, true) ∷ (7, false) ∷ [])).votes
    ≡ cast 7 ((7, true) ∷ (8, true) ∷ (7, false) ∷ [])
votes-cast_example = votes-cast ((7, true) ∷ (8, true) ∷ (7, false) ∷ []) 4 180 0 7

add_block_swap_test :
    Same (add_block (add_block start 7 true) 7 false) (add_block (add_block start 7 false) 7 true)
add_block_swap_test = add_block_swap start 7 7 true false (omega arith)

compute_state-spec_state_example :
    ((compute_state repo idle (chain (3 * 2 ^ 224))).1 ≡ spec_state repo [] (chain (3 * 2 ^ 224)))
    × Tree.IsValid repo IsBlock chain is_tree (compute_state repo idle (chain (3 * 2 ^ 224))).0
compute_state-spec_state_example =
    compute_state-spec_state repo IsBlock chain is_tree idle (3 * 2 ^ 224) idle-IsValid
      (3, refl, omega arith)
