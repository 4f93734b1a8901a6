-- ===== src/Bft/Finality/Preference.antt =====
-- `Select` of bft/engine.go prefers one of two blocks, whatever its caches hold.
use rmit.Prelude.{
  ℕ, ◌≡◌, refl, Bool, true, false, Option, none, some, List, arith, ltb, nat_beq, if◌then◌else◌,
  sym, ap, ◌∙◌, number_key,
}
use rmit.Prelude.Fallible.{some_eq}
use rmit.Bft.Justifier.{Justifier, BftState}
use rmit.Bft.Walk.{Header}
use rmit.Bft.Engine.{Repo, Engine, compute_state, remember, vote_set}
use rmit.Bft.Engine.Tree.{IsTree, spec_state, IsValid}
use rmit.Bft.Engine.Caches.{compute_state-spec_state}
use rmit.Bft.Finality.{better_than, select}

-- The specification: by quality, then by score, then by the smaller id.
unfoldable pub preferred : BftState → BftState → Header → Header → Bool
preferred new old header best =
    if nat_beq new.quality old.quality then better_than header best else ltb old.quality new.quality

abbrev pub spec_select : Option BftState → Option BftState → Header → Header → Option Bool
spec_select (some new) (some old) header best = some (preferred new old header best)
spec_select _ _ header best = none

remember-qualities :
    (e : Engine) (h : Header) (o : Option Justifier) → (remember e h o).0.qualities ≡ e.qualities
unfolding remember
remember-qualities e h none = refl
remember-qualities e h (some js) = refl

compute_state-qualities :
    (r : Repo) (e : Engine) (h : Header) → (compute_state r e h).0.qualities ≡ e.qualities
unfolding compute_state
compute_state-qualities r e h = ground (arith, remember-qualities e h (vote_set r e h))

select_computed :
    (r : Repo) (e : Engine) (h best : Header) (x y : Option BftState)
    → (compute_state r e h).1 ≡ x
    → (compute_state r (compute_state r e h).0 best).1 ≡ y
    → (select r e h best).1 ≡ spec_select x y h best
unfolding select preferred
select_computed r e h best none y a b = ground (arith, a)
select_computed r e h best (some new) none a b = ground (arith, a, b)
select_computed r e h best (some new) (some old) a b = ground (arith, a, b)

module _ (r : Repo) (IsBlock : ℕ → Type 0) (of_id : ℕ → Header)
    (tree : IsTree r IsBlock of_id) where
  -- `Select` decides by the states that counting every vote anew gives, and is an error only where
  -- one of these is.
  select-spec_select :
      (e : Engine) (i j : ℕ)
      → IsValid r IsBlock of_id tree e
      → IsBlock i
      → IsBlock j
      → (select r e (of_id i) (of_id j)).1
        ≡ spec_select
            (spec_state r e.qualities (of_id i))
            (spec_state r e.qualities (of_id j))
            (of_id i)
            (of_id j)
  select-spec_select e i j v bi bj =
      let e1 = (compute_state r e (of_id i)).0 in
      let (is_i, v1) = compute_state-spec_state r IsBlock of_id tree e i v bi in
      let (is_j, v2) = compute_state-spec_state r IsBlock of_id tree e1 j v1 bj in
      let same = compute_state-qualities r e (of_id i) in
      let is_j' : (compute_state r e1 (of_id j)).1 ≡ spec_state r e.qualities (of_id j) =
        is_j ∙ ap (λ q. spec_state r q (of_id j)) same in
      select_computed r e (of_id i) (of_id j) (spec_state r e.qualities (of_id i))
        (spec_state r e.qualities (of_id j)) is_i is_j'

  better_than_asymm : (h o : Header) → better_than h o ≡ true → better_than o h ≡ false
  unfolding better_than
  better_than_asymm h o b = ground (arith, b)

  preferred_asymm :
      (new old : BftState) (h o : Header)
      → preferred new old h o ≡ true
      → preferred old new o h ≡ false
  unfolding preferred
  preferred_asymm new old h o b = ground (arith, b, better_than_asymm h o)

  spec_select_asymm :
      (x y : Option BftState) (h o : Header)
      → spec_select x y h o ≡ some true
      → spec_select y x o h ≡ some false
  spec_select_asymm none y h o b = absurd (cc)
  spec_select_asymm (some new) none h o b = absurd (cc)
  spec_select_asymm (some new) (some old) h o b = ap some (preferred_asymm new old h o (some_eq b))

  -- Where `Select` prefers a block to the best one, it would not prefer the best one to that block,
  -- with any two valid caches over the same saved qualities: nodes that see both blocks in another
  -- order do not go round between them.
  pub select_asymm :
      (e e' : Engine) (i j : ℕ)
      → IsValid r IsBlock of_id tree e
      → IsValid r IsBlock of_id tree e'
      → e.qualities ≡ e'.qualities
      → IsBlock i
      → IsBlock j
      → (select r e (of_id i) (of_id j)).1 ≡ some true
      → (select r e' (of_id j) (of_id i)).1 ≡ some false
  select_asymm e e' i j v v' same bi bj h =
      let specs = λ (q : List (ℕ × ℕ)).
        spec_select (spec_state r q (of_id j)) (spec_state r q (of_id i)) (of_id j) (of_id i) in
      select-spec_select e' j i v' bj bi
      ∙ ap specs (sym same)
      ∙ spec_select_asymm (spec_state r e.qualities (of_id i)) (spec_state r e.qualities (of_id j))
          (of_id i) (of_id j) (sym (select-spec_select e i j v bi bj) ∙ h)
