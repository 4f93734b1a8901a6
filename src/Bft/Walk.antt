-- ===== src/Bft/Walk.antt =====
-- The loop of `computeState` in bft/engine.go, from a header back to the end of its votes.
use rmit.Prelude.{
  ℕ, zero, suc, ◌<◌, ◌≡◌, Bool, Option, none, some, ltb, leb, arith, if◌then◌else◌, Bool-cases, inl,
  inr, subst,
}
use rmit.Prelude.Fallible.{◌>>=◌, >>=-eq-some, some_eq}
use rmit.Thor.{u64_mod}
use rmit.Bft.Justifier.{Justifier, add_block}
use rmit.Bft.Justifier.Votes.{com_votes-add_block}
use rmit.Bft.Justifier.Order.{Same, Same-refl, Same-trans, add_block-Same, add_block_swap}

-- What the engine reads of a header. An id is a number.
pub record Header : Type 0 where
  pub id : ℕ
  pub parent_id : ℕ
  pub number : ℕ
  pub signer : ℕ
  pub is_com : Bool
  pub total_score : ℕ

-- `headers` is the repository; the fuel bounds the rounds. `none` is an error of the repository.
unfoldable pub walk : (ℕ → Option Header) → ℕ → ℕ → Justifier → Header → ℕ → Option Justifier
walk headers finality zero js h end = none
walk headers finality (suc fuel) js h end =
    let voted = add_block js h.signer h.is_com in
    let further = headers h.parent_id >>= λ parent. walk headers finality fuel voted parent end in
    if ltb h.number finality then some js else if leb h.number end then some voted else further

abbrev pub Counted : Justifier → Type 0
Counted js = js.com_votes < u64_mod

pub add_block-Counted :
    (js : Justifier) (s : ℕ) (c : Bool) → Counted js → Counted (add_block js s c)
add_block-Counted js s c h = ground (arith, com_votes-add_block js s c)

module _ (headers : ℕ → Option Header) (finality : ℕ) where
  -- Justifiers with the same votes stay so on the way back.
  pub walk-Same :
      (fuel : ℕ) {x y : Justifier} (h : Header) (end : ℕ) {x' : Justifier}
      → Same x y
      → walk headers finality fuel x h end ≡ some x'
      → (y' : Justifier) × (walk headers finality fuel y h end ≡ some y') × Same x' y'
  unfolding walk
  walk-Same zero h end s e = absurd (cc)
  walk-Same (suc fuel) {x} {y} h end s e = elim (Bool-cases (ltb h.number finality)) [
    | inl early ↦ (y, rw early, subst (λ z. Same z y) (some_eq (rw early at e)) s)
    | inr due ↦ elim (Bool-cases (leb h.number end)) [
      | inl last ↦ (
        add_block y h.signer h.is_com,
        rw due (rw last),
        subst (λ z. Same z (add_block y h.signer h.is_com)) (some_eq (rw (due, last) at e))
            (add_block-Same h.signer h.is_com s),
      )
      | inr more ↦
          let (parent, found, e') = >>=-eq-some (headers h.parent_id) _ (rw (due, more) at e) in
          let (y', walked, same) =
            walk-Same fuel parent end (add_block-Same h.signer h.is_com s) e' in
          (y', rw due (rw more (rw found walked)), same)
    ]
  ]

  -- A vote may be added before the walk or after it.
  pub walk-add_block :
      (fuel : ℕ) (x : Justifier) (s : ℕ) (c : Bool) (h : Header) (end : ℕ) {x' : Justifier}
      → Counted x
      → walk headers finality fuel x h end ≡ some x'
      → (y : Justifier) × (walk headers finality fuel (add_block x s c) h end ≡ some y)
        × Same (add_block x' s c) y
  unfolding walk
  walk-add_block zero x s c h end n e = absurd (cc)
  walk-add_block (suc fuel) x s c h end {x'} n e = elim (Bool-cases (ltb h.number finality)) [
    | inl early ↦ (
      add_block x s c,
      rw early,
      subst (λ z. Same (add_block z s c) (add_block x s c)) (some_eq (rw early at e))
          (Same-refl (add_block x s c)),
    )
    | inr due ↦ elim (Bool-cases (leb h.number end)) [
      | inl last ↦ (
        add_block (add_block x s c) h.signer h.is_com,
        rw due (rw last),
        subst (λ z. Same (add_block z s c) (add_block (add_block x s c) h.signer h.is_com))
            (some_eq (rw (due, last) at e)) (add_block_swap x h.signer s h.is_com c n),
      )
      | inr more ↦
          let (parent, found, e') = >>=-eq-some (headers h.parent_id) _ (rw (due, more) at e) in
          let (y, walked, same) =
            walk-add_block fuel (add_block x h.signer h.is_com) s c parent end
              (add_block-Counted x h.signer h.is_com n) e' in
          let (y', walked', same') =
            walk-Same fuel parent end (add_block_swap x h.signer s h.is_com c n) walked in
          (y', rw due (rw more (rw found walked')), Same-trans same same')
    ]
  ]
