-- ===== src/Packer/Adopt/Offered.antt =====
-- What the adoption of a transaction keeps, the loop over the transactions keeps.
use rmit.Prelude.{ℕ, ◌≡◌, ◌⊎◌, inl, inr, refl, none, List, [], ◌∷◌, In, Option-cases, sym, subst}
use rmit.Tx.Gas.{Outside}
use rmit.Tx.Body.{Transaction}
use rmit.Runtime.{BlockContext, Runtime, Chain, Rules}
use rmit.Packer.Adopt.{
  Adopting, Adoption, check_adoptable, check_known, check_depends, execute_tx, adopt, adopt_all,
  after_adopt, adopted, bad_tx, not_adoptable_now, not_adoptable_forever, gas_limit_reached,
  known_tx, failed,
}

-- The loop over the offered transactions ends here or later.
after_adopt-cases :
    {S : Type 0} (t : Transaction) (next : Adopting S) (rest : Adopting S × List Transaction)
    (result : Adoption)
    → ((after_adopt t next rest result).0 ≡ next) ⊎ ((after_adopt t next rest result).0 ≡ rest.0)
after_adopt-cases t next rest adopted = inr refl
after_adopt-cases t next rest bad_tx = inr refl
after_adopt-cases t next rest not_adoptable_now = inr refl
after_adopt-cases t next rest not_adoptable_forever = inr refl
after_adopt-cases t next rest gas_limit_reached = inl refl
after_adopt-cases t next rest known_tx = inr refl
after_adopt-cases t next rest failed = inr refl

module _ {S : Type 0} (m : Runtime S) (chain : Chain) (rules : Rules) (o : Outside)
    (ctx : BlockContext) (features : ℕ) (P : Adopting S → Type 0) where
  pub adopt_keeps :
      (a : Adopting S) (t : Transaction)
      → P a
      → (check_adoptable rules o ctx features a.gas_used t ≡ none
          → check_known chain a.processed t ≡ none
          → check_depends chain a.processed t ≡ none
          → P (execute_tx m chain rules o ctx features a t).0)
      → P (adopt m chain rules o ctx features a t).0
  unfolding adopt
  adopt_keeps a t h next = elim (Option-cases (check_adoptable rules o ctx features a.gas_used t)) [
    | inr (refusal, e) ↦ rw (adopt, e) h
    | inl fit ↦ elim (Option-cases (check_known chain a.processed t)) [
      | inr (refusal, e) ↦ rw (adopt, fit, e) h
      | inl known ↦ elim (Option-cases (check_depends chain a.processed t)) [
        | inr (refusal, e) ↦ rw (adopt, fit, known, e) h
        | inl depends ↦ rw (adopt, fit, known, depends) (next fit known depends)
      ]
    ]
  ]

  pub adopt_all_keeps :
      (a : Adopting S) (ts : List Transaction)
      → ((b : Adopting S) (t : Transaction)
          → In t ts
          → P b
          → P (adopt m chain rules o ctx features b t).0)
      → P a
      → P (adopt_all m chain rules o ctx features a ts).0
  unfolding adopt_all
  adopt_all_keeps a [] step h = h
  adopt_all_keeps a (t ∷ ts) step h =
      let (next, result) = adopt m chain rules o ctx features a t in
      let now = step a t (inl refl) h in
      let rest = adopt_all m chain rules o ctx features next ts in
      elim (after_adopt-cases t next rest result) [
        | inl last ↦ subst P (sym last) now
        | inr more ↦
            subst P (sym more) (adopt_all_keeps next ts (λ b u later w. step b u (inr later) w) now)
      ]
