-- ===== src/Poa/SchedulerV1/Collected.antt =====
-- `Updates` of poa/sched.go: its loop does not fail and forgets no address.
use native.Mathlib.Nat.{mod-lt}
use rmit.Prelude.{
  get_elem?_lt, ℕ, zero, suc, ◌%◌, ◌<◌, ◌≡◌, refl, some, List, arith, length, ltb, nat_beq,
  Bool-cases, inl, inr, sym, ap, if◌then◌else◌, number_key, ◌∙◌,
}
use rmit.Prelude.Fallible.{>>=-eq-some, some_eq}
use rmit.Prelude.Assoc.{lookup, insert, lookup-insert}
use rmit.Poa.Proposer.{Proposer}
use rmit.Poa.SchedulerV1.{SchedulerV1, whose_turn, slot_before, to_deactivate}

module _ (dprp : ℕ → ℕ → ℕ) (s : SchedulerV1) where
  -- An address that is set inactive stays so.
  pub to_deactivate-keeps :
      (rounds t : ℕ) (found found' : List (ℕ × Proposer)) (a : ℕ) (p : Proposer)
      → to_deactivate dprp s rounds t found ≡ some found'
      → lookup a found ≡ some p
      → (q : Proposer) × (lookup a found' ≡ some q)
  unfolding to_deactivate
  to_deactivate-keeps zero t found found' a p h got = (p, ap (lookup a) (sym (some_eq h)) ∙ got)
  to_deactivate-keeps (suc rounds) t found found' a p h got =
      elim (Bool-cases (ltb s.parent_block_time t)) [
        | inr done ↦ (p, ap (lookup a) (sym (some_eq (rw done at h))) ∙ got)
        | inl more ↦
            let (q, drawn, rest) = >>=-eq-some (whose_turn dprp s t) _ (rw more at h) in
            elim (Bool-cases (nat_beq q.address s.proposer.address)) [
              | inl own ↦
                  to_deactivate-keeps rounds (slot_before dprp t) found found' a p (rw own at rest)
                    got
              | inr other ↦ elim (Bool-cases (nat_beq q.address a)) [
                | inl here ↦
                    to_deactivate-keeps rounds (slot_before dprp t) (insert q.address q found)
                      found' a q (rw other at rest)
                      (ground (arith, here, lookup-insert q.address a q found))
                | inr there ↦
                    to_deactivate-keeps rounds (slot_before dprp t) (insert q.address q found)
                      found' a p (rw other at rest)
                      (ground (arith, there, got, lookup-insert q.address a q found))
              ]
            ]
      ]

  pub to_deactivate_total :
      (rounds t : ℕ) (found : List (ℕ × Proposer))
      → 0 < length s.actives
      → (found' : List (ℕ × Proposer)) × (to_deactivate dprp s rounds t found ≡ some found')
  unfolding to_deactivate whose_turn
  to_deactivate_total zero t found h = (found, refl)
  to_deactivate_total (suc rounds) t found h = elim (Bool-cases (ltb s.parent_block_time t)) [
    | inr done ↦ (found, rw done refl)
    | inl more ↦
        let (q, drawn) =
          get_elem?_lt s.actives (dprp s.parent_block_number t % length s.actives)
            (mod-lt (dprp s.parent_block_number t) h) in
        let next : List (ℕ × Proposer) =
          if nat_beq q.address s.proposer.address then found else insert q.address q found in
        let (found', e) = to_deactivate_total rounds (slot_before dprp t) next h in
        (found', rw more (rw drawn e))
  ]
