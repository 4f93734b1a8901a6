-- ===== src/Packer/Found.antt =====
-- What `Schedule` of packer/packer.go has gone through where it finds a turn.
use rmit.Prelude.{ℕ, ◌+◌, ◌%◌, ◌≡◌, some, List, [], ◌∷◌, ap, sym, ◌∙◌}
use rmit.Prelude.Fallible.{>>=-eq-some, some_eq}
use rmit.Thor.{u64_mod, u32_mod}
use rmit.Poa.Proposer.{Proposer}
use rmit.Poa.Scheduler.{Scheduler, Hashing, Parent, new_scheduler}
use rmit.Builtin.Authority.{Authority, update_active}
use rmit.Builtin.Authority.Listing.{Lists}
use rmit.Builtin.Authority.Updating.{update_active-Lists}
use rmit.Packer.{Packing, update_authority, schedule_packing, packer_proposers}

pub update_authority-Lists :
    (a : Authority) (xs : List ℕ) (us : List Proposer)
    → Lists a xs
    → Lists (update_authority a us) xs
update_authority-Lists a xs [] l = l
update_authority-Lists a xs (u ∷ us) l =
    update_authority-Lists (update_active a u.address u.active).0 xs us
      (update_active-Lists a xs u.address u.active l)

-- What a packer has gone through.
pub record Packed (h : Hashing) (vip214 rounds : ℕ) (parent : Parent) (node_master now : ℕ)
    (a : Authority) (ps : List Proposer) (pk : Packing) : Type 0 where
  pub scheduler : Scheduler
  pub us : List Proposer
  pub score : ℕ
  pub made :
      new_scheduler h vip214 rounds ((parent.number + 1) % u32_mod) parent node_master ps
      ≡ some (some scheduler)
  pub scheduled_at : scheduler.schedule_at now ≡ some pk.time
  pub updated_at : scheduler.updates_at pk.time ≡ some (us, score)
  pub score_is : (parent.total_score + score) % u64_mod ≡ pk.total_score
  pub authority_is : update_authority a us ≡ pk.authority

pub schedule_packing-Packed :
    (h : Hashing) (vip214 rounds : ℕ) (balance : ℕ → ℕ) (endorsement param fuel : ℕ)
    (parent : Parent) (node_master now : ℕ) (a : Authority) (pk : Packing) (ps : List Proposer)
    → packer_proposers balance endorsement param fuel a ≡ some ps
    → schedule_packing h vip214 rounds balance endorsement param fuel parent node_master now a
      ≡ some pk
    → Packed h vip214 rounds parent node_master now a ps pk
unfolding schedule_packing
schedule_packing-Packed h vip214 rounds balance endorsement param fuel parent node_master now a pk
      ps known packed =
    let (chosen, made, rest) =
      >>=-eq-some
        (new_scheduler h vip214 rounds ((parent.number + 1) % u32_mod) parent node_master ps) _
        (rw known at packed) in
    let (s, is, turn) = >>=-eq-some chosen _ rest in
    let (time, at, more) = >>=-eq-some (s.schedule_at now) _ turn in
    let (u, done, result) = >>=-eq-some (s.updates_at time) _ more in
    let same = some_eq result in
    record {
      scheduler = s;
      us = u.0;
      score = u.1;
      made = made ∙ ap some is;
      scheduled_at = at ∙ ap (λ (k : Packing). some k.time) same;
      updated_at = ap (λ (k : Packing). s.updates_at k.time) (sym same) ∙ done;
      score_is = ap (λ (k : Packing). k.total_score) same;
      authority_is = ap (λ (k : Packing). k.authority) same;
    }
