-- ===== src/Prelude/Eqs.antt =====
-- The types whose values serve as keys of a map, by their Boolean test of equality.
use Prim.Native.Nat.{ℕ}
use Prim.Native.String.{String}
use mathlib.Core.Path.{◌≡◌, refl}
use mathlib.Core.Logic.{◌↔◌}
use mathlib.Core.Bool.{Bool, true}
use text.Mathlib.Text
use text.Mathlib.TextEquality
use rmit.Prelude.Tests.{nat_beq, nat_beq_iff}

pub record Key {ℓ} (K : Type ℓ) : Type ℓ where
  pub same : K → K → Bool
  pub same_iff : (j k : K) → (same j k ≡ true) ↔ (j ≡ k)

-- A number, such as an address or a block number.
instance abbrev pub number_key : Key ℕ
number_key = record { same = nat_beq; same_iff = nat_beq_iff }

-- A text, such as the name of an instruction.
instance abbrev pub text_key : Key String
text_key = record { same = Text.◌==◌; same_iff = TextEquality.eq_iff }

infix 50 ◌==◌
abbrev pub ◌==◌ {ℓ} : {K : Type ℓ} ⦃key : Key K⦄ → K → K → Bool
◌==◌ ⦃key⦄ j k = key.same j k

pub same_refl {ℓ} : {K : Type ℓ} ⦃key : Key K⦄ (k : K) → key.same k k ≡ true
same_refl ⦃key⦄ k = (key.same_iff k k).1 refl
