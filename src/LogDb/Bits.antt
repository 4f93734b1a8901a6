-- ===== src/LogDb/Bits.antt =====
-- Fields of a word: a mask takes the low bits, and parts that share no bit are joined by addition.
use Prim.Native.Nat.{bit_and, bit_or, digits, bit_and-bitwise, bit_or-bitwise, min, max}
use native.Mathlib.Nat.{
  pow-suc, pow-zero, mul_assoc, mod-add-div, mod-lt, mod-eq_of_lt, add-mul-mod_self_left,
}
use rmit.Prelude.{
  ℕ, zero, suc, ◌+◌, ◌-◌, ◌*◌, ◌/◌, ◌%◌, ◌^◌, ◌≤◌, ◌<◌, ◌≡◌, refl, arith, sym, ap, ◌∙◌,
}

-- The recursion on digits does not depend on the rounds, if these are enough.
module _ (base : ℕ → ℕ) (op : ℕ → ℕ → ℕ) where
  digits-rounds : (n m a b : ℕ) → a ≤ n → a ≤ m → digits base op n a b ≡ digits base op m a b
  digits-rounds zero zero a b h k = refl
  digits-rounds zero (suc m) zero b h k = refl
  digits-rounds zero (suc m) (suc a) b h k = absurd (omega arith)
  digits-rounds (suc n) zero zero b h k = refl
  digits-rounds (suc n) zero (suc a) b h k = absurd (omega arith)
  digits-rounds (suc n) (suc m) zero b h k = refl
  digits-rounds (suc n) (suc m) (suc a) b h k =
      ap (λ x. x * 2 + op (suc a % 2) (b % 2))
        (digits-rounds n m (suc a / 2) (b / 2) (omega arith) (omega arith))

or_digit : (a b : ℕ) → bit_or a b ≡ bit_or (a / 2) (b / 2) * 2 + max (a % 2) (b % 2)
or_digit zero b = omega (arith, bit_or-bitwise 0 b, bit_or-bitwise 0 (b / 2))
or_digit (suc a) b = omega (
  arith,
  bit_or-bitwise (suc a) b,
  bit_or-bitwise (suc a / 2) (b / 2),
  digits-rounds (λ x. x) max a (suc a / 2) (suc a / 2) (b / 2) (omega arith) (omega arith),
)

and_digit : (a b : ℕ) → bit_and a b ≡ bit_and (a / 2) (b / 2) * 2 + min (a % 2) (b % 2)
and_digit zero b = omega (arith, bit_and-bitwise 0 b, bit_and-bitwise 0 (b / 2))
and_digit (suc a) b = omega (
  arith,
  bit_and-bitwise (suc a) b,
  bit_and-bitwise (suc a / 2) (b / 2),
  digits-rounds (λ x. zero) min a (suc a / 2) (suc a / 2) (b / 2) (omega arith) (omega arith),
)

or_zero_below : (n a : ℕ) → a ≤ n → bit_or a 0 ≡ a
or_zero_below zero a h = let e : a ≡ 0 = omega arith in ap (λ x. bit_or x 0) e ∙ sym e
or_zero_below (suc n) zero h = refl
or_zero_below (suc n) (suc a) h =
    omega (arith, or_digit (suc a) 0, or_zero_below n (suc a / 2) (omega arith))

and_zero_below : (n a : ℕ) → a ≤ n → bit_and a 0 ≡ 0
and_zero_below zero a h = let e : a ≡ 0 = omega arith in ap (λ x. bit_and x 0) e
and_zero_below (suc n) zero h = refl
and_zero_below (suc n) (suc a) h =
    omega (arith, and_digit (suc a) 0, and_zero_below n (suc a / 2) (omega arith))

-- A part above the lowest k bits joined with one within them.
pub or_disjoint : (k a b : ℕ) → b < 2 ^ k → bit_or (a * 2 ^ k) b ≡ a * 2 ^ k + b
or_disjoint zero a b h =
    let e : b ≡ 0 = omega (arith, pow-zero 2) in
    let one : a * 2 ^ 0 ≡ a = omega (arith, pow-zero 2) in
    ap (λ x. bit_or x b) one ∙ ap (bit_or a) e ∙ or_zero_below a a (omega arith) ∙ omega arith
or_disjoint (suc k) a b h =
    let q = a * 2 ^ k in
    let double : a * 2 ^ suc k ≡ q * 2 =
      ap (λ p. a * p) (pow-suc 2 k) ∙ sym (mul_assoc a (2 ^ k) 2) in
    let half : a * 2 ^ suc k / 2 ≡ q = omega (arith, double) in
    let small : b / 2 < 2 ^ k = omega (arith, pow-suc 2 k) in
    let digit = or_digit (a * 2 ^ suc k) b in
    let rest = ap (λ x. bit_or x (b / 2)) half ∙ or_disjoint k a (b / 2) small in
    omega (arith, double, digit, rest)

pow_pos : (k : ℕ) → 0 < 2 ^ k
pow_pos zero = omega (arith, pow-zero 2)
pow_pos (suc k) = omega (arith, pow-suc 2 k, pow_pos k)

mod_double : (p a : ℕ) → 0 < p → a % (p * 2) ≡ a / 2 % p * 2 + a % 2
mod_double p a h =
    let r = a / 2 % p in
    let c = a / 2 / p in
    let whole = mod-add-div (a / 2) p in
    let small = mod-lt (a / 2) {m = p} h in
    let twice : p * 2 * c ≡ p * c * 2 = grind arith in
    let e : a ≡ r * 2 + a % 2 + p * 2 * c = omega (arith, whole, twice) in
    ap (λ x. x % (p * 2)) e
    ∙ add-mul-mod_self_left (r * 2 + a % 2) (p * 2) c
    ∙ mod-eq_of_lt (omega (arith, small))

pub and_mask : (k a : ℕ) → bit_and a (2 ^ k - 1) ≡ a % 2 ^ k
and_mask zero a =
    let none_left : 2 ^ 0 - 1 ≡ 0 = omega (arith, pow-zero 2) in
    let one : a % 2 ^ 0 ≡ a % 1 = ap (λ x. a % x) (pow-zero 2) in
    ap (bit_and a) none_left ∙ and_zero_below a a (omega arith) ∙ omega (arith, one)
and_mask (suc k) a =
    let half : (2 ^ suc k - 1) / 2 ≡ 2 ^ k - 1 = omega (arith, pow-suc 2 k) in
    let odd : (2 ^ suc k - 1) % 2 ≡ 1 = omega (arith, pow-suc 2 k, pow_pos k) in
    let digit = and_digit a (2 ^ suc k - 1) in
    let rest = ap (bit_and (a / 2)) half ∙ and_mask k (a / 2) in
    omega (arith, digit, rest, odd, mod_double (2 ^ k) a (pow_pos k), ap (λ x. a % x) (pow-suc 2 k))
