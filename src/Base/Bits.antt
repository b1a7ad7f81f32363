-- ===== src/Base/Bits.antt =====
-- `n & (n - 1)`, which is zero exactly at the powers of two.
use Prim.Native.Nat.{
  ℕ, zero, suc, ◌+◌, ◌-◌, ◌*◌, ◌/◌, ◌%◌, ◌^◌, ◌≤◌, min, bit_and, digits, bit_and-bitwise,
}
use mathlib.Core.Path.{◌≡◌, refl, sym, ap, ◌∙◌}
use mathlib.Core.Path.{ap₂}
use native.Mathlib.Decide.{ℕ_discrete}
use native.Mathlib.Omega.{arith}
use native.Mathlib.Nat.{pow-suc}

abbrev conj : ℕ → ℕ → ℕ → ℕ
conj f a b = digits (λ b. zero) min f a b

-- Any number of rounds from `a` on computes the same.
conj_enough : (bound f a b : ℕ) → f ≤ bound → a ≤ f → conj f a b ≡ bit_and a b
conj_enough bound zero zero b hf ha = sym (bit_and-bitwise 0 b)
conj_enough bound zero (suc a) b hf ha = absurd (omega arith)
conj_enough bound (suc f) zero b hf ha = sym (bit_and-bitwise 0 b)
conj_enough zero (suc f) (suc a) b hf ha = absurd (omega arith)
conj_enough (suc bound) (suc f) (suc a) b hf ha = omega (
  arith,
  bit_and-bitwise (suc a) b,
  conj_enough bound f (suc a / 2) (b / 2) (omega arith) (omega arith),
  conj_enough bound a (suc a / 2) (b / 2) (omega arith) (omega arith),
)

-- The lowest digit of `a & b`, and the others.
low_digit :
    (a b : ℕ) → bit_and (suc a) b ≡ bit_and (suc a / 2) (b / 2) * 2 + min (suc a % 2) (b % 2)
low_digit a b = omega (
  arith,
  bit_and-bitwise (suc a) b,
  conj_enough a a (suc a / 2) (b / 2) (omega arith) (omega arith),
)

bit_and_self : (bound a : ℕ) → a ≤ bound → bit_and a a ≡ a
bit_and_self bound zero h = refl
bit_and_self zero (suc a) h = absurd (omega arith)
bit_and_self (suc bound) (suc a) h =
    omega (arith, low_digit a (suc a), bit_and_self bound (suc a / 2) (omega arith))

-- A number above zero that shares no digit with its predecessor is a power of two.
pub pow_of_bit_and :
    (bound n : ℕ) → n ≤ bound → 1 ≤ n → bit_and n (n - 1) ≡ 0 → (k : ℕ) × (n ≡ 2 ^ k)
pow_of_bit_and bound zero h pos e = absurd (omega arith)
pow_of_bit_and zero (suc n) h pos e = absurd (omega arith)
pow_of_bit_and (suc bound) (suc zero) h pos e = (0, refl)
pow_of_bit_and (suc bound) (suc (suc n)) h pos e = elim (ℕ_discrete (n % 2) 0) [
  | yes even ↦
      let (k, p) = pow_of_bit_and bound (suc (suc n) / 2) (omega arith) (omega arith) (
        omega (
          arith,
          low_digit (suc n) (suc n),
          ap (bit_and (suc (suc n) / 2)) (halves even),
          e_form,
        )) in
      (suc k, omega (arith, p, pow-suc 2 k))
  | no odd ↦ absurd (
      omega (
        arith,
        low_digit (suc n) (suc n),
        e_form,
        bit_and_self (suc n / 2) (suc n / 2) (omega arith),
        ap (λ (m : ℕ). bit_and m (suc n / 2)) (same odd),
      ))
]
  where
    e_form : bit_and (suc (suc n)) (suc n) ≡ 0
    e_form = ap (bit_and (suc (suc n))) {y = suc (suc n) - 1} (omega arith) ∙ e

    halves : n % 2 ≡ 0 → suc n / 2 ≡ suc (suc n) / 2 - 1
    halves even = omega arith

    same : (n % 2 ≡ 0 → ⊥) → suc (suc n) / 2 ≡ suc n / 2
    same odd = ground arith

pub bit_and-pow : (k : ℕ) → bit_and (2 ^ k) (2 ^ k - 1) ≡ 0
bit_and-pow zero = refl
bit_and-pow (suc k) =
    ap (λ (m : ℕ). bit_and m (m - 1)) {y = suc (2 ^ k * 2 - 1)} (omega (arith, pow-suc 2 k, pos k))
    ∙ omega (
      arith,
      low_digit (2 ^ k * 2 - 1) (suc (2 ^ k * 2 - 1) - 1),
      bit_and-pow k,
      ap₂ bit_and (upper k) (lower k),
      pos k,
    )
  where
    pos : (k : ℕ) → 1 ≤ 2 ^ k
    pos zero = omega arith
    pos (suc k) = omega (arith, pow-suc 2 k, pos k)

    upper : (k : ℕ) → suc (2 ^ k * 2 - 1) / 2 ≡ 2 ^ k
    upper k = omega (arith, pos k)

    lower : (k : ℕ) → (suc (2 ^ k * 2 - 1) - 1) / 2 ≡ 2 ^ k - 1
    lower k = omega (arith, pos k)
