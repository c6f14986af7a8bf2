-- ===== src/Base/Bits.antt =====
-- The binary digits of numbers, and what the bitwise operations do to them.
use Prim.Native.Nat.{
  ℕ, zero, suc, ◌+◌, ◌-◌, ◌*◌, ◌/◌, ◌%◌, ◌^◌, ◌≤◌, ◌<◌, min, max, bit_and, bit_or, digits,
  bit_and-bitwise, bit_or-bitwise,
}
use Prim.Native.Nat.pow
use mathlib.Core.Path.{◌≡◌, refl, ap, sym, ◌∙◌}
use native.Mathlib.Omega.{arith}

module _ (z : ℕ → ℕ) (f : ℕ → ℕ → ℕ) (out : (b : ℕ) → z b ≡ z (b / 2) * 2 + f 0 (b % 2)) where
  -- More rounds than the number itself change nothing.
  digits_spare :
      (rounds spare a b : ℕ) → a ≤ rounds → digits z f (spare + rounds) a b ≡ digits z f rounds a b
  digits_spare rounds spare zero b h = nothing_left (spare + rounds) ∙ sym (nothing_left rounds)
    where
      nothing_left : (k : ℕ) → digits z f k 0 b ≡ z b
      nothing_left zero = refl
      nothing_left (suc k) = refl
  digits_spare zero spare (suc a) b h = absurd (omega arith)
  digits_spare (suc rounds) spare (suc a) b h =
      ap (λ k. digits z f k (suc a) b) {x = spare + suc rounds} {y = suc (spare + rounds)}
        (omega arith)
      ∙ ap (λ high. high * 2 + f (suc a % 2) (b % 2))
          (digits_spare rounds spare (suc a / 2) (b / 2) (omega arith))

  digits_halves :
      (a b : ℕ) → digits z f a a b ≡ digits z f (a / 2) (a / 2) (b / 2) * 2 + f (a % 2) (b % 2)
  digits_halves zero b = out b
  digits_halves (suc a) b =
      let half = suc a / 2 in
      ap (λ high. high * 2 + f (suc a % 2) (b % 2))
        (ap (λ k. digits z f k half (b / 2)) {x = a} {y = a - half + half} (omega arith)
          ∙ digits_spare half (a - half) half (b / 2) (omega arith))

bit_and_halves : (a b : ℕ) → bit_and a b ≡ bit_and (a / 2) (b / 2) * 2 + min (a % 2) (b % 2)
bit_and_halves a b =
    bit_and-bitwise a b
    ∙ digits_halves (λ b. zero) min (λ b. omega arith) a b
    ∙ ap (λ r. r * 2 + min (a % 2) (b % 2)) (sym (bit_and-bitwise (a / 2) (b / 2)))

bit_or_halves : (a b : ℕ) → bit_or a b ≡ bit_or (a / 2) (b / 2) * 2 + max (a % 2) (b % 2)
bit_or_halves a b =
    bit_or-bitwise a b
    ∙ digits_halves (λ b. b) max (λ b. omega arith) a b
    ∙ ap (λ r. r * 2 + max (a % 2) (b % 2)) (sym (bit_or-bitwise (a / 2) (b / 2)))

-- Digit `k`, from the lowest.
abbrev pub digit : ℕ → ℕ → ℕ
digit zero a = a % 2
digit (suc k) a = digit k (a / 2)

pub digit-bit_and : (k a b : ℕ) → digit k (bit_and a b) ≡ min (digit k a) (digit k b)
digit-bit_and zero a b = omega (arith, bit_and_halves a b)
digit-bit_and (suc k) a b =
    ap (digit k) {x = bit_and a b / 2} {y = bit_and (a / 2) (b / 2)}
      (omega (arith, bit_and_halves a b))
    ∙ digit-bit_and k (a / 2) (b / 2)

pub digit-bit_or : (k a b : ℕ) → digit k (bit_or a b) ≡ max (digit k a) (digit k b)
digit-bit_or zero a b = omega (arith, bit_or_halves a b)
digit-bit_or (suc k) a b =
    ap (digit k) {x = bit_or a b / 2} {y = bit_or (a / 2) (b / 2)}
      (omega (arith, bit_or_halves a b))
    ∙ digit-bit_or k (a / 2) (b / 2)

pub digit-le-one : (k a : ℕ) → digit k a ≤ 1
digit-le-one zero a = omega arith
digit-le-one (suc k) a = digit-le-one k (a / 2)

pub power_pos : (k : ℕ) → 1 ≤ 2 ^ k
power_pos zero = omega arith
power_pos (suc k) = omega (arith, pow.suc 2 k, power_pos k)

-- The complement of a number of `w` digits, as C computes it.
pub digit-complement :
    (w k n t : ℕ) → k < w → n ≡ 2 ^ w → t < n → digit k (n - 1 - t) ≡ 1 - digit k t
digit-complement zero k n t p e q = absurd (omega arith)
digit-complement (suc w) zero n t p e q = omega (arith, e, pow.suc 2 w)
digit-complement (suc w) (suc k) n t p e q =
    let half : n ≡ 2 ^ w * 2 = e ∙ pow.suc 2 w in
    ap (digit k) {x = (n - 1 - t) / 2} {y = n / 2 - 1 - t / 2} (omega (arith, half))
    ∙ digit-complement w k (n / 2) (t / 2) (omega arith) (omega (arith, half)) (omega (arith, half))

digits-zero : (n a : ℕ) → digits (λ b. zero) min n a 0 ≡ 0
digits-zero zero a = refl
digits-zero (suc n) zero = refl
digits-zero (suc n) (suc a) = omega (arith, digits-zero n (suc a / 2))

-- The test of a mask with one digit, as C writes it.
pub bit_and-power : (k a : ℕ) → bit_and a (2 ^ k) ≡ digit k a * 2 ^ k
bit_and-power zero a =
    omega (arith, bit_and_halves a 1, bit_and-bitwise (a / 2) 0, digits-zero (a / 2) (a / 2))
bit_and-power (suc k) a =
    let e : 2 ^ suc k ≡ 2 ^ k * 2 = pow.suc 2 k in
    ap (bit_and a) e
    ∙ bit_and_halves a (2 ^ k * 2)
    ∙ ap (λ x. bit_and (a / 2) x * 2 + min (a % 2) (2 ^ k * 2 % 2)) {x = 2 ^ k * 2 / 2} {y = 2 ^ k}
        (omega arith)
    ∙ ap (λ x. x * 2 + min (a % 2) (2 ^ k * 2 % 2)) (bit_and-power k (a / 2))
    ∙ omega (arith, ap (λ p. digit k (a / 2) * p) e)
