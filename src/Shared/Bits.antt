-- ===== src/Shared/Bits.antt =====
-- Masks: `x & (2^k - 1)` is the remainder by `2^k`.
use Prim.Native.Nat.{
  ℕ, zero, suc, ◌+◌, ◌-◌, ◌*◌, ◌/◌, ◌%◌, ◌^◌, ◌≤◌, ◌<◌, min, bit_and, digits, bit_and-bitwise,
}
use mathlib.Core.Path.{◌≡◌, sym, ap, ◌∙◌, ◌≡⟨◌⟩◌, ◌∎}
use native.Mathlib.Nat.{
  zero-mod, pow-suc, div-add-mod, mod-lt, mod-eq_of_lt, mul-add-mod_self_left, zero-div,
  div-div-eq-div-mul, pow-succ', mul_assoc,
}
use native.Mathlib.Omega.{arith}

pub pow_two_pos : (k : ℕ) → 0 < 2 ^ k
pow_two_pos zero = omega arith
pow_two_pos (suc k) = omega (arith, pow-suc 2 k, pow_two_pos k)

-- The remainder by an even number, by the lowest digit and the rest.
mod_double : (a m : ℕ) → 0 < m → a % (2 * m) ≡ a / 2 % m * 2 + a % 2
mod_double a m h =
    let r = a / 2 % m * 2 + a % 2 in
    let e : 2 * m * (a / 2 / m) + r ≡ a = omega (arith, div-add-mod (a / 2) m) in
    let small : r < 2 * m = omega (arith, mod-lt (a / 2) h) in
    a % (2 * m)
    ≡⟨ ap (λ (x : ℕ). x % (2 * m)) (sym e) ⟩ (2 * m * (a / 2 / m) + r) % (2 * m)
    ≡⟨ mul-add-mod_self_left (2 * m) (a / 2 / m) r ⟩ r % (2 * m)
    ≡⟨ mod-eq_of_lt small ⟩ r ∎

-- The digit by digit conjunction with `k` ones, on enough digits, keeps the low `k` digits.
low_digits : (k n a : ℕ) → a ≤ n → digits (λ _. 0) min n a (2 ^ k - 1) ≡ a % 2 ^ k
low_digits k zero zero le = sym (zero-mod (2 ^ k))
low_digits k zero (suc a) le = absurd (omega arith)
low_digits k (suc n) zero le = sym (zero-mod (2 ^ k))
low_digits zero (suc n) (suc a) le = omega (arith, low_digits 0 n (suc a / 2) (omega arith))
low_digits (suc k) (suc n) (suc a) le =
    let half : (2 ^ suc k - 1) / 2 ≡ 2 ^ k - 1 = omega (arith, pow-suc 2 k, pow_two_pos k) in
    let odd : (2 ^ suc k - 1) % 2 ≡ 1 = omega (arith, pow-suc 2 k, pow_two_pos k) in
    let rest = low_digits k n (suc a / 2) (omega arith) in
    let whole : suc a % 2 ^ suc k ≡ suc a / 2 % 2 ^ k * 2 + suc a % 2 =
      ap (λ (x : ℕ). suc a % x) (omega (arith, pow-suc 2 k))
      ∙ mod_double (suc a) (2 ^ k) (pow_two_pos k) in
    rw (half, odd) (omega (arith, rest, whole))

-- Masking by a power of two less one is the remainder.
pub bit_and-mask : (k a : ℕ) → bit_and a (2 ^ k - 1) ≡ a % 2 ^ k
bit_and-mask k a = bit_and-bitwise a (2 ^ k - 1) ∙ low_digits k a a (omega arith)

-- The digit by digit conjunction with ones from digit `k` to digit `w` keeps the digits from `k` on.
high_digits :
    (k w n a : ℕ)
    → k ≤ w
    → a ≤ n
    → a < 2 ^ w
    → digits (λ _. 0) min n a (2 ^ w - 2 ^ k) ≡ a / 2 ^ k * 2 ^ k
high_digits zero w n a le h lt = omega (arith, low_digits w n a h, mod-eq_of_lt lt)
high_digits (suc k) zero n a le h lt = absurd (omega arith)
high_digits (suc k) (suc w) zero zero le h lt = omega (arith, zero-div (2 ^ suc k))
high_digits (suc k) (suc w) zero (suc a) le h lt = absurd (omega arith)
high_digits (suc k) (suc w) (suc n) zero le h lt = omega (arith, zero-div (2 ^ suc k))
high_digits (suc k) (suc w) (suc n) (suc a) le h lt =
    let p = pow-suc 2 k in
    let q = pow-suc 2 w in
    let half : (2 ^ suc w - 2 ^ suc k) / 2 ≡ 2 ^ w - 2 ^ k = omega (arith, p, q) in
    let even : (2 ^ suc w - 2 ^ suc k) % 2 ≡ 0 = omega (arith, p, q) in
    let rest = high_digits k w n (suc a / 2) (omega arith) (omega arith) (omega (arith, q)) in
    let blocks : suc a / 2 ^ suc k ≡ suc a / 2 / 2 ^ k =
      ap (λ (x : ℕ). suc a / x) (pow-succ' 2 k) ∙ sym (div-div-eq-div-mul (suc a) 2 (2 ^ k)) in
    rw (half, even, rest, blocks, p) (omega (arith, mul_assoc (suc a / 2 / 2 ^ k) (2 ^ k) 2))

-- Masking by a prefix of `w - k` ones keeps the digits of the prefix.
pub bit_and-prefix : (k w a : ℕ) → k ≤ w → a < 2 ^ w → bit_and a (2 ^ w - 2 ^ k) ≡ a / 2 ^ k * 2 ^ k
bit_and-prefix k w a le lt =
    bit_and-bitwise a (2 ^ w - 2 ^ k) ∙ high_digits k w a a le (omega arith) lt
