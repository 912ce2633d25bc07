-- ===== src/Prelude/Words.antt =====
-- `size_t` arithmetic, and the mask by which a power of two is a modulus.
use Prim.Native.Nat.{
  ℕ, zero, suc, ◌+◌, ◌-◌, ◌*◌, ◌/◌, ◌%◌, ◌^◌, ◌≤◌, ◌<◌, ◌∣◌, min, bit_and, digits, bit_and-bitwise,
}
use mathlib.Core.Path.{◌≡◌, ◌∙◌, ap, subst}
use native.Mathlib.Omega.{arith}
use native.Mathlib.Nat.{
  pow-suc, mod-mod_of_dvd, mul-add-mod_self_left, mod-eq_of_lt, div-add-mod, mod-lt, one-le-pow,
  dvd-mul_right_of_dvd, dvd_refl, zero-mod, mul_comm,
}

abbrev pub size_mod : ℕ
size_mod = 2 ^ 64

-- Sum and difference of two `size_t`.
abbrev pub add_size : ℕ → ℕ → ℕ
add_size a b = (a + b) % size_mod

abbrev pub sub_size : ℕ → ℕ → ℕ
sub_size a b = (a + size_mod - b) % size_mod

mod_double : (a p : ℕ) → 0 < p → a % (2 * p) ≡ 2 * (a / 2 % p) + a % 2
mod_double a p h =
    let q = a / 2 / p in
    let r = a / 2 % p in
    let split : a ≡ (2 * p) * q + (2 * r + a % 2) = omega (arith, div-add-mod (a / 2) p) in
    ap (λ t. t % (2 * p)) split
    ∙ mul-add-mod_self_left (2 * p) q (2 * r + a % 2)
    ∙ mod-eq_of_lt (omega (arith, mod-lt (a / 2) h))

pow_pos : (k : ℕ) → 0 < 2 ^ k
pow_pos k = one-le-pow k 2 (omega arith)

half_mask : (k : ℕ) → (2 ^ suc k - 1) / 2 ≡ 2 ^ k - 1
half_mask k = omega (arith, pow-suc 2 k, pow_pos k)

low_mask : (k : ℕ) → (2 ^ suc k - 1) % 2 ≡ 1
low_mask k = omega (arith, pow-suc 2 k, pow_pos k)

-- The digits of `a` under a mask of `k` ones, with a count of digits that is enough for `a`.
masked : (k n a : ℕ) → a ≤ n → digits (λ _. 0) min n a (2 ^ k - 1) ≡ a % 2 ^ k
masked k zero a h = let none_left : a ≡ 0 = omega arith in rw (none_left, zero-mod)
masked k (suc n) zero h = rw zero-mod
masked zero (suc n) (suc a) h = omega (arith, masked zero n (suc a / 2) (omega arith))
masked (suc k) (suc n) (suc a) h =
    rw (half_mask k, low_mask k, masked k n (suc a / 2) (omega arith))
      (omega (
        arith,
        pow-suc 2 k,
        mod_double (suc a) (2 ^ k) (pow_pos k),
        ap (λ t. suc a % t) (pow-suc 2 k ∙ mul_comm (2 ^ k) 2),
      ))

-- `x & (2 ^ k - 1)` is the remainder by `2 ^ k`.
pub bit_and-mask : (k a : ℕ) → bit_and a (2 ^ k - 1) ≡ a % 2 ^ k
bit_and-mask k a = bit_and-bitwise a (2 ^ k - 1) ∙ masked k a a (omega arith)

pow-dvd-pow : (k d : ℕ) → 2 ^ k ∣ 2 ^ (d + k)
pow-dvd-pow k zero = subst (λ t. 2 ^ k ∣ 2 ^ t) {x = k} {y = 0 + k} (omega arith) (dvd_refl (2 ^ k))
pow-dvd-pow k (suc d) =
    let shifted : suc (d + k) ≡ suc d + k = omega arith in
    rw (← shifted, pow-suc 2 (d + k)) (dvd-mul_right_of_dvd (2 ^ k) (pow-dvd-pow k d) 2)

-- A counter that wraps at `2 ^ 64` keeps its remainder by a smaller power of two.
pub size_mod-mod : (k a : ℕ) → k ≤ 64 → a % size_mod % 2 ^ k ≡ a % 2 ^ k
size_mod-mod k a h =
    mod-mod_of_dvd (2 ^ k) a
      (subst (λ t. 2 ^ k ∣ 2 ^ t) {x = 64 - k + k} {y = 64} (omega arith) (pow-dvd-pow k (64 - k)))
