-- ===== src/SpscRing/Mask.antt =====
-- The mask of core/include/audiofork/spsc_ring.hpp against the remainder by the capacity.
use Prim.Native.Nat.{bit_and, bit_and-bitwise, digits}
use native.Mathlib.Nat.{add-mul-mod_self_left, mod-add-div, mod-eq_of_lt, mod-lt, pow-suc}
use mod_audio_fork.Common.{
  ℕ, zero, suc, ◌+◌, ◌-◌, ◌*◌, ◌/◌, ◌%◌, ◌^◌, ◌≤◌, ◌<◌, ◌≡◌, refl, sym, ◌∙◌, ap, min, arith,
}

-- The binary digits of the conjunction; the fuel that `bit_and` takes is its first argument.
abbrev conj : (fuel a b : ℕ) → ℕ
conj fuel a b = digits (λ x. zero) min fuel a b

conj_fuel : (m n a b : ℕ) → a ≤ m → a ≤ n → conj m a b ≡ conj n a b
conj_fuel zero zero a b h k = refl
conj_fuel zero (suc n) zero b h k = refl
conj_fuel zero (suc n) (suc a) b h k = absurd (omega arith)
conj_fuel (suc m) zero zero b h k = refl
conj_fuel (suc m) zero (suc a) b h k = absurd (omega arith)
conj_fuel (suc m) (suc n) zero b h k = refl
conj_fuel (suc m) (suc n) (suc a) b h k =
    let rest = conj_fuel m n (suc a / 2) (b / 2) (omega arith) (omega arith) in omega (arith, rest)

halved : (a b : ℕ) → bit_and a b ≡ bit_and (a / 2) (b / 2) * 2 + min (a % 2) (b % 2)
halved zero b = omega (arith, bit_and-bitwise 0 b, bit_and-bitwise 0 (b / 2))
halved (suc a) b =
    let whole = bit_and-bitwise (suc a) b in
    let half = bit_and-bitwise (suc a / 2) (b / 2) in
    let fuel = conj_fuel a (suc a / 2) (suc a / 2) (b / 2) (omega arith) (omega arith) in
    omega (arith, whole, half, fuel)

none_set : (n a : ℕ) → a ≤ n → bit_and a 0 ≡ 0
none_set zero a h = ap (λ x. bit_and x 0) (let e : a ≡ 0 = omega arith in e)
none_set (suc n) zero h = refl
none_set (suc n) (suc a) h =
    let rest = none_set n (suc a / 2) (omega arith) in omega (arith, halved (suc a) 0, rest)

pub pow-pos : (k : ℕ) → 0 < 2 ^ k
pow-pos zero = omega arith
pow-pos (suc k) = omega (arith, pow-pos k)

mod-double : (m a : ℕ) → 0 < m → a % (m * 2) ≡ a / 2 % m * 2 + a % 2
mod-double m a h =
    let q = a / 2 / m in
    let r = a / 2 % m in
    let split : a / 2 ≡ r + m * q = sym (mod-add-div (a / 2) m) in
    let small : r < m = mod-lt (a / 2) h in
    let e : a ≡ r * 2 + a % 2 + m * 2 * q = omega (arith, split) in
    ap (λ x. x % (m * 2)) e
    ∙ add-mul-mod_self_left (r * 2 + a % 2) (m * 2) q
    ∙ mod-eq_of_lt (omega (arith, small))

-- The mask of a power of two takes the remainder.
pub bit_and-mod : (k a : ℕ) → bit_and a (2 ^ k - 1) ≡ a % 2 ^ k
bit_and-mod zero a = omega (arith, none_set a a (omega arith))
bit_and-mod (suc k) a =
    let p : 0 < 2 ^ k = pow-pos k in
    let e : 2 ^ suc k ≡ 2 ^ k * 2 = pow-suc 2 k in
    let lower : (2 ^ suc k - 1) / 2 ≡ 2 ^ k - 1 = omega (arith, p, e) in
    let odd : (2 ^ suc k - 1) % 2 ≡ 1 = omega (arith, p, e) in
    let rest : bit_and (a / 2) ((2 ^ suc k - 1) / 2) ≡ a / 2 % 2 ^ k =
      ap (bit_and (a / 2)) lower ∙ bit_and-mod k (a / 2) in
    let last : a % 2 ^ suc k ≡ a / 2 % 2 ^ k * 2 + a % 2 =
      ap (λ (x : ℕ). a % x) e ∙ mod-double (2 ^ k) a p in
    omega (arith, halved a (2 ^ suc k - 1), rest, odd, last)
