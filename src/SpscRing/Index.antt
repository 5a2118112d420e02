-- ===== src/SpscRing/Index.antt =====
-- Indices that run on modulo 2 ^ 64 around the ring of core/include/audiofork/spsc_ring.hpp: its
-- capacity, a power of two, divides that.
use native.Mathlib.Nat.{
  mod-add-div, mod-lt, mod-eq_of_lt, mod-add-mod, add-mod_right, add-mul-mod_self_left, pow-suc,
  mul_assoc,
}
use mod_audio_fork.Common.{
  ℕ, zero, suc, ◌+◌, ◌-◌, ◌*◌, ◌/◌, ◌%◌, ◌^◌, ◌≤◌, ◌<◌, ◌≡◌, sym, ◌∙◌, ap, subst, ltb, add64,
  Bool-cases, inl, inr, arith,
}
use mod_audio_fork.SpscRing.Mask.{pow-pos}
use mod_audio_fork.SpscRing.Slots.{slot}

pow-split : (k d : ℕ) → 2 ^ (k + d) ≡ 2 ^ k * 2 ^ d
pow-split k zero =
    ap (λ (n : ℕ). 2 ^ n) (let e : k + 0 ≡ k = omega arith in e)
    ∙ (let e : 2 ^ k ≡ 2 ^ k * 2 ^ 0 = omega arith in e)
pow-split k (suc d) =
    ap (λ (n : ℕ). 2 ^ n) (let e : k + suc d ≡ suc (k + d) = omega arith in e)
    ∙ pow-suc 2 (k + d)
    ∙ ap (λ (n : ℕ). n * 2) (pow-split k d)
    ∙ mul_assoc (2 ^ k) (2 ^ d) 2
    ∙ ap (λ (n : ℕ). 2 ^ k * n) (sym (pow-suc 2 d))

pub pow_mono : (k d : ℕ) → 2 ^ k ≤ 2 ^ (k + d)
pow_mono k zero =
    subst (λ (n : ℕ). 2 ^ k ≤ 2 ^ n) (let e : k ≡ k + 0 = omega arith in e) (omega arith)
pow_mono k (suc d) =
    subst (λ (n : ℕ). 2 ^ k ≤ 2 ^ n) (let e : suc (k + d) ≡ k + suc d = omega arith in e)
      (omega (arith, pow_mono k d, pow-suc 2 (k + d)))

mod-mul-mod : (x c d : ℕ) → x % (c * d) % c ≡ x % c
mod-mul-mod x c d =
    sym (add-mul-mod_self_left (x % (c * d)) c (d * (x / (c * d))))
    ∙ ap (λ (y : ℕ). y % c)
        (ap (λ (z : ℕ). x % (c * d) + z) (sym (mul_assoc c d (x / (c * d))))
          ∙ mod-add-div x (c * d))

mod-word : (k x : ℕ) → k ≤ 64 → x % 2 ^ 64 % 2 ^ k ≡ x % 2 ^ k
mod-word k x h =
    let e : 2 ^ 64 ≡ 2 ^ k * 2 ^ (64 - k) =
      ap (λ (n : ℕ). 2 ^ n) (let l : 64 ≡ k + (64 - k) = omega arith in l) ∙ pow-split k (64 - k) in
    ap (λ (n : ℕ). x % n % 2 ^ k) e ∙ mod-mul-mod x (2 ^ k) (2 ^ (64 - k))

-- An index moved on by `d`, at most once around the ring.
pub mod-slot : (k x d : ℕ) → k ≤ 64 → d ≤ 2 ^ k → add64 x d % 2 ^ k ≡ slot (2 ^ k) (x % 2 ^ k) d
mod-slot k x d h l =
    mod-word k (x + d) h ∙ sym (mod-add-mod x (2 ^ k) d) ∙ around (x % 2 ^ k) (mod-lt x (pow-pos k))
  where
    c : ℕ
    c = 2 ^ k

    around : (o : ℕ) → o < c → (o + d) % c ≡ slot c o d
    around o b = elim (Bool-cases (ltb (o + d) c)) [
      | inl t ↦ rw t (mod-eq_of_lt (ground arith))
      | inr t ↦ rw t (
          ap (λ (y : ℕ). y % c) (let e : o + d ≡ o + d - c + c = ground arith in e)
          ∙ add-mod_right (o + d - c) c
          ∙ mod-eq_of_lt (omega arith))
    ]
