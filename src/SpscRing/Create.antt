-- ===== src/SpscRing/Create.antt =====
-- The capacity that `Create` of core/include/audiofork/spsc_ring.hpp finds.
use native.Mathlib.Nat.{pow-suc}
use mod_audio_fork.Common.{
  ℕ, zero, suc, ◌+◌, ◌-◌, ◌*◌, ◌%◌, ◌^◌, ◌≤◌, ◌<◌, ◌≡◌, refl, ◌∙◌, ap, subst, none, some, ◌||◌, [],
  ltb, ◌==◌, length, replicate, length-replicate, Bool-cases, inl, inr, ◌⊎◌, arith,
}
use mod_audio_fork.SpscRing.{SpscRing, grow, create}
use mod_audio_fork.SpscRing.Index.{pow_mono}
use mod_audio_fork.SpscRing.Slots.{view}
use mod_audio_fork.SpscRing.Fifo.{IsValid, contents}

-- The least power of two that is not below `wanted`.
record Least (wanted bound capacity : ℕ) : Type 0 where
  power : ℕ
  exact : capacity ≡ 2 ^ power
  bounded : power ≤ bound
  enough : wanted ≤ capacity
  least : capacity < wanted * 2

grow-Least :
    (fuel k wanted : ℕ)
    → k + fuel ≤ 31
    → wanted ≤ 2 ^ (k + fuel)
    → 2 ^ k < wanted * 2
    → Least wanted (k + fuel) (grow fuel (2 ^ k) wanted)
unfolding grow
grow-Least zero k wanted h w l = record {
  power = k;
  exact = refl;
  bounded = omega arith;
  enough = subst (λ (n : ℕ). wanted ≤ 2 ^ n) (let e : k + 0 ≡ k = omega arith in e) w;
  least = l;
}
grow-Least (suc fuel) k wanted h w l = elim (Bool-cases (ltb (2 ^ k) wanted)) [
  | inl t ↦ rw t (
      further
        (grow-Least fuel (suc k) wanted (omega arith) further_bound (ground (arith, pow-suc 2 k))))
  | inr t ↦
      rw t (record {
        power = k;
        exact = refl;
        bounded = omega arith;
        enough = ground arith;
        least = l;
      })
]
  where
    further_bound : wanted ≤ 2 ^ (suc k + fuel)
    further_bound =
        subst (λ (n : ℕ). wanted ≤ 2 ^ n) (let e : k + suc fuel ≡ suc k + fuel = omega arith in e) w

    top : 2 ^ suc k ≤ 2 ^ 31
    top =
        subst (λ (n : ℕ). 2 ^ suc k ≤ 2 ^ n) (let e : suc k + (31 - suc k) ≡ 31 = omega arith in e)
          (pow_mono (suc k) (31 - suc k))

    doubled : 2 ^ suc k ≡ 2 ^ k * 2 % 2 ^ 64
    doubled = omega (arith, top, pow-suc 2 k)

    further :
        Least wanted (suc k + fuel) (grow fuel (2 ^ suc k) wanted)
        → Least wanted (k + suc fuel) (grow fuel (2 ^ k * 2 % 2 ^ 64) wanted)
    further m =
        subst (λ (n : ℕ). Least wanted (k + suc fuel) (grow fuel n wanted)) doubled
          (record {
            power = m.power;
            exact = m.exact;
            bounded = omega (arith, m.bounded);
            enough = m.enough;
            least = m.least;
          })

-- `Create` refuses a size of none and one over 2 ^ 31; any other gives an empty ring whose capacity
-- is the least power of two that is not below it.
pub create_least :
    (wanted : ℕ)
    → (create wanted ≡ none → (wanted ≡ 0) ⊎ (2 ^ 31 < wanted))
      × ((r : SpscRing)
          → create wanted ≡ some r
          → IsValid r
            × (contents r ≡ [])
            × (wanted ≤ length r.storage)
            × (length r.storage < wanted * 2))
unfolding create view
create_least wanted = elim (Bool-cases (wanted == 0 || ltb (2 ^ 31) wanted)) [
  | inl t ↦ rw (t, create) ((λ e. ground arith), (λ r e. absurd (cc e)))
  | inr t ↦
      rw (t, create)
        (
          (λ e. absurd (cc e)),
          (λ r e. made r e (grow-Least 31 0 wanted (omega arith) (ground arith) (ground arith))),
        )
]
  where
    ring : SpscRing
    ring = record {
      storage = replicate (grow 31 1 wanted) 0;
      mask = grow 31 1 wanted - 1;
      head = 0;
      tail = 0;
    }

    Fresh : SpscRing → Type 0
    Fresh r =
        IsValid r
        × (contents r ≡ [])
        × (wanted ≤ length r.storage)
        × (length r.storage < wanted * 2)

    fresh : Least wanted 31 (grow 31 1 wanted) → Fresh ring
    fresh m =
        let size : length ring.storage ≡ grow 31 1 wanted = length-replicate (grow 31 1 wanted) 0 in
        (
          record {
            power = m.power;
            bounded = m.bounded;
            capacity = size ∙ m.exact;
            masked = omega (arith, m.exact);
            filled = omega arith;
            head_small = omega arith;
            tail_small = omega arith;
          },
          refl,
          omega (arith, size, m.enough),
          omega (arith, size, m.least),
        )

    made : (r : SpscRing) → some ring ≡ some r → Least wanted 31 (grow 31 1 wanted) → Fresh r
    made r e m = subst (λ x. Fresh x) (ap (λ o. elim o [ none ↦ ring | some x ↦ x ]) e) (fresh m)
