-- ===== src/SlabPool/Accounting.antt =====
-- The accounts of core/src/slab_pool.cpp: what is allocated is leased or free, and stays under the
-- cap.
use mod_audio_fork.Common.{
  ℕ, ◌+◌, ◌*◌, ◌≤◌, ◌<◌, ◌^◌, ◌≡◌, refl, inl, inr, Bool, true, false, some, List, [], ◌∷◌, length,
  replicate, length-replicate, add64_of_lt, sub64_of_le, ap, add64, arith, leb, Bool-cases,
}
use mod_audio_fork.SlabPool.{
  SlabPoolOptions, SlabPool, create, reserve_from, reserved, roll_back, Acquired, lease, refused,
  threw, fill_storage, acquire, release,
}

-- Every storage of the list is one slab long.
abbrev pub Sized : ℕ → List (List ℕ) → Type 0
Sized n [] = Unit {0}
Sized n (s ∷ ss) = (length s ≡ n) × Sized n ss

pub record IsValid (p : SlabPool) : Type 0 where
  pub sized : 0 < p.slab_size_bytes
  pub small : p.max_total_bytes + p.slab_size_bytes < 2 ^ 64
  pub within : p.allocated_bytes ≤ p.max_total_bytes
  pub counted : p.allocated_bytes ≡ (p.leased_slabs + length p.free_slabs) * p.slab_size_bytes
  pub free_sized : Sized p.slab_size_bytes p.free_slabs

-- What `create` accepts is valid and empty, if a slab more than the cap is still a `size_t`.
pub create-IsValid :
    (o : SlabPoolOptions) {p : SlabPool}
    → o.max_total_bytes + o.slab_size_bytes < 2 ^ 64
    → create o ≡ some p
    → IsValid p × (p.leased_slabs ≡ 0) × (p.allocated_bytes ≡ 0)
unfolding create
create-IsValid o h e = ground arith

le-mul : (n s : ℕ) → 0 < s → n ≤ n * s
le-mul n s h = grind arith

-- No count of slabs wraps: each is at most the bytes allocated.
pub slabs_bounded :
    {p : SlabPool} → IsValid p → p.leased_slabs + length p.free_slabs ≤ p.allocated_bytes
slabs_bounded {p} v =
    omega
      (arith, le-mul (p.leased_slabs + length p.free_slabs) p.slab_size_bytes v.sized, v.counted)

-- What `Acquire` promises of each way that it ends.
abbrev pub Acquires : SlabPool → Acquired → Type 0
Acquires p (lease storage q) =
    IsValid q
    × (length storage ≡ p.slab_size_bytes)
    × (q.leased_slabs ≡ p.leased_slabs + 1)
    × (q.options ≡ p.options)
Acquires p refused =
    (p.free_slabs ≡ []) × (p.max_total_bytes < p.allocated_bytes + p.slab_size_bytes)
Acquires p (threw q) = q ≡ p

module _ (p : SlabPool) (v : IsValid p) where
  leased_next : add64 p.leased_slabs 1 ≡ p.leased_slabs + 1
  leased_next = omega (arith, slabs_bounded v)

  reuse-IsValid :
      (s : List ℕ) (ss : List (List ℕ))
      → p.free_slabs ≡ s ∷ ss
      → Acquires p (lease s (record p { free_slabs = ss; leased_slabs = add64 p.leased_slabs 1 }))
  reuse-IsValid s ss e = rw leased_next (ground (arith, ap (Sized p.slab_size_bytes) e))

  grow-IsValid :
      (s : List ℕ)
      → length s ≡ p.slab_size_bytes
      → p.free_slabs ≡ []
      → p.allocated_bytes + p.slab_size_bytes ≤ p.max_total_bytes
      → Acquires p (
          lease s (record p {
            allocated_bytes = add64 p.allocated_bytes p.slab_size_bytes;
            leased_slabs = add64 p.leased_slabs 1;
          }))
  grow-IsValid s l e h =
      rw (leased_next, add64_of_lt p.allocated_bytes p.slab_size_bytes (omega arith)) (ground arith)

  -- A failed allocation gives back exactly what was reserved.
  rolled_back :
      p.allocated_bytes + p.slab_size_bytes ≤ p.max_total_bytes
      → roll_back (record p {
        allocated_bytes = add64 p.allocated_bytes p.slab_size_bytes;
        leased_slabs = add64 p.leased_slabs 1;
      })
        ≡ p
  unfolding roll_back
  rolled_back h = ground (arith, slabs_bounded v)

  fresh-Acquires :
      (fits : Bool)
      → p.free_slabs ≡ []
      → p.allocated_bytes + p.slab_size_bytes ≤ p.max_total_bytes
      → Acquires p (
          fill_storage fits [] (record p {
            allocated_bytes = add64 p.allocated_bytes p.slab_size_bytes;
            leased_slabs = add64 p.leased_slabs 1;
          }))
  unfolding fill_storage
  fresh-Acquires true e h =
      grow-IsValid (replicate p.slab_size_bytes 0) (length-replicate p.slab_size_bytes 0) e h
  fresh-Acquires false e h = rolled_back h

  reserve_from-Acquires :
      (fits : Bool) (ss : List (List ℕ))
      → p.free_slabs ≡ ss
      → Acquires p (reserved fits (reserve_from ss p))
  unfolding reserve_from fill_storage
  reserve_from-Acquires fits [] e =
      elim (Bool-cases (leb (add64 p.allocated_bytes p.slab_size_bytes) p.max_total_bytes)) [
        | inl t ↦ rw t (
            fresh-Acquires fits e (ground (arith, add64_of_lt p.allocated_bytes p.slab_size_bytes)))
        | inr t ↦ rw t (ground (arith, add64_of_lt p.allocated_bytes p.slab_size_bytes))
      ]
  reserve_from-Acquires fits ([] ∷ ss) e = absurd (ground (arith, ap (Sized p.slab_size_bytes) e))
  reserve_from-Acquires fits ((x ∷ xs) ∷ ss) e = reuse-IsValid (x ∷ xs) ss e

  -- Each way that `Acquire` ends on a valid pool: a lease is one slab long and leaves a valid pool
  -- with one slab more leased; a refusal comes only with no free slab and no room for one under the
  -- cap; a failed allocation leaves the pool as it was.
  pub acquire-Acquires : (fits : Bool) → Acquires p (acquire fits p)
  unfolding acquire
  acquire-Acquires fits = reserve_from-Acquires fits p.free_slabs refl

  -- A lease that ends gives its slab back, and the pool stays valid.
  pub release-IsValid :
      (storage : List ℕ)
      → length storage ≡ p.slab_size_bytes
      → 0 < p.leased_slabs
      → IsValid (release storage p)
        × ((release storage p).leased_slabs + 1 ≡ p.leased_slabs)
        × ((release storage p).allocated_bytes ≡ p.allocated_bytes)
  unfolding release
  release-IsValid storage l h =
      rw (sub64_of_le p.leased_slabs 1 (omega arith) (omega (arith, slabs_bounded v)))
        (ground arith)
