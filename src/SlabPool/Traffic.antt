-- ===== src/SlabPool/Traffic.antt =====
-- Histories of calls on the pool of core/src/slab_pool.cpp, from any threads: the cap holds
-- throughout, and `CanLease` foretells `Acquire`.
use mod_audio_fork.Common.{
  ℕ, zero, suc, ◌+◌, ◌-◌, ◌*◌, ◌/◌, ◌≤◌, ◌<◌, ◌^◌, ◌≡◌, refl, sym, ◌∙◌, ap, Bool, true, false,
  Option, none, some, List, [], ◌∷◌, length, arith, leb, sub64_of_le,
}
use native.Mathlib.Nat.{add-mul-div_right, div-le_self, div-lt_iff_lt-mul, le-div_iff_mul-le}
use mod_audio_fork.SlabPool.{
  SlabPoolOptions, SlabPool, create, Acquired, lease, refused, threw, acquire, release, can_lease,
  fill_storage, reserve, reserved,
}
use mod_audio_fork.SlabPool.Accounting.{IsValid, Sized, Acquires, acquire-Acquires, release-IsValid}

-- A call: an `Acquire` whose allocation, if it makes one, fits or fails, or the end of the lease
-- at an index (none there: no call).
pub data Call : Type 0 where
  acquires : (fits : Bool) → Call
  returns : (index : ℕ) → Call

pub record Traffic : Type 0 where
  pub pool : SlabPool
  pub leases : List (List ℕ)

-- The lease at an index, and the others.
abbrev pub remove_at : ℕ → List (List ℕ) → Option (List ℕ × List (List ℕ))
remove_at i [] = none
remove_at zero (s ∷ ss) = some (s, ss)
remove_at (suc i) (s ∷ ss) = elim (remove_at i ss) [ none ↦ none | some (t, ts) ↦ some (t, s ∷ ts) ]

abbrev acquired : Traffic → Acquired → Traffic
acquired t (lease s p) = record { pool = p; leases = s ∷ t.leases }
acquired t refused = t
acquired t (threw p) = record t { pool = p }

abbrev returned : Traffic → Option (List ℕ × List (List ℕ)) → Traffic
returned t none = t
returned t (some (s, ss)) = record { pool = release s t.pool; leases = ss }

unfoldable pub step : Traffic → Call → Traffic
step t (acquires fits) = acquired t (acquire fits t.pool)
step t (returns i) = returned t (remove_at i t.leases)

unfoldable pub run : Traffic → List Call → Traffic
unfolding step
run t [] = t
run t (c ∷ cs) = run (step t c) cs

pub record Accounts (o : SlabPoolOptions) (t : Traffic) : Type 0 where
  pub same : t.pool.options ≡ o
  pub valid : IsValid t.pool
  pub lent : Sized o.slab_size_bytes t.leases
  pub outstanding : t.pool.leased_slabs ≡ length t.leases

module _ (o : SlabPoolOptions) where
  acquired-Accounts :
      (t : Traffic) (r : Acquired) → Acquires t.pool r → Accounts o t → Accounts o (acquired t r)
  acquired-Accounts t (lease s p) h a = ground arith
  acquired-Accounts t refused h a = a
  acquired-Accounts t (threw p) h a = ground arith

  Removes : List (List ℕ) → Option (List ℕ × List (List ℕ)) → Type 0
  Removes ss none = Unit {0}
  Removes ss (some (t, ts)) =
      (length t ≡ o.slab_size_bytes) × Sized o.slab_size_bytes ts × (length ss ≡ suc (length ts))

  remove_at-Removes :
      (i : ℕ) (ss : List (List ℕ)) → Sized o.slab_size_bytes ss → Removes ss (remove_at i ss)
  unfolding Removes
  remove_at-Removes i [] h = tt
  remove_at-Removes zero (s ∷ ss) h = (h.0, h.1, refl)
  remove_at-Removes (suc i) (s ∷ ss) h = ground (arith, remove_at-Removes i ss h.1)

  returned-Accounts :
      (t : Traffic) (r : Option (List ℕ × List (List ℕ)))
      → Removes t.leases r
      → Accounts o t
      → Accounts o (returned t r)
  unfolding Removes release
  returned-Accounts t none h a = a
  returned-Accounts t (some (s, ss)) h a = ground (arith, release-IsValid t.pool a.valid s)

  step-Accounts : (t : Traffic) (c : Call) → Accounts o t → Accounts o (step t c)
  unfolding step
  step-Accounts t (acquires fits) a =
      acquired-Accounts t (acquire fits t.pool) (acquire-Acquires t.pool a.valid fits) a
  step-Accounts t (returns i) a =
      returned-Accounts t (remove_at i t.leases) (remove_at-Removes i t.leases a.lent) a

  run-Accounts : (t : Traffic) (cs : List Call) → Accounts o t → Accounts o (run t cs)
  unfolding run
  run-Accounts t [] a = a
  run-Accounts t (c ∷ cs) a = run-Accounts (step t c) cs (step-Accounts t c a)

created-Accounts :
    (o : SlabPoolOptions) {p : SlabPool}
    → o.max_total_bytes + o.slab_size_bytes < 2 ^ 64
    → create o ≡ some p
    → Accounts o (record { pool = p; leases = [] })
unfolding create
created-Accounts o {p} h e = ground arith

-- After any history of a new pool whose cap and slab size together are below 2 ^ 64: the bytes
-- allocated are those of the slabs that are leased or free, they never exceed the cap, and as many
-- slabs are leased as there are leases.
pub run_accounts :
    (o : SlabPoolOptions) {p : SlabPool} (cs : List Call)
    → o.max_total_bytes + o.slab_size_bytes < 2 ^ 64
    → create o ≡ some p
    → let t = run (record { pool = p; leases = [] }) cs in
      (t.pool.allocated_bytes ≤ o.max_total_bytes)
      × (t.pool.leased_slabs ≡ length t.leases)
      × (t.pool.allocated_bytes ≡ (length t.leases + length t.pool.free_slabs) * o.slab_size_bytes)
run_accounts o {p} cs h e =
    let t = run (record { pool = p; leases = [] }) cs in
    let a : Accounts o t = run-Accounts o _ cs (created-Accounts o h e) in
    (ground arith, a.outstanding, ground arith)

-- How many slabs can still be leased.
headroom : SlabPool → ℕ
headroom p = p.max_total_bytes / p.slab_size_bytes - p.leased_slabs

-- `n` calls of `Acquire` in a row all give a lease.
pub acquirable : ℕ → SlabPool → Bool
acquirable zero p = true
acquirable (suc n) p = elim (acquire true p) [ lease s q ↦ acquirable n q | _ ↦ false ]

module _ (p : SlabPool) (v : IsValid p) where
  -- What the cap leaves to allocate, in slabs, with the free slabs, is the headroom.
  growable-headroom :
      (p.max_total_bytes - p.allocated_bytes) / p.slab_size_bytes + length p.free_slabs ≡ headroom p
  unfolding headroom
  growable-headroom =
      let k = p.leased_slabs + length p.free_slabs in
      let e : p.max_total_bytes ≡ p.max_total_bytes - p.allocated_bytes + k * p.slab_size_bytes =
        omega (arith, v.counted, v.within) in
      omega (
        arith,
        ap (λ (m : ℕ). m / p.slab_size_bytes) e,
        add-mul-div_right (p.max_total_bytes - p.allocated_bytes) k v.sized,
      )

  leased_in_headroom : p.leased_slabs ≤ p.max_total_bytes / p.slab_size_bytes
  leased_in_headroom = (le-div_iff_mul-le v.sized).1 (omega (arith, v.counted, v.within))

  headroom_bounded : headroom p < 2 ^ 64
  unfolding headroom
  headroom_bounded = omega (arith, div-le_self p.max_total_bytes p.slab_size_bytes, v.small)

  can_lease-headroom : (n : ℕ) → can_lease n p ≡ leb n (headroom p)
  unfolding can_lease
  can_lease-headroom n =
      rw (sub64_of_le p.max_total_bytes p.allocated_bytes v.within (omega arith))
        (ground (arith, growable-headroom, headroom_bounded))

fill_storage_fits : (s : List ℕ) (p q : SlabPool) → fill_storage true s p ≡ threw q → ⊥
unfolding fill_storage
fill_storage_fits [] p q e = cc e
fill_storage_fits (x ∷ xs) p q e = cc e

reserved_fits : (o : Option (List ℕ × SlabPool)) (q : SlabPool) → reserved true o ≡ threw q → ⊥
reserved_fits none q e = cc e
reserved_fits (some (s, p)) q e = fill_storage_fits s p q e

acquirable_by :
    (n : ℕ) (p : SlabPool) (r : Acquired)
    → IsValid p
    → acquire true p ≡ r
    → Acquires p r
    → ((q : SlabPool) → IsValid q → acquirable n q ≡ leb n (headroom q))
    → acquirable (suc n) p ≡ leb (suc n) (headroom p)
unfolding acquirable headroom acquire
acquirable_by n p (lease s q) v e h ih =
    rw (e, acquirable) (ih q h.0 ∙ ground (arith, leased_in_headroom q h.0))
acquirable_by n p refused v e h ih = rw (e, acquirable) (ground (arith, full))
  where
    full : p.max_total_bytes / p.slab_size_bytes < p.leased_slabs + 1
    full = (div-lt_iff_lt-mul v.sized).1 (ground (arith, v.counted))
acquirable_by n p (threw q) v e h ih = absurd (reserved_fits (reserve p) q e)

acquirable-headroom : (n : ℕ) (p : SlabPool) → IsValid p → acquirable n p ≡ leb n (headroom p)
unfolding acquirable
acquirable-headroom zero p v = ground arith
acquirable-headroom (suc n) p v =
    acquirable_by n p (acquire true p) v refl (acquire-Acquires p v true) (acquirable-headroom n)

-- On a valid pool `CanLease` answers true exactly when that many calls of `Acquire`, with no other
-- call between them and memory to be had, all give a lease.
pub can_lease-acquirable : (n : ℕ) (p : SlabPool) → IsValid p → can_lease n p ≡ acquirable n p
can_lease-acquirable n p v = can_lease-headroom p v n ∙ sym (acquirable-headroom n p v)

-- With memory to be had `Acquire` does not throw.
pub acquire_fits : (p q : SlabPool) → acquire true p ≡ threw q → ⊥
unfolding acquire
acquire_fits p q e = reserved_fits (reserve p) q e
