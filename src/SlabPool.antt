-- ===== src/SlabPool.antt =====
-- core/include/audiofork/slab_pool.hpp and core/src/slab_pool.cpp: the process-wide pool of equal
-- slabs under a byte cap. Every function here runs under the pool's mutex, so calls from several
-- threads are a sequence of them; a lease is the storage that it carries. Bytes are only moved, so
-- a byte is any number.
pub mod Accounting
pub mod Traffic
mod Tests
use mod_audio_fork.Common.{
  ℕ, ◌+◌, ◌-◌, ◌/◌, Bool, true, false, ◌||◌, Option, none, some, List, [], ◌∷◌, ltb, leb, ◌==◌,
  if◌then◌else◌, length, replicate, add64, sub64,
}

pub record SlabPoolOptions : Type 0 where
  pub slab_size_bytes : ℕ
  pub max_total_bytes : ℕ

-- `SlabPoolState`; the head of `free_slabs` is the back of the vector.
pub record SlabPool : Type 0 where
  pub options : SlabPoolOptions
  pub open options use *
  pub free_slabs : List (List ℕ)
  pub allocated_bytes : ℕ
  pub leased_slabs : ℕ

unfoldable pub create : SlabPoolOptions → Option SlabPool
create options =
    if options.slab_size_bytes == 0 || ltb options.max_total_bytes options.slab_size_bytes
    then none
    else some (record { options = options; free_slabs = []; allocated_bytes = 0; leased_slabs = 0 })

-- The locked part of `Acquire`: the storage taken is empty where the slab is yet to be allocated.
reserve_from : List (List ℕ) → SlabPool → Option (List ℕ × SlabPool)
reserve_from (storage ∷ rest) p =
    some (storage, record p { free_slabs = rest; leased_slabs = add64 p.leased_slabs 1 })
reserve_from [] p =
    if leb (add64 p.allocated_bytes p.slab_size_bytes) p.max_total_bytes
    then some (
      [],
      record p {
        allocated_bytes = add64 p.allocated_bytes p.slab_size_bytes;
        leased_slabs = add64 p.leased_slabs 1;
      },
    )
    else none

unfoldable pub reserve : SlabPool → Option (List ℕ × SlabPool)
unfolding reserve_from
reserve p = reserve_from p.free_slabs p

-- The handler of `Acquire`: the allocation failed, and what was reserved is given back.
unfoldable pub roll_back : SlabPool → SlabPool
roll_back p = record p {
  allocated_bytes = sub64 p.allocated_bytes p.slab_size_bytes;
  leased_slabs = sub64 p.leased_slabs 1;
}

pub data Acquired : Type 0 where
  lease : (storage : List ℕ) → SlabPool → Acquired
  refused : Acquired
  threw : SlabPool → Acquired

-- A slab that is not empty was used before; an empty one is resized, and `fits` says whether the
-- allocation succeeds.
unfoldable pub fill_storage : Bool → List ℕ → SlabPool → Acquired
unfolding roll_back
fill_storage fits (x ∷ xs) p = lease (x ∷ xs) p
fill_storage true [] p = lease (replicate p.slab_size_bytes 0) p
fill_storage false [] p = threw (roll_back p)

abbrev pub reserved : Bool → Option (List ℕ × SlabPool) → Acquired
reserved fits none = refused
reserved fits (some (storage, p)) = fill_storage fits storage p

unfoldable pub acquire : Bool → SlabPool → Acquired
unfolding reserve fill_storage
acquire fits p = reserved fits (reserve p)

-- `SlabLease::Release`, which the lease's destructor runs.
unfoldable pub release : List ℕ → SlabPool → SlabPool
release storage p = record p {
  free_slabs = storage ∷ p.free_slabs;
  leased_slabs = sub64 p.leased_slabs 1;
}

unfoldable pub can_lease : ℕ → SlabPool → Bool
can_lease slabs p =
    let growable = sub64 p.max_total_bytes p.allocated_bytes / p.slab_size_bytes in
    leb slabs (add64 (length p.free_slabs) growable)

pub record Stats : Type 0 where
  pub slab_size_bytes : ℕ
  pub allocated_bytes : ℕ
  pub leased_slabs : ℕ
  pub free_slabs : ℕ
  pub cap_bytes : ℕ

unfoldable pub stats : SlabPool → Stats
stats p = record {
  slab_size_bytes = p.slab_size_bytes;
  allocated_bytes = p.allocated_bytes;
  leased_slabs = p.leased_slabs;
  free_slabs = length p.free_slabs;
  cap_bytes = p.max_total_bytes;
}
