-- ===== src/SlabPool/Tests.antt =====
-- Runs of core/src/slab_pool.cpp: a pool of two slabs of four bytes.
use mod_audio_fork.Common.{
  ◌+◌, ◌*◌, ◌≤◌, ◌≡◌, refl, true, false, some, List, [], ◌∷◌, length, arith,
}
use mod_audio_fork.SlabPool.{SlabPoolOptions, SlabPool, create, acquire, release}
use mod_audio_fork.SlabPool.Accounting.{IsValid}
use mod_audio_fork.SlabPool.Traffic.{Call, acquires, returns, run, run_accounts}

abbrev two_slabs : SlabPoolOptions
two_slabs = record { slab_size_bytes = 4; max_total_bytes = 9 }

abbrev new_pool : SlabPool
new_pool = record { options = two_slabs; free_slabs = []; allocated_bytes = 0; leased_slabs = 0 }

create-new_pool : create two_slabs ≡ some new_pool
unfolding create
create-new_pool = refl

-- One slab is leased, one is free.
abbrev used_pool : SlabPool
used_pool = record new_pool {
  free_slabs = (1 ∷ 2 ∷ 3 ∷ 4 ∷ []) ∷ [];
  allocated_bytes = 8;
  leased_slabs = 1;
}

used_pool-IsValid : IsValid used_pool
used_pool-IsValid = omega arith

-- The third lease is refused, a failed allocation is rolled back, and a lease is given back.
abbrev history : List Call
history = acquires true ∷ acquires false ∷ acquires true ∷ acquires true ∷ returns 0 ∷ []

run_accounts_example :
    let t = run (record { pool = new_pool; leases = [] }) history in
    (t.pool.allocated_bytes ≤ 9)
    × (t.pool.leased_slabs ≡ length t.leases)
    × (t.pool.allocated_bytes ≡ (length t.leases + length t.pool.free_slabs) * 4)
run_accounts_example = run_accounts two_slabs history (omega arith) create-new_pool

history_ends : (run (record { pool = new_pool; leases = [] }) history).pool.leased_slabs ≡ 1
unfolding run acquire release
history_ends = refl
