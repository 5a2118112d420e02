-- ===== src/ShardPool.antt =====
-- net/src/shard_pool.cpp and net/include/audiofork_net/shard_pool.hpp: the shards that the forks are
-- spread over. `Adapter` has the connections that a shard makes for them, `Contexts` the order in
-- which threads and contexts of libwebsockets come and go.
pub mod Adapter
pub mod Contexts
pub mod Loads
pub mod Balance
pub mod Placement
mod Tests
use mod_audio_fork.Common.{
  ℕ, zero, suc, ◌+◌, ◌%◌, ◌^◌, min, ◌==◌, Bool, true, false, not, Option, none, some, List, [], ◌∷◌,
  ◌++◌, map, if◌then◌else◌, ltb, length, add64, sub64,
}
use mod_audio_fork.SlabPool.{SlabPool}
use mod_audio_fork.SessionState.{SessionState, dead}
use mod_audio_fork.ForkSession
use mod_audio_fork.ForkSession.{ForkSession, Tuning}
use mod_audio_fork.ForkSession.Ports.{ForkParams}

-- A shard as its sessions see it: those that wait in a task to be taken over, and those that it has.
pub record Shard (S : Type 0) : Type 0 where
  pub load : ℕ
  pub posted : List S
  pub sessions : List S

abbrev pub idle : {S : Type 0} → Shard S
idle = record { load = 0; posted = []; sessions = [] }

-- What a shard does to a session: its `Start`, its `Pump`, and whether it is dead.
pub record Handling (S : Type 0) : Type 0 where
  pub start : S → S
  pub pump : S → S
  pub is_dead : S → Bool

module _ {S : Type 0} where
  -- `Adopt`, and the task that it posts.
  unfoldable pub adopt : S → Shard S → Shard S
  adopt s shard = record shard { load = add64 shard.load 1; posted = shard.posted ++ s ∷ [] }

  unfoldable pub take_over : Handling S → List S → Shard S → Shard S
  take_over h [] shard = shard
  take_over h (s ∷ ss) shard =
      take_over h ss (record shard { sessions = shard.sessions ++ h.start s ∷ [] })

  unfoldable pub drain_adopted : Handling S → Shard S → Shard S
  unfolding take_over
  drain_adopted h shard = take_over h shard.posted (record shard { posted = [] })

  -- The parts of `std::stable_partition`.
  unfoldable pub alive : Handling S → List S → List S
  alive h [] = []
  alive h (s ∷ ss) = if h.is_dead s then alive h ss else s ∷ alive h ss

  unfoldable pub finished : Handling S → List S → List S
  finished h [] = []
  finished h (s ∷ ss) = if h.is_dead s then s ∷ finished h ss else finished h ss

  unfoldable pub tick : Handling S → Shard S → Shard S
  unfolding alive finished
  tick h shard =
      let pumped = map h.pump shard.sessions in
      record shard {
        sessions = alive h pumped;
        load = sub64 shard.load (length (finished h pumped) % 2 ^ 64);
      }

  -- `shard_loads`.
  abbrev pub shard_loads : List (Shard S) → List ℕ
  shard_loads [] = []
  shard_loads (s ∷ ss) = s.load ∷ shard_loads ss

  -- A shard at a position, changed.
  unfoldable pub modify : ℕ → (Shard S → Shard S) → List (Shard S) → List (Shard S)
  modify i f [] = []
  modify zero f (s ∷ ss) = f s ∷ ss
  modify (suc i) f (s ∷ ss) = s ∷ modify i f ss

-- `active_forks`.
unfoldable pub active_forks : List ℕ → ℕ
active_forks [] = 0
active_forks (n ∷ ns) = add64 n (active_forks ns)

-- `std::min_element` over the loads that follow the best one so far: its position, its load and the
-- position of the next.
unfoldable pub least_from : (best load next : ℕ) → List ℕ → ℕ
least_from best load next [] = best
least_from best load next (n ∷ ns) =
    least_from (if ltb n load then next else best) (if ltb n load then n else load) (next + 1) ns

-- `LeastLoadedShard`, of shards that there are.
unfoldable pub least_loaded : List ℕ → ℕ
unfolding least_from
least_loaded [] = 0
least_loaded (n ∷ ns) = least_from 0 n 1 ns

pub record ShardPool (S : Type 0) : Type 0 where
  pub shards : List (Shard S)
  pub next_fork_id : ℕ

-- What `StartFork` does with the session that was created, or was not.
unfoldable pub place : {S : Type 0} → Option S → ShardPool S → ShardPool S × Option S
unfolding adopt modify least_loaded
place none pool = (pool, none)
place (some session) pool = (
  record pool {
    shards = modify (least_loaded (shard_loads pool.shards)) (adopt session) pool.shards;
  },
  some session,
)

-- `StartFork`, with what `ForkSession::Create` returns for the seed of this fork.
unfoldable pub start_fork :
    {S : Type 0} → ((seed : ℕ) → Option S) → ShardPool S → ShardPool S × Option S
unfolding place
start_fork create pool =
    place (create (add64 pool.next_fork_id 1))
      (record pool { next_fork_id = add64 pool.next_fork_id 1 })

-- How many shards `Start` makes; `hardware` is what `std::thread::hardware_concurrency` says.
unfoldable pub shards_wanted : (shard_count hardware : ℕ) → ℕ
shards_wanted shard_count hardware =
    if shard_count == 0 then (if hardware == 0 then 2 else min hardware 16) else shard_count
