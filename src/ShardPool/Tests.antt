-- ===== src/ShardPool/Tests.antt =====
-- Runs of the shards of net/src/shard_pool.cpp.
use mod_audio_fork.Common.{ℕ, ◌+◌, ◌≡◌, refl, not, true, some, List, [], ◌∷◌, ltb, arith}
use mod_audio_fork.WsClient.{WsConnection, fresh, send_text, Handler, client_closed}
use mod_audio_fork.WsClient.Closing.{Reach, start}
use mod_audio_fork.ShardPool.{idle, Handling, tick, shard_loads, ShardPool, start_fork}
use mod_audio_fork.ShardPool.Contexts.{
  context_created, thread_started, thread_joined, context_destroyed, lifetime, ended, start_threads,
  create_shards, Guarded, lifetime-Guarded,
}
use mod_audio_fork.ShardPool.Contexts as Contexts
use mod_audio_fork.ShardPool.Loads.{
  Move, adopted, drained, ticked, Counts, NoneDead, moves, tick_drops,
}
use mod_audio_fork.ShardPool.Placement.{Places, start_fork-Places}
use mod_audio_fork.ShardPool.Adapter.{
  Adapter, through, Uses, given, session, event, forward, called_back, uses_reach,
}

-- The second of two shards cannot be created.
half_created : lifetime (λ i. ltb i 1) 2 ≡ context_created 0 ∷ context_destroyed 0 ∷ []
unfolding Contexts.start ended
half_created = refl

both_created :
    lifetime (λ _. true) 2
    ≡ context_created 0
      ∷ context_created 1
      ∷ thread_started 0
      ∷ thread_started 1
      ∷ thread_joined 0
      ∷ thread_joined 1
      ∷ context_destroyed 0
      ∷ context_destroyed 1
      ∷ []
unfolding Contexts.start ended
both_created = refl

lifetime-Guarded_example : Guarded 0 0 (lifetime (λ i. ltb i 1) 2)
lifetime-Guarded_example = lifetime-Guarded (λ i. ltb i 1) 2

-- Sessions that count their pumps, and die of the second.
abbrev counting : Handling ℕ
counting = record { start = λ n. n; pump = λ n. n + 1; is_dead = λ n. not (ltb n 2) }

abbrev history : List (Move ℕ)
history = adopted 0 ∷ adopted 1 ∷ drained ∷ ticked ∷ adopted 0 ∷ []

one_left : (moves counting history idle).load ≡ 2
unfolding moves
one_left = refl

tick_drops_example :
    Counts (tick counting (moves counting history idle))
    × NoneDead counting (tick counting (moves counting history idle)).sessions
tick_drops_example = tick_drops counting history

abbrev pool : ShardPool ℕ
pool = record {
  shards =
      record { load = 4; posted = 0 ∷ []; sessions = 0 ∷ 0 ∷ 0 ∷ [] }
      ∷ record { load = 3; posted = []; sessions = 0 ∷ 0 ∷ 0 ∷ [] }
      ∷ [];
  next_fork_id = 7;
}

placed : shard_loads (start_fork (λ seed. some seed) pool).0.shards ≡ 4 ∷ 4 ∷ []
unfolding start_fork
placed = refl

start_fork-Places_example :
    let r = start_fork (λ (seed : ℕ). some seed) pool in
    Places (some 8) pool.shards r × (r.0.next_fork_id ≡ 8)
start_fork-Places_example = start_fork-Places (λ seed. some seed) pool (omega arith)

abbrev silent : Handler
silent es = []

abbrev bound_to : WsConnection → Adapter
bound_to c = record { is_bound = true; connection = c }

-- The session goes on after the close.
abbrev used : Adapter
used = forward (send_text (1 ∷ [])) (called_back silent client_closed (bound_to (fresh 9 5000)))

uses : Uses silent (bound_to (fresh 9 5000)) used
uses = session (send_text (1 ∷ [])) (event client_closed given refl)

uses_reach_example :
    Reach (through silent) (fresh 9 5000) used.connection
    × (used.is_bound ≡ not used.connection.erased)
uses_reach_example = uses_reach start refl uses
