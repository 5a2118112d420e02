-- ===== src/ShardPool/Placement.antt =====
-- Where `StartFork` of net/src/shard_pool.cpp puts a fork, and what it counts there.
use mod_audio_fork.Common.{
  ℕ, zero, suc, ◌<◌, ◌≡◌, refl, ap, subst, Option, none, some, List, [], ◌∷◌, ◌++◌, length, add64,
  arith,
}
use mod_audio_fork.ShardPool.{
  Shard, adopt, shard_loads, modify, least_loaded, ShardPool, place, start_fork,
}
use mod_audio_fork.ShardPool.Balance.{nth, AtLeast, IsLeast, least_loaded-IsLeast}

-- A session waits at one of the shards, behind those that wait there; that shard had no more load than
-- any, and has one more now; the others are as they were.
pub record Placed {S : Type 0} (s : S) (shards shards' : List (Shard S)) : Type 0 where
  pub before : List (Shard S)
  pub chosen : Shard S
  pub after : List (Shard S)
  pub was : shards ≡ before ++ (chosen ∷ after)
  pub least : AtLeast chosen.load (shard_loads shards)
  pub now :
      shards'
      ≡ before
        ++ (record chosen { load = add64 chosen.load 1; posted = chosen.posted ++ s ∷ [] } ∷ after)

-- With the session that was created the fork is placed; without one the shards are as they were.
abbrev pub Places :
    {S : Type 0} → Option S → (shards : List (Shard S)) → ShardPool S × Option S → Type 0
Places none shards r = (r.1 ≡ none) × (r.0.shards ≡ shards)
Places (some s) shards r = (r.1 ≡ some s) × Placed s shards r.0.shards

module _ {S : Type 0} where
  -- A position among the shards.
  record At (i : ℕ) (f : Shard S → Shard S) (shards : List (Shard S)) : Type 0 where
    before : List (Shard S)
    chosen : Shard S
    after : List (Shard S)
    was : shards ≡ before ++ (chosen ∷ after)
    load : nth (shard_loads shards) i ≡ chosen.load
    now : modify i f shards ≡ before ++ (f chosen ∷ after)

  At-position :
      (i : ℕ) (f : Shard S → Shard S) (shards : List (Shard S))
      → i < length (shard_loads shards)
      → At i f shards
  unfolding modify
  At-position i f [] l = absurd (omega arith)
  At-position zero f (x ∷ xs) l = record {
    before = [];
    chosen = x;
    after = xs;
    was = refl;
    load = refl;
    now = refl;
  }
  At-position (suc i) f (x ∷ xs) l =
      let p = At-position i f xs (omega arith) in
      record {
        before = x ∷ p.before;
        chosen = p.chosen;
        after = p.after;
        was = ap (λ ys. x ∷ ys) p.was;
        load = p.load;
        now = ap (λ ys. x ∷ ys) p.now;
      }

  adopt-Placed :
      (s : S) (i : ℕ) (shards : List (Shard S))
      → IsLeast i (shard_loads shards)
      → Placed s shards (modify i (adopt s) shards)
  unfolding adopt
  adopt-Placed s i shards (range, least) =
      let p = At-position i (adopt s) shards range in
      record {
        before = p.before;
        chosen = p.chosen;
        after = p.after;
        was = p.was;
        least = subst (λ n. AtLeast n (shard_loads shards)) p.load least;
        now = p.now;
      }

  least_loaded-shards :
      (shards : List (Shard S))
      → 0 < length shards
      → IsLeast (least_loaded (shard_loads shards)) (shard_loads shards)
  least_loaded-shards [] l = absurd (omega arith)
  least_loaded-shards (x ∷ xs) l = least_loaded-IsLeast x.load (shard_loads xs)

  place-Places :
      (o : Option S) (pool : ShardPool S)
      → 0 < length pool.shards
      → Places o pool.shards (place o pool)
  unfolding place
  place-Places none pool l = (refl, refl)
  place-Places (some s) pool l = (
    refl,
    adopt-Placed s (least_loaded (shard_loads pool.shards)) pool.shards
        (least_loaded-shards pool.shards l),
  )

  place-next_fork_id :
      (o : Option S) (pool : ShardPool S) → (place o pool).0.next_fork_id ≡ pool.next_fork_id
  unfolding place
  place-next_fork_id none pool = refl
  place-next_fork_id (some s) pool = refl

  -- `StartFork`, of a pool with a shard, whatever its loads: a session that is created, by the next
  -- seed, waits at a shard whose load is not above any, the load of that shard counts it at once (in 64
  -- bits), and no other shard changes; where none is created no shard changes. The seed is used up.
  pub start_fork-Places :
      (create : (seed : ℕ) → Option S) (pool : ShardPool S)
      → 0 < length pool.shards
      → let r = start_fork create pool in
        Places (create (add64 pool.next_fork_id 1)) pool.shards r
        × (r.0.next_fork_id ≡ add64 pool.next_fork_id 1)
  unfolding start_fork
  start_fork-Places create pool l =
      let seed = add64 pool.next_fork_id 1 in
      let seeded : ShardPool S = record pool { next_fork_id = seed } in
      (place-Places (create seed) seeded l, place-next_fork_id (create seed) seeded)
