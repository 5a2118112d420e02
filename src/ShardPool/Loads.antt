-- ===== src/ShardPool/Loads.antt =====
-- The loads of net/src/shard_pool.cpp count the sessions.
use mod_audio_fork.Common.{
  suc, ◌+◌, ◌%◌, ◌^◌, ◌≡◌, refl, sym, ap, subst, false, Bool-cases, inl, inr, List, [], ◌∷◌, ◌++◌,
  map, if◌then◌else◌, length, length-append, arith,
}
use mod_audio_fork.ShardPool.{
  Shard, idle, Handling, adopt, take_over, drain_adopted, alive, finished, tick,
}

-- What happens to a shard; `touched` is all that happens to its sessions between ticks.
pub data Move (S : Type 0) : Type 0 where
  adopted : S → Move S
  drained ticked : Move S
  touched : (S → S) → Move S

module _ {S : Type 0} where
  unfoldable pub move : Handling S → Move S → Shard S → Shard S
  unfolding adopt drain_adopted tick
  move h (adopted s) shard = adopt s shard
  move h drained shard = drain_adopted h shard
  move h ticked shard = tick h shard
  move h (touched f) shard = record shard { sessions = map f shard.sessions }

  unfoldable pub moves : Handling S → List (Move S) → Shard S → Shard S
  unfolding move
  moves h [] shard = shard
  moves h (m ∷ ms) shard = moves h ms (move h m shard)

  abbrev pub NoneDead : Handling S → List S → Type 0
  NoneDead h [] = Unit
  NoneDead h (s ∷ ss) = (h.is_dead s ≡ false) × NoneDead h ss

  -- The load is the number of sessions that the shard has or will take over (in 64 bits).
  abbrev pub Counts : Shard S → Type 0
  Counts shard = shard.load ≡ (length shard.posted + length shard.sessions) % 2 ^ 64

  length-map : (f : S → S) (ss : List S) → length (map f ss) ≡ length ss
  length-map f [] = refl
  length-map f (s ∷ ss) = ap suc (length-map f ss)

  take_over-length :
      (h : Handling S) (ss : List S) (shard : Shard S)
      → length (take_over h ss shard).sessions ≡ length shard.sessions + length ss
  unfolding take_over
  take_over-length h [] shard = omega arith
  take_over-length h (s ∷ ss) shard = omega (
    arith,
    take_over-length h ss (record shard { sessions = shard.sessions ++ h.start s ∷ [] }),
    length-append shard.sessions (h.start s ∷ []),
  )

  take_over-rest :
      (h : Handling S) (ss : List S) (shard : Shard S)
      → ((take_over h ss shard).load ≡ shard.load) × ((take_over h ss shard).posted ≡ shard.posted)
  unfolding take_over
  take_over-rest h [] shard = (refl, refl)
  take_over-rest h (s ∷ ss) shard =
      take_over-rest h ss (record shard { sessions = shard.sessions ++ h.start s ∷ [] })

  parted : (h : Handling S) (ss : List S) → length ss ≡ length (alive h ss) + length (finished h ss)
  unfolding alive finished
  parted h [] = omega arith
  parted h (s ∷ ss) = elim (Bool-cases (h.is_dead s)) [
    | inl gone ↦ rw gone (omega (arith, parted h ss))
    | inr here ↦ rw here (omega (arith, parted h ss))
  ]

  alive-NoneDead : (h : Handling S) (ss : List S) → NoneDead h (alive h ss)
  unfolding alive
  alive-NoneDead h [] = tt
  alive-NoneDead h (s ∷ ss) = elim (Bool-cases (h.is_dead s)) [
    | inl gone ↦ rw gone (alive-NoneDead h ss)
    | inr here ↦ kept here (alive-NoneDead h ss)
  ]
    where
      kept :
          h.is_dead s ≡ false
          → NoneDead h (alive h ss)
          → NoneDead h (if h.is_dead s then alive h ss else s ∷ alive h ss)
      kept here rest =
          subst (λ b. NoneDead h (if b then alive h ss else s ∷ alive h ss)) (sym here) (here, rest)

  adopt-Counts : (s : S) (shard : Shard S) → Counts shard → Counts (adopt s shard)
  unfolding adopt
  adopt-Counts s shard c = omega (arith, c, length-append shard.posted (s ∷ []))

  drain_adopted-Counts :
      (h : Handling S) (shard : Shard S) → Counts shard → Counts (drain_adopted h shard)
  unfolding drain_adopted
  drain_adopted-Counts h shard c =
      let taking = record shard { posted = [] } in
      let (load, posted) = take_over-rest h shard.posted taking in
      omega (arith, c, load, ap length posted, take_over-length h shard.posted taking)

  tick-Counts : (h : Handling S) (shard : Shard S) → Counts shard → Counts (tick h shard)
  unfolding tick
  tick-Counts h shard c =
      omega (arith, c, parted h (map h.pump shard.sessions), length-map h.pump shard.sessions)

  move-Counts :
      (h : Handling S) (m : Move S) (shard : Shard S) → Counts shard → Counts (move h m shard)
  unfolding move
  move-Counts h (adopted s) shard c = adopt-Counts s shard c
  move-Counts h drained shard c = drain_adopted-Counts h shard c
  move-Counts h ticked shard c = tick-Counts h shard c
  move-Counts h (touched f) shard c = omega (arith, c, length-map f shard.sessions)

  moves-from :
      (h : Handling S) (ms : List (Move S)) (shard : Shard S)
      → Counts shard
      → Counts (moves h ms shard)
  unfolding moves
  moves-from h [] shard c = c
  moves-from h (m ∷ ms) shard c = moves-from h ms (move h m shard) (move-Counts h m shard c)

  -- After any history of a shard, and a tick, its load is the number of the sessions that it has or
  -- will take over (in 64 bits), and none that it has is dead.
  pub tick_drops :
      (h : Handling S) (ms : List (Move S))
      → Counts (tick h (moves h ms idle)) × NoneDead h (tick h (moves h ms idle)).sessions
  unfolding tick
  tick_drops h ms = (
    tick-Counts h (moves h ms idle) (moves-from h ms idle refl),
    alive-NoneDead h (map h.pump (moves h ms idle).sessions),
  )
