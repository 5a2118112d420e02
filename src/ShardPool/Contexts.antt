-- ===== src/ShardPool/Contexts.antt =====
-- The threads and the contexts of libwebsockets over the life of a pool of net/src/shard_pool.cpp.
use mod_audio_fork.Common.{
  ℕ, zero, suc, ◌+◌, ◌-◌, ◌≤◌, ◌≡◌, refl, sym, subst, Bool, true, false, Bool-cases, inl, inr,
  Option, none, some, List, [], ◌∷◌, ◌++◌, append_assoc, if◌then◌else◌, arith,
}

-- What happens to a shard, by its position: `Create`, `StartThread`, the join of `StopThread`, and the
-- end of its context.
pub data Event : Type 0 where
  context_created thread_started thread_joined context_destroyed : (shard : ℕ) → Event

-- The same for `n` shards from a position on.
unfoldable pub each : (ℕ → Event) → (from n : ℕ) → List Event
each f from zero = []
each f from (suc n) = f from ∷ each f (from + 1) n

-- The shards of `Start`, until one cannot be created: what happened, how many there are, and whether
-- these are all.
unfoldable pub create_shards : (creates : ℕ → Bool) → (made left : ℕ) → List Event × ℕ × Bool
create_shards creates made zero = ([], made, true)
create_shards creates made (suc left) =
    let rest = create_shards creates (made + 1) left in
    if creates made then (context_created made ∷ rest.0, rest.1, rest.2) else ([], made, false)

-- `~ShardPool`: only a thread that was started is joined.
unfoldable pub destroy : (running : Bool) → (shards : ℕ) → List Event
unfolding each
destroy running shards =
    (if running then each thread_joined 0 shards else []) ++ each context_destroyed 0 shards

-- `Start`, once its shards were created, or were not: a pool that cannot have all its shards is
-- destroyed; else every thread starts.
unfoldable pub start_threads : List Event × ℕ × Bool → List Event × Option ℕ
unfolding destroy each
start_threads (events, made, true) = (events ++ each thread_started 0 made, some made)
start_threads (events, made, false) = (events ++ destroy false made, none)

unfoldable pub start : (creates : ℕ → Bool) → (count : ℕ) → List Event × Option ℕ
unfolding create_shards start_threads
start creates count = start_threads (create_shards creates 0 count)

-- A pool to its end.
unfoldable pub ended : List Event × Option ℕ → List Event
unfolding destroy
ended (events, none) = events
ended (events, some shards) = events ++ destroy true shards

abbrev pub lifetime : (creates : ℕ → Bool) → (count : ℕ) → List Event
lifetime creates count = ended (start creates count)

-- From so many threads that run and contexts that there are: contexts come and go only while no
-- thread runs, and in the end there is none of either.
abbrev pub Guarded : (threads contexts : ℕ) → List Event → Type 0
Guarded t c [] = (t ≡ 0) × (c ≡ 0)
Guarded t c (context_created i ∷ es) = (t ≡ 0) × Guarded t (c + 1) es
Guarded t c (thread_started i ∷ es) = Guarded (t + 1) c es
Guarded t c (thread_joined i ∷ es) = (1 ≤ t) × Guarded (t - 1) c es
Guarded t c (context_destroyed i ∷ es) = ((t ≡ 0) × (1 ≤ c)) × Guarded t (c - 1) es

each_started :
    (from n t c : ℕ) (es : List Event)
    → Guarded (t + n) c es
    → Guarded t c (each thread_started from n ++ es)
unfolding each
each_started from zero t c es g = subst (λ k. Guarded k c es) (omega arith) g
each_started from (suc n) t c es g =
    each_started (from + 1) n (t + 1) c es (subst (λ k. Guarded k c es) (omega arith) g)

each_joined :
    (from n c : ℕ) (es : List Event)
    → Guarded 0 c es
    → Guarded n c (each thread_joined from n ++ es)
unfolding each
each_joined from zero c es g = g
each_joined from (suc n) c es g = (
  omega arith,
  subst (λ k. Guarded k c (each thread_joined (from + 1) n ++ es)) (omega arith)
      (each_joined (from + 1) n c es g),
)

each_destroyed : (from n : ℕ) → Guarded 0 n (each context_destroyed from n)
unfolding each
each_destroyed from zero = (refl, refl)
each_destroyed from (suc n) = (
  (refl, omega arith),
  subst (λ k. Guarded 0 k (each context_destroyed (from + 1) n)) (omega arith)
      (each_destroyed (from + 1) n),
)

-- Behind the shards that were created, what is right for so many contexts.
create_shards-Guarded :
    (creates : ℕ → Bool) (made left : ℕ) (es : ℕ → List Event)
    → ((n : ℕ) → Guarded 0 n (es n))
    → Guarded 0 made ((create_shards creates made left).0 ++ es (create_shards creates made left).1)
unfolding create_shards
create_shards-Guarded creates made zero es g = g made
create_shards-Guarded creates made (suc left) es g = elim (Bool-cases (creates made)) [
  | inl yes' ↦ rw yes' (refl, create_shards-Guarded creates (made + 1) left es g)
  | inr no' ↦ rw no' (g made)
]

destroy-Guarded : (n : ℕ) → Guarded 0 n (destroy false n)
unfolding destroy
destroy-Guarded n = each_destroyed 0 n

run-Guarded : (n : ℕ) → Guarded 0 n (each thread_started 0 n ++ destroy true n)
unfolding destroy
run-Guarded n = each_started 0 n 0 n (each thread_joined 0 n ++ each context_destroyed 0 n) (
    subst (λ k. Guarded k n (each thread_joined 0 n ++ each context_destroyed 0 n)) (omega arith)
      (each_joined 0 n n (each context_destroyed 0 n) (each_destroyed 0 n)))

ended-Guarded :
    (r : List Event × ℕ × Bool)
    → ((es : ℕ → List Event) → ((n : ℕ) → Guarded 0 n (es n)) → Guarded 0 0 (r.0 ++ es r.1))
    → Guarded 0 0 (ended (start_threads r))
unfolding ended start_threads
ended-Guarded (events, made, true) g =
    subst (Guarded 0 0) (sym (append_assoc events (each thread_started 0 made) (destroy true made)))
      (g (λ n. each thread_started 0 n ++ destroy true n) run-Guarded)
ended-Guarded (events, made, false) g = g (destroy false) destroy-Guarded

-- Over the life of a pool, whichever of its shards can be created: a context is created or destroyed
-- only while no thread of a shard runs, and every thread and every context comes to its end.
pub lifetime-Guarded : (creates : ℕ → Bool) (count : ℕ) → Guarded 0 0 (lifetime creates count)
unfolding start
lifetime-Guarded creates count =
    ended-Guarded (create_shards creates 0 count) (create_shards-Guarded creates 0 count)
