-- ===== src/Module/Lifetime/Loads.antt =====
-- The module of module/mod_audio_fork.cpp loads, and leaves nothing behind.
use mod_audio_fork.Common.{
  ℕ, zero, suc, ◌+◌, ◌<◌, ◌≤◌, ◌≡◌, refl, sym, ◌∙◌, ap, subst, Bool, true, false, Option, none,
  some, List, [], ◌++◌, append-nil, Text, arith,
}
use mod_audio_fork.Config.{ModuleConfig}
use mod_audio_fork.SlabPool
use mod_audio_fork.SlabPool.{SlabPool}
use mod_audio_fork.ShardPool.{shards_wanted}
use mod_audio_fork.ShardPool.Contexts
use mod_audio_fork.ShardPool.Contexts.{
  Event, create_shards, start_threads, ended, destroy, lifetime, Guarded, lifetime-Guarded,
}
use mod_audio_fork.Module.Settings.{load_config}
use mod_audio_fork.Module.Settings.Sane.{Ints, pool_options, load_config_pool}
use mod_audio_fork.Module.Start.{ModuleState}
use mod_audio_fork.Module.Lifetime.{
  Loaded, loaded, new_state, with_shards, with_pool, load, shutdown,
}

-- All contexts can be created.
created_all :
    (creates : ℕ → Bool) (made left : ℕ)
    → ((i : ℕ) → i < made + left → creates i ≡ true)
    → ((create_shards creates made left).1 ≡ made + left)
      × ((create_shards creates made left).2 ≡ true)
unfolding create_shards
created_all creates made zero h = (omega arith, refl)
created_all creates made (suc left) h =
    let (n, all) = created_all creates (made + 1) left (λ i l. h i (omega arith)) in
    rw (h made (omega arith)) (n ∙ omega arith, all)

wanted_bounds :
    (count hardware : ℕ)
    → count ≤ 16
    → (1 ≤ shards_wanted count hardware) × (shards_wanted count hardware ≤ 16)
unfolding shards_wanted
wanted_bounds count hardware l = ground arith

started_all : (r : List Event × ℕ × Bool) → r.2 ≡ true → (start_threads r).1 ≡ some r.1
unfolding start_threads
started_all (events, made, true) h = refl
started_all (events, made, false) h = cc

with_shards-loaded :
    (c : ModuleConfig) (p : SlabPool) (r : List Event × Option ℕ) (n : ℕ)
    → r.1 ≡ some n
    → with_shards c p r ≡ (r.0, loaded (new_state c p) n)
with_shards-loaded c p (events, none) n h = cc
with_shards-loaded c p (events, some m) n h = cc

with_shards-ended :
    (c : ModuleConfig) (p : SlabPool) (r : List Event × Option ℕ)
    → (with_shards c p r).0 ++ (shutdown (with_shards c p r).1).0 ≡ ended r
unfolding shutdown ended
with_shards-ended c p (events, none) = append-nil events
with_shards-ended c p (events, some m) = refl

with_pool-Guarded :
    (creates : ℕ → Bool) (hardware : ℕ) (c : ModuleConfig) (o : Option SlabPool)
    → Guarded 0 0
        ((with_pool creates hardware c o).0 ++ (shutdown (with_pool creates hardware c o).1).0)
unfolding shutdown
with_pool-Guarded creates hardware c none = (refl, refl)
with_pool-Guarded creates hardware c (some p) =
    let count = shards_wanted c.shard_count hardware in
    subst (Guarded 0 0) (sym (with_shards-ended c p (Contexts.start creates count)))
      (lifetime-Guarded creates count)

-- Loaded and shut down, or not even loaded: no context comes or goes while a thread runs, and none of
-- either stays.
pub load-Guarded :
    (t : Text → Bool) (settings : Option (List (Text × Text))) (creates : ℕ → Bool) (hardware : ℕ)
    (r : List Event × Loaded)
    → load t settings creates hardware ≡ some r
    → Guarded 0 0 (r.0 ++ (shutdown r.1).0)
unfolding load
load-Guarded t settings creates hardware r e = of_config (load_config t settings) e
  where
    some-injective : {x y : List Event × Loaded} → some x ≡ some y → x ≡ y
    some-injective h = cc

    of_config :
        (o : Option ModuleConfig)
        → (elim o [
          | none ↦ none
          | some c ↦ some (with_pool creates hardware c (SlabPool.create (pool_options c)))
        ])
          ≡ some r
        → Guarded 0 0 (r.0 ++ (shutdown r.1).0)
    of_config none h = cc
    of_config (some c) h =
        subst (λ (x : List Event × Loaded). Guarded 0 0 (x.0 ++ (shutdown x.1).0))
          (some-injective h)
          (with_pool-Guarded creates hardware c (SlabPool.create (pool_options c)))

start-all :
    (creates : ℕ → Bool) (count : ℕ)
    → ((i : ℕ) → i < count → creates i ≡ true)
    → (Contexts.start creates count).1 ≡ some count
unfolding Contexts.start
start-all creates count h =
    let (n, all) = created_all creates 0 count (λ i l. h i (omega arith)) in
    started_all (create_shards creates 0 count) all ∙ ap some (n ∙ omega arith)

load-config :
    (t : Text → Bool) (settings : Option (List (Text × Text))) (creates : ℕ → Bool) (hardware : ℕ)
    (c : ModuleConfig)
    → load_config t settings ≡ some c
    → load t settings creates hardware
      ≡ some (with_pool creates hardware c (SlabPool.create (pool_options c)))
unfolding load
load-config t settings creates hardware c e =
    ap
      (λ (o : Option ModuleConfig). elim o as (λ _. Option (List Event × Loaded)) [
        | none ↦ none
        | some config ↦
            some (with_pool creates hardware config (SlabPool.create (pool_options config)))
      ])
      e

-- The module loads, if what its parameters compute is an `int` (the number of each, in milliseconds
-- where it is given in seconds) and the sixteen contexts that it may want can be created: with one
-- shard at least and sixteen at most, and with no fork; and when it is shut down, every thread is joined
-- before a context is destroyed, and none of either stays.
pub load_succeeds :
    (t : Text → Bool) (params : List (Text × Text)) (creates : ℕ → Bool) (hardware : ℕ)
    → Ints params
    → ((i : ℕ) → i < 16 → creates i ≡ true)
    → (events : List Event) × (s : ModuleState) × (n : ℕ) × (load t (some params) creates hardware
        ≡ some (events, loaded s n))
      × (s.registry ≡ [])
      × (1 ≤ n)
      × (n ≤ 16)
      × Guarded 0 0 (events ++ (shutdown (loaded s n)).0)
load_succeeds t params creates hardware h all =
    let (c, e, few, p, made, _) = load_config_pool t params [] h in
    let n = shards_wanted c.shard_count hardware in
    let (least, most) = wanted_bounds c.shard_count hardware few in
    let started = start-all creates n (λ i l. all i (omega (arith, l, most))) in
    let r = Contexts.start creates n in
    let loads : load t (some params) creates hardware ≡ some (r.0, loaded (new_state c p) n) =
      load-config t (some params) creates hardware c e
      ∙ ap (λ o. some (with_pool creates hardware c o)) made
      ∙ ap some (with_shards-loaded c p r n started) in
    (
      r.0,
      new_state c p,
      n,
      loads,
      refl,
      least,
      most,
      load-Guarded t (some params) creates hardware (r.0, loaded (new_state c p) n) loads,
    )
