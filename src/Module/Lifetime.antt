-- ===== src/Module/Lifetime.antt =====
-- `mod_audio_fork_load` and `mod_audio_fork_shutdown` of module/mod_audio_fork.cpp: the shards come
-- last and go first.
pub mod Loads
use mod_audio_fork.Common.{ℕ, Bool, true, false, Option, none, some, List, [], ◌∷◌, Text}
use mod_audio_fork.Config.{ModuleConfig}
use mod_audio_fork.SlabPool
use mod_audio_fork.SlabPool.{SlabPool}
use mod_audio_fork.ShardPool.{shards_wanted}
use mod_audio_fork.ShardPool.Contexts
use mod_audio_fork.ShardPool.Contexts.{Event, destroy}
use mod_audio_fork.Module.Settings.{load_config}
use mod_audio_fork.Module.Settings.Sane.{pool_options}
use mod_audio_fork.Module.Registry.{Registry}
use mod_audio_fork.Module.Start.{ModuleState, fork_stopped}
use mod_audio_fork.Module.Commands.{each_fork}

-- The module with its shards, or its status that it could not be loaded.
pub data Loaded : Type 0 where
  refused : Loaded
  loaded : (state : ModuleState) (shards : ℕ) → Loaded

-- `ModuleState` as it is made.
abbrev pub new_state : ModuleConfig → SlabPool → ModuleState
new_state config pool = record {
  config = config;
  pool = pool;
  registry = [];
  start_failures = 0;
  next = 0;
  private_bug = λ uuid. none;
  hooked = λ uuid. false;
  trace = [];
}

abbrev pub with_shards : ModuleConfig → SlabPool → List Event × Option ℕ → List Event × Loaded
with_shards config pool (events, none) = (events, refused)
with_shards config pool (events, some shards) = (events, loaded (new_state config pool) shards)

abbrev pub with_pool :
    (creates : ℕ → Bool) → (hardware : ℕ) → ModuleConfig → Option SlabPool → List Event × Loaded
with_pool creates hardware config none = ([], refused)
with_pool creates hardware config (some pool) =
    with_shards config pool (Contexts.start creates (shards_wanted config.shard_count hardware))

-- `mod_audio_fork_load`, for which contexts libwebsockets can create and how many threads the
-- hardware has; none where the configuration is undefined.
unfoldable pub load :
    (switch_true : Text → Bool)
    → Option (List (Text × Text))
    → (creates : ℕ → Bool) → (hardware : ℕ) → Option (List Event × Loaded)
unfolding load_config
load switch_true settings creates hardware = elim (load_config switch_true settings) [
  | none ↦ none
  | some config ↦ some (with_pool creates hardware config (SlabPool.create (pool_options config)))
]

-- The loops over the registry.
unfoldable pub stop_all : Registry → ModuleState → ModuleState
unfolding each_fork
stop_all [] s = s
stop_all ((uuid, forks) ∷ r) s = stop_all r (each_fork fork_stopped forks s)

-- `mod_audio_fork_shutdown`.
unfoldable pub shutdown : Loaded → List Event × Loaded
unfolding stop_all destroy
shutdown refused = ([], refused)
shutdown (loaded s shards) = (destroy true shards, loaded (stop_all s.registry s) 0)
