-- ===== src/Module/Settings/Sane.antt =====
-- The pool that module/mod_audio_fork.cpp makes from its configuration.
use mod_audio_fork.Common.{
  ◌*◌, ◌^◌, ◌≤◌, ◌≡◌, refl, Bool, Bool-cases, true, inl, inr, ◌||◌, if◌then◌else◌, Option, none,
  some, List, [], ◌∷◌, Text, codes, ℤ, pos, negsuc, arith,
}
use mod_audio_fork.Config.{ModuleConfig, defaults, sanitize_config}
use mod_audio_fork.Config.Limits.{sanitize_config-IsSane}
use mod_audio_fork.SlabPool
use mod_audio_fork.SlabPool.{SlabPool, SlabPoolOptions}
use mod_audio_fork.SlabPool.Traffic.{Call, run, run_accounts}
use mod_audio_fork.Module.Settings.{
  is_int, thousandfold, same_word, set_param, set_params, load_config, atoi,
}

abbrev pub is_seconds : (name : Text) → Bool
is_seconds name =
    same_word name (codes "send-buffer-seconds")
    || same_word name (codes "emergency-buffer-seconds")

-- What a param asks the code to compute is an `int`: the number, in milliseconds where it is given in
-- seconds.
abbrev pub Fits : (name value : Text) → Type 0
Fits name value = is_int (if is_seconds name then thousandfold (atoi value) else atoi value) ≡ true

abbrev pub Ints : List (Text × Text) → Type 0
Ints [] = Unit
Ints ((name, value) ∷ params) = Fits name value × Ints params

-- No param sets the size of a slab, and a cap in megabytes is far from wrapping.
record IsModest (c : ModuleConfig) : Type 0 where
  slab : c.slab_size_bytes ≡ 65536
  cap : c.global_memory_cap_bytes ≤ 2 ^ 51

-- What is defined, and modest.
abbrev Modest : Option ModuleConfig → Type 0
Modest none = ⊥
Modest (some c) = IsModest c

-- A number is an `int` if a thousand times it is one.
thousandth : (number : ℤ) → is_int (thousandfold number) ≡ true → is_int number ≡ true
thousandth (pos n) h = ground arith
thousandth (negsuc n) h = ground arith

Fits-int : (name value : Text) → Fits name value → is_int (atoi value) ≡ true
Fits-int name value h = elim (Bool-cases (is_seconds name)) [
  | inl yes' ↦ thousandth (atoi value) (rw yes' at h)
  | inr no' ↦ rw no' at h
]

set_param-Modest :
    (t : Text → Bool) (name value : Text) (c : ModuleConfig)
    → Fits name value
    → IsModest c
    → Modest (set_param t name value c)
unfolding set_param
set_param-Modest t name value c h v = let whole = Fits-int name value h in ground (arith, whole)

-- A setting, and then others.
Modest-then :
    (o : Option ModuleConfig) (next : ModuleConfig → Option ModuleConfig)
    → Modest o
    → ((c : ModuleConfig) → IsModest c → Modest (next c))
    → Modest (elim o [ none ↦ none | some changed ↦ next changed ])
Modest-then none next m h = m
Modest-then (some changed) next m h = h changed m

set_params-Modest :
    (t : Text → Bool) (params : List (Text × Text)) (c : ModuleConfig)
    → Ints params
    → IsModest c
    → Modest (set_params t params c)
unfolding set_params
set_params-Modest t [] c h v = v
set_params-Modest t ((name, value) ∷ params) c h v =
    Modest-then (set_param t name value c) (set_params t params)
      (set_param-Modest t name value c h.0 v)
      (λ changed m. set_params-Modest t params changed h.1 m)

-- What the pool is made with, sixteen slabs of 64 KiB at least.
record IsPool (c : ModuleConfig) : Type 0 where
  slab : c.slab_size_bytes ≡ 65536
  least : 65536 * 16 ≤ c.global_memory_cap_bytes
  most : c.global_memory_cap_bytes ≤ 2 ^ 51

sanitize_config-IsPool : (c : ModuleConfig) → IsModest c → IsPool (sanitize_config c)
unfolding sanitize_config
sanitize_config-IsPool c v = record {
  slab = let e = v.slab in omega (arith, e);
  least = let e = v.slab in omega (arith, e);
  most = let e = v.slab in let l = v.cap in omega (arith, e, l);
}

sanitized :
    (o : Option ModuleConfig)
    → Modest o
    → (set : ModuleConfig) × IsModest set
      × ((elim o [ none ↦ none | some config ↦ some (sanitize_config config) ])
          ≡ some (sanitize_config set))
sanitized none m = absurd m
sanitized (some set) m = (set, m, refl)

-- The configuration is a sanitized one, of params that were set.
load_config-sanitized :
    (t : Text → Bool) (params : List (Text × Text))
    → Ints params
    → (set : ModuleConfig) × IsModest set
      × (load_config t (some params) ≡ some (sanitize_config set))
unfolding load_config
load_config-sanitized t params h =
    sanitized (set_params t params defaults)
      (set_params-Modest t params defaults h (record { slab = refl; cap = omega arith }))

abbrev pub pool_options : ModuleConfig → SlabPoolOptions
pool_options c = record {
  slab_size_bytes = c.slab_size_bytes;
  max_total_bytes = c.global_memory_cap_bytes;
}

pool_made :
    (c : ModuleConfig) → IsPool c → (p : SlabPool) × (SlabPool.create (pool_options c) ≡ some p)
unfolding SlabPool.create
pool_made c v =
    let e = v.slab in
    let l = v.least in
    (
      record { options = pool_options c; free_slabs = []; allocated_bytes = 0; leased_slabs = 0 },
      ground arith,
    )

-- Whatever params the module is configured with, if what they compute is an `int`: the configuration
-- is defined and has sixteen shards at most, the pool can be made, and over any history of it the
-- memory of its slabs never exceeds the configured cap.
pub load_config_pool :
    (t : Text → Bool) (params : List (Text × Text)) (cs : List Call)
    → Ints params
    → (c : ModuleConfig) × (load_config t (some params) ≡ some c)
      × (c.shard_count ≤ 16)
      × (p : SlabPool) × (SlabPool.create (pool_options c) ≡ some p)
      × ((run (record { pool = p; leases = [] }) cs).pool.allocated_bytes
          ≤ c.global_memory_cap_bytes)
load_config_pool t params cs h =
    let (set, modest, e) = load_config-sanitized t params h in
    let c = sanitize_config set in
    let v = sanitize_config-IsPool set modest in
    let (p, made) = pool_made c v in
    let slab = v.slab in
    let most = v.most in
    (
      c,
      e,
      (sanitize_config-IsSane set).shards,
      p,
      made,
      (run_accounts (pool_options c) cs (omega (arith, slab, most)) made).0,
    )
