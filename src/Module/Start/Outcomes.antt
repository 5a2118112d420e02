-- ===== src/Module/Start/Outcomes.antt =====
-- How `StartFork` of module/mod_audio_fork.cpp ends.
use mod_audio_fork.Common.{
  ℕ, ◌+◌, ◌==◌, ◌≤◌, ◌<◌, ◌≡◌, refl, ap, ◌∙◌, true, false, not, ◌&&◌, Option, none, some, List, [],
  ◌∷◌, if_ind, Text, codes, arith,
}
use mod_audio_fork.ForkSession
use mod_audio_fork.ForkSession.{ForkSession, Tuning, minimum_slabs}
use mod_audio_fork.ForkSession.Ports.{MixType, Endpoint, ForkParams}
use mod_audio_fork.SlabPool.{can_lease}
use mod_audio_fork.Config.Url.{Parsed, parsed, refused}
use mod_audio_fork.Module.Settings.{make_tuning, parse_mix_type}
use mod_audio_fork.Module.Registry.{removed, register, is_full}
use mod_audio_fork.Module.Registry.Laws.{same_text_refl}
use mod_audio_fork.Module.Start.{
  Effect, fork_started, fork_stopped, ModuleState, log, update, Outcome, success, failed, Answers,
  parse_endpoint, emit_start_failed, wire_format, fork_params, add_hook, with_bug, attach,
  with_fork, start_parsed, start_at, start_fork,
}

-- The forks that were started and not stopped.
abbrev pub running : List Effect → List ℕ
running [] = []
running (fork_started f _ _ ∷ es) = f ∷ running es
running (fork_stopped f ∷ es) = removed f (running es)
running (_ ∷ es) = running es

abbrev pub AllBelow : ℕ → List ℕ → Type 0
AllBelow n [] = Unit
AllBelow n (f ∷ fs) = (f < n) × AllBelow n fs

-- The number of a new fork is new.
abbrev pub IsFresh : ModuleState → Type 0
IsFresh s = AllBelow s.next (running s.trace)

-- A fork that was refused leaves nothing behind.
pub record Refuses (s s' : ModuleState) : Type 0 where
  pub registry : s'.registry ≡ s.registry
  pub bug : s'.private_bug ≡ s.private_bug
  pub hooked : s'.hooked ≡ s.hooked
  pub forks : running s'.trace ≡ running s.trace
  pub config : s'.config ≡ s.config
  pub next : s.next ≤ s'.next

-- A fork that was started runs, is in the registry, and has the media bug.
pub record Starts (uuid : Text) (s s' : ModuleState) : Type 0 where
  pub room : is_full s.config.max_forks_per_call uuid s.registry ≡ false
  pub registry : s'.registry ≡ register uuid s.next s.registry
  pub bug : s'.private_bug uuid ≡ some s.next
  pub forks : running s'.trace ≡ s.next ∷ running s.trace
  pub config : s'.config ≡ s.config
  pub next : s'.next ≡ s.next + 1

abbrev pub Settles : (uuid : Text) → ModuleState → ModuleState × Outcome → Type 0
Settles uuid s (s', success) = Starts uuid s s'
Settles uuid s (s', failed error) = Refuses s s'

removed-below : (n : ℕ) (fs : List ℕ) → AllBelow n fs → removed n fs ≡ fs
unfolding removed
removed-below n [] h = refl
removed-below n (f ∷ fs) h =
    let other : (f == n) ≡ false = ground (arith, h.0) in
    rw other (ap (λ xs. f ∷ xs) (removed-below n fs h.1))

-- A fork that is stopped as soon as it was started.
removed-started : (n : ℕ) (fs : List ℕ) → AllBelow n fs → removed n (n ∷ fs) ≡ fs
unfolding removed
removed-started n fs h = let same : (n == n) ≡ true = ground arith in rw same (removed-below n fs h)

refuse-same : (s : ModuleState) → Refuses s s
refuse-same s = record {
  registry = refl;
  bug = refl;
  hooked = refl;
  forks = refl;
  config = refl;
  next = omega arith;
}

emit-Refuses : (uuid reason : Text) (s : ModuleState) → Refuses s (emit_start_failed uuid reason s)
unfolding emit_start_failed
emit-Refuses uuid reason s = record {
  registry = refl;
  bug = refl;
  hooked = refl;
  forks = refl;
  config = refl;
  next = omega arith;
}

-- The hook changes none of what matters here.
record Hooks (s s' : ModuleState) : Type 0 where
  registry : s'.registry ≡ s.registry
  bug : s'.private_bug ≡ s.private_bug
  forks : running s'.trace ≡ running s.trace
  config : s'.config ≡ s.config
  next : s'.next ≡ s.next

add_hook-Hooks : (a : Answers) (uuid : Text) (s : ModuleState) → Hooks s (add_hook a uuid s)
unfolding add_hook
add_hook-Hooks a uuid s =
    if_ind (Hooks s) (not (s.hooked uuid) && a.hook_made)
      (λ _. record { registry = refl; bug = refl; forks = refl; config = refl; next = refl })
      (λ _. record { registry = refl; bug = refl; forks = refl; config = refl; next = refl })

update_self : {A : Type 0} (f : Text → A) (k : Text) (v : A) → update f k v k ≡ v
update_self f k v = rw (same_text_refl k)

module _ (a : Answers) (uuid : Text) (s : ModuleState) (fresh : IsFresh s) where
  abbrev started : ForkParams → Tuning → ModuleState
  started params tuning = log (fork_started s.next params tuning) (record s { next = s.next + 1 })

  -- The fork is stopped again.
  stop-Refuses :
      (params : ForkParams) (tuning : Tuning)
      → Refuses s (log (fork_stopped s.next) (started params tuning))
  stop-Refuses params tuning = record {
    registry = refl;
    bug = refl;
    hooked = refl;
    forks = removed-started s.next (running s.trace) fresh;
    config = refl;
    next = omega arith;
  }

  attach-Settles :
      (mix : MixType) (params : ForkParams) (tuning : Tuning)
      → is_full s.config.max_forks_per_call uuid s.registry ≡ false
      → Settles uuid s (attach a uuid mix s.next (started params tuning))
  unfolding attach
  attach-Settles mix params tuning room =
      if_ind (Settles uuid s) (not a.bug_made) (λ _. stop-Refuses params tuning)
        (λ _.
          let h = add_hook-Hooks a uuid (with_bug uuid mix s.next (started params tuning)) in
          record {
            room = room;
            registry = ap (register uuid s.next) h.registry;
            bug = ap (λ f. f uuid) h.bug ∙ update_self s.private_bug uuid (some s.next);
            forks = h.forks;
            config = h.config;
            next = h.next;
          })

  with_fork-Settles :
      (mix : MixType) (params : ForkParams) (tuning : Tuning) (o : Option ForkSession)
      → is_full s.config.max_forks_per_call uuid s.registry ≡ false
      → Settles uuid s (with_fork a uuid mix params tuning o s)
  unfolding with_fork
  with_fork-Settles mix params tuning none room =
      emit-Refuses uuid (codes "fork could not be created") s
  with_fork-Settles mix params tuning (some session) room =
      if_ind (Settles uuid s)
        (not (params.format.sample_rate == a.session_rate) && not a.resampler_made)
        (λ _. stop-Refuses params tuning) (λ _. attach-Settles mix params tuning room)

  start_parsed-Settles :
      (endpoint : Endpoint) (mix : MixType) (rate_text metadata : Option Text)
      → Settles uuid s (start_parsed a uuid endpoint mix rate_text metadata s)
  unfolding start_parsed
  start_parsed-Settles endpoint mix rate_text metadata =
      let format = wire_format a mix rate_text in
      let params = fork_params a uuid endpoint mix format metadata in
      let tuning = make_tuning s.config format in
      if_ind (Settles uuid s) (is_full s.config.max_forks_per_call uuid s.registry)
        (λ _. refuse-same s)
        (λ room.
          if_ind (Settles uuid s)
            (not (can_lease (minimum_slabs tuning s.pool.slab_size_bytes) s.pool))
            (λ _. emit-Refuses uuid (codes "global memory cap reached") s)
            (λ _.
              with_fork-Settles mix params tuning (ForkSession.create params tuning s.pool) room))

  start_at-Settles :
      (url : Parsed) (mix : Option MixType) (rate_text metadata : Option Text)
      → Settles uuid s (start_at a uuid url mix rate_text metadata s)
  start_at-Settles (refused error) mix rate_text metadata = refuse-same s
  start_at-Settles (parsed endpoint) none rate_text metadata = refuse-same s
  start_at-Settles (parsed endpoint) (some mix) rate_text metadata =
      start_parsed-Settles endpoint mix rate_text metadata

-- `StartFork`, while the numbers of the forks are new, either succeeds, and then its call had room,
-- and the fork runs, is in the registry and has the media bug of the channel; or it fails with an
-- error, and then registry, channel and the forks that run are as they were: a fork that was started
-- has been stopped.
pub start_fork-Settles :
    (a : Answers) (uuid : Text) (url mix_text rate_text metadata : Option Text) (s : ModuleState)
    → IsFresh s
    → Settles uuid s (start_fork a uuid url mix_text rate_text metadata s)
unfolding start_fork
start_fork-Settles a uuid url mix_text rate_text metadata s fresh =
    start_at-Settles a uuid s fresh (parse_endpoint url) (parse_mix_type mix_text) rate_text
      metadata
