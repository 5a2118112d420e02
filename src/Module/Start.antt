-- ===== src/Module/Start.antt =====
-- The state of module/mod_audio_fork.cpp, and how it starts a fork.
pub mod Outcomes
use mod_audio_fork.Common.{
  ℕ, ◌+◌, ◌==◌, Bool, true, false, not, ◌&&◌, Option, none, some, List, [], ◌∷◌, if◌then◌else◌, ltb,
  Text, codes, same_text, add64, pos_part,
}
use mod_audio_fork.Config.{ModuleConfig}
use mod_audio_fork.Config.Url.{Parsed, parsed, refused, parse_ws_url}
use mod_audio_fork.SlabPool.{SlabPool, can_lease}
use mod_audio_fork.ForkSession
use mod_audio_fork.ForkSession.{ForkSession, Tuning, minimum_slabs}
use mod_audio_fork.ForkSession.Ports.{MixType, mono, stereo, AudioFormat, Endpoint, ForkParams}
use mod_audio_fork.Module.Settings.{parse_mix_type, make_tuning, atoi}
use mod_audio_fork.Module.Registry.{Registry, register, is_full}

-- What the module asked of the forks and of FreeSWITCH, newest first. `taken` is a fork's answer.
pub data Effect : Type 0 where
  start_failed : (uuid reason : Text) → Effect
  fork_started : (fork : ℕ) (params : ForkParams) (tuning : Tuning) → Effect
  fork_stopped : (fork : ℕ) → Effect
  fork_paused : (fork : ℕ) (paused : Bool) → Effect
  fork_modified : (fork : ℕ) (endpoint : Endpoint) (taken : Bool) → Effect
  text_sent : (fork : ℕ) (text : Text) (taken : Bool) → Effect
  dtmf_sent : (fork digit duration_ms : ℕ) → Effect
  bug_added : (fork : ℕ) (write_stream stereo_stream : Bool) → Effect
  bug_removed : (fork : ℕ) → Effect
  hook_added hook_removed : (uuid : Text) → Effect

-- `next` numbers the forks; `private_bug` and `hooked` are the two entries in the private table of a
-- channel, the first with the fork of the bug that was added last.
pub record ModuleState : Type 0 where
  pub config : ModuleConfig
  pub pool : SlabPool
  pub registry : Registry
  pub start_failures : ℕ
  pub next : ℕ
  pub private_bug : Text → Option ℕ
  pub hooked : Text → Bool
  pub trace : List Effect

abbrev pub log : Effect → ModuleState → ModuleState
log e s = record s { trace = e ∷ s.trace }

abbrev pub update {ℓ} : {A : Type ℓ} → (Text → A) → Text → A → Text → A
update f k v j = if same_text k j then v else f j

-- The status that a command returns, and the error that it sets.
pub data Outcome : Type 0 where
  success : Outcome
  failed : (error : Text) → Outcome

-- `ParseEndpoint`.
unfoldable pub parse_endpoint : Option Text → Parsed
parse_endpoint none = refused (codes "missing url")
parse_endpoint (some url) = parse_ws_url url

-- What FreeSWITCH answers while a fork is started: the rate of the session, the number for the fork's
-- name, and whether the resampler, the media bug and the hook can be had.
pub record Answers : Type 0 where
  pub session_rate : ℕ
  pub fork_name : Text
  pub resampler_made : Bool
  pub bug_made : Bool
  pub hook_made : Bool

-- `EmitStartFailed`.
unfoldable pub emit_start_failed : (uuid reason : Text) → ModuleState → ModuleState
emit_start_failed uuid reason s =
    log (start_failed uuid reason) (record s { start_failures = add64 s.start_failures 1 })

abbrev pub is_stereo : MixType → Bool
is_stereo stereo = true
is_stereo _ = false

abbrev pub is_mono : MixType → Bool
is_mono mono = true
is_mono _ = false

abbrev pub rate_or : (session_rate : ℕ) → Option Text → ℕ
rate_or session_rate none = session_rate
rate_or session_rate (some text) =
    if ltb 0 (pos_part (atoi text)) then pos_part (atoi text) else session_rate

unfoldable pub wire_format : Answers → MixType → (rate_text : Option Text) → AudioFormat
unfolding atoi
wire_format a mix rate_text = record {
  sample_rate = rate_or a.session_rate rate_text;
  channels = if is_stereo mix then 2 else 1;
}

abbrev pub text_or_none : Option Text → Text
text_or_none none = []
text_or_none (some t) = t

abbrev pub fork_params :
    Answers → (uuid : Text) → Endpoint → MixType → AudioFormat → Option Text → ForkParams
fork_params a uuid endpoint mix format metadata = record {
  call_uuid = uuid;
  fork_id = a.fork_name;
  endpoint = endpoint;
  format = format;
  mix_type = mix;
  metadata_json = text_or_none metadata;
}

-- The hook, one to a channel.
unfoldable pub add_hook : Answers → (uuid : Text) → ModuleState → ModuleState
add_hook a uuid s =
    if not (s.hooked uuid) && a.hook_made
    then log (hook_added uuid) (record s { hooked = update s.hooked uuid true })
    else s

-- With the media bug of a fork, which the channel's private table keeps.
abbrev pub with_bug : (uuid : Text) → MixType → (fork : ℕ) → ModuleState → ModuleState
with_bug uuid mix fork s =
    log (bug_added fork (not (is_mono mix)) (is_stereo mix))
      (record s { private_bug = update s.private_bug uuid (some fork) })

-- The media bug of a fork, the hook, and the entry in the registry.
unfoldable pub attach :
    Answers → (uuid : Text) → MixType → (fork : ℕ) → ModuleState → ModuleState × Outcome
unfolding add_hook
attach a uuid mix fork s =
    if not a.bug_made
    then (log (fork_stopped fork) s, failed (codes "media bug could not be added"))
    else let hooked = add_hook a uuid (with_bug uuid mix fork s) in
      (record hooked { registry = register uuid fork hooked.registry }, success)

-- The fork that was created, or was not.
unfoldable pub with_fork :
    Answers
    → (uuid : Text) → MixType
    → ForkParams
    → Tuning
    → Option ForkSession
    → ModuleState
    → ModuleState × Outcome
unfolding emit_start_failed attach
with_fork a uuid mix params tuning none s = (
  emit_start_failed uuid (codes "fork could not be created") s,
  failed (codes "fork could not be created"),
)
with_fork a uuid mix params tuning (some session) s =
    let started = log (fork_started s.next params tuning) (record s { next = s.next + 1 }) in
    if not (params.format.sample_rate == a.session_rate) && not a.resampler_made
    then (log (fork_stopped s.next) started, failed (codes "resampler could not be created"))
    else attach a uuid mix s.next started

-- With a URL and a mix that were understood.
unfoldable pub start_parsed :
    Answers
    → (uuid : Text) → Endpoint
    → MixType
    → (rate_text metadata : Option Text) → ModuleState
    → ModuleState × Outcome
unfolding wire_format with_fork emit_start_failed
start_parsed a uuid endpoint mix rate_text metadata s =
    let format = wire_format a mix rate_text in
    let params = fork_params a uuid endpoint mix format metadata in
    let tuning = make_tuning s.config format in
    if is_full s.config.max_forks_per_call uuid s.registry
    then (s, failed (codes "max forks per call reached"))
    else if not (can_lease (minimum_slabs tuning s.pool.slab_size_bytes) s.pool)
    then (
      emit_start_failed uuid (codes "global memory cap reached") s,
      failed (codes "global memory cap reached"),
    )
    else with_fork a uuid mix params tuning (ForkSession.create params tuning s.pool) s

abbrev pub start_mixed :
    Answers
    → (uuid : Text) → Endpoint
    → Option MixType
    → (rate_text metadata : Option Text) → ModuleState
    → ModuleState × Outcome
start_mixed a uuid endpoint none rate_text metadata s =
    (s, failed (codes "mix-type must be mono, mixed or stereo"))
start_mixed a uuid endpoint (some mix) rate_text metadata s =
    start_parsed a uuid endpoint mix rate_text metadata s

abbrev pub start_at :
    Answers
    → (uuid : Text) → Parsed
    → Option MixType
    → (rate_text metadata : Option Text) → ModuleState
    → ModuleState × Outcome
start_at a uuid (refused error) mix rate_text metadata s = (s, failed error)
start_at a uuid (parsed endpoint) mix rate_text metadata s =
    start_mixed a uuid endpoint mix rate_text metadata s

-- `StartFork`.
unfoldable pub start_fork :
    Answers
    → (uuid : Text) → (url mix_text rate_text metadata : Option Text) → ModuleState
    → ModuleState × Outcome
unfolding start_parsed parse_endpoint
start_fork a uuid url mix_text rate_text metadata s =
    start_at a uuid (parse_endpoint url) (parse_mix_type mix_text) rate_text metadata s
