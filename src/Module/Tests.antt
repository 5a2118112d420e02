-- ===== src/Module/Tests.antt =====
-- Runs of module/mod_audio_fork.cpp.
use mod_audio_fork.Common.{
  ℕ, inr, ◌≤◌, ◌≡◌, refl, Bool, true, false, none, some, List, [], ◌∷◌, ◌++◌, length, take, drop,
  Text, codes, arith,
}
use mod_audio_fork.Config.{defaults}
use mod_audio_fork.Config.Limits.{IsSane}
use mod_audio_fork.SpscRing.Fifo
use mod_audio_fork.ForkSession
use mod_audio_fork.ForkSession.{ForkSession}
use mod_audio_fork.ForkSession.Ports.{AudioFormat}
use mod_audio_fork.ForkSession.Stats.{Stats, stats}
use mod_audio_fork.ForkSession.Samples.{session, playback, ring, ring-IsValid, params, pool}
use mod_audio_fork.ForkSession.Media.Reads.{Reads}
use mod_audio_fork.Module.Settings.{atoi, same_word, load_config, make_tuning}
use mod_audio_fork.Module.Settings.Sane.{Ints}
use mod_audio_fork.Module.Settings.Tuned.{IsOrdered, make_tuning_creates}
use mod_audio_fork.Module.Lifetime.{load, loaded, shutdown}
use mod_audio_fork.Module.Lifetime.Loads.{load_succeeds}
use mod_audio_fork.ShardPool.Contexts.{Event, Guarded}
use mod_audio_fork.Module.Registry.{forks_for}
use mod_audio_fork.Module.Start.{ModuleState, Answers, start_fork}
use mod_audio_fork.Module.Start.Outcomes.{Settles, start_fork-Settles}
use mod_audio_fork.Module.Commands.{send_text_payload}
use mod_audio_fork.Module.Commands.Payload.{IsWord, send_text_payload-command}
use mod_audio_fork.Module.Commands.Limit.{
  Move, commanded, pressed, finished, IsLimited, moves, moves-IsLimited,
}
use mod_audio_fork.Module.Status.{status}
use mod_audio_fork.Module.Status.Sums.{Adds, status-Adds}
use mod_audio_fork.Module.Bug.{Resamplers, ForkBug, on_write_replace}
use mod_audio_fork.Module.Bug.Frames.{on_write_replace_plays}

abbrev switch_true : Text → Bool
switch_true t = true

abbrev settings : List (Text × Text)
settings =
    (codes "Global-Memory-Cap-MB", codes "0")
    ∷ (codes "send-buffer-seconds", codes "-3")
    ∷ (codes "tls-key-file", codes "key.pem")
    ∷ []

settings-Ints : Ints settings
unfolding atoi same_word
settings-Ints = (refl, (refl, (refl, tt)))

load_succeeds_example :
    (events : List Event) × (s : ModuleState) × (n : ℕ) × (load switch_true
        (some settings)
        (λ i. true)
        4
      ≡ some (events, loaded s n))
    × (s.registry ≡ [])
    × (1 ≤ n)
    × (n ≤ 16)
    × Guarded 0 0 (events ++ (shutdown (loaded s n)).0)
load_succeeds_example = load_succeeds switch_true settings (λ i. true) 4 settings-Ints (λ i l. refl)

-- 2147484 seconds are more milliseconds than an `int` holds.
seconds_overflow :
    load_config switch_true (some ((codes "send-buffer-seconds", codes "2147484") ∷ [])) ≡ none
unfolding load_config atoi same_word
seconds_overflow = refl

defaults-IsSane : IsSane defaults
defaults-IsSane = record {
  shards = omega arith;
  send = omega arith;
  handoff = omega arith;
  coalesce = omega arith;
  emergency = omega arith;
  drain = omega arith;
  high = omega arith;
  low = omega arith;
  backoff = omega arith;
  slab = omega arith;
  cap = omega arith;
  forks = omega arith;
  identity = refl;
}

abbrev wire : AudioFormat
wire = record { sample_rate = 16000; channels = 2 }

make_tuning_creates_example :
    IsOrdered (make_tuning defaults wire)
    × ((s : ForkSession) × (ForkSession.create params (make_tuning defaults wire) pool ≡ some s))
make_tuning_creates_example =
    make_tuning_creates defaults wire params pool defaults-IsSane
      (record { rate = omega arith; channels = inr refl })

-- A call with one fork, and room for one more.
abbrev state : ModuleState
state = record {
  config = record defaults { max_forks_per_call = 2 };
  pool = record {
    options = record { slab_size_bytes = 65536; max_total_bytes = 1048576 };
    free_slabs = [];
    allocated_bytes = 0;
    leased_slabs = 0;
  };
  registry = (codes "c", 0 ∷ []) ∷ [];
  start_failures = 0;
  next = 1;
  private_bug = λ uuid. none;
  hooked = λ uuid. false;
  trace = [];
}

abbrev answers : Answers
answers = record {
  session_rate = 8000;
  fork_name = codes "c-1";
  resampler_made = true;
  bug_made = false;
  hook_made = true;
}

-- The media bug cannot be added.
start_fork-Settles_example : Settles (codes "c") state (
    start_fork answers
      (codes "c")
      (some (codes "ws://h/"))
      (some (codes "Stereo"))
      (some (codes "16000"))
      none
      state)
start_fork-Settles_example =
    start_fork-Settles answers (codes "c") (some (codes "ws://h/")) (some (codes "Stereo"))
      (some (codes "16000")) none state tt

abbrev accepts : Text → Bool
accepts t = true

abbrev history : List Move
history =
    commanded (record answers { bug_made = true }) (codes "c") (codes "start") []
      (codes "ws://h/" ∷ [])
    ∷ pressed (codes "c") 35 2000
    ∷ commanded answers (codes "c") (codes "STOP") [] []
    ∷ finished (codes "c") 0
    ∷ []

state-IsLimited : IsLimited 2 state
unfolding forks_for
state-IsLimited = record {
  set = refl;
  map = (refl, tt, tt);
  fresh = tt;
  limited = λ uuid. ground arith;
}

moves-IsLimited_example : IsLimited 2 (moves accepts (λ es fork. true) history state)
moves-IsLimited_example =
    moves-IsLimited accepts (λ es fork. true) history state (omega arith) state-IsLimited

send_text-IsWord : IsWord (codes "send_text")
send_text-IsWord = (refl, (refl, (refl, (refl, (refl, (refl, (refl, (refl, (refl, tt)))))))))

send_text_payload-command_example :
    send_text_payload (codes " c  send_text {\"a\": 1}") ≡ codes "{\"a\": 1}"
send_text_payload-command_example =
    send_text_payload-command (codes "c") (codes "send_text") (codes "{\"a\": 1}") 1 1 0
      (refl, (refl, tt)) (refl, send_text-IsWord) refl

abbrev quiet : Stats
quiet = stats session

abbrev busy : Stats
busy = record quiet {
  sent_bytes = 7;
  media_dropped_bytes = 3;
  playback_buffered_bytes = 5;
  paused = true;
}

-- Two calls with a fork or two, and one without.
abbrev calls : List (List Stats)
calls = (busy ∷ []) ∷ ([] ∷ ((quiet ∷ (busy ∷ [])) ∷ []))

two_paused : ((status calls).sent ≡ 14) × ((status calls).paused_forks ≡ 2)
unfolding status stats
two_paused = (refl, refl)

status-Adds_example : Adds calls (status calls)
status-Adds_example = status-Adds calls

abbrev resamplers : Resamplers
resamplers = record { resample = λ from to bytes. bytes; available = λ from to. true }

abbrev bug : ForkBug
bug = record {
  session = session;
  wire_rate = 8000;
  session_rate = 8000;
  resampler = false;
  playback_resampler = none;
  scratch_bytes = 8192;
}

on_write_replace_plays_example :
    let held = Fifo.contents ring in
    let (bug', out) = on_write_replace resamplers (1 ∷ 2 ∷ 3 ∷ []) bug in
    (out ≡ take 3 held ++ drop (length held) (1 ∷ 2 ∷ 3 ∷ []))
    × Reads session playback (drop 3 held) bug'.session
on_write_replace_plays_example =
    on_write_replace_plays resamplers (1 ∷ 2 ∷ 3 ∷ []) bug playback refl ring-IsValid (omega arith)
      refl refl
