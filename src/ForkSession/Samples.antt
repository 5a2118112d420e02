-- ===== src/ForkSession/Samples.antt =====
-- A session of core/src/fork_session.cpp and its surroundings, for the tests of its parts.
use mod_audio_fork.Common.{refl, ltb, true, false, some, [], ◌∷◌, length, codes, arith}
use mod_audio_fork.SlabPool.{SlabPool}
use mod_audio_fork.SpscRing.{SpscRing}
use mod_audio_fork.SpscRing.Fifo
use mod_audio_fork.JitterBuffer
use mod_audio_fork.SessionState.{active}
use mod_audio_fork.ForkSession.{ForkSession, Playback, Tuning, construct}
use mod_audio_fork.ForkSession.Ports.{ForkParams, mono, Environment}

abbrev pub pool : SlabPool
pool = record {
  options = record { slab_size_bytes = 4; max_total_bytes = 8 };
  free_slabs = [];
  allocated_bytes = 8;
  leased_slabs = 2;
}

-- It holds 8 and 9.
abbrev pub ring : SpscRing
ring = record { storage = 9 ∷ 0 ∷ 0 ∷ 8 ∷ []; mask = 3; head = 5; tail = 3 }

pub ring-IsValid : Fifo.IsValid ring
ring-IsValid = record {
  power = 2;
  bounded = omega arith;
  capacity = refl;
  masked = refl;
  filled = omega arith;
  head_small = omega arith;
  tail_small = omega arith;
}

abbrev pub playback : Playback
playback = record { buffer = JitterBuffer.create 8; ring = ring }

abbrev pub params : ForkParams
params = record {
  call_uuid = codes "c";
  fork_id = codes "f";
  endpoint = record { host = codes "h"; port = 80; path = codes "/"; tls = false };
  format = record { sample_rate = 8000; channels = 1 };
  mix_type = mono;
  metadata_json = [];
}

abbrev pub tuning : Tuning
tuning = record {
  send_cap_bytes = 10;
  handoff_bytes = 4;
  coalesce_max_bytes = 5;
  emergency_cap_bytes = 4;
  drain_timeout = 2000;
  playback_high_watermark_bytes = 4;
  playback_low_watermark_bytes = 2;
  playback_handoff_bytes = 4;
}

-- Connected, with 1 to 7 in the buffer, on both slabs of the pool.
abbrev pub session : ForkSession
session = record (construct params tuning pool ring (some playback)) {
  state = active;
  connection = true;
  buffer = record {
    queue = record {
      size = 7;
      chunks =
          record { storage = 1 ∷ 2 ∷ 3 ∷ 4 ∷ []; begin = 0; end = 4 }
          ∷ record { storage = 5 ∷ 6 ∷ 7 ∷ 0 ∷ []; begin = 0; end = 3 }
          ∷ [];
    };
    cap_bytes = 10;
  };
}

-- A connection that takes chunks of more than one byte and every text.
abbrev pub environment : Environment
environment = record {
  connects = λ es. true;
  takes_text = λ es text. true;
  takes_binary = λ es bytes. ltb 1 (length bytes);
  now = λ es. length es;
  delay = λ drawn es. 250;
}
