-- ===== src/Module/Settings/Tuned.antt =====
-- What `MakeTuning` of module/mod_audio_fork.cpp gives a fork of a sane configuration.
use mod_audio_fork.Common.{
  ℕ, ◌*◌, ◌/◌, ◌%◌, ◌^◌, ◌==◌, ◌≤◌, ◌<◌, ◌≡◌, ◌⊎◌, false, ◌||◌, Bool-cases, Option-cases, inl, inr,
  Option, none, some, ℤ, pos, negsuc, pos_part, ◌≤ℤ◌, arith,
}
use mod_audio_fork.Config.{ModuleConfig, bytes_for_duration}
use mod_audio_fork.Config.Limits.{IsSane}
use mod_audio_fork.SpscRing
use mod_audio_fork.SpscRing.{SpscRing}
use mod_audio_fork.SpscRing.Create.{create_least}
use mod_audio_fork.SlabPool.{SlabPool}
use mod_audio_fork.JitterBuffer
use mod_audio_fork.ForkSession
use mod_audio_fork.ForkSession.{ForkSession, Playback, Tuning, create_playback, construct}
use mod_audio_fork.ForkSession.Ports.{AudioFormat, bytes_per_second, ForkParams}
use mod_audio_fork.Module.Settings.{make_tuning}

mul_mono : (r a b : ℕ) → a ≤ b → r * a ≤ r * b
mul_mono r a b h = grind arith

mul_mono_left : (r s a : ℕ) → r ≤ s → r * a ≤ s * a
mul_mono_left r s a h = grind arith

-- The bytes of a duration within the limits do not wrap.
exact :
    (f : AudioFormat) (d : ℤ)
    → bytes_per_second f ≤ 2 ^ 48
    → pos 0 ≤ℤ d
    → d ≤ℤ pos 60000
    → bytes_for_duration f d ≡ bytes_per_second f * pos_part d / 1000
unfolding bytes_for_duration
exact f (pos n) h l k =
    let whole : n % 2 ^ 64 ≡ n = omega arith in
    let small : bytes_per_second f * n < 2 ^ 64 =
      omega (arith, mul_mono_left (bytes_per_second f) (2 ^ 48) n h) in
    rw whole (omega (arith, small))
exact f (negsuc n) h l k = absurd (omega arith)

-- A longer duration has no fewer bytes.
bytes_mono :
    (f : AudioFormat) (d e : ℤ)
    → bytes_per_second f ≤ 2 ^ 48
    → pos 0 ≤ℤ d
    → d ≤ℤ e
    → e ≤ℤ pos 60000
    → bytes_for_duration f d ≤ bytes_for_duration f e
bytes_mono f (negsuc m) e h l k u = absurd (omega arith)
bytes_mono f (pos m) (negsuc n) h l k u = absurd (omega arith)
bytes_mono f (pos m) (pos n) h l k u =
    let r = bytes_per_second f in
    let lower = exact f (pos m) h l (omega arith) in
    let upper = exact f (pos n) h (omega arith) u in
    omega (arith, lower, upper, mul_mono r m n (omega arith))

le_trans_ℤ : (a b : ℤ) → a ≤ℤ b → b ≤ℤ pos 60000 → a ≤ℤ pos 60000
le_trans_ℤ a b h k = omega arith

-- Between twenty milliseconds and a minute.
record IsLong (d : ℤ) : Type 0 where
  low : pos 20 ≤ℤ d
  high : d ≤ℤ pos 60000

-- The sizes of a tuning fit in one another.
pub record IsOrdered (t : Tuning) : Type 0 where
  pub coalesce : t.coalesce_max_bytes ≤ t.handoff_bytes
  pub handoff : t.handoff_bytes ≤ t.send_cap_bytes
  pub emergency : t.emergency_cap_bytes ≤ t.send_cap_bytes
  pub playback : t.playback_low_watermark_bytes ≤ t.playback_high_watermark_bytes

-- The formats of a fork: one or two channels, at a rate that telephony has.
pub record IsFormat (f : AudioFormat) : Type 0 where
  pub rate : (25 ≤ f.sample_rate) × (f.sample_rate ≤ 2 ^ 23)
  pub channels : (f.channels ≡ 1) ⊎ (f.channels ≡ 2)

rate_bounds :
    (f : AudioFormat) → IsFormat f → (50 ≤ bytes_per_second f) × (bytes_per_second f ≤ 2 ^ 25)
rate_bounds f v = bounds v.channels
  where
    bounds :
        (f.channels ≡ 1) ⊎ (f.channels ≡ 2)
        → (50 ≤ bytes_per_second f) × (bytes_per_second f ≤ 2 ^ 25)
    bounds (inl e) = let (l, h) = v.rate in rw e (omega arith)
    bounds (inr e) = let (l, h) = v.rate in rw e (omega arith)

from : {d : ℤ} → IsLong d → pos 0 ≤ℤ d
from l = omega (arith, l.low)

handoff_IsLong : (c : ModuleConfig) → IsSane c → IsLong c.handoff_buffer
handoff_IsLong c v = record {
  low = v.handoff.0;
  high = le_trans_ℤ c.handoff_buffer c.send_buffer v.handoff.1 v.send.1;
}

coalesce_IsLong : (c : ModuleConfig) → IsSane c → IsLong c.coalesce_max
coalesce_IsLong c v = record {
  low = v.coalesce.0;
  high = le_trans_ℤ c.coalesce_max c.handoff_buffer v.coalesce.1 (handoff_IsLong c v).high;
}

make_tuning-IsOrdered :
    (c : ModuleConfig) (f : AudioFormat) → IsSane c → IsFormat f → IsOrdered (make_tuning c f)
unfolding make_tuning
make_tuning-IsOrdered c f v w =
    let b = rate_bounds f w in
    let r : bytes_per_second f ≤ 2 ^ 48 = omega (arith, b.1) in
    record {
      coalesce =
          bytes_mono f c.coalesce_max c.handoff_buffer r (from (coalesce_IsLong c v)) v.coalesce.1
            (handoff_IsLong c v).high;
      handoff =
          bytes_mono f c.handoff_buffer c.send_buffer r (from (handoff_IsLong c v)) v.handoff.1
            v.send.1;
      emergency =
          bytes_mono f c.emergency_buffer c.send_buffer r (omega (arith, v.emergency.0))
            v.emergency.1 v.send.1;
      playback =
          bytes_mono (record { sample_rate = f.sample_rate; channels = 1 }) c.playback_low_watermark
            c.playback_high_watermark (omega (arith, w.rate.1)) v.low.0 v.low.1 v.high.1;
    }

-- A duration that is long enough has bytes, and not too many for a ring.
sized :
    (f : AudioFormat) (d : ℤ)
    → 50 ≤ bytes_per_second f
    → bytes_per_second f ≤ 2 ^ 25
    → IsLong d
    → (1 ≤ bytes_for_duration f d) × (bytes_for_duration f d ≤ 2 ^ 31)
sized f (negsuc n) l h v = absurd (omega (arith, v.low))
sized f (pos n) l h v =
    let r = bytes_per_second f in
    let e = exact f (pos n) (omega arith) (omega arith) v.high in
    let least = mul_mono r 20 n (omega (arith, v.low)) in
    let most = mul_mono r n 60000 (omega (arith, v.high)) in
    (omega (arith, e, least), omega (arith, e, most))

ring_made :
    (wanted : ℕ) → 1 ≤ wanted → wanted ≤ 2 ^ 31 → (r : SpscRing) × (SpscRing.create wanted ≡ some r)
ring_made wanted l h = elim (Option-cases (SpscRing.create wanted)) [
  | inr made ↦ made
  | inl none' ↦
      absurd (elim ((create_least wanted).0 none') [ inl z ↦ omega arith | inr big ↦ omega arith ])
]

create_playback-made :
    (t : Tuning)
    → t.playback_handoff_bytes ≤ 2 ^ 31
    → (p : Option Playback) × (create_playback t ≡ some p)
create_playback-made t h =
    elim (Bool-cases (t.playback_high_watermark_bytes == 0 || t.playback_handoff_bytes == 0)) [
      | inl off ↦ (none, rw off)
      | inr on ↦
          let (r, made) = ring_made t.playback_handoff_bytes (ground arith) h in
          (
            some (record {
              buffer = JitterBuffer.create (t.playback_high_watermark_bytes * 2);
              ring = r;
            }),
            rw (on, made),
          )
    ]

-- What `Create` needs of a tuning.
record IsEnough (t : Tuning) : Type 0 where
  send : 1 ≤ t.send_cap_bytes
  handoff : (1 ≤ t.handoff_bytes) × (t.handoff_bytes ≤ 2 ^ 31)
  coalesce : 1 ≤ t.coalesce_max_bytes
  playback : t.playback_handoff_bytes ≤ 2 ^ 31

created :
    (params : ForkParams) (t : Tuning) (pool : SlabPool)
    → IsEnough t
    → (s : ForkSession) × (ForkSession.create params t pool ≡ some s)
unfolding ForkSession.create
created params t pool v =
    let (ring, made) = ring_made t.handoff_bytes v.handoff.0 v.handoff.1 in
    let (playback, played) = create_playback-made t v.playback in
    let s = v.send in
    let h = v.handoff.0 in
    let c = v.coalesce in
    let all : (t.send_cap_bytes == 0 || t.handoff_bytes == 0 || t.coalesce_max_bytes == 0) ≡ false =
      ground arith in
    (construct params t pool ring playback, rw (all, made, played))

make_tuning-IsEnough :
    (c : ModuleConfig) (f : AudioFormat) → IsSane c → IsFormat f → IsEnough (make_tuning c f)
unfolding make_tuning
make_tuning-IsEnough c f v w =
    let b = rate_bounds f w in
    let mono : AudioFormat = record { sample_rate = f.sample_rate; channels = 1 } in
    let send : IsLong c.send_buffer = record { low = omega (arith, v.send.0); high = v.send.1 } in
    record {
      send = (sized f c.send_buffer b.0 b.1 send).0;
      handoff = sized f c.handoff_buffer b.0 b.1 (handoff_IsLong c v);
      coalesce = (sized f c.coalesce_max b.0 b.1 (coalesce_IsLong c v)).0;
      playback =
          (sized mono c.coalesce_max (omega (arith, w.rate.0)) (omega (arith, w.rate.1))
            (coalesce_IsLong c v)).1;
    }

-- A fork of a sane configuration, at a rate that telephony has and in one or two channels, can be
-- created, and its buffers fit in one another.
pub make_tuning_creates :
    (c : ModuleConfig) (f : AudioFormat) (params : ForkParams) (pool : SlabPool)
    → IsSane c
    → IsFormat f
    → IsOrdered (make_tuning c f)
      × ((s : ForkSession) × (ForkSession.create params (make_tuning c f) pool ≡ some s))
make_tuning_creates c f params pool v w = (
  make_tuning-IsOrdered c f v w,
  created params (make_tuning c f) pool (make_tuning-IsEnough c f v w),
)
