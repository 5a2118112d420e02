-- ===== src/Module/Bug.antt =====
-- The media bug of module/mod_audio_fork.cpp: the frames that it reads for the fork and the playback
-- that it puts into those that are written. FreeSWITCH's resamplers are what they make of samples.
pub mod Frames
use mod_audio_fork.Common.{
  ℕ, ◌*◌, ◌/◌, ◌==◌, min, max, Bool, true, false, not, ◌||◌, Option, none, some, List, [], ◌∷◌,
  ◌++◌, if◌then◌else◌, length, take, drop,
}
use mod_audio_fork.Config.{is_empty}
use mod_audio_fork.ForkSession.{ForkSession}
use mod_audio_fork.ForkSession.Media.{push_audio, read_playback, playback_format, stop}

-- What FreeSWITCH's resamplers do, from one rate to another, and whether one can be had.
pub record Resamplers : Type 0 where
  pub resample : (from_rate to_rate : ℕ) → List ℕ → List ℕ
  pub available : (from_rate to_rate : ℕ) → Bool

-- `resampler` is whether the fork's audio is resampled; `playback_resampler` is the rate that
-- playback is resampled from, if it is; `scratch_bytes` is the size of the two scratch buffers.
pub record ForkBug : Type 0 where
  pub session : ForkSession
  pub wire_rate : ℕ
  pub session_rate : ℕ
  pub resampler : Bool
  pub playback_resampler : Option ℕ
  pub scratch_bytes : ℕ

abbrev keeps_rate : (from_rate : ℕ) → Option ℕ → Bool
keeps_rate from_rate none = false
keeps_rate from_rate (some rate) = rate == from_rate

-- `EnsurePlaybackResampler`.
unfoldable pub ensure_playback_resampler : Resamplers → (from_rate : ℕ) → ForkBug → ForkBug × Bool
ensure_playback_resampler w from_rate bug =
    if from_rate == bug.session_rate
    then (record bug { playback_resampler = none }, true)
    else if keeps_rate from_rate bug.playback_resampler
    then (bug, true)
    else if w.available from_rate bug.session_rate
    then (record bug { playback_resampler = some from_rate }, true)
    else (record bug { playback_resampler = none }, false)

-- `PushResampled`: nothing is pushed where the resampler has nothing yet.
unfoldable pub push_resampled : Resamplers → List ℕ → ForkBug → ForkBug
push_resampled w samples bug =
    if not bug.resampler
    then record bug { session = (push_audio samples bug.session).1 }
    else let out = w.resample bug.session_rate bug.wire_rate samples in
      if is_empty out then bug else record bug { session = (push_audio out bug.session).1 }

-- `SWITCH_ABC_TYPE_READ`: the frames that can be read, up to an empty one.
unfoldable pub on_read : Resamplers → (frames : List (List ℕ)) → ForkBug → ForkBug
unfolding push_resampled
on_read w [] bug = bug
on_read w (frame ∷ frames) bug =
    let rest = on_read w frames (push_resampled w frame bug) in if is_empty frame then bug else rest

-- `memcpy` to the front of a frame.
abbrev pub overwrite_front : List ℕ → List ℕ → List ℕ
overwrite_front bytes frame = bytes ++ drop (length bytes) frame

-- At the session's rate the playback goes straight into the frame.
unfoldable pub fill_frame : List ℕ → ForkBug → ForkBug × List ℕ
fill_frame frame bug =
    let (filled, s) = read_playback (length frame) bug.session in
    (record bug { session = s }, overwrite_front filled frame)

-- The bytes of playback that a frame wants, at another rate, and that the scratch buffer has room for.
abbrev pub wanted_bytes : (rate : ℕ) → (frame : List ℕ) → ForkBug → ℕ
wanted_bytes rate frame bug = min (max (length frame * rate / bug.session_rate) 2) bug.scratch_bytes

-- Samples of two bytes.
abbrev pub whole_samples : List ℕ → List ℕ
whole_samples bytes = take (length bytes / 2 * 2) bytes

-- At another rate the playback is resampled, and what is made of it is cut to the frame.
unfoldable pub resample_frame : Resamplers → (rate : ℕ) → List ℕ → ForkBug → ForkBug × List ℕ
resample_frame w rate frame bug =
    let (filled, s) = read_playback (wanted_bytes rate frame bug) bug.session in
    let bug' = record bug { session = s } in
    if is_empty filled then (bug', frame) else (
      bug',
      overwrite_front
          (take (length frame) (w.resample rate bug.session_rate (whole_samples filled))) frame,
    )

-- `SWITCH_ABC_TYPE_WRITE_REPLACE`, with the frame that is about to be written, if there is one; the
-- frame that is written.
unfoldable pub replace_frame : Resamplers → List ℕ → ForkBug → ForkBug × List ℕ
unfolding ensure_playback_resampler fill_frame resample_frame
replace_frame w frame bug =
    let rate = (playback_format bug.session).sample_rate in
    let (bug', ready) = ensure_playback_resampler w rate bug in
    if not ready then (bug', frame) else elim bug'.playback_resampler [
      | none ↦ fill_frame frame bug'
      | some r ↦ resample_frame w rate frame bug'
    ]

-- `playback_enabled`.
abbrev pub playback_enabled : ForkSession → Bool
playback_enabled s = elim s.playback [ none ↦ false | some b ↦ true ]

unfoldable pub on_write_replace : Resamplers → List ℕ → ForkBug → ForkBug × List ℕ
unfolding replace_frame
on_write_replace w frame bug =
    if not (playback_enabled bug.session) || is_empty frame
    then (bug, frame)
    else replace_frame w frame bug

-- `SWITCH_ABC_TYPE_CLOSE`: the session is told to stop; the bug is gone.
unfoldable pub on_close : ForkBug → ForkSession
on_close bug = stop bug.session
