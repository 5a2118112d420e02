-- ===== src/JitterBuffer.antt =====
-- core/include/audiofork/jitter_buffer.hpp and core/src/jitter_buffer.cpp: the inbound playback
-- audio, a SlabQueue that refuses its newest bytes over the cap, with marks at positions of the
-- stream. A barge-in (`clear`) mutes it until the next mark. `Peek`, `size` and `empty` are the
-- queue's.
pub mod Marks
pub mod Admit
pub mod Weave
pub mod Stream
mod Tests
use mod_audio_fork.Common.{
  ℕ, ◌+◌, ◌-◌, min, Bool, true, false, ◌||◌, List, [], ◌∷◌, ◌++◌, ltb, leb, ◌==◌, if◌then◌else◌,
  length, take, add64, Text,
}
use mod_audio_fork.SlabPool.{SlabPool}
use mod_audio_fork.SlabQueue
use mod_audio_fork.SlabQueue.{SlabQueue}

pub record Mark : Type 0 where
  pub offset : ℕ
  pub name : Text

-- The offsets count the bytes ever written and consumed, as `std::uint64_t`.
pub record JitterBuffer : Type 0 where
  pub queue : SlabQueue
  pub cap_bytes : ℕ
  pub muted : Bool
  pub written_offset : ℕ
  pub consumed_offset : ℕ
  pub marks : List Mark
  pub reached_marks : List Text

abbrev pub create : ℕ → JitterBuffer
create cap = record {
  queue = SlabQueue.empty;
  cap_bytes = cap;
  muted = false;
  written_offset = 0;
  consumed_offset = 0;
  marks = [];
  reached_marks = [];
}

abbrev pub room : JitterBuffer → ℕ
room j = if ltb j.queue.size j.cap_bytes then j.cap_bytes - j.queue.size else 0

-- The bytes refused.
unfoldable pub append : List ℕ → SlabPool → JitterBuffer → ℕ × SlabPool × JitterBuffer
append bytes p j =
    if j.muted || length bytes == 0
    then (length bytes, p, j)
    else let admit = min (room j) (length bytes) in
      let (stored, p', q') = SlabQueue.append (take admit bytes) p j.queue in
      (
        length bytes - stored,
        p',
        record j { queue = q'; written_offset = add64 j.written_offset stored },
      )

unfoldable pub clear : SlabPool → JitterBuffer → SlabPool × JitterBuffer
clear p j =
    let (p', q') = SlabQueue.clear p j.queue in
    (p', record j { queue = q'; marks = []; consumed_offset = j.written_offset; muted = true })

unfoldable pub add_mark : Text → JitterBuffer → JitterBuffer
add_mark name j =
    if leb j.written_offset j.consumed_offset
    then record j { muted = false; reached_marks = j.reached_marks ++ (name ∷ []) }
    else record j {
      muted = false;
      marks = j.marks ++ (record { offset = j.written_offset; name = name } ∷ []);
    }

-- The loop of `Consume` over the marks: those that remain, and those reached.
unfoldable pub reach : ℕ → List Mark → List Text → List Mark × List Text
reach consumed [] reached = ([], reached)
reach consumed (m ∷ ms) reached =
    let rest = reach consumed ms (reached ++ (m.name ∷ [])) in
    if leb m.offset consumed then rest else (m ∷ ms, reached)

unfoldable pub consume : ℕ → SlabPool → JitterBuffer → SlabPool × JitterBuffer
unfolding reach
consume bytes p j =
    let (p', q') = SlabQueue.consume bytes p j.queue in
    let consumed = add64 j.consumed_offset (j.queue.size - q'.size) in
    let (marks, reached) = reach consumed j.marks j.reached_marks in
    (
      p',
      record j { queue = q'; consumed_offset = consumed; marks = marks; reached_marks = reached },
    )

-- The vector that is moved from is left empty.
unfoldable pub take_reached_marks : JitterBuffer → List Text × JitterBuffer
take_reached_marks j = (j.reached_marks, record j { reached_marks = [] })
