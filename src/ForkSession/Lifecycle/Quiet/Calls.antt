-- ===== src/ForkSession/Lifecycle/Quiet/Calls.antt =====
-- The inbound audio and the calls of other threads in core/src/fork_session.cpp, which do not move a
-- session's state.
use mod_audio_fork.Common.{
  ℕ, ◌==◌, not, ltb, refl, Bool, true, ◌&&◌, Option, none, some, List, [], ◌∷◌, if◌then◌else◌,
  if_ind, length, add64, Text, codes,
}
use mod_audio_fork.SpscRing
use mod_audio_fork.JitterBuffer
use mod_audio_fork.JitterBuffer.{JitterBuffer}
use mod_audio_fork.Protocol.{
  JsonLibrary, ServerMessage, start_playback, clear_playback, playback_mark, server_disconnect,
  relay_to_app, invalid_message,
}
use mod_audio_fork.ForkSession.{ForkSession, Playback}
use mod_audio_fork.ForkSession.Ports.{
  Environment, playback_start, playback_cleared, Endpoint, error,
}
use mod_audio_fork.ForkSession.Media.{
  is_running, push_audio, read_from, read_playback, send_text, modify_endpoint,
}
use mod_audio_fork.ForkSession.Outbound.{emit}
use mod_audio_fork.ForkSession.Inbound.{
  put_playback, unsupported, take_audio, on_binary, handle_clear, handle_mark,
  handle_playback_start,
}
use mod_audio_fork.ForkSession.Lifecycle.{close_connection, retry_later, end_playback, on_control}
use mod_audio_fork.ForkSession.Lifecycle.Quiet.{Quiet, still, and_then, pump_playback-Quiet}

unsupported-Quiet : (detail : Text) (s : ForkSession) → Quiet s (unsupported detail s)
unfolding unsupported
unsupported-Quiet detail s =
    if_ind (Quiet s) (s.unsupported_inbound == 0) (λ _. still refl) (λ _. still refl)

-- Audio that was refused is reported.
refused-Quiet :
    (refused : ℕ) (j : JitterBuffer) (s : ForkSession)
    → Quiet s (
        if ltb 0 refused && not j.muted
        then emit error
            (codes "playback buffer overflowed, audio discarded")
            (record s { playback_bytes_dropped = add64 s.playback_bytes_dropped refused })
        else s)
refused-Quiet refused j s =
    if_ind (Quiet s) (ltb 0 refused && not j.muted) (λ _. still refl) (λ _. still refl)

-- The first audio starts the playback.
begun-Quiet :
    (j : JitterBuffer) (s : ForkSession)
    → Quiet s (
        if not s.playback_started && not (j.queue.size == 0)
        then emit playback_start [] (record s { playback_started = true })
        else s)
begun-Quiet j s =
    if_ind (Quiet s) (not s.playback_started && not (j.queue.size == 0)) (λ _. still refl)
      (λ _. still refl)

take_audio-Quiet :
    (bytes : List ℕ) (b : Playback) (s : ForkSession) → Quiet s (take_audio bytes b s)
unfolding take_audio
take_audio-Quiet bytes b s =
    let (refused, p, j) = JitterBuffer.append bytes s.pool b.buffer in
    let s' : ForkSession = record (put_playback p (record b { buffer = j }) s) {
      playback_bytes_received = add64 s.playback_bytes_received (length bytes);
    } in
    let kept : Quiet s s' = still refl in
    and_then (and_then (and_then kept (refused-Quiet refused j s')) (begun-Quiet j _))
      (pump_playback-Quiet _)

pub on_binary-Quiet : (bytes : List ℕ) (s : ForkSession) → Quiet s (on_binary bytes s)
unfolding on_binary
on_binary-Quiet [] s = still refl
on_binary-Quiet (x ∷ xs) s = by_playback s.playback
  where
    by_playback :
        (o : Option Playback)
        → Quiet s (elim o [
          | none ↦ unsupported (codes "inbound audio received but playback is not enabled") s
          | some b ↦ take_audio (x ∷ xs) b s
        ])
    by_playback none =
        unsupported-Quiet (codes "inbound audio received but playback is not enabled") s
    by_playback (some b) = take_audio-Quiet (x ∷ xs) b s

handle_clear-Quiet : (b : Playback) (s : ForkSession) → Quiet s (handle_clear b s)
unfolding handle_clear
handle_clear-Quiet b s =
    if_ind (λ (t : ForkSession). Quiet s (emit playback_cleared [] t))
      (s.receive_paused && s.connection) (λ _. still refl) (λ _. still refl)

handle_playback_start-Quiet :
    (to_string : ℕ → Text) (sample_rate channels : ℕ) (s : ForkSession)
    → Quiet s (handle_playback_start to_string sample_rate channels s)
unfolding handle_playback_start
handle_playback_start-Quiet to_string sample_rate channels s =
    let rated : ForkSession =
      (if sample_rate == 0 then s else record s { playback_rate = sample_rate }) in
    let s' : ForkSession =
      (if channels == 0 then rated else record rated { playback_channels = channels }) in
    let quiet : Quiet s rated =
      if_ind (Quiet s) (sample_rate == 0) (λ _. still refl) (λ _. still refl) in
    let too : Quiet rated s' =
      if_ind (Quiet rated) (channels == 0) (λ _. still refl) (λ _. still refl) in
    still (and_then quiet too).same

pub on_control-Quiet :
    (env : Environment) {J : Type 0} (library : JsonLibrary J) (to_string : ℕ → Text)
    (m : ServerMessage) (o : Option Playback) (s : ForkSession)
    → Quiet s (on_control env library to_string m o s)
unfolding handle_mark
on_control-Quiet env library to_string m none s =
    unsupported-Quiet (codes "playback control received but playback is not enabled") s
on_control-Quiet env library to_string (start_playback rate channels) (some b) s =
    handle_playback_start-Quiet to_string rate channels s
on_control-Quiet env library to_string clear_playback (some b) s = handle_clear-Quiet b s
on_control-Quiet env library to_string (playback_mark name) (some b) s = still refl
on_control-Quiet env library to_string server_disconnect (some b) s = still refl
on_control-Quiet env library to_string (relay_to_app payload) (some b) s = still refl
on_control-Quiet env library to_string (invalid_message reason) (some b) s = still refl

pub close_connection-Quiet : (s : ForkSession) → Quiet s (close_connection s)
unfolding close_connection
close_connection-Quiet s = if_ind (Quiet s) s.connection (λ _. still refl) (λ _. still refl)

pub retry_later-Quiet : (env : Environment) (s : ForkSession) → Quiet s (retry_later env s)
unfolding retry_later
retry_later-Quiet env s = still refl

pub end_playback-Quiet : (o : Option Playback) (s : ForkSession) → Quiet s (end_playback o s)
unfolding end_playback
end_playback-Quiet none s = still refl
end_playback-Quiet (some b) s =
    if_ind (Quiet s) s.playback_started (λ _. still refl) (λ _. still refl)

pub push_audio-Quiet : (pcm : List ℕ) (s : ForkSession) → Quiet s (push_audio pcm s).1
unfolding push_audio
push_audio-Quiet pcm s =
    if_ind (λ (r : Bool × ForkSession). Quiet s r.1) (not (is_running s.state)) (λ _. still refl)
      (λ _.
        if_ind (λ (r : Bool × ForkSession). Quiet s r.1) s.paused (λ _. still refl)
          (λ _.
            if_ind (λ (r : Bool × ForkSession). Quiet s r.1) (SpscRing.push pcm s.ring).0
              (λ _. still refl) (λ _. still refl)))

read_from-Quiet : (room : ℕ) (s : ForkSession) (b : Playback) → Quiet s (read_from room s b).1
unfolding read_from
read_from-Quiet room s b =
    if_ind (λ (r : List ℕ × ForkSession). Quiet s r.1)
      (not (s.playback_generation == s.media_playback_generation)) (λ _. still refl)
      (λ _.
        if_ind (Quiet s) (length (SpscRing.pop room b.ring).0 == 0) (λ _. still refl)
          (λ _. still refl))

pub read_playback-Quiet : (room : ℕ) (s : ForkSession) → Quiet s (read_playback room s).1
unfolding read_playback
read_playback-Quiet room s = by_playback s.playback
  where
    by_playback :
        (o : Option Playback)
        → Quiet s
            (elim o as (λ (x : Option Playback). List ℕ × ForkSession) [
              | none ↦ ([], s)
              | some b ↦ if room == 0 then ([], s) else read_from room s b
            ]).1
    by_playback none = still refl
    by_playback (some b) =
        if_ind (λ (r : List ℕ × ForkSession). Quiet s r.1) (room == 0) (λ _. still refl)
          (λ _. read_from-Quiet room s b)

pub send_text-Quiet : (text : Text) (s : ForkSession) → Quiet s (send_text text s).1
unfolding send_text
send_text-Quiet text s =
    if_ind (λ (r : Bool × ForkSession). Quiet s r.1) (is_running s.state) (λ _. still refl)
      (λ _. still refl)

pub modify_endpoint-Quiet :
    (endpoint : Endpoint) (s : ForkSession) → Quiet s (modify_endpoint endpoint s).1
unfolding modify_endpoint
modify_endpoint-Quiet endpoint s =
    if_ind (λ (r : Bool × ForkSession). Quiet s r.1) (is_running s.state) (λ _. still refl)
      (λ _. still refl)
