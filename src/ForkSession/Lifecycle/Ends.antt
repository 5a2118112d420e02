-- ===== src/ForkSession/Lifecycle/Ends.antt =====
-- How core/src/fork_session.cpp ends a session: `Finalize` runs as the session dies, and only then.
pub mod Apply
use mod_audio_fork.Common.{
  ℕ, ◌+◌, ◌*◌, ◌==◌, zero, suc, ◌<◌, ◌≡◌, refl, sym, ◌∙◌, ap, not, ◌&&◌, ◌||◌, Bool, true, false,
  Option, none, some, if◌then◌else◌, if_ind, Text, [], codes, length, add64, arith,
}
use mod_audio_fork.SlabQueue
use mod_audio_fork.SessionState.{
  SessionState, dead, SessionEvent, SessionAction, no_action, notify_connected, schedule_retry,
  begin_connect, begin_drain, begin_close, abandon_socket, finalize, on_event, ws_error, teardown,
  drain_complete, close_complete, session_transition_for,
}
use mod_audio_fork.Protocol.{JsonLibrary}
use mod_audio_fork.ForkSession.{ForkSession}
use mod_audio_fork.ForkSession.Ports.{Environment, connected, connect_failed, error, reconnecting}
use mod_audio_fork.ForkSession.Texts.{connection_text, is_active, flush_pending_texts}
use mod_audio_fork.ForkSession.Outbound.{log, emit, drain_handoff_ring, flush_to_connection}
use mod_audio_fork.ForkSession.Inbound.{pump_playback}
use mod_audio_fork.ForkSession.Lifecycle.{
  is_draining, expired, end_playback, finish, greet, say_goodbye, hello_of, Next, react,
  open_connection, close_down, pump, drain_out, greeted, say_hello, apply_one, apply_within, apply,
}
use mod_audio_fork.ForkSession.Lifecycle.Fuel.{
  rank, complete_rank, closed_rank, error_rank, teardown_rank, rank-positive,
}
use mod_audio_fork.ForkSession.Lifecycle.Quiet.{
  told, Quiet, still, and_then, drain_handoff_ring-Quiet, pump_playback-Quiet, restore-Quiet,
}
use mod_audio_fork.ForkSession.Lifecycle.Quiet.Network.{
  flush_to_connection-Quiet, flush_pending_texts-Quiet, say_goodbye-Quiet, greet-Quiet,
}
use mod_audio_fork.ForkSession.Lifecycle.Quiet.Calls.{
  close_connection-Quiet, retry_later-Quiet, end_playback-Quiet,
}

abbrev pub is_dead : SessionState → Bool
is_dead dead = true
is_dead _ = false

abbrev pub one_if : Bool → ℕ
one_if b = if b then 1 else 0

-- What has been told once a session is dead, or is not, with a callback or without.
abbrev pub ending : (called is_dead : Bool) → Bool × ℕ × ℕ
ending called d = (not d && called, one_if d, one_if (d && called))

pub record Ends (called : Bool) (s : ForkSession) : Type 0 where
  pub told : told s ≡ ending called (is_dead s.state)

pub Ends-Quiet : {called : Bool} {s s' : ForkSession} → Quiet s s' → Ends called s → Ends called s'
Ends-Quiet {called} q h = record {
  told = ap (λ x. x.1) q.same ∙ h.told ∙ ap (λ x. ending called (is_dead x.0)) (sym q.same);
}

-- The finalization is still to be done when its action is, in a dead session.
abbrev pub dead_after : SessionAction → SessionState → Bool
dead_after finalize x = false
dead_after _ x = is_dead x

abbrev pub reached : SessionAction → SessionState → Bool
reached finalize x = is_dead x
reached _ x = true

pub record Owes (called : Bool) (a : SessionAction) (s : ForkSession) : Type 0 where
  pub told : told s ≡ ending called (dead_after a s.state)
  pub reached : reached a s.state ≡ true

event_dead :
    (x : SessionState) (e : SessionEvent)
    → dead_after (on_event x e).0.action (on_event x e).1 ≡ is_dead x
unfolding on_event session_transition_for
event_dead x e = ground arith

event_reached :
    (x : SessionState) (e : SessionEvent) → reached (on_event x e).0.action (on_event x e).1 ≡ true
unfolding on_event session_transition_for
event_reached x e = ground arith

-- What is done next ends a session well, for actions of lower rank.
abbrev pub Well : Bool → ℕ → Next → Type 0
Well called n f =
    (a : SessionAction) (s : ForkSession) → rank a < n → Owes called a s → Ends called (f a s)

pub react-Owes :
    {called : Bool} (e : SessionEvent) (s : ForkSession)
    → Ends called s
    → Owes called (on_event s.state e).0.action (record s { state = (on_event s.state e).1 })
react-Owes {called} e s h = record {
  told = h.told ∙ ap (ending called) (sym (event_dead s.state e));
  reached = event_reached s.state e;
}

pub react-Ends :
    {called : Bool} (n : ℕ) (f : Next) (e : SessionEvent) (s : ForkSession)
    → Well called n f
    → rank (on_event s.state e).0.action < n
    → Ends called s
    → Ends called (react f e s)
unfolding react
react-Ends n f e s w l h = w _ _ l (react-Owes e s h)

-- The end is announced, and the owner called back where it waits for that.
ending_called :
    (called b x : Bool) (n m : ℕ)
    → b ≡ called
    → n ≡ 0
    → m ≡ 0
    → x ≡ true
    → b ≡ true
    → (false, n + 1, m + 1) ≡ ending called x
ending_called called b x n m p q r h c = ground arith

ending_quiet :
    (called b x : Bool) (n m : ℕ)
    → b ≡ called
    → n ≡ 0
    → m ≡ 0
    → x ≡ true
    → b ≡ false
    → (b, n + 1, m) ≡ ending called x
ending_quiet called b x n m p q r h c = ground arith

pub finish-Ends :
    {called : Bool} (s : ForkSession) → Owes called finalize s → Ends called (finish s)
unfolding finish
finish-Ends {called} s o =
    let q = end_playback-Quiet s.playback freed in
    let e = ap (λ x. x.1) q.same ∙ o.told in
    let over = ap (λ x. is_dead x.0) q.same ∙ o.reached in
    let b = ap (λ x. x.0) e in
    let n = ap (λ x. x.1) e in
    let m = ap (λ x. x.2) e in
    if_ind (Ends called) ended.on_finished
      (λ c. record { told = ending_called called _ _ _ _ b n m over c })
      (λ c. record { told = ending_quiet called _ _ _ _ b n m over c })
  where
    freed : ForkSession
    freed = record s {
      pool = (SlabQueue.clear s.pool s.buffer.queue).0;
      buffer = record s.buffer { queue = (SlabQueue.clear s.pool s.buffer.queue).1 };
      pending_texts_dropped = add64 s.pending_texts_dropped (length s.pending_texts);
      pending_texts = [];
    }

    ended : ForkSession
    ended = end_playback s.playback freed
