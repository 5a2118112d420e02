-- ===== src/ForkSession/Lifecycle/Fuel.antt =====
-- The recursion of `Apply` in core/src/fork_session.cpp ends: each action leads only to actions that
-- lead less far.
use mod_audio_fork.Common.{
  ℕ, ◌+◌, ◌*◌, zero, suc, ◌<◌, ◌≤◌, ◌≡◌, refl, Option, none, some, if◌then◌else◌, Text, [], codes,
  arith,
}
use mod_audio_fork.SessionState.{
  SessionState, SessionEvent, SessionAction, no_action, notify_connected, schedule_retry,
  begin_connect, begin_drain, begin_close, abandon_socket, finalize, on_event, ws_error, teardown,
  drain_complete, close_complete, session_transition_for,
}
use mod_audio_fork.Protocol.{JsonLibrary}
use mod_audio_fork.ForkSession.{ForkSession}
use mod_audio_fork.ForkSession.Ports.{Environment, connected, connect_failed, error}
use mod_audio_fork.ForkSession.Texts.{connection_text}
use mod_audio_fork.ForkSession.Outbound.{log, emit, drain_handoff_ring, flush_to_connection}
use mod_audio_fork.ForkSession.Inbound.{pump_playback}
use mod_audio_fork.ForkSession.Lifecycle.{
  say_goodbye, hello_of, Next, react, open_connection, close_down, pump, drain_out, greeted,
  say_hello, apply_one, apply_within, apply,
}

-- How deep `Apply` may go from an action.
abbrev pub rank : SessionAction → ℕ
rank notify_connected = 4
rank begin_connect = 3
rank begin_drain = 3
rank begin_close = 2
rank _ = 1

-- What the session itself does next is of lower rank, in whatever state it is.
Agree : ℕ → Next → Next → Type 0
Agree n f g = (a : SessionAction) (s : ForkSession) → rank a < n → f a s ≡ g a s

react-Agree :
    (n : ℕ) (f g : Next) (e : SessionEvent) (s : ForkSession)
    → Agree n f g
    → rank (on_event s.state e).0.action < n
    → react f e s ≡ react g e s
unfolding react Agree
react-Agree n f g e s h l = h _ _ l

pub complete_rank : (x : SessionState) → rank (on_event x drain_complete).0.action < 3
unfolding on_event session_transition_for
complete_rank x = ground arith

pub closed_rank : (x : SessionState) → rank (on_event x close_complete).0.action < 2
unfolding on_event session_transition_for
closed_rank x = ground arith

pub error_rank : (x : SessionState) → rank (on_event x ws_error).0.action < 3
unfolding on_event session_transition_for
error_rank x = ground arith

pub teardown_rank : (x : SessionState) → rank (on_event x teardown).0.action < 4
unfolding on_event session_transition_for
teardown_rank x = ground arith

pub rank-positive : (a : SessionAction) → rank a ≤ 0 → ⊥
rank-positive a h = ground arith

pub rank-bounded : (a : SessionAction) → rank a ≤ 4
rank-bounded a = ground arith

module _ (env : Environment) {J : Type 0} (library : JsonLibrary J) where
  pump-Agree :
      (f g : Next) (s : ForkSession) → Agree 3 f g → pump env library f s ≡ pump env library g s
  unfolding pump
  pump-Agree f g s h =
      let sent = flush_to_connection env (pump_playback (drain_handoff_ring s)) in
      let bye = say_goodbye env library sent in
      rw (react-Agree 3 f g drain_complete bye h (complete_rank bye.state)) refl

  drain_out-Agree :
      (f g : Next) (s : ForkSession)
      → Agree 3 f g
      → drain_out env library f s ≡ drain_out env library g s
  unfolding drain_out
  drain_out-Agree f g s h =
      let s' : ForkSession = record s {
        drain_deadline = some (env.now s.trace + s.tuning.drain_timeout * 1000000);
      } in
      rw (react-Agree 3 f g drain_complete s' h (complete_rank s.state), pump-Agree f g s' h) refl

  open_connection-Agree :
      (f g : Next) (s : ForkSession)
      → Agree 3 f g
      → open_connection env f s ≡ open_connection env g s
  unfolding open_connection
  open_connection-Agree f g s h =
      let made = env.connects s.trace in
      let s' : ForkSession =
        record (log (connected s.params.endpoint (s.tuning.coalesce_max_bytes * 4) made) s) {
          connection = made;
        } in
      let told : ForkSession = (if s'.reconnecting then s' else emit connect_failed [] s') in
      rw (react-Agree 3 f g ws_error told h (error_rank told.state)) refl

  close_down-Agree :
      (f g : Next) (s : ForkSession) → Agree 2 f g → close_down env f s ≡ close_down env g s
  unfolding close_down
  close_down-Agree f g s h = rw (react-Agree 2 f g close_complete s h (closed_rank s.state)) refl

  greeted-Agree :
      (f g : Next) (s : ForkSession)
      → Agree 3 f g
      → greeted env library f s ≡ greeted env library g s
  unfolding greeted
  greeted-Agree f g s h = pump-Agree f g _ h

  say_hello-Agree :
      (f g : Next) (hello : Option Text) (s : ForkSession)
      → Agree 4 f g
      → say_hello env library f hello s ≡ say_hello env library g hello s
  unfolding say_hello Agree
  say_hello-Agree f g none s h =
      react-Agree 4 f g teardown (emit error (codes "invalid fork parameters for hello") s) h
        (teardown_rank s.state)
  say_hello-Agree f g (some hello) s h =
      let (taken, offered) = connection_text env hello s in
      let s' : ForkSession = (if s.connection then offered else s) in
      let told = emit error (codes "hello could not be sent") s' in
      rw
        (
          react-Agree 4 f g ws_error told h (higher (error_rank told.state)),
          greeted-Agree f g s' (λ a t l. h a t (higher l)),
        )
        refl
    where
      higher : {x : ℕ} → x < 3 → x < 4
      higher l = omega arith

  apply_one-Agree :
      (f g : Next) (a : SessionAction) (s : ForkSession)
      → Agree (rank a) f g
      → apply_one env library f a s ≡ apply_one env library g a s
  unfolding apply_one
  apply_one-Agree f g notify_connected s h =
      say_hello-Agree f g (hello_of env library (record s { drawn = 0 })) (record s { drawn = 0 }) h
  apply_one-Agree f g schedule_retry s h = refl
  apply_one-Agree f g begin_connect s h = open_connection-Agree f g s h
  apply_one-Agree f g begin_drain s h = drain_out-Agree f g s h
  apply_one-Agree f g begin_close s h = close_down-Agree f g s h
  apply_one-Agree f g abandon_socket s h = refl
  apply_one-Agree f g finalize s h = refl
  apply_one-Agree f g no_action s h = refl

  apply_within-Agree :
      (m n : ℕ) (a : SessionAction) (s : ForkSession)
      → rank a ≤ m
      → rank a ≤ n
      → apply_within env library m a s ≡ apply_within env library n a s
  unfolding apply_within Agree
  apply_within-Agree zero n a s h k = absurd (rank-positive a h)
  apply_within-Agree (suc m) zero a s h k = absurd (rank-positive a k)
  apply_within-Agree (suc m) (suc n) a s h k =
      apply_one-Agree (apply_within env library m) (apply_within env library n) a s
        (λ b t l. apply_within-Agree m n b t (below m h l) (below n k l))
    where
      below : {x y : ℕ} (z : ℕ) → x ≤ suc z → y < x → y ≤ z
      below z u w = omega arith

  -- `Apply` returns: in every state and from every action, any bound of four or more on its calls
  -- within calls gives the same result, so the model's bound is never met.
  pub apply-within :
      (n : ℕ) (a : SessionAction) (s : ForkSession)
      → 4 ≤ n
      → apply_within env library n a s ≡ apply env library a s
  unfolding apply
  apply-within n a s h = apply_within-Agree n 4 a s (reach (rank-bounded a) h) (rank-bounded a)
    where
      reach : {x : ℕ} → x ≤ 4 → 4 ≤ n → x ≤ n
      reach u w = omega arith
