-- ===== src/ForkSession/Lifecycle/Ends/Apply.antt =====
-- `Apply` of core/src/fork_session.cpp with all that it calls: what an action leaves of a session that
-- is as it should be.
use mod_audio_fork.Common.{
  ℕ, ◌+◌, ◌*◌, ◌==◌, zero, suc, ◌<◌, refl, not, ◌&&◌, ◌||◌, Bool, true, false, Option, none, some,
  if◌then◌else◌, if_ind, Text, [], codes, arith,
}
use mod_audio_fork.SessionState.{
  SessionAction, no_action, notify_connected, schedule_retry, begin_connect, begin_drain,
  begin_close, abandon_socket, finalize, ws_error, teardown, drain_complete, close_complete,
}
use mod_audio_fork.Protocol.{JsonLibrary}
use mod_audio_fork.ForkSession.{ForkSession}
use mod_audio_fork.ForkSession.Ports.{Environment, connected, connect_failed, error, reconnecting}
use mod_audio_fork.ForkSession.Texts.{connection_text, is_active, flush_pending_texts}
use mod_audio_fork.ForkSession.Outbound.{log, emit, drain_handoff_ring, flush_to_connection}
use mod_audio_fork.ForkSession.Inbound.{pump_playback}
use mod_audio_fork.ForkSession.Lifecycle.{
  is_draining, expired, greet, say_goodbye, hello_of, Next, open_connection, close_down, pump,
  drain_out, greeted, say_hello, apply_one, apply_within, apply,
}
use mod_audio_fork.ForkSession.Lifecycle.Fuel.{
  rank, complete_rank, closed_rank, error_rank, teardown_rank, rank-positive,
}
use mod_audio_fork.ForkSession.Lifecycle.Quiet.{
  still, and_then, drain_handoff_ring-Quiet, pump_playback-Quiet, restore-Quiet,
}
use mod_audio_fork.ForkSession.Lifecycle.Quiet.Network.{
  flush_to_connection-Quiet, flush_pending_texts-Quiet, say_goodbye-Quiet, greet-Quiet,
}
use mod_audio_fork.ForkSession.Lifecycle.Quiet.Calls.{close_connection-Quiet, retry_later-Quiet}
use mod_audio_fork.ForkSession.Lifecycle.Ends.{
  Ends, Ends-Quiet, Owes, Well, react-Ends, finish-Ends,
}

module _ (env : Environment) {J : Type 0} (library : JsonLibrary J) (called : Bool) where
  pub pump-Ends :
      (f : Next) (s : ForkSession)
      → Well called 3 f
      → Ends called s
      → Ends called (pump env library f s)
  unfolding pump
  pump-Ends f s w h =
      let s' = pump_playback (drain_handoff_ring s) in
      let sent = flush_to_connection env s' in
      let bye = say_goodbye env library sent in
      let first : Ends called s' =
        Ends-Quiet
          (and_then (drain_handoff_ring-Quiet s) (pump_playback-Quiet (drain_handoff_ring s))) h in
      let after : Ends called sent = Ends-Quiet (flush_to_connection-Quiet env s') first in
      let said : Ends called bye = Ends-Quiet (say_goodbye-Quiet env library sent) after in
      if_ind (Ends called) (is_active s'.state) (λ _. Ends-Quiet (restore-Quiet sent) after)
        (λ _.
          if_ind (Ends called) (not (is_draining s'.state)) (λ _. first)
            (λ _.
              if_ind (Ends called)
                (((sent.buffer.queue.size == 0) && bye.bye_sent) || expired env library sent)
                (λ _. react-Ends 3 f drain_complete bye w (complete_rank bye.state) said)
                (λ _. said)))

  drain_out-Ends :
      (f : Next) (s : ForkSession)
      → Well called 3 f
      → Ends called s
      → Ends called (drain_out env library f s)
  unfolding drain_out
  drain_out-Ends f s w h =
      let s' : ForkSession = record s {
        drain_deadline = some (env.now s.trace + s.tuning.drain_timeout * 1000000);
      } in
      let h' : Ends called s' = Ends-Quiet (still refl) h in
      if_ind (Ends called) s.connection (λ _. pump-Ends f s' w h')
        (λ _. react-Ends 3 f drain_complete s' w (complete_rank s.state) h')

  pub open_connection-Ends :
      (f : Next) (s : ForkSession)
      → Well called 3 f
      → Ends called s
      → Ends called (open_connection env f s)
  unfolding open_connection
  open_connection-Ends f s w h =
      let made = env.connects s.trace in
      let s' : ForkSession =
        record (log (connected s.params.endpoint (s.tuning.coalesce_max_bytes * 4) made) s) {
          connection = made;
        } in
      let failed : ForkSession = (if s'.reconnecting then s' else emit connect_failed [] s') in
      let h' : Ends called s' = Ends-Quiet (still refl) h in
      let told : Ends called failed =
        if_ind (Ends called) s'.reconnecting (λ _. h') (λ _. Ends-Quiet (still refl) h') in
      if_ind (Ends called) made (λ _. h')
        (λ _. react-Ends 3 f ws_error failed w (error_rank failed.state) told)

  close_down-Ends :
      (f : Next) (s : ForkSession)
      → Well called 2 f
      → Ends called s
      → Ends called (close_down env f s)
  unfolding close_down
  close_down-Ends f s w h =
      if_ind (Ends called) s.connection (λ _. Ends-Quiet (still refl) h)
        (λ _. react-Ends 2 f close_complete s w (closed_rank s.state) h)

  greeted-Ends :
      (f : Next) (s : ForkSession)
      → Well called 3 f
      → Ends called s
      → Ends called (greeted env library f s)
  unfolding greeted
  greeted-Ends f s w h =
      let g = greet env library s in
      let s' : ForkSession =
        (if g.endpoint_changed
          then record g { endpoint_changed = false; reconnecting = false; dropped_since_resume = 0 }
          else g) in
      let met : Ends called g = Ends-Quiet (greet-Quiet env library s) h in
      let changed : Ends called s' =
        if_ind (Ends called) g.endpoint_changed (λ _. Ends-Quiet (still refl) met) (λ _. met) in
      let known : Ends called (record s' { disconnected_at = none }) =
        Ends-Quiet (still refl) changed in
      pump-Ends f (flush_pending_texts env (record s' { disconnected_at = none })) w
        (Ends-Quiet (flush_pending_texts-Quiet env (record s' { disconnected_at = none })) known)

  say_hello-Ends :
      (f : Next) (hello : Option Text) (s : ForkSession)
      → Well called 4 f
      → Ends called s
      → Ends called (say_hello env library f hello s)
  unfolding say_hello
  say_hello-Ends f none s w h =
      react-Ends 4 f teardown (emit error (codes "invalid fork parameters for hello") s) w
        (teardown_rank s.state) (Ends-Quiet (still refl) h)
  say_hello-Ends f (some hello) s w h =
      let (taken, offered) = connection_text env hello s in
      let s' : ForkSession = (if s.connection then offered else s) in
      let h' : Ends called s' =
        if_ind (Ends called) s.connection (λ _. Ends-Quiet (still refl) h) (λ _. h) in
      let told = emit error (codes "hello could not be sent") s' in
      if_ind (Ends called) (s.connection && taken)
        (λ _. greeted-Ends f s' (λ a t l. w a t (higher l)) h')
        (λ _.
          react-Ends 4 f ws_error told w (higher (error_rank told.state))
            (Ends-Quiet (still refl) h'))
    where
      higher : {x : ℕ} → x < 3 → x < 4
      higher l = omega arith

  -- What is owed for any other action than the last is that the session is as it should be.
  apply_one-Ends :
      (f : Next) (a : SessionAction) (s : ForkSession)
      → Well called (rank a) f
      → Owes called a s
      → Ends called (apply_one env library f a s)
  unfolding apply_one
  apply_one-Ends f notify_connected s w o =
      say_hello-Ends f (hello_of env library (record s { drawn = 0 })) (record s { drawn = 0 }) w
        (record { told = o.told })
  apply_one-Ends f schedule_retry s w o =
      Ends-Quiet (retry_later-Quiet env (emit reconnecting [] (record s { reconnecting = true })))
        (record { told = o.told })
  apply_one-Ends f begin_connect s w o = open_connection-Ends f s w (record { told = o.told })
  apply_one-Ends f begin_drain s w o = drain_out-Ends f s w (record { told = o.told })
  apply_one-Ends f begin_close s w o = close_down-Ends f s w (record { told = o.told })
  apply_one-Ends f abandon_socket s w o =
      Ends-Quiet (close_connection-Quiet s) (record { told = o.told })
  apply_one-Ends f finalize s w o = finish-Ends s o
  apply_one-Ends f no_action s w o = record { told = o.told }

  apply_within-Well : (n : ℕ) → Well called (suc n) (apply_within env library n)
  unfolding apply_within
  apply_within-Well zero a s l o = absurd (rank-positive a (omega arith))
  apply_within-Well (suc n) a s l o =
      apply_one-Ends (apply_within env library n) a s
        (λ b t k o'. apply_within-Well n b t (omega arith) o') o

  pub apply-Well : Well called 5 (apply env library)
  unfolding apply
  apply-Well = apply_within-Well 4
