-- ===== src/ForkSession/Lifecycle/Quiet/Network.antt =====
-- What core/src/fork_session.cpp sends and writes to its connection, which does not move a session's
-- state.
use mod_audio_fork.Common.{
  ℕ, zero, suc, ◌+◌, ◌-◌, ◌==◌, not, ltb, leb, refl, ◌&&◌, List, [], ◌∷◌, ◌++◌, if◌then◌else◌,
  if_ind, length, Text,
}
use mod_audio_fork.SlabQueue
use mod_audio_fork.Protocol.{JsonLibrary}
use mod_audio_fork.ForkSession.{ForkSession}
use mod_audio_fork.ForkSession.Ports.{Environment, Endpoint}
use mod_audio_fork.ForkSession.Media.{is_running}
use mod_audio_fork.ForkSession.Outbound.{
  flush_round, flush_loop, flush_to_connection, send_binary, sent_chunk,
}
use mod_audio_fork.ForkSession.Texts.{
  max_pending_texts, is_active, drop_texts, connection_text, queue_text, deliver_text, flush_texts,
  flush_pending_texts,
}
use mod_audio_fork.ForkSession.Lifecycle.{say_goodbye, greet, apply_modify}
use mod_audio_fork.ForkSession.Lifecycle.Quiet.{Quiet, still, and_then}

module _ (env : Environment) where
  flush_round-Quiet :
      (loop : ℕ → ForkSession → ForkSession) (sent : ℕ) (bytes : List ℕ) (s : ForkSession)
      → ((n : ℕ) (t : ForkSession) → Quiet t (loop n t))
      → Quiet s (flush_round env loop sent bytes s)
  unfolding flush_round
  flush_round-Quiet loop sent [] s h = still refl
  flush_round-Quiet loop sent (b ∷ bs) s h =
      let (taken, s') = send_binary env (b ∷ bs) s in
      if_ind (Quiet s) taken (λ _. still (h (sent + length (b ∷ bs)) (sent_chunk (b ∷ bs) s')).same)
        (λ _. still refl)

  flush_loop-Quiet : (fuel sent : ℕ) (s : ForkSession) → Quiet s (flush_loop env fuel sent s)
  unfolding flush_loop
  flush_loop-Quiet zero sent s = still refl
  flush_loop-Quiet (suc fuel) sent s =
      let max_bytes = s.tuning.coalesce_max_bytes - sent in
      if_ind (Quiet s) (not (s.buffer.queue.size == 0) && ltb sent s.tuning.coalesce_max_bytes)
        (λ _.
          flush_round-Quiet (flush_loop env fuel) sent (SlabQueue.peek max_bytes s.buffer.queue) s
            (flush_loop-Quiet fuel))
        (λ _. still refl)

  pub flush_to_connection-Quiet : (s : ForkSession) → Quiet s (flush_to_connection env s)
  unfolding flush_to_connection
  flush_to_connection-Quiet s =
      if_ind (Quiet s) s.connection (λ _. flush_loop-Quiet (suc s.tuning.coalesce_max_bytes) 0 s)
        (λ _. still refl)

  queue_text-Quiet : (text : Text) (s : ForkSession) → Quiet s (queue_text text s)
  unfolding queue_text
  queue_text-Quiet text s =
      if_ind
        (λ (t : ForkSession). Quiet s (record t { pending_texts = t.pending_texts ++ (text ∷ []) }))
        (leb max_pending_texts (length s.pending_texts)) (λ _. still refl) (λ _. still refl)

  pub deliver_text-Quiet : (text : Text) (s : ForkSession) → Quiet s (deliver_text env text s)
  unfolding deliver_text
  deliver_text-Quiet text s =
      let (taken, s') = connection_text env text s in
      if_ind (Quiet s) (not (is_running s.state)) (λ _. still refl)
        (λ _.
          if_ind (Quiet s) (not (is_active s.state && s.connection)) (λ _. queue_text-Quiet text s)
            (λ _. if_ind (Quiet s) taken (λ _. still refl) (λ _. still refl)))

  flush_texts-Quiet : (texts : List Text) (s : ForkSession) → Quiet s (flush_texts env texts s)
  unfolding flush_texts
  flush_texts-Quiet [] s = still refl
  flush_texts-Quiet (text ∷ texts) s =
      let (taken, s') = connection_text env text s in
      let next : ForkSession = (if taken then s' else drop_texts 1 s') in
      let offered : Quiet s next = if_ind (Quiet s) taken (λ _. still refl) (λ _. still refl) in
      if_ind (Quiet s) s.connection (λ _. and_then offered (flush_texts-Quiet texts next))
        (λ _. still (flush_texts-Quiet texts (drop_texts 1 s)).same)

  pub flush_pending_texts-Quiet : (s : ForkSession) → Quiet s (flush_pending_texts env s)
  unfolding flush_pending_texts
  flush_pending_texts-Quiet s = still (flush_texts-Quiet s.pending_texts s).same

  module _ {J : Type 0} (library : JsonLibrary J) where
    pub say_goodbye-Quiet : (s : ForkSession) → Quiet s (say_goodbye env library s)
    say_goodbye-Quiet s =
        if_ind (Quiet s) ((s.buffer.queue.size == 0) && not s.bye_sent && s.connection)
          (λ _. still refl) (λ _. still refl)

    pub greet-Quiet : (s : ForkSession) → Quiet s (greet env library s)
    unfolding greet
    greet-Quiet s =
        if_ind (Quiet s) (s.reconnecting && not s.endpoint_changed) (λ _. still refl)
          (λ _. still refl)

    pub apply_modify-Quiet :
        (endpoint : Endpoint) (s : ForkSession) → Quiet s (apply_modify env library endpoint s)
    unfolding apply_modify
    apply_modify-Quiet endpoint s =
        if_ind (Quiet s) (not (is_running s.state)) (λ _. still refl)
          (λ _. if_ind (Quiet s) s.connection (λ _. still refl) (λ _. still refl))
