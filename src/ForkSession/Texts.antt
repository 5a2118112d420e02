-- ===== src/ForkSession/Texts.antt =====
-- The texts of core/src/fork_session.cpp on their way to the server: queued until the handshake.
pub mod Account
pub mod Bound
mod Tests
use mod_audio_fork.Common.{
  ℕ, ◌-◌, ◌==◌, not, leb, Bool, true, false, ◌||◌, ◌&&◌, List, [], ◌∷◌, ◌++◌, if◌then◌else◌, length,
  drop, add64, Text,
}
use mod_audio_fork.SessionState.{SessionState, connecting, active, reconnecting}
use mod_audio_fork.ForkSession.{ForkSession}
use mod_audio_fork.ForkSession.Ports.{sent_text, Environment}
use mod_audio_fork.ForkSession.Media.{is_running}
use mod_audio_fork.ForkSession.Outbound.{log}

abbrev pub max_pending_texts : ℕ
max_pending_texts = 64

abbrev pub drop_texts : ℕ → ForkSession → ForkSession
drop_texts n s = record s { pending_texts_dropped = add64 s.pending_texts_dropped n }

unfoldable pub queue_text : Text → ForkSession → ForkSession
queue_text text s =
    let s' : ForkSession =
      (if leb max_pending_texts (length s.pending_texts)
        then record (drop_texts 1 s) { pending_texts = drop 1 s.pending_texts }
        else s) in
    record s' { pending_texts = s'.pending_texts ++ (text ∷ []) }

abbrev pub is_active : SessionState → Bool
is_active active = true
is_active _ = false

module _ (env : Environment) where
  -- `connection_->SendText`.
  abbrev pub connection_text : Text → ForkSession → Bool × ForkSession
  connection_text text s =
      let taken = env.takes_text s.trace text in (taken, log (sent_text text taken) s)

  unfoldable pub deliver_text : Text → ForkSession → ForkSession
  unfolding queue_text
  deliver_text text s =
      if not (is_running s.state)
      then drop_texts 1 s
      else if not (is_active s.state && s.connection)
      then queue_text text s
      else let (taken, s') = connection_text text s in if taken then s' else drop_texts 1 s'

  unfoldable pub flush_texts : List Text → ForkSession → ForkSession
  flush_texts [] s = s
  flush_texts (text ∷ texts) s =
      let (taken, s') = connection_text text s in
      let sent = flush_texts texts (if taken then s' else drop_texts 1 s') in
      let lost = flush_texts texts (drop_texts 1 s) in if s.connection then sent else lost

  unfoldable pub flush_pending_texts : ForkSession → ForkSession
  unfolding flush_texts
  flush_pending_texts s = record (flush_texts s.pending_texts s) { pending_texts = [] }
