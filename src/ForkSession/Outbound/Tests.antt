-- ===== src/ForkSession/Outbound/Tests.antt =====
-- Runs of the outbound audio of core/src/fork_session.cpp.
use mod_audio_fork.Common.{ℕ, ◌≡◌, refl, List, [], ◌∷◌, arith}
use mod_audio_fork.SlabPool.{acquire, release}
use mod_audio_fork.SlabQueue
use mod_audio_fork.SendBuffer
use mod_audio_fork.SpscRing
use mod_audio_fork.ForkSession.Samples.{session, environment, ring-IsValid}
use mod_audio_fork.ForkSession.Outbound.{drain_handoff_ring, flush_to_connection}
use mod_audio_fork.ForkSession.Outbound.Loss.{IsValid, buffered, wire}
use mod_audio_fork.ForkSession.Outbound.Drain.{Drained, drain_handoff_ring-Drained}
use mod_audio_fork.ForkSession.Outbound.Flush.{Flushed, flush_to_connection-Flushed}
use mod_audio_fork.ForkSession.Outbound.Account.{
  Move, push, drain, flush, moves, Accounts, moves-Accounts,
}

session-IsValid : IsValid session
session-IsValid = record { buffer = omega arith; ring = ring-IsValid }

drain_handoff_ring-Drained_example : (gone : ℕ) × Drained session gone (drain_handoff_ring session)
drain_handoff_ring-Drained_example = drain_handoff_ring-Drained session session-IsValid

-- The pool has no slab for the last byte: five bytes go, down to the emergency cap.
drained : buffered (drain_handoff_ring session) ≡ 6 ∷ 7 ∷ 8 ∷ 9 ∷ []
unfolding drain_handoff_ring SpscRing.pop SendBuffer.append SendBuffer.set_cap SlabQueue.append
    SlabQueue.consume acquire release
drained = refl

flush_to_connection-Flushed_example :
    Flushed environment 5 session (flush_to_connection environment session)
flush_to_connection-Flushed_example =
    flush_to_connection-Flushed environment session session-IsValid.buffer refl

-- The second chunk has one byte and is refused.
flushed : wire (flush_to_connection environment session).trace ≡ 1 ∷ 2 ∷ 3 ∷ 4 ∷ []
unfolding flush_to_connection SlabQueue.peek SlabQueue.consume release
flushed = refl

abbrev history : List Move
history = push (1 ∷ 2 ∷ []) ∷ flush ∷ push (3 ∷ []) ∷ drain ∷ flush ∷ []

moves-Accounts_example : Accounts 3 session (moves environment session history)
moves-Accounts_example = moves-Accounts environment session history session-IsValid refl
