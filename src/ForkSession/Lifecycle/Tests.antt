-- ===== src/ForkSession/Lifecycle/Tests.antt =====
-- Runs of the life of a session in core/src/fork_session.cpp, over a JSON library that writes nothing.
use mod_audio_fork.Common.{
  ◌≡◌, refl, subst, true, false, Option, none, some, List, [], ◌∷◌, ◌&&◌, Text, arith,
}
use mod_audio_fork.SlabQueue
use mod_audio_fork.JitterBuffer
use mod_audio_fork.JitterBuffer.Marks
use mod_audio_fork.SessionState.{begin_drain}
use mod_audio_fork.Protocol.{JsonLibrary}
use mod_audio_fork.ForkSession.{ForkSession, Playback}
use mod_audio_fork.ForkSession.Samples.{ring, params, session, playback, pool, environment}
use mod_audio_fork.ForkSession.Lifecycle.{apply_within, apply, finish}
use mod_audio_fork.ForkSession.Lifecycle.Fuel.{apply-within}
use mod_audio_fork.ForkSession.Lifecycle.Quiet.{stops}
use mod_audio_fork.ForkSession.Lifecycle.Ends.{is_dead, one_if}
use mod_audio_fork.ForkSession.Lifecycle.Runs.{
  Move, stopped, task_run, ticked, opened, lost, moves, started,
}
use mod_audio_fork.ForkSession.Lifecycle.Runs.Once.{moves_end_once}
use mod_audio_fork.ForkSession.Lifecycle.Finish.{Leases, Finished, finish-Finished, finishes}

abbrev library : JsonLibrary Text
library = record {
  parse = λ text. some text;
  dump = λ j. j;
  string = λ text. text;
  number = λ n. n ∷ [];
  object = λ fs. [];
  set = λ k v j. j;
  is_object = λ j. false;
  find = λ k j. none;
  as_string = λ j. some j;
  as_unsigned = λ j. none;
}

apply-within_example :
    apply_within environment library 7 begin_drain session
    ≡ apply environment library begin_drain session
apply-within_example = apply-within environment library 7 begin_drain session (omega arith)

abbrev owned : ForkSession
owned = record session { on_finished = true }

silence-IsValid : Marks.IsValid pool playback.buffer
silence-IsValid = omega arith

owned-Leases : Leases owned
owned-Leases = record {
  buffer = omega arith;
  playback = λ b e. subst of_playback e silence-IsValid;
  apart = omega arith;
}
  where
    of_playback : Option Playback → Type 0
    of_playback none = Unit {0}
    of_playback (some b) = Marks.IsValid pool b.buffer

finish-Finished_example : Finished owned (finish owned)
finish-Finished_example = finish-Finished owned owned-Leases

finished_once : finishes (finish owned).trace ≡ 1
unfolding finish JitterBuffer.clear SlabQueue.clear
finished_once = refl

-- A call: the connection opens, the owner stops the fork, the shard drains it, the server closes.
abbrev life : List Move
life = opened ∷ (stopped ∷ (task_run ∷ (ticked ∷ (lost false ∷ []))))

abbrev lived : ForkSession
lived =
    moves environment library (λ n. []) life
      (started environment library true params session.tuning pool ring (some playback))

moves_end_once_example :
    (stops lived.trace ≡ one_if (is_dead lived.state))
    × (finishes lived.trace ≡ one_if (is_dead lived.state && true))
moves_end_once_example =
    moves_end_once environment library (λ n. []) true params session.tuning pool ring
      (some playback) life
