-- ===== src/SessionState/Tests.antt =====
-- Runs of core/include/audiofork/session_state.hpp: two threads race to tear a fork down.
use mod_audio_fork.Common.{◌≡◌, refl, false, [], ◌∷◌}
use mod_audio_fork.SessionState.{connecting, closing, dead, teardown, close_complete, attempt}
use mod_audio_fork.SessionState.Threads.{System, call, exchange, leave, Reach, start, later}
use mod_audio_fork.SessionState.Linear.{run_events, Reach-run_events}
use mod_audio_fork.SessionState.Lifecycle.{finalized, finalize_once}

-- Both threads see `connecting`; thread 0 wins the exchange, thread 1 goes round its loop and is
-- told to do nothing, and thread 0 then completes the close.
abbrev raced : (s : System) × Reach s
unfolding attempt
raced = (
  _,
  later
      (later
        (later
          (later
            (later (later (later start (call 0 teardown refl)) (call 1 teardown refl))
              (exchange 0 false teardown connecting refl))
            (exchange 1 false teardown connecting refl))
          (leave 0 teardown _ refl))
        (call 0 close_complete refl))
      (exchange 0 false close_complete closing refl),
)

raced_log : raced.0.state ≡ dead
unfolding raced
raced_log = refl

Reach-run_events_example :
    run_events (close_complete ∷ teardown ∷ teardown ∷ []) ≡ (raced.0.log, dead)
unfolding raced
Reach-run_events_example = Reach-run_events raced.1

finalize_once_example : finalized raced.0.log ≡ 1
unfolding raced
finalize_once_example = finalize_once raced.1
