-- ===== src/SessionState/Linear.antt =====
-- The compare-exchange loop of core/include/audiofork/session_state.hpp against calls made one
-- after another.
use mod_audio_fork.Common.{◌≡◌, refl, Bool, List, [], ◌∷◌, map, arith}
use mod_audio_fork.SessionState.{
  SessionState, SessionEvent, connecting, enter_loop, attempt, on_event,
}
use mod_audio_fork.SessionState.Threads.{
  Log, System, call, exchange, leave, Reach, start, later, logged,
}

-- Calls one after another from a new machine, the newest first.
unfoldable pub run_events : List SessionEvent → Log × SessionState
unfolding on_event
run_events [] = ([], connecting)
run_events (e ∷ es) =
    let (log, state) = run_events es in let (r, state') = on_event state e in ((e, r) ∷ log, state')

abbrev pub events : Log → List SessionEvent
events = map (λ c. c.0)

abbrev IsLinear : Log → SessionState → Type 0
IsLinear log state = run_events (events log) ≡ (log, state)

enter_loop-IsLinear :
    (e : SessionEvent) (state : SessionState) (log : Log)
    → IsLinear log state
    → IsLinear (logged (enter_loop e state) log) state
unfolding enter_loop run_events
enter_loop-IsLinear e state log h = ground arith

attempt-IsLinear :
    (spurious : Bool) (e : SessionEvent) (current state : SessionState) (log : Log)
    → IsLinear log state
    → let (p, state') = attempt spurious e current state in IsLinear (logged p log) state'
unfolding attempt run_events
attempt-IsLinear spurious e current state log h = ground arith

-- In every interleaving the calls that have taken effect, in the order in which they did, returned
-- what they return when made one after another, and the shared state is the one this leaves.
pub Reach-run_events : {s : System} → Reach s → run_events (events s.log) ≡ (s.log, s.state)
unfolding run_events
Reach-run_events start = refl
Reach-run_events (later {s = s} r (call i e h)) =
    enter_loop-IsLinear e s.state s.log (Reach-run_events r)
Reach-run_events (later {s = s} r (exchange i spurious e current h)) =
    attempt-IsLinear spurious e current s.state s.log (Reach-run_events r)
Reach-run_events (later r (leave i e x h)) = Reach-run_events r
