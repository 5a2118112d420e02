-- ===== src/SessionState/Lifecycle.antt =====
-- What the table of core/include/audiofork/session_state.hpp makes of a fork's life, in every
-- interleaving of the threads that deliver events.
use mod_audio_fork.Common.{
  ℕ, ◌+◌, ◌≡◌, ◌≢◌, ◌↔◌, ◌⊎◌, refl, Bool, true, false, List, [], ◌∷◌, ◌||◌, if◌then◌else◌, arith,
}
use mod_audio_fork.SessionState.{
  SessionState, SessionEvent, SessionAction, connecting, active, reconnecting, dead, teardown,
  drain_complete, close_complete, ws_connected, ws_error, finalize, abandon_socket,
  session_transition_for, on_event, enter_loop, attempt, returned, looping,
}
use mod_audio_fork.SessionState.Threads.{Log, System, Reach}
use mod_audio_fork.SessionState.Linear.{run_events, events, Reach-run_events}

abbrev pub is_finalize : SessionAction → Bool
is_finalize finalize = true
is_finalize _ = false

-- How many calls were told to finalize.
abbrev pub finalized : Log → ℕ
finalized [] = 0
finalized ((e, r) ∷ log) = finalized log + (if is_finalize r.action then 1 else 0)

abbrev pub is_dead : SessionState → Bool
is_dead dead = true
is_dead _ = false

abbrev pub is_teardown : SessionEvent → Bool
is_teardown teardown = true
is_teardown _ = false

abbrev pub torn_down : Log → Bool
torn_down [] = false
torn_down ((e, r) ∷ log) = is_teardown e || torn_down log

-- The fork takes no more audio or text.
abbrev pub is_ending : SessionState → Bool
is_ending connecting = false
is_ending active = false
is_ending reconnecting = false
is_ending _ = true

run_events-finalized :
    (es : List SessionEvent)
    → let (log, state) = run_events es in finalized log ≡ (if is_dead state then 1 else 0)
unfolding run_events session_transition_for
run_events-finalized [] = refl
run_events-finalized (e ∷ es) = ground (arith, run_events-finalized es)

run_events-torn_down :
    (es : List SessionEvent)
    → let (log, state) = run_events es in torn_down log ≡ true → is_ending state ≡ true
unfolding run_events session_transition_for
run_events-torn_down [] h = h
run_events-torn_down (e ∷ es) h = ground (arith, run_events-torn_down es)

-- However many threads race, at most one call is ever told to finalize; one has been exactly when
-- the machine is dead.
pub finalize_once : {s : System} → Reach s → finalized s.log ≡ (if is_dead s.state then 1 else 0)
finalize_once {s} r = rw (Reach-run_events r) at (run_events-finalized (events s.log))

-- Once a teardown has taken effect, no interleaving brings the fork back to connecting, active or
-- reconnecting.
pub teardown_is_final : {s : System} → Reach s → torn_down s.log ≡ true → is_ending s.state ≡ true
teardown_is_final {s} r = rw (Reach-run_events r) at (run_events-torn_down (events s.log))

-- Events delivered one after another, oldest first.
abbrev pub deliver : SessionState → List SessionEvent → SessionState
deliver s [] = s
deliver s (e ∷ es) = deliver (session_transition_for s e).next es

-- From every state, a teardown followed by the end of the drain and of the close leads to dead, and
-- so does a teardown followed by two socket errors.
pub teardown_reaches_dead :
    (s : SessionState)
    → (deliver s (teardown ∷ drain_complete ∷ close_complete ∷ []) ≡ dead)
      × (deliver s (teardown ∷ ws_error ∷ ws_error ∷ []) ≡ dead)
unfolding session_transition_for
teardown_reaches_dead connecting = (refl, refl)
teardown_reaches_dead _ = (refl, refl)

-- A socket is abandoned exactly when it connects in a state other than connecting, and that leaves
-- the state as it was.
pub abandon_socket_iff :
    (s : SessionState) (e : SessionEvent)
    → (((session_transition_for s e).action ≡ abandon_socket)
        ↔ ((e ≡ ws_connected) × (s ≢ connecting)))
      × ((session_transition_for s e).action ≡ abandon_socket
          → (session_transition_for s e).next ≡ s)
unfolding session_transition_for
abandon_socket_iff s e = (((λ h. (ground arith, ground arith)), (λ h. ground arith)), ground arith)

-- A call of `OnEvent` that no other thread disturbs returns after at most one compare-exchange that
-- does not fail spuriously, with the result and the state of the table.
pub on_event_undisturbed :
    (s : SessionState) (e : SessionEvent)
    → ((enter_loop e s ≡ returned e (on_event s e).0) × ((on_event s e).1 ≡ s))
      ⊎ ((enter_loop e s ≡ looping e s)
          × (attempt false e s s ≡ (returned e (on_event s e).0, (on_event s e).1)))
unfolding enter_loop attempt on_event
on_event_undisturbed s e = ground arith
