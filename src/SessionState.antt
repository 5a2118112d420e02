-- ===== src/SessionState.antt =====
-- core/include/audiofork/session_state.hpp: the states of a fork, the transition table, and the
-- machine whose `OnEvent` any thread may call. A call is cut at its accesses to the shared
-- atomic: `enter_loop` and `attempt` are the code from one access to the next.
pub mod Threads
pub mod Lifecycle
pub mod Linear
mod Tests
use mathlib.Core.Logic.{ite}
use mod_audio_fork.Common.{Bool, if◌then◌else◌}

pub data SessionState : Type 0 where
  connecting active reconnecting draining closing dead : SessionState

pub data SessionEvent : Type 0 where
  ws_connected ws_error teardown retry_timer_fired drain_complete close_complete : SessionEvent

pub data SessionAction : Type 0 where
  no_action notify_connected schedule_retry begin_connect begin_drain begin_close : SessionAction
  abandon_socket finalize : SessionAction

pub record SessionTransition : Type 0 where
  pub next : SessionState
  pub action : SessionAction

pub SessionState-discrete : Discrete SessionState
SessionState-discrete = hlevel

abbrev pub to : SessionState → SessionAction → SessionTransition
to s a = record { next = s; action = a }

-- The table, a row of clauses for each state.
unfoldable pub session_transition_for : SessionState → SessionEvent → SessionTransition
session_transition_for connecting ws_connected = to active notify_connected
session_transition_for connecting ws_error = to reconnecting schedule_retry
session_transition_for connecting teardown = to closing begin_close
session_transition_for connecting retry_timer_fired = to connecting no_action
session_transition_for connecting drain_complete = to connecting no_action
session_transition_for connecting close_complete = to connecting no_action
session_transition_for active ws_connected = to active abandon_socket
session_transition_for active ws_error = to reconnecting schedule_retry
session_transition_for active teardown = to draining begin_drain
session_transition_for active retry_timer_fired = to active no_action
session_transition_for active drain_complete = to active no_action
session_transition_for active close_complete = to active no_action
session_transition_for reconnecting ws_connected = to reconnecting abandon_socket
session_transition_for reconnecting teardown = to dead finalize
session_transition_for reconnecting retry_timer_fired = to connecting begin_connect
session_transition_for reconnecting ws_error = to reconnecting no_action
session_transition_for reconnecting drain_complete = to reconnecting no_action
session_transition_for reconnecting close_complete = to reconnecting no_action
session_transition_for draining ws_connected = to draining abandon_socket
session_transition_for draining ws_error = to closing begin_close
session_transition_for draining drain_complete = to closing begin_close
session_transition_for draining teardown = to draining no_action
session_transition_for draining retry_timer_fired = to draining no_action
session_transition_for draining close_complete = to draining no_action
session_transition_for closing ws_connected = to closing abandon_socket
session_transition_for closing ws_error = to dead finalize
session_transition_for closing close_complete = to dead finalize
session_transition_for closing teardown = to closing no_action
session_transition_for closing retry_timer_fired = to closing no_action
session_transition_for closing drain_complete = to closing no_action
session_transition_for dead ws_connected = to dead abandon_socket
session_transition_for dead ws_error = to dead no_action
session_transition_for dead teardown = to dead no_action
session_transition_for dead retry_timer_fired = to dead no_action
session_transition_for dead drain_complete = to dead no_action
session_transition_for dead close_complete = to dead no_action

pub record Result : Type 0 where
  pub previous : SessionState
  pub current : SessionState
  pub action : SessionAction

-- Where a thread stands in `OnEvent`: out of it, in the loop with the value of `current` that it
-- saw last, or back from it.
pub data Pc : Type 0 where
  outside : Pc
  looping : (e : SessionEvent) (current : SessionState) → Pc
  returned : (e : SessionEvent) → Result → Pc

-- The loop's body up to the compare-exchange: it returns where the table stays put.
unfoldable pub enter_loop : SessionEvent → SessionState → Pc
unfolding SessionState-discrete session_transition_for
enter_loop e current =
    let transition = session_transition_for current e in
    ite (SessionState-discrete transition.next current)
      (returned e (record { previous = current; current = current; action = transition.action }))
      (looping e current)

-- `compare_exchange_weak(current, transition.next)` over the shared state: it may fail spuriously,
-- and a failure loads the state into `current` and goes round the loop.
unfoldable pub attempt : Bool → SessionEvent → (current state : SessionState) → Pc × SessionState
unfolding enter_loop SessionState-discrete session_transition_for
attempt spurious e current state =
    let transition = session_transition_for current e in
    ite (SessionState-discrete state current)
      (if spurious then (enter_loop e state, state) else (
        returned e
            (record { previous = current; current = transition.next; action = transition.action }),
        transition.next,
      ))
      (enter_loop e state, state)

-- `OnEvent` with no other thread about: the result and the state that it leaves.
unfoldable pub on_event : SessionState → SessionEvent → Result × SessionState
unfolding session_transition_for
on_event state e =
    let transition = session_transition_for state e in
    (
      record { previous = state; current = transition.next; action = transition.action },
      transition.next,
    )
