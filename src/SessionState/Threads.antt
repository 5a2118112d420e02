-- ===== src/SessionState/Threads.antt =====
-- SessionStateMachine of core/include/audiofork/session_state.hpp under any number of threads,
-- interleaved at the accesses to the shared atomic.
use mod_audio_fork.Common.{ℕ, ◌≡◌, Bool, List, [], ◌∷◌, ◌==◌, if◌then◌else◌}
use mod_audio_fork.SessionState.{
  SessionState, SessionEvent, Result, Pc, outside, looping, returned, connecting, enter_loop,
  attempt,
}

abbrev pub Log : Type 0
Log = List (SessionEvent × Result)

-- The shared state, where each thread stands, and the calls that have taken effect, newest first.
pub record System : Type 0 where
  pub state : SessionState
  pub pc : ℕ → Pc
  pub log : Log

abbrev pub update : (ℕ → Pc) → ℕ → Pc → ℕ → Pc
update f i p j = if i == j then p else f j

abbrev pub logged : Pc → Log → Log
logged outside log = log
logged (looping e current) log = log
logged (returned e r) log = (e, r) ∷ log

abbrev pub arrive : System → ℕ → Pc × SessionState → System
arrive s i (p, state) = record { state = state; pc = update s.pc i p; log = logged p s.log }

pub data Step (s : System) : System → Type 0 where
  call :
      (i : ℕ) (e : SessionEvent)
      → s.pc i ≡ outside
      → Step s (arrive s i (enter_loop e s.state, s.state))
  exchange :
      (i : ℕ) (spurious : Bool) (e : SessionEvent) (current : SessionState)
      → s.pc i ≡ looping e current
      → Step s (arrive s i (attempt spurious e current s.state))
  leave :
      (i : ℕ) (e : SessionEvent) (r : Result)
      → s.pc i ≡ returned e r
      → Step s (record s { pc = update s.pc i outside })

abbrev pub init : System
init = record { state = connecting; pc = λ _. outside; log = [] }

pub data Reach : System → Type 0 where
  start : Reach init
  later : {s t : System} → Reach s → Step s t → Reach t
