-- ===== src/WsClient/Loop.antt =====
-- The event loop of net/src/ws_client.cpp: the tasks that other threads post and the timers. What a
-- task does to the loop is what it asks of it.
pub mod Once
use mod_audio_fork.Common.{
  ℕ, ◌+◌, ◌≤◌, Bool, true, false, List, [], ◌∷◌, ◌++◌, if◌then◌else◌, ltb, ℤ, pos, max_ℤ,
}

pub record PendingTimer (T : Type 0) : Type 0 where
  pub deadline : ℕ
  pub task : T

-- `Post`, and `ScheduleTimer` with what the clock says then.
pub data Ask (T : Type 0) : Type 0 where
  post : (task : T) → Ask T
  schedule_timer : (now delay : ℕ) (task : T) → Ask T

-- A timer that ran, and when.
pub record Fired (T : Type 0) : Type 0 where
  pub timer : PendingTimer T
  pub at : ℕ

-- `asked`, `scheduled`, `ran` and `fired` are the tasks that were posted, the timers that were
-- scheduled and those of both that ran, oldest first; `ticks` counts the calls of the tick.
pub record WsEventLoop (T : Type 0) : Type 0 where
  pub posted : List T
  pub timers : List (PendingTimer T)
  pub stop : Bool
  pub asked : List T
  pub scheduled : List (PendingTimer T)
  pub ran : List T
  pub fired : List (Fired T)
  pub ticks : ℕ

-- The interval that `SetTick` keeps.
pub tick_interval : ℤ → ℤ
tick_interval interval = max_ℤ interval (pos 1)

-- One thing that happens to the loop; `Run` is rounds of `serviced`, which end by `Stop`.
pub data Move (T : Type 0) : Type 0 where
  asked_by : Ask T → Move T
  wait_cancelled : Move T
  ticked : (now : ℕ) (tick : List (Ask T)) → Move T
  serviced : (now : ℕ) → Move T
  stopped : Move T

module _ {T : Type 0} where
  abbrev pub with_posted : T → WsEventLoop T → WsEventLoop T
  with_posted task l = record l { posted = l.posted ++ task ∷ []; asked = l.asked ++ task ∷ [] }

  abbrev pub with_timer : PendingTimer T → WsEventLoop T → WsEventLoop T
  with_timer timer l = record l {
    timers = l.timers ++ timer ∷ [];
    scheduled = l.scheduled ++ timer ∷ [];
  }

  abbrev pub ask : Ask T → WsEventLoop T → WsEventLoop T
  ask (post task) l = with_posted task l
  ask (schedule_timer now delay task) l =
      with_timer (record { deadline = now + delay; task = task }) l

  unfoldable pub ask_all : List (Ask T) → WsEventLoop T → WsEventLoop T
  ask_all [] l = l
  ask_all (a ∷ as') l = ask_all as' (ask a l)

  -- The tasks taken from the loop, run one after another.
  unfoldable pub run_tasks : (T → List (Ask T)) → List T → WsEventLoop T → WsEventLoop T
  unfolding ask_all
  run_tasks asks [] l = l
  run_tasks asks (t ∷ ts) l =
      run_tasks asks ts (ask_all (asks t) (record l { ran = l.ran ++ t ∷ [] }))

  unfoldable pub drain_posted : (T → List (Ask T)) → WsEventLoop T → WsEventLoop T
  unfolding run_tasks
  drain_posted asks l = run_tasks asks l.posted (record l { posted = [] })

  -- The two parts of `std::stable_partition`: what waits, and what is due.
  unfoldable pub waiting : (now : ℕ) → List (PendingTimer T) → List (PendingTimer T)
  waiting now [] = []
  waiting now (t ∷ ts) = if ltb now t.deadline then t ∷ waiting now ts else waiting now ts

  unfoldable pub due : (now : ℕ) → List (PendingTimer T) → List (PendingTimer T)
  due now [] = []
  due now (t ∷ ts) = if ltb now t.deadline then due now ts else t ∷ due now ts

  unfoldable pub run_timers :
      (T → List (Ask T)) → (now : ℕ) → List (PendingTimer T) → WsEventLoop T → WsEventLoop T
  unfolding ask_all
  run_timers asks now [] l = l
  run_timers asks now (t ∷ ts) l =
      run_timers asks now ts (
        ask_all (asks t.task) (record l { fired = l.fired ++ record { timer = t; at = now } ∷ [] }))

  unfoldable pub drain_due_timers : (T → List (Ask T)) → (now : ℕ) → WsEventLoop T → WsEventLoop T
  unfolding waiting due run_timers
  drain_due_timers asks now l =
      run_timers asks now (due now l.timers) (record l { timers = waiting now l.timers })

  -- `OnTick`, whose own work is what it asks.
  unfoldable pub on_tick :
      (T → List (Ask T)) → (now : ℕ) → (tick : List (Ask T)) → WsEventLoop T → WsEventLoop T
  unfolding drain_due_timers ask_all
  on_tick asks now tick l =
      let l' = drain_due_timers asks now l in ask_all tick (record l' { ticks = l'.ticks + 1 })

  unfoldable pub move : (T → List (Ask T)) → Move T → WsEventLoop T → WsEventLoop T
  unfolding drain_posted drain_due_timers on_tick
  move asks (asked_by a) l = ask a l
  move asks wait_cancelled l = drain_posted asks l
  move asks (ticked now tick) l = on_tick asks now tick l
  move asks (serviced now) l = if l.stop then l else drain_due_timers asks now (drain_posted asks l)
  move asks stopped l = record l { stop = true }

  unfoldable pub moves : (T → List (Ask T)) → List (Move T) → WsEventLoop T → WsEventLoop T
  unfolding move
  moves asks [] l = l
  moves asks (m ∷ ms) l = moves asks ms (move asks m l)
