-- ===== src/WsClient/Loop/Once.antt =====
-- Every task of the event loop of net/src/ws_client.cpp runs once.
use mod_audio_fork.Common.{
  ℕ, ◌+◌, ◌≤◌, ◌≡◌, refl, sym, ap, ◌∙◌, Bool, Bool-cases, inl, inr, List, [], ◌∷◌, ◌++◌, append-nil,
  append_assoc, if◌then◌else◌, if_ind, ltb, arith,
}
use mod_audio_fork.WsClient.Loop.{
  PendingTimer, Ask, post, schedule_timer, Fired, WsEventLoop, ask, ask_all, run_tasks,
  drain_posted, waiting, due, run_timers, drain_due_timers, on_tick, Move, asked_by, wait_cancelled,
  ticked, serviced, stopped, move, moves,
}

module _ {T : Type 0} where
  -- How many timers of a kind there are.
  abbrev pub count : (PendingTimer T → Bool) → List (PendingTimer T) → ℕ
  count p [] = 0
  count p (t ∷ ts) = (if p t then 1 else 0) + count p ts

  count-append :
      (p : PendingTimer T → Bool) (xs ys : List (PendingTimer T))
      → count p (xs ++ ys) ≡ count p xs + count p ys
  count-append p [] ys = omega arith
  count-append p (x ∷ xs) ys = omega (arith, count-append p xs ys)

  abbrev pub timers_of : List (Fired T) → List (PendingTimer T)
  timers_of [] = []
  timers_of (f ∷ fs) = f.timer ∷ timers_of fs

  timers_of-append : (xs ys : List (Fired T)) → timers_of (xs ++ ys) ≡ timers_of xs ++ timers_of ys
  timers_of-append [] ys = refl
  timers_of-append (x ∷ xs) ys = ap (λ ts. x.timer ∷ ts) (timers_of-append xs ys)

  -- None of them ran before its deadline.
  abbrev pub Punctual : List (Fired T) → Type 0
  Punctual [] = Unit
  Punctual (f ∷ fs) = (f.timer.deadline ≤ f.at) × Punctual fs

  Punctual-append : (xs ys : List (Fired T)) → Punctual xs → Punctual ys → Punctual (xs ++ ys)
  Punctual-append [] ys h k = k
  Punctual-append (x ∷ xs) ys h k = (h.0, Punctual-append xs ys h.1 k)

  -- With tasks and timers that were taken from the loop and have not run.
  record Holds (ts : List T) (ds : List (PendingTimer T)) (l : WsEventLoop T) : Type 0 where
    order : l.asked ≡ l.ran ++ (ts ++ l.posted)
    once :
        (p : PendingTimer T → Bool)
        → count p l.scheduled ≡ count p (timers_of l.fired) + (count p ds + count p l.timers)
    punctual : Punctual l.fired

  -- Posted tasks run in the order in which they were posted, each once; each timer that was
  -- scheduled has run once, not before its deadline, or waits.
  pub record RunsOnce (l : WsEventLoop T) : Type 0 where
    pub order : l.asked ≡ l.ran ++ l.posted
    pub once :
        (p : PendingTimer T → Bool)
        → count p l.scheduled ≡ count p (timers_of l.fired) + count p l.timers
    pub punctual : Punctual l.fired

  abbrev Due : (now : ℕ) → List (PendingTimer T) → Type 0
  Due now [] = Unit
  Due now (t ∷ ts) = (t.deadline ≤ now) × Due now ts

  ask-Holds :
      (a : Ask T) {ts : List T} {ds : List (PendingTimer T)} {l : WsEventLoop T}
      → Holds ts ds l
      → Holds ts ds (ask a l)
  ask-Holds (post task) {ts} {ds} {l} h = record {
    order =
        ap (λ xs. xs ++ task ∷ []) h.order
        ∙ append_assoc l.ran (ts ++ l.posted) (task ∷ [])
        ∙ ap (λ xs. l.ran ++ xs) (append_assoc ts l.posted (task ∷ []));
    once = h.once;
    punctual = h.punctual;
  }
  ask-Holds (schedule_timer now delay task) {ts} {ds} {l} h =
      let t : PendingTimer T = record { deadline = now + delay; task = task } in
      record {
        order = h.order;
        once = λ p. omega (
          arith,
          h.once p,
          count-append p l.scheduled (t ∷ []),
          count-append p l.timers (t ∷ []),
        );
        punctual = h.punctual;
      }

  ask_all-Holds :
      (as' : List (Ask T)) {ts : List T} {ds : List (PendingTimer T)} {l : WsEventLoop T}
      → Holds ts ds l
      → Holds ts ds (ask_all as' l)
  unfolding ask_all
  ask_all-Holds [] h = h
  ask_all-Holds (a ∷ as') h = ask_all-Holds as' (ask-Holds a h)

  run_tasks-Holds :
      (asks : T → List (Ask T)) (ts : List T) (l : WsEventLoop T)
      → Holds ts [] l
      → Holds [] [] (run_tasks asks ts l)
  unfolding run_tasks
  run_tasks-Holds asks [] l h = h
  run_tasks-Holds asks (t ∷ ts) l h = run_tasks-Holds asks ts _ (
      ask_all-Holds (asks t) (record {
        order = h.order ∙ sym (append_assoc l.ran (t ∷ []) (ts ++ l.posted));
        once = h.once;
        punctual = h.punctual;
      }))

  run_timers-Holds :
      (asks : T → List (Ask T)) (now : ℕ) (ds : List (PendingTimer T)) (l : WsEventLoop T)
      → Due now ds
      → Holds [] ds l
      → Holds [] [] (run_timers asks now ds l)
  unfolding run_timers
  run_timers-Holds asks now [] l d h = h
  run_timers-Holds asks now (t ∷ ds) l d h =
      let f : Fired T = record { timer = t; at = now } in
      run_timers-Holds asks now ds _ d.1 (
        ask_all-Holds (asks t.task) (record {
          order = h.order;
          once = λ p. omega (
            arith,
            h.once p,
            ap (count p) (timers_of-append l.fired (f ∷ [])),
            count-append p (timers_of l.fired) (t ∷ []),
          );
          punctual = Punctual-append l.fired (f ∷ []) h.punctual (d.0, tt);
        }))

  due-Due : (now : ℕ) (ts : List (PendingTimer T)) → Due now (due now ts)
  unfolding due
  due-Due now [] = tt
  due-Due now (t ∷ ts) = elim (Bool-cases (ltb now t.deadline)) [
    | inl later ↦ rw later (due-Due now ts)
    | inr passed ↦ rw passed (let h : t.deadline ≤ now = ground arith in h, due-Due now ts)
  ]

  parted :
      (p : PendingTimer T → Bool) (now : ℕ) (ts : List (PendingTimer T))
      → count p ts ≡ count p (due now ts) + count p (waiting now ts)
  unfolding due waiting
  parted p now [] = omega arith
  parted p now (t ∷ ts) = elim (Bool-cases (ltb now t.deadline)) [
    | inl later ↦ rw later (omega (arith, parted p now ts))
    | inr passed ↦ rw passed (omega (arith, parted p now ts))
  ]

  begin : {l : WsEventLoop T} → RunsOnce l → Holds [] [] l
  begin h = record { order = h.order; once = λ p. omega (arith, h.once p); punctual = h.punctual }

  end : {l : WsEventLoop T} → Holds [] [] l → RunsOnce l
  end h = record { order = h.order; once = λ p. omega (arith, h.once p); punctual = h.punctual }

  drain_posted-RunsOnce :
      (asks : T → List (Ask T)) (l : WsEventLoop T) → RunsOnce l → RunsOnce (drain_posted asks l)
  unfolding drain_posted
  drain_posted-RunsOnce asks l h = end (
      run_tasks-Holds asks l.posted _ (record {
        order = h.order ∙ ap (λ xs. l.ran ++ xs) (sym (append-nil l.posted));
        once = λ p. omega (arith, h.once p);
        punctual = h.punctual;
      }))

  drain_due_timers-RunsOnce :
      (asks : T → List (Ask T)) (now : ℕ) (l : WsEventLoop T)
      → RunsOnce l
      → RunsOnce (drain_due_timers asks now l)
  unfolding drain_due_timers
  drain_due_timers-RunsOnce asks now l h = end (
      run_timers-Holds asks now (due now l.timers) _ (due-Due now l.timers) (record {
        order = h.order;
        once = λ p. omega (arith, h.once p, parted p now l.timers);
        punctual = h.punctual;
      }))

  move-RunsOnce :
      (asks : T → List (Ask T)) (m : Move T) (l : WsEventLoop T)
      → RunsOnce l
      → RunsOnce (move asks m l)
  unfolding move on_tick
  move-RunsOnce asks (asked_by a) l h = end (ask-Holds a (begin h))
  move-RunsOnce asks wait_cancelled l h = drain_posted-RunsOnce asks l h
  move-RunsOnce asks (ticked now tick) l h =
      let h' = drain_due_timers-RunsOnce asks now l h in
      end (
        ask_all-Holds tick (record {
          order = h'.order;
          once = λ p. omega (arith, h'.once p);
          punctual = h'.punctual;
        }))
  move-RunsOnce asks (serviced now) l h =
      if_ind RunsOnce l.stop (λ _. h)
        (λ _.
          drain_due_timers-RunsOnce asks now (drain_posted asks l) (drain_posted-RunsOnce asks l h))
  move-RunsOnce asks stopped l h = record { order = h.order; once = h.once; punctual = h.punctual }

  -- Whatever is asked of the loop, by its tasks too, and in whatever order it is serviced: posted
  -- tasks run in the order in which they were posted, each once; of the timers, as many of every kind
  -- were scheduled as have run or wait, and none has run before its deadline.
  pub moves-RunsOnce :
      (asks : T → List (Ask T)) (ms : List (Move T)) (l : WsEventLoop T)
      → RunsOnce l
      → RunsOnce (moves asks ms l)
  unfolding moves
  moves-RunsOnce asks [] l h = h
  moves-RunsOnce asks (m ∷ ms) l h =
      moves-RunsOnce asks ms (move asks m l) (move-RunsOnce asks m l h)
