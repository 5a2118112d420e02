-- ===== src/WsClient/Tests.antt =====
-- Runs of a connection of net/src/ws_client.cpp.
use mod_audio_fork.Common.{
  ℕ, ◌==◌, ◌≡◌, refl, if◌then◌else◌, true, false, List, [], ◌∷◌, pos, arith,
}
use mod_audio_fork.WsClient.{
  Outgoing, on_connected, WsConnection, fresh, send_text, send_binary, call, run_calls, Handler,
  handle_lws, client_established, client_writeable, client_closed, run_reasons,
}
use mod_audio_fork.WsClient.Closing.{Reach, start, later, callback, owner, Told, Reach-Told}
use mod_audio_fork.WsClient.Queue.{IsQueue, Reach-IsQueue}
use mod_audio_fork.WsClient.Messages.{fragments, told, fragments_told, Served, serve, serve-Served}
use mod_audio_fork.WsClient.Loop.{
  Ask, post, schedule_timer, WsEventLoop, Move, asked_by, wait_cancelled, ticked, serviced, moves,
}
use mod_audio_fork.WsClient.Loop.Once.{RunsOnce, moves-RunsOnce}

-- The owner greets once it is connected, and does nothing else.
abbrev greets : Handler
greets (on_connected ∷ es) = send_text (1 ∷ 2 ∷ []) ∷ []
greets _ = []

abbrev opened : WsConnection
opened = (handle_lws greets client_established (fresh 4 5000)).0

abbrev sent : WsConnection
sent = call (send_binary (7 ∷ 8 ∷ 9 ∷ [])) opened

abbrev flushed : WsConnection
flushed = (handle_lws greets (client_writeable (pos 2)) sent).0

abbrev gone : WsConnection
gone = (handle_lws greets client_closed flushed).0

-- Three bytes more do not fit beside the two of the greeting.
sent_queue : sent.queued_bytes ≡ 2
unfolding handle_lws call run_calls
sent_queue = refl

gone_erased : gone.erased ≡ true
unfolding handle_lws call run_calls
gone_erased = refl

run : Reach greets (fresh 4 5000) gone
unfolding handle_lws call run_calls
run =
    later
      (later
        (later (later start (callback (fresh 4 5000) client_established refl))
          (owner opened (send_binary (7 ∷ 8 ∷ 9 ∷ [])) refl))
        (callback sent (client_writeable (pos 2)) refl))
      (callback flushed client_closed refl)

Reach-IsQueue_example : IsQueue 4 gone
Reach-IsQueue_example = Reach-IsQueue run

Reach-Told_example : Told gone
Reach-Told_example = Reach-Told run

fragments_told_example :
    run_reasons greets (fragments false true (1 ∷ []) ((2 ∷ 3 ∷ []) ∷ ([] ∷ []))) opened
    ≡ told greets false (1 ∷ 2 ∷ 3 ∷ []) opened
fragments_told_example = fragments_told greets false (1 ∷ []) ((2 ∷ 3 ∷ []) ∷ ([] ∷ [])) opened

abbrev bye : Outgoing
bye = record { payload = 5 ∷ []; binary = false }

abbrev audio : Outgoing
audio = record { payload = 6 ∷ 7 ∷ []; binary = true }

abbrev closing : WsConnection
closing = record (fresh 9 5000) {
  wsi = true;
  established = true;
  outgoing = audio ∷ bye ∷ [];
  queued_bytes = 3;
  close_requested = true;
}

serve-Served_example : Served audio (bye ∷ []) closing (serve greets audio (bye ∷ []) closing)
serve-Served_example = serve-Served greets audio (bye ∷ []) closing refl

-- A task asks for a timer, the timer for another task.
abbrev asks : ℕ → List (Ask ℕ)
asks n = if n == 1 then schedule_timer 10 5 2 ∷ [] else if n == 2 then post 3 ∷ [] else []

abbrev idle : WsEventLoop ℕ
idle = record {
  posted = [];
  timers = [];
  stop = false;
  asked = [];
  scheduled = [];
  ran = [];
  fired = [];
  ticks = 0;
}

abbrev schedule : List (Move ℕ)
schedule =
    asked_by (post 1) ∷ wait_cancelled ∷ ticked 14 [] ∷ ticked 15 (post 4 ∷ []) ∷ serviced 16 ∷ []

ran_in_order : (moves asks schedule idle).ran ≡ 1 ∷ 3 ∷ 4 ∷ []
unfolding moves
ran_in_order = refl

moves-RunsOnce_example : RunsOnce (moves asks schedule idle)
moves-RunsOnce_example =
    moves-RunsOnce asks schedule idle
      (record { order = refl; once = λ p. omega arith; punctual = tt })
