-- ===== src/WsClient.antt =====
-- net/src/ws_client.cpp and net/include/audiofork_net/ws_client.hpp: one WebSocket connection and
-- the callbacks of libwebsockets on it; `Loop` has the posted tasks and the timers of the event loop.
-- Libwebsockets is what is asked of it, and the callbacks that it makes.
pub mod Loop
pub mod Queue
pub mod Closing
pub mod Messages
mod Tests
use mod_audio_fork.Common.{
  ℕ, ◌+◌, ◌-◌, Bool, true, false, not, ◌&&◌, ◌||◌, List, [], ◌∷◌, ◌++◌, if◌then◌else◌, ltb, length,
  Text, ℤ, pos, negsuc, ltb_ℤ, to_int,
}

-- A message that waits to be written: what stands behind the padding of `padded_payload`.
pub record Outgoing : Type 0 where
  pub payload : List ℕ
  pub binary : Bool

-- What the handler was told, and what libwebsockets was asked for. `enqueued` is a call of `SendText`
-- or `SendBinary` with its answer, `wrote` one of `lws_write` that took the message or did not.
pub data Effect : Type 0 where
  on_connected : Effect
  on_text : (text : Text) → Effect
  on_binary : (bytes : List ℕ) → Effect
  on_closed : (connect_failed : Bool) → Effect
  enqueued : (message : Outgoing) (taken : Bool) → Effect
  wrote : (message : Outgoing) (whole : Bool) → Effect
  asked_writable : Effect
  set_timeout : (milliseconds : ℕ) → Effect
  kill : Effect
  flow_control : (on : Bool) → Effect
  close_reason : Effect

-- `wsi_` is whether there is one. `erased` says that the loop has dropped the connection. `trace`
-- is newest first. All messages that wait are in memory at once, so their bytes are counted as a
-- number that does not wrap.
pub record WsConnection : Type 0 where
  pub max_queued_bytes : ℕ
  pub close_drain_timeout : ℕ
  pub wsi : Bool
  pub outgoing : List Outgoing
  pub queued_bytes : ℕ
  pub incoming : List ℕ
  pub established : Bool
  pub close_requested : Bool
  pub closed_delivered : Bool
  pub erased : Bool
  pub trace : List Effect

-- The constructor.
abbrev pub fresh : (max_queued_bytes close_drain_timeout : ℕ) → WsConnection
fresh max_queued_bytes close_drain_timeout = record {
  max_queued_bytes = max_queued_bytes;
  close_drain_timeout = close_drain_timeout;
  wsi = false;
  outgoing = [];
  queued_bytes = 0;
  incoming = [];
  established = false;
  close_requested = false;
  closed_delivered = false;
  erased = false;
  trace = [];
}

abbrev pub log : Effect → WsConnection → WsConnection
log e c = record c { trace = e ∷ c.trace }

-- What the owner may ask of a connection.
pub data Call : Type 0 where
  send_text : (text : Text) → Call
  send_binary : (bytes : List ℕ) → Call
  set_receive_paused : (paused : Bool) → Call
  close : Call

abbrev pub is_shut : WsConnection → Bool
is_shut c = not c.established || c.close_requested || c.closed_delivered

abbrev pub is_full : Outgoing → WsConnection → Bool
is_full m c = ltb c.max_queued_bytes (c.queued_bytes + length m.payload)

-- `Enqueue`, which asks to be called when the socket can be written.
unfoldable pub enqueue : Outgoing → WsConnection → WsConnection
enqueue m c =
    if is_shut c
    then log (enqueued m false) c
    else if is_full m c
    then log (enqueued m false) c
    else log (enqueued m true) (
        log asked_writable (record c {
          outgoing = c.outgoing ++ m ∷ [];
          queued_bytes = c.queued_bytes + length m.payload;
        }))

unfoldable pub receive_paused : Bool → WsConnection → WsConnection
receive_paused paused c =
    if not c.wsi || c.closed_delivered then c else log (flow_control (not paused)) c

-- `Close`: the queue goes out first if the connection stands, else libwebsockets gives up on it.
unfoldable pub request_close : WsConnection → WsConnection
request_close c =
    if c.closed_delivered || c.close_requested
    then c
    else if c.wsi && c.established
    then log asked_writable
        (log (set_timeout c.close_drain_timeout) (record c { close_requested = true }))
    else if c.wsi
    then log kill (record c { close_requested = true })
    else record c { close_requested = true }

unfoldable pub call : Call → WsConnection → WsConnection
unfolding enqueue receive_paused request_close
call (send_text text) c = enqueue (record { payload = text; binary = false }) c
call (send_binary bytes) c = enqueue (record { payload = bytes; binary = true }) c
call (set_receive_paused paused) c = receive_paused paused c
call close c = request_close c

unfoldable pub run_calls : List Call → WsConnection → WsConnection
run_calls [] c = c
run_calls (k ∷ ks) c = run_calls ks (call k c)

-- The owner's handler: the calls that it makes from a callback, given all that happened before.
abbrev pub Handler : Type 0
Handler = List Effect → List Call

abbrev pub deliver : Handler → Effect → WsConnection → WsConnection
deliver handler e c = run_calls (handler (e ∷ c.trace)) (log e c)

-- `FinishConnection`.
unfoldable pub finish_connection : Handler → (connect_failed : Bool) → WsConnection → WsConnection
finish_connection handler connect_failed c =
    let told = deliver handler (on_closed connect_failed) (record c { closed_delivered = true }) in
    record (if c.closed_delivered then c else told) { erased = true }

-- The reasons that `HandleLws` tells apart for a connection, with what libwebsockets says of them;
-- `written` is what `lws_write` returns if it is called.
pub data Reason : Type 0 where
  client_established connection_error client_closed other : Reason
  client_receive : (first final binary : Bool) (bytes : List ℕ) → Reason
  client_writeable : (written : ℤ) → Reason

abbrev pub received : (first : Bool) (bytes : List ℕ) → WsConnection → WsConnection
received first bytes c = record c { incoming = (if first then [] else c.incoming) ++ bytes }

unfoldable pub receive :
    Handler → (first final binary : Bool) → List ℕ → WsConnection → WsConnection
receive handler first final binary bytes c =
    let c' = received first bytes c in
    if final
    then record (deliver handler (if binary then on_binary c'.incoming else on_text c'.incoming)
        c') { incoming = [] }
    else c'

-- What follows a write: more to write, the close handshake, or nothing.
unfoldable pub after_write : List Outgoing → WsConnection → WsConnection × ℤ
after_write (m ∷ ms) c = (log asked_writable c, pos 0)
after_write [] c = if c.close_requested then (log close_reason c, negsuc 0) else (c, pos 0)

abbrev pub written_whole : Outgoing → List Outgoing → WsConnection → WsConnection
written_whole m ms c = record c {
  outgoing = ms;
  queued_bytes = c.queued_bytes - length m.payload;
  trace = wrote m true ∷ c.trace;
}

unfoldable pub write_front : (written : ℤ) → List Outgoing → WsConnection → WsConnection × ℤ
unfolding after_write
write_front written [] c = after_write [] c
write_front written (m ∷ ms) c =
    if ltb_ℤ written (to_int (length m.payload))
    then (log (wrote m false) c, negsuc 0)
    else after_write ms (written_whole m ms c)

-- `HandleLws` for the user that is a connection, with what it returns.
unfoldable pub handle_lws : Handler → Reason → WsConnection → WsConnection × ℤ
unfolding finish_connection receive write_front
handle_lws handler client_established c =
    (deliver handler on_connected (record c { wsi = true; established = true }), pos 0)
handle_lws handler connection_error c = (finish_connection handler true c, negsuc 0)
handle_lws handler (client_receive first final binary bytes) c =
    (receive handler first final binary bytes c, pos 0)
handle_lws handler (client_writeable written) c = write_front written c.outgoing c
handle_lws handler client_closed c = (finish_connection handler false c, pos 0)
handle_lws handler other c = (c, pos 0)

unfoldable pub run_reasons : Handler → List Reason → WsConnection → WsConnection
unfolding handle_lws
run_reasons handler [] c = c
run_reasons handler (r ∷ rs) c = run_reasons handler rs (handle_lws handler r c).0

-- `Connect`: the callbacks that libwebsockets makes before it returns, and whether it gives a
-- connection. The caller gets one only if it has not been closed in the meantime; else it is dropped.
unfoldable pub connect :
    Handler
    → (max_queued_bytes close_drain_timeout : ℕ) → List Reason
    → (made : Bool) → WsConnection × Bool
unfolding run_reasons
connect handler max_queued_bytes close_drain_timeout early made =
    let c = run_reasons handler early (fresh max_queued_bytes close_drain_timeout) in
    if not made || c.closed_delivered
    then (record c { erased = true }, false)
    else (record c { wsi = true }, true)
