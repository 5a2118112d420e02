-- ===== src/WsClient/Queue.antt =====
-- The send queue of a connection of net/src/ws_client.cpp.
use mod_audio_fork.Common.{
  ℕ, ◌+◌, ◌≤◌, ◌≡◌, refl, sym, ap, ap₂, ◌∙◌, Bool, true, false, List, [], ◌∷◌, ◌++◌, append_assoc,
  if◌then◌else◌, if_ind, length, ℤ, ltb_ℤ, to_int, arith,
}
use mod_audio_fork.WsClient.{
  Outgoing, Effect, on_connected, on_text, on_binary, on_closed, enqueued, wrote, WsConnection,
  fresh, log, Call, send_text, send_binary, set_receive_paused, close, enqueue, receive_paused,
  request_close, call, run_calls, Handler, deliver, finish_connection, Reason, client_established,
  connection_error, client_closed, other, client_receive, client_writeable, received, receive,
  after_write, write_front, written_whole, handle_lws, is_shut, is_full,
}
use mod_audio_fork.WsClient.Closing.{Step, Reach, callback, owner, bound, start, later}

-- The messages that `SendText` and `SendBinary` took, and those that went out, oldest first.
abbrev pub accepted : List Effect → List Outgoing
accepted [] = []
accepted (enqueued m true ∷ es) = accepted es ++ m ∷ []
accepted (_ ∷ es) = accepted es

abbrev pub written : List Effect → List Outgoing
written [] = []
written (wrote m true ∷ es) = written es ++ m ∷ []
written (_ ∷ es) = written es

abbrev pub bytes_of : List Outgoing → ℕ
bytes_of [] = 0
bytes_of (m ∷ ms) = length m.payload + bytes_of ms

-- What was taken went out, in its order, or waits; the bytes that wait are counted and never over
-- the limit.
pub record IsQueue (max : ℕ) (c : WsConnection) : Type 0 where
  pub order : accepted c.trace ≡ written c.trace ++ c.outgoing
  pub counted : c.queued_bytes ≡ bytes_of c.outgoing
  pub limit : c.max_queued_bytes ≡ max
  pub capped : c.queued_bytes ≤ max

bytes_of-append : (ms ns : List Outgoing) → bytes_of (ms ++ ns) ≡ bytes_of ms + bytes_of ns
bytes_of-append [] ns = omega arith
bytes_of-append (m ∷ ms) ns = omega (arith, bytes_of-append ms ns)

-- The limit, the queue and the traffic are as they were.
record Same (c c' : WsConnection) : Type 0 where
  limit : c'.max_queued_bytes ≡ c.max_queued_bytes
  queue : c'.outgoing ≡ c.outgoing
  bytes : c'.queued_bytes ≡ c.queued_bytes
  taken : accepted c'.trace ≡ accepted c.trace
  sent : written c'.trace ≡ written c.trace

IsQueue-Same : {max : ℕ} {c c' : WsConnection} → Same c c' → IsQueue max c → IsQueue max c'
IsQueue-Same s q = record {
  order = s.taken ∙ q.order ∙ sym (ap₂ (λ xs ys. xs ++ ys) s.sent s.queue);
  counted = s.bytes ∙ q.counted ∙ sym (ap bytes_of s.queue);
  limit = s.limit ∙ q.limit;
  capped = omega (arith, s.bytes, q.capped);
}

enqueue-IsQueue :
    {max : ℕ} (m : Outgoing) (c : WsConnection) → IsQueue max c → IsQueue max (enqueue m c)
unfolding enqueue
enqueue-IsQueue {max} m c q =
    if_ind (IsQueue max) (is_shut c) (λ _. unchanged)
      (λ _.
        if_ind (IsQueue max) (is_full m c) (λ _. unchanged)
          (λ room. record {
            order =
                ap (λ xs. xs ++ m ∷ []) q.order
                ∙ append_assoc (written c.trace) c.outgoing (m ∷ []);
            counted = omega (arith, q.counted, bytes_of-append c.outgoing (m ∷ []));
            limit = q.limit;
            capped = fits room;
          }))
  where
    unchanged : IsQueue max (log (enqueued m false) c)
    unchanged = record { order = q.order; counted = q.counted; limit = q.limit; capped = q.capped }

    fits : is_full m c ≡ false → c.queued_bytes + length m.payload ≤ max
    fits room = let e : c.max_queued_bytes ≡ max = q.limit in ground arith

receive_paused-Same : (b : Bool) (c : WsConnection) → Same c (receive_paused b c)
unfolding receive_paused
receive_paused-Same b c = record {
  limit = ground arith;
  queue = ground arith;
  bytes = ground arith;
  taken = ground arith;
  sent = ground arith;
}

request_close-Same : (c : WsConnection) → Same c (request_close c)
unfolding request_close
request_close-Same c = record {
  limit = ground arith;
  queue = ground arith;
  bytes = ground arith;
  taken = ground arith;
  sent = ground arith;
}

call-IsQueue : {max : ℕ} (k : Call) (c : WsConnection) → IsQueue max c → IsQueue max (call k c)
unfolding call
call-IsQueue (send_text t) c q = enqueue-IsQueue (record { payload = t; binary = false }) c q
call-IsQueue (send_binary bs) c q = enqueue-IsQueue (record { payload = bs; binary = true }) c q
call-IsQueue (set_receive_paused b) c q = IsQueue-Same (receive_paused-Same b c) q
call-IsQueue close c q = IsQueue-Same (request_close-Same c) q

run_calls-IsQueue :
    {max : ℕ} (ks : List Call) (c : WsConnection) → IsQueue max c → IsQueue max (run_calls ks c)
unfolding run_calls
run_calls-IsQueue [] c q = q
run_calls-IsQueue (k ∷ ks) c q = run_calls-IsQueue ks (call k c) (call-IsQueue k c q)

-- A callback, as the queue sees it, changes nothing but by the calls made from it.
deliver-IsQueue :
    {max : ℕ} (handler : Handler) (e : Effect) (c d : WsConnection)
    → Same d (log e c)
    → IsQueue max d
    → IsQueue max (deliver handler e c)
deliver-IsQueue handler e c d s q =
    run_calls-IsQueue (handler (e ∷ c.trace)) (log e c) (IsQueue-Same s q)

after_write-IsQueue :
    {max : ℕ} (ms : List Outgoing) (c : WsConnection)
    → IsQueue max c
    → IsQueue max (after_write ms c).0
unfolding after_write
after_write-IsQueue (m ∷ ms) c q = record {
  order = q.order;
  counted = q.counted;
  limit = q.limit;
  capped = q.capped;
}
after_write-IsQueue {max} [] c q =
    if_ind (λ (r : WsConnection × ℤ). IsQueue max r.0) c.close_requested
      (λ _. record { order = q.order; counted = q.counted; limit = q.limit; capped = q.capped })
      (λ _. q)

write_front-IsQueue :
    {max : ℕ} (sent : ℤ) (ms : List Outgoing) (c : WsConnection)
    → c.outgoing ≡ ms
    → IsQueue max c
    → IsQueue max (write_front sent ms c).0
unfolding write_front
write_front-IsQueue sent [] c e q = after_write-IsQueue [] c q
write_front-IsQueue {max} sent (m ∷ ms) c e q =
    if_ind (λ (r : WsConnection × ℤ). IsQueue max r.0) (ltb_ℤ sent (to_int (length m.payload)))
      (λ _. record { order = q.order; counted = q.counted; limit = q.limit; capped = q.capped })
      (λ _. after_write-IsQueue ms (written_whole m ms c) (record {
        order =
            q.order
            ∙ ap (λ xs. written c.trace ++ xs) e
            ∙ sym (append_assoc (written c.trace) (m ∷ []) ms);
        counted = omega (arith, q.counted, ap bytes_of e);
        limit = q.limit;
        capped = omega (arith, q.capped);
      }))

finish_connection-IsQueue :
    {max : ℕ} (handler : Handler) (failed : Bool) (c : WsConnection)
    → IsQueue max c
    → IsQueue max (finish_connection handler failed c)
unfolding finish_connection
finish_connection-IsQueue {max} handler failed c q = drop_it (
    if_ind (IsQueue max) c.closed_delivered (λ _. q)
      (λ _.
        deliver-IsQueue handler (on_closed failed) (record c { closed_delivered = true }) c
          (record { limit = refl; queue = refl; bytes = refl; taken = refl; sent = refl }) q))
  where
    drop_it : {d : WsConnection} → IsQueue max d → IsQueue max (record d { erased = true })
    drop_it q = record { order = q.order; counted = q.counted; limit = q.limit; capped = q.capped }

receive-IsQueue :
    {max : ℕ} (handler : Handler) (first final binary : Bool) (bytes : List ℕ) (c : WsConnection)
    → IsQueue max c
    → IsQueue max (receive handler first final binary bytes c)
unfolding receive
receive-IsQueue handler first false binary bytes c q = record {
  order = q.order;
  counted = q.counted;
  limit = q.limit;
  capped = q.capped;
}
receive-IsQueue {max} handler first true binary bytes c q = forget (message binary)
  where
    c' : WsConnection
    c' = received first bytes c

    message :
        (b : Bool)
        → IsQueue max
            (deliver handler (if b then on_binary c'.incoming else on_text c'.incoming) c')
    message true =
        deliver-IsQueue handler (on_binary c'.incoming) c' c
          (record { limit = refl; queue = refl; bytes = refl; taken = refl; sent = refl }) q
    message false =
        deliver-IsQueue handler (on_text c'.incoming) c' c
          (record { limit = refl; queue = refl; bytes = refl; taken = refl; sent = refl }) q

    forget : {d : WsConnection} → IsQueue max d → IsQueue max (record d { incoming = [] })
    forget q = record { order = q.order; counted = q.counted; limit = q.limit; capped = q.capped }

handle_lws-IsQueue :
    {max : ℕ} (handler : Handler) (r : Reason) (c : WsConnection)
    → IsQueue max c
    → IsQueue max (handle_lws handler r c).0
unfolding handle_lws
handle_lws-IsQueue handler client_established c q =
    deliver-IsQueue handler on_connected (record c { wsi = true; established = true }) c
      (record { limit = refl; queue = refl; bytes = refl; taken = refl; sent = refl }) q
handle_lws-IsQueue handler connection_error c q = finish_connection-IsQueue handler true c q
handle_lws-IsQueue handler client_closed c q = finish_connection-IsQueue handler false c q
handle_lws-IsQueue handler other c q = q
handle_lws-IsQueue handler (client_receive first final binary bytes) c q =
    receive-IsQueue handler first final binary bytes c q
handle_lws-IsQueue handler (client_writeable sent) c q =
    write_front-IsQueue sent c.outgoing c refl q

Step-IsQueue :
    {handler : Handler} {max : ℕ} {c d : WsConnection}
    → Step handler c d
    → IsQueue max c
    → IsQueue max d
Step-IsQueue {handler} (callback c r alive) q = handle_lws-IsQueue handler r c q
Step-IsQueue (owner c k alive) q = call-IsQueue k c q
Step-IsQueue (bound c) q = record {
  order = q.order;
  counted = q.counted;
  limit = q.limit;
  capped = q.capped;
}

-- Whatever libwebsockets, the owner and its handler do: the messages that were taken are those that
-- went out followed by those that wait, each once and in their order, and the bytes that wait are
-- counted and never more than the limit of the connection.
pub Reach-IsQueue :
    {handler : Handler} {max timeout : ℕ} {c : WsConnection}
    → Reach handler (fresh max timeout) c
    → IsQueue max c
Reach-IsQueue start = record { order = refl; counted = refl; limit = refl; capped = omega arith }
Reach-IsQueue (later h s) = Step-IsQueue s (Reach-IsQueue h)
