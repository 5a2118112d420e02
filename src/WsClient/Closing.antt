-- ===== src/WsClient/Closing.antt =====
-- What the handler of a connection of net/src/ws_client.cpp is told at its end.
use mod_audio_fork.Common.{
  ℕ, ◌≡◌, refl, sym, ◌∙◌, Bool, true, false, ◌&&◌, List, [], ◌∷◌, if◌then◌else◌, if_ind, length, ℤ,
  ltb_ℤ, to_int, arith,
}
use mod_audio_fork.WsClient.{
  Outgoing, Effect, on_connected, on_text, on_binary, on_closed, WsConnection, fresh, log, Call,
  send_text, send_binary, set_receive_paused, close, enqueue, receive_paused, request_close, call,
  run_calls, Handler, deliver, finish_connection, Reason, client_established, connection_error,
  client_closed, other, client_receive, client_writeable, received, receive, after_write,
  write_front, written_whole, handle_lws,
}

abbrev pub has_closed : List Effect → Bool
has_closed [] = false
has_closed (on_closed _ ∷ es) = true
has_closed (_ ∷ es) = has_closed es

abbrev pub is_callback : Effect → Bool
is_callback on_connected = true
is_callback (on_text _) = true
is_callback (on_binary _) = true
is_callback (on_closed _) = true
is_callback _ = false

-- No callback comes after the close, so the close comes once.
abbrev pub Orderly : List Effect → Type 0
Orderly [] = Unit
Orderly (e ∷ es) = ((is_callback e && has_closed es) ≡ false) × Orderly es

-- Libwebsockets calls back, and the owner calls, until the loop has dropped the connection; when
-- `Connect` returns there is a `wsi`.
pub data Step (handler : Handler) : WsConnection → WsConnection → Type 0 where
  callback :
      (c : WsConnection) (r : Reason) → c.erased ≡ false → Step handler c (handle_lws handler r c).0
  owner : (c : WsConnection) (k : Call) → c.erased ≡ false → Step handler c (call k c)
  bound : (c : WsConnection) → Step handler c (record c { wsi = true })

pub data Reach (handler : Handler) (c : WsConnection) : WsConnection → Type 0 where
  start : Reach handler c c
  later : {d e : WsConnection} → Reach handler c d → Step handler d e → Reach handler c e

-- The close was told exactly when the connection is gone, and nothing after it.
pub record Told (c : WsConnection) : Type 0 where
  pub orderly : Orderly c.trace
  pub closed : has_closed c.trace ≡ c.erased
  pub delivered : c.closed_delivered ≡ c.erased

-- Nothing is told.
pub record Quiet (c c' : WsConnection) : Type 0 where
  orderly : Orderly c.trace → Orderly c'.trace
  closed : has_closed c'.trace ≡ has_closed c.trace
  delivered : c'.closed_delivered ≡ c.closed_delivered
  pub erased : c'.erased ≡ c.erased

Quiet-refl : (c : WsConnection) → Quiet c c
Quiet-refl c = record { orderly = λ h. h; closed = refl; delivered = refl; erased = refl }

Quiet-trans : {c d e : WsConnection} → Quiet c d → Quiet d e → Quiet c e
Quiet-trans p q = record {
  orderly = λ h. q.orderly (p.orderly h);
  closed = q.closed ∙ p.closed;
  delivered = q.delivered ∙ p.delivered;
  erased = q.erased ∙ p.erased;
}

Told-Quiet : {c c' : WsConnection} → Quiet c c' → Told c → Told c'
Told-Quiet q t = record {
  orderly = q.orderly t.orderly;
  closed = q.closed ∙ t.closed ∙ sym q.erased;
  delivered = q.delivered ∙ t.delivered ∙ sym q.erased;
}

enqueue-Quiet : (m : Outgoing) (c : WsConnection) → Quiet c (enqueue m c)
unfolding enqueue
enqueue-Quiet m c = record {
  orderly = λ h. ground arith;
  closed = ground arith;
  delivered = ground arith;
  erased = ground arith;
}

receive_paused-Quiet : (b : Bool) (c : WsConnection) → Quiet c (receive_paused b c)
unfolding receive_paused
receive_paused-Quiet b c = record {
  orderly = λ h. ground arith;
  closed = ground arith;
  delivered = ground arith;
  erased = ground arith;
}

request_close-Quiet : (c : WsConnection) → Quiet c (request_close c)
unfolding request_close
request_close-Quiet c = record {
  orderly = λ h. ground arith;
  closed = ground arith;
  delivered = ground arith;
  erased = ground arith;
}

pub call-Quiet : (k : Call) (c : WsConnection) → Quiet c (call k c)
unfolding call
call-Quiet (send_text t) c = enqueue-Quiet (record { payload = t; binary = false }) c
call-Quiet (send_binary bs) c = enqueue-Quiet (record { payload = bs; binary = true }) c
call-Quiet (set_receive_paused b) c = receive_paused-Quiet b c
call-Quiet close c = request_close-Quiet c

run_calls-Quiet : (ks : List Call) (c : WsConnection) → Quiet c (run_calls ks c)
unfolding run_calls
run_calls-Quiet [] c = Quiet-refl c
run_calls-Quiet (k ∷ ks) c = Quiet-trans (call-Quiet k c) (run_calls-Quiet ks (call k c))

after_write-Quiet : (ms : List Outgoing) (c : WsConnection) → Quiet c (after_write ms c).0
unfolding after_write
after_write-Quiet (m ∷ ms) c = record {
  orderly = λ h. (refl, h);
  closed = refl;
  delivered = refl;
  erased = refl;
}
after_write-Quiet [] c = record {
  orderly = λ h. ground arith;
  closed = ground arith;
  delivered = ground arith;
  erased = ground arith;
}

write_front-Quiet :
    (written : ℤ) (ms : List Outgoing) (c : WsConnection) → Quiet c (write_front written ms c).0
unfolding write_front
write_front-Quiet written [] c = after_write-Quiet [] c
write_front-Quiet written (m ∷ ms) c =
    if_ind (λ (r : WsConnection × ℤ). Quiet c r.0) (ltb_ℤ written (to_int (length m.payload)))
      (λ _. record { orderly = λ h. (refl, h); closed = refl; delivered = refl; erased = refl })
      (λ _.
        Quiet-trans
          (record { orderly = λ h. (refl, h); closed = refl; delivered = refl; erased = refl })
          (after_write-Quiet ms (written_whole m ms c)))

-- A callback that is not the close, before the close.
deliver-Told :
    (handler : Handler) (e : Effect) (c : WsConnection)
    → has_closed (e ∷ c.trace) ≡ has_closed c.trace
    → c.erased ≡ false
    → Told c
    → Told (deliver handler e c)
deliver-Told handler e c same alive t =
    Told-Quiet (run_calls-Quiet (handler (e ∷ c.trace)) (log e c)) (record {
      orderly = (before (is_callback e) (t.closed ∙ alive), t.orderly);
      closed = same ∙ t.closed;
      delivered = t.delivered;
    })
  where
    before : {x : Bool} (b : Bool) → x ≡ false → (b && x) ≡ false
    before b h = ground arith

finish_connection-Told :
    (handler : Handler) (failed : Bool) (c : WsConnection)
    → c.erased ≡ false
    → Told c
    → Told (finish_connection handler failed c)
      × ((finish_connection handler failed c).erased ≡ true)
unfolding finish_connection
finish_connection-Told handler failed c alive t =
    let undelivered : c.closed_delivered ≡ false = t.delivered ∙ alive in
    let closing = log (on_closed failed) (record c { closed_delivered = true }) in
    let q = run_calls-Quiet (handler closing.trace) closing in
    rw undelivered (
      record {
        orderly = q.orderly (t.closed ∙ alive, t.orderly);
        closed = q.closed;
        delivered = q.delivered;
      },
      refl,
    )

receive-Told :
    (handler : Handler) (first final binary : Bool) (bytes : List ℕ) (c : WsConnection)
    → c.erased ≡ false
    → Told c
    → Told (receive handler first final binary bytes c)
unfolding receive
receive-Told handler first false binary bytes c alive t = record {
  orderly = t.orderly;
  closed = t.closed;
  delivered = t.delivered;
}
receive-Told handler first true binary bytes c alive t =
    let c' = received first bytes c in
    let t' : Told c' = record { orderly = t.orderly; closed = t.closed; delivered = t.delivered } in
    forget (message binary c' alive t')
  where
    message :
        (b : Bool) (d : WsConnection)
        → d.erased ≡ false
        → Told d
        → Told (deliver handler (if b then on_binary d.incoming else on_text d.incoming) d)
    message true d a t = deliver-Told handler (on_binary d.incoming) d refl a t
    message false d a t = deliver-Told handler (on_text d.incoming) d refl a t

    forget : {d : WsConnection} → Told d → Told (record d { incoming = [] })
    forget t = record { orderly = t.orderly; closed = t.closed; delivered = t.delivered }

handle_lws-Told :
    (handler : Handler) (r : Reason) (c : WsConnection)
    → c.erased ≡ false
    → Told c
    → Told (handle_lws handler r c).0
unfolding handle_lws
handle_lws-Told handler client_established c alive t =
    deliver-Told handler on_connected (record c { wsi = true; established = true }) refl alive
      (record { orderly = t.orderly; closed = t.closed; delivered = t.delivered })
handle_lws-Told handler connection_error c alive t =
    (finish_connection-Told handler true c alive t).0
handle_lws-Told handler client_closed c alive t = (finish_connection-Told handler false c alive t).0
handle_lws-Told handler other c alive t = t
handle_lws-Told handler (client_receive first final binary bytes) c alive t =
    receive-Told handler first final binary bytes c alive t
handle_lws-Told handler (client_writeable written) c alive t =
    Told-Quiet (write_front-Quiet written c.outgoing c) t

Step-Told : {handler : Handler} {c d : WsConnection} → Step handler c d → Told c → Told d
Step-Told {handler} (callback c r alive) t = handle_lws-Told handler r c alive t
Step-Told (owner c k alive) t = Told-Quiet (call-Quiet k c) t
Step-Told (bound c) t = record { orderly = t.orderly; closed = t.closed; delivered = t.delivered }

-- While libwebsockets makes no callback on a connection that was dropped, whatever it and the owner
-- do: the handler is told of the close at most once and of nothing after it, and it has been told
-- exactly when the loop has dropped the connection.
pub Reach-Told :
    {handler : Handler} {max timeout : ℕ} {c : WsConnection}
    → Reach handler (fresh max timeout) c
    → Told c
Reach-Told start = record { orderly = tt; closed = refl; delivered = refl }
Reach-Told (later h s) = Step-Told s (Reach-Told h)
