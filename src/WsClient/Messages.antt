-- ===== src/WsClient/Messages.antt =====
-- Whole messages over a connection of net/src/ws_client.cpp: those that come in fragments, and those
-- that go out before a close.
use mod_audio_fork.Common.{
  ℕ, ◌≡◌, refl, sym, ap, ◌∙◌, subst, Bool, true, false, Bool-cases, inl, inr, List, [], ◌∷◌, ◌++◌,
  append_assoc, if◌then◌else◌, length, ℤ, pos, negsuc, ltb_ℤ, to_int, arith,
}
use mod_audio_fork.WsClient.{
  Outgoing, on_text, on_binary, asked_writable, WsConnection, log, Handler, deliver, Reason,
  client_receive, client_writeable, receive, after_write, write_front, written_whole, handle_lws,
  run_reasons,
}
use mod_audio_fork.WsClient.Queue.{written}

-- A message in fragments, the first of them or a later one to begin with.
abbrev pub fragments : (binary first : Bool) → List ℕ → List (List ℕ) → List Reason
fragments binary first f [] = client_receive first true binary f ∷ []
fragments binary first f (g ∷ gs) =
    client_receive first false binary f ∷ fragments binary false g gs

abbrev pub joined : List ℕ → List (List ℕ) → List ℕ
joined f [] = f
joined f (g ∷ gs) = f ++ joined g gs

-- The handler is told of one message.
abbrev pub told : Handler → (binary : Bool) → List ℕ → WsConnection → WsConnection
told handler binary bytes c =
    record (deliver handler (if binary then on_binary bytes else on_text bytes)
      (record c { incoming = bytes })) { incoming = [] }

later_fragments :
    (handler : Handler) (binary : Bool) (f : List ℕ) (gs : List (List ℕ)) (c : WsConnection)
    → run_reasons handler (fragments binary false f gs) c
      ≡ told handler binary (c.incoming ++ joined f gs) c
unfolding run_reasons handle_lws receive
later_fragments handler binary f [] c = refl
later_fragments handler binary f (g ∷ gs) c =
    later_fragments handler binary g gs (record c { incoming = c.incoming ++ f })
    ∙ ap (λ bs. told handler binary bs c) (append_assoc c.incoming f (joined g gs))

-- However a message is cut into fragments, and whatever came before: the handler is told of it once,
-- whole, as text or as binary, and nothing of it is kept.
pub fragments_told :
    (handler : Handler) (binary : Bool) (f : List ℕ) (gs : List (List ℕ)) (c : WsConnection)
    → run_reasons handler (fragments binary true f gs) c ≡ told handler binary (joined f gs) c
unfolding run_reasons handle_lws receive
fragments_told handler binary f [] c = refl
fragments_told handler binary f (g ∷ gs) c =
    later_fragments handler binary g gs (record c { incoming = f })

-- Libwebsockets takes each message of a queue whole, until the connection asks to end it.
abbrev pub go_on : (rest : WsConnection → WsConnection × ℤ) → WsConnection × ℤ → WsConnection × ℤ
go_on rest r = elim r.1 [ pos _ ↦ rest r.0 | negsuc _ ↦ r ]

abbrev pub serve : Handler → Outgoing → List Outgoing → WsConnection → WsConnection × ℤ
serve handler m [] c = handle_lws handler (client_writeable (pos (length m.payload))) c
serve handler m (n ∷ ns) c =
    go_on (serve handler n ns) (handle_lws handler (client_writeable (pos (length m.payload))) c)

pub record Served (m : Outgoing) (ms : List Outgoing) (c : WsConnection) (r : WsConnection × ℤ)
    : Type 0 where
  pub code : r.1 ≡ (if c.close_requested then negsuc 0 else pos 0)
  pub empty : r.0.outgoing ≡ []
  pub sent : written r.0.trace ≡ written c.trace ++ m ∷ ms

-- No `int` is above the size that it was made of.
to_int-le : (n : ℕ) → ltb_ℤ (pos n) (to_int n) ≡ false
to_int-le n = ground arith

written_front :
    (handler : Handler) (m : Outgoing) (ms : List Outgoing) (c : WsConnection)
    → c.outgoing ≡ m ∷ ms
    → handle_lws handler (client_writeable (pos (length m.payload))) c
      ≡ after_write ms (written_whole m ms c)
unfolding handle_lws
written_front handler m ms c e =
    let whole : ltb_ℤ (pos (length m.payload)) (to_int (length m.payload)) ≡ false =
      to_int-le (length m.payload) in
    ap (λ xs. write_front (pos (length m.payload)) xs c) e ∙ rw whole

after_last :
    (m : Outgoing) (c : WsConnection) → Served m [] c (after_write [] (written_whole m [] c))
unfolding after_write
after_last m c = elim (Bool-cases c.close_requested) [
  | inl ending ↦ rw ending (record { code = refl; empty = refl; sent = refl })
  | inr going ↦ rw going (record { code = refl; empty = refl; sent = refl })
]

-- The connection with the first message gone and others behind it.
abbrev more : Outgoing → Outgoing → List Outgoing → WsConnection → WsConnection
more m n ns c = log asked_writable (written_whole m (n ∷ ns) c)

next :
    (m n : Outgoing) (ns : List Outgoing) (c : WsConnection) {r : WsConnection × ℤ}
    → Served n ns (more m n ns c) r
    → Served m (n ∷ ns) c r
next m n ns c s = record {
  code = s.code;
  empty = s.empty;
  sent = s.sent ∙ append_assoc (written c.trace) (m ∷ []) (n ∷ ns);
}

-- A queue that libwebsockets writes whole goes out in its order to the last message, with no end
-- asked for in between; only then, if the close was requested, does the connection ask for it.
pub serve-Served :
    (handler : Handler) (m : Outgoing) (ms : List Outgoing) (c : WsConnection)
    → c.outgoing ≡ m ∷ ms
    → Served m ms c (serve handler m ms c)
unfolding after_write
serve-Served handler m [] c e =
    subst (Served m [] c) (sym (written_front handler m [] c e)) (after_last m c)
serve-Served handler m (n ∷ ns) c e =
    subst (λ (r : WsConnection × ℤ). Served m (n ∷ ns) c (go_on (serve handler n ns) r))
      (sym (written_front handler m (n ∷ ns) c e))
      (next m n ns c (serve-Served handler n ns (more m n ns c) refl))
