-- ===== src/ShardPool/Adapter.antt =====
-- `WsConnectionAdapter` and `LwsNetPort` of net/src/shard_pool.cpp: the connection that a session is
-- given, and which it may use after the WebSocket connection is gone.
use mod_audio_fork.Common.{
  ℕ, ◌≡◌, refl, sym, ap, ◌∙◌, Bool, true, false, not, ◌&&◌, ◌||◌, Option, none, some, List, [], ◌∷◌,
  if◌then◌else◌, if_ind,
}
use mod_audio_fork.WsClient.{
  Outgoing, on_closed, WsConnection, Call, call, Handler, Reason, handle_lws, is_shut, is_full,
  fresh, connect,
}
use mod_audio_fork.WsClient.Closing.{Reach, later, callback, owner, Reach-Told, call-Quiet}

-- `is_bound` is whether `connection_` is set.
pub record Adapter : Type 0 where
  pub is_bound : Bool
  pub connection : WsConnection

-- A call that the session makes: it reaches the connection only while the adapter is bound to it.
unfoldable pub forward : Call → Adapter → Adapter
forward k a = if a.is_bound then record a { connection = call k a.connection } else a

-- What `SendText` and `SendBinary` return.
unfoldable pub takes : Outgoing → Adapter → Bool
takes m a = a.is_bound && not (is_shut a.connection || is_full m a.connection)

-- The handler of the connection: from `OnClosed` no call of the session reaches it.
unfoldable pub through : Handler → Handler
through target [] = target []
through target (on_closed failed ∷ es) = []
through target (e ∷ es) = target (e ∷ es)

-- A callback of libwebsockets; `OnClosed` unbinds the adapter.
unfoldable pub called_back : Handler → Reason → Adapter → Adapter
unfolding through
called_back target r a =
    let c = (handle_lws (through target) r a.connection).0 in
    record { is_bound = a.is_bound && not c.closed_delivered; connection = c }

-- Until the adapter is bound no call that the session makes from a callback reaches the connection.
abbrev pub unbound : Handler
unbound es = []

-- `LwsNetPort::Connect`: the adapter is bound once there is a connection, behind the callbacks that
-- come before that; without a connection there is no adapter.
unfoldable pub connect_port :
    (max_queued_bytes close_drain_timeout : ℕ) → List Reason → (made : Bool) → Option Adapter
connect_port max_queued_bytes close_drain_timeout early made =
    let (c, given) = connect unbound max_queued_bytes close_drain_timeout early made in
    if given then some (record { is_bound = true; connection = c }) else none

-- What can happen to an adapter from its binding on: callbacks until the loop has dropped the
-- connection, calls of the session at any time.
pub data Uses (target : Handler) (a : Adapter) : Adapter → Type 0 where
  given : Uses target a a
  event :
      {b : Adapter} (r : Reason)
      → Uses target a b
      → b.connection.erased ≡ false
      → Uses target a (called_back target r b)
  session : {b : Adapter} (k : Call) → Uses target a b → Uses target a (forward k b)

-- The adapter is bound exactly while the loop has the connection.
record Tracks (handler : Handler) (max timeout : ℕ) (a : Adapter) : Type 0 where
  reach : Reach handler (fresh max timeout) a.connection
  bound_while : a.is_bound ≡ not a.connection.erased

not-true : (b : Bool) → not b ≡ true → b ≡ false
not-true true h = cc
not-true false h = refl

forward-Tracks :
    {handler : Handler} {max timeout : ℕ} (k : Call) (a : Adapter)
    → Tracks handler max timeout a
    → Tracks handler max timeout (forward k a)
unfolding forward
forward-Tracks {handler} {max} {timeout} k a t =
    if_ind (Tracks handler max timeout) a.is_bound
      (λ here. record {
        reach = later t.reach (owner a.connection k (alive here));
        bound_while = t.bound_while ∙ ap not (sym (call-Quiet k a.connection).erased);
      })
      (λ _. t)
  where
    alive : a.is_bound ≡ true → a.connection.erased ≡ false
    alive here = not-true (a.connection.erased) (sym t.bound_while ∙ here)

called_back-Tracks :
    (target : Handler) {max timeout : ℕ} (r : Reason) (a : Adapter)
    → a.connection.erased ≡ false
    → Tracks (through target) max timeout a
    → Tracks (through target) max timeout (called_back target r a)
unfolding called_back
called_back-Tracks target {max} {timeout} r a alive t =
    let c = (handle_lws (through target) r a.connection).0 in
    let reached : Reach (through target) (fresh max timeout) c =
      later t.reach (callback a.connection r alive) in
    record {
      reach = reached;
      bound_while =
          ap (λ b. b && not c.closed_delivered) (t.bound_while ∙ ap not alive)
          ∙ ap not (Reach-Told reached).delivered;
    }

-- However a session uses the connection that it was given, after its close too: what reaches the
-- WebSocket connection is a run in which the owner calls only while the loop has the connection, and
-- the adapter is bound just as long.
pub uses_reach :
    {target : Handler} {max timeout : ℕ} {a b : Adapter}
    → Reach (through target) (fresh max timeout) a.connection
    → a.is_bound ≡ not a.connection.erased
    → Uses target a b
    → Reach (through target) (fresh max timeout) b.connection
      × (b.is_bound ≡ not b.connection.erased)
uses_reach {target} {max} {timeout} {a} {b} h e u = let t = tracks u in (t.reach, t.bound_while)
  where
    tracks : {c : Adapter} → Uses target a c → Tracks (through target) max timeout c
    tracks given = record { reach = h; bound_while = e }
    tracks (event {b = d} r u alive) = called_back-Tracks target r d alive (tracks u)
    tracks (session {b = d} k u) = forward-Tracks k d (tracks u)
