-- ===== src/Client/Connection.antt =====
-- How a `Client` connects, loses its connection and connects again (src/client/client.cpp). Sessions,
-- streams and endpoints are their references, and the objects that a handler makes are arguments of it.
-- A handler gives the tasks that it starts: each is answered later by a handler of its own. Those of the
-- handshake timer, of the QUIC session and of its socket do not run on the strand of the client, where
-- `HandleDisconnect` posts itself. Logging and the configuration of TLS are left out, and `int` has no bound.
pub mod Runs
pub mod Good
pub mod Answers
pub mod Awake
use cfrp.Base.{
  ℕ, zero, suc, ◌+◌, List, [], ◌∷◌, ◌++◌, Option, none, some, Bool, true, false, not, ◌&&◌, ◌||◌,
  if◌then◌else◌, ltb, ◌==◌, length,
}

-- The strings that `protocol_` and `current_protocol_` are compared with.
pub data Protocol : Type 0 where
  auto quic tcp websocket other : Protocol

pub record Connection : Type 0 where
  pub protocol : Protocol
  pub current_protocol : Protocol
  pub connection_id : ℕ
  pub reconnect_delay_sec : ℕ
  pub stopping : Bool
  pub mux_session : Option ℕ
  pub control_stream : Option ℕ
  pub quic_session : Option ℕ
  -- `quic_endpoints_` from `quic_endpoint_index_` on
  pub quic_endpoints : List ℕ

-- What is started, and what is asked of others.
pub data Task : Type 0 where
  -- answered with the connection that they were started for
  resolve connect_tcp shake : ℕ → Task
  -- the timer of 5 seconds, and the callbacks of a session to an endpoint
  handshake_timer : ℕ → Task
  quic_connect : ℕ → ℕ → Task
  -- `DoReadHeader` on the control stream, after the login was sent
  read_control : ℕ → Task
  -- after so many seconds
  reconnect_timer : ℕ → Task
  -- posted to the strand
  post_connect post_disconnect : Task
  -- not answered
  cancel_handshake_timer close_udp : Task
  stop_mux close_quic : ℕ → Task

abbrev pub Step : Type 0
Step = Connection × List Task

abbrev pub also : List Task → Step → Step
also ts (c, more) = (c, ts ++ more)

abbrev pub is_quic : Protocol → Bool
is_quic quic = true
is_quic _ = false

abbrev pub is_auto : Protocol → Bool
is_auto auto = true
is_auto _ = false

-- `current_protocol_` of a new client.
abbrev pub first_protocol : Protocol → Protocol
first_protocol auto = quic
first_protocol p = p

unfoldable pub new : Protocol → Connection
new p = record {
  protocol = p;
  current_protocol = first_protocol p;
  connection_id = 0;
  reconnect_delay_sec = 0;
  stopping = false;
  mux_session = none;
  control_stream = none;
  quic_session = none;
  quic_endpoints = [];
}

unfoldable pub do_connect : Connection → Step
do_connect c =
    (record c { connection_id = suc c.connection_id }, resolve (suc c.connection_id) ∷ [])

unfoldable pub schedule_reconnect : Connection → Step
schedule_reconnect c = if c.stopping then (c, []) else (
  if ltb c.reconnect_delay_sec 600
      then record c { reconnect_delay_sec = c.reconnect_delay_sec + 10 }
      else c,
  reconnect_timer c.reconnect_delay_sec ∷ [],
)

abbrev pub stops : Option ℕ → List Task
stops none = []
stops (some m) = stop_mux m ∷ []

abbrev pub closes : Option ℕ → List Task
closes none = []
closes (some q) = close_quic q ∷ []

-- The next protocol of "auto": at once, but for the last one.
abbrev pub fail_over : Protocol → Connection → Step
fail_over quic c = (record c { current_protocol = tcp }, post_connect ∷ [])
fail_over tcp c = (record c { current_protocol = websocket }, post_connect ∷ [])
fail_over p c = schedule_reconnect (record c { current_protocol = quic })

unfoldable pub handle_disconnect : Connection → Step
unfolding schedule_reconnect
handle_disconnect c =
    let c' : Connection = record c {
      connection_id = suc c.connection_id;
      mux_session = none;
      quic_session = none;
      control_stream = none;
    } in
    also (stops c.mux_session ++ (closes c.quic_session ++ (close_udp ∷ []))) (
      if c.stopping
      then (c', [])
      else if is_auto c.protocol
      then fail_over c.current_protocol c'
      else schedule_reconnect c')

unfoldable pub stop : Connection → Step
unfolding handle_disconnect
stop c = handle_disconnect (record c { stopping = true })

-- The control stream is opened, the login is sent and the answer is read.
unfoldable pub on_connect : Bool → ℕ → ℕ → Connection → Step
unfolding handle_disconnect
on_connect failed mux stream c = also (cancel_handshake_timer ∷ []) (
    if failed then handle_disconnect c else (
      record c { reconnect_delay_sec = 0; mux_session = some mux; control_stream = some stream },
      read_control c.connection_id ∷ [],
    ))

-- `RebindUdpSocketForEndpoint` is `binds`. The session is made by `DoQuicConnect`. The first endpoint that
-- can be bound, and those after it.
abbrev pub next_endpoint : (ℕ → Bool) → List ℕ → Option (ℕ × List ℕ)
next_endpoint binds [] = none
next_endpoint binds (e ∷ es) =
    let rest = next_endpoint binds es in if binds e then some (e, es) else rest

-- `DoQuicConnect`
abbrev pub do_quic_connect : ℕ → ℕ → ℕ → Connection → Step
do_quic_connect conn_id session endpoint c = (
  record c { quic_session = some session },
  handshake_timer conn_id ∷ quic_connect conn_id endpoint ∷ [],
)

-- Whether there was an endpoint, and what was done.
unfoldable pub try_next_quic_endpoint : ℕ → (ℕ → Bool) → ℕ → Connection → Bool × Step
try_next_quic_endpoint conn_id binds session c =
    if not (conn_id == c.connection_id)
    then (false, (c, []))
    else let c' : Connection = record c { quic_session = none } in
      let before : List Task = cancel_handshake_timer ∷ closes c.quic_session in
      elim (next_endpoint binds c.quic_endpoints) [
        | none ↦ (false, (record c' { quic_endpoints = [] }, before))
        | some (e, es) ↦ (
          true,
          also before (do_quic_connect conn_id session e (record c' { quic_endpoints = es })),
        )
      ]

abbrev pub or_else : Bool × Step → (Connection → Step) → Step
or_else (true, s) f = s
or_else (false, (c, ts)) f = also ts (f c)

-- A handler for an earlier connection does nothing.
abbrev pub if_current : ℕ → (Connection → Step) → Connection → Step
if_current conn_id f c = if conn_id == c.connection_id then f c else (c, [])

abbrev pub is_in : ℕ → List ℕ → Bool
is_in e [] = false
is_in e (x ∷ xs) = let rest = is_in e xs in if x == e then true else rest

-- The loop over the endpoints, behind those that it has found before: each endpoint once.
abbrev pub distinct : List ℕ → List ℕ → List ℕ
distinct seen [] = seen
distinct seen (e ∷ es) = distinct (if is_in e seen then seen else seen ++ (e ∷ [])) es

-- The handler of the resolver, with the endpoints that it found.
abbrev pub resolved_now : ℕ → Option (List ℕ) → (ℕ → Bool) → ℕ → Connection → Step
resolved_now conn_id none binds session c = handle_disconnect c
resolved_now conn_id (some endpoints) binds session c =
    if is_quic c.current_protocol
    then or_else
        (try_next_quic_endpoint conn_id binds session
          (record c { quic_endpoints = distinct [] endpoints }))
        handle_disconnect
    else (c, connect_tcp conn_id ∷ [])

unfoldable pub on_resolved : ℕ → Option (List ℕ) → (ℕ → Bool) → ℕ → Connection → Step
unfolding handle_disconnect try_next_quic_endpoint
on_resolved conn_id found binds session =
    if_current conn_id (resolved_now conn_id found binds session)

abbrev pub connected_now : ℕ → Bool → Connection → Step
connected_now conn_id failed c = if failed then handle_disconnect c else (c, shake conn_id ∷ [])

unfoldable pub on_connected : ℕ → Bool → Connection → Step
unfolding handle_disconnect
on_connected conn_id failed = if_current conn_id (connected_now conn_id failed)

unfoldable pub on_handshake : ℕ → Bool → ℕ → ℕ → Connection → Step
unfolding on_connect
on_handshake conn_id failed mux stream = if_current conn_id (on_connect failed mux stream)

abbrev pub post : Connection → Step
post c = (c, post_disconnect ∷ [])

abbrev pub timed_out_now : ℕ → (ℕ → Bool) → ℕ → Connection → Step
timed_out_now conn_id binds session c =
    if not (is_quic c.current_protocol)
    then (c, [])
    else if is_auto c.protocol
    then or_else (try_next_quic_endpoint conn_id binds session c) post
    else post c

unfoldable pub on_handshake_timer : ℕ → (ℕ → Bool) → ℕ → Connection → Step
unfolding try_next_quic_endpoint
on_handshake_timer conn_id binds session = if_current conn_id (timed_out_now conn_id binds session)

-- `none` is a stream that cannot be opened.
abbrev pub quic_connected_now : Option ℕ → ℕ → Connection → Step
quic_connected_now none mux c = also (cancel_handshake_timer ∷ []) (post c)
quic_connected_now (some stream) mux c =
    also (cancel_handshake_timer ∷ []) (on_connect false mux stream c)

unfoldable pub on_quic_connected : ℕ → Option ℕ → ℕ → Connection → Step
unfolding on_connect
on_quic_connected conn_id stream mux = if_current conn_id (quic_connected_now stream mux)

abbrev pub quic_closed_now : ℕ → (ℕ → Bool) → ℕ → Connection → Step
quic_closed_now conn_id binds session c =
    also (cancel_handshake_timer ∷ [])
      (or_else (try_next_quic_endpoint conn_id binds session c) post)

unfoldable pub on_quic_closed : ℕ → (ℕ → Bool) → ℕ → Connection → Step
unfolding try_next_quic_endpoint
on_quic_closed conn_id binds session = if_current conn_id (quic_closed_now conn_id binds session)

-- A UDP socket that is refused or reset.
unfoldable pub on_udp_refused : Connection → Step
on_udp_refused c = post c

-- A read of the control stream: it goes on, or it failed or a message was too large.
abbrev pub read_now : ℕ → Bool → Connection → Step
read_now conn_id failed c = if failed then handle_disconnect c else (c, read_control conn_id ∷ [])

unfoldable pub on_read : ℕ → Bool → Connection → Step
unfolding handle_disconnect
on_read conn_id failed = if_current conn_id (read_now conn_id failed)

-- A write of a control message.
unfoldable pub on_written : ℕ → Bool → Connection → Step
unfolding handle_disconnect
on_written conn_id failed c = if failed then if_current conn_id handle_disconnect c else (c, [])

-- The timer runs out while the client is there. It is not asked whether the client stops.
unfoldable pub on_reconnect_timer : Connection → Step
unfolding do_connect
on_reconnect_timer c = do_connect c

unfoldable pub on_post_connect : Connection → Step
unfolding do_connect
on_post_connect c = if c.stopping then (c, []) else do_connect c
