-- ===== src/Client/Connection/Runs.antt =====
-- What happens to a connection of the client (src/client/client.cpp), with the tasks that wait.
use cfrp.Base.{ℕ, List, [], ◌∷◌, ◌++◌, Option, Bool, true, false, if◌then◌else◌, Takes}
use cfrp.Client.Connection.{
  Protocol, Connection, Task, resolve, connect_tcp, shake, handshake_timer, quic_connect,
  read_control, reconnect_timer, post_connect, post_disconnect, cancel_handshake_timer, Step, new,
  do_connect, handle_disconnect, stop, on_resolved, on_connected, on_handshake, on_handshake_timer,
  on_quic_connected, on_quic_closed, on_udp_refused, on_read, on_written, on_reconnect_timer,
  on_post_connect,
}

abbrev pub cancels : List Task → Bool
cancels [] = false
cancels (cancel_handshake_timer ∷ ts) = true
cancels (t ∷ ts) = cancels ts

abbrev pub rearms : List Task → Bool
rearms [] = false
rearms (reconnect_timer d ∷ ts) = true
rearms (t ∷ ts) = rearms ts

-- A timer that is cancelled, or set again, is not answered. (asio may still run a handler that was queued when
-- its timer was cancelled: these runs are left out.)
abbrev pub keeps : Bool → Bool → Task → Bool
keeps true r (handshake_timer id) = false
keeps c true (reconnect_timer d) = false
keeps c r t = true

abbrev pub remaining : Bool → Bool → List Task → List Task
remaining c r [] = []
remaining c r (t ∷ ts) = let rest = remaining c r ts in if keeps c r t then t ∷ rest else rest

-- The tasks of a handler join those that wait. It sets timers only after it has cancelled them.
abbrev pub enqueue : List Task → List Task → List Task
enqueue waiting more = remaining (cancels more) (rearms more) waiting ++ more

-- A task is answered.
pub data Answers (c : Connection) : Task → Step → Type 0 where
  resolved :
      (id : ℕ) (found : Option (List ℕ)) (binds : ℕ → Bool) (session : ℕ)
      → Answers c (resolve id) (on_resolved id found binds session c)
  connected : (id : ℕ) (failed : Bool) → Answers c (connect_tcp id) (on_connected id failed c)
  shaken :
      (id : ℕ) (failed : Bool) (mux stream : ℕ)
      → Answers c (shake id) (on_handshake id failed mux stream c)
  timed_out :
      (id : ℕ) (binds : ℕ → Bool) (session : ℕ)
      → Answers c (handshake_timer id) (on_handshake_timer id binds session c)
  has_read : (id : ℕ) (failed : Bool) → Answers c (read_control id) (on_read id failed c)
  waited : (delay : ℕ) → Answers c (reconnect_timer delay) (on_reconnect_timer c)
  connects : Answers c post_connect (on_post_connect c)
  disconnects : Answers c post_disconnect (handle_disconnect c)

-- What else happens: the callbacks of a QUIC session come at any time, and the writes are not kept here.
pub data Happens (c : Connection) (ts : List Task) : Step → Type 0 where
  stopped : Happens c ts (stop c)
  refused : Happens c ts (on_udp_refused c)
  quic_up :
      (id endpoint : ℕ) (rest : List Task) (stream : Option ℕ) (mux : ℕ)
      → Takes (quic_connect id endpoint) ts rest
      → Happens c ts (on_quic_connected id stream mux c)
  quic_down :
      (id endpoint : ℕ) (rest : List Task) (binds : ℕ → Bool) (session : ℕ)
      → Takes (quic_connect id endpoint) ts rest
      → Happens c ts (on_quic_closed id binds session c)
  has_written : (id : ℕ) (failed : Bool) → Happens c ts (on_written id failed c)

pub data Reach (p : Protocol) : Connection → List Task → Type 0 where
  run : Reach p (do_connect (new p)).0 (do_connect (new p)).1
  answered :
      {c : Connection} {ts : List Task}
      → Reach p c ts
      → (t : Task) (rest : List Task) (s : Step) → Takes t ts rest
      → Answers c t s
      → Reach p s.0 (enqueue rest s.1)
  happened :
      {c : Connection} {ts : List Task}
      → Reach p c ts
      → (s : Step) → Happens c ts s
      → Reach p s.0 (enqueue ts s.1)
