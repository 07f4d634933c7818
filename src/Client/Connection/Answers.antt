-- ===== src/Client/Connection/Answers.antt =====
-- What the answer of each task leaves (src/client/client.cpp).
use cfrp.Base.{
  ℕ, ◌≡◌, refl, sym, ap, ◌∙◌, List, [], ◌∷◌, Option, none, some, Bool, true, false, not,
  if◌then◌else◌, if_rule, ◌==◌, arith, All, Takes-All, inl, inr, true≢false, ==_iff,
}
use cfrp.Client.Connection.{
  Protocol, auto, quic, tcp, websocket, other, Connection, Task, connect_tcp, shake, read_control,
  cancel_handshake_timer, Step, also, is_quic, is_auto, do_connect, closes, handle_disconnect, stop,
  on_connect, next_endpoint, try_next_quic_endpoint, or_else, if_current, do_quic_connect, distinct,
  on_resolved, on_connected, on_handshake, on_handshake_timer, on_quic_connected, on_quic_closed,
  on_udp_refused, on_read, on_written, on_reconnect_timer, on_post_connect, post, resolved_now,
  connected_now, timed_out_now, quic_connected_now, quic_closed_now, read_now,
}
use cfrp.Client.Connection.Runs.{
  Answers, resolved, connected, shaken, timed_out, has_read, waited, connects, disconnects, Happens,
  stopped, refused, quic_up, quic_down, has_written,
}
use cfrp.Client.Connection.Good.{
  IsLive, OfQuic, IsSane, GoodStep, also-Good, handle_disconnect-Good,
}

-- Nothing happens, and a client that does not stop did not wait for it.
abbrev pub Quiet : Connection → Type 0 → Step → Type 0
Quiet c Live s = (s ≡ (c, [])) × (Live → c.stopping ≡ true)

pub data Outcome (c : Connection) (Live : Type 0) (s : Step) : Type 0 where
  good : GoodStep c s → Outcome c Live s
  quiet : s ≡ (c, []) → (Live → c.stopping ≡ true) → Outcome c Live s

do_connect-Good : (c : Connection) → GoodStep c (do_connect c)
unfolding do_connect
do_connect-Good c = record {
  moves = inr (omega arith);
  sane = (tt, tt);
  delay = λ h. h;
  stays_stopped = λ h. h;
  awake = λ h. inl refl;
}

post-Good : (c : Connection) → GoodStep c (post c)
post-Good c = record {
  moves = inl (refl, refl);
  sane = (tt, tt);
  delay = λ h. h;
  stays_stopped = λ h. h;
  awake = λ h. inl tt;
}

-- A task that the present connection waits for, and that no endpoint is tried for.
goes_on : (c : Connection) (t : Task) → IsLive c t → IsSane c t → GoodStep c (c, t ∷ [])
goes_on c t l a = record {
  moves = inl (refl, refl);
  sane = (a, tt);
  delay = λ h. h;
  stays_stopped = λ h. h;
  awake = λ h. inl l;
}

on_connect-Good :
    (failed : Bool) (mux stream : ℕ) (c : Connection) → GoodStep c (on_connect failed mux stream c)
unfolding on_connect
on_connect-Good failed mux stream c =
    also-Good c (cancel_handshake_timer ∷ []) _ (λ d. (tt, tt))
      (if_rule {A = Step} (GoodStep c) failed (λ _. handle_disconnect-Good c)
        (λ _. record {
          moves = inl (refl, refl);
          sane = (tt, tt);
          delay = λ _. (refl, omega arith);
          stays_stopped = λ h. h;
          awake = λ h. inl refl;
        }))

-- The next endpoint, or what is done where there is none.
try-Good :
    (id : ℕ) (binds : ℕ → Bool) (session : ℕ) (c : Connection) (f : Connection → Step)
    → id ≡ c.connection_id
    → c.current_protocol ≡ quic
    → ((d : Connection) → GoodStep d (f d))
    → GoodStep c (or_else (try_next_quic_endpoint id binds session c) f)
unfolding try_next_quic_endpoint
try-Good id binds session c f e q g =
    if_rule {A = Bool × Step} (λ r. GoodStep c (or_else r f)) (not (id == c.connection_id))
      (λ t. absurd (stale t)) (λ _. by_endpoint (next_endpoint binds c.quic_endpoints))
  where
    stale : not (id == c.connection_id) ≡ true → ⊥
    stale t = ground (arith, t, e)

    d : Connection
    d = record c { quic_session = none; quic_endpoints = [] }

    before : List Task
    before = cancel_handshake_timer ∷ closes c.quic_session

    before-Sane : (d : Connection) → All (IsSane d) before
    before-Sane d = (tt, closes_only c.quic_session)
      where
        closes_only : (o : Option ℕ) → All (IsSane d) (closes o)
        closes_only none = tt
        closes_only (some m) = (tt, tt)

    by_endpoint :
        (o : Option (ℕ × List ℕ))
        → GoodStep c (
            or_else
              (elim o [
                | none ↦ (false, (d, before))
                | some (x, es) ↦ (
                  true,
                  also before (
                      do_quic_connect id session x
                        (record c { quic_session = none; quic_endpoints = es })),
                )
              ])
              f)
    by_endpoint none = also-Good c before (f d) before-Sane (
        let h = g d in
        record {
          moves = h.moves;
          sane = h.sane;
          delay = h.delay;
          stays_stopped = h.stays_stopped;
          awake = h.awake;
        })
    by_endpoint (some (x, es)) =
        also-Good c before
          (do_quic_connect id session x (record c { quic_session = none; quic_endpoints = es }))
          before-Sane
          (record {
            moves = inl (refl, refl);
            sane = (inr (e, q), (inr (e, q), tt));
            delay = λ h. h;
            stays_stopped = λ h. h;
            awake = λ h. inl e;
          })

-- A handler of this connection, or of an earlier one.
current-Outcome :
    (id : ℕ) (f : Connection → Step) (c : Connection)
    → (id ≡ c.connection_id → GoodStep c (f c))
    → Outcome c (id ≡ c.connection_id) (if_current id f c)
current-Outcome id f c h = by_id (id == c.connection_id) refl
  where
    by_id :
        (b : Bool)
        → (id == c.connection_id) ≡ b
        → Outcome c (id ≡ c.connection_id) (if b then f c else (c, []))
    by_id true e = good (h ((==_iff id c.connection_id).0 e))
    by_id false e =
        quiet refl (λ l. absurd (true≢false (sym ((==_iff id c.connection_id).1 l) ∙ e)))

unneeded : {c : Connection} {Live : Type 0} {s : Step} → Outcome c Live s → Outcome c ⊥ s
unneeded (good g) = good g
unneeded (quiet e h) = quiet e (λ x. absurd x)

is_quic_lem : (p : Protocol) → is_quic p ≡ true → p ≡ quic
is_quic_lem quic e = refl
is_quic_lem auto e = absurd (true≢false (sym e))
is_quic_lem tcp e = absurd (true≢false (sym e))
is_quic_lem websocket e = absurd (true≢false (sym e))
is_quic_lem other e = absurd (true≢false (sym e))

uses_quic :
    (c : Connection) (id : ℕ) → OfQuic c id → id ≡ c.connection_id → c.current_protocol ≡ quic
uses_quic c id (inl lt) e = absurd (omega (arith, lt, e))
uses_quic c id (inr (_, q)) e = q

not_quic : (p : Protocol) → p ≡ quic → not (is_quic p) ≡ true → ⊥
not_quic p q n = true≢false (sym n ∙ ap (λ p. not (is_quic p)) q)

resolved_now-Good :
    (id : ℕ) (found : Option (List ℕ)) (binds : ℕ → Bool) (session : ℕ) (c : Connection)
    → id ≡ c.connection_id
    → GoodStep c (resolved_now id found binds session c)
resolved_now-Good id none binds session c e = handle_disconnect-Good c
resolved_now-Good id (some es) binds session c e =
    let d : Connection = record c { quic_endpoints = distinct [] es } in
    if_rule {A = Step} (GoodStep c) (is_quic c.current_protocol)
      {x = or_else (try_next_quic_endpoint id binds session d) handle_disconnect}
      (λ q.
        let g =
          try-Good id binds session d handle_disconnect e (is_quic_lem c.current_protocol q)
            handle_disconnect-Good in
        record {
          moves = g.moves;
          sane = g.sane;
          delay = g.delay;
          stays_stopped = g.stays_stopped;
          awake = g.awake;
        })
      (λ _. goes_on c (connect_tcp id) e tt)

timed_out_now-Good :
    (id : ℕ) (binds : ℕ → Bool) (session : ℕ) (c : Connection)
    → id ≡ c.connection_id
    → c.current_protocol ≡ quic
    → GoodStep c (timed_out_now id binds session c)
timed_out_now-Good id binds session c e q =
    if_rule {A = Step} (GoodStep c) (not (is_quic c.current_protocol)) {x = (c, [])}
      (λ n. absurd (not_quic c.current_protocol q n))
      (λ _.
        if_rule {A = Step} (GoodStep c) (is_auto c.protocol)
          (λ _. try-Good id binds session c post e q post-Good) (λ _. post-Good c))

quic_connected_now-Good :
    (stream : Option ℕ) (mux : ℕ) (c : Connection) → GoodStep c (quic_connected_now stream mux c)
quic_connected_now-Good none mux c =
    also-Good c (cancel_handshake_timer ∷ []) (post c) (λ d. (tt, tt)) (post-Good c)
quic_connected_now-Good (some stream) mux c =
    also-Good c (cancel_handshake_timer ∷ []) (on_connect false mux stream c) (λ d. (tt, tt))
      (on_connect-Good false mux stream c)

-- A read or a connection that failed, or not.
disconnect_or-Good :
    (failed : Bool) (c : Connection) (s : Step)
    → GoodStep c s
    → GoodStep c (if failed then handle_disconnect c else s)
disconnect_or-Good true c s g = handle_disconnect-Good c
disconnect_or-Good false c s g = g

pub answer-Outcome :
    (c : Connection) (t : Task) (s : Step) → IsSane c t → Answers c t s → Outcome c (IsLive c t) s
unfolding on_resolved on_connected on_handshake on_handshake_timer on_read on_reconnect_timer
    on_post_connect
answer-Outcome c t s sane (resolved id found binds session) =
    current-Outcome id (resolved_now id found binds session) c
      (resolved_now-Good id found binds session c)
answer-Outcome c t s sane (connected id failed) =
    current-Outcome id (connected_now id failed) c
      (λ e. disconnect_or-Good failed c (c, shake id ∷ []) (goes_on c (shake id) e tt))
answer-Outcome c t s sane (shaken id failed mux stream) =
    current-Outcome id (on_connect failed mux stream) c (λ _. on_connect-Good failed mux stream c)
answer-Outcome c t s sane (timed_out id binds session) =
    current-Outcome id (timed_out_now id binds session) c
      (λ e. timed_out_now-Good id binds session c e (uses_quic c id sane e))
answer-Outcome c t s sane (has_read id failed) =
    current-Outcome id (read_now id failed) c (λ e.
      disconnect_or-Good failed c (c, read_control id ∷ []) (goes_on c (read_control id) e tt))
answer-Outcome c t s sane (waited delay) = good (do_connect-Good c)
answer-Outcome c t s sane connects = by_stop c.stopping refl
  where
    by_stop : (b : Bool) → c.stopping ≡ b → Outcome c Unit (if b then (c, []) else do_connect c)
    by_stop true e = quiet refl (λ _. e)
    by_stop false e = good (do_connect-Good c)
answer-Outcome c t s sane disconnects = good (handle_disconnect-Good c)

stop-Good : (c : Connection) → GoodStep c (stop c)
unfolding stop
stop-Good c =
    let g = handle_disconnect-Good (record c { stopping = true }) in
    record {
      moves = g.moves;
      sane = g.sane;
      delay = g.delay;
      stays_stopped = λ h. absurd (true≢false (g.stays_stopped h));
      awake = g.awake;
    }

pub happening-Outcome :
    (c : Connection) (ts : List Task) (s : Step)
    → All (IsSane c) ts
    → Happens c ts s
    → Outcome c ⊥ s
unfolding on_quic_connected on_quic_closed on_written on_udp_refused
happening-Outcome c ts s sane stopped = good (stop-Good c)
happening-Outcome c ts s sane refused = good (post-Good c)
happening-Outcome c ts s sane (quic_up id endpoint rest stream mux k) = unneeded (
    current-Outcome id (quic_connected_now stream mux) c
      (λ _. quic_connected_now-Good stream mux c))
happening-Outcome c ts s sane (quic_down id endpoint rest binds session k) = unneeded (
    current-Outcome id (quic_closed_now id binds session) c (λ e.
      also-Good c (cancel_handshake_timer ∷ [])
        (or_else (try_next_quic_endpoint id binds session c) post) (λ d. (tt, tt))
        (try-Good id binds session c post e (uses_quic c id (Takes-All (IsSane c) k sane).0 e)
          post-Good)))
happening-Outcome c ts s sane (has_written id false) = quiet refl (λ h. absurd h)
happening-Outcome c ts s sane (has_written id true) =
    unneeded (current-Outcome id handle_disconnect c (λ _. handle_disconnect-Good c))
