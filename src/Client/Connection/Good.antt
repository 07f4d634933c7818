-- ===== src/Client/Connection/Good.antt =====
-- What each handler of the connection (src/client/client.cpp) leaves.
use cfrp.Base.{
  ℕ, suc, ◌+◌, ◌%◌, ◌≤◌, ◌<◌, ◌≡◌, refl, sym, ◌∙◌, subst, List, [], ◌∷◌, ◌++◌, Option, none, some,
  Bool, true, false, if◌then◌else◌, if_rule, ltb, arith, All, inl, inr, ◌⊎◌, true≢false, ltb→lt,
}
use cfrp.Client.Connection.{
  Protocol, auto, quic, tcp, websocket, other, Connection, Task, resolve, connect_tcp, shake,
  handshake_timer, quic_connect, read_control, reconnect_timer, post_connect, post_disconnect,
  cancel_handshake_timer, close_udp, stop_mux, close_quic, Step, also, is_auto, schedule_reconnect,
  stops, closes, fail_over, handle_disconnect,
}

-- The answer of this task makes the client go on.
abbrev pub IsLive : Connection → Task → Type 0
IsLive c (resolve id) = id ≡ c.connection_id
IsLive c (connect_tcp id) = id ≡ c.connection_id
IsLive c (shake id) = id ≡ c.connection_id
IsLive c (read_control id) = id ≡ c.connection_id
IsLive c (handshake_timer id) = id ≡ c.connection_id
IsLive c (reconnect_timer d) = Unit
IsLive c post_connect = Unit
IsLive c post_disconnect = Unit
IsLive c (quic_connect id e) = ⊥
IsLive c cancel_handshake_timer = ⊥
IsLive c close_udp = ⊥
IsLive c (stop_mux m) = ⊥
IsLive c (close_quic q) = ⊥

abbrev pub AnyLive : Connection → List Task → Type 0
AnyLive c [] = ⊥
AnyLive c (t ∷ ts) = IsLive c t ⊎ AnyLive c ts

abbrev pub OfQuic : Connection → ℕ → Type 0
OfQuic c id = (id < c.connection_id) ⊎ ((id ≡ c.connection_id) × (c.current_protocol ≡ quic))

-- A handshake of QUIC is of an earlier connection, or the present one uses QUIC.
abbrev pub IsSane : Connection → Task → Type 0
IsSane c (handshake_timer id) = OfQuic c id
IsSane c (quic_connect id e) = OfQuic c id
IsSane c t = Unit

-- A delay of the timer.
abbrev pub IsDelay : ℕ → Type 0
IsDelay d = (d % 10 ≡ 0) × (d ≤ 600)

pub record Good (c c' : Connection) (more : List Task) : Type 0 where
  pub moves :
      ((c'.connection_id ≡ c.connection_id) × (c'.current_protocol ≡ c.current_protocol))
      ⊎ (c.connection_id < c'.connection_id)
  pub sane : All (IsSane c') more
  pub delay : IsDelay c.reconnect_delay_sec → IsDelay c'.reconnect_delay_sec
  pub stays_stopped : c'.stopping ≡ false → c.stopping ≡ false
  pub awake : c'.stopping ≡ false → AnyLive c' more

abbrev pub GoodStep : Connection → Step → Type 0
GoodStep c s = Good c s.0 s.1

schedule_reconnect-Good : (c : Connection) → GoodStep c (schedule_reconnect c)
unfolding schedule_reconnect
schedule_reconnect-Good c =
    if_rule {A = Step} (GoodStep c) c.stopping
      (λ e. record {
        moves = inl (refl, refl);
        sane = tt;
        delay = λ h. h;
        stays_stopped = λ h. h;
        awake = λ h. absurd (true≢false (sym e ∙ h));
      })
      (λ e. by_delay (ltb c.reconnect_delay_sec 600) refl)
  where
    by_delay :
        (b : Bool)
        → ltb c.reconnect_delay_sec 600 ≡ b
        → Good c
            (if b then record c { reconnect_delay_sec = c.reconnect_delay_sec + 10 } else c)
            (reconnect_timer c.reconnect_delay_sec ∷ [])
    by_delay true e = record {
      moves = inl (refl, refl);
      sane = (tt, tt);
      delay = λ (r, le). (omega (arith, r), omega (arith, r, ltb→lt _ _ e));
      stays_stopped = λ h. h;
      awake = λ h. inl tt;
    }
    by_delay false e = record {
      moves = inl (refl, refl);
      sane = (tt, tt);
      delay = λ h. h;
      stays_stopped = λ h. h;
      awake = λ h. inl tt;
    }

-- A step from a connection that is like this one, but later.
later-Good :
    (c c' : Connection) (s : Step)
    → c.connection_id < c'.connection_id
    → c'.reconnect_delay_sec ≡ c.reconnect_delay_sec
    → c'.stopping ≡ c.stopping
    → GoodStep c' s
    → GoodStep c s
later-Good c c' s lt d e g = record {
  moves = inr (elim g.moves [ inl (i, p) ↦ omega (arith, lt, i) | inr i ↦ omega (arith, lt, i) ]);
  sane = g.sane;
  delay = λ h. g.delay (subst IsDelay (sym d) h);
  stays_stopped = λ h. sym e ∙ g.stays_stopped h;
  awake = g.awake;
}

-- What is asked of others before.
pub AnyLive-behind :
    (c : Connection) (ts more : List Task) → AnyLive c more → AnyLive c (ts ++ more)
AnyLive-behind c [] more a = a
AnyLive-behind c (t ∷ ts) more a = inr (AnyLive-behind c ts more a)

All-append :
    (c : Connection) (ts more : List Task)
    → All (IsSane c) ts
    → All (IsSane c) more
    → All (IsSane c) (ts ++ more)
All-append c [] more a b = b
All-append c (t ∷ ts) more (h, a) b = (h, All-append c ts more a b)

pub also-Good :
    (c : Connection) (ts : List Task) (s : Step)
    → ((d : Connection) → All (IsSane d) ts)
    → GoodStep c s
    → GoodStep c (also ts s)
also-Good c ts (d, more) a g = record {
  moves = g.moves;
  sane = All-append d ts more (a d) g.sane;
  delay = g.delay;
  stays_stopped = g.stays_stopped;
  awake = λ h. AnyLive-behind d ts more (g.awake h);
}

stops-Sane :
    (o : Option ℕ) (rest : List Task) (d : Connection)
    → All (IsSane d) rest
    → All (IsSane d) (stops o ++ rest)
stops-Sane none rest d h = h
stops-Sane (some m) rest d h = (tt, h)

pub closes-Sane :
    (o : Option ℕ) (rest : List Task) (d : Connection)
    → All (IsSane d) rest
    → All (IsSane d) (closes o ++ rest)
closes-Sane none rest d h = h
closes-Sane (some m) rest d h = (tt, h)

fail_over-Good :
    (p : Protocol) (c c' : Connection)
    → c.connection_id < c'.connection_id
    → c'.reconnect_delay_sec ≡ c.reconnect_delay_sec
    → c'.stopping ≡ c.stopping
    → GoodStep c (fail_over p c')
fail_over-Good p c c' lt d e = by_protocol p
  where
    posts : (q : Protocol) → Good c (record c' { current_protocol = q }) (post_connect ∷ [])
    posts q = record {
      moves = inr lt;
      sane = (tt, tt);
      delay = λ h. subst IsDelay (sym d) h;
      stays_stopped = λ h. sym e ∙ h;
      awake = λ h. inl tt;
    }

    waits : GoodStep c (schedule_reconnect (record c' { current_protocol = quic }))
    waits =
        later-Good c (record c' { current_protocol = quic })
          (schedule_reconnect (record c' { current_protocol = quic })) lt d e
          (schedule_reconnect-Good (record c' { current_protocol = quic }))

    by_protocol : (p : Protocol) → GoodStep c (fail_over p c')
    by_protocol quic = posts tcp
    by_protocol tcp = posts websocket
    by_protocol websocket = waits
    by_protocol auto = waits
    by_protocol other = waits

pub handle_disconnect-Good : (c : Connection) → GoodStep c (handle_disconnect c)
unfolding handle_disconnect
handle_disconnect-Good c =
    also-Good c (stops c.mux_session ++ (closes c.quic_session ++ (close_udp ∷ []))) _
      (λ d. stops-Sane c.mux_session _ d (closes-Sane c.quic_session _ d (tt, tt)))
      (if_rule {A = Step} (GoodStep c) c.stopping
        (λ e. record {
          moves = inr (omega arith);
          sane = tt;
          delay = λ h. h;
          stays_stopped = λ h. h;
          awake = λ h. absurd (true≢false (sym e ∙ h));
        })
        (λ _.
          if_rule {A = Step} (GoodStep c) (is_auto c.protocol)
            (λ _. fail_over-Good c.current_protocol c after (omega arith) refl refl)
            (λ _.
              later-Good c after (schedule_reconnect after) (omega arith) refl refl
                (schedule_reconnect-Good after))))
  where
    after : Connection
    after = record c {
      connection_id = suc c.connection_id;
      mux_session = none;
      quic_session = none;
      control_stream = none;
    }
