-- ===== src/Client/Connection/Awake.antt =====
-- That a client goes on (src/client/client.cpp).
use cfrp.Base.{
  ℕ, ◌≤◌, ◌<◌, ◌≡◌, refl, sym, ap, ◌∙◌, subst, List, [], ◌∷◌, ◌++◌, Bool, true, false, if_rule,
  arith, All, inl, inr, ◌⊎◌, true≢false, append-nil, All-map, Takes, front, behind, Takes-All,
}
use cfrp.Client.Connection.{
  Protocol, Connection, Task, resolve, connect_tcp, shake, handshake_timer, quic_connect,
  read_control, reconnect_timer, post_connect, post_disconnect, cancel_handshake_timer, close_udp,
  stop_mux, close_quic, Step, new, do_connect,
}
use cfrp.Client.Connection.Runs.{
  cancels, rearms, keeps, remaining, enqueue, Reach, run, answered, happened,
}
use cfrp.Client.Connection.Good.{IsLive, AnyLive, OfQuic, IsSane, IsDelay, GoodStep, AnyLive-behind}
use cfrp.Client.Connection.Answers.{Outcome, good, quiet, answer-Outcome, happening-Outcome}

-- Between two handlers.
pub record Inv (c : Connection) (ts : List Task) : Type 0 where
  pub sane : All (IsSane c) ts
  pub delay : IsDelay c.reconnect_delay_sec
  pub awake : c.stopping ≡ false → AnyLive c ts

Takes-AnyLive :
    {t : Task} {ts rest : List Task} (c : Connection)
    → Takes t ts rest
    → (IsLive c t → ⊥)
    → AnyLive c ts
    → AnyLive c rest
Takes-AnyLive c front n (inl l) = absurd (n l)
Takes-AnyLive c front n (inr a) = a
Takes-AnyLive c (behind k) n (inl l) = inl l
Takes-AnyLive c (behind k) n (inr a) = inr (Takes-AnyLive c k n a)

remaining-All :
    (P : Task → Type 0) (c r : Bool) (ts : List Task) → All P ts → All P (remaining c r ts)
remaining-All P c r [] a = tt
remaining-All P c r (t ∷ ts) (h, a) =
    if_rule (All P) (keeps c r t) (λ _. (h, remaining-All P c r ts a))
      (λ _. remaining-All P c r ts a)

append-All : (P : Task → Type 0) (ts us : List Task) → All P ts → All P us → All P (ts ++ us)
append-All P [] us a b = b
append-All P (t ∷ ts) us (h, a) b = (h, append-All P ts us a b)

keeps_all : (t : Task) → keeps false false t ≡ true
keeps_all t = refl

remaining_all : (ts : List Task) → remaining false false ts ≡ ts
remaining_all [] = refl
remaining_all (t ∷ ts) = ap (λ rest. t ∷ rest) (remaining_all ts)

-- A task that was sane stays so.
OfQuic-moves :
    (c c' : Connection) (id : ℕ)
    → ((c'.connection_id ≡ c.connection_id) × (c'.current_protocol ≡ c.current_protocol))
      ⊎ (c.connection_id < c'.connection_id)
    → OfQuic c id
    → OfQuic c' id
OfQuic-moves c c' id (inl (i, p)) (inl lt) = inl (omega (arith, i, lt))
OfQuic-moves c c' id (inl (i, p)) (inr (e, q)) = inr (e ∙ sym i, p ∙ q)
OfQuic-moves c c' id (inr i) (inl lt) = inl (omega (arith, i, lt))
OfQuic-moves c c' id (inr i) (inr (e, q)) = inl (omega (arith, i, e))

IsSane-moves :
    (c c' : Connection) (t : Task)
    → ((c'.connection_id ≡ c.connection_id) × (c'.current_protocol ≡ c.current_protocol))
      ⊎ (c.connection_id < c'.connection_id)
    → IsSane c t
    → IsSane c' t
IsSane-moves c c' (handshake_timer id) m h = OfQuic-moves c c' id m h
IsSane-moves c c' (quic_connect id e) m h = OfQuic-moves c c' id m h
IsSane-moves c c' (resolve id) m h = tt
IsSane-moves c c' (connect_tcp id) m h = tt
IsSane-moves c c' (shake id) m h = tt
IsSane-moves c c' (read_control id) m h = tt
IsSane-moves c c' (reconnect_timer d) m h = tt
IsSane-moves c c' post_connect m h = tt
IsSane-moves c c' post_disconnect m h = tt
IsSane-moves c c' cancel_handshake_timer m h = tt
IsSane-moves c c' close_udp m h = tt
IsSane-moves c c' (stop_mux x) m h = tt
IsSane-moves c c' (close_quic x) m h = tt

good-Inv :
    (c : Connection) (rest : List Task) (s : Step)
    → All (IsSane c) rest
    → IsDelay c.reconnect_delay_sec
    → GoodStep c s
    → Inv s.0 (enqueue rest s.1)
good-Inv c rest s sane d g = record {
  sane =
      append-All (IsSane s.0) (remaining (cancels s.1) (rearms s.1) rest) s.1
        (All-map (remaining (cancels s.1) (rearms s.1) rest) (λ t h. IsSane-moves c s.0 t g.moves h)
          (remaining-All (IsSane c) (cancels s.1) (rearms s.1) rest sane))
        g.sane;
  delay = g.delay d;
  awake = λ h. AnyLive-behind s.0 (remaining (cancels s.1) (rearms s.1) rest) s.1 (g.awake h);
}

same-Inv :
    (c : Connection) (rest : List Task) (s : Step)
    → s ≡ (c, [])
    → Inv c rest
    → Inv s.0 (enqueue rest s.1)
same-Inv c rest s e v =
    subst (λ s. Inv s.0 (enqueue rest s.1)) (sym e)
      (subst (Inv c) (sym (append-nil (remaining false false rest) ∙ remaining_all rest)) v)

answered-Inv :
    {c : Connection} {ts rest : List Task} {t : Task} {s : Step}
    → Inv c ts
    → Takes t ts rest
    → Outcome c (IsLive c t) s
    → Inv s.0 (enqueue rest s.1)
answered-Inv {c} {ts} {rest} {t} {s} v k (good g) =
    good-Inv c rest s (Takes-All (IsSane c) k v.sane).1 v.delay g
answered-Inv {c} {ts} {rest} {t} {s} v k (quiet e n) = same-Inv c rest s e (record {
  sane = (Takes-All (IsSane c) k v.sane).1;
  delay = v.delay;
  awake = λ h. Takes-AnyLive c k (λ l. true≢false (sym (n l) ∙ h)) (v.awake h);
})

happened-Inv :
    (c : Connection) (ts : List Task) (s : Step)
    → Inv c ts
    → Outcome c ⊥ s
    → Inv s.0 (enqueue ts s.1)
happened-Inv c ts s v (good g) = good-Inv c ts s v.sane v.delay g
happened-Inv c ts s v (quiet e n) = same-Inv c ts s e v

Reach-Inv : {p : Protocol} {c : Connection} {ts : List Task} → Reach p c ts → Inv c ts
unfolding do_connect new
Reach-Inv run = record { sane = (tt, tt); delay = (refl, omega arith); awake = λ _. inl refl }
Reach-Inv (answered {c} {ts} r t rest s k a) =
    let v = Reach-Inv r in
    answered-Inv v k (answer-Outcome c t s (Takes-All (IsSane c) k v.sane).0 a)
Reach-Inv (happened {c} {ts} r s h) =
    let v = Reach-Inv r in happened-Inv c ts s v (happening-Outcome c ts s v.sane h)

-- However connections fail, at each stage and with each protocol, a client that was not told to stop always
-- waits for something that makes it go on: an answer that belongs to its present connection, the timer
-- of its next attempt, or a handler that is posted. The delay of the next attempt is at most 600 seconds.
pub never_stuck :
    (p : Protocol) (c : Connection) (ts : List Task)
    → Reach p c ts
    → (c.stopping ≡ false → AnyLive c ts) × (c.reconnect_delay_sec ≤ 600)
never_stuck p c ts r = let v = Reach-Inv r in (v.awake, v.delay.1)
