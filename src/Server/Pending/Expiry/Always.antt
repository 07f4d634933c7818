-- ===== src/Server/Pending/Expiry/Always.antt =====
-- What holds of those that wait however the server is used (src/server/server.cpp).
use cfrp.Base.{
  ℕ, ◌+◌, ◌≤◌, ◌<◌, ◌≡◌, refl, sym, List, [], ◌∷◌, Option, none, some, Bool, true, false, arith,
  if_rule, All, All-map, inl, inr, leb, leb_false→lt, subst,
}
use cfrp.Base.Dict.{lookup, erase, text_eq, length-erase-le}
use cfrp.Base.Text.{Text}
use cfrp.Server.Pending.{
  Pending, TcpSessionInfo, UdpSessionInfo, TicketExpiration, ticket_life, cleanup, size, Action,
  do_lazy_cleanup, enqueue, add_conn, add_udp, admit, register_user_conn, register_udp_session,
  clear_pending_for_proxy, claim, claim_tcp, claim_udp, max_pending_tickets,
}
use cfrp.Server.Pending.Runs.{Reach, begin, conn, udp, clear, claims}
use cfrp.Server.Pending.Expiry.{Covered, TcpCovered, UdpCovered, Waits, IsChronological, All-erase}
use cfrp.Server.Pending.Expiry.Entries.{
  Covered-append, Covered-last, IsChronological-append, All-emplace, length-emplace,
  IsChronological-le, All-others, length-others-le,
}
use cfrp.Server.Pending.Expiry.Late.{Cleaned, cleanup-Cleaned}

pub record Inv (p : Pending) (t : ℕ) : Type 0 where
  pub waits : Waits p p.expirations
  pub chronological : IsChronological p.expirations (t + ticket_life)
  pub bound : size p ≤ max_pending_tickets

-- Fewer of the users that waited.
fewer-Inv :
    (p p' : Pending) (t : ℕ)
    → Inv p t
    → p'.expirations ≡ p.expirations
    → All (TcpCovered p.expirations) p'.user_conns
    → All (UdpCovered p.expirations) p'.udp_sessions
    → size p' ≤ size p
    → Inv p' t
fewer-Inv p p' t v e conns sessions le = record {
  waits = record {
    tcp = subst (λ q. All (TcpCovered q) p'.user_conns) (sym e) conns;
    udp = subst (λ q. All (UdpCovered q) p'.udp_sessions) (sym e) sessions;
  };
  chronological = subst (λ q. IsChronological q (t + ticket_life)) (sym e) v.chronological;
  bound = omega (arith, le, v.bound);
}

add_conn-Inv :
    (ticket : Text) (now c e : ℕ) (s : TcpSessionInfo) (p0 p : Pending)
    → s.created_at ≡ now
    → Cleaned c e p0 p
    → e ≤ now + ticket_life
    → size p < max_pending_tickets
    → Inv (add_conn ticket now s p).0 now
add_conn-Inv ticket now c e s p0 p created r le room = record {
  waits = record {
    tcp =
        All-emplace _ ticket s p.user_conns
          (subst
            (λ n. Covered false ticket (n + ticket_life) (enqueue ticket false now p).expirations)
            (sym created) (Covered-last false ticket (now + ticket_life) p.expirations))
          (All-map p.user_conns (λ x h. Covered-append false x.0 _ p.expirations _ h) r.waits.tcp);
    udp = All-map p.udp_sessions (λ x h. Covered-append true x.0 _ p.expirations _ h) r.waits.udp;
  };
  chronological = IsChronological-append p.expirations _ e r.chronological le;
  bound = omega (arith, room, length-emplace ticket s p.user_conns);
}

add_udp-Inv :
    (ticket : Text) (now c e : ℕ) (u : UdpSessionInfo) (p0 p : Pending)
    → u.created_at ≡ now
    → Cleaned c e p0 p
    → e ≤ now + ticket_life
    → size p < max_pending_tickets
    → Inv (add_udp ticket now u p).0 now
add_udp-Inv ticket now c e u p0 p created r le room = record {
  waits = record {
    tcp = All-map p.user_conns (λ x h. Covered-append false x.0 _ p.expirations _ h) r.waits.tcp;
    udp =
        All-emplace _ ticket u p.udp_sessions
          (subst
            (λ n. Covered true ticket (n + ticket_life) (enqueue ticket true now p).expirations)
            (sym created) (Covered-last true ticket (now + ticket_life) p.expirations))
          (All-map p.udp_sessions (λ x h. Covered-append true x.0 _ p.expirations _ h) r.waits.udp);
  };
  chronological = IsChronological-append p.expirations _ e r.chronological le;
  bound = omega (arith, room, length-emplace ticket u p.udp_sessions);
}

-- What `RegisterUserConn` and `RegisterUdpSession` share.
admit-Inv :
    (c t now : ℕ) (refused : List Action) (f : Pending → Pending × List Action) (p : Pending)
    → Inv p t
    → t ≤ c
    → c ≤ now
    → ((p' : Pending)
        → Cleaned c (t + ticket_life) p p'
        → size p' < max_pending_tickets
        → Inv (f p').0 now)
    → Inv (admit c refused f p).0 now
unfolding do_lazy_cleanup
admit-Inv c t now refused f p v before after accepted =
    let p' = (cleanup c p.expirations p).0 in
    let r = cleanup-Cleaned c (t + ticket_life) p.expirations p v.waits v.chronological in
    if_rule {A = Pending × List Action} (λ o. Inv o.0 now) (leb max_pending_tickets (size p'))
      (λ _. record {
        waits = r.waits;
        chronological =
            IsChronological-le p'.expirations _ _ (omega (arith, before, after)) r.chronological;
        bound = omega (arith, v.bound, r.smaller);
      })
      (λ b. accepted p' r (leb_false→lt _ _ b))

erased :
    {A : Type 0} (P : Text × A → Type 0) (t : Text) (m : List (Text × A))
    → All P m
    → All P (erase t m)
erased P t m all = All-map (erase t m) (λ e h. h.0) (All-erase P t m all)

claim-Inv : (ticket : Text) (p : Pending) (t : ℕ) → Inv p t → Inv (claim ticket p).0 t
unfolding claim
claim-Inv ticket p t v = by_tcp (lookup ticket p.user_conns)
  where
    by_udp : (o : Option UdpSessionInfo) → Inv (claim_udp o ticket p).0 t
    by_udp none = v
    by_udp (some u) =
        fewer-Inv p _ t v refl v.waits.tcp (erased _ ticket p.udp_sessions v.waits.udp)
          (omega (arith, length-erase-le ticket p.udp_sessions))

    by_tcp : (o : Option TcpSessionInfo) → Inv (claim_tcp o ticket p).0 t
    by_tcp none = by_udp (lookup ticket p.udp_sessions)
    by_tcp (some s) =
        fewer-Inv p _ t v refl (erased _ ticket p.user_conns v.waits.tcp) v.waits.udp
          (omega (arith, length-erase-le ticket p.user_conns))

Reach-Inv : {p : Pending} {t : ℕ} → Reach p t → Inv p t
unfolding register_user_conn register_udp_session clear_pending_for_proxy
Reach-Inv (begin now) = record {
  waits = record { tcp = tt; udp = tt };
  chronological = tt;
  bound = omega arith;
}
Reach-Inv (conn {p} {t} r c now ticket socket name initial before after) =
    let s : TcpSessionInfo = record {
      socket = socket;
      initial_data = initial;
      proxy_name = name;
      created_at = now;
    } in
    admit-Inv c t now _ (add_conn ticket now s) p (Reach-Inv r) before after (λ p' cleaned room.
      add_conn-Inv ticket now c (t + ticket_life) s p p' refl cleaned (omega (arith, before, after))
        room)
Reach-Inv (udp {p} {t} r c now ticket listener endpoint name before after) =
    let u : UdpSessionInfo = record {
      listener = listener;
      endpoint = endpoint;
      proxy_name = name;
      created_at = now;
    } in
    admit-Inv c t now _ (add_udp ticket now u) p (Reach-Inv r) before after (λ p' cleaned room.
      add_udp-Inv ticket now c (t + ticket_life) u p p' refl cleaned (omega (arith, before, after))
        room)
Reach-Inv (clear {p} {t} r name) =
    let v = Reach-Inv r in
    fewer-Inv p _ t v refl (All-others _ _ name p.user_conns v.waits.tcp)
      (All-others _ _ name p.udp_sessions v.waits.udp)
      (omega (
        arith,
        length-others-le TcpSessionInfo.proxy_name name p.user_conns,
        length-others-le UdpSessionInfo.proxy_name name p.udp_sessions,
      ))
Reach-Inv (claims {p} {t} r ticket) = claim-Inv ticket p t (Reach-Inv r)

-- However the server is used, at most 512 users wait for a work connection.
pub pending_bounded : (p : Pending) (t : ℕ) → Reach p t → size p ≤ max_pending_tickets
pending_bounded p t r = Inv.bound (Reach-Inv r)

still_young :
    (c : ℕ) (u : Bool) (k : Text) (e : ℕ) (q : List TicketExpiration)
    → All (λ x. c < x.expires_at) q
    → Covered u k e q
    → c < e
still_young c u k e [] all h = absurd h
still_young c u k e (x ∷ q) (late, all) (inl (a, b, le)) = omega (arith, late, le)
still_young c u k e (x ∷ q) (late, all) (inr h) = still_young c u k e q all h

-- However the server was used before, a cleanup at a later time leaves only users that came less than
-- ten seconds ago.
pub cleanup_leaves_young :
    (p : Pending) (t c : ℕ)
    → Reach p t
    → t ≤ c
    → All (λ e. c < e.1.created_at + ticket_life) (do_lazy_cleanup c p).0.user_conns
      × All (λ e. c < e.1.created_at + ticket_life) (do_lazy_cleanup c p).0.udp_sessions
unfolding do_lazy_cleanup
cleanup_leaves_young p t c r le =
    let v = Reach-Inv r in
    let d = cleanup-Cleaned c (t + ticket_life) p.expirations p v.waits v.chronological in
    let p' = (cleanup c p.expirations p).0 in
    (
      All-map p'.user_conns (λ x h. still_young c false x.0 _ p'.expirations d.late h) d.waits.tcp,
      All-map p'.udp_sessions (λ x h. still_young c true x.0 _ p'.expirations d.late h) d.waits.udp,
    )
