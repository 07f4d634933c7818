-- ===== src/Server/Pending/Expiry.antt =====
-- `DoLazyCleanup` (src/server/server.cpp): its queue, and those that wait after it.
pub mod Entries
pub mod Late
pub mod Always
use cfrp.Base.{
  ℕ, ◌+◌, ◌≤◌, ◌<◌, ◌≡◌, ◌≢◌, refl, sym, ap, ◌∙◌, List, [], ◌∷◌, ◌++◌, Option, none, some, Bool,
  true, false, if◌then◌else◌, arith, if_rule, length, All, All-map, ◌⊎◌, inl, inr, true≢false, leb,
  leb→le, leb_false→lt, subst, Bool-cases,
}
use cfrp.Base.Dict.{lookup, insert, erase, text_eq, text_beq, text_beq_iff, length-erase-le}
use cfrp.Base.Text.{Text}
use cfrp.Server.Pending.{
  Pending, TcpSessionInfo, UdpSessionInfo, TicketExpiration, ticket_life, expire, drop_udp,
  drop_tcp, cleanup, also, size, Action, do_lazy_cleanup,
}

-- An expiration of this kind and ticket stands in the queue, and is due by this time.
abbrev pub Covered : Bool → Text → ℕ → List TicketExpiration → Type 0
Covered u k e [] = ⊥
Covered u k e (x ∷ q) = ((x.is_udp ≡ u) × (x.ticket ≡ k) × (x.expires_at ≤ e)) ⊎ Covered u k e q

abbrev pub TcpCovered : List TicketExpiration → Text × TcpSessionInfo → Type 0
TcpCovered q (k, s) = Covered false k (s.created_at + ticket_life) q

abbrev pub UdpCovered : List TicketExpiration → Text × UdpSessionInfo → Type 0
UdpCovered q (k, u) = Covered true k (u.created_at + ticket_life) q

-- Everyone that waits will expire ten seconds after coming.
pub record Waits (p : Pending) (q : List TicketExpiration) : Type 0 where
  pub tcp : All (TcpCovered q) p.user_conns
  pub udp : All (UdpCovered q) p.udp_sessions

-- The queue is in the order of time, and nothing in it is due later than this.
abbrev pub IsChronological : List TicketExpiration → ℕ → Type 0
IsChronological [] e = Unit
IsChronological (x ∷ q) e =
    All (λ y. x.expires_at ≤ y.expires_at) q × (x.expires_at ≤ e) × IsChronological q e

pub All-erase :
    {A : Type 0} (P : Text × A → Type 0) (t : Text) (m : List (Text × A))
    → All P m
    → All (λ e. P e × (t ≢ e.0)) (erase t m)
All-erase P t [] all = tt
All-erase P t ((k, a) ∷ m) (h, all) =
    if_rule (All (λ e. P e × (t ≢ e.0))) (text_beq k t) (λ _. All-erase P t m all)
      (λ b. ((h, λ e. true≢false (sym ((text_beq_iff k t).1 (sym e)) ∙ b)), All-erase P t m all))

erase_absent : {A : Type 0} (t : Text) (m : List (Text × A)) → lookup t m ≡ none → erase t m ≡ m
erase_absent t [] e = refl
erase_absent t ((k, a) ∷ m) e = ground (arith, e, erase_absent t m)

-- A user with another ticket is covered by what stands behind.
behind :
    (x : TicketExpiration) (q : List TicketExpiration) (u : Bool) (k : Text) (e : ℕ)
    → Covered u k e (x ∷ q)
    → (x.is_udp ≡ u → x.ticket ≢ k)
    → Covered u k e q
behind x q u k e (inl (a, b, c)) n = absurd (n a b)
behind x q u k e (inr c) n = c

pub expire-Waits :
    (x : TicketExpiration) (q : List TicketExpiration) (p : Pending)
    → Waits p (x ∷ q)
    → Waits (expire x p).0 q × (size (expire x p).0 ≤ size p)
unfolding expire
expire-Waits x q p w = by_kind x.is_udp refl
  where
    Good : Pending × List Action → Type 0
    Good r = Waits r.0 q × (size r.0 ≤ size p)

    tcp_left : x.is_udp ≡ true → All (TcpCovered q) p.user_conns
    tcp_left u =
        All-map p.user_conns (λ e c. behind x q false e.0 _ c λ v. absurd (true≢false (sym u ∙ v)))
          w.tcp

    udp_left : x.is_udp ≡ false → All (UdpCovered q) p.udp_sessions
    udp_left u =
        All-map p.udp_sessions (λ e c. behind x q true e.0 _ c λ v. absurd (true≢false (sym v ∙ u)))
          w.udp

    tcp_erased : All (TcpCovered q) (erase x.ticket p.user_conns)
    tcp_erased =
        All-map (erase x.ticket p.user_conns) (λ e c. behind x q false e.0 _ c.0 λ _. c.1)
          (All-erase (TcpCovered (x ∷ q)) x.ticket p.user_conns w.tcp)

    udp_erased : All (UdpCovered q) (erase x.ticket p.udp_sessions)
    udp_erased =
        All-map (erase x.ticket p.udp_sessions) (λ e c. behind x q true e.0 _ c.0 λ _. c.1)
          (All-erase (UdpCovered (x ∷ q)) x.ticket p.udp_sessions w.udp)

    by_udp :
        x.is_udp ≡ true
        → (o : Option UdpSessionInfo) → lookup x.ticket p.udp_sessions ≡ o
        → Good (drop_udp o x.ticket p)
    by_udp u none e = (
      record {
        tcp = tcp_left u;
        udp = subst (All (UdpCovered q)) (erase_absent x.ticket p.udp_sessions e) udp_erased;
      },
      omega arith,
    )
    by_udp u (some s) e = (
      record { tcp = tcp_left u; udp = udp_erased },
      omega (arith, length-erase-le x.ticket p.udp_sessions),
    )

    by_tcp :
        x.is_udp ≡ false
        → (o : Option TcpSessionInfo) → lookup x.ticket p.user_conns ≡ o
        → Good (drop_tcp o x.ticket p)
    by_tcp u none e = (
      record {
        tcp = subst (All (TcpCovered q)) (erase_absent x.ticket p.user_conns e) tcp_erased;
        udp = udp_left u;
      },
      omega arith,
    )
    by_tcp u (some s) e = (
      record { tcp = tcp_erased; udp = udp_left u },
      omega (arith, length-erase-le x.ticket p.user_conns),
    )

    by_kind :
        (u : Bool)
        → x.is_udp ≡ u
        → Good (
            if u
            then drop_udp (lookup x.ticket p.udp_sessions) x.ticket p
            else drop_tcp (lookup x.ticket p.user_conns) x.ticket p)
    by_kind true u = by_udp u (lookup x.ticket p.udp_sessions) refl
    by_kind false u = by_tcp u (lookup x.ticket p.user_conns) refl
