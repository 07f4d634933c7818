-- ===== src/Server/Work/Handover.antt =====
-- That a work connection meets the user that its ticket is for (src/client/client.cpp, src/server/server.cpp).
use cfrp.Base.{
  ℕ, zero, suc, ◌+◌, ◌*◌, ◌/◌, ◌%◌, ◌^◌, ◌≤◌, ◌<◌, ◌≡◌, refl, sym, ap, ap₂, ◌∙◌, List, [], ◌∷◌,
  ◌++◌, Option, none, some, Bool, true, false, ◌&&◌, if◌then◌else◌, if_rule, arith, All, length,
  length-append, ltb, ltb_false→le, leb, ◌==◌, true≢false,
}
use cfrp.Base.Dict.{lookup, insert, text_eq, lookup-insert, text_beq_iff}
use cfrp.Base.Text.{Text, digits, to_string}
use cfrp.Protocol.Compressed.{Zstd}
use cfrp.Client.Work.{resize, flag, ticket_buf}
use cfrp.Server.Pending.{
  TcpSessionInfo, Pending, size, claim, claim_tcp, register_user_conn, do_lazy_cleanup,
  max_pending_tickets, add_conn, admit,
}
use cfrp.Server.Pending as Pending
use cfrp.Server.Registry.{Registry}
use cfrp.Server.Control.{ControlSession}
use cfrp.Server.Vhost.{is_space, blank, trim_right}
use cfrp.Server.Work.{
  ProxyListener, bridge, pendings, how_joined, start_bridge, join, on_ticket, on_accept,
}

abbrev pub HasNoSpace : Text → Type 0
HasNoSpace = All (λ c. is_space c ≡ false)

blank-resize : (n : ℕ) → blank (resize n b' ' []) ≡ true
blank-resize zero = refl
blank-resize (suc n) = blank-resize n

-- The padding of a ticket is taken off again.
trim_right-resize :
    (n : ℕ) (s : Text) → HasNoSpace s → length s ≤ n → trim_right (resize n b' ' s) ≡ s
trim_right-resize zero [] h le = refl
trim_right-resize zero (c ∷ s) h le = absurd (omega (arith, le))
trim_right-resize (suc n) [] h le =
    ap (λ b. if b then [] else b' ' ∷ trim_right (resize n b' ' [])) (blank-resize n)
trim_right-resize (suc n) (c ∷ s) (h, t) le =
    ap (λ b. if b && blank (resize n b' ' s) then [] else c ∷ trim_right (resize n b' ' s)) h
    ∙ ap (◌∷◌ c) (trim_right-resize n s t (omega (arith, le)))

flag-back : (b : Bool) → (flag b == 1) ≡ b
flag-back true = refl
flag-back false = refl

-- The server takes from a work connection the ticket and the choice of compression that the client sent
-- ahead on it, if the ticket has no space and at most 64 bytes: the user that waits under this ticket is
-- joined to this connection, or the connection is closed if nobody does.
pub on_ticket-ticket_buf :
    (z : Zstd) (uninit : List ℕ) (control : Option ControlSession) (compression : Bool)
    (ticket : Text) (r : Registry)
    → HasNoSpace ticket
    → length ticket ≤ 64
    → on_ticket z uninit control (ticket_buf compression ticket) r ≡ (
        let (p, c, acts) = claim ticket r.pending in
        (record r { pending = p }, pendings acts ++ join z uninit compression control c r))
unfolding on_ticket ticket_buf
on_ticket-ticket_buf z uninit control compression ticket r h le =
    ap₂
      (λ t f.
        let (p, c, acts) = claim t r.pending in
        (record r { pending = p }, pendings acts ++ join z uninit f control c r))
      (trim_right-resize 64 ticket h le) (flag-back compression)

-- Decimals have no space, and are short.
abbrev power : ℕ → ℕ
power zero = 10
power (suc k) = 10 * power k

append-HasNoSpace : (s t : Text) → HasNoSpace s → HasNoSpace t → HasNoSpace (s ++ t)
append-HasNoSpace [] t a b = b
append-HasNoSpace (c ∷ s) t (h, a) b = (h, append-HasNoSpace s t a b)

digit-HasNoSpace : (d : ℕ) → d < 10 → is_space (b'0' + d) ≡ false
digit-HasNoSpace d lt = ground (arith, lt)

digits-HasNoSpace : (f n : ℕ) → HasNoSpace (digits f n)
digits-HasNoSpace zero n = tt
digits-HasNoSpace (suc f) n =
    if_rule HasNoSpace (ltb n 10) (λ e. (digit-HasNoSpace n (ground (arith, e)), tt))
      (λ e.
        append-HasNoSpace (digits f (n / 10)) ((b'0' + n % 10) ∷ []) (digits-HasNoSpace f (n / 10))
          (digit-HasNoSpace (n % 10) (omega arith), tt))

length-digits : (k f n : ℕ) → n < power k → length (digits f n) ≤ suc k
length-digits k zero n lt = omega arith
length-digits zero (suc f) n lt =
    if_rule (λ s. length s ≤ 1) (ltb n 10) (λ e. omega arith)
      (λ e. absurd (omega (arith, lt, ltb_false→le n 10 e)))
length-digits (suc k) (suc f) n lt =
    if_rule (λ s. length s ≤ suc (suc k)) (ltb n 10) (λ e. omega arith)
      (λ e. omega (
        arith,
        length-append (digits f (n / 10)) ((b'0' + n % 10) ∷ []),
        length-digits k f (n / 10) (omega (arith, lt)),
      ))

-- The clock of the tickets.
decimal-HasNoSpace : (now : ℕ) → HasNoSpace (to_string now)
decimal-HasNoSpace now = digits-HasNoSpace (suc now) now

length-decimal : (now : ℕ) → now < 2 ^ 63 → length (to_string now) ≤ 64
length-decimal now lt = omega (arith, length-digits 19 (suc now) now (omega (arith, lt)))

-- The user that waits under a ticket.
pub met :
    (z : Zstd) (uninit : List ℕ) (control : Option ControlSession) (compression : Bool) (t : Text)
    (p : Pending) (r : Registry) (s : TcpSessionInfo)
    → lookup t p.user_conns ≡ some s
    → (let (p', c, acts) = claim t p in pendings acts ++ join z uninit compression control c r)
      ≡ start_bridge z uninit s (how_joined false compression s.proxy_name control r) s.initial_data
        ∷ []
unfolding claim join
met z uninit control compression t p r s e =
    ap
      (λ o.
        let (p', c, acts) = claim_tcp o t p in
        pendings acts ++ join z uninit compression control c r)
      e

module _ (cleaned_at now socket : ℕ) (has_session : Bool) (l : ProxyListener) (r : Registry) where
  abbrev user : TcpSessionInfo
  user = record { socket = socket; initial_data = []; proxy_name = l.proxy_name; created_at = now }

  abbrev cleaned : Pending
  cleaned = (do_lazy_cleanup cleaned_at r.pending).0

  registered :
      (t : Text)
      → leb max_pending_tickets (size cleaned) ≡ false
      → lookup t cleaned.user_conns ≡ none
      → lookup t (register_user_conn cleaned_at now t socket l.proxy_name [] r.pending).0.user_conns
        ≡ some user
  unfolding register_user_conn
  registered t room absent =
      if_rule {A = Pending × List Pending.Action} (λ s. lookup t s.0.user_conns ≡ some user)
        (leb max_pending_tickets (size cleaned)) (λ e. absurd (true≢false (sym e ∙ room)))
        (λ _.
          ap
            (λ o.
              lookup t (elim o [
                | none ↦ insert t user cleaned.user_conns
                | some old ↦ cleaned.user_conns
              ]))
            absent
          ∙ (lookup-insert t t user cleaned.user_conns
              ∙ ap (λ b. if b then some user else lookup t cleaned.user_conns)
                  ((text_beq_iff t t).1 refl)))

  -- A user that a TCP listener accepts, whose ticket is the time of the system clock, is joined to the work
  -- connection on which the client sends this ticket back, compressed if the client says so and with the
  -- rate limiter of the proxy. The ticket is not taken, there is room, and the time fits a signed integer of 64
  -- bits; the clock of the expirations is another.
  pub ticket_meets_user :
      (stamp : ℕ) (z : Zstd) (uninit : List ℕ) (control : Option ControlSession)
      (compression : Bool)
      → stamp < 2 ^ 63
      → leb max_pending_tickets (size (do_lazy_cleanup cleaned_at r.pending).0) ≡ false
      → lookup (to_string stamp) (do_lazy_cleanup cleaned_at r.pending).0.user_conns ≡ none
      → (on_ticket z uninit control
          (ticket_buf compression (to_string stamp))
          (on_accept cleaned_at now (to_string stamp) has_session socket l r).1.0).1
        ≡ bridge
            (record {
              socket = socket;
              initial_data = [];
              proxy_name = l.proxy_name;
              created_at = now;
            })
            (how_joined false compression l.proxy_name control r)
          ∷ []
  unfolding on_accept join claim start_bridge
  ticket_meets_user stamp z uninit control compression lt room absent =
      ap (λ t. t.1)
        (on_ticket-ticket_buf z uninit control compression (to_string stamp) _
          (decimal-HasNoSpace stamp) (length-decimal stamp lt))
      ∙ met z uninit control compression (to_string stamp) _ _ user
          (registered (to_string stamp) room absent)
