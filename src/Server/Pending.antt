-- ===== src/Server/Pending.antt =====
-- The users that wait for a work connection (`pending_user_conns_`, `pending_udp_sessions_` and
-- `ticket_expiration_queue_`, src/server/server.cpp). All of it is under one mutex. A socket, a listener
-- and an endpoint are their references; times are in nanoseconds. `emplace` keeps an entry that is
-- there.
pub mod Runs
pub mod Expiry
pub mod Handover
use cfrp.Base.{
  ℕ, ◌+◌, ◌*◌, List, [], ◌∷◌, ◌++◌, Option, none, some, Bool, true, false, if◌then◌else◌, length,
  leb,
}
use cfrp.Base.Dict.{lookup, insert, erase, text_eq, text_beq}
use cfrp.Base.Text.{Text}

pub record TcpSessionInfo : Type 0 where
  pub socket : ℕ
  pub initial_data : List ℕ
  pub proxy_name : Text
  pub created_at : ℕ

pub record UdpSessionInfo : Type 0 where
  pub listener : ℕ
  pub endpoint : ℕ
  pub proxy_name : Text
  pub created_at : ℕ

pub record TicketExpiration : Type 0 where
  pub ticket : Text
  pub is_udp : Bool
  pub expires_at : ℕ

pub record Pending : Type 0 where
  pub user_conns : List (Text × TcpSessionInfo)
  pub udp_sessions : List (Text × UdpSessionInfo)
  pub expirations : List TicketExpiration

pub data Action : Type 0 where
  -- `listener->RemoveEndpoint(endpoint)`
  remove_endpoint : ℕ → ℕ → Action
  -- the socket is closed by its destructor
  close_socket : ℕ → Action

abbrev pub max_pending_tickets : ℕ
max_pending_tickets = 512

-- Ten seconds
abbrev pub ticket_life : ℕ
ticket_life = 10 * 1_000_000_000

abbrev pub size : Pending → ℕ
size p = length p.user_conns + length p.udp_sessions

abbrev pub drop_udp : Option UdpSessionInfo → Text → Pending → Pending × List Action
drop_udp none ticket p = (p, [])
drop_udp (some u) ticket p = (
  record p { udp_sessions = erase ticket p.udp_sessions },
  remove_endpoint u.listener u.endpoint ∷ [],
)

abbrev pub drop_tcp : Option TcpSessionInfo → Text → Pending → Pending × List Action
drop_tcp none ticket p = (p, [])
drop_tcp (some s) ticket p =
    (record p { user_conns = erase ticket p.user_conns }, close_socket s.socket ∷ [])

-- A ticket whose time has come.
unfoldable pub expire : TicketExpiration → Pending → Pending × List Action
expire x p =
    if x.is_udp
    then drop_udp (lookup x.ticket p.udp_sessions) x.ticket p
    else drop_tcp (lookup x.ticket p.user_conns) x.ticket p

abbrev pub also : List Action → Pending × List Action → Pending × List Action
also acts (p, more) = (p, acts ++ more)

-- The loop of `DoLazyCleanup` over its queue.
unfoldable pub cleanup : ℕ → List TicketExpiration → Pending → Pending × List Action
unfolding expire
cleanup now [] p = (record p { expirations = [] }, [])
cleanup now (x ∷ q) p =
    let (p', acts) = expire x p in
    let rest = cleanup now q p' in
    if leb x.expires_at now then also acts rest else (record p { expirations = x ∷ q }, [])

unfoldable pub do_lazy_cleanup : ℕ → Pending → Pending × List Action
unfolding cleanup
do_lazy_cleanup now p = cleanup now p.expirations p

-- `emplace`
abbrev pub emplace : {A : Type 0} → Text → A → List (Text × A) → List (Text × A)
emplace t a m = elim (lookup t m) [ none ↦ insert t a m | some old ↦ m ]

abbrev pub enqueue : Text → Bool → ℕ → Pending → Pending
enqueue ticket is_udp now p = record p {
  expirations =
      p.expirations
      ++ (record { ticket = ticket; is_udp = is_udp; expires_at = now + ticket_life } ∷ []);
}

-- The new entry; its socket is closed if the ticket is taken.
abbrev pub add_conn : Text → ℕ → TcpSessionInfo → Pending → Pending × List Action
add_conn ticket now s p = (
  enqueue ticket false now (record p { user_conns = emplace ticket s p.user_conns }),
  elim (lookup ticket p.user_conns) [ none ↦ [] | some old ↦ close_socket s.socket ∷ [] ],
)

abbrev pub add_udp : Text → ℕ → UdpSessionInfo → Pending → Pending × List Action
add_udp ticket now u p =
    (enqueue ticket true now (record p { udp_sessions = emplace ticket u p.udp_sessions }), [])

-- Room for one more, or the user is refused. The clock is read for the cleanup, and again for the entry.
abbrev pub admit :
    ℕ → List Action → (Pending → Pending × List Action) → Pending → Pending × List Action
admit cleaned_at refused f p =
    let (p', acts) = do_lazy_cleanup cleaned_at p in
    if leb max_pending_tickets (size p') then (p', acts ++ refused) else also acts (f p')

unfoldable pub register_user_conn :
    ℕ → ℕ → Text → ℕ → Text → List ℕ → Pending → Pending × List Action
unfolding do_lazy_cleanup
register_user_conn cleaned_at now ticket socket proxy_name initial_data =
    admit cleaned_at (close_socket socket ∷ []) (
      add_conn ticket now (record {
        socket = socket;
        initial_data = initial_data;
        proxy_name = proxy_name;
        created_at = now;
      }))

unfoldable pub register_udp_session : ℕ → ℕ → Text → ℕ → ℕ → Text → Pending → Pending × List Action
unfolding do_lazy_cleanup
register_udp_session cleaned_at now ticket listener endpoint proxy_name = admit cleaned_at [] (
    add_udp ticket now (record {
      listener = listener;
      endpoint = endpoint;
      proxy_name = proxy_name;
      created_at = now;
    }))

-- The entries of other proxies. The sockets of those that go are closed.
abbrev pub others : {A : Type 0} → (A → Text) → Text → List (Text × A) → List (Text × A)
others proxy_of name [] = []
others proxy_of name ((t, a) ∷ m) =
    let rest = others proxy_of name m in if text_beq (proxy_of a) name then rest else (t, a) ∷ rest

unfoldable pub clear_pending_for_proxy : Text → Pending → Pending
clear_pending_for_proxy name p = record p {
  user_conns = others TcpSessionInfo.proxy_name name p.user_conns;
  udp_sessions = others UdpSessionInfo.proxy_name name p.udp_sessions;
}

-- What a work connection finds under its ticket (`HandleNewMuxStream`).
pub data Claim : Type 0 where
  nothing : Claim
  tcp : TcpSessionInfo → Claim
  udp : UdpSessionInfo → Claim

abbrev pub claim_udp : Option UdpSessionInfo → Text → Pending → Pending × Claim × List Action
claim_udp none ticket p = (p, nothing, [])
claim_udp (some u) ticket p = (
  record p { udp_sessions = erase ticket p.udp_sessions },
  udp u,
  remove_endpoint u.listener u.endpoint ∷ [],
)

abbrev pub claim_tcp : Option TcpSessionInfo → Text → Pending → Pending × Claim × List Action
claim_tcp none ticket p = claim_udp (lookup ticket p.udp_sessions) ticket p
claim_tcp (some s) ticket p = (record p { user_conns = erase ticket p.user_conns }, tcp s, [])

unfoldable pub claim : Text → Pending → Pending × Claim × List Action
claim ticket p = claim_tcp (lookup ticket p.user_conns) ticket p
