-- ===== src/Server/Work/Initial.antt =====
-- What was read from a user before it is joined, on its way to the client (src/server/server.cpp,
-- `HandleNewMuxStream`).
use cfrp.Base.{
  ℕ, ◌*◌, ◌≤◌, ◌≡◌, refl, ap, ◌∙◌, List, [], ◌∷◌, ◌++◌, Option, none, some, Bool, true, false,
  arith, All, length, append-nil,
}
use cfrp.Base.Dict.{lookup, text_eq}
use cfrp.Base.Text.{Text}
use cfrp.Protocol.Compressed.{Zstd, Restores, max_message_size}
use cfrp.Bridge.{forth, back, new, do_read}
use cfrp.Bridge.Relay.{
  relay, unrelay, joined, packets, relay-packets, unrelay-packets, within_limit,
}
use cfrp.Client.Work.{ticket_buf}
use cfrp.Server.Pending.{TcpSessionInfo}
use cfrp.Server.Registry.{Registry}
use cfrp.Server.Control.{ControlSession}
use cfrp.Server.Work.{
  Splice, Action, bridge, bridge_after, how_joined, start_bridge, on_ticket, on_initial_written,
  initial_packet,
}
use cfrp.Server.Work.Handover.{HasNoSpace, on_ticket-ticket_buf, met}

-- What the server writes on the work connection: a bridge, when it has started and reads these pieces from
-- the user, and what goes ahead of it. The writes succeed.
abbrev pub is_some : {A : Type 0} → Option A → Bool
is_some none = false
is_some (some a) = true

abbrev pub by_bridge : Zstd → List (List ℕ) → Action → List ℕ
by_bridge z xs (bridge s how) =
    (relay z xs (do_read forth (new how.use_compression (is_some how.rate_limiter)))).0
by_bridge z xs a = []

abbrev pub by_bridges : Zstd → List (List ℕ) → List Action → List ℕ
by_bridges z xs [] = []
by_bridges z xs (a ∷ acts) = by_bridge z xs a ++ by_bridges z xs acts

abbrev pub outgoing : Zstd → List (List ℕ) → Action → List ℕ
outgoing z xs (bridge_after bytes s how) = bytes ++ by_bridges z xs (on_initial_written s how false)
outgoing z xs a = by_bridge z xs a

abbrev pub on_work : Zstd → List (List ℕ) → List Action → List ℕ
on_work z xs [] = []
on_work z xs (a ∷ acts) = outgoing z xs a ++ on_work z xs acts

-- What a bridge that compresses writes.
bridge_writes :
    (z : Zstd) (u l : Bool) (xs : List (List ℕ))
    → u ≡ true
    → (relay z xs (do_read forth (new u l))).0 ++ [] ≡ packets z xs
unfolding new do_read
bridge_writes z u l xs e =
    ap (λ u. (relay z xs (do_read forth (new u l))).0 ++ []) e
    ∙ (append-nil _ ∙ ap (λ t. t.0) (relay-packets z l 0 0 xs (omega arith)))

-- The bytes that were read before go ahead of what the bridge writes.
start_bridge-arrives :
    (z : Zstd) (l' : Bool) (uninit : List ℕ) (s : TcpSessionInfo) (how : Splice)
    (xs : List (List ℕ)) (fuel : ℕ) (data' : List ℕ)
    → how.use_compression ≡ true
    → Restores z
    → length data' ≤ max_message_size
    → All (λ x. length x ≤ 32768) xs
    → 2 * length (data' ∷ xs) ≤ fuel
    → (unrelay z fuel
        (on_work z xs (start_bridge z uninit s how data' ∷ []))
        (do_read back (new true l'))).0
      ≡ data' ++ joined xs
unfolding start_bridge on_initial_written initial_packet do_read new
start_bridge-arrives z l' uninit s how xs fuel [] e law le all enough =
    ap (λ p. (unrelay z fuel p (do_read back (new true l'))).0)
      (bridge_writes z how.use_compression (is_some how.rate_limiter) xs e)
    ∙ ap (λ t. t.0)
        (unrelay-packets z l' 0 0 fuel xs law (within_limit xs all) (omega (arith, enough))
          (omega arith))
start_bridge-arrives z l' uninit s how xs fuel (b ∷ bytes) e law le all enough =
    ap (λ p. (unrelay z fuel p (do_read back (new true l'))).0)
      (append-nil (
          initial_packet z how.use_compression uninit (b ∷ bytes)
          ++ by_bridges z xs (bridge s how ∷ []))
        ∙ ap (λ p. initial_packet z how.use_compression uninit (b ∷ bytes) ++ p)
            (bridge_writes z how.use_compression (is_some how.rate_limiter) xs e))
    ∙ (ap
          (λ u.
            (unrelay z fuel (initial_packet z u uninit (b ∷ bytes) ++ packets z xs)
              (do_read back (new true l'))).0)
          e
        ∙ ap (λ t. t.0)
            (unrelay-packets z l' 0 0 fuel ((b ∷ bytes) ∷ xs) law (le, within_limit xs all) enough
              (omega arith)))

-- What was read from a user before it was joined comes out of the bridge at the other end first, and then all
-- that the user sends later, if the client sent ahead that it compresses: the server takes the ticket,
-- frames and writes the first bytes if there are any, starts its bridge, and the other end reads. The ticket
-- has no space and at most 64 bytes, the first bytes are at most 1 MiB, zstd restores what it has compressed,
-- and each write succeeds.
pub initial_data_first :
    (z : Zstd) (l' : Bool) (uninit : List ℕ) (control : Option ControlSession) (ticket : Text)
    (r : Registry) (s : TcpSessionInfo) (xs : List (List ℕ)) (fuel : ℕ)
    → lookup ticket r.pending.user_conns ≡ some s
    → HasNoSpace ticket
    → length ticket ≤ 64
    → Restores z
    → length s.initial_data ≤ max_message_size
    → All (λ x. length x ≤ 32768) xs
    → 2 * length (s.initial_data ∷ xs) ≤ fuel
    → (unrelay z fuel
        (on_work z xs (on_ticket z uninit control (ticket_buf true ticket) r).1)
        (do_read back (new true l'))).0
      ≡ s.initial_data ++ joined xs
initial_data_first z l' uninit control ticket r s xs fuel waits h short law le all enough =
    ap (λ acts. (unrelay z fuel (on_work z xs acts) (do_read back (new true l'))).0)
      (ap (λ t. t.1) (on_ticket-ticket_buf z uninit control true ticket r h short)
        ∙ met z uninit control true ticket r.pending r s waits)
    ∙ start_bridge-arrives z l' uninit s (how_joined false true s.proxy_name control r) xs fuel
        s.initial_data refl law le all enough
