-- ===== src/Server/Pending/Handover.antt =====
-- What a work connection gets for its ticket (`HandleNewMuxStream`, src/server/server.cpp).
use cfrp.Base.{◌≡◌, refl, ap, ◌∙◌, List, [], ◌∷◌, Option, none, some, false, if◌then◌else◌}
use cfrp.Base.Dict.{lookup, erase, text_eq, text_beq, lookup-erase}
use cfrp.Base.Text.{Text}
use cfrp.Base.TextSet.{text_beq_refl}
use cfrp.Server.Pending.{
  Pending, TcpSessionInfo, UdpSessionInfo, Action, remove_endpoint, Claim, nothing, tcp, udp, claim,
  claim_tcp, claim_udp,
}

-- The other tickets find what they found before.
abbrev pub Others : Text → Pending → Pending → Type 0
Others ticket p p' =
    (k : Text)
    → text_beq ticket k ≡ false
    → (lookup k p'.user_conns ≡ lookup k p.user_conns)
      × (lookup k p'.udp_sessions ≡ lookup k p.udp_sessions)

abbrev pub Handed : Text → Pending → Pending × Claim × List Action → Type 0
Handed ticket p (p', nothing, acts) =
    (lookup ticket p.user_conns ≡ none)
    × (lookup ticket p.udp_sessions ≡ none)
    × (p' ≡ p)
    × (acts ≡ [])
Handed ticket p (p', tcp s, acts) =
    (lookup ticket p.user_conns ≡ some s)
    × (lookup ticket p'.user_conns ≡ none)
    × (acts ≡ [])
    × Others ticket p p'
Handed ticket p (p', udp u, acts) =
    (lookup ticket p.user_conns ≡ none)
    × (lookup ticket p.udp_sessions ≡ some u)
    × (lookup ticket p'.udp_sessions ≡ none)
    × (acts ≡ remove_endpoint u.listener u.endpoint ∷ [])
    × Others ticket p p'

gone : {A : Type 0} (t : Text) (m : List (Text × A)) → lookup t (erase t m) ≡ none
gone t m = lookup-erase t t m ∙ ap (λ b. if b then none else lookup t m) (text_beq_refl t)

kept :
    {A : Type 0} (t k : Text) (m : List (Text × A))
    → text_beq t k ≡ false
    → lookup k (erase t m) ≡ lookup k m
kept t k m e = lookup-erase t k m ∙ ap (λ b. if b then none else lookup k m) e

-- A work connection gets the user that waits under its ticket, and nobody gets that user again: the
-- ticket is gone, also at the UDP listener, and the others keep theirs. A ticket that nobody waits
-- under changes nothing.
pub claim-Handed : (ticket : Text) (p : Pending) → Handed ticket p (claim ticket p)
unfolding claim
claim-Handed ticket p = by_tcp (lookup ticket p.user_conns) refl
  where
    by_udp :
        lookup ticket p.user_conns ≡ none
        → (o : Option UdpSessionInfo) → lookup ticket p.udp_sessions ≡ o
        → Handed ticket p (claim_udp o ticket p)
    by_udp absent none e = (absent, e, refl, refl)
    by_udp absent (some u) e =
        (absent, e, gone ticket p.udp_sessions, refl, λ k n. (refl, kept ticket k p.udp_sessions n))

    by_tcp :
        (o : Option TcpSessionInfo)
        → lookup ticket p.user_conns ≡ o
        → Handed ticket p (claim_tcp o ticket p)
    by_tcp none e = by_udp e (lookup ticket p.udp_sessions) refl
    by_tcp (some s) e =
        (e, gone ticket p.user_conns, refl, λ k n. (kept ticket k p.user_conns n, refl))
