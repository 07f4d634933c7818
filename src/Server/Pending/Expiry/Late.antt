-- ===== src/Server/Pending/Expiry/Late.antt =====
-- `DoLazyCleanup` (src/server/server.cpp): those that wait after it.
use cfrp.Base.{ℕ, ◌≤◌, ◌<◌, List, [], ◌∷◌, arith, if_rule, All, All-map, leb, leb_false→lt}
use cfrp.Base.Dict.{text_eq}
use cfrp.Server.Pending.{Pending, TicketExpiration, expire, cleanup, size, Action}
use cfrp.Server.Pending.Expiry.{Waits, IsChronological, expire-Waits}

-- After a cleanup: all that waits is covered by expirations to come.
pub record Cleaned (now e : ℕ) (p p' : Pending) : Type 0 where
  pub waits : Waits p' p'.expirations
  pub late : All (λ x. now < x.expires_at) p'.expirations
  pub chronological : IsChronological p'.expirations e
  pub smaller : size p' ≤ size p

pub cleanup-Cleaned :
    (now e : ℕ) (q : List TicketExpiration) (p : Pending)
    → Waits p q
    → IsChronological q e
    → Cleaned now e p (cleanup now q p).0
unfolding cleanup
cleanup-Cleaned now e [] p w c = record {
  waits = record { tcp = w.tcp; udp = w.udp };
  late = tt;
  chronological = tt;
  smaller = omega arith;
}
cleanup-Cleaned now e (x ∷ q) p w (first, due, c) =
    if_rule {A = Pending × List Action} (λ r. Cleaned now e p r.0) (leb x.expires_at now)
      (λ _.
        let (w', le) = expire-Waits x q p w in
        let r = cleanup-Cleaned now e q (expire x p).0 w' c in
        record {
          waits = r.waits;
          late = r.late;
          chronological = r.chronological;
          smaller = omega (arith, le, r.smaller);
        })
      (λ b.
        let later : now < x.expires_at = leb_false→lt x.expires_at now b in
        record {
          waits = record { tcp = w.tcp; udp = w.udp };
          late = (later, All-map q (λ y h. omega (arith, later, h)) first);
          chronological = (first, due, c);
          smaller = omega arith;
        })
