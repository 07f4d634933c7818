-- ===== src/Server/Pending/Runs.antt =====
-- What happens to the users that wait (src/server/server.cpp), while the steady clock goes on.
use cfrp.Base.{ℕ, ◌≤◌, List, []}
use cfrp.Base.Text.{Text}
use cfrp.Server.Pending.{
  Pending, register_user_conn, register_udp_session, clear_pending_for_proxy, claim,
}

abbrev pub nobody : Pending
nobody = record { user_conns = []; udp_sessions = []; expirations = [] }

-- What the server keeps, and the last time that its clock has shown.
pub data Reach : Pending → ℕ → Type 0 where
  begin : (now : ℕ) → Reach nobody now
  conn :
      {p : Pending} {t : ℕ}
      → Reach p t
      → (cleaned_at now : ℕ) (ticket : Text) (socket : ℕ) (name : Text) (initial : List ℕ)
      → t ≤ cleaned_at
      → cleaned_at ≤ now
      → Reach (register_user_conn cleaned_at now ticket socket name initial p).0 now
  udp :
      {p : Pending} {t : ℕ}
      → Reach p t
      → (cleaned_at now : ℕ) (ticket : Text) (listener endpoint : ℕ) (name : Text) → t ≤ cleaned_at
      → cleaned_at ≤ now
      → Reach (register_udp_session cleaned_at now ticket listener endpoint name p).0 now
  clear :
      {p : Pending} {t : ℕ} → Reach p t → (name : Text) → Reach (clear_pending_for_proxy name p) t
  claims : {p : Pending} {t : ℕ} → Reach p t → (ticket : Text) → Reach (claim ticket p).0 t
