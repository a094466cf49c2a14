-- ===== src/Session/Expiry.antt =====
-- Which sessions `expirePreDeposit` of internal/session/ttl.go expires.
use payment_engine_v.Base.{◌∷◌, ◌<◌, some, ◌⊎◌, [], ◌≡◌, ◌+◌, List, ℕ}
use payment_engine_v.Session.Tables.{
  expired, session_ttl, Status, screening, pending, Instructions, Session, Tables,
}

-- No deposit, and no analyst who has the session.
abbrev pub IsWaiting : Status → Type 0
IsWaiting a = (a ≡ screening) ⊎ (a ≡ pending)

-- Past its own deadline by the server's clock, or past its instructions' by the database's.
pub data IsOverdue (clock now : ℕ) (x : Session) : Type 0 where
  too_old : IsWaiting x.status → x.created_at + session_ttl < clock → IsOverdue clock now x
  quote_ended :
      {i : Instructions} {t : ℕ}
      → IsWaiting x.status
      → x.deposit_instructions ≡ some i
      → i.expires_at ≡ some t
      → t < now
      → IsOverdue clock now x

-- The rows after, one for each of the rows before.
pub data Expired (clock now : ℕ) : List Session → List Session → Type 0 where
  nil : Expired clock now [] []
  closed :
      {x : Session} {xs ys : List Session}
      → IsOverdue clock now x
      → Expired clock now xs ys
      → Expired clock now (x ∷ xs) (record x { status = expired; updated_at = now } ∷ ys)
  kept :
      {x : Session} {xs ys : List Session}
      → ¬ IsOverdue clock now x
      → Expired clock now xs ys
      → Expired clock now (x ∷ xs) (x ∷ ys)
