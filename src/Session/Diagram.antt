-- ===== src/Session/Diagram.antt =====
-- The session state machine that the code implements (the transitions of internal/session/session.go
-- and the statements of ttl.go) as a relation on statuses, and what it allows. It differs from the
-- diagram of docs/ARCHITECTURE.md in two edges: the document has `reversed` to `settling`, a retry by
-- the operators, which no operation makes, and does not have `pending` to `deposit_confirmed`, which
-- the handler of confirmed deposits makes where no detection came first.
use payment_engine_v.Base.{ℕ, ◌≤◌, ◌≡◌, refl, Bool, true, false, arith}
use payment_engine_v.Session.Tables.{
  Status, screening, compliance_hold, rejected, pending, expired, deposit_detected,
  deposit_confirmed, settling, settled, settlement_failed, reversed, reversal_resolved, same_status,
}

pub same_status_lem : (a b : Status) → same_status a b ≡ true → a ≡ b
same_status_lem screening b h = ground arith
same_status_lem _ b h = ground arith

infix 40 ◌⟶◌ ◌⟶*◌
pub data ◌⟶◌ : Status → Status → Type 0 where
  hold : screening ⟶ compliance_hold
  reject : screening ⟶ rejected
  approve : screening ⟶ pending
  reject_hold : compliance_hold ⟶ rejected
  approve_hold : compliance_hold ⟶ pending
  expire_screening : screening ⟶ expired
  expire_hold : compliance_hold ⟶ expired
  expire_pending : pending ⟶ expired
  detect : pending ⟶ deposit_detected
  confirm_pending : pending ⟶ deposit_confirmed
  confirm : deposit_detected ⟶ deposit_confirmed
  settle : deposit_confirmed ⟶ settling
  retry : settlement_failed ⟶ settling
  pay : settling ⟶ settled
  give_up : settling ⟶ settlement_failed
  return : settled ⟶ reversed
  resolve : reversed ⟶ reversal_resolved

pub data ◌⟶*◌ : Status → Status → Type 0 where
  here : {a : Status} → a ⟶* a
  then : {a b c : Status} → a ⟶ b → b ⟶* c → a ⟶* c

pub ⟶*-trans : {a b c : Status} → a ⟶* b → b ⟶* c → a ⟶* c
⟶*-trans here q = q
⟶*-trans (then e p) q = then e (⟶*-trans p q)

pub one_step : {a b : Status} → a ⟶ b → a ⟶* b
one_step e = then e here

-- Before any deposit; paid out; closed for good.
abbrev pub is_unfunded : Status → Bool
is_unfunded screening = true
is_unfunded compliance_hold = true
is_unfunded pending = true
is_unfunded rejected = true
is_unfunded expired = true
is_unfunded _ = false

abbrev pub is_paid : Status → Bool
is_paid settled = true
is_paid reversed = true
is_paid reversal_resolved = true
is_paid _ = false

abbrev pub is_closed : Status → Bool
is_closed rejected = true
is_closed expired = true
is_closed reversal_resolved = true
is_closed _ = false

-- How far a session is beyond the payout.
abbrev pub paid_rank : Status → ℕ
paid_rank settled = 1
paid_rank reversed = 2
paid_rank reversal_resolved = 3
paid_rank _ = 0

paid_rank_step : {a b : Status} → a ⟶ b → paid_rank a ≤ paid_rank b
paid_rank_step hold = omega arith
paid_rank_step _ = omega arith

pub paid_rank-le : {a b : Status} → a ⟶* b → paid_rank a ≤ paid_rank b
paid_rank-le here = omega arith
paid_rank-le (then e p) = omega (arith, paid_rank_step e, paid_rank-le p)

-- Once paid out, a session stays on the paid side of the machine.
paid_step : {a b : Status} → a ⟶ b → is_paid a ≡ true → is_paid b ≡ true
paid_step pay h = refl
paid_step return h = refl
paid_step resolve h = refl
paid_step _ h = cc

pub paid_stays : {a b : Status} → a ⟶* b → is_paid a ≡ true → is_paid b ≡ true
paid_stays here h = h
paid_stays (then e p) h = paid_stays p (paid_step e h)

closed_step : {a b : Status} → a ⟶ b → is_closed a ≡ false
closed_step hold = refl
closed_step _ = refl

-- A rejected, expired or resolved session does not move.
pub closed_stays : {a b : Status} → a ⟶* b → is_closed a ≡ true → b ≡ a
closed_stays here h = refl
closed_stays (then e p) h = cc (closed_step e)
