-- ===== src/Settlement/Diagram.antt =====
-- The state machine of a settlement as a relation on statuses, by the operations of
-- internal/settlement, and what it allows.
use payment_engine_v.Base.{ℕ, ◌≤◌, ◌≡◌, refl, Bool, true, false, arith}
use payment_engine_v.Settlement.Tables.{
  Status, pending_dispatch, dispatching, settling, settled, settlement_failed,
  awaiting_manual_payout, reversed, reversal_resolved, equal_status,
}

pub equal_status_lem : (a b : Status) → equal_status a b ≡ true → a ≡ b
equal_status_lem pending_dispatch b h = ground arith
equal_status_lem _ b h = ground arith

infix 40 ◌⇒◌ ◌⇒*◌
pub data ◌⇒◌ : Status → Status → Type 0 where
  take : pending_dispatch ⇒ dispatching
  value : dispatching ⇒ settling
  pay : settling ⇒ settled
  give_up : settling ⇒ settlement_failed
  park : settling ⇒ awaiting_manual_payout
  pay_by_hand : awaiting_manual_payout ⇒ settled
  retry_failed : settlement_failed ⇒ pending_dispatch
  retry_parked : awaiting_manual_payout ⇒ pending_dispatch
  retry_paged : settling ⇒ pending_dispatch
  return : settled ⇒ reversed
  resolve : reversed ⇒ reversal_resolved

pub data ◌⇒*◌ : Status → Status → Type 0 where
  here : {a : Status} → a ⇒* a
  then : {a b c : Status} → a ⇒ b → b ⇒* c → a ⇒* c

pub ⇒*-trans : {a b c : Status} → a ⇒* b → b ⇒* c → a ⇒* c
⇒*-trans here q = q
⇒*-trans (then e p) q = then e (⇒*-trans p q)

pub one_move : {a b : Status} → a ⇒ b → a ⇒* b
one_move e = then e here

-- The tenant's money has gone out.
abbrev pub is_paid_out : Status → Bool
is_paid_out settled = true
is_paid_out reversed = true
is_paid_out reversal_resolved = true
is_paid_out _ = false

-- How far a settlement is beyond the payout.
abbrev pub paid_rank : Status → ℕ
paid_rank settled = 1
paid_rank reversed = 2
paid_rank reversal_resolved = 3
paid_rank _ = 0

paid_rank_step : {a b : Status} → a ⇒ b → paid_rank a ≤ paid_rank b
paid_rank_step take = omega arith
paid_rank_step _ = omega arith

pub paid_rank-le : {a b : Status} → a ⇒* b → paid_rank a ≤ paid_rank b
paid_rank-le here = omega arith
paid_rank-le (then e p) = omega (arith, paid_rank_step e, paid_rank-le p)

paid_out_step : {a b : Status} → a ⇒ b → is_paid_out a ≡ true → is_paid_out b ≡ true
paid_out_step return h = refl
paid_out_step resolve h = refl
paid_out_step pay h = refl
paid_out_step pay_by_hand h = refl
paid_out_step _ h = cc

-- Once paid out, a settlement is never queued or dispatched again.
pub paid_out_stays : {a b : Status} → a ⇒* b → is_paid_out a ≡ true → is_paid_out b ≡ true
paid_out_stays here h = h
paid_out_stays (then e p) h = paid_out_stays p (paid_out_step e h)
