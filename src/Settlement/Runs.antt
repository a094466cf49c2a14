-- ===== src/Settlement/Runs.antt =====
-- Sequences of the operations of internal/settlement, each with its own answers of the database, of
-- the providers and of the other modules, and of what those modules do in between: postings to the
-- ledger and operations on sessions.
use payment_engine_v.Base.{ℕ, ℤ, String, Bool, Option, List, [], ◌∷◌, refl}
use payment_engine_v.Db.{Answer, Action}
use payment_engine_v.Ledger.Tables.{Transaction}
use payment_engine_v.Ledger.Post.{post}
use payment_engine_v.Session
use payment_engine_v.Session.Runs.{perform as perform_session, perform-Grown, Op as SessionOp}
use payment_engine_v.Settlement.Tables.{Tables}
use payment_engine_v.Settlement.Services.{Services}
use payment_engine_v.Settlement.Calls.{SettlementError, ledger_call}
use payment_engine_v.Settlement.Process.{handle_deposit_confirmed}
use payment_engine_v.Settlement.Inbound.{dispatch_tick, handle_telegram_update}
use payment_engine_v.Settlement.Webhook.{handle_settlement_webhook, manual_settle}
use payment_engine_v.Settlement.Ops.{
  retry_payout, AccountRef, resolve_reversal, page_ops_for_timed_out_confirmations,
}
use payment_engine_v.Settlement.Advance.{Advanced-refl}
use payment_engine_v.Settlement.Sound.{Sound, Sound-refl, Sound-trans, Sound-unasked}
use payment_engine_v.Settlement.Rules.{post-Sound}
use payment_engine_v.Settlement.Queue.{handle_deposit_confirmed-Sound}
use payment_engine_v.Settlement.Callbacks.{handle_settlement_webhook-Sound, manual_settle-Sound}
use payment_engine_v.Settlement.Presses.{dispatch_tick-Sound, handle_telegram_update-Sound}
use payment_engine_v.Settlement.ByOperators.{
  retry_payout-Sound, resolve_reversal-Sound, page_ops-Sound,
}

pub data Op : Type 0 where
  deposit_op : (session_id now : ℕ) → Op
  webhook_op : (now fuel : ℕ) (provider callback : String) → Op
  tick_op : (now fuel rounds : ℕ) → Op
  telegram_op : (now : ℕ) (secret body : String) → Op
  by_hand_op : (now settlement_id : ℕ) (audit : String) → Op
  retry_op :
      (now settlement_id admin : ℕ) (destination : Option String) (confirmed_failed : Bool) → Op
  close_op : (now reversal_id : ℕ) (debit credit : AccountRef) (amount : ℤ) → Op
  page_op : (clock now : ℕ) → Op
  -- other modules
  posting_op : (id : ℕ) (txn : Transaction) → Op
  session_op : Session.Services.Services → (bus : Bool) → SessionOp → Op

-- The tables after an operation that returns or fails.
abbrev after : {A : Type 0} → Action SettlementError Tables A → List Answer → Tables → Tables
after m answers s = (m s answers).1

unfoldable pub perform : Services → Op → List Answer → Tables → Tables
perform svc (deposit_op session_id now) = after (handle_deposit_confirmed session_id now)
perform svc (tick_op now fuel rounds) = λ answers s. dispatch_tick svc now fuel rounds s answers
perform svc (telegram_op now secret body) = after (handle_telegram_update svc now secret body)
perform svc (webhook_op now fuel provider callback) =
    after (handle_settlement_webhook svc now fuel provider callback)
perform svc (by_hand_op now settlement_id audit) = after (manual_settle svc now settlement_id audit)
perform svc (retry_op now settlement_id admin destination confirmed_failed) =
    after (retry_payout svc now settlement_id admin destination confirmed_failed)
perform svc (close_op now reversal_id debit credit amount) =
    after (resolve_reversal svc now reversal_id debit credit amount)
perform svc (page_op clock now) = after (page_ops_for_timed_out_confirmations clock now)
perform svc (posting_op id txn) = after (ledger_call (post id txn))
perform svc (session_op others bus op) =
    λ answers s. record s { sessions = perform_session others bus op answers s.sessions }

-- One step of a run: the services and the answers may differ from step to step.
pub record Step : Type 0 where
  pub services : Services
  pub op : Op
  pub answers : List Answer

unfoldable pub run : List Step → Tables → Tables
run [] s = s
run (x ∷ steps) s = run steps (perform x.services x.op x.answers s)

perform-Sound :
    (svc : Services) (op : Op) (answers : List Answer) (s : Tables)
    → Sound s (perform svc op answers s)
unfolding perform
perform-Sound svc (deposit_op i n) answers s = (handle_deposit_confirmed-Sound i n).at s answers
perform-Sound svc (tick_op n f r) answers s = dispatch_tick-Sound svc n f r s answers
perform-Sound svc (telegram_op n k b) answers s =
    (handle_telegram_update-Sound svc n k b).at s answers
perform-Sound svc (webhook_op n f p c) answers s =
    (handle_settlement_webhook-Sound svc n f p c).at s answers
perform-Sound svc (by_hand_op n i a) answers s = (manual_settle-Sound svc n i a).at s answers
perform-Sound svc (retry_op n i a d c) answers s = (retry_payout-Sound svc n i a d c).at s answers
perform-Sound svc (close_op n i d c a) answers s =
    (resolve_reversal-Sound svc n i d c a).at s answers
perform-Sound svc (page_op c n) answers s = (page_ops-Sound c n).at s answers
perform-Sound svc (posting_op id txn) answers s = (post-Sound id txn).at s answers
perform-Sound svc (session_op others bus op) answers s =
    Sound-unasked (λ key h. h) (perform-Grown others bus op answers s.sessions)
      (Advanced-refl s.settlements) refl

pub run-Sound : (steps : List Step) (s : Tables) → Sound s (run steps s)
unfolding run
run-Sound [] s = Sound-refl s
run-Sound (x ∷ steps) s =
    Sound-trans s _ _ (perform-Sound x.services x.op x.answers s)
      (run-Sound steps (perform x.services x.op x.answers s))
