-- ===== src/Settlement/Process.antt =====
-- The queue of payouts (internal/settlement/dispatch.go: `processSettlement`,
-- `claimNextPendingDispatch`, `dispatchBatch`; events.go: `handleDepositConfirmed`).
use payment_engine_v.Base.{
  stored, ℕ, zero, suc, ltb, ℤ, pos, String, str_append, Bool, false, ◌||◌, Option, none, some,
  List, [], ◌∷◌, ◌==◌, if◌then◌else◌, update_returning, head_row,
}
use payment_engine_v.Db.{Answer, Result, ok, err, Action, pure, fail, query, ◌>>=◌, ◌>>◌}
use payment_engine_v.Ledger.Tables.{Transaction}
use payment_engine_v.Session.Tables.{Session, same_status, settling as session_settling}
use payment_engine_v.Session.Cas.{transition_to_settling}
use payment_engine_v.Session.Create.{get_session, find_session}
use payment_engine_v.Session.Services.{Lock}
use payment_engine_v.Settlement.Tables.{
  Settlement, pending_dispatch, dispatching, settling, Tables, equal_status,
}
use payment_engine_v.Settlement.Services.{Services}
use payment_engine_v.Settlement.Calls.{
  SettlementError, missing_deposit, database_failed, session_call, draw_id, reply, post_once,
  resolve_accounts, two_entries,
}
use payment_engine_v.Settlement.Transition.{is_in, update_settlement}
use payment_engine_v.Settlement.Attempts.{key_of}
use payment_engine_v.Settlement.Dispatch.{dispatch_attempt}

-- `Lock.CryptoToFiat` (internal/rate/rate.go): the product as it is, of up to 22 decimals, which
-- only the columns that it is written to round.
unfoldable pub crypto_to_fiat : Services → Lock → ℤ → ℤ
crypto_to_fiat svc lock amount = svc.mul (svc.mul amount lock.asset_price_usd) lock.rate

abbrev both : Option ℕ → Option ℕ → Option (ℕ × ℕ)
both (some a) (some b) = some (a, b)
both _ _ = none

unfoldable pub expect_deposit : Option (ℕ × ℕ) → Action SettlementError Tables (ℕ × ℕ)
expect_deposit none = fail missing_deposit
expect_deposit (some p) = pure p

unfoldable pub session_txn : Services → String → Session → ℕ → String → ℕ → String → ℤ → Transaction
session_txn svc txn_type sess from from_asset to to_asset amount = record {
  idempotency_key = key_of (str_append txn_type ":session_") svc sess.id;
  txn_type = txn_type;
  reference_type = "session";
  reference_id = sess.id;
  created_by = "settlement";
  entries = two_entries from from_asset to to_asset amount;
}

-- The row as the columns keep it; the settlement in memory has the amounts as they were computed.
abbrev pub valued : Session → ℤ → ℤ → ℕ → Settlement → Settlement
valued sess crypto fiat now x = record x {
  status = settling;
  crypto_asset = sess.crypto_asset;
  crypto_amount = stored crypto;
  fiat_currency = sess.fiat_currency;
  fiat_value = stored fiat;
  tenant_payable_amount = stored fiat;
  updated_at = now;
}

unfoldable pub start_session : ℕ → Session → Action SettlementError Tables Unit
start_session now sess =
    if same_status sess.status session_settling
    then pure tt
    else (do session_call (transition_to_settling sess.id now); pure tt)

-- `processSettlement`
unfoldable pub process_settlement :
    Services → ℕ → ℕ → Settlement → Action SettlementError Tables Unit
process_settlement svc now fuel st = do
  sess ← session_call (get_session st.session_id)
  (reservation, lock_id) ← expect_deposit (both sess.deposit_reservation_id sess.rate_lock_id)
  crypto ← reply (svc.get_confirmed_deposit_total reservation)
  lock ← reply (svc.get_lock lock_id)
  let fiat = crypto_to_fiat svc lock crypto
  accounts ← resolve_accounts sess.tenant_id sess.crypto_asset sess.fiat_currency
  post_once (
      session_txn svc "deposit_confirmed" sess accounts.treasury_in_transit sess.crypto_asset
        accounts.crypto_fx_clearing sess.crypto_asset crypto)
  post_once (
      session_txn svc "fx_conversion" sess accounts.fiat_fx_clearing sess.fiat_currency
        accounts.tenant_payable sess.fiat_currency fiat)
  query database_failed (update_settlement (is_in st.id dispatching) (valued sess crypto fiat now))
  start_session now sess
  dispatch_attempt svc now fuel (record st {
    tenant_id = sess.tenant_id;
    corridor_id = sess.corridor_id;
    crypto_asset = sess.crypto_asset;
    crypto_amount = crypto;
    fiat_currency = sess.fiat_currency;
    fiat_value = fiat;
    tenant_payable_amount = fiat;
    status = settling;
  })

abbrev older : Settlement → Option Settlement → Settlement
older x none = x
older x (some y) = if ltb y.created_at x.created_at then y else x

-- SELECT id … WHERE status = 'pending_dispatch' ORDER BY created_at LIMIT 1
unfoldable pub oldest_pending : List Settlement → Option Settlement
oldest_pending [] = none
oldest_pending (x ∷ rows) =
    let rest = oldest_pending rows in
    if equal_status x.status pending_dispatch then some (older x rest) else rest

-- The row with that id, which is the selected one: `id` is the primary key.
abbrev pub claim_row :
    ℕ → Option Settlement → Tables → Result SettlementError (Option Settlement) × Tables
claim_row now none s = (ok none, s)
claim_row now (some x) s =
    let (rows, table) =
      update_returning (is_in x.id pending_dispatch)
        (λ y. record y { status = dispatching; updated_at = now }) s.settlements in
    (ok (head_row rows), record s { settlements = table })

-- `claimNextPendingDispatch`
unfoldable pub claim_next_pending_dispatch : ℕ → Action SettlementError Tables (Option Settlement)
claim_next_pending_dispatch now =
    query database_failed (λ s. claim_row now (oldest_pending s.settlements) s)

abbrev pub process_or_stop :
    Services
    → ℕ
    → ℕ
    → Result SettlementError (Option Settlement) × Tables × List Answer
    → (Tables → List Answer → Tables × List Answer)
    → Tables × List Answer
process_or_stop svc now fuel (ok (some st), s, rest) go =
    let (_, t, rest') = process_settlement svc now fuel st s rest in go t rest'
process_or_stop svc now fuel (ok none, s, rest) go = (s, rest)
process_or_stop svc now fuel (err _, s, rest) go = (s, rest)

-- `dispatchBatch`, for so many rounds; an error of one settlement is logged.
unfoldable pub dispatch_batch : Services → ℕ → ℕ → ℕ → Tables → List Answer → Tables × List Answer
dispatch_batch svc now fuel zero s answers = (s, answers)
dispatch_batch svc now fuel (suc rounds) s answers =
    process_or_stop svc now fuel (claim_next_pending_dispatch now s answers)
      (dispatch_batch svc now fuel rounds)

abbrev pub has_session : ℕ → List Settlement → Bool
has_session session_id [] = false
has_session session_id (x ∷ rows) = x.session_id == session_id || has_session session_id rows

abbrev pub new_settlement : ℕ → Session → ℕ → Settlement
new_settlement id sess now = record {
  id = id;
  session_id = sess.id;
  tenant_id = sess.tenant_id;
  corridor_id = sess.corridor_id;
  status = pending_dispatch;
  crypto_asset = sess.crypto_asset;
  crypto_amount = pos 0;
  fiat_currency = sess.fiat_currency;
  fiat_value = pos 0;
  tenant_payable_amount = pos 0;
  attempt_count = 0;
  confirmation_deadline_at = none;
  ops_paged_at = none;
  pending_destination = some sess.payout_destination;
  created_at = now;
  updated_at = now;
}

-- INSERT … SELECT … FROM sessions WHERE id = $1 ON CONFLICT (session_id) DO NOTHING
abbrev pub inserted : ℕ → ℕ → Option Session → Tables → Tables
inserted id now none s = s
inserted id now (some sess) s =
    if has_session sess.id s.settlements
    then s
    else record s { settlements = new_settlement id sess now ∷ s.settlements }

-- `handleDepositConfirmed`
unfoldable pub handle_deposit_confirmed : ℕ → ℕ → Action SettlementError Tables Unit
handle_deposit_confirmed session_id now = do
  id ← draw_id
  query database_failed
      (λ s. (ok tt, inserted id now (find_session session_id s.sessions.sessions) s))
