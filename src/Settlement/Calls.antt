-- ===== src/Settlement/Calls.antt =====
-- Calls of the ledger, the sessions and the other modules from internal/settlement, and the lookups
-- of settlement.go.
use payment_engine_v.Base.{
  ℕ, suc, ℤ, String, str_append, Bool, true, false, Option, none, some, List, [], ◌∷◌, ◌==◌,
  if◌then◌else◌, update_returning, ◌&&◌,
}
use payment_engine_v.Db.{Answer, Result, ok, err, Action, pure, fail, query, ◌>>=◌}
use payment_engine_v.Ledger
use payment_engine_v.Ledger.Tables.{Transaction, Entry, debit, credit}
use payment_engine_v.Ledger.Post.{LedgerError, already_posted, post}
use payment_engine_v.Ledger.Accounts.{Key, get_or_create_account}
use payment_engine_v.Session
use payment_engine_v.Session.Cas.{SessionError}
use payment_engine_v.Session.Create.{get_session}
use payment_engine_v.Session.Services.{Reply}
use payment_engine_v.Settlement.Tables.{Settlement, PayoutRequest, Tables}
use payment_engine_v.Settlement.Services.{Services, PayoutResult}

pub data SettlementError : Type 0 where
  not_found not_retryable reversal_not_found reversal_already_resolved unknown_attempt
        not_awaiting_manual_payout unknown_provider telegram_disabled invalid_telegram_secret :
      SettlementError
  missing_deposit begin_failed commit_failed database_failed service_failed dispatch_failed :
      SettlementError
  ledger_failed : LedgerError → SettlementError
  session_failed : SessionError → SettlementError
  -- the model's own
  out_of_fuel : SettlementError

abbrev pub ledger_return :
    {A : Type 0}
    → Tables
    → Result LedgerError A × Ledger.Tables.Tables × List Answer
    → Result SettlementError (Result LedgerError A) × Tables × List Answer
ledger_return s (r, l, rest) = (ok r, record s { ledger = l }, rest)

-- A method of the ledger, whose error the caller looks at.
unfoldable pub ledger_call :
    {A : Type 0}
    → Action LedgerError Ledger.Tables.Tables A
    → Action SettlementError Tables (Result LedgerError A)
ledger_call m s answers = ledger_return s (m s.ledger answers)

abbrev pub session_return :
    {A : Type 0}
    → Tables
    → Result SessionError A × Session.Tables.Tables × List Answer
    → Result SettlementError A × Tables × List Answer
session_return s (ok a, t, rest) = (ok a, record s { sessions = t }, rest)
session_return s (err e, t, rest) = (err (session_failed e), record s { sessions = t }, rest)

-- A method of the sessions, whose error the caller wraps.
unfoldable pub session_call :
    {A : Type 0} → Action SessionError Session.Tables.Tables A → Action SettlementError Tables A
session_call m s answers = session_return s (m s.sessions answers)

abbrev attempt_return :
    {A : Type 0}
    → Result SettlementError A × Tables × List Answer
    → Result SettlementError (Result SettlementError A) × Tables × List Answer
attempt_return (r, s, rest) = (ok r, s, rest)

-- A method whose error the caller looks at.
unfoldable pub try :
    {A : Type 0}
    → Action SettlementError Tables A
    → Action SettlementError Tables (Result SettlementError A)
try m s answers = attempt_return (m s answers)

-- gen_random_uuid()
unfoldable pub draw_id : Action SettlementError Tables ℕ
draw_id s answers = (ok s.next_id, record s { next_id = suc s.next_id }, answers)

unfoldable pub reply : {A : Type 0} → Reply A → Action SettlementError Tables A
reply (ok a) = pure a
reply (err _) = fail service_failed

unfoldable pub require : Bool → SettlementError → Action SettlementError Tables Unit
require true e = pure tt
require false e = fail e

unfoldable pub expect_ledger : {A : Type 0} → Result LedgerError A → Action SettlementError Tables A
expect_ledger (ok a) = pure a
expect_ledger (err e) = fail (ledger_failed e)

-- `err != nil && !errors.Is(err, ledger.ErrAlreadyPosted)`
unfoldable pub ignore_taken : Result LedgerError ℕ → Action SettlementError Tables Unit
ignore_taken (ok _) = pure tt
ignore_taken (err already_posted) = pure tt
ignore_taken (err e) = fail (ledger_failed e)

unfoldable pub claim : Transaction → Action SettlementError Tables (Result LedgerError ℕ)
claim txn = do id ← draw_id; ledger_call (post id txn)

unfoldable pub post_once : Transaction → Action SettlementError Tables Unit
post_once txn = do r ← claim txn; ignore_taken r

unfoldable pub account : Key → String → String → Action SettlementError Tables ℕ
account k unit_type name = do
  id ← draw_id
  r ← ledger_call (get_or_create_account id k unit_type name)
  expect_ledger r

-- `settlementAccounts`
pub record Accounts : Type 0 where
  pub treasury_in_transit : ℕ
  pub crypto_fx_clearing : ℕ
  pub fiat_fx_clearing : ℕ
  pub treasury_fiat_operating : ℕ
  pub tenant_payable : ℕ

abbrev own : String → String → Key
own account_type asset = record {
  tenant_id = none;
  account_type = account_type;
  asset_code = asset;
}

-- `resolveAccounts`
unfoldable pub resolve_accounts : ℕ → String → String → Action SettlementError Tables Accounts
resolve_accounts tenant_id crypto fiat = do
  transit ←
      account (own "treasury_in_transit" crypto) "crypto"
        (str_append "Treasury in-transit: " crypto)
  crypto_fx ←
      account (own "crypto_fx_clearing" crypto) "crypto" (str_append "Crypto FX clearing: " crypto)
  fiat_fx ← account (own "fiat_fx_clearing" fiat) "fiat" (str_append "Fiat FX clearing: " fiat)
  operating ←
      account (own "treasury_fiat_operating" fiat) "fiat"
        (str_append "Treasury fiat operating: " fiat)
  payable ←
      account
        (record { tenant_id = some tenant_id; account_type = "tenant_payable"; asset_code = fiat })
        "fiat" (str_append "Tenant payable: " fiat)
  pure (record {
    treasury_in_transit = transit;
    crypto_fx_clearing = crypto_fx;
    fiat_fx_clearing = fiat_fx;
    treasury_fiat_operating = operating;
    tenant_payable = payable;
  })

-- One amount from an account to another: a debit and a credit of one asset each.
abbrev pub two_entries : ℕ → String → ℕ → String → ℤ → List Entry
two_entries from from_asset to to_asset amount =
    record { account_id = from; direction = debit; amount = amount; asset_code = from_asset }
    ∷ record { account_id = to; direction = credit; amount = amount; asset_code = to_asset }
    ∷ []

abbrev pub found_row : {A : Type 0} → SettlementError → Option A → Result SettlementError A
found_row e none = err e
found_row e (some a) = ok a

abbrev pub find_settlement : ℕ → List Settlement → Option Settlement
find_settlement id [] = none
find_settlement id (x ∷ rows) = if x.id == id then some x else find_settlement id rows

-- `GetSettlement`
unfoldable pub get_settlement : ℕ → Action SettlementError Tables Settlement
get_settlement id =
    query database_failed (λ s. (found_row not_found (find_settlement id s.settlements), s))

abbrev find_by_session : ℕ → List Settlement → Option Settlement
find_by_session session_id [] = none
find_by_session session_id (x ∷ rows) =
    if x.session_id == session_id then some x else find_by_session session_id rows

-- `GetSettlementBySession`
unfoldable pub get_settlement_by_session : ℕ → Action SettlementError Tables Settlement
get_settlement_by_session id =
    query database_failed (λ s. (found_row not_found (find_by_session id s.settlements), s))

-- `treasury.ReleaseReservation`
unfoldable pub release_reservation : ℕ → Action SettlementError Tables Unit
release_reservation id = query database_failed (λ s. (
  ok tt,
  record s {
    reservations =
        (update_returning (λ r. r.id == id && r.is_reserved) (λ r. record r { is_reserved = false })
          s.reservations).1;
  },
))

unfoldable pub release_if_any : Option ℕ → Action SettlementError Tables Unit
release_if_any none = pure tt
release_if_any (some id) = release_reservation id

-- The release at the end of a payout: the session's reservation, if it has one.
unfoldable pub release_for : ℕ → Action SettlementError Tables Unit
release_for session_id = do
  sess ← session_call (get_session session_id)
  release_if_any sess.deposit_reservation_id

abbrev pub dispatch_reply : Reply PayoutResult → Result SettlementError PayoutResult
dispatch_reply (ok r) = ok r
dispatch_reply (err _) = err dispatch_failed

-- `provider.Dispatch`: the provider has the request, whatever it answers.
unfoldable pub call_provider :
    Services → String → PayoutRequest → Action SettlementError Tables PayoutResult
call_provider svc name req s answers =
    (dispatch_reply (svc.dispatch name req), record s { requests = req ∷ s.requests }, answers)
