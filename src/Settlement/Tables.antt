-- ===== src/Settlement/Tables.antt =====
-- The rows of internal/settlement (settlement.go, dispatch.go, webhook.go; migrations/000007) and the
-- tables that a payout touches. A JSON document is its text.
use payment_engine_v.Base.{ℕ, ℤ, String, Option, List, ◌==◌, Bool}
use payment_engine_v.Ledger
use payment_engine_v.Session

pub data Status : Type 0 where
  pending_dispatch dispatching settling settled settlement_failed awaiting_manual_payout reversed
        reversal_resolved :
      Status

-- The statuses are texts in the source: equality of two goes by a number for each.
abbrev status_number : Status → ℕ
status_number pending_dispatch = 0
status_number dispatching = 1
status_number settling = 2
status_number settled = 3
status_number settlement_failed = 4
status_number awaiting_manual_payout = 5
status_number reversed = 6
status_number reversal_resolved = 7

abbrev pub equal_status : Status → Status → Bool
equal_status a b = status_number a == status_number b

pub record Settlement : Type 0 where
  pub id : ℕ
  pub session_id : ℕ
  pub tenant_id : ℕ
  pub corridor_id : ℕ
  pub status : Status
  pub crypto_asset : String
  pub crypto_amount : ℤ
  pub fiat_currency : String
  pub fiat_value : ℤ
  pub tenant_payable_amount : ℤ
  pub attempt_count : ℕ
  pub confirmation_deadline_at : Option ℕ
  pub ops_paged_at : Option ℕ
  pub pending_destination : Option String
  pub created_at : ℕ
  pub updated_at : ℕ

pub data AttemptStatus : Type 0 where
  dispatched succeeded failed_bucket1 failed_bucket2 failed_bucket3 failed_bucket4 : AttemptStatus

pub record Attempt : Type 0 where
  pub id : ℕ
  pub settlement_id : ℕ
  pub attempt_number : ℕ
  pub provider_name : String
  pub idempotency_key : String
  pub status : AttemptStatus
  pub provider_reference : Option String
  pub failure_reason : Option String
  pub provider_payload : String
  pub dispatched_at : ℕ
  pub resolved_at : Option ℕ

pub data CaseState : Type 0 where
  unresolved resolved : CaseState

-- A row of settlement_reversals.
pub record Reversal : Type 0 where
  pub id : ℕ
  pub settlement_id : ℕ
  pub session_id : ℕ
  pub status : CaseState
  pub reason : String

-- An outbox row.
pub record Published : Type 0 where
  pub event_type : String
  pub settlement_id : ℕ
  pub session_id : ℕ
  pub tenant_id : ℕ

-- What a provider is asked to pay.
pub record PayoutRequest : Type 0 where
  pub session_id : ℕ
  pub attempt_number : ℕ
  pub attempt_idempotency_key : String
  pub fiat_currency : String
  pub amount : ℤ
  pub destination : Option String

-- A row of treasury_address_reservations, as far as a payout releases it.
pub record Reservation : Type 0 where
  pub id : ℕ
  pub is_reserved : Bool

-- The database, the requests that the providers have received, newest first, and the next id that
-- the database draws.
pub record Tables : Type 0 where
  pub settlements : List Settlement
  pub attempts : List Attempt
  pub reversals : List Reversal
  pub outbox : List Published
  pub reservations : List Reservation
  pub requests : List PayoutRequest
  pub ledger : Ledger.Tables.Tables
  pub sessions : Session.Tables.Tables
  pub next_id : ℕ
