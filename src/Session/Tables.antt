-- ===== src/Session/Tables.antt =====
-- The rows of internal/session (session.go, events.go, ttl.go). A UUID is a number, a time a number
-- of nanoseconds, an amount a number of units of 10^-22.
use payment_engine_v.Base.{ℕ, ℤ, Bool, String, Option, List, ◌==◌, ◌*◌}

pub data Status : Type 0 where
  screening compliance_hold rejected pending expired deposit_detected deposit_confirmed settling
        settled settlement_failed reversed reversal_resolved :
      Status

-- The statuses are texts in the source: equality of two goes by a number for each.
abbrev pub number : Status → ℕ
number screening = 0
number compliance_hold = 1
number rejected = 2
number pending = 3
number expired = 4
number deposit_detected = 5
number deposit_confirmed = 6
number settling = 7
number settled = 8
number settlement_failed = 9
number reversed = 10
number reversal_resolved = 11

abbrev pub same_status : Status → Status → Bool
same_status a b = number a == number b

-- treasury.DepositInstructions; an `expires_at` that is missing is `none`.
pub record Instructions : Type 0 where
  pub reservation_id : ℕ
  pub tenant_id : ℕ
  pub provider_name : String
  pub crypto_asset : String
  pub crypto_network : String
  pub address : String
  pub address_tag : String
  pub amount : String
  pub expires_at : Option ℕ

pub record Session : Type 0 where
  pub deposit_instructions : Option Instructions
  pub id : ℕ
  pub tenant_id : ℕ
  pub corridor_id : ℕ
  pub status : Status
  pub fiat_currency : String
  pub fiat_amount : ℤ
  pub crypto_asset : String
  pub crypto_network : String
  pub compliance_case_id : Option ℕ
  pub rate_lock_id : Option ℕ
  pub deposit_reservation_id : Option ℕ
  pub sla_breached_at : Option ℕ
  pub payout_destination : String
  pub created_at : ℕ
  pub updated_at : ℕ

-- The events that the module publishes, with their payloads.
pub data SessionEvent : Type 0 where
  created : (tenant_id corridor_id : ℕ) → SessionEvent
  detected confirmed : (reservation_id tenant_id : ℕ) → SessionEvent
  sla_breached : (tenant_id : ℕ) → SessionEvent

-- An outbox row: the session that the event is about, and the event.
pub record Published : Type 0 where
  pub aggregate_id : ℕ
  pub event : SessionEvent

-- compliance.Case.Status: the three that a screening may return, or any other text.
pub data CaseStatus : Type 0 where
  hold refused_case approved unexpected : CaseStatus

-- A row of compliance_cases, as far as the sessions and their holds read it.
pub record HoldCase : Type 0 where
  pub id : ℕ
  pub status : CaseStatus
  pub hold_expires_at : Option ℕ

-- A new row stands first.
pub record Tables : Type 0 where
  pub sessions : List Session
  pub outbox : List Published
  pub cases : List HoldCase

-- 30 * time.Minute
abbrev pub session_ttl : ℕ
session_ttl = 30 * 60 * 1000000000
