-- ===== src/Ledger/Tables.antt =====
-- The rows of internal/ledger (ledger.go, reconcile.go) and the tables that hold them. A UUID and a
-- time are numbers, which the caller's environment supplies (gen_random_uuid, now).
use payment_engine_v.Base.{
  ℕ, ℤ, pos, String, Option, none, some, List, [], ◌∷◌, ◌==◌, if◌then◌else◌,
}

-- `Direction` is a Go string: `other` is any text but the two constants.
pub data Direction : Type 0 where
  debit credit : Direction
  other : String → Direction

pub record Entry : Type 0 where
  pub account_id : ℕ
  pub direction : Direction
  pub amount : ℤ
  pub asset_code : String

pub record Transaction : Type 0 where
  pub idempotency_key : String
  pub txn_type : String
  pub reference_type : String
  pub reference_id : ℕ
  pub created_by : String
  pub entries : List Entry

pub record AccountRow : Type 0 where
  pub id : ℕ
  pub tenant_id : Option ℕ
  pub account_type : String
  pub asset_code : String
  pub unit_type : String
  pub name : String

pub record TransactionRow : Type 0 where
  pub id : ℕ
  pub idempotency_key : String
  pub txn_type : String
  pub reference_type : String
  pub reference_id : ℕ
  pub created_by : String

pub record EntryRow : Type 0 where
  pub transaction_id : ℕ
  pub account_id : ℕ
  pub direction : Direction
  pub amount : ℤ
  pub asset_code : String

pub record Discrepancy : Type 0 where
  pub id : ℕ
  pub account_id : ℕ
  pub cached_balance : ℤ
  pub computed_balance : ℤ
  pub drift_amount : ℤ
  pub detected_at : ℕ
  pub resolved_at : Option ℕ
  pub resolved_by : Option ℕ
  pub resolution_note : Option String

-- The payload of `ledger.drift_detected`, an outbox row.
pub record DriftDetected : Type 0 where
  pub aggregate_id : ℕ
  pub tenant_id : Option ℕ
  pub drift_amount : ℤ

-- A new row stands first.
pub record Tables : Type 0 where
  pub accounts : List AccountRow
  pub transactions : List TransactionRow
  pub entries : List EntryRow
  pub balances : List (ℕ × ℤ)
  pub discrepancies : List Discrepancy
  pub outbox : List DriftDetected

abbrev pub lookup_balance : ℕ → List (ℕ × ℤ) → Option ℤ
lookup_balance a [] = none
lookup_balance a ((k, v) ∷ rows) = if a == k then some v else lookup_balance a rows

abbrev pub or_zero : Option ℤ → ℤ
or_zero none = pos 0
or_zero (some v) = v
