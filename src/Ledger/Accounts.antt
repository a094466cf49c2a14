-- ===== src/Ledger/Accounts.antt =====
-- Accounts by tenant, type and asset (internal/ledger/ledger.go: `GetOrCreateAccount`,
-- `GetBalanceForTenant`).
use payment_engine_v.Base.{
  ℕ, ℤ, pos, Bool, true, false, ◌&&◌, Option, none, some, String, List, [], ◌∷◌, ◌==◌, str_eq,
  if◌then◌else◌,
}
use payment_engine_v.Db.{Action, Result, ok, query}
use payment_engine_v.Ledger.Tables.{AccountRow, Tables, lookup_balance, or_zero}
use payment_engine_v.Ledger.Post.{LedgerError, account_failed, get_balance_failed}

abbrev pub same_tenant : Option ℕ → Option ℕ → Bool
same_tenant none none = true
same_tenant (some a) (some b) = a == b
same_tenant _ _ = false

-- The unique key of ledger_accounts; a missing tenant equals a missing tenant (NULLS NOT DISTINCT).
pub record Key : Type 0 where
  pub tenant_id : Option ℕ
  pub account_type : String
  pub asset_code : String

unfoldable pub has_account_key : Key → AccountRow → Bool
has_account_key k r =
    same_tenant r.tenant_id k.tenant_id
    && str_eq r.account_type k.account_type
    && str_eq r.asset_code k.asset_code

unfoldable pub find_key : Key → List AccountRow → Option AccountRow
find_key k [] = none
find_key k (r ∷ rows) = if has_account_key k r then some r else find_key k rows

abbrev pub account_row : ℕ → Key → String → String → AccountRow
account_row id k unit_type name = record {
  id = id;
  tenant_id = k.tenant_id;
  account_type = k.account_type;
  asset_code = k.asset_code;
  unit_type = unit_type;
  name = name;
}

-- INSERT … ON CONFLICT (tenant_id, account_type, asset_code) DO UPDATE SET name = its own name
-- RETURNING id
unfoldable pub upsert_account : ℕ → Key → String → String → Tables → Result LedgerError ℕ × Tables
upsert_account new_id k unit_type name s = elim (find_key k s.accounts) [
  | some r ↦ (ok r.id, s)
  | none ↦ (ok new_id, record s { accounts = account_row new_id k unit_type name ∷ s.accounts })
]

-- `GetOrCreateAccount`; the database draws `new_id`.
unfoldable pub get_or_create_account : ℕ → Key → String → String → Action LedgerError Tables ℕ
unfolding query
get_or_create_account new_id k unit_type name =
    query account_failed (upsert_account new_id k unit_type name)

abbrev balance_of_row : Option AccountRow → List (ℕ × ℤ) → ℤ
balance_of_row none rows = pos 0
balance_of_row (some r) rows = or_zero (lookup_balance r.id rows)

-- `GetBalanceForTenant`: no account and no cached balance both read as zero.
unfoldable pub get_balance_for_tenant : ℕ → String → String → Action LedgerError Tables ℤ
unfolding query
get_balance_for_tenant tenant_id account_type asset_code = query get_balance_failed (λ s. (
  ok (
      balance_of_row
        (find_key
          (record {
            tenant_id = some tenant_id;
            account_type = account_type;
            asset_code = asset_code;
          })
          s.accounts)
        s.balances),
  s,
))
