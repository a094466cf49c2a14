-- ===== src/Session/Services.antt =====
-- What a session takes from the other modules of internal/ (corridor, tenant, compliance, rate,
-- treasury) and from the decimal library: the answers of one call each, errors included.
use payment_engine_v.Base.{ℕ, ℤ, Bool, String, Option, List}
use payment_engine_v.Db.{Result}
use payment_engine_v.Session.Tables.{Instructions, CaseStatus}

pub record Corridor : Type 0 where
  pub id : ℕ
  pub crypto_asset : String
  pub fiat_currency : String

-- The corridor lookup: found, `corridor.ErrNotFound`, or another error.
pub data Found : Type 0 where
  found : Corridor → Found
  not_found lookup_failed : Found

pub record Case : Type 0 where
  pub id : ℕ
  pub status : CaseStatus

-- rate.Lock
pub record Lock : Type 0 where
  pub id : ℕ
  pub rate : ℤ
  pub asset_price_usd : ℤ
  pub expires_at : ℕ

-- A call that may fail with an error that the session only wraps.
abbrev pub Reply : Type 0 → Type 0
Reply A = Result Unit A

pub record Services : Type 0 where
  pub get_corridor : String → String → String → Found
  pub get_corridor_by_id : ℕ → Reply Corridor
  pub is_valid_destination : Corridor → Option String → Bool
  pub check_entitlement : ℕ → ℕ → Reply Bool
  pub list_compliance_providers : ℕ → Reply (List String)
  -- by the corridor, the session's id, the tenant, the amount and the provider's name
  pub screen_session : Corridor → ℕ → ℕ → ℤ → String → Reply Case
  pub lock_rate : String → String → Reply Lock
  -- by the tenant, the corridor and the amount of crypto
  pub get_deposit_instructions : ℕ → ℕ → ℤ → Reply Instructions
  -- decimal.Div, RoundUp and String
  pub div : ℤ → ℤ → ℤ
  pub round_up : ℕ → ℤ → ℤ
  pub decimal_text : ℤ → String
