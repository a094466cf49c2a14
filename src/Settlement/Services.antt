-- ===== src/Settlement/Services.antt =====
-- What a payout takes from the providers, from the other modules (corridor, rate, treasury), from
-- Telegram and from the decimal and JSON libraries. `bus` and `telegram` say what is configured.
use payment_engine_v.Base.{ℕ, ℤ, Bool, String, Option, List}
use payment_engine_v.Session.Services.{Lock, Reply}
use payment_engine_v.Settlement.Tables.{Settlement, PayoutRequest}

pub data Outcome : Type 0 where
  accepted rejected_retryable rejected_terminal uncertain : Outcome

pub record PayoutResult : Type 0 where
  pub outcome : Outcome
  pub provider_reference : String
  pub failure_reason : String

pub data WebhookKind : Type 0 where
  ignored payout_succeeded payout_failed payout_returned payout_reversed payout_declined :
      WebhookKind

pub record WebhookEvent : Type 0 where
  pub kind : WebhookKind
  pub provider_reference : String
  pub reason : String

-- A registered provider, and whether it is enabled.
pub record Provider : Type 0 where
  pub name : String
  pub is_enabled : Bool

-- The press of a button in the operators' chat: the text of the button, the chat that the message
-- stands in, and who pressed it, as the audit's JSON text.
pub record Press : Type 0 where
  pub button : String
  pub chat : Option String
  pub by : String

pub record Services : Type 0 where
  pub bus : Bool
  pub telegram : Bool
  pub providers : List Provider
  -- the names of a corridor's settlement providers, by priority
  pub list_active_providers : ℕ → Reply (List String)
  pub get_confirmed_deposit_total : ℕ → Reply ℤ
  pub get_lock : ℕ → Reply Lock
  -- by the provider's name
  pub dispatch : String → PayoutRequest → Reply PayoutResult
  -- by the provider's name and the callback: verified and parsed
  pub parse_webhook : String → String → Reply WebhookEvent
  -- the account number of a payout destination, if it parses and has one
  pub bank_account : Option String → Option String
  -- by the settlement, the account and the reason
  pub send_message : Settlement → String → String → Reply Unit
  pub telegram_secret : String
  pub telegram_chat : String
  -- the press that a callback of Telegram holds, if it holds one
  pub parse_update : String → Reply (Option Press)
  -- the settlement that a button names, if it is one to settle
  pub settle_target : String → Option ℕ
  -- decimal.Mul, and a UUID or a number as text
  pub mul : ℤ → ℤ → ℤ
  pub id_text : ℕ → String
  pub number_text : ℕ → String
