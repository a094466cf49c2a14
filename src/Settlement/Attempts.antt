-- ===== src/Settlement/Attempts.antt =====
-- The rows of settlement_attempts (internal/settlement/dispatch.go, webhook.go, manual.go).
use payment_engine_v.Base.{
  ℕ, ltb, String, str_append, str_eq, Bool, true, false, not, ◌&&◌, ◌||◌, Option, none, some, List,
  [], ◌∷◌, ◌==◌, update_returning, if◌then◌else◌,
}
use payment_engine_v.Db.{Result, ok, err, Action, pure, query, ◌>>=◌, ◌>>◌}
use payment_engine_v.Ledger.Tables.{Transaction}
use payment_engine_v.Session.Create.{get_session}
use payment_engine_v.Settlement.Tables.{
  Settlement, Attempt, AttemptStatus, dispatched, succeeded, Tables,
}
use payment_engine_v.Settlement.Services.{Services}
use payment_engine_v.Settlement.Calls.{
  SettlementError, database_failed, unknown_attempt, session_call, Accounts, two_entries, found_row,
}

abbrev pub is_dispatched : AttemptStatus → Bool
is_dispatched dispatched = true
is_dispatched _ = false

-- WHERE id = $1 AND status = 'dispatched'
abbrev pub is_in_flight : ℕ → Attempt → Bool
is_in_flight id a = a.id == id && is_dispatched a.status

-- An UPDATE of attempts, and the rows that met it.
unfoldable pub update_attempts :
    (Attempt → Bool) → (Attempt → Attempt) → Tables → Result SettlementError (List Attempt) × Tables
update_attempts where' set s =
    let (rows, table) = update_returning where' set s.attempts in
    (ok rows, record s { attempts = table })

abbrev set_outcome : AttemptStatus → String → ℕ → Attempt → Attempt
set_outcome bucket reason now a = record a {
  status = bucket;
  failure_reason = some reason;
  resolved_at = some now;
}

unfoldable pub mark_attempt :
    ℕ → AttemptStatus → String → ℕ → Action SettlementError Tables (List Attempt)
mark_attempt id bucket reason now =
    query database_failed (update_attempts (is_in_flight id) (set_outcome bucket reason now))

unfoldable pub mark_succeeded : ℕ → ℕ → Action SettlementError Tables (List Attempt)
mark_succeeded id now = query database_failed (
    update_attempts (is_in_flight id)
      (λ a. record a { status = succeeded; resolved_at = some now }))

unfoldable pub set_reference : ℕ → String → Action SettlementError Tables Unit
set_reference id reference = do
  query database_failed
      (update_attempts (λ a. a.id == id) (λ a. record a { provider_reference = some reference }))
  pure tt

unfoldable pub set_reference_and_reason : ℕ → String → String → Action SettlementError Tables Unit
set_reference_and_reason id reference reason = do
  query database_failed (
      update_attempts (λ a. a.id == id)
        (λ a. record a { provider_reference = some reference; failure_reason = some reason }))
  pure tt

abbrev clashes : Attempt → Attempt → Bool
clashes a b =
    str_eq b.idempotency_key a.idempotency_key
    || (b.settlement_id == a.settlement_id && b.attempt_number == a.attempt_number)

abbrev pub has_clash : Attempt → List Attempt → Bool
has_clash a [] = false
has_clash a (b ∷ rows) = clashes a b || has_clash a rows

-- INSERT; the idempotency key is unique, and so is the number within a settlement.
unfoldable pub insert_row : Attempt → Tables → Result SettlementError Unit × Tables
insert_row a s =
    if has_clash a s.attempts
    then (err database_failed, s)
    else (ok tt, record s { attempts = a ∷ s.attempts })

unfoldable pub insert_attempt : Attempt → Action SettlementError Tables Unit
insert_attempt a = query database_failed (insert_row a)

abbrev names_of : ℕ → List Attempt → List String
names_of settlement_id [] = []
names_of settlement_id (a ∷ rows) =
    let rest = names_of settlement_id rows in
    if a.settlement_id == settlement_id then a.provider_name ∷ rest else rest

-- `triedProviderNames`
unfoldable pub tried_provider_names : ℕ → Action SettlementError Tables (List String)
tried_provider_names settlement_id =
    query database_failed (λ s. (ok (names_of settlement_id s.attempts), s))

-- ORDER BY dispatched_at DESC LIMIT 1
abbrev later : Attempt → Option Attempt → Attempt
later a none = a
later a (some b) = if ltb a.dispatched_at b.dispatched_at then b else a

abbrev has_reference : String → Option String → Bool
has_reference reference none = false
has_reference reference (some r) = str_eq r reference

unfoldable pub latest_attempt : String → String → List Attempt → Option Attempt
latest_attempt provider reference [] = none
latest_attempt provider reference (a ∷ rows) =
    let rest = latest_attempt provider reference rows in
    if str_eq a.provider_name provider && has_reference reference a.provider_reference
    then some (later a rest)
    else rest

-- `findAttemptByProviderReference`
unfoldable pub find_attempt : String → String → Action SettlementError Tables Attempt
find_attempt provider reference =
    query database_failed
      (λ s. (found_row unknown_attempt (latest_attempt provider reference s.attempts), s))

-- ORDER BY attempt_number DESC LIMIT 1
abbrev higher : Attempt → Option Attempt → Attempt
higher a none = a
higher a (some b) = if ltb a.attempt_number b.attempt_number then b else a

unfoldable pub last_with_payload : ℕ → List Attempt → Option Attempt
last_with_payload settlement_id [] = none
last_with_payload settlement_id (a ∷ rows) =
    let rest = last_with_payload settlement_id rows in
    if a.settlement_id == settlement_id && not (str_eq a.provider_payload "{}")
    then some (higher a rest)
    else rest

unfoldable pub destination_from :
    Settlement → Option Attempt → Action SettlementError Tables (Option String)
destination_from st (some a) = pure (some a.provider_payload)
destination_from st none = do
  sess ← session_call (get_session st.session_id)
  pure (some sess.payout_destination)

unfoldable pub destination_of :
    Settlement → Option String → Action SettlementError Tables (Option String)
destination_of st (some d) = pure (some d)
destination_of st none = do
  last ← query database_failed (λ s. (ok (last_with_payload st.id s.attempts), s))
  destination_from st last

-- A JSON document of no bytes is as good as none.
abbrev nonempty : Option String → Option String
nonempty none = none
nonempty (some d) = if str_eq d "" then none else some d

-- `resolveDestination`
unfoldable pub resolve_destination : Settlement → Action SettlementError Tables (Option String)
resolve_destination st = destination_of st (nonempty st.pending_destination)

abbrev pub key_of : String → Services → ℕ → String
key_of prefix svc session_id = str_append prefix (svc.id_text session_id)

abbrev attempt_key : String → Services → ℕ → ℕ → String
attempt_key prefix svc session_id n =
    str_append (key_of prefix svc session_id) (str_append ":attempt_" (svc.number_text n))

abbrev pub payout_key : Services → ℕ → ℕ → String
payout_key = attempt_key "settlement_payout:session_"

abbrev pub reversal_key : Services → ℕ → ℕ → String
reversal_key = attempt_key "settlement_reversal:session_"

-- The payout's posting, under `key`: the tenant is owed less, the operating account holds less.
abbrev pub payout_txn : Accounts → Settlement → String → String → Transaction
payout_txn accounts st key created_by = record {
  idempotency_key = key;
  txn_type = "settlement_payout";
  reference_type = "session";
  reference_id = st.session_id;
  created_by = created_by;
  entries =
      two_entries accounts.tenant_payable st.fiat_currency accounts.treasury_fiat_operating
        st.fiat_currency st.tenant_payable_amount;
}

-- Its compensation.
abbrev pub reversal_txn : Accounts → Settlement → String → String → ℕ → Transaction
reversal_txn accounts st key reference_type reference_id = record {
  idempotency_key = key;
  txn_type = "reversal";
  reference_type = reference_type;
  reference_id = reference_id;
  created_by = "settlement";
  entries =
      two_entries accounts.treasury_fiat_operating st.fiat_currency accounts.tenant_payable
        st.fiat_currency st.tenant_payable_amount;
}
