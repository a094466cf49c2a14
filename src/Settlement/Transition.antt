-- ===== src/Settlement/Transition.antt =====
-- `transitionSettlementAndPublish` (internal/settlement/webhook.go): a compare-and-set of the status,
-- more writes and an event, in one transaction.
use payment_engine_v.Base.{
  ℕ, String, Bool, true, false, Option, none, some, List, [], ◌∷◌, ◌==◌, ◌&&◌, update_returning,
}
use payment_engine_v.Db.{
  Result, ok, Exit, commit, rollback, Action, pure, query, transaction, ◌>>=◌, ◌>>◌,
}
use payment_engine_v.Settlement.Tables.{Status, Settlement, Published, Tables, equal_status}
use payment_engine_v.Settlement.Services.{Services}
use payment_engine_v.Settlement.Calls.{
  SettlementError, begin_failed, commit_failed, database_failed,
}

abbrev pub any_row : {A : Type 0} → List A → Bool
any_row [] = false
any_row (x ∷ xs) = true

-- WHERE id = $1 AND status = $2
abbrev pub is_in : ℕ → Status → Settlement → Bool
is_in id from x = x.id == id && equal_status x.status from

-- An UPDATE of settlements, and whether a row met it.
unfoldable pub update_settlement :
    (Settlement → Bool) → (Settlement → Settlement) → Tables → Result SettlementError Bool × Tables
update_settlement where' set s =
    let (rows, table) = update_returning where' set s.settlements in
    (ok (any_row rows), record s { settlements = table })

unfoldable pub publish : Bool → Published → Action SettlementError Tables Unit
publish false e = pure tt
publish true e = query database_failed (λ s. (ok tt, record s { outbox = e ∷ s.outbox }))

unfoldable pub finish_transition :
    Services
    → Settlement
    → String
    → Action SettlementError Tables Unit
    → Bool
    → Action SettlementError Tables (Exit Bool)
finish_transition svc st event_type extra false = pure (rollback false)
finish_transition svc st event_type extra true = do
  extra
  publish svc.bus (record {
    event_type = event_type;
    settlement_id = st.id;
    session_id = st.session_id;
    tenant_id = st.tenant_id;
  })
  pure (commit true)

unfoldable pub transition_body :
    Services
    → ℕ
    → Settlement
    → Status
    → Status
    → String
    → Action SettlementError Tables Unit
    → Action SettlementError Tables (Exit Bool)
transition_body svc now st from to event_type extra = do
  moved ←
      query database_failed
        (update_settlement (is_in st.id from) (λ x. record x { status = to; updated_at = now }))
  finish_transition svc st event_type extra moved

-- `transitionSettlementAndPublish`; `extra` is `pure tt` where the source passes nil.
unfoldable pub transition_and_publish :
    Services
    → ℕ
    → Settlement
    → Status
    → Status
    → String
    → Action SettlementError Tables Unit
    → Action SettlementError Tables Bool
transition_and_publish svc now st from to event_type extra =
    transaction begin_failed commit_failed (transition_body svc now st from to event_type extra)

-- Writes by the settlement's id.
abbrev has_id : ℕ → Settlement → Bool
has_id id x = x.id == id

unfoldable pub set_paged : ℕ → ℕ → Action SettlementError Tables Unit
set_paged id now = do
  query database_failed (update_settlement (has_id id) (λ x. record x { ops_paged_at = some now }))
  pure tt

unfoldable pub set_deadline : ℕ → ℕ → Action SettlementError Tables Unit
set_deadline id deadline = do
  query database_failed
      (update_settlement (has_id id) (λ x. record x { confirmation_deadline_at = some deadline }))
  pure tt

unfoldable pub set_deadline_and_page : ℕ → ℕ → ℕ → Action SettlementError Tables Unit
set_deadline_and_page id deadline now = do
  query database_failed (
      update_settlement (has_id id)
        (λ x. record x { confirmation_deadline_at = some deadline; ops_paged_at = some now }))
  pure tt

unfoldable pub set_attempt_count : ℕ → ℕ → ℕ → Action SettlementError Tables Unit
set_attempt_count id n now = do
  query database_failed
      (update_settlement (has_id id) (λ x. record x { attempt_count = n; updated_at = now }))
  pure tt

unfoldable pub clear_destination : ℕ → Option String → Action SettlementError Tables Unit
clear_destination id none = pure tt
clear_destination id (some d) = do
  query database_failed
      (update_settlement (has_id id) (λ x. record x { pending_destination = none }))
  pure tt
