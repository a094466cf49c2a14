-- ===== src/Bus/Dispatch.antt =====
-- The outbox and its dispatcher (internal/platform/eventbus/eventbus.go and cleanup.go). `App` is
-- whatever the handlers' tables hold besides the outbox.
use payment_engine_v.Base.{
  ℕ, zero, suc, ◌+◌, String, Bool, true, false, not, Option, none, some, List, [], ◌∷◌, ◌==◌, ltb,
  update_returning, if◌then◌else◌, ◌&&◌,
}
use payment_engine_v.Db.{
  Answer, Result, ok, err, Exit, commit, rollback, Action, pure, query, transaction, ◌>>=◌, ◌>>◌,
}

-- A row of outbox_events.
pub record Event : Type 0 where
  pub id : ℕ
  pub event_type : String
  pub aggregate_type : String
  pub aggregate_id : ℕ
  pub payload : String
  pub created_at : ℕ
  pub dispatched_at : Option ℕ
  pub attempts : ℕ

pub record Tables (App : Type 0) : Type 0 where
  pub outbox : List Event
  pub app : App

-- `handler_failed` stands for any error of a handler.
pub data BusError : Type 0 where
  publish_failed begin_failed claim_failed handler_failed mark_failed commit_failed delete_failed :
      BusError

abbrev pub is_pending : Event → Bool
is_pending e = elim e.dispatched_at [ none ↦ true | some _ ↦ false ]

-- FOR UPDATE SKIP LOCKED: `locked` are the rows that other dispatchers hold.
abbrev pub is_claimable : (ℕ → Bool) → Event → Bool
is_claimable locked e = is_pending e && not (locked e.id)

abbrev pub earlier : Event → Option Event → Event
earlier e none = e
earlier e (some f) = if ltb f.created_at e.created_at then f else e

-- ORDER BY created_at LIMIT 1
unfoldable pub oldest : (ℕ → Bool) → List Event → Option Event
oldest locked [] = none
oldest locked (e ∷ rows) =
    let rest = oldest locked rows in if is_claimable locked e then some (earlier e rest) else rest

abbrev pub set_dispatched : ℕ → Event → Event
set_dispatched now e = record e { dispatched_at = some now; attempts = e.attempts + 1 }

-- dispatched_at IS NOT NULL AND dispatched_at < $1
abbrev pub is_old : ℕ → Event → Bool
is_old cutoff e = elim e.dispatched_at [ none ↦ false | some t ↦ ltb t cutoff ]

unfoldable pub delete_rows : ℕ → List Event → List Event
delete_rows cutoff [] = []
delete_rows cutoff (e ∷ rows) =
    let rest = delete_rows cutoff rows in if is_old cutoff e then rest else e ∷ rest

abbrev pub Handler : Type 0 → Type 0
Handler App = Event → Action BusError (Tables App) Unit

module _ {App : Type 0} where
  -- `Publish`; the database draws the id.
  unfoldable pub publish :
      ℕ → String → String → ℕ → Option String → ℕ → Action BusError (Tables App) Unit
  publish id event_type aggregate_type aggregate_id payload now = query publish_failed (λ s. (
    ok tt,
    record s {
      outbox =
          record {
            id = id;
            event_type = event_type;
            aggregate_type = aggregate_type;
            aggregate_id = aggregate_id;
            payload = elim payload [ none ↦ "{}" | some p ↦ p ];
            created_at = now;
            dispatched_at = none;
            attempts = 0;
          }
          ∷ s.outbox;
    },
  ))

  -- `for _, h := range handlers`
  unfoldable pub run_handlers : List (Handler App) → Event → Action BusError (Tables App) Unit
  run_handlers [] e = pure tt
  run_handlers (h ∷ hs) e = do h e; run_handlers hs e

  abbrev pub marked : ℕ → ℕ → Tables App → Tables App
  marked id now s = record s {
    outbox = (update_returning (λ e. e.id == id) (set_dispatched now) s.outbox).1;
  }

  unfoldable pub deliver :
      (String → List (Handler App)) → ℕ → Option Event → Action BusError (Tables App) (Exit Bool)
  deliver handlers now none = pure (rollback false)
  deliver handlers now (some e) = do
    run_handlers (handlers e.event_type) e
    query mark_failed (λ s. (ok tt, marked e.id now s))
    pure (commit true)

  unfoldable pub dispatch_body :
      (String → List (Handler App)) → (ℕ → Bool) → ℕ → Action BusError (Tables App) (Exit Bool)
  dispatch_body handlers locked now = do
    found ← query claim_failed (λ s. (ok (oldest locked s.outbox), s))
    deliver handlers now found

  -- `dispatchOne`
  unfoldable pub dispatch_one :
      (String → List (Handler App)) → (ℕ → Bool) → ℕ → Action BusError (Tables App) Bool
  dispatch_one handlers locked now =
      transaction begin_failed commit_failed (dispatch_body handlers locked now)

  -- An error is logged, and ends the batch as an empty outbox does.
  abbrev pub next_round :
      Result BusError Bool × Tables App × List Answer
      → (Tables App → List Answer → Tables App × List Answer)
      → Tables App × List Answer
  next_round (ok true, s, rest) go = go s rest
  next_round (ok false, s, rest) go = (s, rest)
  next_round (err _, s, rest) go = (s, rest)

  -- `dispatchBatch`, with the batch's size.
  unfoldable pub dispatch_batch :
      (String → List (Handler App))
      → (ℕ → Bool)
      → ℕ
      → ℕ
      → Tables App
      → List Answer
      → Tables App × List Answer
  dispatch_batch handlers locked now zero s answers = (s, answers)
  dispatch_batch handlers locked now (suc n) s answers =
      next_round (dispatch_one handlers locked now s answers) (dispatch_batch handlers locked now n)

  -- `deleteDispatchedBefore`
  unfoldable pub delete_dispatched_before : ℕ → Action BusError (Tables App) Unit
  delete_dispatched_before cutoff =
      query delete_failed (λ s. (ok tt, record s { outbox = delete_rows cutoff s.outbox }))
