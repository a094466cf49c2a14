-- ===== src/Idempotency/Tests.antt =====
-- Examples for internal/platform/idempotency: two tenants that send the same key.
use payment_engine_v.Base.{
  none, str_eq, if◌then◌else◌, Option, some, String, ◌≤◌, List, [], ◌∷◌, ◌≡◌, refl,
}
use payment_engine_v.Db.{err, Answer, lost, ok, ◌>>=◌}
use payment_engine_v.Idempotency.Keys.{
  complete_failed, in_flight, completed, insert_key, check_existing, reserve, complete, new_row,
}
use payment_engine_v.Idempotency.Once.{
  Op, reserve_op, complete_op, claims, perform, wins, claims-le, reserve-complete,
}

-- Postgres writes a space after a colon.
abbrev spaced : String → Option String
spaced text = if str_eq text "{\"id\":7}" then some "{\"id\": 7}" else none

abbrev requests : List (Op × List Answer)
requests =
    (reserve_op 1 "order_7", [])
    ∷ (reserve_op 1 "order_7", [])
    ∷ (reserve_op 2 "order_7", [])
    ∷ (complete_op 1 "order_7" 201 (some "{\"id\":7}"), [])
    ∷ (reserve_op 1 "order_7", [])
    ∷ []

claims-le_example : claims spaced 1 "order_7" requests [] ≤ 1
claims-le_example = claims-le spaced 1 "order_7" requests []

-- The first call claims the key, and the other tenant's call claims its own.
claimed_once :
    (claims spaced 1 "order_7" requests [] ≡ 1) × (claims spaced 2 "order_7" requests [] ≡ 1)
unfolding claims wins perform reserve insert_key check_existing complete ◌>>=◌
claimed_once = (refl, refl)

-- A claim whose answer was lost leaves the key in flight.
claim_lost : (reserve 1 "order_7" (reserve 1 "order_7" [] (lost ∷ [])).1 []).0 ≡ ok in_flight
unfolding reserve insert_key check_existing ◌>>=◌
claim_lost = refl

reserve-complete_example :
    let s' =
      (complete spaced 1 "order_7" 201 (some "{\"id\":7}") (new_row 1 "order_7" ∷ []) []).1 in
    reserve 1 "order_7" s' []
    ≡ (ok (completed (record { code = 201; body = some "{\"id\": 7}" })), s', [])
reserve-complete_example =
    reserve-complete spaced 1 "order_7" 201 "{\"id\":7}" "{\"id\": 7}" (new_row 1 "order_7" ∷ [])
      refl refl

-- A body that is no JSON is not stored.
body_refused :
    complete spaced 1 "order_7" 201 (some "id=7") (new_row 1 "order_7" ∷ []) []
    ≡ (err complete_failed, new_row 1 "order_7" ∷ [], [])
unfolding complete ◌>>=◌
body_refused = refl
