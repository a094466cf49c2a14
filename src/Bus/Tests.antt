-- ===== src/Bus/Tests.antt =====
-- Examples for internal/platform/eventbus: an application that counts the events it has handled.
use payment_engine_v.Base.{ℕ, suc, String, Bool, false, none, some, List, [], ◌∷◌, ◌≡◌, refl}
use payment_engine_v.Db.{done, lost, ok}
use payment_engine_v.Db.Ends.{Ends}
use payment_engine_v.Bus.Dispatch.{
  Event, Tables, Handler, oldest, dispatch_one, delete_dispatched_before,
}
use payment_engine_v.Bus.Delivery.{
  Delivered, dispatch_one-Ends, pending_events, pending_events-delete_dispatched_before,
}

abbrev event : ℕ → ℕ → Event
event id created_at = record {
  id = id;
  event_type = "session.created";
  aggregate_type = "session";
  aggregate_id = 1;
  payload = "{}";
  created_at = created_at;
  dispatched_at = none;
  attempts = 0;
}

abbrev count_event : Handler ℕ
count_event e s answers = (ok tt, record s { app = suc s.app }, answers)

abbrev counting : String → List (Handler ℕ)
counting event_type = count_event ∷ []

abbrev alone : ℕ → Bool
alone id = false

abbrev three_due : Tables ℕ
three_due = record { outbox = event 3 30 ∷ event 1 10 ∷ event 2 20 ∷ []; app = 0 }

-- The event with the earliest time goes first.
first_id : oldest alone three_due.outbox ≡ some (event 1 10)
unfolding oldest
first_id = refl

dispatch_one-Ends_example :
    Ends
      (Delivered counting alone 99 three_due)
      three_due
      (dispatch_one counting alone 99 three_due (done ∷ done ∷ done ∷ lost ∷ []))
dispatch_one-Ends_example =
    dispatch_one-Ends counting alone 99 three_due (done ∷ done ∷ done ∷ lost ∷ [])

pending_events-delete_dispatched_before_example :
    pending_events (delete_dispatched_before 50 three_due []).1.outbox
    ≡ pending_events three_due.outbox
pending_events-delete_dispatched_before_example =
    pending_events-delete_dispatched_before 50 three_due []
