-- ===== src/Settlement/Aside.antt =====
-- The methods before a payout's call ask no provider (internal/settlement/dispatch.go, manual.go).
use payment_engine_v.Base.{ℕ, String, Option, none, some, List, ◌≡◌, ◌∙◌, refl, arith}
use payment_engine_v.Db.{Answer, Result, ok, err, Action}
use payment_engine_v.Db.Keeps.{Preorder, Keeps, Keeps-pure, Keeps-query, Keeps-bind, keeps_rules}
use payment_engine_v.Session
use payment_engine_v.Session.Cas.{SessionError}
use payment_engine_v.Settlement.Tables.{Settlement, Attempt, Tables}
use payment_engine_v.Settlement.Calls.{session_call, session_return, draw_id}
use payment_engine_v.Settlement.Transition.{update_settlement, set_attempt_count}
use payment_engine_v.Settlement.Attempts.{
  insert_row, insert_attempt, destination_from, destination_of, resolve_destination,
}
use payment_engine_v.Settlement.Dispatch.{prepare_attempt}

-- Methods that ask no provider.
abbrev pub unasked : Preorder Tables
unasked = record {
  rel = λ s t. t.requests ≡ s.requests;
  reflexive = λ s. refl;
  transitive = λ s t u p q. q ∙ p;
}

pub insert_attempt-unasked : (a : Attempt) → Keeps unasked (insert_attempt a)
unfolding insert_attempt insert_row
insert_attempt-unasked a = Keeps-query _ _ (λ s. ground arith)

pub set_attempt_count-unasked : (id n now : ℕ) → Keeps unasked (set_attempt_count id n now)
unfolding set_attempt_count update_settlement
set_attempt_count-unasked id n now =
    Keeps-bind _ _ (Keeps-query _ _ (λ s. refl)) (λ _. Keeps-pure tt)

pub draw_id-unasked : Keeps unasked draw_id
unfolding draw_id
draw_id-unasked = record { at = λ s answers. refl }

-- Methods that touch neither the requests nor the settlements.
abbrev pub aside : Preorder Tables
aside = record {
  rel = λ s t. (t.requests ≡ s.requests) × (t.settlements ≡ s.settlements);
  reflexive = λ s. (refl, refl);
  transitive = λ s t u p q. (q.0 ∙ p.0, q.1 ∙ p.1);
}

pub session_return-aside :
    {A : Type 0} (s : Tables) (q : Result SessionError A × Session.Tables.Tables × List Answer)
    → aside.rel s (session_return s q).1
session_return-aside s (ok a, t, rest) = (refl, refl)
session_return-aside s (err e, t, rest) = (refl, refl)

pub session_call-aside :
    {A : Type 0} (m : Action SessionError Session.Tables.Tables A) → Keeps aside (session_call m)
unfolding session_call
session_call-aside m = record { at = λ s answers. session_return-aside s (m s.sessions answers) }

pub destination_from-aside :
    (st : Settlement) (a : Option Attempt) → Keeps aside (destination_from st a)
unfolding destination_from
destination_from-aside st (some a) = Keeps-pure _
destination_from-aside st none = Keeps-bind _ _ (session_call-aside _) (λ sess. Keeps-pure _)

pub destination_of-aside : (st : Settlement) (d : Option String) → Keeps aside (destination_of st d)
unfolding destination_of
destination_of-aside st (some d) = Keeps-pure _
destination_of-aside st none =
    Keeps-bind _ _ (Keeps-query _ _ (λ s. (refl, refl))) (destination_from-aside st)

pub resolve_destination-aside : (st : Settlement) → Keeps aside (resolve_destination st)
unfolding resolve_destination
resolve_destination-aside st = destination_of-aside st _

pub resolve_destination-unasked : (st : Settlement) → Keeps unasked (resolve_destination st)
resolve_destination-unasked st = record {
  at = λ s answers. ((resolve_destination-aside st).at s answers).0;
}

pub prepare_attempt-unasked :
    (now : ℕ) (st : Settlement) (name key : String)
    → Keeps unasked (prepare_attempt now st name key)
unfolding prepare_attempt
prepare_attempt-unasked now st name key =
    search
      (
        keeps_rules, resolve_destination-unasked, draw_id-unasked, insert_attempt-unasked,
        set_attempt_count-unasked,
      )
      depth 8
