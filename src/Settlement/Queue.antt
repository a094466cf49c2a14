-- ===== src/Settlement/Queue.antt =====
-- The queue of payouts (internal/settlement/dispatch.go: `processSettlement`,
-- `claimNextPendingDispatch`, `dispatchBatch`; events.go) is sound.
use payment_engine_v.Base.{
  ℤ, ℕ, zero, suc, Option, none, some, List, refl, arith, inl, inr, Bool-cases,
}
use payment_engine_v.Db.{Answer, Result, ok, err, query}
use payment_engine_v.Db.Keeps.{Keeps, Keeps-pure, Keeps-fail, Keeps-query, Keeps-bind}
use payment_engine_v.Session.Tables.{Session}
use payment_engine_v.Session.Cas.{transition_to_settling}
use payment_engine_v.Session.Diagram.{one_step, settle as session_settles}
use payment_engine_v.Session.Moves.{cas_transition-evolves}
use payment_engine_v.Settlement.Tables.{Settlement, dispatching, settling, Tables}
use payment_engine_v.Settlement.Services.{Services}
use payment_engine_v.Settlement.Calls.{SettlementError, database_failed, session_call}
use payment_engine_v.Settlement.Transition.{is_in, update_settlement}
use payment_engine_v.Settlement.Process.{
  expect_deposit, valued, start_session, process_settlement, oldest_pending, claim_row,
  claim_next_pending_dispatch, process_or_stop, dispatch_batch, has_session, inserted,
  handle_deposit_confirmed,
}
use payment_engine_v.Settlement.Diagram
use payment_engine_v.Settlement.Diagram.{here, one_move}
use payment_engine_v.Settlement.Advance.{
  advanced_to, is_in_status, Advanced-update, Advanced-refl, added,
}
use payment_engine_v.Settlement.Sound.{Sound, sound, Sound-refl, Sound-trans, Sound-settlements}
use payment_engine_v.Settlement.Rules.{draw_id-Sound, parts, session_call-Sound}
use payment_engine_v.Settlement.Writes.{writes, move-Sound}
use payment_engine_v.Settlement.Asked.{dispatch_attempt-Sound}

expect_deposit-Sound : (p : Option (ℕ × ℕ)) → Keeps sound (expect_deposit p)
unfolding expect_deposit
expect_deposit-Sound none = Keeps-fail _
expect_deposit-Sound (some p) = Keeps-pure p

settling_session-Sound : (id now : ℕ) → Keeps sound (session_call (transition_to_settling id now))
unfolding transition_to_settling
settling_session-Sound id now =
    session_call-Sound _ (cas_transition-evolves id _ _ now (one_step session_settles))

start_session-Sound : (now : ℕ) (sess : Session) → Keeps sound (start_session now sess)
unfolding start_session
start_session-Sound now sess = search (parts, settling_session-Sound) depth 6

valued-Sound :
    (id now : ℕ) (sess : Session) (crypto fiat : ℤ)
    → Keeps sound (
        query database_failed
          (update_settlement (is_in id dispatching) (valued sess crypto fiat now)))
valued-Sound id now sess crypto fiat =
    move-Sound database_failed id dispatching settling _
      (λ x. advanced_to (ground arith) refl refl here) (one_move Diagram.value)

process_settlement-Sound :
    (svc : Services) (now fuel : ℕ) (st : Settlement)
    → Keeps sound (process_settlement svc now fuel st)
unfolding process_settlement
process_settlement-Sound svc now fuel st =
    search (writes, expect_deposit-Sound, valued-Sound, start_session-Sound, dispatch_attempt-Sound)
      depth 16

claim_row-Sound : (now : ℕ) (x : Option Settlement) (s : Tables) → Sound s (claim_row now x s).1
claim_row-Sound now none s = Sound-refl s
claim_row-Sound now (some x) s = Sound-settlements refl refl refl (
    Advanced-update _ _
      (λ y met. advanced_to (ground arith) (is_in_status x.id _ y met) refl (one_move Diagram.take))
      s.settlements)

claim_next-Sound : (now : ℕ) → Keeps sound (claim_next_pending_dispatch now)
unfolding claim_next_pending_dispatch
claim_next-Sound now = Keeps-query _ _ (λ s. claim_row-Sound now (oldest_pending s.settlements) s)

process_or_stop-Sound :
    (svc : Services) (now fuel : ℕ) (s : Tables)
    (q : Result SettlementError (Option Settlement) × Tables × List Answer)
    (go : Tables → List Answer → Tables × List Answer)
    → ((t : Tables) (rest : List Answer) → Sound t (go t rest).0)
    → Sound s q.1
    → Sound s (process_or_stop svc now fuel q go).0
process_or_stop-Sound svc now fuel s (ok (some st), t, rest) go h p =
    let (_, u, rest') = process_settlement svc now fuel st t rest in
    Sound-trans s t _ p (
      Sound-trans t _ _ ((process_settlement-Sound svc now fuel st).at t rest) (
        h (process_settlement svc now fuel st t rest).1
          (process_settlement svc now fuel st t rest).2))
process_or_stop-Sound svc now fuel s (ok none, t, rest) go h p = p
process_or_stop-Sound svc now fuel s (err _, t, rest) go h p = p

pub dispatch_batch-Sound :
    (svc : Services) (now fuel rounds : ℕ) (s : Tables) (answers : List Answer)
    → Sound s (dispatch_batch svc now fuel rounds s answers).0
unfolding dispatch_batch
dispatch_batch-Sound svc now fuel zero s answers = Sound-refl s
dispatch_batch-Sound svc now fuel (suc rounds) s answers =
    process_or_stop-Sound svc now fuel s (claim_next_pending_dispatch now s answers) _
      (dispatch_batch-Sound svc now fuel rounds) ((claim_next-Sound now).at s answers)

inserted-Sound :
    (id now : ℕ) (sess : Option Session) (s : Tables) → Sound s (inserted id now sess s)
inserted-Sound id now none s = Sound-refl s
inserted-Sound id now (some sess) s = elim (Bool-cases (has_session sess.id s.settlements)) [
  | inl stored ↦ rw stored (Sound-refl s)
  | inr missing ↦
      rw missing (Sound-settlements refl refl refl (added here (Advanced-refl s.settlements)))
]

pub handle_deposit_confirmed-Sound :
    (session_id now : ℕ) → Keeps sound (handle_deposit_confirmed session_id now)
unfolding handle_deposit_confirmed
handle_deposit_confirmed-Sound session_id now =
    Keeps-bind _ _ draw_id-Sound (λ id. Keeps-query _ _ (λ s. inserted-Sound id now _ s))
