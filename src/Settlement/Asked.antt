-- ===== src/Settlement/Asked.antt =====
-- A provider is asked for a payout only under a key that the ledger has just taken
-- (internal/settlement/dispatch.go): `dispatchAttempt` and its retries are sound.
use payment_engine_v.Base.{
  ◌∷◌, ℕ, zero, suc, String, true, false, Option, none, some, List, ◌≡◌, refl, inl, inr, Bool-cases,
}
use payment_engine_v.Db.{fail, pure, Answer, Result, ok, err, Action, continue, ◌>>=◌}
use payment_engine_v.Db.Keeps.{Keeps, Keeps-fail, Keeps-bind, continue_rel}
use payment_engine_v.Ledger.Tables.{Transaction}
use payment_engine_v.Ledger.Post.{LedgerError, already_posted, post}
use payment_engine_v.Ledger
use payment_engine_v.Ledger.Atomic.{PostEnd, post_end}
use payment_engine_v.Ledger.Claims.{takes_key}
use payment_engine_v.Settlement.Tables.{Settlement, Attempt, PayoutRequest, Tables}
use payment_engine_v.Settlement.Services.{Services}
use payment_engine_v.Settlement.Calls.{
  ledger_return, SettlementError, ledger_call, draw_id, claim, call_provider,
}
use payment_engine_v.Settlement.Dispatch.{
  select_provider, prepare_attempt, request_of, after_call, send_payout, after_claim, with_provider,
  attempt_with, dispatch_attempt,
}
use payment_engine_v.Settlement.Sound.{
  Sound, sound, Sound-trans, IsPaidOnce, IsPaidOnce-ask, is_requested, is_key_taken,
}
use payment_engine_v.Settlement.Rules.{resolve_accounts-Sound, claim-Sound}
use payment_engine_v.Settlement.Writes.{writes}
use payment_engine_v.Settlement.Payouts.{fail_settlement-Sound, after_call-Sound}
use payment_engine_v.Settlement.Aside.{prepare_attempt-unasked}

prepare_attempt-Sound :
    (now : ℕ) (st : Settlement) (name key : String) → Keeps sound (prepare_attempt now st name key)
unfolding prepare_attempt
prepare_attempt-Sound now st name key = search writes depth 8

-- The key of a payout between its claim and its call, in a run that began at `s`.
record IsFresh (s : Tables) (key : String) (t : Tables) : Type 0 where
  pub reached : Sound s t
  pub taken : is_key_taken t key ≡ true
  pub unused : IsPaidOnce s → is_requested key t.requests ≡ false

IsFresh-later :
    {s t u : Tables} {key : String}
    → IsFresh s key t
    → Sound t u
    → u.requests ≡ t.requests
    → IsFresh s key u
IsFresh-later {s} {t} {u} {key} f p e = record {
  reached = Sound-trans s t u f.reached p;
  taken = p.keys key f.taken;
  unused = λ h. rw e (f.unused h);
}

-- The call itself.
ask-Sound :
    (s t : Tables) (r : PayoutRequest)
    → IsFresh s r.attempt_idempotency_key t
    → Sound s (record t { requests = r ∷ t.requests })
ask-Sound s t r f = record {
  keys = f.reached.keys;
  sessions = f.reached.sessions;
  settlements = f.reached.settlements;
  once = λ h. IsPaidOnce-ask t r f.taken (f.unused h) (f.reached.once h);
}

-- What follows a claim, in a run that began at `s`.
module _ (svc : Services) (now : ℕ) (redispatch : Settlement → Action SettlementError Tables Unit)
    (next : (st : Settlement) → Keeps sound (redispatch st)) where
  call_provider-Sound :
      (s : Tables) (st : Settlement) (name key : String)
      (q : Result SettlementError (Option String × Attempt) × Tables × List Answer)
      → IsFresh s key q.1
      → Sound s
          (continue q (λ (destination, attempt).
            call_provider svc name (request_of st key destination)
            >>= after_call svc now redispatch st attempt)).1
  unfolding call_provider ◌>>=◌
  call_provider-Sound s st name key (ok (destination, attempt), t, rest) f =
      continue_rel sound s (call_provider svc name (request_of st key destination) t rest)
        (after_call svc now redispatch st attempt) (ask-Sound s t (request_of st key destination) f)
        (after_call-Sound svc now redispatch next st attempt)
  call_provider-Sound s st name key (err e, t, rest) f = f.reached

  send_payout-Sound :
      (s t : Tables) (st : Settlement) (name key : String) (answers : List Answer)
      → IsFresh s key t
      → Sound s (send_payout svc now redispatch st name key t answers).1
  unfolding send_payout ◌>>=◌
  send_payout-Sound s t st name key answers f =
      call_provider-Sound s st name key (prepare_attempt now st name key t answers) (
        IsFresh-later f ((prepare_attempt-Sound now st name key).at t answers)
          ((prepare_attempt-unasked now st name key).at t answers))

-- The end of a claim that went through.
abbrev Claimed :
    String → Tables → Result SettlementError (Result LedgerError ℕ) × Tables × List Answer → Type 0
Claimed key s (ok (ok _), t, _) =
    (is_key_taken s key ≡ false) × (is_key_taken t key ≡ true) × (t.requests ≡ s.requests)
Claimed key s _ = Unit

ledger_return-Claimed :
    (id : ℕ) (txn : Transaction) (s : Tables)
    (q : Result LedgerError ℕ × Ledger.Tables.Tables × List Answer)
    → PostEnd id txn s.ledger q
    → Claimed txn.idempotency_key s (ledger_return s q)
ledger_return-Claimed id txn s (ok i, l, rest) e =
    let (free, taken) = takes_key id txn s.ledger (ok i, l, rest) e refl in (free, taken, refl)
ledger_return-Claimed id txn s (err x, l, rest) e = tt

claim-Claimed :
    (txn : Transaction) (s : Tables) (answers : List Answer)
    → Claimed txn.idempotency_key s (claim txn s answers)
unfolding claim ◌>>=◌ draw_id ledger_call
claim-Claimed txn s answers =
    ledger_return-Claimed s.next_id txn _ (post s.next_id txn s.ledger answers)
      (post_end s.next_id txn s.ledger answers)

unused_before :
    (s : Tables) (key : String)
    → is_key_taken s key ≡ false
    → IsPaidOnce s
    → is_requested key s.requests ≡ false
unused_before s key free h = elim (Bool-cases (is_requested key s.requests)) [
  | inl used ↦ cc (h.posted key used)
  | inr unused ↦ unused
]

module _ (svc : Services) (now : ℕ) (redispatch : Settlement → Action SettlementError Tables Unit)
    (next : (st : Settlement) → Keeps sound (redispatch st)) where
  -- The rest of an attempt, by the answer to its claim.
  after_claim-Sound :
      (s : Tables) (st : Settlement) (name key : String)
      (q : Result SettlementError (Result LedgerError ℕ) × Tables × List Answer)
      → Sound s q.1
      → Claimed key s q
      → Sound s (continue q (after_claim svc now redispatch st name key)).1
  unfolding after_claim pure fail
  after_claim-Sound s st name key (ok (ok i), t, rest) p (free, taken, same) =
      send_payout-Sound svc now redispatch next s t st name key rest
        (record { reached = p; taken = taken; unused = λ h. rw same (unused_before s key free h) })
  after_claim-Sound s st name key (ok (err already_posted), t, rest) p c = p
  after_claim-Sound s st name key (ok (err _), t, rest) p c = p
  after_claim-Sound s st name key (err e, t, rest) p c = p

  claimed-Sound :
      (st : Settlement) (name : String) (txn : Transaction)
      → Keeps sound (claim txn >>= after_claim svc now redispatch st name txn.idempotency_key)
  unfolding ◌>>=◌
  claimed-Sound st name txn = record {
    at = λ s answers.
        after_claim-Sound s st name txn.idempotency_key (claim txn s answers)
          ((claim-Sound txn).at s answers) (claim-Claimed txn s answers);
  }

  with_provider-Sound :
      (st : Settlement) (name : Option String)
      → Keeps sound (with_provider svc now redispatch st name)
  unfolding with_provider
  with_provider-Sound st none = fail_settlement-Sound svc now st _
  with_provider-Sound st (some name) =
      Keeps-bind _ _ (resolve_accounts-Sound st.tenant_id st.crypto_asset st.fiat_currency)
        (λ accounts. claimed-Sound st name _)

  attempt_with-Sound : (st : Settlement) → Keeps sound (attempt_with svc now redispatch st)
  unfolding attempt_with select_provider
  attempt_with-Sound st = search (writes, with_provider-Sound) depth 8

pub dispatch_attempt-Sound :
    (svc : Services) (now fuel : ℕ) (st : Settlement)
    → Keeps sound (dispatch_attempt svc now fuel st)
unfolding dispatch_attempt
dispatch_attempt-Sound svc now zero st = Keeps-fail _
dispatch_attempt-Sound svc now (suc fuel) st =
    attempt_with-Sound svc now (dispatch_attempt svc now fuel) (dispatch_attempt-Sound svc now fuel)
      st
