-- ===== src/Session/Offer.antt =====
-- The move to `pending` (internal/session/session.go, `transitionToPending`): a rate lock, deposit
-- instructions, the session's row and its event, all or none; and the deadline of the offer.
use payment_engine_v.Base.{
  ℕ, Bool, true, false, ◌||◌, Option, none, some, List, [], ◌∷◌, ◌≡◌, refl, arith, inl, inr,
  update_returning, if◌then◌else◌, Bool-cases, head_row,
}
use payment_engine_v.Db.{
  Answer, done, refused, lost, ok, err, commit, pure, fail, query, ◌>>=◌, ◌>>◌,
}
use payment_engine_v.Db.{continue}
use payment_engine_v.Db.Ends.{Ends-map, bind-Ends, BodyEnds, Ends, transaction-Ends}
use payment_engine_v.Session.Tables.{Status, pending, Instructions, Session, SessionEvent, Tables}
use payment_engine_v.Session.Services.{Corridor, Lock, Reply, Services}
use payment_engine_v.Session.Cas.{
  transition_failed, SessionError, is_at, update_session, scanned, begin_failed, commit_failed,
}
use payment_engine_v.Session.Create.{
  expect, get_session, publish, pending_body, transition_to_pending, find_session, completed,
  crypto_amount,
}

-- The tables once the offer is made.
abbrev pub pended : Bool → ℕ → ℕ → Corridor → Status → Lock → Instructions → ℕ → Tables → Tables
pended bus id tenant_id corr from lock i now s = record s {
  sessions =
      (update_returning (is_at id from)
        (λ x. record x {
          status = pending;
          rate_lock_id = some lock.id;
          deposit_reservation_id = some i.reservation_id;
          deposit_instructions = some i;
          updated_at = now;
        })
        s.sessions).1;
  outbox =
      if bus
      then record { aggregate_id = id; event = SessionEvent.created tenant_id corr.id } ∷ s.outbox
      else s.outbox;
}

-- A row was at the status that the move is from.
abbrev pub is_waiting : ℕ → Status → List Session → Bool
is_waiting id from [] = false
is_waiting id from (x ∷ xs) = is_at id from x || is_waiting id from xs

hit_waits :
    (id : ℕ) (from : Status) (f : Session → Session) (xs : List Session) (y : Session)
    → head_row (update_returning (is_at id from) f xs).0 ≡ some y
    → is_waiting id from xs ≡ true
hit_waits id from f [] y h = cc
hit_waits id from f (x ∷ xs) y h = elim (Bool-cases (is_at id from x)) [
  | inl met ↦ ground (arith, met)
  | inr other ↦ rw other (hit_waits id from f xs y (rw other at h))
]

-- The offer was made to the session as it was, with the lock and the instructions that the other
-- modules gave.
abbrev pub OfferMade : Services → Bool → ℕ → ℕ → Corridor → Status → ℕ → Tables → Tables → Type 0
OfferMade svc bus id tenant_id corr from now s t =
    (current : Session) × (lock : Lock) × (raw : Instructions) × (find_session id s.sessions
      ≡ some current)
    × (svc.lock_rate corr.crypto_asset corr.fiat_currency ≡ ok lock)
    × (svc.get_deposit_instructions tenant_id corr.id
          (crypto_amount svc lock corr.crypto_asset current.fiat_amount)
        ≡ ok raw)
    × (is_waiting id from s.sessions ≡ true)
    × (t
        ≡ pended bus id tenant_id corr from lock
            (completed svc current.created_at lock
              (crypto_amount svc lock corr.crypto_asset current.fiat_amount) raw)
            now s)

abbrev OfferStands :
    Bool → ℕ → ℕ → Corridor → Status → Lock → Instructions → ℕ → Tables → Session → Tables → Type 0
OfferStands bus id tenant_id corr from lock i now s x t =
    (is_waiting id from s.sessions ≡ true) × (t ≡ pended bus id tenant_id corr from lock i now s)

after_row :
    (bus : Bool) (id tenant_id : ℕ) (corr : Corridor) (from : Status) (lock : Lock)
    (i : Instructions) (now : ℕ) (s u : Tables) (found' : Option Session) (rest : List Answer)
    → ((y : Session) → found' ≡ some y → is_waiting id from s.sessions ≡ true)
    → record u {
      outbox =
          if bus
          then record { aggregate_id = id; event = SessionEvent.created tenant_id corr.id }
            ∷ u.outbox
          else u.outbox;
    }
      ≡ pended bus id tenant_id corr from lock i now s
    → BodyEnds (OfferStands bus id tenant_id corr from lock i now s) s (
        continue
          (scanned transition_failed found', u, rest)
          (λ x. (do
            publish bus
                (record { aggregate_id = id; event = SessionEvent.created tenant_id corr.id })
            pure (commit x))))
unfolding publish ◌>>=◌
after_row bus id tenant_id corr from lock i now s u none rest w p = tt
after_row false id tenant_id corr from lock i now s u (some y) rest w p = (w y refl, p)
after_row true id tenant_id corr from lock i now s u (some y) [] w p = (w y refl, p)
after_row true id tenant_id corr from lock i now s u (some y) (done ∷ rest) w p = (w y refl, p)
after_row true id tenant_id corr from lock i now s u (some y) (refused ∷ rest) w p = tt
after_row true id tenant_id corr from lock i now s u (some y) (lost ∷ rest) w p = tt

pending_body_ends :
    (bus : Bool) (id tenant_id : ℕ) (corr : Corridor) (from : Status) (lock : Lock)
    (i : Instructions) (now : ℕ) (s : Tables) (answers : List Answer)
    → BodyEnds
        (OfferStands bus id tenant_id corr from lock i now s)
        s
        (pending_body bus id tenant_id corr from lock i now s answers)
unfolding pending_body update_session ◌>>=◌
pending_body_ends bus id tenant_id corr from lock i now s [] =
    after_row bus id tenant_id corr from lock i now s _ _ [] (hit_waits id from _ s.sessions) refl
pending_body_ends bus id tenant_id corr from lock i now s (done ∷ rest) =
    after_row bus id tenant_id corr from lock i now s _ _ rest (hit_waits id from _ s.sessions) refl
pending_body_ends bus id tenant_id corr from lock i now s (refused ∷ rest) = tt
pending_body_ends bus id tenant_id corr from lock i now s (lost ∷ rest) = tt

get_session_reads : (id : ℕ) (s : Tables) (answers : List Answer) → (get_session id s answers).1 ≡ s
unfolding get_session query
get_session_reads id s [] = refl
get_session_reads id s (done ∷ rest) = refl
get_session_reads id s (refused ∷ rest) = refl
get_session_reads id s (lost ∷ rest) = refl

scanned_ok :
    (e : SessionError) (found' : Option Session) (x : Session)
    → scanned e found' ≡ ok x
    → found' ≡ some x
scanned_ok e none x h = cc
scanned_ok e (some y) x h = cc

get_session_ok :
    (id : ℕ) (s : Tables) (answers : List Answer) (x : Session)
    → (get_session id s answers).0 ≡ ok x
    → find_session id s.sessions ≡ some x
unfolding get_session query
get_session_ok id s [] x h = scanned_ok _ _ x h
get_session_ok id s (done ∷ rest) x h = scanned_ok _ _ x h
get_session_ok id s (refused ∷ rest) x h = cc
get_session_ok id s (lost ∷ rest) x h = cc

module _ {A : Type 0} where
  expect_reads :
      (e : SessionError) (r : Reply A) (s : Tables) (answers : List Answer)
      → (expect e r s answers).1 ≡ s
  unfolding expect pure fail
  expect_reads e (ok a) s answers = refl
  expect_reads e (err _) s answers = refl

  expect_ok :
      (e : SessionError) (r : Reply A) (s : Tables) (answers : List Answer) (a : A)
      → (expect e r s answers).0 ≡ ok a
      → r ≡ ok a
  unfolding expect pure fail
  expect_ok e (ok b) s answers a h = cc
  expect_ok e (err _) s answers a h = cc

offer_made :
    (svc : Services) (bus : Bool) (id tenant_id : ℕ) (corr : Corridor) (from : Status) (now : ℕ)
    (s : Tables) (current : Session) (lock : Lock) (raw : Instructions)
    → find_session id s.sessions ≡ some current
    → svc.lock_rate corr.crypto_asset corr.fiat_currency ≡ ok lock
    → (svc.get_deposit_instructions tenant_id corr.id
        (crypto_amount svc lock corr.crypto_asset current.fiat_amount))
      ≡ ok raw
    → (x : Session) (t : Tables)
    → OfferStands bus id tenant_id corr from lock
        (completed svc current.created_at lock
          (crypto_amount svc lock corr.crypto_asset current.fiat_amount)
          raw)
        now
        s
        x
        t
    → OfferMade svc bus id tenant_id corr from now s t
offer_made svc bus id tenant_id corr from now s current lock raw p q r x t e =
    (current, lock, raw, p, q, r, e.0, e.1)

-- Whatever the database answers, a session that is offered to its payer was at the status `from`, and
-- its row, with the lock and the completed instructions, is written together with its event
-- `session.created`, where there is a bus; and after an error nothing has changed, or, where the
-- answer to the commit was lost, all of that is done.
pub transition_to_pending-Ends :
    (svc : Services) (bus : Bool) (id tenant_id : ℕ) (corr : Corridor) (from : Status) (now : ℕ)
    (s : Tables) (answers : List Answer)
    → Ends
        (λ _. OfferMade svc bus id tenant_id corr from now s)
        s
        (transition_to_pending svc bus id tenant_id corr from now s answers)
unfolding transition_to_pending
transition_to_pending-Ends svc bus id tenant_id corr from now s answers =
    let P = OfferMade svc bus id tenant_id corr from now s in
    bind-Ends (λ _. P) _ _ s answers (get_session_reads id s answers)
      (λ current rest found'.
        bind-Ends (λ _. P) _ _ s rest (expect_reads _ _ s rest)
          (λ lock rest' locked.
            bind-Ends (λ _. P) _ _ s rest' (expect_reads _ _ s rest')
              (λ raw rest'' given.
                Ends-map _ (λ _. P) s _
                  (offer_made svc bus id tenant_id corr from now s current lock raw
                    (get_session_ok id s answers current found') (expect_ok _ _ s rest lock locked)
                    (expect_ok _ _ s rest' raw given))
                  (transaction-Ends _ begin_failed commit_failed _ s rest''
                    (pending_body_ends bus id tenant_id corr from lock _ now s)))))
