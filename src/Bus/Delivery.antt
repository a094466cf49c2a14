-- ===== src/Bus/Delivery.antt =====
-- What the dispatcher of internal/platform/eventbus delivers: the oldest event that is due, with its
-- handlers' effects and its mark together.
use payment_engine_v.Base.{
  ap, sym, ℕ, ◌≤◌, String, Bool, true, false, Option, none, some, List, [], ◌∷◌, ◌≡◌, refl, ltb,
  if◌then◌else◌, ◌⊎◌, inl, inr, All, arith, Bool-cases, Option-cases,
}
use payment_engine_v.Db.{
  Answer, done, refused, lost, Result, ok, err, commit, pure, query, ◌>>=◌, ◌>>◌, continue,
}
use payment_engine_v.Db.Ends.{BodyEnds, Ends, transaction-Ends}
use payment_engine_v.Bus.Dispatch.{
  Event, Tables, BusError, begin_failed, commit_failed, mark_failed, is_pending, is_claimable,
  earlier, oldest, Handler, run_handlers, marked, deliver, dispatch_body, dispatch_one, is_old,
  delete_rows, delete_dispatched_before,
}

-- The event is due, and no event that is due was created before it.
pub record IsNext (locked : ℕ → Bool) (rows : List Event) (e : Event) : Type 0 where
  pub due : is_claimable locked e ≡ true
  pub first : All (λ f. (is_claimable locked f ≡ false) ⊎ (e.created_at ≤ f.created_at)) rows

abbrev OldestEnd : (ℕ → Bool) → List Event → Option Event → Type 0
OldestEnd locked rows none = All (λ f. is_claimable locked f ≡ false) rows
OldestEnd locked rows (some e) = IsNext locked rows e

older-All :
    (locked : ℕ → Bool) (m n : ℕ) (rows : List Event)
    → m ≤ n
    → All (λ f. (is_claimable locked f ≡ false) ⊎ (n ≤ f.created_at)) rows
    → All (λ f. (is_claimable locked f ≡ false) ⊎ (m ≤ f.created_at)) rows
older-All locked m n [] h a = tt
older-All locked m n (f ∷ rows) h (inl p, a) = (inl p, older-All locked m n rows h a)
older-All locked m n (f ∷ rows) h (inr p, a) = (inr (ground arith), older-All locked m n rows h a)

none_older :
    (locked : ℕ → Bool) (m : ℕ) (rows : List Event)
    → All (λ f. is_claimable locked f ≡ false) rows
    → All (λ f. (is_claimable locked f ≡ false) ⊎ (m ≤ f.created_at)) rows
none_older locked m [] a = tt
none_older locked m (f ∷ rows) (p, a) = (inl p, none_older locked m rows a)

earlier-IsNext :
    (locked : ℕ → Bool) (e : Event) (rows : List Event) (rest : Option Event)
    → is_claimable locked e ≡ true
    → OldestEnd locked rows rest
    → IsNext locked (e ∷ rows) (earlier e rest)
earlier-IsNext locked e rows none h a = record {
  due = h;
  first = (inr (ground arith), none_older locked e.created_at rows a);
}
earlier-IsNext locked e rows (some f) h n = elim (Bool-cases (ltb f.created_at e.created_at)) [
  | inl p ↦ rw p (record { due = n.due; first = (inr (ground arith), n.first) })
  | inr q ↦ rw q (record {
    due = h;
    first = (
      inr (ground arith),
      older-All locked e.created_at f.created_at rows (ground arith) n.first,
    );
  })
]

skip_next :
    (locked : ℕ → Bool) (e : Event) (rows : List Event) (rest : Option Event)
    → is_claimable locked e ≡ false
    → OldestEnd locked rows rest
    → OldestEnd locked (e ∷ rows) rest
skip_next locked e rows none h a = (h, a)
skip_next locked e rows (some f) h n = record { due = n.due; first = (inl h, n.first) }

oldest_lem : (locked : ℕ → Bool) (rows : List Event) → OldestEnd locked rows (oldest locked rows)
unfolding oldest
oldest_lem locked [] = tt
oldest_lem locked (e ∷ rows) = elim (Bool-cases (is_claimable locked e)) [
  | inl p ↦ rw p (earlier-IsNext locked e rows (oldest locked rows) p (oldest_lem locked rows))
  | inr q ↦ rw q (skip_next locked e rows (oldest locked rows) q (oldest_lem locked rows))
]

-- The handlers ran one after the other, each with success, on the tables that the one before left.
pub data AllRan {App : Type 0}
    : List (Handler App)
      → Event
      → Tables App
      → List Answer
      → Tables App
      → List Answer
      → Type 0 where
  nil : {e : Event} {s : Tables App} {answers : List Answer} → AllRan [] e s answers s answers
  cons :
      {h : Handler App} {hs : List (Handler App)} {e : Event} {s t u : Tables App}
      {answers rest end : List Answer}
      → h e s answers ≡ (ok tt, t, rest)
      → AllRan hs e t rest u end
      → AllRan (h ∷ hs) e s answers u end

first_ran :
    {App : Type 0} (h : Handler App) (hs : List (Handler App)) (e : Event) (s u : Tables App)
    (answers rest : List Answer) (r : Result BusError Unit × Tables App × List Answer)
    → h e s answers ≡ r
    → continue r (λ _. run_handlers hs e) ≡ (ok tt, u, rest)
    → ((t : Tables App) (left : List Answer)
        → run_handlers hs e t left ≡ (ok tt, u, rest)
        → AllRan hs e t left u rest)
    → AllRan (h ∷ hs) e s answers u rest
first_ran h hs e s u answers rest (ok tt, t, left) p q go = cons p (go t left q)
first_ran h hs e s u answers rest (err x, t, left) p q go = cc

run_handlers-AllRan :
    {App : Type 0} (hs : List (Handler App)) (e : Event) (s u : Tables App)
    (answers rest : List Answer)
    → run_handlers hs e s answers ≡ (ok tt, u, rest)
    → AllRan hs e s answers u rest
unfolding run_handlers ◌>>=◌
run_handlers-AllRan [] e s u answers rest p = rw (sym (ap (λ r. r.1) p), sym (ap (λ r. r.2) p)) nil
run_handlers-AllRan (h ∷ hs) e s u answers rest p =
    first_ran h hs e s u answers rest (h e s answers) refl p
      (λ t left. run_handlers-AllRan hs e t u left rest)

module _ {App : Type 0} (handlers : String → List (Handler App)) (locked : ℕ → Bool) (now : ℕ) where
  -- With `true`, the next event's handlers ran, all with success, and then it was marked; with
  -- `false`, no event was due.
  abbrev pub Delivered : Tables App → Bool → Tables App → Type 0
  Delivered s true t =
      (e : Event) × IsNext locked s.outbox e
      × (answers : List Answer) × (rest : List Answer) × (u : Tables App) × AllRan
          (handlers e.event_type) e s answers u rest
      × (t ≡ marked e.id now u)
  Delivered s false t = All (λ f. is_claimable locked f ≡ false) s.outbox × (t ≡ s)

  after_handlers :
      (s : Tables App) (e : Event) (answers : List Answer)
      (r : Result BusError Unit × Tables App × List Answer)
      → IsNext locked s.outbox e
      → run_handlers (handlers e.event_type) e s answers ≡ r
      → BodyEnds (Delivered s) s (
          continue r
            (λ _. query mark_failed (λ u. (ok tt, marked e.id now u)) >> pure (commit true)))
  unfolding ◌>>=◌
  after_handlers s e answers (err x, u, rest) n p = tt
  after_handlers s e answers (ok _, u, []) n p =
      (e, n, answers, [], u, run_handlers-AllRan _ e s u answers [] p, refl)
  after_handlers s e answers (ok _, u, done ∷ rest) n p =
      (e, n, answers, done ∷ rest, u, run_handlers-AllRan _ e s u answers (done ∷ rest) p, refl)
  after_handlers s e answers (ok _, u, refused ∷ rest) n p = tt
  after_handlers s e answers (ok _, u, lost ∷ rest) n p = tt

  deliver_ends :
      (s : Tables App) (found : Option Event) (answers : List Answer)
      → OldestEnd locked s.outbox found
      → BodyEnds (Delivered s) s (deliver handlers now found s answers)
  unfolding deliver run_handlers ◌>>=◌
  deliver_ends s none answers a = (a, refl)
  deliver_ends s (some e) answers n = after_handlers s e answers _ n refl

  dispatch_body_ends :
      (s : Tables App) (answers : List Answer)
      → BodyEnds (Delivered s) s (dispatch_body handlers locked now s answers)
  unfolding dispatch_body ◌>>=◌
  dispatch_body_ends s [] = deliver_ends s _ [] (oldest_lem locked s.outbox)
  dispatch_body_ends s (done ∷ rest) = deliver_ends s _ rest (oldest_lem locked s.outbox)
  dispatch_body_ends s (refused ∷ rest) = tt
  dispatch_body_ends s (lost ∷ rest) = tt

  -- Whatever the database answers and the handlers do, a dispatch that succeeds has run every handler
  -- of the oldest event that is due, each with success, and marked the event with their effects, or
  -- has found no event due and changed nothing; and after an error nothing has changed, or, where the
  -- answer to the commit was lost, all of that is done.
  pub dispatch_one-Ends :
      (s : Tables App) (answers : List Answer)
      → Ends (Delivered s) s (dispatch_one handlers locked now s answers)
  unfolding dispatch_one
  dispatch_one-Ends s answers =
      transaction-Ends (Delivered s) begin_failed commit_failed (dispatch_body handlers locked now)
        s answers (dispatch_body_ends s)

abbrev pub pending_events : List Event → List Event
pending_events [] = []
pending_events (e ∷ rows) =
    let rest = pending_events rows in if is_pending e then e ∷ rest else rest

old_done : (cutoff : ℕ) (e : Event) → is_old cutoff e ≡ true → is_pending e ≡ false
old_done cutoff e h = elim (Option-cases e.dispatched_at) [
  | inl n ↦ ground (arith, n, h)
  | inr (t, p) ↦ rw p refl
]

pending_events-delete_rows :
    (cutoff : ℕ) (rows : List Event)
    → pending_events (delete_rows cutoff rows) ≡ pending_events rows
unfolding delete_rows
pending_events-delete_rows cutoff [] = refl
pending_events-delete_rows cutoff (e ∷ rows) = elim (Bool-cases (is_old cutoff e)) [
  | inl p ↦ rw (p, old_done cutoff e p) (pending_events-delete_rows cutoff rows)
  | inr q ↦ rw (q, pending_events-delete_rows cutoff rows) refl
]

-- Whatever the cutoff and the database's answers, the cleanup of the outbox leaves every event that
-- was not dispatched, in its place.
pub pending_events-delete_dispatched_before :
    {App : Type 0} (cutoff : ℕ) (s : Tables App) (answers : List Answer)
    → pending_events (delete_dispatched_before cutoff s answers).1.outbox ≡ pending_events s.outbox
unfolding delete_dispatched_before query
pending_events-delete_dispatched_before cutoff s [] = pending_events-delete_rows cutoff s.outbox
pending_events-delete_dispatched_before cutoff s (done ∷ rest) =
    pending_events-delete_rows cutoff s.outbox
pending_events-delete_dispatched_before cutoff s (refused ∷ rest) = refl
pending_events-delete_dispatched_before cutoff s (lost ∷ rest) =
    pending_events-delete_rows cutoff s.outbox
