-- ===== src/Settlement/Counted.antt =====
-- A settlement's attempt count, written before the call of the provider and read back by a retry
-- (internal/settlement/dispatch.go).
use payment_engine_v.Base.{
  ◌∙◌, sym, ℕ, ◌+◌, String, Option, none, some, List, [], ◌∷◌, ◌≡◌, refl, arith, inl, inr,
  Bool-cases, ◌==◌, update_returning,
}
use payment_engine_v.Db.{
  Answer, done, refused, lost, ok, err, Action, query, answered, next_answer, later_answers,
  continue, ◌>>=◌,
}
use payment_engine_v.Settlement.Tables.{Settlement, Attempt, PayoutRequest, Tables}
use payment_engine_v.Settlement.Services.{Services, PayoutResult}
use payment_engine_v.Settlement.Calls.{
  dispatch_reply, not_found, SettlementError, database_failed, find_settlement, found_row,
  get_settlement, call_provider,
}
use payment_engine_v.Session.Services.{Reply}
use payment_engine_v.Settlement.Transition.{update_settlement, set_attempt_count}
use payment_engine_v.Settlement.Dispatch.{prepare_attempt}
use payment_engine_v.Settlement.Leads.{
  Promise, Leads, Led, Anything, Leads-query, Leads-pure, Leads-bind, Leads-weaken, Yields,
  Yields-pure, Leads-Yields,
}
use payment_engine_v.Settlement.Steady.{
  insert_attempt-Leads, draw_id-Leads, resolve_destination-Leads, IsAside,
}

-- Every row with the id is at the attempt.
abbrev pub HasCount : ℕ → ℕ → Promise
HasCount id n [] = Unit
HasCount id n (x ∷ xs) = (x.id ≡ id → x.attempt_count ≡ n) × HasCount id n xs

pub HasCount-aside : (id n : ℕ) → IsAside (HasCount id n)
HasCount-aside id n p f i c [] h = tt
HasCount-aside id n p f i c (x ∷ xs) h = elim (Bool-cases (p x)) [
  | inl met ↦ rw met ((λ e. rw (c x) (h.0 (sym (i x) ∙ e))), HasCount-aside id n p f i c xs h.1)
  | inr other ↦ rw other (h.0, HasCount-aside id n p f i c xs h.1)
]

HasCount-update :
    (id n now : ℕ) (xs : List Settlement)
    → HasCount id n
        (update_returning
          (λ x. x.id == id)
          (λ x. record x { attempt_count = n; updated_at = now })
          xs).1
HasCount-update id n now [] = tt
HasCount-update id n now (x ∷ xs) = elim (Bool-cases (x.id == id)) [
  | inl met ↦ rw met ((λ e. refl), HasCount-update id n now xs)
  | inr other ↦ rw other ((λ e. ground arith), HasCount-update id n now xs)
]

find_settlement-HasCount :
    (id n : ℕ) (xs : List Settlement) (x : Settlement)
    → HasCount id n xs
    → find_settlement id xs ≡ some x
    → x.attempt_count ≡ n
find_settlement-HasCount id n [] x h e = cc
find_settlement-HasCount id n (y ∷ ys) x h e =
    ground (arith, find_settlement-HasCount id n ys x h.1, h.0)

-- Reading the settlement back gives the attempt that was written.
module _ {B : Type 0} (id n : ℕ) (f : Settlement → Action SettlementError Tables B) {Q : Promise}
    (k : (st : Settlement) → st.attempt_count ≡ n → Leads (HasCount id n) (f st) Q) where
  found-Led :
      (found : Option Settlement) (s : Tables) (rest : List Answer)
      → find_settlement id s.settlements ≡ found
      → HasCount id n s.settlements
      → Led Q (continue (found_row not_found found, s, rest) f)
  found-Led none s rest e h = tt
  found-Led (some x) s rest e h =
      (k x (find_settlement-HasCount id n s.settlements x h e)).at s rest h

  read-Led :
      (a : Answer) (s : Tables) (rest : List Answer)
      → HasCount id n s.settlements
      → Led Q (
          continue
            (answered a database_failed
              (found_row not_found (find_settlement id s.settlements), s)
              s
              rest)
            f)
  read-Led done s rest h = found-Led (find_settlement id s.settlements) s rest refl h
  read-Led refused s rest h = tt
  read-Led lost s rest h = tt

  pub get_settlement-Leads : Leads (HasCount id n) (get_settlement id >>= f) Q
  unfolding get_settlement ◌>>=◌ query
  get_settlement-Leads = record {
    at = λ s answers h. read-Led (next_answer answers) s (later_answers answers) h;
  }

set_attempt_count-Leads :
    (id n now : ℕ) → Leads Anything (set_attempt_count id n now) (HasCount id n)
unfolding set_attempt_count update_settlement
set_attempt_count-Leads id n now =
    Leads-bind {P = Anything} {Q = HasCount id n} {R = HasCount id n} _ _
      (Leads-query {P = Anything} {Q = HasCount id n} _ _ tt
        (λ s h. HasCount-update id n now s.settlements))
      (λ _. Leads-pure tt)

pub Anything-aside : IsAside Anything
Anything-aside p f i c xs h = tt

pub to_anything :
    {A : Type 0} {P Q : Promise} (m : Action SettlementError Tables A)
    → Leads P m Q
    → Leads P m Anything
to_anything m h = Leads-weaken m (λ xs x. x) (λ xs x. tt) h

pub from_anything :
    {A : Type 0} {P Q : Promise} (m : Action SettlementError Tables A)
    → Leads Anything m Q
    → Leads P m Q
from_anything m h = Leads-weaken m (λ xs x. tt) (λ xs x. x) h

-- The attempt that `prepare_attempt` returns, and the row that it wrote.
abbrev pub Prepared : ℕ → Option String × Attempt → Promise
Prepared n (destination, attempt) xs =
    (attempt.attempt_number ≡ n) × HasCount attempt.settlement_id n xs

pub prepare_attempt-Yields :
    (n now : ℕ) (st : Settlement) (name key : String)
    → st.attempt_count + 1 ≡ n
    → Yields Anything (prepare_attempt now st name key) (Prepared n)
unfolding prepare_attempt
prepare_attempt-Yields n now st name key e =
    Leads-Yields Anything _ _ (resolve_destination-Leads st) (λ destination.
      Leads-Yields Anything _ _ draw_id-Leads (λ id.
        Leads-Yields Anything _ _ (insert_attempt-Leads _) (λ _.
          Leads-Yields (HasCount st.id (st.attempt_count + 1)) _ _
            (set_attempt_count-Leads st.id (st.attempt_count + 1) now)
            (λ _. Yields-pure (Prepared n) _ (λ xs h. (e, rw (sym e) h))))))

called-Led :
    (P : Promise) (r : Reply PayoutResult) (t : Tables) (answers : List Answer)
    → P t.settlements
    → Led P (dispatch_reply r, t, answers)
called-Led P (ok a) t answers h = h
called-Led P (err e) t answers h = tt

pub call_provider-Leads :
    {P : Promise} (svc : Services) (name : String) (r : PayoutRequest)
    → Leads P (call_provider svc name r) P
unfolding call_provider
call_provider-Leads {P} svc name r = record {
  at = λ s answers h. called-Led P (svc.dispatch name r) _ answers h;
}
