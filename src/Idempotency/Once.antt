-- ===== src/Idempotency/Once.antt =====
-- A key is claimed once, and its response is replayed (internal/platform/idempotency).
use payment_engine_v.Base.{
  Option, ℕ, ◌+◌, ◌≤◌, String, Bool, true, false, none, some, List, [], ◌∷◌, ◌≡◌, refl, ◌&&◌,
  eq_refl, update_returning, if◌then◌else◌, ◌⊎◌, inl, inr, Bool-cases, Option-cases, arith, eq_iff,
}
use payment_engine_v.Db.{Answer, done, refused, lost, Result, ok, ◌>>=◌}
use payment_engine_v.Db.Keeps.{Preorder, Keeps, Keeps-pure, Keeps-query, Keeps-bind}
use payment_engine_v.Idempotency.Keys.{
  to_column, put_response, Row, Outcome, claimed, completed, KeyError, Tables, is_row, find_row,
  new_row, insert_key, outcome_of, check_existing, reserve, with_response, complete,
}

-- A request: to reserve a key, or to store its response; each with the database's answers.
pub data Op : Type 0 where
  reserve_op : (tenant_id : ℕ) (key : String) → Op
  complete_op : (tenant_id : ℕ) (key : String) (code : ℕ) (body : Option String) → Op

abbrev pub is_taken : ℕ → String → Tables → Bool
is_taken t k [] = false
is_taken t k (r ∷ rows) = if is_row t k r then true else is_taken t k rows

abbrev is_claim : Result KeyError Outcome → Bool
is_claim (ok claimed) = true
is_claim _ = false

unfoldable pub perform : (String → Option String) → Op → List Answer → Tables → Tables
perform jsonb (reserve_op t k) answers s = (reserve t k s answers).1
perform jsonb (complete_op t k code body) answers s = (complete jsonb t k code body s answers).1

-- One if the operation is a `Reserve` of the key that reports it claimed.
unfoldable pub wins : ℕ → String → Op → List Answer → Tables → ℕ
wins t k (reserve_op t' k') answers s =
    if is_row t k (new_row t' k') && is_claim (reserve t' k' s answers).0 then 1 else 0
wins t k (complete_op _ _ _ _) answers s = 0

unfoldable pub claims : (String → Option String) → ℕ → String → List (Op × List Answer) → Tables → ℕ
claims jsonb t k [] s = 0
claims jsonb t k ((op, answers) ∷ ops) s =
    wins t k op answers s + claims jsonb t k ops (perform jsonb op answers s)

taken_row :
    (t : ℕ) (k : String) (s : Tables)
    → is_taken t k s ≡ true
    → (r : Row) × (find_row t k s ≡ some r)
taken_row t k [] h = cc
taken_row t k (r ∷ rows) h = elim (Bool-cases (is_row t k r)) [
  | inl p ↦ (r, rw (find_row, p) refl)
  | inr q ↦ let (r', p) = taken_row t k rows (rw (is_taken, q) at h) in (r', rw (find_row, q) p)
]

outcome-claim : (r : Row) → is_claim (outcome_of (some r)) ≡ false
outcome-claim r = elim (Option-cases r.response_code) [ inl p ↦ rw p refl | inr (c, p) ↦ rw p refl ]

found_claim :
    (t : ℕ) (k : String) (s : Tables) (r : Row) (answers : List Answer)
    → find_row t k s ≡ some r
    → is_claim (reserve t k s answers).0 ≡ false
unfolding reserve insert_key check_existing ◌>>=◌
found_claim t k s r [] p = rw (p, p) (outcome-claim r)
found_claim t k s r (done ∷ []) p = rw (p, p) (outcome-claim r)
found_claim t k s r (done ∷ done ∷ rest) p = rw (p, p) (outcome-claim r)
found_claim t k s r (done ∷ refused ∷ rest) p = rw p refl
found_claim t k s r (done ∷ lost ∷ rest) p = rw p refl
found_claim t k s r (refused ∷ rest) p = refl
found_claim t k s r (lost ∷ rest) p = refl

taken-insert_key :
    (t t' : ℕ) (k k' : String) (s : Tables)
    → is_taken t k s ≡ true
    → is_taken t k (insert_key t' k' s).1 ≡ true
unfolding insert_key
taken-insert_key t t' k k' s h = elim (Option-cases (find_row t' k' s)) [
  | inl n ↦ rw n (ground (arith, h))
  | inr (r, p) ↦ rw p h
]

taken-update :
    (t t' : ℕ) (k k' : String) (code : ℕ) (body : Option String) (s : Tables)
    → is_taken t k (update_returning (is_row t' k') (with_response code body) s).1 ≡ is_taken t k s
taken-update t t' k k' code body [] = refl
taken-update t t' k k' code body (r ∷ rows) = elim (Bool-cases (is_row t' k' r)) [
  | inl p ↦ rw (p, taken-update t t' k k' code body rows) refl
  | inr q ↦ rw (q, taken-update t t' k k' code body rows) refl
]

-- The key stays taken.
abbrev keeps_taken : ℕ → String → Preorder Tables
keeps_taken t k = record {
  rel = λ s u. is_taken t k s ≡ true → is_taken t k u ≡ true;
  reflexive = λ s h. h;
  transitive = λ s u v f g h. g (f h);
}

check_existing-Keeps :
    (t t' : ℕ) (k k' : String) (is_new : Bool)
    → Keeps (keeps_taken t k) (check_existing t' k' is_new)
unfolding check_existing
check_existing-Keeps t t' k k' true = Keeps-pure _
check_existing-Keeps t t' k k' false = Keeps-query _ _ (λ s h. h)

reserve-Keeps : (t t' : ℕ) (k k' : String) → Keeps (keeps_taken t k) (reserve t' k')
unfolding reserve
reserve-Keeps t t' k k' =
    Keeps-bind _ _ (Keeps-query _ _ (taken-insert_key t t' k k')) (check_existing-Keeps t t' k k')

taken-put_response :
    (t t' : ℕ) (k k' : String) (code : ℕ) (body : Option (Option String)) (s : Tables)
    → is_taken t k s ≡ true
    → is_taken t k (put_response t' k' code body s).1 ≡ true
taken-put_response t t' k k' code none s h = h
taken-put_response t t' k k' code (some body) s h = rw (taken-update t t' k k' code body s) h

complete-Keeps :
    (jsonb : String → Option String) (t t' : ℕ) (k k' : String) (code : ℕ) (body : Option String)
    → Keeps (keeps_taken t k) (complete jsonb t' k' code body)
unfolding complete
complete-Keeps jsonb t t' k k' code body =
    Keeps-query _ _ (taken-put_response t t' k k' code (to_column jsonb body))

taken-perform :
    (jsonb : String → Option String) (t : ℕ) (k : String) (op : Op) (answers : List Answer)
    (s : Tables)
    → is_taken t k s ≡ true
    → is_taken t k (perform jsonb op answers s) ≡ true
unfolding perform
taken-perform jsonb t k (reserve_op t' k') answers s h = (reserve-Keeps t t' k k').at s answers h
taken-perform jsonb t k (complete_op t' k' code body) answers s h =
    (complete-Keeps jsonb t t' k k' code body).at s answers h

same_key : (t t' : ℕ) (k k' : String) → is_row t k (new_row t' k') ≡ true → (t' ≡ t) × (k' ≡ k)
same_key t t' k k' h = (ground (arith, h), ground (arith, h, eq_iff k' k))

taken-wins :
    (t : ℕ) (k : String) (op : Op) (answers : List Answer) (s : Tables)
    → is_taken t k s ≡ true
    → wins t k op answers s ≡ 0
unfolding wins
taken-wins t k (complete_op t' k' code body) answers s h = refl
taken-wins t k (reserve_op t' k') answers s h = elim (Bool-cases (is_row t k (new_row t' k'))) [
  | inr q ↦ rw q refl
  | inl p ↦
      let (r, f) = taken_row t k s h in
      let (e, e') = same_key t t' k k' p in rw (e, e', found_claim t k s r answers f) (ground arith)
]

taken-claims :
    (jsonb : String → Option String) (t : ℕ) (k : String) (ops : List (Op × List Answer))
    (s : Tables)
    → is_taken t k s ≡ true
    → claims jsonb t k ops s ≡ 0
unfolding claims
taken-claims jsonb t k [] s h = refl
taken-claims jsonb t k ((op, answers) ∷ ops) s h = omega (
  arith,
  taken-wins t k op answers s h,
  taken-claims jsonb t k ops (perform jsonb op answers s) (taken-perform jsonb t k op answers s h),
)

same_row : (t : ℕ) (k : String) → is_row t k (new_row t k) ≡ true
same_row t k = ground (arith, eq_refl k)

new_claim :
    (t : ℕ) (k : String) (s : Tables) (answers : List Answer)
    → find_row t k s ≡ none
    → is_claim (reserve t k s answers).0 ≡ true
    → is_taken t k (reserve t k s answers).1 ≡ true
unfolding reserve insert_key check_existing ◌>>=◌
new_claim t k s [] n h = rw (n, same_row t k) refl
new_claim t k s (done ∷ rest) n h = rw (n, same_row t k) refl
new_claim t k s (refused ∷ rest) n h = cc
new_claim t k s (lost ∷ rest) n h = cc

claim_taken :
    (t : ℕ) (k : String) (s : Tables) (answers : List Answer)
    → is_claim (reserve t k s answers).0 ≡ true
    → is_taken t k (reserve t k s answers).1 ≡ true
claim_taken t k s answers h = elim (Option-cases (find_row t k s)) [
  | inl n ↦ new_claim t k s answers n h
  | inr (r, p) ↦ cc (found_claim t k s r answers p)
]

wins-cases :
    (jsonb : String → Option String) (t : ℕ) (k : String) (op : Op) (answers : List Answer)
    (s : Tables)
    → (wins t k op answers s ≡ 0)
      ⊎ ((wins t k op answers s ≡ 1) × (is_taken t k (perform jsonb op answers s) ≡ true))
unfolding wins perform
wins-cases jsonb t k (complete_op t' k' code body) answers s = inl refl
wins-cases jsonb t k (reserve_op t' k') answers s = elim (Bool-cases (is_row t k (new_row t' k'))) [
  | inr q ↦ inl (rw q refl)
  | inl p ↦ elim (Bool-cases (is_claim (reserve t' k' s answers).0)) [
    | inr q ↦ inl (rw (p, q) refl)
    | inl c ↦
        let (e, e') = same_key t t' k k' p in
        inr (rw (p, c) refl, rw (e, e') (claim_taken t k s answers (rw (e, e') at c)))
  ]
]

-- In any sequence of calls of `Reserve` and `Complete` for any keys and tenants, with any answers of
-- the database to each, at most one `Reserve` of a tenant's key reports it claimed.
pub claims-le :
    (jsonb : String → Option String) (t : ℕ) (k : String) (ops : List (Op × List Answer))
    (s : Tables)
    → claims jsonb t k ops s ≤ 1
unfolding claims
claims-le jsonb t k [] s = omega arith
claims-le jsonb t k ((op, answers) ∷ ops) s = elim (wins-cases jsonb t k op answers s) [
  | inl p ↦ omega (arith, p, claims-le jsonb t k ops (perform jsonb op answers s))
  | inr (p, h) ↦ omega (arith, p, taken-claims jsonb t k ops (perform jsonb op answers s) h)
]

response_found :
    (t : ℕ) (k : String) (code : ℕ) (body : Option String) (s : Tables)
    → is_taken t k s ≡ true
    → (r : Row) × (find_row t k (update_returning (is_row t k) (with_response code body) s).1
        ≡ some (with_response code body r))
response_found t k code body [] h = cc
response_found t k code body (r ∷ rows) h = elim (Bool-cases (is_row t k r)) [
  | inl p ↦ (r, rw (p, p) refl)
  | inr q ↦
      let (r', p) = response_found t k code body rows (rw (is_taken, q) at h) in (r', rw (q, q) p)
]

valid_column :
    (jsonb : String → Option String) (text value : String)
    → jsonb text ≡ some value
    → to_column jsonb (some text) ≡ some (some value)
valid_column jsonb text value h = rw (to_column, h) refl

-- Where the database answers, once a response with a body that Postgres accepts as JSON is stored
-- for a taken key, a `Reserve` of that key returns the code and the body in Postgres' formatting,
-- and changes nothing.
pub reserve-complete :
    (jsonb : String → Option String) (t : ℕ) (k : String) (code : ℕ) (text value : String)
    (s : Tables)
    → is_taken t k s ≡ true
    → jsonb text ≡ some value
    → let s' = (complete jsonb t k code (some text) s []).1 in
      reserve t k s' [] ≡ (ok (completed (record { code = code; body = some value })), s', [])
unfolding complete reserve insert_key check_existing ◌>>=◌
reserve-complete jsonb t k code text value s h valid =
    let (r, p) = response_found t k code (some value) s h in
    rw (valid_column jsonb text value valid, p, p) refl
