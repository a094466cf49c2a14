-- ===== src/Idempotency/Keys.antt =====
-- `Reserve` and `Complete` (internal/platform/idempotency/idempotency.go). A body is a JSONB column:
-- `jsonb` is what Postgres makes of a text, its own formatting of it, or an error where the text is
-- no JSON; a nil body is NULL.
use payment_engine_v.Base.{
  ℕ, String, Bool, true, false, Option, none, some, List, [], ◌∷◌, ◌==◌, ◌&&◌, str_eq,
  update_returning, if◌then◌else◌,
}
use payment_engine_v.Db.{Result, ok, err, Action, pure, query, ◌>>=◌}

-- A row of idempotency_keys; a request in flight has no code.
pub record Row : Type 0 where
  pub tenant_id : ℕ
  pub key : String
  pub response_code : Option ℕ
  pub response_body : Option String

pub record CachedResponse : Type 0 where
  pub code : ℕ
  pub body : Option String

-- `claimed`, this call owns the key; `in_flight`, another does; `completed`, it has its response.
pub data Outcome : Type 0 where
  claimed in_flight : Outcome
  completed : CachedResponse → Outcome

pub data KeyError : Type 0 where
  reserve_failed check_failed complete_failed : KeyError

abbrev pub Tables : Type 0
Tables = List Row

-- WHERE tenant_id = $1 AND key = $2
abbrev pub is_row : ℕ → String → Row → Bool
is_row tenant_id key r = r.tenant_id == tenant_id && str_eq r.key key

abbrev pub find_row : ℕ → String → Tables → Option Row
find_row tenant_id key [] = none
find_row tenant_id key (r ∷ rows) =
    if is_row tenant_id key r then some r else find_row tenant_id key rows

abbrev pub new_row : ℕ → String → Row
new_row tenant_id key = record {
  tenant_id = tenant_id;
  key = key;
  response_code = none;
  response_body = none;
}

-- INSERT … ON CONFLICT (tenant_id, key) DO NOTHING: whether a row was inserted.
abbrev pub inserted : ℕ → String → Tables → Option Row → Result KeyError Bool × Tables
inserted tenant_id key rows none = (ok true, new_row tenant_id key ∷ rows)
inserted tenant_id key rows (some r) = (ok false, rows)

unfoldable pub insert_key : ℕ → String → Tables → Result KeyError Bool × Tables
insert_key tenant_id key rows = inserted tenant_id key rows (find_row tenant_id key rows)

abbrev pub outcome_of : Option Row → Result KeyError Outcome
outcome_of none = err check_failed
outcome_of (some r) = elim r.response_code [
  | none ↦ ok in_flight
  | some code ↦ ok (completed (record { code = code; body = r.response_body }))
]

unfoldable pub check_existing : ℕ → String → Bool → Action KeyError Tables Outcome
check_existing tenant_id key true = pure claimed
check_existing tenant_id key false =
    query check_failed (λ rows. (outcome_of (find_row tenant_id key rows), rows))

-- `Reserve`
unfoldable pub reserve : ℕ → String → Action KeyError Tables Outcome
reserve tenant_id key = do
  is_new ← query reserve_failed (insert_key tenant_id key)
  check_existing tenant_id key is_new

abbrev pub with_response : ℕ → Option String → Row → Row
with_response code body r = record r { response_code = some code; response_body = body }

-- The column's value, if the text is accepted.
abbrev pub to_column : (String → Option String) → Option String → Option (Option String)
to_column jsonb none = some none
to_column jsonb (some text) = elim (jsonb text) [ none ↦ none | some value ↦ some (some value) ]

abbrev pub put_response :
    ℕ → String → ℕ → Option (Option String) → Tables → Result KeyError Unit × Tables
put_response tenant_id key code none rows = (err complete_failed, rows)
put_response tenant_id key code (some body) rows =
    (ok tt, (update_returning (is_row tenant_id key) (with_response code body) rows).1)

-- `Complete`
unfoldable pub complete :
    (String → Option String) → ℕ → String → ℕ → Option String → Action KeyError Tables Unit
complete jsonb tenant_id key code body =
    query complete_failed (put_response tenant_id key code (to_column jsonb body))
