-- ===== src/Ledger/Owners.antt =====
-- `GetOrCreateAccount` gives each tenant, type and asset one account of its own
-- (internal/ledger/ledger.go).
use payment_engine_v.Base.{
  ℕ, ◌≡◌, refl, arith, true, Option, none, some, String, List, [], ◌∷◌, ◌==◌, if◌then◌else◌, eq_iff,
  eq_refl, inl, inr, Option-cases,
}
use payment_engine_v.Db.{Result, ok, err}
use payment_engine_v.Ledger.Tables.{AccountRow, Tables}
use payment_engine_v.Ledger.Accounts.{
  Key, has_account_key, find_key, account_row, upsert_account, get_or_create_account,
}

abbrev pub key_of : AccountRow → Key
key_of r = record {
  tenant_id = r.tenant_id;
  account_type = r.account_type;
  asset_code = r.asset_code;
}

-- The key of the account with an id.
abbrev pub owner : ℕ → List AccountRow → Option Key
owner id [] = none
owner id (r ∷ rows) = if r.id == id then some (key_of r) else owner id rows

-- Neither a key nor an id stands on two accounts.
abbrev pub IsKeyedOnce : List AccountRow → Type 0
IsKeyedOnce [] = Unit
IsKeyedOnce (r ∷ rows) =
    (find_key (key_of r) rows ≡ none) × (owner r.id rows ≡ none) × IsKeyedOnce rows

has_account_key_lem : (k : Key) (r : AccountRow) → has_account_key k r ≡ true → key_of r ≡ k
unfolding has_account_key
has_account_key_lem k r h =
    ground (arith, eq_iff r.account_type k.account_type, eq_iff r.asset_code k.asset_code)

has_account_key_self :
    (id : ℕ) (k : Key) (u n : String) → has_account_key k (account_row id k u n) ≡ true
unfolding has_account_key
has_account_key_self id k u n = ground (arith, eq_refl k.account_type, eq_refl k.asset_code)

find_key-owner :
    (k : Key) (rows : List AccountRow) (r : AccountRow)
    → IsKeyedOnce rows
    → find_key k rows ≡ some r
    → owner r.id rows ≡ some k
unfolding find_key
find_key-owner k [] r v h = cc
find_key-owner k (x ∷ rows) r v h =
    ground (arith, has_account_key_lem k x, find_key-owner k rows r v.2)

-- The id that a call returns, if it returns.
abbrev pub returned : {E : Type 0} → Result E ℕ → ℕ → ℕ
returned (ok id) other = id
returned (err _) other = other

-- Where the database answers and draws an id that is not in use, `GetOrCreateAccount` returns an
-- account that belongs to the tenant, type and asset it was asked for, and to no other.
pub get_or_create_account-owner :
    (new_id : ℕ) (k : Key) (unit_type name : String) (s : Tables)
    → IsKeyedOnce s.accounts
    → owner new_id s.accounts ≡ none
    → let (r, s', _) = get_or_create_account new_id k unit_type name s [] in
      (id : ℕ) × (r ≡ ok id) × (owner id s'.accounts ≡ some k) × IsKeyedOnce s'.accounts
unfolding get_or_create_account upsert_account
get_or_create_account-owner new_id k unit_type name s v fresh =
    elim (Option-cases (find_key k s.accounts)) [
      | inl missing ↦ rw (missing, upsert_account) (new_id, refl, ground arith, (missing, fresh, v))
      | inr (r, found) ↦
          rw (found, upsert_account) (r.id, refl, find_key-owner k s.accounts r v found, v)
    ]

upsert_missing :
    (new_id : ℕ) (k : Key) (unit_type name : String) (s : Tables)
    → find_key k s.accounts ≡ none
    → upsert_account new_id k unit_type name s
      ≡ (ok new_id, record s { accounts = account_row new_id k unit_type name ∷ s.accounts })
unfolding upsert_account
upsert_missing new_id k unit_type name s h = rw (h, upsert_account) refl

upsert_found :
    (new_id : ℕ) (k : Key) (unit_type name : String) (s : Tables) (r : AccountRow)
    → find_key k s.accounts ≡ some r
    → upsert_account new_id k unit_type name s ≡ (ok r.id, s)
unfolding upsert_account
upsert_found new_id k unit_type name s r h = rw (h, upsert_account) refl

find_key_new :
    (id : ℕ) (k : Key) (unit_type name : String) (rows : List AccountRow)
    → find_key k (account_row id k unit_type name ∷ rows) ≡ some (account_row id k unit_type name)
unfolding find_key
find_key_new id k unit_type name rows = rw (has_account_key_self id k unit_type name) refl

-- Where the database answers, asking again for the same tenant, type and asset returns the same
-- account and writes nothing.
pub get_or_create_account_again :
    (new_id new_id' : ℕ) (k : Key) (unit_type name unit_type' name' : String) (s : Tables)
    → let (r, s', _) = get_or_create_account new_id k unit_type name s [] in
      get_or_create_account new_id' k unit_type' name' s' [] ≡ (r, s', [])
unfolding get_or_create_account
get_or_create_account_again new_id new_id' k unit_type name unit_type' name' s =
    elim (Option-cases (find_key k s.accounts)) [
      | inl missing ↦ rw (upsert_missing new_id k unit_type name s missing) (
          rw
            (upsert_found new_id' k unit_type' name'
              (record s { accounts = account_row new_id k unit_type name ∷ s.accounts }) _
              (find_key_new new_id k unit_type name s.accounts))
            refl)
      | inr (r, found) ↦
          rw (upsert_found new_id k unit_type name s r found)
            (rw (upsert_found new_id' k unit_type' name' s r found) refl)
    ]
