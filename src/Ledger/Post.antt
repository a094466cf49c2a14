-- ===== src/Ledger/Post.antt =====
-- `Post`, `validateBalance`, `GetBalance` (internal/ledger/ledger.go).
use payment_engine_v.Base.{
  stored, ℕ, suc, ℤ, pos, ◌+ℤ◌, ◌-ℤ◌, leb_ℤ, eqb_ℤ, String, Bool, true, false, not, ◌||◌, Option,
  none, some, List, [], ◌∷◌, ◌==◌, if◌then◌else◌, str_eq,
}
use payment_engine_v.Db.{
  Action, Result, ok, err, Exit, commit, pure, fail, query, transaction, ◌>>=◌, ◌>>◌,
}
use payment_engine_v.Ledger.Tables.{
  Direction, debit, credit, other, Entry, Transaction, TransactionRow, EntryRow, Tables,
  lookup_balance, or_zero,
}

pub data Flaw : Type 0 where
  bad_direction bad_amount no_asset : Flaw

-- The errors of ledger.go: the package's own, and one for each call to the database.
pub data LedgerError : Type 0 where
  no_entries already_posted : LedgerError
  invalid_entry : ℕ → Flaw → LedgerError
  unbalanced : String → ℤ → LedgerError
  begin_failed insert_transaction_failed insert_entry_failed update_balance_failed commit_failed
        get_balance_failed account_failed :
      LedgerError

abbrev pub is_direction : Direction → Bool
is_direction debit = true
is_direction credit = true
is_direction (other _) = false

-- The checks of one entry, in the source's order; `e.Amount.Sign() <= 0` is `amount ≤ 0`.
unfoldable pub entry_flaw : Entry → Option Flaw
entry_flaw e =
    if not (is_direction e.direction)
    then some bad_direction
    else if leb_ℤ e.amount (pos 0)
    then some bad_amount
    else if str_eq e.asset_code ""
    then some no_asset
    else none

-- The validation loop from index `i`: the first flaw.
unfoldable pub validate_entries : ℕ → List Entry → Option LedgerError
validate_entries i [] = none
validate_entries i (e ∷ es) =
    let rest = validate_entries (suc i) es in
    elim (entry_flaw e) [ some flaw ↦ some (invalid_entry i flaw) | none ↦ rest ]

-- `sums[asset] = sum.Add(amount)` or `sum.Sub(amount)` on a Go map, a missing key reading as zero.
abbrev pub applied : Direction → ℤ → ℤ → ℤ
applied debit sum amount = sum +ℤ amount
applied credit sum amount = sum -ℤ amount
applied (other _) sum amount = sum -ℤ amount

unfoldable pub add_to_sum : Entry → List (String × ℤ) → List (String × ℤ)
add_to_sum e [] = (e.asset_code, applied e.direction (pos 0) e.amount) ∷ []
add_to_sum e ((k, v) ∷ sums) =
    if str_eq e.asset_code k
    then (k, applied e.direction v e.amount) ∷ sums
    else (k, v) ∷ add_to_sum e sums

unfoldable pub asset_sums : List (String × ℤ) → List Entry → List (String × ℤ)
asset_sums sums [] = sums
asset_sums sums (e ∷ es) = asset_sums (add_to_sum e sums) es

-- The range over `sums`: Go's order is arbitrary, here it is that of first use, which decides only
-- the asset that the error names.
unfoldable pub first_nonzero : List (String × ℤ) → Option LedgerError
first_nonzero [] = none
first_nonzero ((asset, sum) ∷ sums) =
    if not (eqb_ℤ sum (pos 0)) then some (unbalanced asset sum) else first_nonzero sums

unfoldable pub validate_balance : List Entry → Option LedgerError
validate_balance entries = first_nonzero (asset_sums [] entries)

-- INSERT … ON CONFLICT (idempotency_key) DO NOTHING RETURNING id: no row on a conflict.
unfoldable pub has_key : String → List TransactionRow → Bool
has_key key [] = false
has_key key (t ∷ rows) = str_eq t.idempotency_key key || has_key key rows

abbrev pub transaction_row : ℕ → Transaction → TransactionRow
transaction_row id txn = record {
  id = id;
  idempotency_key = txn.idempotency_key;
  txn_type = txn.txn_type;
  reference_type = txn.reference_type;
  reference_id = txn.reference_id;
  created_by = txn.created_by;
}

unfoldable pub insert_transaction : ℕ → Transaction → Tables → Result LedgerError ℕ × Tables
insert_transaction id txn s =
    if has_key txn.idempotency_key s.transactions
    then (err already_posted, s)
    else (ok id, record s { transactions = transaction_row id txn ∷ s.transactions })

abbrev pub entry_row : ℕ → Entry → EntryRow
entry_row txn_id e = record {
  transaction_id = txn_id;
  account_id = e.account_id;
  direction = e.direction;
  amount = stored e.amount;
  asset_code = e.asset_code;
}

-- INSERT INTO ledger_entries, whose column has CHECK (amount > 0).
unfoldable pub insert_entry : ℕ → Entry → Tables → Result LedgerError Unit × Tables
insert_entry txn_id e s =
    if leb_ℤ (stored e.amount) (pos 0)
    then (err insert_entry_failed, s)
    else (ok tt, record s { entries = entry_row txn_id e ∷ s.entries })

abbrev pub delta : Entry → ℤ
delta e = elim e.direction [ credit ↦ pos 0 -ℤ e.amount | debit ↦ e.amount | other _ ↦ e.amount ]

-- INSERT … ON CONFLICT (account_id) DO UPDATE SET balance = balance + delta: the column rounds the
-- sum, not the delta.
unfoldable pub add_balance : ℕ → ℤ → List (ℕ × ℤ) → List (ℕ × ℤ)
add_balance a d [] = (a, stored d) ∷ []
add_balance a d ((k, v) ∷ rows) =
    if a == k then (k, stored (v +ℤ d)) ∷ rows else (k, v) ∷ add_balance a d rows

unfoldable pub update_balance : Entry → Tables → Result LedgerError Unit × Tables
update_balance e s = (ok tt, record s { balances = add_balance e.account_id (delta e) s.balances })

unfoldable pub post_entries : ℕ → List Entry → Action LedgerError Tables Unit
unfolding ◌>>=◌
post_entries txn_id [] = pure tt
post_entries txn_id (e ∷ es) = do
  query insert_entry_failed (insert_entry txn_id e)
  query update_balance_failed (update_balance e)
  post_entries txn_id es

unfoldable pub post_body : ℕ → Transaction → Action LedgerError Tables (Exit ℕ)
unfolding ◌>>=◌
post_body new_id txn = do
  txn_id ← query insert_transaction_failed (insert_transaction new_id txn)
  post_entries txn_id txn.entries
  pure (commit txn_id)

-- The checks before the transaction begins.
unfoldable pub validate : List Entry → Option LedgerError
validate [] = some no_entries
validate (e ∷ es) = elim (validate_entries 0 (e ∷ es)) [
  | some x ↦ some x
  | none ↦ validate_balance (e ∷ es)
]

unfoldable pub checked :
    Option LedgerError → Action LedgerError Tables ℕ → Action LedgerError Tables ℕ
unfolding fail
checked (some x) m = fail x
checked none m = m

-- `Ledger.Post`; the database draws `new_id`.
unfoldable pub post : ℕ → Transaction → Action LedgerError Tables ℕ
unfolding checked
post new_id txn =
    checked (validate txn.entries) (transaction begin_failed commit_failed (post_body new_id txn))

-- `GetBalance`: no row is a zero balance.
unfoldable pub get_balance : ℕ → Action LedgerError Tables ℤ
unfolding query
get_balance a = query get_balance_failed (λ s. (ok (or_zero (lookup_balance a s.balances)), s))
