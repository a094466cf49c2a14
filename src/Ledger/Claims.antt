-- ===== src/Ledger/Claims.antt =====
-- The idempotency key as a claim (internal/ledger/ledger.go, `ErrAlreadyPosted`): a call with a free
-- key goes through, and of any calls with one key at most one does.
use payment_engine_v.Base.{
  ◌≤ℤ◌, ℤ, pos, stored, leb_ℤ, All, ◌∙◌, ◌&&◌, ℕ, ◌+◌, ◌≤◌, Bool, true, false, ◌||◌, String, none,
  List, [], ◌∷◌, ◌≡◌, refl, arith, str_eq, eq_iff, eq_refl, if◌then◌else◌, inl, inr, ◌+ℤ◌,
}
use payment_engine_v.Db.{Answer, Result, ok, err, transaction}
use payment_engine_v.Ledger.Tables.{Entry, Transaction, Tables, lookup_balance, or_zero}
use payment_engine_v.Ledger.Post.{
  LedgerError, already_posted, commit_failed, has_key, post, post_body, post_entries, insert_entry,
  update_balance, insert_transaction, validate,
}
use payment_engine_v.Ledger.Atomic.{
  with_transaction, transactions-add_entries, add_entries, posted, PostEnd, post_end,
}
use payment_engine_v.Ledger.Exact.{HasExactAmounts, HasExactBalances, add_entries-exact}
use payment_engine_v.Ledger.Balanced.{validate_iff}
use payment_engine_v.Ledger.Consistent.{account_net, balance-add_exact}

-- The columns do not round the amounts to zero.
abbrev pub HasColumnAmounts : List Entry → Type 0
HasColumnAmounts es = All (λ e. pos 1 ≤ℤ stored e.amount) es

column_check : (v : ℤ) → pos 1 ≤ℤ v → leb_ℤ v (pos 0) ≡ false
column_check v h = ground (arith, h)

post_entries_done :
    (id : ℕ) (es : List Entry) (s : Tables)
    → HasColumnAmounts es
    → post_entries id es s [] ≡ (ok tt, add_entries id es s, [])
unfolding post_entries add_entries insert_entry update_balance
post_entries_done id [] s w = refl
post_entries_done id (e ∷ es) s w =
    rw (column_check (stored e.amount) w.0) (post_entries_done id es _ w.1)

-- Where the database answers every call, a transaction whose entries pass the checks, whose amounts
-- are not rounded to zero by their column and whose key is free is posted: `Post` returns its id,
-- and its rows and balances are written.
pub post_done :
    (id : ℕ) (txn : Transaction) (s : Tables)
    → validate txn.entries ≡ none
    → HasColumnAmounts txn.entries
    → has_key txn.idempotency_key s.transactions ≡ false
    → post id txn s [] ≡ (ok id, posted id txn s, [])
unfolding post post_body insert_transaction posted transaction
post_done id txn s v w fresh =
    rw (v, post) (rw fresh (rw (post_entries_done id txn.entries _ w) refl))

-- With a taken key it is refused, and nothing is written.
pub post_taken :
    (id : ℕ) (txn : Transaction) (s : Tables)
    → validate txn.entries ≡ none
    → has_key txn.idempotency_key s.transactions ≡ true
    → post id txn s [] ≡ (err already_posted, s, [])
unfolding post post_body insert_transaction transaction
post_taken id txn s v taken = rw (v, post) (rw taken refl)

-- A call of `Post`: the id drawn, the transaction, and what the database answers.
pub record Call : Type 0 where
  pub id : ℕ
  pub txn : Transaction
  pub answers : List Answer

abbrev pub is_ok : {A : Type 0} → Result LedgerError A → Bool
is_ok (ok _) = true
is_ok (err _) = false

-- How many of the calls with the key, made one after the other, succeed.
unfoldable pub wins : String → List Call → Tables → ℕ
wins key [] s = 0
wins key (c ∷ calls) s =
    let (r, s', _) = post c.id c.txn s c.answers in
    (if str_eq c.txn.idempotency_key key && is_ok r then 1 else 0) + wins key calls s'

has_key-posted :
    (key : String) (id : ℕ) (txn : Transaction) (s : Tables)
    → has_key key (posted id txn s).transactions
      ≡ str_eq txn.idempotency_key key || has_key key s.transactions
unfolding posted has_key
has_key-posted key id txn s = rw (transactions-add_entries id txn.entries _) refl

-- A key once used stays used.
pub keeps_key :
    (key : String) (id : ℕ) (txn : Transaction) (s : Tables)
    (r : Result LedgerError ℕ × Tables × List Answer)
    → PostEnd id txn s r
    → has_key key s.transactions ≡ true
    → has_key key r.1.transactions ≡ true
keeps_key key id txn s (ok i, s', _) e h = rw e.3 (has_key-posted key id txn s ∙ ground arith)
keeps_key key id txn s (err commit_failed, s', _) (inl e) h = rw e h
keeps_key key id txn s (err commit_failed, s', _) (inr e) h =
    rw e.2 (has_key-posted key id txn s ∙ ground arith)
keeps_key key id txn s (err already_posted, s', _) e h = rw e.1 h
keeps_key key id txn s (err _, s', _) e h = rw e h

-- A success found the key free and leaves it used.
pub takes_key :
    (id : ℕ) (txn : Transaction) (s : Tables) (r : Result LedgerError ℕ × Tables × List Answer)
    → PostEnd id txn s r
    → is_ok r.0 ≡ true
    → (has_key txn.idempotency_key s.transactions ≡ false)
      × (has_key txn.idempotency_key r.1.transactions ≡ true)
takes_key id txn s (ok i, s', _) e w = (
  e.2,
  rw e.3 (has_key-posted txn.idempotency_key id txn s ∙ rw (eq_refl txn.idempotency_key) refl),
)
takes_key id txn s (err _, s', _) e w = cc

-- However many calls of `Post` are made with one idempotency key, by whatever callers and with
-- whatever answers of the database, at most one of them succeeds, and none once the key is used.
pub wins-le :
    (key : String) (calls : List Call) (s : Tables)
    → wins key calls s ≤ (if has_key key s.transactions then 0 else 1)
unfolding wins
wins-le key [] s = ground arith
wins-le key (c ∷ calls) s =
    let e = post_end c.id c.txn s c.answers in
    ground (
      arith,
      wins-le key calls (post c.id c.txn s c.answers).1,
      keeps_key key c.id c.txn s (post c.id c.txn s c.answers) e,
      takes_key c.id c.txn s (post c.id c.txn s c.answers) e,
      eq_iff c.txn.idempotency_key key,
    )

ok_posted :
    (id : ℕ) (txn : Transaction) (s : Tables) (r : Result LedgerError ℕ × Tables × List Answer)
    → PostEnd id txn s r
    → is_ok r.0 ≡ true
    → (validate txn.entries ≡ none) × (r.1 ≡ posted id txn s)
ok_posted id txn s (ok i, s', _) e w = (e.1, e.3)
ok_posted id txn s (err _, s', _) e w = cc

-- Where the amounts of the transaction and the cached balances have at most 18 decimals, a
-- successful `Post` moves the cached balance of every account by the debits less the credits of its
-- entries in the transaction, so that accounts without an entry keep theirs.
pub balance-post :
    (a id : ℕ) (txn : Transaction) (s : Tables) (answers : List Answer)
    → HasExactAmounts txn.entries
    → HasExactBalances s.balances
    → is_ok (post id txn s answers).0 ≡ true
    → or_zero (lookup_balance a (post id txn s answers).1.balances)
      ≡ or_zero (lookup_balance a s.balances) +ℤ account_net a txn.entries
unfolding posted
balance-post a id txn s answers exact kept w =
    let (v, e) = ok_posted id txn s (post id txn s answers) (post_end id txn s answers) w in
    let (same, _) = add_entries-exact id txn.entries (with_transaction id txn s) exact kept in
    rw (e, same) (balance-add_exact a id txn.entries _ ((validate_iff txn.entries).0 v).1)
