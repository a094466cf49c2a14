-- ===== src/Ledger/Atomic.antt =====
-- `Post` is all or nothing (internal/ledger/ledger.go), whatever the database answers.
use payment_engine_v.Base.{
  pos, stored, leb_ℤ, suc, ◌≢◌, ℕ, ℤ, String, true, false, none, some, inl, inr, ◌⊎◌, ◌≡◌, refl,
  arith, List, [], ◌∷◌, Bool-cases, Option-cases,
}
use payment_engine_v.Db.{
  ◌>>=◌, pure, later_answers, answered, next_answer, continue, close_tx, Answer, done, refused,
  lost, Result, ok, err, Exit, commit, rollback, transaction, ◌>>◌, begun,
}
use payment_engine_v.Ledger.Tables.{Entry, Transaction, Tables}
use payment_engine_v.Ledger.Post.{
  asset_sums, validate_entries, validate_balance, first_nonzero, insert_transaction_failed,
  LedgerError, commit_failed, begin_failed, already_posted, insert_entry_failed,
  update_balance_failed, insert_entry, update_balance, insert_transaction, post_entries, post_body,
  post, add_balance, delta, entry_row, transaction_row, validate, has_key,
}

-- The tables with all the entries of a transaction written and its balances moved.
unfoldable pub add_entries : ℕ → List Entry → Tables → Tables
add_entries id [] s = s
add_entries id (e ∷ es) s = add_entries id es (record s {
  entries = entry_row id e ∷ s.entries;
  balances = add_balance e.account_id (delta e) s.balances;
})

pub transactions-add_entries :
    (id : ℕ) (es : List Entry) (s : Tables) → (add_entries id es s).transactions ≡ s.transactions
unfolding add_entries
transactions-add_entries id [] s = refl
transactions-add_entries id (e ∷ es) s = transactions-add_entries id es _

unfoldable pub posted : ℕ → Transaction → Tables → Tables
posted id txn s =
    add_entries id txn.entries (record s { transactions = transaction_row id txn ∷ s.transactions })

abbrev EntriesEnd :
    ℕ → List Entry → Tables → Result LedgerError Unit × Tables × List Answer → Type 0
EntriesEnd id es s (ok _, s', _) = s' ≡ add_entries id es s
EntriesEnd id es s (err x, _, _) = (x ≡ insert_entry_failed) ⊎ (x ≡ update_balance_failed)

-- The first entry, where it is too small for its column, and where it is not.
post_entries_low :
    (id : ℕ) (e : Entry) (es : List Entry) (s : Tables) (answers : List Answer)
    → leb_ℤ (stored e.amount) (pos 0) ≡ true
    → EntriesEnd id (e ∷ es) s (post_entries id (e ∷ es) s answers)
unfolding post_entries insert_entry
post_entries_low id e es s [] low = rw low (inl refl)
post_entries_low id e es s (done ∷ answers) low = rw low (inl refl)
post_entries_low id e es s (refused ∷ answers) low = inl refl
post_entries_low id e es s (lost ∷ answers) low = inl refl

post_entries_step :
    (id : ℕ) (e : Entry) (es : List Entry) (s : Tables) (answers : List Answer)
    → leb_ℤ (stored e.amount) (pos 0) ≡ false
    → ((t : Tables) (rest : List Answer) → EntriesEnd id es t (post_entries id es t rest))
    → EntriesEnd id (e ∷ es) s (post_entries id (e ∷ es) s answers)
unfolding post_entries add_entries insert_entry update_balance
post_entries_step id e es s [] fine go = rw fine (go _ [])
post_entries_step id e es s (done ∷ []) fine go = rw fine (go _ [])
post_entries_step id e es s (done ∷ done ∷ answers) fine go = rw fine (go _ answers)
post_entries_step id e es s (done ∷ refused ∷ answers) fine go = rw fine (inr refl)
post_entries_step id e es s (done ∷ lost ∷ answers) fine go = rw fine (inr refl)
post_entries_step id e es s (refused ∷ answers) fine go = inl refl
post_entries_step id e es s (lost ∷ answers) fine go = inl refl

post_entries_end :
    (id : ℕ) (es : List Entry) (s : Tables) (answers : List Answer)
    → EntriesEnd id es s (post_entries id es s answers)
unfolding post_entries add_entries
post_entries_end id [] s answers = refl
post_entries_end id (e ∷ es) s answers = elim (Bool-cases (leb_ℤ (stored e.amount) (pos 0))) [
  | inl low ↦ post_entries_low id e es s answers low
  | inr fine ↦ post_entries_step id e es s answers fine (post_entries_end id es)
]

-- What a call of `Post` has done to the tables `s`, by its result.
abbrev pub PostEnd : ℕ → Transaction → Tables → Result LedgerError ℕ × Tables × List Answer → Type 0
PostEnd id txn s (ok i, s', _) =
    (i ≡ id)
    × (validate txn.entries ≡ none)
    × (has_key txn.idempotency_key s.transactions ≡ false)
    × (s' ≡ posted id txn s)
PostEnd id txn s (err commit_failed, s', _) =
    (s' ≡ s)
    ⊎ ((validate txn.entries ≡ none)
        × (has_key txn.idempotency_key s.transactions ≡ false)
        × (s' ≡ posted id txn s))
PostEnd id txn s (err already_posted, s', _) =
    (has_key txn.idempotency_key s.transactions ≡ true) × (s' ≡ s)
PostEnd id txn s (err _, s', _) = s' ≡ s

abbrev BodyEnd :
    ℕ → Transaction → Tables → Result LedgerError (Exit ℕ) × Tables × List Answer → Type 0
BodyEnd id txn s (ok (commit i), s', _) =
    (i ≡ id) × (has_key txn.idempotency_key s.transactions ≡ false) × (s' ≡ posted id txn s)
BodyEnd id txn s (ok (rollback _), _, _) = ⊥
BodyEnd id txn s (err commit_failed, _, _) = ⊥
BodyEnd id txn s (err already_posted, _, _) = has_key txn.idempotency_key s.transactions ≡ true
BodyEnd id txn s (err _, _, _) = Unit

-- The transaction's row, written.
abbrev pub with_transaction : ℕ → Transaction → Tables → Tables
with_transaction id txn s = record s { transactions = transaction_row id txn ∷ s.transactions }

body_after_entries :
    (id : ℕ) (txn : Transaction) (s : Tables) (r : Result LedgerError Unit × Tables × List Answer)
    → has_key txn.idempotency_key s.transactions ≡ false
    → EntriesEnd id txn.entries (with_transaction id txn s) r
    → BodyEnd id txn s (continue r (λ _. pure (commit id)))
unfolding posted pure
body_after_entries id txn s (ok _, s', rest) fresh e = (refl, fresh, e)
body_after_entries id txn s (err x, s', rest) fresh (inl p) = rw p tt
body_after_entries id txn s (err x, s', rest) fresh (inr p) = rw p tt

-- The body from the answer to its first statement on.
body_after_insert :
    (id : ℕ) (txn : Transaction) (s : Tables) (a : Answer) (rest : List Answer)
    → BodyEnd id txn s (
        continue
          (answered a insert_transaction_failed (insert_transaction id txn s) s rest)
          (λ i. post_entries i txn.entries >> pure (commit i)))
unfolding insert_transaction ◌>>=◌
body_after_insert id txn s done rest =
    elim (Bool-cases (has_key txn.idempotency_key s.transactions)) [
      | inl taken ↦ rw taken taken
      | inr fresh ↦ rw fresh (
          body_after_entries id txn s _ fresh
            (post_entries_end id txn.entries (with_transaction id txn s) rest))
    ]
body_after_insert id txn s refused rest = tt
body_after_insert id txn s lost rest = tt

post_body_end :
    (id : ℕ) (txn : Transaction) (s : Tables) (answers : List Answer)
    → BodyEnd id txn s (post_body id txn s answers)
unfolding post_body
post_body_end id txn s answers =
    body_after_insert id txn s (next_answer answers) (later_answers answers)

post_after_body :
    (id : ℕ) (txn : Transaction) (s : Tables)
    (r : Result LedgerError (Exit ℕ) × Tables × List Answer)
    → validate txn.entries ≡ none
    → BodyEnd id txn s r
    → PostEnd id txn s (close_tx commit_failed s r)
post_after_body id txn s (ok (commit i), s', []) v e = (e.0, v, e.1, e.2)
post_after_body id txn s (ok (commit i), s', done ∷ rest) v e = (e.0, v, e.1, e.2)
post_after_body id txn s (ok (commit i), s', refused ∷ rest) v e = inl refl
post_after_body id txn s (ok (commit i), s', lost ∷ rest) v e = inr (v, e.1, e.2)
post_after_body id txn s (ok (rollback i), s', rest) v e = absurd e
post_after_body id txn s (err commit_failed, s', rest) v e = absurd e
post_after_body id txn s (err already_posted, s', rest) v e = (e, refl)
post_after_body id txn s (err _, s', rest) v e = refl

first_nonzero_error : (sums : List (String × ℤ)) → first_nonzero sums ≢ some already_posted
unfolding first_nonzero
first_nonzero_error [] h = cc
first_nonzero_error ((k, v) ∷ sums) h = ground (arith, first_nonzero_error sums)

validate_entries_error : (i : ℕ) (es : List Entry) → validate_entries i es ≢ some already_posted
unfolding validate_entries
validate_entries_error i [] h = cc
validate_entries_error i (e ∷ es) h = ground (arith, validate_entries_error (suc i) es)

validate_error : (es : List Entry) → validate es ≢ some already_posted
unfolding validate validate_balance
validate_error [] h = cc
validate_error (e ∷ es) h =
    ground (arith, validate_entries_error 0 (e ∷ es), first_nonzero_error (asset_sums [] (e ∷ es)))

refused_end :
    (id : ℕ) (txn : Transaction) (s : Tables) (x : LedgerError) (answers : List Answer)
    → x ≢ already_posted
    → PostEnd id txn s (err x, s, answers)
refused_end id txn s commit_failed answers h = inl refl
refused_end id txn s already_posted answers h = absurd (h refl)
refused_end id txn s _ answers h = refl

post_after_begin :
    (id : ℕ) (txn : Transaction) (s : Tables) (a : Answer) (rest : List Answer)
    → validate txn.entries ≡ none
    → PostEnd id txn s (begun a begin_failed commit_failed (post_body id txn) s rest)
post_after_begin id txn s done rest v =
    post_after_body id txn s (post_body id txn s rest) v (post_body_end id txn s rest)
post_after_begin id txn s refused rest v = refl
post_after_begin id txn s lost rest v = refl

-- Whatever the database answers, `Post` is all or nothing: on success it has written exactly the
-- transaction, under the drawn id, after its checks passed and with a key that was free; an
-- `already_posted` means that the key was taken; and on any error the tables are as they were, but
-- for a commit whose answer was lost, where the whole transaction may be there.
pub post_end :
    (id : ℕ) (txn : Transaction) (s : Tables) (answers : List Answer)
    → PostEnd id txn s (post id txn s answers)
unfolding post transaction
post_end id txn s answers = elim (Option-cases (validate txn.entries)) [
  | inl sound ↦
      rw (sound, post)
        (post_after_begin id txn s (next_answer answers) (later_answers answers) sound)
  | inr (x, flawed) ↦
      rw (flawed, post)
        (refused_end id txn s x answers (λ p. validate_error txn.entries (rw p at flawed)))
]
