-- ===== src/Ledger/Consistent.antt =====
-- The invariant of the ledger's tables, which calls of `Post` keep: the cached balances are
-- the sums of the entries, the entries balance, and no idempotency key is used twice.
use payment_engine_v.Base.{
  ◌≢◌, sym, inr, ◌∙◌, inl, ℕ, ℤ, pos, ◌+ℤ◌, ◌-ℤ◌, int_laws, parts_of, false, String, none, List, [],
  ◌∷◌, ◌==◌, if◌then◌else◌, ◌≡◌, refl, arith, All,
}
use payment_engine_v.Db.{Answer, Result, ok, err}
use payment_engine_v.Ledger.Tables.{
  Entry, EntryRow, Transaction, TransactionRow, Tables, lookup_balance, or_zero,
}
use payment_engine_v.Ledger.Post.{
  LedgerError, has_key, delta, post, validate, commit_failed, already_posted,
}
use payment_engine_v.Ledger.Reconcile.{computed_balance, signed}
use payment_engine_v.Ledger.Balanced.{
  IsWellFormed, debit_of, credit_of, debits, credits, validate_iff,
}
use payment_engine_v.Ledger.Exact.{
  move_balance, add_exact, HasExactAmounts, HasExactBalances, add_entries-exact,
}
use payment_engine_v.Ledger.Atomic.{with_transaction, posted, PostEnd, post_end}

-- A stored row, read as the entry that it holds.
abbrev as_entry : EntryRow → Entry
as_entry r = record {
  account_id = r.account_id;
  direction = r.direction;
  amount = r.amount;
  asset_code = r.asset_code;
}

-- All debits of an asset less all its credits, over the whole ledger.
unfoldable pub asset_net : String → List EntryRow → ℤ
asset_net asset [] = pos 0
asset_net asset (r ∷ rows) =
    (debit_of asset (as_entry r) -ℤ credit_of asset (as_entry r)) +ℤ asset_net asset rows

-- No idempotency key stands on two transactions.
abbrev pub IsUnique : List TransactionRow → Type 0
IsUnique [] = Unit
IsUnique (t ∷ rows) = (has_key t.idempotency_key rows ≡ false) × IsUnique rows

-- No account has two cached balances (the primary key of ledger_balances).
abbrev pub IsKeyed : List (ℕ × ℤ) → Type 0
IsKeyed [] = Unit
IsKeyed ((a, _) ∷ rows) = (lookup_balance a rows ≡ none) × IsKeyed rows

pub record IsConsistent (s : Tables) : Type 0 where
  pub cached : (a : ℕ) → or_zero (lookup_balance a s.balances) ≡ computed_balance a s.entries
  pub balanced : (asset : String) → asset_net asset s.entries ≡ pos 0
  pub unique : IsUnique s.transactions
  pub keyed : IsKeyed s.balances

pub balance-move_balance :
    (a b : ℕ) (d : ℤ) (rows : List (ℕ × ℤ))
    → or_zero (lookup_balance a (move_balance b d rows))
      ≡ (if b == a then or_zero (lookup_balance a rows) +ℤ d else or_zero (lookup_balance a rows))
unfolding move_balance
balance-move_balance a b d [] = grind int_laws
balance-move_balance a b d ((k, v) ∷ rows) = ground (arith, balance-move_balance a b d rows)

lookup_none-move_balance :
    (a b : ℕ) (d : ℤ) (rows : List (ℕ × ℤ))
    → a ≢ b
    → lookup_balance a rows ≡ none
    → lookup_balance a (move_balance b d rows) ≡ none
unfolding move_balance
lookup_none-move_balance a b d [] ne h = ground arith
lookup_none-move_balance a b d ((k, v) ∷ rows) ne h =
    ground (arith, lookup_none-move_balance a b d rows ne)

move_balance-IsKeyed :
    (b : ℕ) (d : ℤ) (rows : List (ℕ × ℤ)) → IsKeyed rows → IsKeyed (move_balance b d rows)
unfolding move_balance
move_balance-IsKeyed b d [] h = (refl, tt)
move_balance-IsKeyed b d ((k, v) ∷ rows) h =
    ground (arith, move_balance-IsKeyed b d rows h.1, lookup_none-move_balance k b d rows)

add_exact-IsKeyed :
    (id : ℕ) (es : List Entry) (s : Tables)
    → IsKeyed s.balances
    → IsKeyed (add_exact id es s).balances
unfolding add_exact
add_exact-IsKeyed id [] s h = h
add_exact-IsKeyed id (e ∷ es) s h =
    add_exact-IsKeyed id es _ (move_balance-IsKeyed e.account_id (delta e) s.balances h)

-- What the entries of one transaction add to an account.
unfoldable pub account_net : ℕ → List Entry → ℤ
account_net a [] = pos 0
account_net a (e ∷ es) =
    (if e.account_id == a then signed e.direction e.amount else pos 0) +ℤ account_net a es

delta-signed : (e : Entry) → IsWellFormed e → delta e ≡ signed e.direction e.amount
delta-signed e w = ground arith

pub balance-add_exact :
    (a id : ℕ) (es : List Entry) (s : Tables)
    → All IsWellFormed es
    → or_zero (lookup_balance a (add_exact id es s).balances)
      ≡ or_zero (lookup_balance a s.balances) +ℤ account_net a es
unfolding add_exact account_net
balance-add_exact a id [] s w = omega int_laws
balance-add_exact a id (e ∷ es) s w =
    balance-add_exact a id es _ w.1
    ∙ grind (int_laws, balance-move_balance a e.account_id (delta e) s.balances, delta-signed e w.0)

pub computed_balance-add_exact :
    (a id : ℕ) (es : List Entry) (s : Tables)
    → computed_balance a (add_exact id es s).entries
      ≡ computed_balance a s.entries +ℤ account_net a es
unfolding add_exact account_net computed_balance
computed_balance-add_exact a id [] s = omega int_laws
computed_balance-add_exact a id (e ∷ es) s =
    omega (int_laws, parts_of (computed_balance-add_exact a id es _))

asset_net-add_exact :
    (asset : String) (id : ℕ) (es : List Entry) (s : Tables)
    → asset_net asset (add_exact id es s).entries
      ≡ asset_net asset s.entries +ℤ (debits asset es -ℤ credits asset es)
unfolding add_exact asset_net debits credits
asset_net-add_exact asset id [] s = omega int_laws
asset_net-add_exact asset id (e ∷ es) s =
    omega (int_laws, parts_of (asset_net-add_exact asset id es _))

pub transactions-add_exact :
    (id : ℕ) (es : List Entry) (s : Tables) → (add_exact id es s).transactions ≡ s.transactions
unfolding add_exact
transactions-add_exact id [] s = refl
transactions-add_exact id (e ∷ es) s = transactions-add_exact id es _

posted-IsConsistent :
    (id : ℕ) (txn : Transaction) (s : Tables)
    → validate txn.entries ≡ none
    → has_key txn.idempotency_key s.transactions ≡ false
    → HasExactAmounts txn.entries
    → HasExactBalances s.balances
    → IsConsistent s
    → IsConsistent (posted id txn s) × HasExactBalances (posted id txn s).balances
unfolding posted
posted-IsConsistent id txn s v fresh exact kept h =
    let (_, formed, even) = (validate_iff txn.entries).0 v in
    let (same, kept') = add_entries-exact id txn.entries (with_transaction id txn s) exact kept in
    rw same (
      record {
        cached = λ a.
            balance-add_exact a id txn.entries _ formed
            ∙ (rw (h.cached a) (sym (computed_balance-add_exact a id txn.entries _)));
        balanced = λ asset.
            asset_net-add_exact asset id txn.entries _
            ∙ omega (int_laws, parts_of (h.balanced asset), parts_of (even asset));
        unique = rw (transactions-add_exact id txn.entries _) (fresh, h.unique);
        keyed = add_exact-IsKeyed id txn.entries _ h.keyed;
      },
      kept',
    )

abbrev Kept : Tables → Type 0
Kept s = IsConsistent s × HasExactBalances s.balances

end-IsConsistent :
    (id : ℕ) (txn : Transaction) (s : Tables) (r : Result LedgerError ℕ × Tables × List Answer)
    → PostEnd id txn s r
    → HasExactAmounts txn.entries
    → Kept s
    → Kept r.1
end-IsConsistent id txn s (ok i, s', _) e x h =
    rw e.3 (posted-IsConsistent id txn s e.1 e.2 x h.1 h.0)
end-IsConsistent id txn s (err commit_failed, s', _) (inl e) x h = rw e h
end-IsConsistent id txn s (err commit_failed, s', _) (inr e) x h =
    rw e.2 (posted-IsConsistent id txn s e.0 e.1 x h.1 h.0)
end-IsConsistent id txn s (err already_posted, s', _) e x h = rw e.1 h
end-IsConsistent id txn s (err _, s', _) e x h = rw e h

-- Every call of `Post` whose amounts have at most 18 decimals, however the database answers, keeps
-- the ledger consistent, where the cached balances have at most 18 decimals too, as their column's
-- values have: each cached balance is the sum of the account's entries, debits equal credits for
-- each asset, and no idempotency key stands on two transactions; and the cached balances have at
-- most 18 decimals again.
pub post-IsConsistent :
    (id : ℕ) (txn : Transaction) (s : Tables) (answers : List Answer)
    → HasExactAmounts txn.entries
    → HasExactBalances s.balances
    → IsConsistent s
    → IsConsistent (post id txn s answers).1 × HasExactBalances (post id txn s answers).1.balances
post-IsConsistent id txn s answers exact kept h =
    end-IsConsistent id txn s (post id txn s answers) (post_end id txn s answers) exact (h, kept)
