-- ===== src/Ledger/Exact.antt =====
-- Postings whose amounts have at most 18 decimals (internal/ledger/ledger.go): the columns keep such
-- amounts as they are, so that entries and balances are written without rounding.
use payment_engine_v.Base.{
  arith, ◌-ℤ◌, pos, ◌⊎◌, [], refl, IsExact-neg, inr, inl, ◌+ℤ◌, Bool-cases, ◌==◌, IsExact-sum,
  stored_lem, if◌then◌else◌, ◌≡◌, ◌∷◌, All, ℤ, List, IsExact, ℕ,
}
use payment_engine_v.Ledger.Tables.{Entry, EntryRow, Tables}
use payment_engine_v.Ledger.Post.{add_balance, delta}
use payment_engine_v.Ledger.Atomic.{add_entries}

abbrev pub HasExactAmounts : List Entry → Type 0
HasExactAmounts es = All (λ e. IsExact e.amount) es

abbrev pub HasExactBalances : List (ℕ × ℤ) → Type 0
HasExactBalances rows = All (λ r. IsExact r.1) rows

-- The row and the balance without rounding.
abbrev pub exact_row : ℕ → Entry → EntryRow
exact_row id e = record {
  transaction_id = id;
  account_id = e.account_id;
  direction = e.direction;
  amount = e.amount;
  asset_code = e.asset_code;
}

unfoldable pub move_balance : ℕ → ℤ → List (ℕ × ℤ) → List (ℕ × ℤ)
move_balance a d [] = (a, d) ∷ []
move_balance a d ((k, v) ∷ rows) =
    if a == k then (k, v +ℤ d) ∷ rows else (k, v) ∷ move_balance a d rows

unfoldable pub add_exact : ℕ → List Entry → Tables → Tables
add_exact id [] s = s
add_exact id (e ∷ es) s = add_exact id es (record s {
  entries = exact_row id e ∷ s.entries;
  balances = move_balance e.account_id (delta e) s.balances;
})

delta-cases : (e : Entry) → (delta e ≡ e.amount) ⊎ (delta e ≡ pos 0 -ℤ e.amount)
delta-cases e = ground arith

IsExact-delta : (e : Entry) → IsExact e.amount → IsExact (delta e)
IsExact-delta e h = elim (delta-cases e) [ inl p ↦ rw p h | inr p ↦ rw p (IsExact-neg e.amount h) ]

add_balance-exact :
    (a : ℕ) (d : ℤ) (rows : List (ℕ × ℤ))
    → IsExact d
    → HasExactBalances rows
    → (add_balance a d rows ≡ move_balance a d rows) × HasExactBalances (move_balance a d rows)
unfolding add_balance move_balance
add_balance-exact a d [] h k = (rw (stored_lem d h) refl, (h, tt))
add_balance-exact a d ((b, v) ∷ rows) h k =
    let sum = IsExact-sum v d k.0 h in
    let (same, kept) = add_balance-exact a d rows h k.1 in
    elim (Bool-cases (a == b)) [
      | inl p ↦ rw p (rw (stored_lem (v +ℤ d) sum) refl, (sum, k.1))
      | inr q ↦ rw q (rw same refl, (k.0, kept))
    ]

pub add_entries-exact :
    (id : ℕ) (es : List Entry) (s : Tables)
    → HasExactAmounts es
    → HasExactBalances s.balances
    → (add_entries id es s ≡ add_exact id es s) × HasExactBalances (add_exact id es s).balances
unfolding add_entries add_exact
add_entries-exact id [] s h k = (refl, k)
add_entries-exact id (e ∷ es) s h k =
    let (same, kept) =
      add_balance-exact e.account_id (delta e) s.balances (IsExact-delta e h.0) k in
    rw (stored_lem e.amount h.0, same) (add_entries-exact id es _ h.1 kept)
