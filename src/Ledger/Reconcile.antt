-- ===== src/Ledger/Reconcile.antt =====
-- The reconciliation sweep and the discrepancies that it opens (internal/ledger/reconcile.go).
use payment_engine_v.Base.{
  ℕ, ℤ, pos, ◌+ℤ◌, ◌-ℤ◌, eqb_ℤ, Bool, true, false, ◌&&◌, ◌||◌, Option, none, some, String, List, [],
  ◌∷◌, ◌==◌, if◌then◌else◌,
}
use payment_engine_v.Db.{
  Action, Result, ok, err, Exit, commit, rollback, pure, query, transaction, ◌>>=◌, ◌>>◌,
}
use payment_engine_v.Ledger.Tables.{
  Direction, debit, credit, other, AccountRow, EntryRow, Discrepancy, Tables,
}

pub data ReconcileError : Type 0 where
  sweep_failed begin_failed check_open_failed insert_failed publish_failed commit_failed :
      ReconcileError
  discrepancy_already_resolved resolve_failed list_failed : ReconcileError

-- CASE WHEN direction = 'debit' THEN amount ELSE -amount END
abbrev pub signed : Direction → ℤ → ℤ
signed debit amount = amount
signed credit amount = pos 0 -ℤ amount
signed (other _) amount = pos 0 -ℤ amount

-- COALESCE(SUM(…), 0) over the entries of one account.
unfoldable pub computed_balance : ℕ → List EntryRow → ℤ
computed_balance a [] = pos 0
computed_balance a (e ∷ rows) =
    (if e.account_id == a then signed e.direction e.amount else pos 0) +ℤ computed_balance a rows

pub record Drift : Type 0 where
  pub account_id : ℕ
  pub tenant_id : Option ℕ
  pub cached : ℤ
  pub computed : ℤ

unfoldable pub find_account : ℕ → List AccountRow → Option AccountRow
find_account a [] = none
find_account a (r ∷ rows) = if r.id == a then some r else find_account a rows

-- A row of the sweep's query: the join with ledger_accounts, and the WHERE clause.
unfoldable pub drift_of : Tables → ℕ → ℤ → Option Drift
drift_of s a cached = elim (find_account a s.accounts) [
  | none ↦ none
  | some account ↦
      if eqb_ℤ cached (computed_balance a s.entries)
      then none
      else some (record {
        account_id = a;
        tenant_id = account.tenant_id;
        cached = cached;
        computed = computed_balance a s.entries;
      })
]

abbrev pub cons_some {ℓ} : {A : Type ℓ} → Option A → List A → List A
cons_some none xs = xs
cons_some (some x) xs = x ∷ xs

unfoldable pub drifted : Tables → List (ℕ × ℤ) → List Drift
drifted s [] = []
drifted s ((a, cached) ∷ rows) = cons_some (drift_of s a cached) (drifted s rows)

abbrev pub is_open : Option ℕ → Bool
is_open none = true
is_open (some _) = false

-- EXISTS (… WHERE account_id = $1 AND resolved_at IS NULL)
unfoldable pub has_open : ℕ → List Discrepancy → Bool
has_open a [] = false
has_open a (d ∷ rows) = (d.account_id == a && is_open d.resolved_at) || has_open a rows

abbrev pub opened : ℕ → ℕ → Drift → Discrepancy
opened id now d = record {
  id = id;
  account_id = d.account_id;
  cached_balance = d.cached;
  computed_balance = d.computed;
  drift_amount = d.cached -ℤ d.computed;
  detected_at = now;
  resolved_at = none;
  resolved_by = none;
  resolution_note = none;
}

abbrev pub insert_discrepancy : ℕ → ℕ → Drift → Tables → Tables
insert_discrepancy id now d s = record s { discrepancies = opened id now d ∷ s.discrepancies }

abbrev pub publish_drift : Drift → Tables → Tables
publish_drift d s = record s {
  outbox =
      record {
        aggregate_id = d.account_id;
        tenant_id = d.tenant_id;
        drift_amount = d.cached -ℤ d.computed;
      }
      ∷ s.outbox;
}

-- `if l.bus != nil { … Publish … }`
unfoldable pub publish : Bool → Drift → Action ReconcileError Tables Unit
unfolding ◌>>=◌
publish false d = pure tt
publish true d = query publish_failed (λ s. (ok tt, publish_drift d s))

unfoldable pub flag_body : Bool → ℕ → ℕ → Drift → Action ReconcileError Tables (Exit Unit)
unfolding ◌>>=◌
flag_body bus id now d = do
  already_open ← query check_open_failed (λ s. (ok (has_open d.account_id s.discrepancies), s))
  if already_open then pure (rollback tt) else do
    query insert_failed (λ s. (ok tt, insert_discrepancy id now d s))
    publish bus d
    pure (commit tt)

unfoldable pub flag_drift : Bool → ℕ → ℕ → Drift → Action ReconcileError Tables Unit
flag_drift bus id now d = transaction begin_failed commit_failed (flag_body bus id now d)

-- `draw a` is the id that the database draws for a discrepancy of account `a`.
unfoldable pub flag_all : Bool → (ℕ → ℕ) → ℕ → List Drift → Action ReconcileError Tables Unit
unfolding ◌>>=◌
flag_all bus draw now [] = pure tt
flag_all bus draw now (d ∷ ds) = do
  flag_drift bus (draw d.account_id) now d
  flag_all bus draw now ds

-- `sweepOnce`
unfoldable pub sweep_once : Bool → (ℕ → ℕ) → ℕ → Action ReconcileError Tables Unit
unfolding ◌>>=◌
sweep_once bus draw now = do
  rows ← query sweep_failed (λ s. (ok (drifted s s.balances), s))
  flag_all bus draw now rows

-- UPDATE … WHERE id = $1 AND resolved_at IS NULL RETURNING …, of which QueryRow scans the first row.
unfoldable pub resolve_rows :
    ℕ → ℕ → String → ℕ → List Discrepancy → Option Discrepancy × List Discrepancy
resolve_rows id admin note now [] = (none, [])
resolve_rows id admin note now (d ∷ rows) =
    let (found, rest) = resolve_rows id admin note now rows in
    let d' = record d {
      resolved_at = some now;
      resolved_by = some admin;
      resolution_note = some note;
    } in
    if d.id == id && is_open d.resolved_at then (some d', d' ∷ rest) else (found, d ∷ rest)

abbrev pub resolved_or : Option Discrepancy → Result ReconcileError Discrepancy
resolved_or none = err discrepancy_already_resolved
resolved_or (some d) = ok d

unfoldable pub resolve_statement :
    ℕ → ℕ → String → ℕ → Tables → Result ReconcileError Discrepancy × Tables
resolve_statement id admin note now s =
    let (found, rows) = resolve_rows id admin note now s.discrepancies in
    (resolved_or found, record s { discrepancies = rows })

-- `ResolveDiscrepancy`
unfoldable pub resolve_discrepancy : ℕ → ℕ → String → ℕ → Action ReconcileError Tables Discrepancy
unfolding query
resolve_discrepancy id admin note now = query resolve_failed (resolve_statement id admin note now)
