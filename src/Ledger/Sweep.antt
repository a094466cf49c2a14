-- ===== src/Ledger/Sweep.antt =====
-- What the reconciliation sweep flags (internal/ledger/reconcile.go): nothing in a consistent
-- ledger, else exactly the accounts that have drifted, and each of them once.
use payment_engine_v.Base.{
  ◌↔◌, ℕ, ℤ, Bool, true, false, ◌||◌, Option, none, some, List, [], ◌∷◌, ◌==◌, if◌then◌else◌, ◌≡◌,
  ◌≢◌, refl, sym, ◌∙◌, ap, arith, ◌⊎◌, inl, inr, Option-cases,
}
use payment_engine_v.Db.{
  continue, Action, Answer, done, refused, lost, Result, ok, err, transaction,
}
use payment_engine_v.Ledger.Tables.{Tables, lookup_balance, or_zero}
use payment_engine_v.Ledger.Reconcile.{
  find_account, ReconcileError, Drift, drift_of, drifted, has_open, insert_discrepancy,
  publish_drift, publish, flag_body, flag_drift, flag_all, sweep_once, computed_balance,
}
use payment_engine_v.Ledger.Consistent.{IsConsistent, IsKeyed}

-- The tables with a drift flagged.
abbrev flag : Bool → ℕ → ℕ → Drift → Tables → Tables
flag bus id now d s =
    if bus then publish_drift d (insert_discrepancy id now d s) else insert_discrepancy id now d s

-- A call for one drift flags it, or changes nothing.
flag_drift_end :
    (bus : Bool) (id now : ℕ) (d : Drift) (s : Tables) (answers : List Answer)
    → let s' = (flag_drift bus id now d s answers).1 in
      (s' ≡ s) ⊎ ((has_open d.account_id s.discrepancies ≡ false) × (s' ≡ flag bus id now d s))
unfolding flag_drift flag_body publish transaction
flag_drift_end bus id now d s answers = ground arith

-- What the sweep never touches.
pub record IsFramed (s s' : Tables) : Type 0 where
  pub accounts : s'.accounts ≡ s.accounts
  pub transactions : s'.transactions ≡ s.transactions
  pub entries : s'.entries ≡ s.entries
  pub balances : s'.balances ≡ s.balances

IsFramed-refl : (s : Tables) → IsFramed s s
IsFramed-refl s = record { accounts = refl; transactions = refl; entries = refl; balances = refl }

flag-IsFramed :
    (bus : Bool) (id now : ℕ) (d : Drift) (s : Tables) → IsFramed s (flag bus id now d s)
flag-IsFramed bus id now d s = ground arith

flag_drift-IsFramed :
    (bus : Bool) (id now : ℕ) (d : Drift) (s : Tables) (answers : List Answer)
    → IsFramed s (flag_drift bus id now d s answers).1
flag_drift-IsFramed bus id now d s answers = elim (flag_drift_end bus id now d s answers) [
  | inl same ↦ rw same (IsFramed-refl s)
  | inr (_, new) ↦ rw new (flag-IsFramed bus id now d s)
]

IsFramed-trans : {s t u : Tables} → IsFramed s t → IsFramed t u → IsFramed s u
IsFramed-trans f g = record {
  accounts = g.accounts ∙ f.accounts;
  transactions = g.transactions ∙ f.transactions;
  entries = g.entries ∙ f.entries;
  balances = g.balances ∙ f.balances;
}

-- A step that keeps the frame, then another.
IsFramed-continue :
    (s : Tables) (r : Result ReconcileError Unit × Tables × List Answer)
    (next : Action ReconcileError Tables Unit)
    → IsFramed s r.1
    → ((t : Tables) (rest : List Answer) → IsFramed t (next t rest).1)
    → IsFramed s (continue r (λ _. next)).1
IsFramed-continue s (ok _, t, rest) next f g = IsFramed-trans f (g t rest)
IsFramed-continue s (err _, t, rest) next f g = f

flag_all-IsFramed :
    (bus : Bool) (draw : ℕ → ℕ) (now : ℕ) (ds : List Drift) (s : Tables) (answers : List Answer)
    → IsFramed s (flag_all bus draw now ds s answers).1
unfolding flag_all
flag_all-IsFramed bus draw now [] s answers = record {
  accounts = refl;
  transactions = refl;
  entries = refl;
  balances = refl;
}
flag_all-IsFramed bus draw now (d ∷ ds) s answers =
    IsFramed-continue s (flag_drift bus (draw d.account_id) now d s answers)
      (flag_all bus draw now ds) (flag_drift-IsFramed bus (draw d.account_id) now d s answers)
      (flag_all-IsFramed bus draw now ds)

sweep_once-IsFramed :
    (bus : Bool) (draw : ℕ → ℕ) (now : ℕ) (s : Tables) (answers : List Answer)
    → IsFramed s (sweep_once bus draw now s answers).1
unfolding sweep_once
sweep_once-IsFramed bus draw now s [] = flag_all-IsFramed bus draw now (drifted s s.balances) s []
sweep_once-IsFramed bus draw now s (done ∷ rest) =
    flag_all-IsFramed bus draw now (drifted s s.balances) s rest
sweep_once-IsFramed bus draw now s (refused ∷ rest) = IsFramed-refl s
sweep_once-IsFramed bus draw now s (lost ∷ rest) = IsFramed-refl s

drift_of-none :
    (s : Tables) (a : ℕ) (v : ℤ) → v ≡ computed_balance a s.entries → drift_of s a v ≡ none
unfolding drift_of
drift_of-none s a v e = ground arith

drifted_none :
    (s : Tables) (rows : List (ℕ × ℤ))
    → IsKeyed rows
    → ((a : ℕ) (v : ℤ) → lookup_balance a rows ≡ some v → v ≡ computed_balance a s.entries)
    → drifted s rows ≡ []
unfolding drifted
drifted_none s [] k h = refl
drifted_none s ((a, v) ∷ rows) k h =
    rw (drift_of-none s a v (h a v (ground arith)))
      (drifted_none s rows k.1 (λ b w e. h b w (ground arith)))

consistent_drifted : (s : Tables) → IsConsistent s → drifted s s.balances ≡ []
consistent_drifted s h =
    drifted_none s s.balances h.keyed (λ a v e. sym (ap or_zero e) ∙ h.cached a)

-- In a consistent ledger a sweep flags nothing: whatever the database answers, no table changes.
pub sweep_once_quiet :
    (bus : Bool) (draw : ℕ → ℕ) (now : ℕ) (s : Tables) (answers : List Answer)
    → IsConsistent s
    → (sweep_once bus draw now s answers).1 ≡ s
unfolding sweep_once flag_all
sweep_once_quiet bus draw now s [] h = rw (consistent_drifted s h) refl
sweep_once_quiet bus draw now s (done ∷ rest) h = rw (consistent_drifted s h) refl
sweep_once_quiet bus draw now s (refused ∷ rest) h = refl
sweep_once_quiet bus draw now s (lost ∷ rest) h = refl

-- Whatever the database answers, a sweep changes no account, transaction, entry or balance: it
-- flags and never repairs.
pub sweep_once_frame :
    (bus : Bool) (draw : ℕ → ℕ) (now : ℕ) (s : Tables) (answers : List Answer)
    → let s' = (sweep_once bus draw now s answers).1 in
      (s'.accounts ≡ s.accounts)
      × (s'.transactions ≡ s.transactions)
      × (s'.entries ≡ s.entries)
      × (s'.balances ≡ s.balances)
sweep_once_frame bus draw now s answers =
    let f = sweep_once-IsFramed bus draw now s answers in
    (f.accounts, f.transactions, f.entries, f.balances)

-- The tables after every drift of a list has been flagged.
unfoldable flagged : Bool → (ℕ → ℕ) → ℕ → List Drift → Tables → Tables
flagged bus draw now [] s = s
flagged bus draw now (d ∷ ds) s =
    flagged bus draw now ds
      (if has_open d.account_id s.discrepancies then s else flag bus (draw d.account_id) now d s)

flag_drift_done :
    (bus : Bool) (id now : ℕ) (d : Drift) (s : Tables)
    → flag_drift bus id now d s []
      ≡ (ok tt, if has_open d.account_id s.discrepancies then s else flag bus id now d s, [])
unfolding flag_drift flag_body publish transaction
flag_drift_done bus id now d s = ground arith

flag_all_done :
    (bus : Bool) (draw : ℕ → ℕ) (now : ℕ) (ds : List Drift) (s : Tables)
    → flag_all bus draw now ds s [] ≡ (ok tt, flagged bus draw now ds s, [])
unfolding flag_all flagged
flag_all_done bus draw now [] s = refl
flag_all_done bus draw now (d ∷ ds) s =
    rw (flag_drift_done bus (draw d.account_id) now d s) (flag_all_done bus draw now ds _)

abbrev names : ℕ → List Drift → Bool
names a [] = false
names a (d ∷ ds) = (d.account_id == a) || names a ds

has_open-flagged :
    (bus : Bool) (draw : ℕ → ℕ) (now a : ℕ) (ds : List Drift) (s : Tables)
    → has_open a (flagged bus draw now ds s).discrepancies
      ≡ (has_open a s.discrepancies || names a ds)
unfolding flagged has_open
has_open-flagged bus draw now a [] s = ground arith
has_open-flagged bus draw now a (d ∷ ds) s = ground (
  arith,
  has_open-flagged bus draw now a ds
      (if has_open d.account_id s.discrepancies then s else flag bus (draw d.account_id) now d s),
)

-- Whether an account has drifted: it has a row of accounts and a cached balance, which is not the
-- sum of its entries.
abbrev drift_at : Tables → ℕ → Option ℤ → Bool
drift_at s a none = false
drift_at s a (some v) = elim (drift_of s a v) [ none ↦ false | some _ ↦ true ]

names-drifted :
    (s : Tables) (a : ℕ) (rows : List (ℕ × ℤ))
    → IsKeyed rows
    → names a (drifted s rows) ≡ drift_at s a (lookup_balance a rows)
unfolding drifted drift_of
names-drifted s a [] k = refl
names-drifted s a ((b, v) ∷ rows) k = ground (arith, names-drifted s a rows k.1)

-- An account whose cached balance is not the sum of its entries.
abbrev pub IsDrifted : Tables → ℕ → Type 0
IsDrifted s a =
    (v : ℤ) × (lookup_balance a s.balances ≡ some v)
    × (v ≢ computed_balance a s.entries)
    × (find_account a s.accounts ≢ none)

drift_at_iff :
    (s : Tables) (a : ℕ) → (drift_at s a (lookup_balance a s.balances) ≡ true) ↔ IsDrifted s a
unfolding drift_of
drift_at_iff s a = elim (Option-cases (lookup_balance a s.balances)) [
  | inl missing ↦ rw missing (λ h. cc, λ h. cc (h.1))
  | inr (v, found) ↦
      rw found (λ h. (v, refl, λ e. ground arith, λ e. ground arith), λ h. ground arith)
]

or_true : (b : Bool) → (b || true) ≡ true
or_true true = refl
or_true false = refl

or_iff : {P : Type 0} (b c : Bool) → (c ≡ true) ↔ P → ((b || c) ≡ true) ↔ ((b ≡ true) ⊎ P)
or_iff true c h = (λ _. inl refl, λ _. refl)
or_iff false c h = (λ e. inr (h.0 e), λ d. elim d [ inl e ↦ cc | inr p ↦ h.1 p ])

-- Where the database answers every call, a sweep leaves an open discrepancy for exactly the
-- accounts that had one before and those whose cached balance is not the sum of their entries.
pub sweep_once_flags :
    (bus : Bool) (draw : ℕ → ℕ) (now a : ℕ) (s : Tables)
    → IsKeyed s.balances
    → (has_open a (sweep_once bus draw now s []).1.discrepancies ≡ true)
      ↔ ((has_open a s.discrepancies ≡ true) ⊎ IsDrifted s a)
unfolding sweep_once
sweep_once_flags bus draw now a s k = rw (flag_all_done bus draw now (drifted s s.balances) s) (
    rw (has_open-flagged bus draw now a (drifted s s.balances) s, names-drifted s a s.balances k)
      (or_iff (has_open a s.discrepancies) _ (drift_at_iff s a)))

drifted-IsFramed :
    (s t : Tables) (rows : List (ℕ × ℤ)) → IsFramed s t → drifted t rows ≡ drifted s rows
unfolding drifted drift_of
drifted-IsFramed s t [] f = refl
drifted-IsFramed s t ((a, v) ∷ rows) f =
    rw (f.accounts, f.entries, drifted-IsFramed s t rows f) refl

flagged_open :
    (bus : Bool) (draw : ℕ → ℕ) (now : ℕ) (ds : List Drift) (s : Tables)
    → ((a : ℕ) → names a ds ≡ true → has_open a s.discrepancies ≡ true)
    → flagged bus draw now ds s ≡ s
unfolding flagged
flagged_open bus draw now [] s h = refl
flagged_open bus draw now (d ∷ ds) s h =
    rw (h d.account_id (ground arith)) (flagged_open bus draw now ds s (λ a n. h a (ground arith)))

sweep_once_open :
    (bus : Bool) (draw : ℕ → ℕ) (now : ℕ) (s t : Tables)
    → IsFramed s t
    → ((a : ℕ) → names a (drifted s s.balances) ≡ true → has_open a t.discrepancies ≡ true)
    → (sweep_once bus draw now t []).1 ≡ t
unfolding sweep_once
sweep_once_open bus draw now s t f h =
    let same : drifted t t.balances ≡ drifted s s.balances =
      ap (drifted t) f.balances ∙ drifted-IsFramed s t s.balances f in
    rw (same, flag_all_done bus draw now (drifted s s.balances) t)
      (flagged_open bus draw now (drifted s s.balances) t h)

-- Where the database answers every call, a second sweep changes nothing: no drift is flagged, and
-- no event published, twice.
pub sweep_once_again :
    (bus : Bool) (draw draw' : ℕ → ℕ) (now now' : ℕ) (s : Tables)
    → let s' = (sweep_once bus draw now s []).1 in (sweep_once bus draw' now' s' []).1 ≡ s'
sweep_once_again bus draw draw' now now' s =
    sweep_once_open bus draw' now' s (sweep_once bus draw now s []).1
      (sweep_once-IsFramed bus draw now s [])
      (unfold sweep_once in
        λ a n.
          rw (flag_all_done bus draw now (drifted s s.balances) s)
            (has_open-flagged bus draw now a (drifted s s.balances) s ∙ rw n (or_true _)))
