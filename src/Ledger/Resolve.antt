-- ===== src/Ledger/Resolve.antt =====
-- Closing a discrepancy (internal/ledger/reconcile.go, `ResolveDiscrepancy`): a compare-and-set on
-- an open row.
use payment_engine_v.Base.{
  inr, inl, Bool-cases, some, ℕ, Bool, true, false, ◌&&◌, ◌||◌, none, String, List, [], ◌∷◌, ◌==◌,
  ◌≡◌, ◌↔◌, refl, arith, if◌then◌else◌,
}
use payment_engine_v.Db.{ok, err}
use payment_engine_v.Ledger.Tables.{Discrepancy, Tables}
use payment_engine_v.Ledger.Reconcile.{
  discrepancy_already_resolved, is_open, resolve_rows, resolve_statement, resolve_discrepancy,
}

-- An open row with the id.
abbrev pub is_open_id : ℕ → List Discrepancy → Bool
is_open_id id [] = false
is_open_id id (d ∷ rows) = (d.id == id && is_open d.resolved_at) || is_open_id id rows

-- The statement finds a row exactly if one is open, and leaves none open.
resolve_rows_lem :
    (id admin : ℕ) (note : String) (now : ℕ) (rows : List Discrepancy)
    → let (found, rest) = resolve_rows id admin note now rows in
      (is_open_id id rest ≡ false)
      × ((found ≡ none) ↔ (is_open_id id rows ≡ false))
      × (is_open_id id rows ≡ false → rest ≡ rows)
unfolding resolve_rows
resolve_rows_lem id admin note now [] = (refl, (λ _. refl, λ _. refl), λ _. refl)
resolve_rows_lem id admin note now (d ∷ rows) =
    ground (arith, resolve_rows_lem id admin note now rows)

-- What the admin's review has written on a row.
pub record IsResolved (id admin : ℕ) (note : String) (now : ℕ) (d : Discrepancy) : Type 0 where
  pub same : d.id ≡ id
  pub at : d.resolved_at ≡ some now
  pub by : d.resolved_by ≡ some admin
  pub noted : d.resolution_note ≡ some note

resolve_rows-open :
    (id admin : ℕ) (note : String) (now : ℕ) (rows : List Discrepancy)
    → is_open_id id rows ≡ true
    → (d : Discrepancy) × ((resolve_rows id admin note now rows).0 ≡ some d)
      × IsResolved id admin note now d
unfolding resolve_rows
resolve_rows-open id admin note now [] h = cc
resolve_rows-open id admin note now (d ∷ rows) h =
    elim (Bool-cases (d.id == id && is_open d.resolved_at)) [
      | inl p ↦ (
        record d { resolved_at = some now; resolved_by = some admin; resolution_note = some note },
        rw p refl,
        record { same = ground (arith, p); at = refl; by = refl; noted = refl },
      )
      | inr q ↦
          let (d', p, closed) =
            resolve_rows-open id admin note now rows (rw (is_open_id, q) at h) in
          (d', rw q p, closed)
    ]

-- The other rows stay: those of another id, and those that were closed.
abbrev pub open_others : ℕ → List Discrepancy → List Discrepancy
open_others id [] = []
open_others id (d ∷ rows) = if d.id == id then open_others id rows else d ∷ open_others id rows

open_others-resolve_rows :
    (id admin : ℕ) (note : String) (now : ℕ) (rows : List Discrepancy)
    → open_others id (resolve_rows id admin note now rows).1 ≡ open_others id rows
unfolding resolve_rows
open_others-resolve_rows id admin note now [] = refl
open_others-resolve_rows id admin note now (d ∷ rows) =
    ground (arith, open_others-resolve_rows id admin note now rows)

-- Where the database answers, closing a discrepancy that is not open is refused, and changes
-- nothing.
pub resolve_discrepancy_refused :
    (id admin : ℕ) (note : String) (now : ℕ) (s : Tables)
    → is_open_id id s.discrepancies ≡ false
    → resolve_discrepancy id admin note now s [] ≡ (err discrepancy_already_resolved, s, [])
unfolding resolve_discrepancy resolve_statement
resolve_discrepancy_refused id admin note now s shut =
    let (_, found, same) = resolve_rows_lem id admin note now s.discrepancies in
    rw (found.1 shut, same shut) refl

-- Where the database answers, closing an open discrepancy succeeds and returns a row of that id,
-- resolved now, by the admin and with the note; from then on every attempt to close it is refused;
-- and no row of another id, no balance and no entry has changed.
pub resolve_discrepancy_once :
    (id admin admin' : ℕ) (note note' : String) (now now' : ℕ) (s : Tables)
    → is_open_id id s.discrepancies ≡ true
    → let (r, s', _) = resolve_discrepancy id admin note now s [] in
      ((d : Discrepancy) × (r ≡ ok d) × IsResolved id admin note now d)
      × (resolve_discrepancy id admin' note' now' s' []
          ≡ (err discrepancy_already_resolved, s', []))
      × (open_others id s'.discrepancies ≡ open_others id s.discrepancies)
      × (s'.balances ≡ s.balances)
      × (s'.entries ≡ s.entries)
resolve_discrepancy_once id admin admin' note note' now now' s open' =
    let (shut, found, _) = resolve_rows_lem id admin note now s.discrepancies in
    let (d, p, closed) = resolve_rows-open id admin note now s.discrepancies open' in
    (
      unfold resolve_discrepancy resolve_statement in (d, rw p refl, closed),
      resolve_discrepancy_refused id admin' note' now' _
          (unfold resolve_discrepancy resolve_statement in shut),
      unfold resolve_discrepancy resolve_statement in
          open_others-resolve_rows id admin note now s.discrepancies,
      unfold resolve_discrepancy resolve_statement in refl,
      unfold resolve_discrepancy resolve_statement in refl,
    )
