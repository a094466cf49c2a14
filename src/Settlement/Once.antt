-- ===== src/Settlement/Once.antt =====
-- What any history of internal/settlement keeps: operations, callbacks, retries and ticks of its
-- workers, with the other modules' work in between.
use payment_engine_v.Base.{◌≤◌, List, [], ◌∷◌, ◌≡◌, refl, sym, true, ◌⊎◌, inl, inr}
use payment_engine_v.Session.Evolves.{Grown}
use payment_engine_v.Settlement.Tables.{Settlement, Tables}
use payment_engine_v.Settlement.Diagram.{is_paid_out, paid_out_stays, paid_rank, paid_rank-le}
use payment_engine_v.Settlement.Advance.{SameOrder, IsAdvance, Advanced, nil, keep, added}
use payment_engine_v.Settlement.Sound.{IsPaidOnce}
use payment_engine_v.Settlement.Runs.{Step, run, run-Sound}

-- After any history, with any answers of the database, of the providers and of the other modules:
-- if no two requests to the providers had one idempotency key and the ledger had a transaction
-- under the key of each, both are still so. No provider is asked twice for one attempt's payout.
pub run-IsPaidOnce : (steps : List Step) (s : Tables) → IsPaidOnce s → IsPaidOnce (run steps s)
run-IsPaidOnce steps s = (run-Sound steps s).once

-- After any history, the sessions are a later state of the sessions before it: each is stored, with
-- the terms it was created with, at a status to which a path of Session/Diagram.antt leads, and the
-- rows added since began in `screening`. The payout pipeline moves sessions only as that machine
-- says, which has no way from `reversed` back to `settling`, although docs/ARCHITECTURE.md (section 9)
-- gives one to the operators.
pub run-Grown :
    (steps : List Step) (s : Tables) → Grown s.sessions.sessions (run steps s).sessions.sessions
run-Grown steps s = (run-Sound steps s).sessions

abbrev pub Filed : Settlement → List Settlement → Type 0
Filed x [] = ⊥
Filed x (y ∷ ys) = (y ≡ x) ⊎ Filed x ys

IsAdvance-of :
    {xs ys : List Settlement} (x : Settlement)
    → Advanced xs ys
    → Filed x xs
    → (y : Settlement) × Filed y ys × IsAdvance x y
IsAdvance-of x nil i = elim i [ ]
IsAdvance-of x (keep {y = y} p g) (inl e) = (y, inl refl, rw (sym e) p)
IsAdvance-of x (keep p g) (inr i) = let (y, at, q) = IsAdvance-of x g i in (y, inr at, q)
IsAdvance-of x (added b g) i = let (y, at, q) = IsAdvance-of x g i in (y, inr at, q)

-- After any history, a settlement that was paid out (`settled`, `reversed` or `reversal_resolved`) is
-- still stored, for the same session, tenant and corridor, and at the same of these three statuses
-- or a later one: nothing queues it, dispatches it or, once it is reversed, settles it again. So no
-- operation takes the way from `reversed` back to `settling` that docs/ARCHITECTURE.md (section 9)
-- gives to the operators.
pub paid_out_for_life :
    (steps : List Step) (s : Tables) (x : Settlement)
    → Filed x s.settlements
    → is_paid_out x.status ≡ true
    → (y : Settlement) × Filed y (run steps s).settlements
      × SameOrder x y
      × (is_paid_out y.status ≡ true)
      × (paid_rank x.status ≤ paid_rank y.status)
paid_out_for_life steps s x i h =
    let (y, at, q) = IsAdvance-of x (run-Sound steps s).settlements i in
    (y, at, q.order, paid_out_stays q.moved h, paid_rank-le q.moved)
