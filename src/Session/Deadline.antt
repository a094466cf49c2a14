-- ===== src/Session/Deadline.antt =====
-- The deadline of an offer (internal/session/session.go, `transitionToPending`).
use payment_engine_v.Base.{
  ℕ, ℤ, Option, none, some, ◌≡◌, refl, arith, ◌+◌, ◌≤◌, ◌⊎◌, inl, inr, Bool-cases, ltb,
}
use payment_engine_v.Session.Tables.{Instructions, session_ttl}
use payment_engine_v.Session.Services.{Lock, Services}
use payment_engine_v.Session.Create.{completed, quote_deadline, tightened}

abbrev pub IsBy : ℕ → Option ℕ → Type 0
IsBy d none = Unit
IsBy d (some t) = d ≤ t

tightened_lem :
    (e : ℕ) (own : Option ℕ)
    → let d = tightened e own in (d ≤ e) × IsBy d own × ((d ≡ e) ⊎ (own ≡ some d))
unfolding tightened
tightened_lem e none = (ground arith, tt, inl refl)
tightened_lem e (some own) = elim (Bool-cases (ltb e own)) [
  | inl p ↦ rw p (ground arith, ground arith, inl refl)
  | inr q ↦ rw q (ground arith, ground arith, inr refl)
]

quote_deadline_lem :
    (created_at lock_expires : ℕ)
    → let d = quote_deadline created_at lock_expires in
      (d ≤ created_at + session_ttl)
      × (d ≤ lock_expires)
      × ((d ≡ created_at + session_ttl) ⊎ (d ≡ lock_expires))
unfolding quote_deadline
quote_deadline_lem created_at lock_expires =
    elim (Bool-cases (ltb lock_expires (created_at + session_ttl))) [
      | inl p ↦ rw p (ground arith, ground arith, inr refl)
      | inr q ↦ rw q (ground arith, ground arith, inl refl)
    ]

-- The deadline of completed instructions is the earliest of three: the session's own, `SessionTTL`
-- after it was created; the rate lock's; and the provider's, where it gives one.
pub completed_deadline :
    (svc : Services) (created_at : ℕ) (lock : Lock) (amount : ℤ) (i : Instructions)
    → (d : ℕ) × ((completed svc created_at lock amount i).expires_at ≡ some d)
      × (d ≤ created_at + session_ttl)
      × (d ≤ lock.expires_at)
      × IsBy d i.expires_at
      × ((d ≡ created_at + session_ttl) ⊎ (d ≡ lock.expires_at) ⊎ (i.expires_at ≡ some d))
unfolding completed
completed_deadline svc created_at lock amount i =
    let q = quote_deadline_lem created_at lock.expires_at in
    let t = tightened_lem (quote_deadline created_at lock.expires_at) i.expires_at in
    (
      tightened (quote_deadline created_at lock.expires_at) i.expires_at,
      refl,
      ground (arith, q.0, t.0),
      ground (arith, q.1, t.0),
      t.1,
      ground (arith, q.2, t.2),
    )
