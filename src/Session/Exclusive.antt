-- ===== src/Session/Exclusive.antt =====
-- What the compare-and-set transitions of internal/session/session.go exclude, and what the expiry
-- of internal/session/ttl.go leaves alone.
use payment_engine_v.Base.{
  ◌+◌, ℕ, Bool, true, false, not, List, [], ◌∷◌, ◌≡◌, refl, arith, ◌∙◌, inl, inr, update_returning,
  update_again, if◌then◌else◌, Bool-cases, ◌≢◌,
}
use payment_engine_v.Db.{Result, ok, Answer, done, refused, lost, err, query, ◌>>◌}
use payment_engine_v.Db.Keeps.{Preorder, Keeps, Keeps-query, Keeps-bind}
use payment_engine_v.Session.Tables.{
  Status, screening, compliance_hold, pending, HoldCase, Session, Tables, same_status,
}
use payment_engine_v.Session.Cas.{SessionError, is_at, update_session, cas_transition}
use payment_engine_v.Session.Ttl.{
  is_stale, expire, expire_pre_deposit, is_timed_out, expire_timed_out_holds,
}
use payment_engine_v.Session.Diagram.{same_status_lem, is_unfunded}

abbrev pub is_success : {A : Type 0} → Result SessionError A → Bool
is_success (ok _) = true
is_success (err _) = false

abbrev pub one_if : Bool → ℕ
one_if true = 1
one_if false = 0

-- Attempts, one after the other, to move a session from one status, each to a status of its own, at
-- its own time and with its own answers of the database: how many succeed, and the tables after.
unfoldable pub race : ℕ → Status → List (Status × ℕ × List Answer) → Tables → ℕ × Tables
race id from [] s = (0, s)
race id from ((to, now, answers) ∷ attempts) s =
    let (r, t, _) = cas_transition id from to now s answers in
    let (n, u) = race id from attempts t in (one_if (is_success r) + n, u)

-- No row is at the status.
abbrev IsGone : ℕ → Status → Tables → Type 0
IsGone id from s =
    (f : Session → Session) → update_returning (is_at id from) f s.sessions ≡ ([], s.sessions)

cas_transition-gone :
    (id : ℕ) (from to : Status) (now : ℕ) (s : Tables) (answers : List Answer)
    → IsGone id from s
    → (is_success (cas_transition id from to now s answers).0 ≡ false)
      × ((cas_transition id from to now s answers).1 ≡ s)
unfolding cas_transition update_session query
cas_transition-gone id from to now s [] h = rw (h _) (refl, refl)
cas_transition-gone id from to now s (done ∷ rest) h = rw (h _) (refl, refl)
cas_transition-gone id from to now s (refused ∷ rest) h = (refl, refl)
cas_transition-gone id from to now s (lost ∷ rest) h = rw (h _) (refl, refl)

race-gone :
    (id : ℕ) (from : Status) (attempts : List (Status × ℕ × List Answer)) (s : Tables)
    → IsGone id from s
    → race id from attempts s ≡ (0, s)
unfolding race
race-gone id from [] s h = refl
race-gone id from ((to, now, answers) ∷ attempts) s h =
    let (lost', same) = cas_transition-gone id from to now s answers h in
    rw (lost', same, race-gone id from attempts s h) refl

moved_away :
    (id : ℕ) (from to : Status) (now : ℕ) (s : Tables) (a : Answer)
    → same_status to from ≡ false
    → a ≢ refused
    → IsGone id from (cas_transition id from to now s (a ∷ [])).1
unfolding cas_transition update_session query
moved_away id from to now s done moved h f =
    update_again (is_at id from) _ f (λ x. ground (arith, moved)) s.sessions
moved_away id from to now s refused moved h f = absurd (h refl)
moved_away id from to now s lost moved h f =
    update_again (is_at id from) _ f (λ x. ground (arith, moved)) s.sessions

-- Once a compare-and-set of a session to another status has run, whether its caller saw the answer or
-- not, no attempt of any number that follow it from the same status succeeds or changes the tables,
-- whatever their targets, their times and the answers of the database: of callers that race to leave
-- a status, one wins.
pub cas_transition_once :
    (id : ℕ) (from to : Status) (now : ℕ) (s : Tables) (a : Answer)
    (attempts : List (Status × ℕ × List Answer))
    → same_status to from ≡ false
    → a ≢ refused
    → let t = (cas_transition id from to now s (a ∷ [])).1 in race id from attempts t ≡ (0, t)
cas_transition_once id from to now s a attempts moved h =
    race-gone id from attempts _ (moved_away id from to now s a moved h)

abbrev pub is_funded : Session → Bool
is_funded x = not (is_unfunded x.status)

abbrev pub funded : List Session → List Session
funded [] = []
funded (x ∷ xs) = let rest = funded xs in if is_funded x then x ∷ rest else rest

funded-update :
    (p : Session → Bool) (now : ℕ)
    → ((x : Session) → p x ≡ true → is_funded x ≡ false)
    → (xs : List Session) → funded (update_returning p (expire now) xs).1 ≡ funded xs
funded-update p now h [] = refl
funded-update p now h (x ∷ xs) = elim (Bool-cases (p x)) [
  | inl met ↦ rw (met, h x met, funded-update p now h xs) refl
  | inr other ↦ rw (other, funded-update p now h xs) refl
]

stale_unfunded : (clock now : ℕ) (x : Session) → is_stale clock now x ≡ true → is_funded x ≡ false
stale_unfunded clock now x h = elim (Bool-cases (same_status x.status pending)) [
  | inl p ↦ rw (same_status_lem x.status pending p) refl
  | inr q ↦ rw (same_status_lem x.status screening (ground arith)) refl
]

held_unfunded :
    (cases : List HoldCase) (now : ℕ) (x : Session)
    → is_timed_out cases now x ≡ true
    → is_funded x ≡ false
held_unfunded cases now x h = rw (same_status_lem x.status compliance_hold (ground arith)) refl

-- Same funded sessions.
abbrev keeps_funded : Preorder Tables
keeps_funded = record {
  rel = λ s t. funded t.sessions ≡ funded s.sessions;
  reflexive = λ s. refl;
  transitive = λ s t u p q. q ∙ p;
}

expire_pre_deposit-Keeps : (clock now : ℕ) → Keeps keeps_funded (expire_pre_deposit clock now)
unfolding expire_pre_deposit
expire_pre_deposit-Keeps clock now =
    Keeps-query _ _ (λ s. funded-update _ now (stale_unfunded clock now) s.sessions)

expire_timed_out_holds-Keeps : (now : ℕ) → Keeps keeps_funded (expire_timed_out_holds now)
unfolding expire_timed_out_holds
expire_timed_out_holds-Keeps now =
    Keeps-query _ _ (λ s. funded-update _ now (held_unfunded s.cases now) s.sessions)

-- Whatever the clocks and the database's answers, the two expiries of a sweep leave every session
-- exactly as it is whose deposit was detected: no money is left without its session.
pub expiry-funded :
    (clock now : ℕ) (s : Tables) (answers : List Answer)
    → let (_, t, _) = (expire_pre_deposit clock now >> expire_timed_out_holds now) s answers in
      funded t.sessions ≡ funded s.sessions
expiry-funded clock now s answers =
    (Keeps-bind _ _ (expire_pre_deposit-Keeps clock now) (λ _. expire_timed_out_holds-Keeps now)).at
      s answers
