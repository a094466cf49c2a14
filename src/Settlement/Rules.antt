-- ===== src/Settlement/Rules.antt =====
-- The parts of which the payout's operations are made (internal/settlement) are sound, whatever the
-- database and the other modules answer: one rule for each.
use payment_engine_v.Base.{
  inr, inl, Option-cases, some, String, ℕ, Bool, true, false, none, Option, List, ◌≡◌, refl,
}
use payment_engine_v.Db.{Answer, Result, ok, err, Action}
use payment_engine_v.Db.Keeps.{
  Preorder, Keeps, Keeps-pure, Keeps-fail, Keeps-query, Keeps-bind, keeps_rules,
}
use payment_engine_v.Ledger
use payment_engine_v.Ledger.Tables.{Transaction}
use payment_engine_v.Ledger.Post.{LedgerError, already_posted, post, has_key}
use payment_engine_v.Ledger.Accounts.{Key, find_key, upsert_account, get_or_create_account}
use payment_engine_v.Ledger.Atomic.{post_end}
use payment_engine_v.Ledger.Claims.{keeps_key}
use payment_engine_v.Session
use payment_engine_v.Session.Cas.{SessionError}
use payment_engine_v.Session.Create.{get_session}
use payment_engine_v.Session.Services.{Reply}
use payment_engine_v.Session.Moves.{get_session-evolves}
use payment_engine_v.Session.Evolves.{evolves, Grown, Grown-refl}
use payment_engine_v.Settlement.Tables.{Tables}
use payment_engine_v.Settlement.Calls.{
  SettlementError, ledger_call, session_call, session_return, try, draw_id, reply, require,
  expect_ledger, ignore_taken, claim, post_once, account, resolve_accounts, get_settlement,
  release_reservation, release_if_any, release_for,
}
use payment_engine_v.Settlement.Advance.{Advanced-refl}
use payment_engine_v.Settlement.Sound.{Sound-refl, Sound, sound, Sound-unasked, Sound-elsewhere}

-- The ledger's keys stay taken.
abbrev kept : Preorder Ledger.Tables.Tables
kept = record {
  rel =
      λ l m. (key : String) → has_key key l.transactions ≡ true → has_key key m.transactions ≡ true;
  reflexive = λ l key h. h;
  transitive = λ l m n p q key h. q key (p key h);
}

ledger_call-Sound :
    {A : Type 0} (m : Action LedgerError Ledger.Tables.Tables A)
    → Keeps kept m
    → Keeps sound (ledger_call m)
unfolding ledger_call
ledger_call-Sound m h = record {
  at = λ s answers. Sound-unasked (h.at s.ledger answers) (Grown-refl _) (Advanced-refl _) refl;
}

pub post-Sound : (id : ℕ) (txn : Transaction) → Keeps sound (ledger_call (post id txn))
post-Sound id txn = ledger_call-Sound (post id txn) (record {
  at = λ l answers key h.
      keeps_key key id txn l (post id txn l answers) (post_end id txn l answers) h;
})

upsert-keeps_key :
    (id : ℕ) (k : Key) (unit_type name : String) (l : Ledger.Tables.Tables) (key : String)
    → has_key key l.transactions ≡ true
    → has_key key (upsert_account id k unit_type name l).1.transactions ≡ true
unfolding upsert_account
upsert-keeps_key id k unit_type name l key h = elim (Option-cases (find_key k l.accounts)) [
  | inl missing ↦ rw (missing, upsert_account) h
  | inr (r, found) ↦ rw (found, upsert_account) h
]

get_or_create_account-Sound :
    (id : ℕ) (k : Key) (unit_type name : String)
    → Keeps sound (ledger_call (get_or_create_account id k unit_type name))
unfolding get_or_create_account
get_or_create_account-Sound id k unit_type name =
    ledger_call-Sound _ (Keeps-query _ _ (upsert-keeps_key id k unit_type name))

session_return-Sound :
    {A : Type 0} (s : Tables) (q : Result SessionError A × Session.Tables.Tables × List Answer)
    → Grown s.sessions.sessions q.1.sessions
    → Sound s (session_return s q).1
session_return-Sound s (ok a, t, rest) g = Sound-unasked (λ key h. h) g (Advanced-refl _) refl
session_return-Sound s (err e, t, rest) g = Sound-unasked (λ key h. h) g (Advanced-refl _) refl

pub session_call-Sound :
    {A : Type 0} (m : Action SessionError Session.Tables.Tables A)
    → Keeps evolves m
    → Keeps sound (session_call m)
unfolding session_call
session_call-Sound m h = record {
  at = λ s answers. session_return-Sound s (m s.sessions answers) (h.at s.sessions answers);
}

pub try-Sound :
    {A : Type 0} (m : Action SettlementError Tables A) → Keeps sound m → Keeps sound (try m)
unfolding try
try-Sound m h = record { at = λ s answers. h.at s answers }

pub draw_id-Sound : Keeps sound draw_id
unfolding draw_id
draw_id-Sound = record { at = λ s answers. Sound-elsewhere refl refl refl refl }

pub reply-Sound : {A : Type 0} (r : Reply A) → Keeps sound (reply r)
unfolding reply
reply-Sound (ok a) = Keeps-pure a
reply-Sound (err _) = Keeps-fail _

pub require-Sound : (b : Bool) (e : SettlementError) → Keeps sound (require b e)
unfolding require
require-Sound true e = Keeps-pure tt
require-Sound false e = Keeps-fail e

pub expect_ledger-Sound : {A : Type 0} (r : Result LedgerError A) → Keeps sound (expect_ledger r)
unfolding expect_ledger
expect_ledger-Sound (ok a) = Keeps-pure a
expect_ledger-Sound (err e) = Keeps-fail _

pub ignore_taken-Sound : (r : Result LedgerError ℕ) → Keeps sound (ignore_taken r)
unfolding ignore_taken
ignore_taken-Sound (ok _) = Keeps-pure tt
ignore_taken-Sound (err already_posted) = Keeps-pure tt
ignore_taken-Sound (err _) = Keeps-fail _

pub account-Sound : (k : Key) (unit_type name : String) → Keeps sound (account k unit_type name)
unfolding account
account-Sound k unit_type name =
    search (keeps_rules, draw_id-Sound, get_or_create_account-Sound, expect_ledger-Sound) depth 6

pub claim-Sound : (txn : Transaction) → Keeps sound (claim txn)
unfolding claim
claim-Sound txn = search (keeps_rules, draw_id-Sound, post-Sound) depth 6

pub post_once-Sound : (txn : Transaction) → Keeps sound (post_once txn)
unfolding post_once
post_once-Sound txn = search (keeps_rules, claim-Sound, ignore_taken-Sound) depth 6

pub resolve_accounts-Sound :
    (tenant_id : ℕ) (crypto fiat : String) → Keeps sound (resolve_accounts tenant_id crypto fiat)
unfolding resolve_accounts
resolve_accounts-Sound tenant_id crypto fiat = search (keeps_rules, account-Sound) depth 12

pub get_settlement-Sound : (id : ℕ) → Keeps sound (get_settlement id)
unfolding get_settlement
get_settlement-Sound id = Keeps-query _ _ Sound-refl

release_if_any-Sound : (id : Option ℕ) → Keeps sound (release_if_any id)
unfolding release_if_any release_reservation
release_if_any-Sound none = Keeps-pure tt
release_if_any-Sound (some id) = Keeps-query _ _ (λ s. Sound-elsewhere refl refl refl refl)

pub own_session-Sound : (id : ℕ) → Keeps sound (session_call (get_session id))
own_session-Sound id = session_call-Sound (get_session id) (get_session-evolves id)

pub release_for-Sound : (session_id : ℕ) → Keeps sound (release_for session_id)
unfolding release_for
release_for-Sound session_id = search (keeps_rules, own_session-Sound, release_if_any-Sound) depth 6

pub ruleset parts = (
  keeps_rules, try-Sound, draw_id-Sound, reply-Sound, require-Sound, expect_ledger-Sound,
  ignore_taken-Sound, account-Sound, claim-Sound, post_once-Sound, resolve_accounts-Sound,
  get_settlement-Sound, own_session-Sound, release_for-Sound,
)
