-- ===== src/Session/Evolves.antt =====
-- How the sessions table changes: rows move along the state machine and keep what they were created
-- with, rows are added, none is lost (internal/session).
use payment_engine_v.Base.{
  ℕ, Bool, true, List, [], ◌∷◌, ◌≡◌, arith, update_returning, Bool-cases, inl, inr,
}
use payment_engine_v.Db.{query}
use payment_engine_v.Db.Keeps.{Preorder, Keeps, Keeps-query}
use payment_engine_v.Session.Tables.{Status, screening, Session, Tables}
use payment_engine_v.Session.Cas.{SessionError, update_session, is_at}
use payment_engine_v.Session.Diagram.{◌⟶*◌, here, ⟶*-trans, same_status_lem}

-- What a session keeps for life.
pub record SameTerms (x y : Session) : Type 0 where
  pub id : y.id ≡ x.id
  pub tenant_id : y.tenant_id ≡ x.tenant_id
  pub corridor_id : y.corridor_id ≡ x.corridor_id
  pub fiat_currency : y.fiat_currency ≡ x.fiat_currency
  pub fiat_amount : y.fiat_amount ≡ x.fiat_amount
  pub crypto_asset : y.crypto_asset ≡ x.crypto_asset
  pub crypto_network : y.crypto_network ≡ x.crypto_network
  pub payout_destination : y.payout_destination ≡ x.payout_destination
  pub created_at : y.created_at ≡ x.created_at

pub record IsSuccessor (x y : Session) : Type 0 where
  pub terms : SameTerms x y
  pub moved : x.status ⟶* y.status

-- A later state of a table: each row has its successor, in order, among rows that were added since,
-- which began in `screening`.
pub data Grown : List Session → List Session → Type 0 where
  nil : Grown [] []
  keep :
      {x y : Session} {xs ys : List Session}
      → IsSuccessor x y
      → Grown xs ys
      → Grown (x ∷ xs) (y ∷ ys)
  added :
      {y : Session} {xs ys : List Session} → screening ⟶* y.status → Grown xs ys → Grown xs (y ∷ ys)

pub IsSuccessor-refl : (x : Session) → IsSuccessor x x
IsSuccessor-refl x = record { terms = ground arith; moved = here }

pub IsSuccessor-trans : {x y z : Session} → IsSuccessor x y → IsSuccessor y z → IsSuccessor x z
IsSuccessor-trans p q = record {
  terms = ground (arith, p.terms, q.terms);
  moved = ⟶*-trans p.moved q.moved;
}

pub Grown-refl : (xs : List Session) → Grown xs xs
Grown-refl [] = nil
Grown-refl (x ∷ xs) = keep (IsSuccessor-refl x) (Grown-refl xs)

pub Grown-trans : {xs ys zs : List Session} → Grown xs ys → Grown ys zs → Grown xs zs
Grown-trans g nil = g
Grown-trans g (added s h) = added s (Grown-trans g h)
Grown-trans (keep p g) (keep q h) = keep (IsSuccessor-trans p q) (Grown-trans g h)
Grown-trans (added s g) (keep q h) = added (⟶*-trans s q.moved) (Grown-trans g h)

pub Grown-update :
    (p : Session → Bool) (f : Session → Session)
    → ((x : Session) → p x ≡ true → IsSuccessor x (f x))
    → (xs : List Session) → Grown xs (update_returning p f xs).1
Grown-update p f h [] = nil
Grown-update p f h (x ∷ xs) = elim (Bool-cases (p x)) [
  | inl met ↦ rw met (keep (h x met) (Grown-update p f h xs))
  | inr other ↦ rw other (keep (IsSuccessor-refl x) (Grown-update p f h xs))
]

abbrev pub evolves : Preorder Tables
evolves = record {
  rel = λ s t. Grown s.sessions t.sessions;
  reflexive = λ s. Grown-refl s.sessions;
  transitive = λ s t u g h. Grown-trans g h;
}

-- An UPDATE of sessions evolves the table if it moves each row that it meets along the machine.
pub update_session-evolves :
    (e e' : SessionError) (p : Session → Bool) (f : Session → Session)
    → ((x : Session) → p x ≡ true → IsSuccessor x (f x))
    → Keeps evolves (query e (update_session e' p f))
unfolding update_session
update_session-evolves e e' p f h =
    Keeps-query e (update_session e' p f) (λ s. Grown-update p f h s.sessions)

-- A row whose status moves as the machine allows, with its terms kept.
pub moved_to :
    {x y : Session} {from to : Status}
    → SameTerms x y
    → x.status ≡ from
    → y.status ≡ to
    → from ⟶* to
    → IsSuccessor x y
moved_to terms p q path = record { terms = terms; moved = rw (p, q) path }

pub is_at_status : (id : ℕ) (from : Status) (x : Session) → is_at id from x ≡ true → x.status ≡ from
is_at_status id from x h = same_status_lem x.status from (ground arith)
