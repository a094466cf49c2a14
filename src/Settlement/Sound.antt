-- ===== src/Settlement/Sound.antt =====
-- What every operation of internal/settlement keeps, whatever the database, the providers and the
-- other modules answer: the ledger's keys, the machines of the sessions and of
-- the settlements, and that no payout is asked for twice.
use payment_engine_v.Base.{
  inr, inl, sym, Bool-cases, String, Bool, true, false, List, [], ◌∷◌, ◌||◌, ◌≡◌, arith, str_eq,
  eq_iff,
}
use payment_engine_v.Ledger.Post.{has_key}
use payment_engine_v.Session.Evolves.{Grown, Grown-refl, Grown-trans}
use payment_engine_v.Db.Keeps.{Preorder}
use payment_engine_v.Settlement.Tables.{PayoutRequest, Tables}
use payment_engine_v.Settlement.Advance.{Advanced, Advanced-refl, Advanced-trans}

-- Whether the providers were asked for a payout under the key.
unfoldable pub is_requested : String → List PayoutRequest → Bool
is_requested key [] = false
is_requested key (r ∷ rows) = str_eq r.attempt_idempotency_key key || is_requested key rows

abbrev HasNoRepeat : List PayoutRequest → Type 0
HasNoRepeat [] = Unit
HasNoRepeat (r ∷ rows) = (is_requested r.attempt_idempotency_key rows ≡ false) × HasNoRepeat rows

abbrev pub is_key_taken : Tables → String → Bool
is_key_taken s key = has_key key s.ledger.transactions

-- No two requests to the providers have one idempotency key, and the ledger has posted the payout
-- of each.
pub record IsPaidOnce (s : Tables) : Type 0 where
  pub no_repeat : HasNoRepeat s.requests
  pub posted : (key : String) → is_requested key s.requests ≡ true → is_key_taken s key ≡ true

pub record Sound (s t : Tables) : Type 0 where
  pub keys : (key : String) → is_key_taken s key ≡ true → is_key_taken t key ≡ true
  pub sessions : Grown s.sessions.sessions t.sessions.sessions
  pub settlements : Advanced s.settlements t.settlements
  pub once : IsPaidOnce s → IsPaidOnce t

pub Sound-refl : (s : Tables) → Sound s s
Sound-refl s = record {
  keys = λ key h. h;
  sessions = Grown-refl s.sessions.sessions;
  settlements = Advanced-refl s.settlements;
  once = λ h. h;
}

pub Sound-trans : (s t u : Tables) → Sound s t → Sound t u → Sound s u
Sound-trans s t u p q = record {
  keys = λ key h. q.keys key (p.keys key h);
  sessions = Grown-trans p.sessions q.sessions;
  settlements = Advanced-trans p.settlements q.settlements;
  once = λ h. q.once (p.once h);
}

abbrev pub sound : Preorder Tables
sound = record { rel = Sound; reflexive = Sound-refl; transitive = Sound-trans }

-- Where no request is made, only the ledger, the sessions and the settlements matter.
pub Sound-unasked :
    {s t : Tables}
    → ((key : String) → is_key_taken s key ≡ true → is_key_taken t key ≡ true)
    → Grown s.sessions.sessions t.sessions.sessions
    → Advanced s.settlements t.settlements
    → t.requests ≡ s.requests
    → Sound s t
Sound-unasked k g a e = record {
  keys = k;
  sessions = g;
  settlements = a;
  once = λ h. record {
    no_repeat = rw e h.no_repeat;
    posted = λ key r. k key (h.posted key (rw (sym e) r));
  };
}

-- Nor do the other tables.
pub Sound-settlements :
    {s t : Tables}
    → t.ledger ≡ s.ledger
    → t.sessions ≡ s.sessions
    → t.requests ≡ s.requests
    → Advanced s.settlements t.settlements
    → Sound s t
Sound-settlements {s = s} l g r a =
    Sound-unasked (λ key h. rw l h) (rw g (Grown-refl s.sessions.sessions)) a r

pub Sound-elsewhere :
    {s t : Tables}
    → t.ledger ≡ s.ledger
    → t.sessions ≡ s.sessions
    → t.requests ≡ s.requests
    → t.settlements ≡ s.settlements
    → Sound s t
Sound-elsewhere {s = s} l g r a = Sound-settlements l g r (rw a (Advanced-refl s.settlements))

requested_elsewhere :
    (key : String) (r : PayoutRequest) (rows : List PayoutRequest)
    → is_requested key (r ∷ rows) ≡ true
    → str_eq r.attempt_idempotency_key key ≡ false
    → is_requested key rows ≡ true
unfolding is_requested
requested_elsewhere key r rows h ne = ground arith

-- A request under a key that is taken and was not used keeps the promise.
pub IsPaidOnce-ask :
    (s : Tables) (r : PayoutRequest)
    → is_key_taken s r.attempt_idempotency_key ≡ true
    → is_requested r.attempt_idempotency_key s.requests ≡ false
    → IsPaidOnce s
    → IsPaidOnce (record s { requests = r ∷ s.requests })
unfolding is_requested
IsPaidOnce-ask s r taken fresh h = record {
  no_repeat = (fresh, h.no_repeat);
  posted = λ key asked. elim (Bool-cases (str_eq r.attempt_idempotency_key key)) [
    | inl same ↦ rw (sym ((eq_iff r.attempt_idempotency_key key).0 same)) taken
    | inr other ↦ h.posted key (requested_elsewhere key r s.requests asked other)
  ];
}
