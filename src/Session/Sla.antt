-- ===== src/Session/Sla.antt =====
-- The SLA sweep (internal/session/ttl.go, `markSLABreaches`): a breach is marked and published
-- together, and once.
use payment_engine_v.Base.{
  ℕ, Bool, true, false, not, ◌&&◌, some, List, [], ◌∷◌, ◌≡◌, refl, arith, ◌∙◌, ◌+◌,
  update_returning, if◌then◌else◌, ◌==◌,
}
use payment_engine_v.Db.{Answer, done, refused, lost, Result, ok, err, commit, pure, ◌>>=◌}
use payment_engine_v.Db.{continue}
use payment_engine_v.Db.Ends.{Ends-keeps, BodyEnds, Ends, transaction-Ends}
use payment_engine_v.Session.Tables.{Session, SessionEvent, Published, Tables}
use payment_engine_v.Session.Cas.{SessionError, begin_failed, commit_failed}
use payment_engine_v.Session.Create.{publish}
use payment_engine_v.Session.Ttl.{
  is_breaching, is_unset, mark_rows, publish_breaches, mark_body, mark_sla_breaches,
}

unfoldable pub breach_events : Bool → List Session → List Published → List Published
breach_events bus [] outbox = outbox
breach_events bus (x ∷ rows) outbox = breach_events bus rows (
    if bus
    then record { aggregate_id = x.id; event = SessionEvent.sla_breached x.tenant_id } ∷ outbox
    else outbox)

-- The rows that a sweep marks, and the table with them marked.
abbrev pub breach_rows : ℕ → ℕ → Tables → List Session × List Session
breach_rows clock now s =
    update_returning (is_breaching clock) (λ x. record x { sla_breached_at = some now }) s.sessions

abbrev pub marked : Bool → ℕ → ℕ → Tables → Tables
marked bus clock now s =
    let (rows, table) = breach_rows clock now s in
    record s { sessions = table; outbox = breach_events bus rows s.outbox }

abbrev PublishEnds :
    Bool → List Session → Tables → Result SessionError Unit × Tables × List Answer → Type 0
PublishEnds bus rows s (ok _, t, _) = t ≡ record s { outbox = breach_events bus rows s.outbox }
PublishEnds bus rows s (err _, _, _) = Unit

publish_breaches_ends :
    (bus : Bool) (rows : List Session) (s : Tables) (answers : List Answer)
    → PublishEnds bus rows s (publish_breaches bus rows s answers)
unfolding publish_breaches breach_events publish ◌>>=◌
publish_breaches_ends bus [] s answers = refl
publish_breaches_ends false (x ∷ rows) s answers = publish_breaches_ends false rows s answers
publish_breaches_ends true (x ∷ rows) s [] = publish_breaches_ends true rows _ []
publish_breaches_ends true (x ∷ rows) s (done ∷ answers) = publish_breaches_ends true rows _ answers
publish_breaches_ends true (x ∷ rows) s (refused ∷ answers) = tt
publish_breaches_ends true (x ∷ rows) s (lost ∷ answers) = tt

after_publishing :
    (bus : Bool) (clock now : ℕ) (s : Tables) (rows : List Session) (u : Tables)
    (r : Result SessionError Unit × Tables × List Answer)
    → record u { outbox = breach_events bus rows u.outbox } ≡ marked bus clock now s
    → PublishEnds bus rows u r
    → BodyEnds (λ _ t. t ≡ marked bus clock now s) s (continue r (λ _. pure (commit tt)))
unfolding pure
after_publishing bus clock now s rows u (ok _, t, rest) p e = e ∙ p
after_publishing bus clock now s rows u (err _, t, rest) p e = tt

mark_body_ends :
    (bus : Bool) (clock now : ℕ) (s : Tables) (answers : List Answer)
    → BodyEnds (λ _ t. t ≡ marked bus clock now s) s (mark_body bus clock now s answers)
unfolding mark_body mark_rows publish_breaches ◌>>=◌
mark_body_ends bus clock now s [] =
    after_publishing bus clock now s _ _ _ refl (publish_breaches_ends bus _ _ [])
mark_body_ends bus clock now s (done ∷ rest) =
    after_publishing bus clock now s _ _ _ refl (publish_breaches_ends bus _ _ rest)
mark_body_ends bus clock now s (refused ∷ rest) = tt
mark_body_ends bus clock now s (lost ∷ rest) = tt

-- Whatever the database answers, `markSLABreaches` that succeeds has marked every row in breach and
-- published one event for each of them; and after an error nothing has changed, or, where the answer
-- to the commit was lost, all of that is done: no event without its mark, and no mark without its
-- event.
pub mark_sla_breaches-Ends :
    (bus : Bool) (clock now : ℕ) (s : Tables) (answers : List Answer)
    → Ends (λ _ t. t ≡ marked bus clock now s) s (mark_sla_breaches bus clock now s answers)
unfolding mark_sla_breaches
mark_sla_breaches-Ends bus clock now s answers =
    transaction-Ends _ begin_failed commit_failed (mark_body bus clock now) s answers
      (mark_body_ends bus clock now s)

abbrev is_sla_breached : SessionEvent → Bool
is_sla_breached (SessionEvent.sla_breached _) = true
is_sla_breached _ = false

abbrev is_breach : ℕ → Published → Bool
is_breach id e = e.aggregate_id == id && is_sla_breached e.event

-- How many breaches of a session are published; how many rows of it are marked.
abbrev pub breach_count : ℕ → List Published → ℕ
breach_count id [] = 0
breach_count id (e ∷ es) = (if is_breach id e then 1 else 0) + breach_count id es

abbrev pub mark_count : ℕ → List Session → ℕ
mark_count id [] = 0
mark_count id (x ∷ xs) =
    (if x.id == id && not (is_unset x.sla_breached_at) then 1 else 0) + mark_count id xs

abbrev row_count : ℕ → List Session → ℕ
row_count id [] = 0
row_count id (x ∷ xs) = (if x.id == id then 1 else 0) + row_count id xs

breach_count-breach_events :
    (id : ℕ) (rows : List Session) (outbox : List Published)
    → breach_count id (breach_events true rows outbox) ≡ row_count id rows + breach_count id outbox
unfolding breach_events
breach_count-breach_events id [] outbox = omega arith
breach_count-breach_events id (x ∷ rows) outbox = ground (
  arith,
  breach_count-breach_events id rows
      (record { aggregate_id = x.id; event = SessionEvent.sla_breached x.tenant_id } ∷ outbox),
)

mark_count-breach_rows :
    (id clock now : ℕ) (xs : List Session)
    → let (rows, table) =
        update_returning (is_breaching clock) (λ x. record x { sla_breached_at = some now }) xs in
      mark_count id table ≡ row_count id rows + mark_count id xs
mark_count-breach_rows id clock now [] = omega arith
mark_count-breach_rows id clock now (x ∷ xs) =
    ground (arith, mark_count-breach_rows id clock now xs)

-- Each session has as many published breaches as marked rows: one if it is marked, else none.
abbrev pub IsTallied : Tables → Type 0
IsTallied s = (id : ℕ) → breach_count id s.outbox ≡ mark_count id s.sessions

marked-IsTallied : (clock now : ℕ) (s : Tables) → IsTallied s → IsTallied (marked true clock now s)
marked-IsTallied clock now s h id = ground (
  arith,
  h id,
  mark_count-breach_rows id clock now s.sessions,
  breach_count-breach_events id (breach_rows clock now s).0 s.outbox,
)

-- Where breaches are published on a bus, `markSLABreaches` keeps the published breaches of each
-- session equal in number to its marked rows, whatever the database answers: a breach is never
-- published twice, and none is marked in silence.
pub mark_sla_breaches-IsTallied :
    (clock now : ℕ) (s : Tables) (answers : List Answer)
    → IsTallied s
    → IsTallied (mark_sla_breaches true clock now s answers).1
mark_sla_breaches-IsTallied clock now s answers h =
    Ends-keeps IsTallied (mark_sla_breaches true clock now s answers) h
      (λ _ t e. rw e (marked-IsTallied clock now s h))
      (mark_sla_breaches-Ends true clock now s answers)
