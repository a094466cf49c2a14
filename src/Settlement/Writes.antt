-- ===== src/Settlement/Writes.antt =====
-- The writes of internal/settlement to its own tables are sound: an UPDATE of settlements moves its
-- rows along the state machine, whatever the database answers.
use payment_engine_v.Base.{
  ℕ, String, Bool, true, false, Option, none, some, ◌≡◌, refl, arith, inl, inr, Bool-cases,
}
use payment_engine_v.Db.{Action, query}
use payment_engine_v.Db.Keeps.{
  Keeps-transaction, Keeps, Keeps-pure, Keeps-query, Keeps-bind, keeps_rules,
}
use payment_engine_v.Settlement.Tables.{
  Status, Settlement, Attempt, AttemptStatus, Published, Tables,
}
use payment_engine_v.Settlement.Services.{Services}
use payment_engine_v.Settlement.Calls.{SettlementError, database_failed}
use payment_engine_v.Settlement.Transition.{
  set_deadline_and_page, is_in, update_settlement, publish, finish_transition, transition_body,
  transition_and_publish, set_paged, set_deadline, set_attempt_count, clear_destination,
}
use payment_engine_v.Settlement.Attempts.{
  update_attempts, mark_attempt, mark_succeeded, set_reference, set_reference_and_reason, has_clash,
  insert_row, insert_attempt, tried_provider_names, find_attempt, destination_from, destination_of,
  resolve_destination,
}
use payment_engine_v.Settlement.Diagram.{◌⇒*◌, here}
use payment_engine_v.Settlement.Advance.{
  IsAdvance-trans, IsAdvance, Advanced-update, advanced_to, is_in_status,
}
use payment_engine_v.Settlement.Sound.{sound, Sound-refl, Sound-settlements, Sound-elsewhere}
use payment_engine_v.Settlement.Rules.{parts, own_session-Sound}

-- An UPDATE of settlements is sound if it advances each row that it meets.
pub update_settlement-Sound :
    (e : SettlementError) (p : Settlement → Bool) (f : Settlement → Settlement)
    → ((x : Settlement) → p x ≡ true → IsAdvance x (f x))
    → Keeps sound (query e (update_settlement p f))
unfolding update_settlement
update_settlement-Sound e p f h =
    Keeps-query e (update_settlement p f)
      (λ s. Sound-settlements refl refl refl (Advanced-update p f h s.settlements))

-- One that leaves the status alone.
pub IsAdvance-aside :
    (x : Settlement) (n : ℕ) (deadline paged : Option ℕ) (destination : Option String) (now : ℕ)
    → IsAdvance x (record x {
      attempt_count = n;
      confirmation_deadline_at = deadline;
      ops_paged_at = paged;
      pending_destination = destination;
      updated_at = now;
    })
IsAdvance-aside x n deadline paged destination now = advanced_to (ground arith) refl refl here

pub set_paged-Sound : (id now : ℕ) → Keeps sound (set_paged id now)
unfolding set_paged
set_paged-Sound id now =
    Keeps-bind _ _ (update_settlement-Sound _ _ _ (λ x h. IsAdvance-aside x _ _ _ _ _))
      (λ _. Keeps-pure tt)

pub set_deadline-Sound : (id deadline : ℕ) → Keeps sound (set_deadline id deadline)
unfolding set_deadline
set_deadline-Sound id deadline =
    Keeps-bind _ _ (update_settlement-Sound _ _ _ (λ x h. IsAdvance-aside x _ _ _ _ _))
      (λ _. Keeps-pure tt)

pub set_deadline_and_page-Sound :
    (id deadline now : ℕ) → Keeps sound (set_deadline_and_page id deadline now)
unfolding set_deadline_and_page
set_deadline_and_page-Sound id deadline now =
    Keeps-bind _ _ (update_settlement-Sound _ _ _ (λ x h. IsAdvance-aside x _ _ _ _ _))
      (λ _. Keeps-pure tt)

pub set_attempt_count-Sound : (id n now : ℕ) → Keeps sound (set_attempt_count id n now)
unfolding set_attempt_count
set_attempt_count-Sound id n now =
    Keeps-bind _ _ (update_settlement-Sound _ _ _ (λ x h. IsAdvance-aside x _ _ _ _ _))
      (λ _. Keeps-pure tt)

pub clear_destination-Sound : (id : ℕ) (d : Option String) → Keeps sound (clear_destination id d)
unfolding clear_destination
clear_destination-Sound id none = Keeps-pure tt
clear_destination-Sound id (some d) =
    Keeps-bind _ _ (update_settlement-Sound _ _ _ (λ x h. IsAdvance-aside x _ _ _ _ _))
      (λ _. Keeps-pure tt)

publish-Sound : (bus : Bool) (e : Published) → Keeps sound (publish bus e)
unfolding publish
publish-Sound false e = Keeps-pure tt
publish-Sound true e = Keeps-query _ _ (λ s. Sound-elsewhere refl refl refl refl)

-- An UPDATE from one status, for the rows in it.
pub move-Sound :
    (e : SettlementError) (id : ℕ) (from to : Status) (f : Settlement → Settlement)
    → ((x : Settlement) → IsAdvance (record x { status = to }) (f x))
    → from ⇒* to
    → Keeps sound (query e (update_settlement (is_in id from) f))
move-Sound e id from to f same path = update_settlement-Sound e (is_in id from) f (λ x met.
    IsAdvance-trans (advanced_to (ground arith) (is_in_status id from x met) refl path) (same x))

finish_transition-Sound :
    (svc : Services) (st : Settlement) (event_type : String)
    (extra : Action SettlementError Tables Unit) (moved : Bool)
    → Keeps sound extra
    → Keeps sound (finish_transition svc st event_type extra moved)
unfolding finish_transition
finish_transition-Sound svc st event_type extra false h = Keeps-pure _
finish_transition-Sound svc st event_type extra true h = search (keeps_rules, publish-Sound) depth 6

pub transition_and_publish-Sound :
    (svc : Services) (now : ℕ) (st : Settlement) (from to : Status) (event_type : String)
    (extra : Action SettlementError Tables Unit)
    → from ⇒* to
    → Keeps sound extra
    → Keeps sound (transition_and_publish svc now st from to event_type extra)
unfolding transition_and_publish transition_body
transition_and_publish-Sound svc now st from to event_type extra path h = Keeps-transaction _ _ _ (
    Keeps-bind _ _
      (move-Sound database_failed st.id from to _ (λ x. advanced_to (ground arith) refl refl here)
        path)
      (λ moved. finish_transition-Sound svc st event_type extra moved h))

-- An UPDATE of attempts.
pub update_attempts-Sound :
    (e : SettlementError) (p : Attempt → Bool) (f : Attempt → Attempt)
    → Keeps sound (query e (update_attempts p f))
unfolding update_attempts
update_attempts-Sound e p f =
    Keeps-query e (update_attempts p f) (λ s. Sound-elsewhere refl refl refl refl)

pub mark_attempt-Sound :
    (id : ℕ) (bucket : AttemptStatus) (reason : String) (now : ℕ)
    → Keeps sound (mark_attempt id bucket reason now)
unfolding mark_attempt
mark_attempt-Sound id bucket reason now = update_attempts-Sound _ _ _

pub mark_succeeded-Sound : (id now : ℕ) → Keeps sound (mark_succeeded id now)
unfolding mark_succeeded
mark_succeeded-Sound id now = update_attempts-Sound _ _ _

pub set_reference-Sound : (id : ℕ) (reference : String) → Keeps sound (set_reference id reference)
unfolding set_reference
set_reference-Sound id reference = Keeps-bind _ _ (update_attempts-Sound _ _ _) (λ _. Keeps-pure tt)

pub set_reference_and_reason-Sound :
    (id : ℕ) (reference reason : String)
    → Keeps sound (set_reference_and_reason id reference reason)
unfolding set_reference_and_reason
set_reference_and_reason-Sound id reference reason =
    Keeps-bind _ _ (update_attempts-Sound _ _ _) (λ _. Keeps-pure tt)

pub insert_attempt-Sound : (a : Attempt) → Keeps sound (insert_attempt a)
unfolding insert_attempt insert_row
insert_attempt-Sound a = Keeps-query _ _ (λ s. elim (Bool-cases (has_clash a s.attempts)) [
  | inl clash ↦ rw (clash, insert_row) (Sound-refl s)
  | inr free ↦ rw (free, insert_row) (Sound-elsewhere refl refl refl refl)
])

pub tried_provider_names-Sound : (id : ℕ) → Keeps sound (tried_provider_names id)
unfolding tried_provider_names
tried_provider_names-Sound id = Keeps-query _ _ Sound-refl

pub find_attempt-Sound :
    (provider reference : String) → Keeps sound (find_attempt provider reference)
unfolding find_attempt
find_attempt-Sound provider reference = Keeps-query _ _ Sound-refl

destination_from-Sound :
    (st : Settlement) (a : Option Attempt) → Keeps sound (destination_from st a)
unfolding destination_from
destination_from-Sound st (some a) = Keeps-pure _
destination_from-Sound st none = search (keeps_rules, own_session-Sound) depth 6

destination_of-Sound : (st : Settlement) (d : Option String) → Keeps sound (destination_of st d)
unfolding destination_of
destination_of-Sound st (some d) = Keeps-pure _
destination_of-Sound st none =
    Keeps-bind _ _ (Keeps-query _ _ Sound-refl) (destination_from-Sound st)

pub resolve_destination-Sound : (st : Settlement) → Keeps sound (resolve_destination st)
unfolding resolve_destination
resolve_destination-Sound st = destination_of-Sound st _

pub ruleset writes = (
  parts, set_paged-Sound, set_deadline-Sound, set_deadline_and_page-Sound, set_attempt_count-Sound,
  clear_destination-Sound, mark_attempt-Sound, mark_succeeded-Sound, set_reference-Sound,
  set_reference_and_reason-Sound, insert_attempt-Sound, tried_provider_names-Sound,
  find_attempt-Sound, resolve_destination-Sound,
)
