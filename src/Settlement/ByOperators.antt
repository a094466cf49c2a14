-- ===== src/Settlement/ByOperators.antt =====
-- What operators do with a payout, and the sweep that pages them (internal/settlement/ops.go,
-- timeout_job.go), is sound.
use payment_engine_v.Base.{
  ℤ, ℕ, String, Bool, true, false, Option, none, some, List, [], ◌∷◌, refl, arith,
}
use payment_engine_v.Db.{Result, query}
use payment_engine_v.Db.Keeps.{Keeps, Keeps-pure, Keeps-fail, Keeps-query, Keeps-bind}
use payment_engine_v.Session.Tables.{settling as session_settling}
use payment_engine_v.Session.Cas.{retry_to_settling, transition_to_reversal_resolved}
use payment_engine_v.Session.Diagram.{
  ◌⟶*◌, here as session_here, one_step, resolve as session_resolves, retry as session_retries,
}
use payment_engine_v.Session.Moves.{cas_transition-evolves}
use payment_engine_v.Settlement.Tables.{
  Status, pending_dispatch, settling, settlement_failed, awaiting_manual_payout, reversed,
  reversal_resolved, Settlement, Attempt, Reversal, Tables,
}
use payment_engine_v.Settlement.Services.{Services}
use payment_engine_v.Settlement.Calls.{SettlementError, database_failed, session_call, Accounts}
use payment_engine_v.Settlement.Transition.{is_in, update_settlement}
use payment_engine_v.Settlement.Ops.{
  Origin, origin_of, reverse_attempts, reverse_all, resolve_confirmed_failed_attempts,
  close_attempts, requeue, retry_payout, AccountRef, close_reversal, resolve_reversal,
  page_ops_for_timed_out_confirmations,
}
use payment_engine_v.Settlement.Diagram
use payment_engine_v.Settlement.Diagram.{◌⇒*◌, here, one_move}
use payment_engine_v.Settlement.Advance.{Advanced-update, advanced_to}
use payment_engine_v.Settlement.Sound.{Sound-settlements, sound, Sound-refl, Sound-elsewhere}
use payment_engine_v.Settlement.Rules.{
  require-Sound, post_once-Sound, get_settlement-Sound, parts, session_call-Sound,
}
use payment_engine_v.Settlement.Writes.{move-Sound, update_attempts-Sound, IsAdvance-aside}

reverse_attempts-Sound :
    (svc : Services) (st : Settlement) (accounts : Accounts) (rows : List Attempt)
    → Keeps sound (reverse_attempts svc st accounts rows)
unfolding reverse_attempts
reverse_attempts-Sound svc st accounts [] = Keeps-pure tt
reverse_attempts-Sound svc st accounts (a ∷ rows) =
    Keeps-bind _ _ (post_once-Sound _) (λ _. reverse_attempts-Sound svc st accounts rows)

reverse_all-Sound :
    (svc : Services) (st : Settlement) (rows : List Attempt) → Keeps sound (reverse_all svc st rows)
unfolding reverse_all
reverse_all-Sound svc st [] = Keeps-pure tt
reverse_all-Sound svc st (a ∷ rows) = search (parts, reverse_attempts-Sound) depth 6

resolve_attempts-Sound :
    (svc : Services) (now : ℕ) (st : Settlement) (admin : ℕ)
    → Keeps sound (resolve_confirmed_failed_attempts svc now st admin)
unfolding resolve_confirmed_failed_attempts
resolve_attempts-Sound svc now st admin =
    Keeps-bind _ _ (update_attempts-Sound _ _ _) (reverse_all-Sound svc st)

close_attempts-Sound :
    (svc : Services) (now : ℕ) (st : Settlement) (admin : ℕ) (from : Status)
    → Keeps sound (close_attempts svc now st admin from)
unfolding close_attempts
close_attempts-Sound svc now st admin settling = resolve_attempts-Sound svc now st admin
close_attempts-Sound svc now st admin _ = Keeps-pure tt

-- A retry starts where both machines let it.
abbrev CanRetry : Option Origin → Type 0
CanRetry none = Unit
CanRetry (some o) = (o.from ⇒* pending_dispatch) × (o.session_from ⟶* session_settling)

origin_of-CanRetry : (from : Status) (confirmed : Bool) → CanRetry (origin_of from confirmed)
unfolding origin_of
origin_of-CanRetry settlement_failed confirmed =
    (one_move Diagram.retry_failed, one_step session_retries)
origin_of-CanRetry awaiting_manual_payout confirmed = (one_move Diagram.retry_parked, session_here)
origin_of-CanRetry settling true = (one_move Diagram.retry_paged, session_here)
origin_of-CanRetry settling false = tt
origin_of-CanRetry _ confirmed = tt

requeue-Sound :
    (svc : Services) (now : ℕ) (st : Settlement) (admin : ℕ) (destination : Option String)
    (origin : Option Origin)
    → CanRetry origin
    → Keeps sound (requeue svc now st admin destination origin)
unfolding requeue retry_to_settling
requeue-Sound svc now st admin destination none h = Keeps-fail _
requeue-Sound svc now st admin destination (some o) (path, session_path) =
    Keeps-bind _ _ (close_attempts-Sound svc now st admin o.from) (λ _.
      Keeps-bind _ _
        (move-Sound _ st.id o.from pending_dispatch _
          (λ x. advanced_to (ground arith) refl refl here) path)
        (λ moved. Keeps-bind _ _ (require-Sound moved _) (λ _.
          Keeps-bind _ _
            (session_call-Sound _ (cas_transition-evolves _ o.session_from _ now session_path))
            (λ _. get_settlement-Sound st.id))))

pub retry_payout-Sound :
    (svc : Services) (now settlement_id admin : ℕ) (destination : Option String) (confirmed : Bool)
    → Keeps sound (retry_payout svc now settlement_id admin destination confirmed)
unfolding retry_payout
retry_payout-Sound svc now settlement_id admin destination confirmed =
    Keeps-bind _ _ (get_settlement-Sound settlement_id)
      (λ st. requeue-Sound svc now st admin destination _ (origin_of-CanRetry st.status _))

close_reversal-Sound : (id : ℕ) → Keeps sound (close_reversal id)
unfolding close_reversal
close_reversal-Sound id = Keeps-query _ _ (λ s. Sound-elsewhere refl refl refl refl)

resolved_session-Sound :
    (id now : ℕ) → Keeps sound (session_call (transition_to_reversal_resolved id now))
unfolding transition_to_reversal_resolved
resolved_session-Sound id now =
    session_call-Sound _ (cas_transition-evolves id _ _ now (one_step session_resolves))

resolved_row-Sound :
    (id now : ℕ)
    → Keeps sound (
        query database_failed (
          update_settlement
            (is_in id reversed)
            (λ x. record x { status = reversal_resolved; updated_at = now })))
resolved_row-Sound id now =
    move-Sound _ id reversed reversal_resolved _ (λ x. advanced_to (ground arith) refl refl here)
      (one_move Diagram.resolve)

find_reversal-Sound :
    (f : Tables → Result SettlementError Reversal)
    → Keeps sound (query database_failed (λ s. (f s, s)))
find_reversal-Sound f = Keeps-query _ _ Sound-refl

pub resolve_reversal-Sound :
    (svc : Services) (now id : ℕ) (debit credit : AccountRef) (amount : ℤ)
    → Keeps sound (resolve_reversal svc now id debit credit amount)
unfolding resolve_reversal
resolve_reversal-Sound svc now id debit credit amount =
    Keeps-bind _ _ (find_reversal-Sound _) (λ r.
      search (parts, close_reversal-Sound, resolved_row-Sound, resolved_session-Sound) depth 16)

pub page_ops-Sound : (clock now : ℕ) → Keeps sound (page_ops_for_timed_out_confirmations clock now)
unfolding page_ops_for_timed_out_confirmations update_settlement
page_ops-Sound clock now =
    Keeps-bind _ _
      (Keeps-query _ _ (λ s.
        Sound-settlements refl refl refl
          (Advanced-update _ _ (λ x met. IsAdvance-aside x _ _ _ _ _) s.settlements)))
      (λ _. Keeps-pure tt)
