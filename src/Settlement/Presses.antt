-- ===== src/Settlement/Presses.antt =====
-- The worker's tick with the sandbox's confirmations, and a press of a Telegram button
-- (internal/settlement/sandbox_provider.go, manual.go), are sound.
use payment_engine_v.Base.{ℕ, String, Bool, true, false, Option, none, some, List, [], ◌∷◌}
use payment_engine_v.Db.{Answer, Result, ok, err}
use payment_engine_v.Db.Keeps.{Keeps, Keeps-pure, Keeps-fail, Keeps-query, Keeps-bind, Keeps-if}
use payment_engine_v.Settlement.Tables.{Settlement, Attempt, Tables}
use payment_engine_v.Settlement.Services.{Services, Press}
use payment_engine_v.Settlement.Calls.{SettlementError, not_found, not_awaiting_manual_payout}
use payment_engine_v.Settlement.Process.{dispatch_batch}
use payment_engine_v.Settlement.Inbound.{
  confirm_each, confirm_sandbox_dispatches, confirm_after, dispatch_tick, answer_press,
  settle_pressed, take_press, handle_telegram_update,
}
use payment_engine_v.Settlement.Sound.{Sound, sound, Sound-refl, Sound-trans}
use payment_engine_v.Settlement.Rules.{parts}
use payment_engine_v.Settlement.Queue.{dispatch_batch-Sound}
use payment_engine_v.Settlement.Callbacks.{handle_payout_succeeded-Sound, manual_settle-Sound}

confirm_each-Sound :
    (svc : Services) (now : ℕ) (rows : List Attempt) → Keeps sound (confirm_each svc now rows)
unfolding confirm_each
confirm_each-Sound svc now [] = Keeps-pure tt
confirm_each-Sound svc now (a ∷ rows) =
    Keeps-bind _ _ (handle_payout_succeeded-Sound svc now a) (λ _. confirm_each-Sound svc now rows)

confirm_sandbox-Sound :
    (svc : Services) (now : ℕ) → Keeps sound (confirm_sandbox_dispatches svc now)
unfolding confirm_sandbox_dispatches
confirm_sandbox-Sound svc now =
    Keeps-bind _ _ (Keeps-query _ _ Sound-refl) (confirm_each-Sound svc now)

confirm_after-Sound :
    (svc : Services) (now : ℕ) (active : Bool) (s : Tables) (q : Tables × List Answer)
    → Sound s q.0
    → Sound s (confirm_after svc now active q)
confirm_after-Sound svc now false s q p = p
confirm_after-Sound svc now true s (t, rest) p =
    Sound-trans s t _ p ((confirm_sandbox-Sound svc now).at t rest)

pub dispatch_tick-Sound :
    (svc : Services) (now fuel rounds : ℕ) (s : Tables) (answers : List Answer)
    → Sound s (dispatch_tick svc now fuel rounds s answers)
unfolding dispatch_tick
dispatch_tick-Sound svc now fuel rounds s answers =
    confirm_after-Sound svc now _ s (dispatch_batch svc now fuel rounds s answers)
      (dispatch_batch-Sound svc now fuel rounds s answers)

answer_press-Sound : (r : Result SettlementError Settlement) → Keeps sound (answer_press r)
unfolding answer_press
answer_press-Sound (ok st) = Keeps-pure tt
answer_press-Sound (err not_found) = Keeps-pure tt
answer_press-Sound (err not_awaiting_manual_payout) = Keeps-pure tt
answer_press-Sound (err _) = Keeps-fail _

settle_pressed-Sound :
    (svc : Services) (now : ℕ) (by : String) (target : Option ℕ)
    → Keeps sound (settle_pressed svc now by target)
unfolding settle_pressed
settle_pressed-Sound svc now by none = Keeps-pure tt
settle_pressed-Sound svc now by (some id) =
    search (parts, manual_settle-Sound, answer_press-Sound) depth 6

take_press-Sound :
    (svc : Services) (now : ℕ) (press : Option Press) → Keeps sound (take_press svc now press)
unfolding take_press
take_press-Sound svc now none = Keeps-pure tt
take_press-Sound svc now (some p) =
    Keeps-if _ _ _ (settle_pressed-Sound svc now p.by _) (Keeps-pure tt)

pub handle_telegram_update-Sound :
    (svc : Services) (now : ℕ) (secret body : String)
    → Keeps sound (handle_telegram_update svc now secret body)
unfolding handle_telegram_update
handle_telegram_update-Sound svc now secret body = search (parts, take_press-Sound) depth 8
