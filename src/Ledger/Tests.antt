-- ===== src/Ledger/Tests.antt =====
-- Concrete ledgers: internal/ledger run on small inputs, and the theorems at them.
use payment_engine_v.Base.{
  arith, stored, ℕ, ◌≤◌, pos, negsuc, ◌+ℤ◌, ◌-ℤ◌, String, true, false, none, some, [], ◌∷◌, ◌≡◌,
  ◌≢◌, ◌↔◌, ◌⊎◌, refl, All,
}
use payment_engine_v.Db.{transaction, done, refused, lost, ok, err}
use payment_engine_v.Ledger.Tables.{
  Discrepancy, debit, credit, Transaction, AccountRow, Tables, lookup_balance, or_zero,
}
use payment_engine_v.Ledger.Post.{
  add_balance, update_balance, insert_entry, post_entries, insert_transaction, post_body,
  add_to_sum, asset_sums, first_nonzero, validate_balance, entry_flaw, validate_entries, has_key,
  validate, post, already_posted,
}
use payment_engine_v.Ledger.Balanced.{IsWellFormed, debits, credits, validate_iff}
use payment_engine_v.Ledger.Atomic.{add_entries, PostEnd, post_end, posted}
use payment_engine_v.Ledger.Exact.{HasExactAmounts, HasExactBalances}
use payment_engine_v.Ledger.Consistent.{asset_net, IsConsistent, account_net, post-IsConsistent}
use payment_engine_v.Ledger.Claims.{Call, wins, wins-le, post_done, post_taken, balance-post}
use payment_engine_v.Ledger.Reconcile.{
  find_account, drift_of, drifted, publish, flag_body, flag_drift, flag_all, computed_balance,
  has_open, sweep_once, resolve_discrepancy, discrepancy_already_resolved,
}
use payment_engine_v.Ledger.Sweep.{
  IsDrifted, sweep_once_quiet, sweep_once_flags, sweep_once_frame, sweep_once_again,
}
use payment_engine_v.Ledger.Resolve.{
  IsResolved, open_others, resolve_discrepancy_once, resolve_discrepancy_refused,
}
use payment_engine_v.Ledger.Accounts.{has_account_key, find_key, Key, get_or_create_account}
use payment_engine_v.Ledger.Owners.{
  owner, IsKeyedOnce, get_or_create_account-owner, get_or_create_account_again,
}

abbrev account : ℕ → String → AccountRow
account id kind = record {
  id = id;
  tenant_id = none;
  account_type = kind;
  asset_code = "USDT";
  unit_type = "crypto";
  name = kind;
}

abbrev empty : Tables
empty = record {
  accounts = account 1 "treasury_in_transit" ∷ account 2 "crypto_fx_clearing" ∷ [];
  transactions = [];
  entries = [];
  balances = [];
  discrepancies = [];
  outbox = [];
}

abbrev deposit : Transaction
deposit = record {
  idempotency_key = "deposit_confirmed:session_5";
  txn_type = "deposit_confirmed";
  reference_type = "session";
  reference_id = 5;
  created_by = "settlement";
  entries =
      record { account_id = 1; direction = debit; amount = pos 2500000; asset_code = "USDT" }
      ∷ record { account_id = 2; direction = credit; amount = pos 2500000; asset_code = "USDT" }
      ∷ [];
}

-- The ledger after the deposit, and the same with one cached balance overwritten by hand.
abbrev after : Tables
after = posted 7 deposit empty

abbrev tampered : Tables
tampered = record after { balances = (1, pos 9990000) ∷ (2, negsuc 2499999) ∷ [] }

-- What a run of `post` and of `sweep_once` unfolds.
posting : Unit {0}
unfolding post posted validate validate_entries entry_flaw validate_balance first_nonzero asset_sums
    add_to_sum transaction post_body insert_transaction has_key post_entries insert_entry
    update_balance add_entries add_balance stored ◌+ℤ◌ ◌-ℤ◌
posting = tt

sweeping : Unit {0}
unfolding posting sweep_once flag_all flag_drift flag_body publish drifted drift_of find_account
    computed_balance has_open
sweeping = tt

post-deposit : post 7 deposit empty [] ≡ (ok 7, after, [])
unfolding posting
post-deposit = refl

-- A refused third statement leaves nothing behind.
post-broken : (post 7 deposit empty (done ∷ done ∷ done ∷ refused ∷ [])).1 ≡ empty
unfolding posting
post-broken = refl

-- The second payout attempt of one key is refused.
post_twice : (post 8 deposit after []).0 ≡ err already_posted
unfolding posting
post_twice = refl

empty-IsConsistent : IsConsistent empty
unfolding computed_balance asset_net
empty-IsConsistent = record {
  cached = λ a. refl;
  balanced = λ asset. refl;
  unique = tt;
  keyed = tt;
}

-- 250 and 250.
deposit-exact : HasExactAmounts deposit.entries
deposit-exact = (record { above = refl; below = refl }, (record { above = refl; below = refl }, tt))

after-IsConsistent : IsConsistent after
unfolding posting
after-IsConsistent = (post-IsConsistent 7 deposit empty [] deposit-exact tt empty-IsConsistent).0

post-IsConsistent_example :
    IsConsistent (post 7 deposit empty (done ∷ done ∷ lost ∷ [])).1
    × HasExactBalances (post 7 deposit empty (done ∷ done ∷ lost ∷ [])).1.balances
post-IsConsistent_example =
    post-IsConsistent 7 deposit empty (done ∷ done ∷ lost ∷ []) deposit-exact tt empty-IsConsistent

-- A posting of 1.5 units of the columns' last place, as a product may be, and one that takes it back:
-- each entry is rounded away from zero, and so is each balance on its way, so that a unit stays.
abbrev tie : String → ℕ → ℕ → Transaction
tie key from to = record {
  idempotency_key = key;
  txn_type = "fx_conversion";
  reference_type = "session";
  reference_id = 5;
  created_by = "settlement";
  entries =
      record { account_id = from; direction = debit; amount = pos 15000; asset_code = "NGN" }
      ∷ record { account_id = to; direction = credit; amount = pos 15000; asset_code = "NGN" }
      ∷ [];
}

abbrev back_and_forth : Tables
back_and_forth = (post 8 (tie "b" 2 1) (post 7 (tie "a" 1 2) empty []).1 []).1

ties_drift :
    (lookup_balance 1 back_and_forth.balances ≡ some (pos 10000))
    × (computed_balance 1 back_and_forth.entries ≡ pos 0)
unfolding sweeping
ties_drift = (refl, refl)

post_end_example : PostEnd 7 deposit empty (post 7 deposit empty [])
post_end_example = post_end 7 deposit empty []

validate_iff_example : (validate deposit.entries ≡ none) ↔ (
    (deposit.entries ≢ [])
    × All IsWellFormed deposit.entries
    × ((asset : String) → debits asset deposit.entries ≡ credits asset deposit.entries))
validate_iff_example = validate_iff deposit.entries

abbrev call : Call
call = record { id = 7; txn = deposit; answers = [] }

wins-le_example : wins "deposit_confirmed:session_5" (call ∷ call ∷ []) empty ≤ 1
unfolding has_key
wins-le_example = wins-le "deposit_confirmed:session_5" (call ∷ call ∷ []) empty

post_done_example : post 7 deposit empty [] ≡ (ok 7, posted 7 deposit empty, [])
unfolding posting
post_done_example = post_done 7 deposit empty refl (omega arith, (omega arith, tt)) refl

post_taken_example : post 8 deposit after [] ≡ (err already_posted, after, [])
unfolding posting
post_taken_example = post_taken 8 deposit after refl refl

balance-post_example :
    or_zero (lookup_balance 2 (post 7 deposit empty []).1.balances)
    ≡ or_zero (lookup_balance 2 empty.balances) +ℤ account_net 2 deposit.entries
unfolding posting
balance-post_example = balance-post 2 7 deposit empty [] deposit-exact tt refl

sweep_once_quiet_example : (sweep_once true (λ a. a) 3 after []).1 ≡ after
sweep_once_quiet_example = sweep_once_quiet true (λ a. a) 3 after [] after-IsConsistent

sweep_once_flags_example :
    (has_open 1 (sweep_once true (λ a. a) 3 tampered []).1.discrepancies ≡ true)
    ↔ ((has_open 1 tampered.discrepancies ≡ true) ⊎ IsDrifted tampered 1)
sweep_once_flags_example = sweep_once_flags true (λ a. a) 3 1 tampered (refl, (refl, tt))

abbrev swept : Tables
swept = (sweep_once true (λ a. a) 3 tampered []).1

-- The sweep opens a discrepancy for the overwritten account alone.
swept_flags : (has_open 1 swept.discrepancies ≡ true) × (has_open 2 swept.discrepancies ≡ false)
unfolding sweeping
swept_flags = (refl, refl)

sweep_once_frame_example :
    (swept.accounts ≡ tampered.accounts)
    × (swept.transactions ≡ tampered.transactions)
    × (swept.entries ≡ tampered.entries)
    × (swept.balances ≡ tampered.balances)
sweep_once_frame_example = sweep_once_frame true (λ a. a) 3 tampered []

sweep_once_again_example : (sweep_once true (λ a. a) 4 swept []).1 ≡ swept
sweep_once_again_example = sweep_once_again true (λ a. a) (λ a. a) 3 4 tampered

resolve_discrepancy_once_example :
    let (r, s', _) = resolve_discrepancy 1 9 "checked" 5 swept [] in
    ((d : Discrepancy) × (r ≡ ok d) × IsResolved 1 9 "checked" 5 d)
    × (resolve_discrepancy 1 9 "again" 6 s' [] ≡ (err discrepancy_already_resolved, s', []))
    × (open_others 1 s'.discrepancies ≡ open_others 1 swept.discrepancies)
    × (s'.balances ≡ swept.balances)
    × (s'.entries ≡ swept.entries)
resolve_discrepancy_once_example =
    resolve_discrepancy_once 1 9 9 "checked" "again" 5 6 swept (unfold sweeping in refl)

resolve_discrepancy_refused_example :
    resolve_discrepancy 1 9 "checked" 5 after [] ≡ (err discrepancy_already_resolved, after, [])
resolve_discrepancy_refused_example =
    resolve_discrepancy_refused 1 9 "checked" 5 after (unfold posting in refl)

abbrev payable : Key
payable = record { tenant_id = some 4; account_type = "tenant_payable"; asset_code = "NGN" }

get_or_create_account-owner_example :
    let (r, s', _) = get_or_create_account 3 payable "fiat" "Tenant payable" empty [] in
    (id : ℕ) × (r ≡ ok id) × (owner id s'.accounts ≡ some payable) × IsKeyedOnce s'.accounts
get_or_create_account-owner_example =
    get_or_create_account-owner 3 payable "fiat" "Tenant payable" empty
      (unfold find_key has_account_key in (refl, refl, (refl, refl, tt))) refl

get_or_create_account_again_example :
    let (r, s', _) = get_or_create_account 3 payable "fiat" "Tenant payable" empty [] in
    get_or_create_account 9 payable "fiat" "another name" s' [] ≡ (r, s', [])
get_or_create_account_again_example =
    get_or_create_account_again 3 9 payable "fiat" "Tenant payable" "fiat" "another name" empty
